-- ===== src/Server/Process/Winding.antt =====
-- The end of the process after SIGINT.
use client_server_signaling.Base.{
  ℕ, suc, ◌+◌, ◌≤◌, ◌<◌, ◌≡◌, refl, sym, ◌∙◌, subst, ap, arith, Bool, false, List, [], ◌∷◌, ◌++◌,
  length, length-append, ◌⊎◌, inl, inr, Bool-cases, ℤ,
}
use client_server_signaling.Fault.{ok}
use client_server_signaling.UserStore.{UserStore}
use client_server_signaling.Server.Loop.{Round, signal_handler}
use client_server_signaling.Server.System.{Thread, new_thread, turn}
use client_server_signaling.Server.System.Shutdown.{
  total, total-focus, turn-rank, ended_cases, turn-ended,
}
use client_server_signaling.Server.Process.{
  MainPhase, testing, accepting, accepted, starting, joining, returned, Process, all_ended,
  main_step, Move, interrupts, main_moves, thread_moves,
}

-- How many steps `main` may still take, and one for the first turn of a thread that it starts.
abbrev pub main_rank : MainPhase → ℕ
main_rank returned = 0
main_rank joining = 1
main_rank testing = 2
main_rank (accepted socket) = 2
main_rank accepting = 3
main_rank (starting socket) = 4

abbrev pub measure : Process → ℕ
measure w = main_rank w.main + total w.threads

abbrev pub starts : MainPhase → ℕ
starts (starting socket) = 1
starts phase = 0

pub starts-le : (main : MainPhase) → starts main ≤ 1
starts-le testing = omega arith
starts-le accepting = omega arith
starts-le joining = omega arith
starts-le returned = omega arith
starts-le (accepted socket) = omega arith
starts-le (starting socket) = omega arith

-- How many threads there are, with the one that `main` is about to start.
abbrev pub started : Process → ℕ
started w = length w.threads + starts w.main

pub total-append :
    (ts : List Thread) (socket : ℤ) → total (ts ++ new_thread socket ∷ []) ≡ total ts + 1
total-append [] socket = omega arith
total-append (t ∷ ts) socket = omega (arith, total-append ts socket)

-- A move after the clearing, at its two ends.
pub record Falls (w v : Process) : Type 0 where
  pub cleared : v.running ≡ false
  pub counted : started v ≤ started w
  pub falls : (v ≡ w) ⊎ (measure v < measure w)

main_step-Falls :
    (result : ℤ) (users : UserStore) (threads : List Thread) (main : MainPhase)
    → let w : Process = record { users = users; threads = threads; running = false; main = main } in
      Falls w (main_step result w)
unfolding main_step
main_step-Falls result users threads testing = record {
  cleared = refl;
  counted = omega arith;
  falls = inr (omega arith);
}
main_step-Falls result users threads accepting = record {
  cleared = refl;
  counted = omega arith;
  falls = inr (omega arith);
}
main_step-Falls result users threads (accepted socket) = record {
  cleared = refl;
  counted = omega arith;
  falls = inr (omega arith);
}
main_step-Falls result users threads (starting socket) = record {
  cleared = refl;
  counted = omega (arith, length-append threads (new_thread socket ∷ []));
  falls = inr (omega (arith, total-append threads socket));
}
main_step-Falls result users threads joining = elim (Bool-cases (all_ended threads)) [
  | inl e ↦ rw e (record { cleared = refl; counted = omega arith; falls = inr (omega arith) })
  | inr e ↦ rw e (record { cleared = refl; counted = omega arith; falls = inl refl })
]
main_step-Falls result users threads returned = record {
  cleared = refl;
  counted = omega arith;
  falls = inl refl;
}

handled : (sig : ℕ) (running : Bool) → running ≡ false → signal_handler sig running ≡ running
handled sig running h = ground arith

length-focus :
    (before : List Thread) (t t' : Thread) (later : List Thread)
    → length (before ++ t' ∷ later) ≡ length (before ++ t ∷ later)
length-focus [] t t' later = refl
length-focus (b ∷ before) t t' later = ap suc (length-focus before t t' later)

pub thread-Falls :
    (before later : List Thread) (t t' : Thread) (users users' : UserStore) (main : MainPhase)
    (r : Round)
    → r.still_running ≡ false
    → turn r t users ≡ ok (t', users')
    → Falls
        (record { users = users; threads = before ++ t ∷ later; running = false; main = main })
        (record { users = users'; threads = before ++ t' ∷ later; running = false; main = main })
thread-Falls before later t t' users users' main r h m = record {
  cleared = refl;
  counted = rw (length-focus before t t' later) (omega arith);
  falls = elim (ended_cases t.phase) [
    | inl p ↦
        let (same_thread, same_users) = turn-ended r t t' users users' p m in
        inl (rw (same_thread, same_users) refl)
    | inr k ↦
        inr (omega (arith, total-focus before t t' later (turn-rank r t t' users users' h k m)))
  ];
}

pub Move-Falls : (w v : Process) → w.running ≡ false → Move w v → Falls w v
Move-Falls _ _ h (interrupts sig w) = record {
  cleared = handled sig w.running h ∙ h;
  counted = omega arith;
  falls = inl (ap (λ b. record w { running = b }) (handled sig w.running h));
}
Move-Falls _ _ h (main_moves result w) =
    subst (λ b. Falls (record w { running = b }) (main_step result (record w { running = b })))
      (sym h) (main_step-Falls result w.users w.threads w.main)
Move-Falls _ _ h (thread_moves before later t t' users users' running main r e e' m) =
    subst
      (λ b.
        Falls (record { users = users; threads = before ++ t ∷ later; running = b; main = main })
          (record { users = users'; threads = before ++ t' ∷ later; running = b; main = main }))
      (sym h) (thread-Falls before later t t' users users' main r (e ∙ h) m)
