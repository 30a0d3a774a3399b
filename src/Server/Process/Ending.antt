-- ===== src/Server/Process/Ending.antt =====
-- How many moves of the process there can be after SIGINT, and what moves before its end.
use client_server_signaling.Base.{
  ℕ, suc, ◌+◌, ◌*◌, ◌≤◌, ◌<◌, ◌≡◌, ◌≢◌, refl, sym, subst, ap, arith, true, false, List, [], ◌∷◌,
  length, All, ◌⊎◌, inl, inr, ℤ, Text, Bool, Option, none, some,
}
use client_server_signaling.Fault.{Fault, ok, err, Result-cases}
use client_server_signaling.UserStore.{UserStore}
use client_server_signaling.Server.Loop.{Round}
use client_server_signaling.Server.Session.{Session, Env, Action}
use client_server_signaling.Server.System.{
  Phase, receiving, ended, asked, found, inviting, Thread, ends, receive, proceed, turn,
}
use client_server_signaling.Server.System.Shutdown.{rank, total-le, turn-rank, Open, Open-cases}
use client_server_signaling.Server.Process.{
  MainPhase, testing, accepting, accepted, starting, joining, returned, Process, all_ended,
  main_step, Move,
}
use client_server_signaling.Server.Process.Winding.{
  main_rank, measure, started, starts-le, total-append, Move-Falls,
}

-- That many moves that change something, in any order.
pub data Winds (s : Process) : ℕ → Process → Type 0 where
  winds_none : Winds s 0 s
  winds_more : (n : ℕ) (w v : Process) → Winds s n w → Move w v → w ≢ v → Winds s (suc n) v

record Bounded (s : Process) (n : ℕ) (w : Process) : Type 0 where
  cleared : w.running ≡ false
  counted : started w ≤ started s
  bounded : n + measure w ≤ measure s

Winds-Bounded :
    (s : Process) (n : ℕ) (w : Process) → s.running ≡ false → Winds s n w → Bounded s n w
Winds-Bounded s _ _ h winds_none = record {
  cleared = h;
  counted = omega arith;
  bounded = omega arith;
}
Winds-Bounded s _ _ h (winds_more n w v ws m k) =
    let b = Winds-Bounded s n w h ws in
    let f = Move-Falls w v b.cleared m in
    record {
      cleared = f.cleared;
      counted = omega (arith, b.counted, f.counted);
      bounded = elim f.falls [ inl e ↦ absurd (k (sym e)) | inr l ↦ omega (arith, b.bounded, l) ];
    }

main_rank-le : (main : MainPhase) → main_rank main ≤ 4
main_rank-le testing = omega arith
main_rank-le accepting = omega arith
main_rank-le joining = omega arith
main_rank-le returned = omega arith
main_rank-le (accepted socket) = omega arith
main_rank-le (starting socket) = omega arith

-- The next turn of a thread whose calls return this: a thread in `recv` ends with it, whatever it
-- is; a thread within a CALL has fewer turns left after it, unless it is a fault.
abbrev pub Advances : Round → UserStore → Thread → Type 0
Advances r users t = elim t.phase [
  | receiving ↦ (t' : Thread) × (turn r t users ≡ ok (t', users)) × (t'.phase ≡ ended)
  | ended ↦ turn r t users ≡ ok (t, users)
  | phase ↦
      ((f : Fault) × (turn r t users ≡ err f))
      ⊎ ((t' : Thread) × (users' : UserStore) × (turn r t users ≡ ok (t', users'))
          × (rank t'.phase < rank t.phase))
]

-- The next step of `main`, with what `accept` returns.
abbrev pub MovesOn : ℤ → Process → Type 0
MovesOn result w =
    (w.main ≡ returned) ⊎ (((w.main ≡ joining) × Open w.threads) ⊎ (main_step result w ≢ w))

main_step-moves :
    (result : ℤ) (users : UserStore) (threads : List Thread) (main : MainPhase)
    → let w : Process = record { users = users; threads = threads; running = false; main = main } in
      measure (main_step result w) < measure w → MovesOn result w
main_step-moves result users threads main l = inr (inr (λ e. omega (arith, ap measure e)))

all_ended_of_All : (ts : List Thread) → All (λ t. t.phase ≡ ended) ts → all_ended ts ≡ true
all_ended_of_All [] h = refl
all_ended_of_All (t ∷ ts) h = rw (h.0, all_ended_of_All ts h.1)

within_call :
    (r : Round) (users : UserStore) (t : Thread)
    → r.still_running ≡ false
    → t.phase ≢ ended
    → ((f : Fault) × (turn r t users ≡ err f))
      ⊎ ((t' : Thread) × (users' : UserStore) × (turn r t users ≡ ok (t', users'))
          × (rank t'.phase < rank t.phase))
within_call r users t h k = elim (Result-cases (turn r t users)) [
  | inr (f, e) ↦ inl (f, e)
  | inl ((t', users'), e) ↦ inr (t', users', e, turn-rank r t t' users users' h k e)
]

receive-ends :
    (running : Bool) (received : Option Text) (env : Env) (t : Thread) (users : UserStore)
    → receive running received false env t users ≡ ok (ends t, users)
unfolding receive
receive-ends false received env t users = refl
receive-ends true none env t users = refl
receive-ends true (some bytes) env t users = refl

turn-Advances :
    (r : Round) (users : UserStore) (s : Session) (phase : Phase) (actions : List Action)
    → r.still_running ≡ false
    → Advances r users (record { session = s; phase = phase; actions = actions })
unfolding turn proceed
turn-Advances r users s receiving actions h =
    let t : Thread = record { session = s; phase = receiving; actions = actions } in
    (ends t, rw h (receive-ends r.running r.received r.env t users), refl)
turn-Advances r users s ended actions h = refl
turn-Advances r users s (asked name sdp) actions h =
    within_call r users (record { session = s; phase = asked name sdp; actions = actions }) h
      (λ e. ground arith)
turn-Advances r users s (found name sdp) actions h =
    within_call r users (record { session = s; phase = found name sdp; actions = actions }) h
      (λ e. ground arith)
turn-Advances r users s (inviting u name sdp) actions h =
    within_call r users (record { session = s; phase = inviting u name sdp; actions = actions }) h
      (λ e. ground arith)

All-Advances :
    (r : Round) (users : UserStore) (ts : List Thread)
    → r.still_running ≡ false
    → All (Advances r users) ts
All-Advances r users [] h = tt
All-Advances r users (t ∷ ts) h =
    (turn-Advances r users t.session t.phase t.actions h, All-Advances r users ts h)

cleared-MovesOn :
    (result : ℤ) (users : UserStore) (threads : List Thread) (main : MainPhase)
    → MovesOn result (record { users = users; threads = threads; running = false; main = main })
unfolding main_step
cleared-MovesOn result users threads testing =
    main_step-moves result users threads testing (omega arith)
cleared-MovesOn result users threads accepting =
    main_step-moves result users threads accepting (omega arith)
cleared-MovesOn result users threads (accepted socket) =
    main_step-moves result users threads (accepted socket) (omega arith)
cleared-MovesOn result users threads (starting socket) =
    main_step-moves result users threads (starting socket)
      (omega (arith, total-append threads socket))
cleared-MovesOn result users threads joining = elim (Open-cases threads) [
  | inl all ↦
      main_step-moves result users threads joining (rw (all_ended_of_All threads all) (omega arith))
  | inr o ↦ inr (inl (refl, o))
]
cleared-MovesOn result users threads returned = inl refl

-- Once `running` is cleared, whatever the order of the moves and with more signals among them,
-- there are at most four moves of `main` and four for each thread that change something, and at
-- most one more thread is started. After any such moves a thread in `recv` ends when `recv`
-- returns, whatever it returns; a thread within a CALL has fewer turns left after its next one,
-- unless that is a fault; and `main`, whatever `accept` returns, changes by its next step, unless
-- it has returned or joins a thread that has not ended.
pub Winds-ends :
    (s w : Process) (n : ℕ) (r : Round) (result : ℤ)
    → s.running ≡ false
    → Winds s n w
    → r.still_running ≡ false
    → (n ≤ 4 + 4 * length s.threads)
      × (length w.threads ≤ suc (length s.threads))
      × All (Advances r w.users) w.threads
      × MovesOn result w
Winds-ends s w n r result h ws still =
    let b = Winds-Bounded s n w h ws in
    (
      omega (arith, b.bounded, total-le s.threads, main_rank-le s.main),
      omega (arith, b.counted, starts-le s.main),
      All-Advances r w.users w.threads still,
      subst (λ x. MovesOn result (record w { running = x })) (sym b.cleared)
          (cleared-MovesOn result w.users w.threads w.main),
    )
