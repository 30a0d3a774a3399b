-- ===== src/Server/Process/Joined.antt =====
-- What `main` has waited for when it returns.
use client_server_signaling.Base.{
  ◌≡◌, refl, subst, arith, Text, codes, Bool, true, false, Option, none, some, List, [], ◌∷◌, ◌++◌,
  All, All-append, All-focus, if_cases, ℤ, minus_one, int_eq, inl, inr, Bool-cases, Option-cases,
  ◌∙◌, ap, map,
}
use client_server_signaling.Fault.{>>=-cases, Result, ok, err, ◌>>=◌}
use client_server_signaling.UserStore.{UserStore, is_login, has_user, get_user}
use client_server_signaling.Wire.{socket_buffer_size, read_buffer, begins}
use client_server_signaling.Server.Session.{Session, Env, Action, closes, Turn}
use client_server_signaling.Server.Call.{parse_call, invite}
use client_server_signaling.Server.Loop.{Round, dispatch, close_sockets, Flow-cases}
use client_server_signaling.Server.Loop.Closing.{closed_at_end}
use client_server_signaling.Server.System.{
  Phase, receiving, ended, asked, found, inviting, Thread, new_thread, alone, after_turn, ask,
  serve, receive, proceed, turn,
}
use client_server_signaling.Server.System.Shutdown.{turn-ended}
use client_server_signaling.Server.Process.{
  MainPhase, testing, accepting, accepted, starting, joining, returned, Process, process_start,
  has_ended, all_ended, main_step, Move, interrupts, main_moves, thread_moves, Runs, runs_none,
  runs_more,
}

-- A thread that has ended has closed its sockets, and has done nothing after that.
abbrev ClosesLast : Thread → Type 0
ClosesLast t =
    t.phase ≡ ended → (acts : List Action) × (t.actions ≡ acts ++ close_sockets t.session)

-- The same of what a turn leaves, if it is no fault.
abbrev Leaves : Result (Thread × UserStore) → Type 0
Leaves (err f) = Unit
Leaves (ok (t, users)) = ClosesLast t

Leaves-bind {ℓ} :
    {A : Type ℓ} (m : Result A) (f : A → Result (Thread × UserStore))
    → ((a : A) → Leaves (f a))
    → Leaves (m >>= f)
Leaves-bind m f h = >>=-cases Leaves m f (λ why. tt) (λ a e. h a)

not_ended :
    (s : Session) (phase : Phase) (actions : List Action)
    → has_ended phase ≡ false
    → ClosesLast (record { session = s; phase = phase; actions = actions })
not_ended s phase actions h e = absurd (ground arith)

after_turn-ClosesLast : (t : Thread) (v : Turn) → ClosesLast (after_turn t v)
unfolding after_turn
after_turn-ClosesLast t v = elim (Flow-cases v.flow) [
  | inl e ↦ rw e (λ h. (t.actions ++ v.actions, refl))
  | inr e ↦ rw e (not_ended v.session receiving (t.actions ++ v.actions) refl)
]

ask-Leaves :
    (t : Thread) (users : UserStore) (text : Text) → ClosesLast t → Leaves (ask t users text)
unfolding ask
ask-Leaves t users text h = Leaves-bind (parse_call text) _ λ (name, sdp).
    Leaves-bind (is_login name users) _ λ l. elim (Bool-cases l) [
      | inl q ↦ rw q (not_ended t.session (asked name sdp) t.actions refl)
      | inr q ↦ rw q h
    ]

receive-Leaves :
    (running : Bool) (received : Option Text) (still : Bool) (env : Env) (t : Thread)
    (users : UserStore)
    → ClosesLast t
    → Leaves (receive running received still env t users)
unfolding receive serve
receive-Leaves false received still env t users h = λ e. (t.actions, refl)
receive-Leaves true none still env t users h = λ e. (t.actions, refl)
receive-Leaves true (some bytes) false env t users h = λ e. (t.actions, refl)
receive-Leaves true (some bytes) true env t users h =
    Leaves-bind (read_buffer socket_buffer_size bytes) _ λ text.
      if_cases Leaves (begins (codes "CALL") text) _ _ (ask-Leaves t users text h)
        (Leaves-bind (dispatch (alone env) t.session users text) _ λ v. after_turn-ClosesLast t v)

turn-Leaves :
    (r : Round) (s : Session) (phase : Phase) (actions : List Action) (users : UserStore)
    → ClosesLast (record { session = s; phase = phase; actions = actions })
    → Leaves (turn r (record { session = s; phase = phase; actions = actions }) users)
unfolding turn proceed
turn-Leaves r s receiving actions users h =
    receive-Leaves r.running r.received r.still_running r.env _ users h
turn-Leaves r s ended actions users h = h
turn-Leaves r s (asked name sdp) actions users h = elim (Bool-cases (has_user name users)) [
  | inl e ↦ rw e (not_ended s (found name sdp) actions refl)
  | inr e ↦ rw e (not_ended s receiving actions refl)
]
turn-Leaves r s (found name sdp) actions users h = elim (Option-cases (get_user name users)) [
  | inl e ↦ rw (Leaves, proceed, e) (not_ended s receiving actions refl)
  | inr (u, e) ↦ rw (Leaves, proceed, e) (not_ended s (inviting u name sdp) actions refl)
]
turn-Leaves r s (inviting u name sdp) actions users h =
    Leaves-bind (invite (alone r.env) s users u name sdp) _ λ v. after_turn-ClosesLast _ v

all_ended-focus :
    (before : List Thread) (t : Thread) (later : List Thread)
    → all_ended (before ++ t ∷ later) ≡ true
    → t.phase ≡ ended
all_ended-focus [] t later h = has_ended_lem t.phase (ground arith)
  where
    has_ended_lem : (phase : Phase) → has_ended phase ≡ true → phase ≡ ended
    has_ended_lem ended e = refl
    has_ended_lem receiving e = cc
    has_ended_lem (asked name sdp) e = cc
    has_ended_lem (found name sdp) e = cc
    has_ended_lem (inviting u name sdp) e = cc
all_ended-focus (b ∷ before) t later h = all_ended-focus before t later (ground arith)

record IsProper (w : Process) : Type 0 where
  close : All ClosesLast w.threads
  joined : w.main ≡ returned → all_ended w.threads ≡ true

main_step-IsProper :
    (result : ℤ) (users : UserStore) (threads : List Thread) (running : Bool) (main : MainPhase)
    → IsProper (record { users = users; threads = threads; running = running; main = main })
    → IsProper (
        main_step result
          (record { users = users; threads = threads; running = running; main = main }))
unfolding main_step
main_step-IsProper result users threads running testing h = record {
  close = h.close;
  joined = λ e. absurd (ground arith);
}
main_step-IsProper result users threads running accepting h = record {
  close = h.close;
  joined = λ e. absurd (ground arith);
}
main_step-IsProper result users threads running (accepted socket) h = record {
  close = h.close;
  joined = λ e. absurd (ground arith);
}
main_step-IsProper result users threads running (starting socket) h = record {
  close =
      All-append ClosesLast threads (new_thread socket ∷ []) h.close
        (not_ended (new_thread socket).session receiving [] refl, tt);
  joined = λ e. absurd (ground arith);
}
main_step-IsProper result users threads running joining h = record {
  close = h.close;
  joined = λ e. ground arith;
}
main_step-IsProper result users threads running returned h = h

Move-IsProper : (w v : Process) → IsProper w → Move w v → IsProper v
Move-IsProper _ _ h (interrupts sig w) = record { close = h.close; joined = h.joined }
Move-IsProper _ _ h (main_moves result w) =
    main_step-IsProper result w.users w.threads w.running w.main h
Move-IsProper _ _ h (thread_moves before later t t' users users' running main r e e' m) =
    let (hb, ht, hl) = All-focus ClosesLast before t later h.close in
    record {
      close =
          All-append ClosesLast before (t' ∷ later) hb
            (subst Leaves m (turn-Leaves r t.session t.phase t.actions users ht), hl);
      joined = λ q.
          let done = h.joined q in
          rw ((turn-ended r t t' users users' (all_ended-focus before t later done) m).0) done;
    }

Runs-IsProper : (w v : Process) → IsProper w → Runs w v → IsProper v
Runs-IsProper w _ h (runs_none _) = h
Runs-IsProper w _ h (runs_more _ v u rs m) = Move-IsProper v u (Runs-IsProper w v h rs) m

process_start-IsProper : IsProper process_start
process_start-IsProper = record { close = tt; joined = λ e. absurd (ground arith) }

closing_lem :
    (s : Session) → close_sockets s ≡ map closes (closed_at_end s.client_socket s.client_socket_fd)
unfolding close_sockets
closing_lem s = elim (Bool-cases (int_eq s.client_socket_fd minus_one)) [
  | inl e ↦ rw e refl
  | inr e ↦ rw e refl
]

-- When `main` returns after its loop, however signals, `main` and the threads have come after one
-- another: each thread that was started has ended, and the last calls that it made close the socket
-- of its client's requests, once, or twice if it had opened another one to the client's listener.
pub Runs-joined :
    (w : Process) (before later : List Thread) (t : Thread)
    → Runs process_start w
    → w.main ≡ returned
    → w.threads ≡ before ++ t ∷ later
    → (t.phase ≡ ended)
      × ((acts : List Action) × (t.actions
            ≡ acts
              ++ map closes (closed_at_end t.session.client_socket t.session.client_socket_fd)))
Runs-joined w before later t rs m e =
    let h = Runs-IsProper process_start w process_start-IsProper rs in
    let p = all_ended-focus before t later (subst (λ ts. all_ended ts ≡ true) e (h.joined m)) in
    let (acts, q) = (All-focus ClosesLast before t later (subst (All ClosesLast) e h.close)).1 p in
    (p, (acts, q ∙ ap (λ cs. acts ++ cs) (closing_lem t.session)))
