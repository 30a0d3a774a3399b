-- ===== src/Server/System/Grows.antt =====
-- A turn adds to what its thread has done.
use client_server_signaling.Base.{
  ◌≡◌, refl, sym, Text, codes, Bool, true, false, Option, some, none, List, [], ◌++◌, append_assoc,
  append-nil, inl, inr, if_cases, if◌then◌else◌, Bool-cases, Option-cases,
}
use client_server_signaling.Fault.{Result, ok, err, ◌>>=◌, >>=-cases}
use client_server_signaling.UserStore.{UserStore, is_login, has_user, get_user}
use client_server_signaling.Wire.{socket_buffer_size, read_buffer, begins}
use client_server_signaling.Server.Session.{Session, Env, Action, Flow, goes_on, breaks, Turn}
use client_server_signaling.Server.Call.{parse_call, invite}
use client_server_signaling.Server.Loop.{Round, dispatch, close_sockets}
use client_server_signaling.Server.System.{
  Thread, Phase, receiving, ended, asked, found, inviting, alone, after_turn, ask, serve, receive,
  proceed, turn,
}

-- The thread has done more, or nothing more.
abbrev pub Grows : List Action → Result (Thread × UserStore) → Type 0
Grows acts (err f) = Unit
Grows acts (ok (t, users)) = (more : List Action) × (t.actions ≡ acts ++ more)

same-Grows :
    (acts : List Action) (s : Session) (phase : Phase) (users : UserStore)
    → Grows acts (ok (record { session = s; phase = phase; actions = acts }, users))
same-Grows acts s phase users = ([], sym (append-nil acts))

after_turn-Grows :
    (t : Thread) (s : Session) (users users' : UserStore) (actions : List Action) (flow : Flow)
    → Grows t.actions (
        ok (
          after_turn t (record { session = s; users = users; actions = actions; flow = flow }),
          users',
        ))
unfolding after_turn
after_turn-Grows t s users users' actions goes_on = (actions, refl)
after_turn-Grows t s users users' actions breaks =
    (actions ++ close_sockets s, append_assoc t.actions actions (close_sockets s))

branch-Grows :
    (t : Thread) (m : Result Turn) → Grows t.actions (do v ← m; ok (after_turn t v, v.users))
branch-Grows t m =
    >>=-cases (Grows t.actions) m _ (λ f. tt)
      λ v e. after_turn-Grows t v.session v.users v.users v.actions v.flow

receive-Grows :
    (running : Bool) (received : Option Text) (still : Bool) (env : Env) (t : Thread)
    (users : UserStore)
    → Grows t.actions (receive running received still env t users)
unfolding receive serve ask
receive-Grows false received still env t users = (close_sockets t.session, refl)
receive-Grows true none still env t users = (close_sockets t.session, refl)
receive-Grows true (some bytes) false env t users = (close_sockets t.session, refl)
receive-Grows true (some bytes) true env t users =
    >>=-cases (Grows t.actions) (read_buffer socket_buffer_size bytes) _ (λ f. tt)
      λ text _.
        if_cases (Grows t.actions) (begins (codes "CALL") text) _ _
          (>>=-cases (Grows t.actions) (parse_call text) _ (λ f. tt)
            λ (name, sdp) _.
              >>=-cases (Grows t.actions) (is_login name users) _ (λ f. tt)
                λ l _. elim (Bool-cases l) [
                  | inl e ↦ rw e (same-Grows t.actions t.session (asked name sdp) users)
                  | inr e ↦ rw e (same-Grows t.actions t.session t.phase users)
                ])
          (branch-Grows t (dispatch (alone env) t.session users text))

pub turn-Grows :
    (r : Round) (s : Session) (phase : Phase) (actions : List Action) (users : UserStore)
    → Grows actions (turn r (record { session = s; phase = phase; actions = actions }) users)
unfolding turn proceed
turn-Grows r s receiving actions users =
    receive-Grows r.running r.received r.still_running r.env _ users
turn-Grows r s ended actions users = same-Grows actions s ended users
turn-Grows r s (asked name sdp) actions users =
    same-Grows actions s (if has_user name users then found name sdp else receiving) users
turn-Grows r s (found name sdp) actions users = elim (Option-cases (get_user name users)) [
  | inl e ↦ rw (Grows, proceed, e) (same-Grows actions s receiving users)
  | inr (u, e) ↦ rw (Grows, proceed, e) (same-Grows actions s (inviting u name sdp) users)
]
turn-Grows r s (inviting u name sdp) actions users =
    branch-Grows _ (invite (alone r.env) s users u name sdp)
