-- ===== src/Server/Loop/Closing.antt =====
-- The sockets that a thread closes.
use client_server_signaling.Base.{
  ◌≡◌, arith, Text, List, [], ◌∷◌, if◌then◌else◌, ℤ, minus_one, int_eq, inl, inr, Option-cases,
}
use client_server_signaling.Fault.{ok, >>=-eq-ok, Result-cases}
use client_server_signaling.UserStore.{UserStore, apply_all}
use client_server_signaling.Wire.{read_buffer, socket_buffer_size}
use client_server_signaling.Server.Session.{Session, Env, goes_on, breaks, Turn}
use client_server_signaling.Server.Commands.Closing.{
  closed, closed-append, IsPlainTurn, handle_client-IsPlainTurn, handle_signup-IsPlainTurn,
  handle_login-IsPlainTurn, handle_logout-IsPlainTurn, handle_exit-IsPlainTurn,
}
use client_server_signaling.Server.Call.Closing.{handle_call-IsPlainTurn}
use client_server_signaling.Server.Loop.{
  Round, dispatch, round, close_sockets, run_rounds, then_do, Flow-cases,
}

dispatch-IsPlainTurn :
    (env : Env) (s : Session) (users : UserStore) (text : Text) (t : Turn)
    → dispatch env s users text ≡ ok t
    → IsPlainTurn s t
unfolding dispatch
dispatch-IsPlainTurn env s users text t h = ground (
  arith,
  handle_client-IsPlainTurn env s users text t,
  handle_signup-IsPlainTurn s users text t,
  handle_login-IsPlainTurn s users text t,
  handle_call-IsPlainTurn env s users text t,
  handle_logout-IsPlainTurn s users t,
  handle_exit-IsPlainTurn env s users t,
)

round-IsPlainTurn :
    (r : Round) (s : Session) (users : UserStore) (t : Turn)
    → round r s users ≡ ok t
    → IsPlainTurn s t
unfolding round
round-IsPlainTurn r s users t h = elim (Option-cases r.received) [
  | inl e ↦ ground arith
  | inr (bytes, e) ↦ elim (Result-cases (read_buffer socket_buffer_size bytes)) [
    | inl (text, e') ↦
        ground (arith, dispatch-IsPlainTurn r.env s (apply_all r.others users) text t)
    | inr (f, e') ↦ ground arith
  ]
]

-- What a thread with these sockets closes at its end.
abbrev pub closed_at_end : ℤ → ℤ → List ℤ
closed_at_end socket fd = if int_eq fd minus_one then socket ∷ [] else socket ∷ socket ∷ []

abbrev pub expected : Session → Turn → List ℤ
expected s t = elim t.flow [
  | goes_on ↦ []
  | breaks ↦ closed_at_end s.client_socket t.session.client_socket_fd
]

-- A thread that waits has closed nothing. One that has ended has closed `client_socket`, twice if
-- it had opened the other socket, and has never closed that other one.
pub closed-run_rounds :
    (rs : List Round) (s : Session) (users : UserStore) (t : Turn)
    → run_rounds rs s users ≡ ok t
    → closed t.actions ≡ expected s t
unfolding run_rounds close_sockets
closed-run_rounds [] s users t h = ground arith
closed-run_rounds (r ∷ rs) s users t h =
    let (u, e, h') = >>=-eq-ok (round r s users) _ h in
    let p = round-IsPlainTurn r s users u e in
    elim (Flow-cases u.flow) [
      | inl ends ↦ ground (
        arith,
        ends,
        p.same_socket,
        p.closes_nothing,
        closed-append u.actions (close_sockets u.session),
      )
      | inr goes ↦
          let rest : then_do u (run_rounds rs u.session u.users) ≡ ok t = ground arith in
          let (v, e', h'') = >>=-eq-ok (run_rounds rs u.session u.users) _ rest in
          ground (
            arith,
            p.same_socket,
            p.closes_nothing,
            closed-append u.actions v.actions,
            closed-run_rounds rs u.session u.users v e',
          )
    ]
