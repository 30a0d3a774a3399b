-- ===== src/Server/Call/Closing.antt =====
-- The CALL branch closes no socket either.
use client_server_signaling.Base.{◌≡◌, inl, inr, Option-cases, arith, Text}
use client_server_signaling.Fault.{ok, >>=-eq-ok}
use client_server_signaling.User.{User}
use client_server_signaling.UserStore.{UserStore, is_login, get_user, apply_all}
use client_server_signaling.Server.Session.{Session, Env, Turn}
use client_server_signaling.Server.Commands.Closing.{IsPlainTurn}
use client_server_signaling.Server.Call.{parse_call, invite, handle_call}

invite-IsPlainTurn :
    (env : Env) (s : Session) (users : UserStore) (u : User) (name sdp : Text) (t : Turn)
    → invite env s users u name sdp ≡ ok t
    → IsPlainTurn s t
unfolding invite
invite-IsPlainTurn env s users u name sdp t h = ground arith

pub handle_call-IsPlainTurn :
    (env : Env) (s : Session) (users : UserStore) (text : Text) (t : Turn)
    → handle_call env s users text ≡ ok t
    → IsPlainTurn s t
unfolding handle_call
handle_call-IsPlainTurn env s users text t h =
    let (p, _, h1) = >>=-eq-ok (parse_call text) _ h in
    let (_, _, h2) = >>=-eq-ok (is_login p.0 users) _ h1 in
    let at_get = apply_all env.after_has_user (apply_all env.after_is_login users) in
    elim (Option-cases (get_user p.0 at_get)) [
      | inl e ↦ ground arith
      | inr (u, e) ↦ ground (arith, invite-IsPlainTurn env s at_get u p.0 p.1 t)
    ]
