-- ===== src/Server/Call/Stores.antt =====
-- The CALL branch leaves the store to the other threads.
use client_server_signaling.Base.{◌≡◌, arith, Text, All, inl, inr, Option-cases, Bool-cases}
use client_server_signaling.Fault.{ok, >>=-eq-ok}
use client_server_signaling.User.{User}
use client_server_signaling.UserStore.{UserStore, is_login, has_user, get_user, apply_all}
use client_server_signaling.UserStore.Invariant.{FromServer}
use client_server_signaling.UserStore.Evolves.{
  Evolves, Evolves-refl, Evolves-trans, Evolves-apply_all,
}
use client_server_signaling.Server.Session.{Session, Env, Turn}
use client_server_signaling.Server.Call.{parse_call, invite, handle_call}

-- Other threads run the same code.
pub record Fair (env : Env) : Type 0 where
  pub after_is_login : All FromServer env.after_is_login
  pub after_has_user : All FromServer env.after_has_user
  pub while_waiting : All FromServer env.while_waiting

pub invite-users :
    (env : Env) (s : Session) (users : UserStore) (u : User) (name sdp : Text) (t : Turn)
    → invite env s users u name sdp ≡ ok t
    → t.users ≡ apply_all env.while_waiting users
unfolding invite
invite-users env s users u name sdp t h = ground arith

module _ (env : Env) (users : UserStore) (f : Fair env) where
  first : Evolves users (apply_all env.after_is_login users)
  first = Evolves-apply_all env.after_is_login users f.after_is_login

  second : Evolves users (apply_all env.after_has_user (apply_all env.after_is_login users))
  second = Evolves-trans _ _ _ first (Evolves-apply_all env.after_has_user _ f.after_has_user)

  third : Evolves users (
      apply_all env.while_waiting
        (apply_all env.after_has_user (apply_all env.after_is_login users)))
  third = Evolves-trans _ _ _ second (Evolves-apply_all env.while_waiting _ f.while_waiting)

pub handle_call-Evolves :
    (env : Env) (s : Session) (users : UserStore) (text : Text) (t : Turn)
    → Fair env
    → handle_call env s users text ≡ ok t
    → Evolves users t.users
unfolding handle_call
handle_call-Evolves env s users text t f h =
    let (p, _, h1) = >>=-eq-ok (parse_call text) _ h in
    let (l, _, h2) = >>=-eq-ok (is_login p.0 users) _ h1 in
    let users1 = apply_all env.after_is_login users in
    let users2 = apply_all env.after_has_user users1 in
    elim (Bool-cases l) [
      | inr e ↦ let q : t.users ≡ users = ground arith in rw q (Evolves-refl users)
      | inl e ↦ elim (Bool-cases (has_user p.0 users1)) [
        | inr e' ↦ let q : t.users ≡ users1 = ground arith in rw q (first env users f)
        | inl e' ↦ elim (Option-cases (get_user p.0 users2)) [
          | inl e'' ↦ let q : t.users ≡ users2 = ground arith in rw q (second env users f)
          | inr (u, e'') ↦
              let q : t.users ≡ apply_all env.while_waiting users2 =
                ground (arith, invite-users env s users2 u p.0 p.1 t) in
              rw q (third env users f)
        ]
      ]
    ]
