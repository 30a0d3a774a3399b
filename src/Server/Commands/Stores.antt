-- ===== src/Server/Commands/Stores.antt =====
-- Each branch changes the store by operations of the store only.
use client_server_signaling.Base.{◌≡◌, arith, Text, codes, false}
use client_server_signaling.Fault.{ok, >>=-eq-ok}
use client_server_signaling.User.{user}
use client_server_signaling.UserStore.{UserStore, add_user, login_user, log_out_user}
use client_server_signaling.UserStore.Evolves.{
  Evolves, Evolves-refl, Evolves-add_user, Evolves-login_user, Evolves-log_out_user,
}
use client_server_signaling.Wire.{scan_two, word_size}
use client_server_signaling.Server.Session.{Session, Env, Turn}
use client_server_signaling.Server.Commands.{
  handle_client, handle_signup, handle_login, handle_logout, handle_exit, scan_client,
}

same_users : (users users' : UserStore) → users' ≡ users → Evolves users users'
same_users users users' e = rw e (Evolves-refl users)

module _ (env : Env) (s : Session) (users : UserStore) (text : Text) (t : Turn) where
  pub handle_client-Evolves : handle_client env s users text ≡ ok t → Evolves users t.users
  unfolding handle_client
  handle_client-Evolves h =
      let (u, e, h') = >>=-eq-ok (scan_client s text) _ h in same_users users t.users (ground arith)

  pub handle_exit-Evolves : handle_exit env s users ≡ ok t → Evolves users t.users
  unfolding handle_exit
  handle_exit-Evolves h = same_users users t.users (ground arith)

  pub handle_signup-Evolves : handle_signup s users text ≡ ok t → Evolves users t.users
  unfolding handle_signup
  handle_signup-Evolves h =
      let (p, e, h') = >>=-eq-ok (scan_two (codes "SIGNUP") word_size text) _ h in
      let e' : t.users ≡ add_user (user p.0 p.1 false s.client_socket_fd) users = ground arith in
      rw e' (Evolves-add_user p.0 p.1 s.client_socket_fd users)

  pub handle_login-Evolves : handle_login s users text ≡ ok t → Evolves users t.users
  unfolding handle_login
  handle_login-Evolves h =
      let (p, e, h') = >>=-eq-ok (scan_two (codes "LOGIN") word_size text) _ h in
      let e' : t.users ≡ (login_user p.0 p.1 users).0 = ground arith in
      rw e' (Evolves-login_user p.0 p.1 users)

  pub handle_logout-Evolves : handle_logout s users ≡ ok t → Evolves users t.users
  unfolding handle_logout
  handle_logout-Evolves h =
      let e : t.users ≡ log_out_user s.username users = ground arith in
      rw e (Evolves-log_out_user s.username users)
