-- ===== src/Server/Commands/Sockets/Branches.antt =====
-- The branches for CLIENT, SIGNUP, LOGIN, LOGOUT and EXIT use the sockets that they should.
use client_server_signaling.Base.{
  ◌≡◌, refl, arith, Text, codes, Bool, false, true, List, [], ◌∷◌, ◌++◌, if_cases, inl, inr, ℤ,
  minus_one, pos, All, All-append, int_eq, if◌then◌else◌,
}
use client_server_signaling.UserStore.{UserStore}
use client_server_signaling.Wire.{scan_two, word_size, socket_buffer_size}
use client_server_signaling.Server.Session.{Session, Env, Action, sends, goes_on, breaks, Turn}
use client_server_signaling.Server.Commands.{
  handle_client, handle_signup, handle_login, handle_logout, handle_exit, scan_client,
  connect_to_client, connected, hello,
}
use client_server_signaling.Server.Commands.Closing.{scan_client-same_socket}
use client_server_signaling.Wire.{c_string}
use client_server_signaling.Server.Commands.{signup_reply, login_reply, logout_reply, exit_reply}
use client_server_signaling.Server.Commands.Sockets.{
  EndsIn, Opened, Opened-left, Aimed, Stored, Stored-add_user, Stored-login_user,
  Stored-log_out_user, IsFine, Fair, Fair-ok, Fair-bind,
}

-- A result of `connect_to_client` that is 0 comes with a call of `connect` on its socket.
abbrev Opens : ℤ × List Action × ℤ → Type 0
Opens (fd, calls, rc) = int_eq rc (pos 0) ≡ true → Opened fd calls

connect_to_client-Opens : (env : Env) (ip : Text) (port : ℤ) → Opens (connect_to_client env ip port)
unfolding connect_to_client
connect_to_client-Opens env ip port =
    if_cases Opens (int_eq env.socket_result minus_one) _ _ (λ h. absurd (ground arith))
      (if_cases Opens (env.inet_pton_ok ip) _ _ (λ h. inl refl) (λ h. absurd (ground arith)))

-- The turn after `connect_to_client`.
abbrev connected_if : Bool → Session → UserStore → ℤ → List Action → Turn
connected_if succeeds u users fd calls =
    let t = record u { client_socket_fd = fd } in
    if succeeds
    then record {
      session = t;
      users = users;
      actions = calls ++ sends fd hello socket_buffer_size ∷ [];
      flow = goes_on;
    }
    else record { session = t; users = users; actions = calls; flow = breaks }

-- The texts that the server sends of its own.
signup_reply-EndsIn : EndsIn socket_buffer_size signup_reply
unfolding c_string
signup_reply-EndsIn = omega arith

login_reply-EndsIn : EndsIn socket_buffer_size login_reply
unfolding c_string
login_reply-EndsIn = omega arith

logout_reply-EndsIn : EndsIn socket_buffer_size logout_reply
unfolding c_string
logout_reply-EndsIn = omega arith

exit_reply-EndsIn : EndsIn socket_buffer_size exit_reply
unfolding c_string
exit_reply-EndsIn = omega arith

hello-EndsIn : EndsIn socket_buffer_size hello
unfolding c_string
hello-EndsIn = omega arith

exit-EndsIn : EndsIn 5 (codes "EXIT")
unfolding c_string
exit-EndsIn = omega arith

module _ (K : ℤ → Type 0) where
  pub handle_signup-Fair :
      (s : Session) (users : UserStore) (text : Text) → Fair K s users (handle_signup s users text)
  unfolding handle_signup
  handle_signup-Fair s users text =
      Fair-bind K s users (scan_two (codes "SIGNUP") word_size text) _ λ (name, password) _.
        Fair-ok K s users _ λ k h _. record {
          aimed = ((inl refl, signup_reply-EndsIn), tt);
          stored = Stored-add_user K name password s.client_socket_fd users k h;
          same_socket = refl;
          owned = inr (inl refl);
        }

  pub handle_login-Fair :
      (s : Session) (users : UserStore) (text : Text) → Fair K s users (handle_login s users text)
  unfolding handle_login
  handle_login-Fair s users text =
      Fair-bind K s users (scan_two (codes "LOGIN") word_size text) _ λ (name, password) _.
        Fair-ok K s users _ λ k h _. record {
          aimed = ((inl refl, login_reply-EndsIn), tt);
          stored = Stored-login_user K name password users h;
          same_socket = refl;
          owned = inr (inl refl);
        }

  pub handle_logout-Fair :
      (s : Session) (users : UserStore) → Fair K s users (handle_logout s users)
  unfolding handle_logout
  handle_logout-Fair s users = Fair-ok K s users _ λ k h _. record {
    aimed = ((inl refl, logout_reply-EndsIn), tt);
    stored = Stored-log_out_user K s.username users h;
    same_socket = refl;
    owned = inr (inl refl);
  }

  pub handle_exit-Fair :
      (env : Env) (s : Session) (users : UserStore) → Fair K s users (handle_exit env s users)
  unfolding handle_exit
  handle_exit-Fair env s users = Fair-ok K s users _ λ k h _. record {
    aimed = (
      (inl refl, exit_reply-EndsIn),
      if_cases (All (Aimed K s.client_socket)) (env.send_ok s.client_socket) _ _
          ((inr k, exit-EndsIn), tt) tt,
    );
    stored = h;
    same_socket = refl;
    owned = inl refl;
  }

  connect_to_client-Aimed :
      (env : Env) (ip : Text) (port socket : ℤ)
      → All (Aimed K socket) (connect_to_client env ip port).1
  unfolding connect_to_client
  connect_to_client-Aimed env ip port socket =
      if_cases (λ (c : ℤ × List Action × ℤ). All (Aimed K socket) c.1)
        (int_eq env.socket_result minus_one) _ _ tt
        (if_cases (λ (c : ℤ × List Action × ℤ). All (Aimed K socket) c.1) (env.inet_pton_ok ip) _ _
          (tt, tt) tt)

  -- After `connect_to_client`, which has opened the socket if it returns 0.
  connected-IsFine :
      (s u : Session) (users : UserStore) (fd : ℤ) (calls : List Action) (rc : ℤ)
      → u.client_socket ≡ s.client_socket
      → All (Aimed K s.client_socket) calls
      → (int_eq rc (pos 0) ≡ true → Opened fd calls)
      → Stored K users
      → ((g : ℤ) → Opened g (connected u users (fd, calls, rc)).actions → K g)
      → IsFine K s (connected u users (fd, calls, rc))
  unfolding connected
  connected-IsFine s u users fd calls rc same aimed o h opened = go (int_eq rc (pos 0)) o opened
    where
      go :
          (succeeds : Bool)
          → (succeeds ≡ true → Opened fd calls)
          → ((g : ℤ) → Opened g (connected_if succeeds u users fd calls).actions → K g)
          → IsFine K s (connected_if succeeds u users fd calls)
      go true o opened = record {
        aimed =
            All-append (Aimed K s.client_socket) calls _ aimed
              ((inr (opened fd (Opened-left fd calls _ (o refl))), hello-EndsIn), tt);
        stored = h;
        same_socket = same;
        owned = inr (inr (Opened-left fd calls _ (o refl)));
      }
      go false o opened = record { aimed = aimed; stored = h; same_socket = same; owned = inl refl }

  pub handle_client-Fair :
      (env : Env) (s : Session) (users : UserStore) (text : Text)
      → Fair K s users (handle_client env s users text)
  unfolding handle_client connect_to_client
  handle_client-Fair env s users text = Fair-bind K s users (scan_client s text) _ λ u e.
      Fair-ok K s users _ λ k h opened.
        let ip = u.client_ip_address in
        let port = u.client_port_int in
        connected-IsFine s u users (connect_to_client env ip port).0
          (connect_to_client env ip port).1 (connect_to_client env ip port).2
          (scan_client-same_socket s u text e) (connect_to_client-Aimed env ip port s.client_socket)
          (connect_to_client-Opens env ip port) h opened
