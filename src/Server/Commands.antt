-- ===== src/Server/Commands.antt =====
-- The branches of `client_handler` for CLIENT, SIGNUP, LOGIN, LOGOUT and EXIT.
pub mod Replies
pub mod Accounts
pub mod Stores
pub mod Closing
pub mod Sockets
pub mod Address
use client_server_signaling.Base.{
  ℕ, Text, codes, Bool, true, false, Option, none, some, List, [], ◌∷◌, ◌++◌, if◌then◌else◌, ℤ, pos,
  negsuc, minus_one, int_eq,
}
use client_server_signaling.Fault.{Result, ok, err, ◌>>=◌}
use client_server_signaling.User.{user}
use client_server_signaling.UserStore.{UserStore, add_user, login_user, log_out_user}
use client_server_signaling.Wire.{
  socket_buffer_size, word_size, ip_size, literal, scan_word, store_word, scan_two, scan_int,
}
use client_server_signaling.Server.Session.{
  Session, Env, Action, connects, sends, Turn, goes_on, breaks,
}

-- The new `*client_socket_fd`, what is called, and the value returned.
unfoldable pub connect_to_client : Env → Text → ℤ → ℤ × List Action × ℤ
connect_to_client env ip port =
    let fd = env.socket_result in
    if int_eq fd minus_one
    then (fd, [], minus_one)
    else if env.inet_pton_ok ip
    then (fd, connects fd ip port ∷ [], if env.connect_ok then pos 0 else minus_one)
    else (fd, [], minus_one)

-- `sscanf(buffer, "CLIENT %s %d", client_ip_address, &client_port_int)`: what is not matched keeps
-- its value.
pub scan_client : Session → Text → Result Session
scan_client s text = elim (literal (codes "CLIENT") text) [
  | none ↦ ok s
  | some r ↦ elim (scan_word r) [
    | none ↦ ok s
    | some (w, r') ↦ do
      ip ← store_word ip_size w
      let t = record s { client_ip_address = ip }
      elim (scan_int r') [
        | none ↦ ok t
        | some number ↦ (do port ← number; ok (record t { client_port_int = port }))
      ]
  ]
]

abbrev pub hello : Text
hello = codes "Hello from new server\n"

connected : Session → UserStore → ℤ × List Action × ℤ → Turn
connected s users (fd, calls, rc) =
    let t = record s { client_socket_fd = fd } in
    if int_eq rc (pos 0)
    then record {
      session = t;
      users = users;
      actions = calls ++ sends fd hello socket_buffer_size ∷ [];
      flow = goes_on;
    }
    else record { session = t; users = users; actions = calls; flow = breaks }

unfoldable pub handle_client : Env → Session → UserStore → Text → Result Turn
unfolding connected
handle_client env s users text = do
  t ← scan_client s text
  ok (connected t users (connect_to_client env t.client_ip_address t.client_port_int))

abbrev pub signup_reply : Text
signup_reply = codes "Signup is successful\n"

abbrev pub login_reply : Text
login_reply = codes "Login is successful\n"

abbrev pub logout_reply : Text
logout_reply = codes "Logout is successful\n"

abbrev pub exit_reply : Text
exit_reply = codes "Exit is succesful\n"

abbrev pub replies : Session → UserStore → Text → Turn
replies s users message = record {
  session = s;
  users = users;
  actions = sends s.client_socket message socket_buffer_size ∷ [];
  flow = goes_on;
}

unfoldable pub handle_signup : Session → UserStore → Text → Result Turn
handle_signup s users text = do
  (name, password) ← scan_two (codes "SIGNUP") word_size text
  let t = record s { username = name; password = password }
  ok (replies t (add_user (user name password false s.client_socket_fd) users) signup_reply)

-- The result of `loginUser` is not looked at.
unfoldable pub handle_login : Session → UserStore → Text → Result Turn
handle_login s users text = do
  (name, password) ← scan_two (codes "LOGIN") word_size text
  let t = record s { username = name; password = password }
  ok (replies t (login_user name password users).0 login_reply)

-- The message is not read: the session's last name is logged out.
unfoldable pub handle_logout : Session → UserStore → Result Turn
handle_logout s users = ok (replies s (log_out_user s.username users) logout_reply)

-- `sizeof("EXIT")` is 5. Each path ends in `break`.
unfoldable pub handle_exit : Env → Session → UserStore → Result Turn
handle_exit env s users =
    let first = sends s.client_socket exit_reply socket_buffer_size in
    let second = sends s.client_socket_fd (codes "EXIT") 5 in
    ok (record {
      session = s;
      users = users;
      actions = first ∷ (if env.send_ok s.client_socket then second ∷ [] else []);
      flow = breaks;
    })
