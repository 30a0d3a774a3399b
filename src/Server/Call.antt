-- ===== src/Server/Call.antt =====
-- The branch of `client_handler` for CALL: the caller's description is sent to the callee, and the
-- callee's answer, if it accepts, to the caller. Other threads may use the store between the three
-- locks that the branch takes, and while it waits for the callee.
pub mod Guards
pub mod Bounds
pub mod Stores
pub mod Closing
pub mod Sockets
use client_server_signaling.Base.{
  ℕ, ◌+◌, ◌*◌, Text, codes, Bool, true, false, Option, none, some, List, [], ◌∷◌, ◌++◌,
  if◌then◌else◌, length, drop,
}
use client_server_signaling.Fault.{Result, ok, err, ◌>>=◌}
use client_server_signaling.User.{User}
use client_server_signaling.UserStore.{
  UserStore, is_login, has_user, get_user, apply_all, determined,
}
use client_server_signaling.Wire.{
  socket_buffer_size, word_size, read_buffer, begins, scan_one, scan_named, sprintf,
}
use client_server_signaling.Server.Session.{
  Session, Env, Action, sends, receives, Turn, goes_on, breaks,
}

abbrev pub quiet : Session → UserStore → Turn
quiet s users = record { session = s; users = users; actions = []; flow = goes_on }

abbrev pub invite_text : Text → Text → Text
invite_text name sdp = codes "INVITE " ++ (name ++ 32 ∷ sdp)

-- The callee's name and the text after it; `length (codes "CALL")` is 4.
unfoldable pub parse_call : Text → Result (Text × Text)
parse_call text = scan_named (codes "CALL") text

-- The body of the `try`, after `getUser` has returned.
unfoldable pub invite : Env → Session → UserStore → User → Text → Text → Result Turn
invite env s users receiver name sdp = do
  receiver_fd ← determined receiver.socket_fd
  message ← sprintf (socket_buffer_size * 2) (invite_text name sdp)
  incoming ← read_buffer socket_buffer_size env.callee_bytes
  accept_command ← scan_one [] word_size incoming
  let asked = sends receiver_fd message (socket_buffer_size * 2) ∷ receives receiver_fd ∷ []
  let forwarded = sends s.client_socket_fd env.callee_bytes socket_buffer_size ∷ []
  ok (record {
    session = s;
    users = apply_all env.while_waiting users;
    actions = if begins (codes "ACCEPT") accept_command then asked ++ forwarded else asked;
    flow = goes_on;
  })

-- The guards of the branch, in its order; the exception of `getUser` is caught.
unfoldable pub handle_call : Env → Session → UserStore → Text → Result Turn
handle_call env s users text = do
  (name, sdp) ← parse_call text
  logged_in ← is_login name users
  let users1 = apply_all env.after_is_login users
  let users2 = apply_all env.after_has_user users1
  (if logged_in
      then if has_user name users1
        then elim (get_user name users2) [
          | none ↦ ok (quiet s users2)
          | some receiver ↦ invite env s users2 receiver name sdp
        ]
        else ok (quiet s users1)
      else ok (quiet s users))
