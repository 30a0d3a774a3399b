-- ===== src/UserStore/Logout.antt =====
-- What a logout leaves behind, and what a later login makes of it.
use client_server_signaling.Base.{
  ◌≡◌, ◌≢◌, arith, Text, text_eq_iff, text_eq_refl, true, false, none, some, [],
}
use client_server_signaling.User.{User, set_islogin}
use client_server_signaling.Fault.{ok}
use client_server_signaling.UserStore.{UserStore, find, login_user, log_out_user, is_login}
use client_server_signaling.UserStore.Lookup.{find-modify, find-log_out_user}

pub is_login-log_out_user :
    (name : Text) (users : UserStore) → is_login name (log_out_user name users) ≡ ok false
unfolding is_login
is_login-log_out_user name users =
    ground (arith, find-log_out_user name name users, text_eq_refl name)

pub login_user_missing :
    (name password : Text) (users : UserStore)
    → find name users ≡ none
    → login_user name password users ≡ (users, false)
unfolding login_user
login_user_missing name password users h = ground arith

pub find-login_user_ne :
    (name password j : Text) (users : UserStore)
    → j ≢ name
    → find j (login_user name password users).0 ≡ find j users
unfolding login_user
find-login_user_ne name password j users h =
    ground (arith, find-modify name j (set_islogin (some true)) users, text_eq_iff name j)

-- The user that a logout makes up for a name that is missing: no password, and no socket.
abbrev pub made_up : User
made_up = record { username = []; password = []; islogin = some true; socket_fd = none }

-- A logout of a name that is missing makes it an account into which an empty password logs in.
pub login-log_out_user_missing :
    (name : Text) (users : UserStore)
    → find name users ≡ none
    → let r = login_user name [] (log_out_user name users) in
      (r.1 ≡ true) × (is_login name r.0 ≡ ok true) × (find name r.0 ≡ some made_up)
unfolding login_user is_login
login-log_out_user_missing name users h =
    let s = log_out_user name users in
    ground (
      arith,
      find-log_out_user name name users,
      text_eq_refl name,
      text_eq_refl [],
      find-modify name name (set_islogin (some true)) s,
    )
