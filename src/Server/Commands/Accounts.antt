-- ===== src/Server/Commands/Accounts.antt =====
-- What a sequence of LOGIN and LOGOUT messages of one session does to accounts that it does not
-- own. The branch of LOGIN keeps the name of a login that failed, and LOGOUT acts on it.
use client_server_signaling.Base.{
  ◌<◌, ◌≡◌, ◌≢◌, arith, Text, codes, text_eq_iff, true, false, none, some, [], ◌∷◌, ◌++◌, length,
  lt→ltb,
}
use client_server_signaling.Fault.{Result, ok, ◌>>=◌}
use client_server_signaling.UserStore.{UserStore, is_login, get_user, login_user, log_out_user}
use client_server_signaling.UserStore.Lookup.{find-log_out_user}
use client_server_signaling.UserStore.Logout.{
  is_login-log_out_user, login_user_missing, find-login_user_ne, made_up,
  login-log_out_user_missing,
}
use client_server_signaling.Wire.{word_size}
use client_server_signaling.Wire.Words.{IsWord, scan_two_alone}
use client_server_signaling.Server.Session.{Session, Turn}
use client_server_signaling.Server.Commands.{
  handle_login, handle_logout, login_reply, logout_reply, replies,
}
use client_server_signaling.Server.Commands.Replies.{request, with_names, handle_login_lem}

-- The two messages in a row, from one session.
abbrev pub login_logout : Session → UserStore → Text → Result Turn
login_logout s users text = do t ← handle_login s users text; handle_logout t.session t.users

login_logout_lem :
    (s : Session) (users : UserStore) (name password : Text)
    → IsWord name
    → IsWord password
    → length name < word_size
    → length password < word_size
    → login_logout s users (request (codes "LOGIN") name password)
      ≡ ok (
          replies
            (with_names s name password)
            (log_out_user name (login_user name password users).0)
            logout_reply)
unfolding handle_logout
login_logout_lem s users name password hn hp ln lp =
    rw (handle_login_lem s users name password hn hp, lt→ltb _ _ ln, lt→ltb _ _ lp)

-- A session that sends LOGIN with any name and any password, right or wrong, and then LOGOUT has
-- logged that name out, and has touched no other entry.
pub login_logout_any_password :
    (s : Session) (users : UserStore) (name password : Text)
    → IsWord name
    → IsWord password
    → length name < word_size
    → length password < word_size
    → (t : Turn) × (login_logout s users (request (codes "LOGIN") name password) ≡ ok t)
      × (is_login name t.users ≡ ok false)
      × ((j : Text) → j ≢ name → get_user j t.users ≡ get_user j users)
unfolding get_user
login_logout_any_password s users name password hn hp ln lp = (
  _,
  login_logout_lem s users name password hn hp ln lp,
  is_login-log_out_user name _,
  λ j h. ground (
    arith,
    find-log_out_user name j (login_user name password users).0,
    text_eq_iff name j,
    find-login_user_ne name password j users h,
  ),
)

-- Three messages, with no SIGNUP among them: LOGIN of a name that is not there, LOGOUT, and LOGIN
-- of the name alone. The name is then logged in, as a user that was never given a socket.
pub login_without_signup :
    (s : Session) (users : UserStore) (name password : Text)
    → IsWord name
    → IsWord password
    → length name < word_size
    → length password < word_size
    → get_user name users ≡ none
    → (t : Turn) × ((do
      r ← login_logout s users (request (codes "LOGIN") name password)
      handle_login r.session r.users (codes "LOGIN" ++ 32 ∷ name))
        ≡ ok t)
      × (is_login name t.users ≡ ok true)
      × (get_user name t.users ≡ some made_up)
unfolding get_user handle_login
login_without_signup s users name password hn hp ln lp h =
    let (_, l, g) = login-log_out_user_missing name users h in
    let left = log_out_user name (login_user name password users).0 in
    (
      replies (with_names s name []) (login_user name [] left).0 login_reply,
      rw (
        login_logout_lem s users name password hn hp ln lp,
        scan_two_alone (codes "LOGIN") word_size name hn,
        lt→ltb _ _ ln,
      ),
      rw (login_user_missing name password users h) l,
      rw (login_user_missing name password users h) g,
    )
