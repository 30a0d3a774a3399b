-- ===== src/Server/Loop/Reconnects.antt =====
-- A user who comes back on another connection: LOGIN, and then a CALL to the user.
use client_server_signaling.Base.{
  ◌+◌, ◌<◌, ◌≡◌, ◌≢◌, ◌∙◌, All, arith, Text, codes, text_eq_refl, true, some, [], ◌∷◌, ◌++◌, length,
  lt→ltb, ℤ,
}
use client_server_signaling.Fault.{ok}
use client_server_signaling.User.{User, set_islogin}
use client_server_signaling.UserStore.{UserStore, get_user, is_login, login_user, apply_all}
use client_server_signaling.UserStore.Lookup.{find-modify}
use client_server_signaling.UserStore.Spec.{subject, find-apply_all_ne}
use client_server_signaling.Wire.{socket_buffer_size, word_size}
use client_server_signaling.Wire.Words.{IsWord}
use client_server_signaling.Server.Session.{Session, Env, goes_on}
use client_server_signaling.Server.Commands.{replies, login_reply}
use client_server_signaling.Server.Commands.Replies.{request, with_names, handle_login_lem}
use client_server_signaling.Server.Call.Guards.{at_get_user, asks}
use client_server_signaling.Server.Loop.{dispatch}
use client_server_signaling.Server.Loop.Kinds.{dispatch-login}
use client_server_signaling.Server.Loop.Calls.{call_text, dispatch-call_unanswered}

module _ (name password : Text) (users : UserStore) (u : User)
    (found : get_user name users ≡ some u) (right : u.password ≡ password) where
  logged_in : get_user name (login_user name password users).0 ≡ some (set_islogin (some true) u)
  unfolding get_user login_user
  logged_in = ground (
    arith,
    found,
    right,
    text_eq_refl password,
    find-modify name name (set_islogin (some true)) users,
    text_eq_refl name,
  )

  online : is_login name (login_user name password users).0 ≡ ok true
  unfolding is_login get_user
  online = rw (is_login, logged_in)

  still_there :
      (env : Env)
      → All (λ op. subject op ≢ name) env.after_is_login
      → All (λ op. subject op ≢ name) env.after_has_user
      → get_user name (at_get_user env (login_user name password users).0)
        ≡ some (set_islogin (some true) u)
  unfolding get_user
  still_there env a a' =
      find-apply_all_ne env.after_has_user name _ a'
      ∙ find-apply_all_ne env.after_is_login name _ a
      ∙ logged_in

  -- A user logs in with the right password on the connection of any session, and is then called
  -- while other threads work on other users: the server asks at the socket that the store had for
  -- the user before that login, whatever the session's own is, and where nothing comes back from
  -- there the caller hears nothing.
  pub login-dispatch_call :
      (env env' : Env) (s s' : Session) (sdp : Text) (fd : ℤ)
      → IsWord name
      → IsWord password
      → length name < word_size
      → length password < word_size
      → 6 + length name + length sdp < socket_buffer_size
      → u.socket_fd ≡ some fd
      → All (λ op. subject op ≢ name) env'.after_is_login
      → All (λ op. subject op ≢ name) env'.after_has_user
      → env'.callee_bytes ≡ []
      → (dispatch env s users (request (codes "LOGIN") name password)
          ≡ ok
              (replies (with_names s name password) (login_user name password users).0 login_reply))
        × (dispatch env' s' (login_user name password users).0 (call_text name sdp)
            ≡ ok (record {
              session = s';
              users =
                  apply_all env'.while_waiting
                    (at_get_user env' (login_user name password users).0);
              actions = asks fd name sdp;
              flow = goes_on;
            }))
  login-dispatch_call env env' s s' sdp fd hn hp ln lp l bound a a' silent = (
    rw (
      dispatch-login env s users (32 ∷ name ++ (32 ∷ password)),
      handle_login_lem s users name password hn hp,
      lt→ltb _ _ ln,
      lt→ltb _ _ lp,
    ),
    dispatch-call_unanswered env' s' (login_user name password users).0 name sdp
        (set_islogin (some true) u) fd hn ln l online (still_there env' a a') bound silent,
  )
