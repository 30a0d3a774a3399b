-- ===== src/Server/Call/Guards.antt =====
-- What the CALL branch does on each of its paths, whatever other threads do meanwhile.
use client_server_signaling.Base.{◌*◌, ◌≡◌, Text, codes, true, false, some, List, [], ◌∷◌, ◌++◌, ℤ}
use client_server_signaling.Fault.{ok}
use client_server_signaling.User.{User}
use client_server_signaling.UserStore.{UserStore, is_login, has_user, get_user, apply_all}
use client_server_signaling.UserStore.Invariant.{
  has_user-apply_all, has_user_of_is_login, get_user_of_has_user,
}
use client_server_signaling.Wire.{socket_buffer_size, word_size, read_buffer, begins, scan_one}
use client_server_signaling.Server.Session.{Session, Env, Action, sends, receives, goes_on}
use client_server_signaling.Server.Call.{parse_call, invite_text, invite, handle_call, quiet}
use client_server_signaling.Server.Call.Bounds.{parse_call-invite_fits}

-- The store at `getUser`: other threads have had two chances to change it.
abbrev pub at_get_user : Env → UserStore → UserStore
at_get_user env users = apply_all env.after_has_user (apply_all env.after_is_login users)

module _ (env : Env) (s : Session) (users : UserStore) (text name sdp : Text) where
  -- A callee that is not logged in gets nothing, and nor does the caller: no call is made and the
  -- store stays as it is.
  pub handle_call_offline :
      parse_call text ≡ ok (name, sdp)
      → is_login name users ≡ ok false
      → handle_call env s users text ≡ ok (quiet s users)
  unfolding handle_call
  handle_call_offline p l = rw (p, handle_call, l)

  receiver_found :
      is_login name users ≡ ok true
      → (has_user name (apply_all env.after_is_login users) ≡ true)
        × ((u : User) × (get_user name (at_get_user env users) ≡ some u))
  receiver_found l =
      let h =
        has_user-apply_all env.after_is_login name users (has_user_of_is_login name users l) in
      (h, get_user_of_has_user name _ (has_user-apply_all env.after_has_user name _ h))

  -- Once `isLogin` holds, the other guard and the exception of `getUser` are never met, whatever
  -- other threads do in between: the callee is found and invited.
  pub handle_call_online :
      parse_call text ≡ ok (name, sdp)
      → is_login name users ≡ ok true
      → (u : User) × (get_user name (at_get_user env users) ≡ some u)
        × (handle_call env s users text ≡ invite env s (at_get_user env users) u name sdp)
  unfolding handle_call
  handle_call_online p l =
      let (h, (u, g)) = receiver_found l in (u, g, rw (p, handle_call, l, h, g))

-- The calls that `invite` makes to a callee with socket `fd`.
abbrev pub asks : ℤ → Text → Text → List Action
asks fd name sdp = sends fd (invite_text name sdp) (socket_buffer_size * 2) ∷ receives fd ∷ []

abbrev pub forwards : Session → Text → List Action
forwards s answer = sends s.client_socket_fd answer socket_buffer_size ∷ []

module _ (env : Env) (s : Session) (users : UserStore) (u : User) (fd : ℤ) (text name sdp : Text)
    (parsed : parse_call text ≡ ok (name, sdp)) (bound : u.socket_fd ≡ some fd) where
  -- A callee that answers with some other word, or with nothing but spaces, is asked once and
  -- the caller hears nothing.
  pub invite_declined :
      (incoming first : Text)
      → read_buffer socket_buffer_size env.callee_bytes ≡ ok incoming
      → scan_one [] word_size incoming ≡ ok first
      → begins (codes "ACCEPT") first ≡ false
      → invite env s users u name sdp
        ≡ ok (record {
          session = s;
          users = apply_all env.while_waiting users;
          actions = asks fd name sdp;
          flow = goes_on;
        })
  unfolding invite
  invite_declined incoming first r f b =
      rw (bound, invite, parse_call-invite_fits text name sdp parsed, r, f, b)

  -- A callee that accepts has its whole answer forwarded to the caller.
  pub invite_accepted :
      (incoming first : Text)
      → read_buffer socket_buffer_size env.callee_bytes ≡ ok incoming
      → scan_one [] word_size incoming ≡ ok first
      → begins (codes "ACCEPT") first ≡ true
      → invite env s users u name sdp
        ≡ ok (record {
          session = s;
          users = apply_all env.while_waiting users;
          actions = asks fd name sdp ++ forwards s env.callee_bytes;
          flow = goes_on;
        })
  unfolding invite
  invite_accepted incoming first r f b =
      rw (bound, invite, parse_call-invite_fits text name sdp parsed, r, f, b)
