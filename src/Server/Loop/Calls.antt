-- ===== src/Server/Loop/Calls.antt =====
-- A CALL from the message to the last system call.
use client_server_signaling.Base.{
  ◌+◌, ◌<◌, ◌≡◌, refl, ◌∙◌, ap, arith, Text, codes, true, some, [], ◌∷◌, ◌++◌, length, ℤ,
}
use client_server_signaling.Fault.{ok}
use client_server_signaling.User.{User}
use client_server_signaling.UserStore.{UserStore, is_login, get_user, apply_all}
use client_server_signaling.Wire.{
  socket_buffer_size, word_size, read_buffer, begins, scan_one, take_word, scan_word, skip_space,
  word, some_word, literal,
}
use client_server_signaling.Wire.Words.{
  plain_bytes, IsWord-check, IsWord, HasNoNul, scan_one_first, read_buffer_fits,
}
use client_server_signaling.Server.Session.{Session, Env, goes_on}
use client_server_signaling.Server.Call.{invite}
use client_server_signaling.Server.Call.Bounds.{parse_call-format}
use client_server_signaling.Server.Call.Guards.{
  at_get_user, asks, forwards, handle_call_online, invite_accepted, invite_declined,
}
use client_server_signaling.Server.Loop.{dispatch}
use client_server_signaling.Server.Loop.Kinds.{dispatch-call}

-- "CALL name sdp"
abbrev pub call_text : Text → Text → Text
call_text name sdp = codes "CALL" ++ (32 ∷ name ++ (32 ∷ sdp))

-- "ACCEPT answer"
abbrev pub accept_text : Text → Text
accept_text answer = codes "ACCEPT" ++ 32 ∷ answer

pub accept-IsWord : IsWord (codes "ACCEPT")
unfolding plain_bytes
accept-IsWord = IsWord-check b'A' (codes "CCEPT") refl

module _ (env : Env) (s : Session) (users : UserStore) (name sdp : Text) (u : User) (fd : ℤ)
    (hn : IsWord name) (ln : length name < word_size)
    (lm : 6 + length name + length sdp < socket_buffer_size)
    (online : is_login name users ≡ ok true)
    (found : get_user name (at_get_user env users) ≡ some u) (bound : u.socket_fd ≡ some fd) where
  same_user : (v : User) → get_user name (at_get_user env users) ≡ some v → v ≡ u
  same_user v g = ground (arith, found)

  -- The branch is `invite` with the callee's description.
  call-invite :
      dispatch env s users (call_text name sdp) ≡ invite env s (at_get_user env users) u name sdp
  unfolding begins
  call-invite =
      let p = parse_call-format name sdp hn ln lm in
      let (v, g, q) = handle_call_online env s users (call_text name sdp) name sdp p online in
      dispatch-call env s users (32 ∷ name ++ (32 ∷ sdp))
      ∙ q
      ∙ ap (λ w. invite env s (at_get_user env users) w name sdp) (same_user v g)

  -- The same for an answer in whatever bytes that read as it.
  pub dispatch-call_answered :
      (answer : Text)
      → read_buffer socket_buffer_size env.callee_bytes ≡ ok (accept_text answer)
      → dispatch env s users (call_text name sdp)
        ≡ ok (record {
          session = s;
          users = apply_all env.while_waiting (at_get_user env users);
          actions = asks fd name sdp ++ forwards s env.callee_bytes;
          flow = goes_on;
        })
  unfolding begins
  dispatch-call_answered answer read =
      call-invite
      ∙ invite_accepted env s (at_get_user env users) u fd (call_text name sdp) name sdp
          (parse_call-format name sdp hn ln lm) bound (accept_text answer) (codes "ACCEPT") read
          (scan_one_first word_size (codes "ACCEPT") (32 ∷ answer) accept-IsWord refl) refl

  -- A callee that closes its connection is asked, and the caller is sent nothing.
  pub dispatch-call_unanswered :
      env.callee_bytes ≡ []
      → dispatch env s users (call_text name sdp)
        ≡ ok (record {
          session = s;
          users = apply_all env.while_waiting (at_get_user env users);
          actions = asks fd name sdp;
          flow = goes_on;
        })
  unfolding begins scan_one take_word scan_word skip_space word some_word literal
  dispatch-call_unanswered e =
      call-invite
      ∙ invite_declined env s (at_get_user env users) u fd (call_text name sdp) name sdp
          (parse_call-format name sdp hn ln lm) bound [] []
          (rw e (read_buffer_fits socket_buffer_size [] tt (omega arith))) refl refl

  -- A well-formed CALL to a user who is logged in, has a socket and accepts: the callee gets
  -- "INVITE name sdp" and is waited for, and its answer goes, byte for byte, to the caller. What
  -- other threads do in between changes nothing of this.
  pub dispatch-call_accepted :
      (answer : Text)
      → env.callee_bytes ≡ accept_text answer
      → HasNoNul answer
      → 7 + length answer < socket_buffer_size
      → dispatch env s users (call_text name sdp)
        ≡ ok (record {
          session = s;
          users = apply_all env.while_waiting (at_get_user env users);
          actions = asks fd name sdp ++ forwards s env.callee_bytes;
          flow = goes_on;
        })
  dispatch-call_accepted answer e nn la = dispatch-call_answered answer (
      rw e (
        read_buffer_fits socket_buffer_size (accept_text answer) (ground (arith, nn))
          (omega arith)))
