-- ===== src/Server/Call/Sockets.antt =====
-- The sockets that the CALL branch uses.
use client_server_signaling.Base.{
  ℕ, ◌<◌, ◌≤◌, ◌∷◌, length, ◌*◌, ◌≡◌, refl, arith, Text, codes, Option, some, none, [], inl, inr, ℤ,
  All, if_cases, Option-cases,
}
use client_server_signaling.Fault.{ok}
use client_server_signaling.User.{User}
use client_server_signaling.UserStore.{
  UserStore, find, is_login, has_user, get_user, apply_all, determined,
}
use client_server_signaling.Wire.{
  c_string, socket_buffer_size, word_size, read_buffer, begins, scan_one, sprintf,
}
use client_server_signaling.Server.Session.{Session, Env}
use client_server_signaling.Server.System.{alone}
use client_server_signaling.Server.Commands.Sockets.{EndsIn, Aimed, Fair, Fair-ok, Fair-bind}
use client_server_signaling.Server.Call.{parse_call, invite_text, invite, handle_call, quiet}

length-c_string_le : (s : Text) → length (c_string s) ≤ length s
unfolding c_string
length-c_string_le [] = omega arith
length-c_string_le (c ∷ s) = ground (arith, length-c_string_le s)

sprintf-fits : (size : ℕ) (s message : Text) → sprintf size s ≡ ok message → length message < size
sprintf-fits size s message e = ground arith

read_buffer-EndsIn :
    (size : ℕ) (bytes text : Text) → read_buffer size bytes ≡ ok text → EndsIn size bytes
unfolding read_buffer
read_buffer-EndsIn size bytes text e = ground arith

module _ (K : ℤ → Type 0) where
  pub quiet-Fair : (s : Session) (users : UserStore) → Fair K s users (ok (quiet s users))
  quiet-Fair s users =
      Fair-ok K s users _
        λ k h _. record { aimed = tt; stored = h; same_socket = refl; owned = inr (inl refl) }

  -- With no other thread between the locks.
  pub invite-Fair :
      (env : Env) (s : Session) (users : UserStore) (u : User) (name sdp : Text)
      → ((fd : ℤ) → u.socket_fd ≡ some fd → K fd)
      → Fair K s users (invite (alone env) s users u name sdp)
  unfolding invite apply_all
  invite-Fair env s users u name sdp callee =
      Fair-bind K s users (determined u.socket_fd) _ λ fd bound.
        Fair-bind K s users (sprintf (socket_buffer_size * 2) (invite_text name sdp)) _ λ message m.
          Fair-bind K s users (read_buffer socket_buffer_size env.callee_bytes) _ λ incoming r.
            Fair-bind K s users (scan_one [] word_size incoming) _ λ accept_command _.
              Fair-ok K s users _ λ k h _.
                let known = callee fd (determined-some u.socket_fd fd bound) in
                record {
                  aimed =
                      if_cases (All (Aimed K s.client_socket))
                        (begins (codes "ACCEPT") accept_command) _ _
                        ((inr known, invited m), (known, ((inr k, forwarded r), tt)))
                        ((inr known, invited m), (known, tt));
                  stored = h;
                  same_socket = refl;
                  owned = inr (inl refl);
                }
    where
      invited :
          {message : Text}
          → sprintf (socket_buffer_size * 2) (invite_text name sdp) ≡ ok message
          → EndsIn (socket_buffer_size * 2) message
      invited {message} m = omega (
        arith,
        sprintf-fits (socket_buffer_size * 2) (invite_text name sdp) message m,
        length-c_string_le message,
      )

      forwarded :
          {incoming : Text}
          → read_buffer socket_buffer_size env.callee_bytes ≡ ok incoming
          → EndsIn socket_buffer_size env.callee_bytes
      forwarded {incoming} r = read_buffer-EndsIn socket_buffer_size env.callee_bytes incoming r

      determined-some : (o : Option ℤ) (fd : ℤ) → determined o ≡ ok fd → o ≡ some fd
      determined-some none fd e = absurd (ground arith)
      determined-some (some g) fd e = ground arith

  pub handle_call-Fair :
      (env : Env) (s : Session) (users : UserStore) (text : Text)
      → Fair K s users (handle_call (alone env) s users text)
  unfolding handle_call apply_all get_user
  handle_call-Fair env s users text = Fair-bind K s users (parse_call text) _ λ (name, sdp) _.
      Fair-bind K s users (is_login name users) _ λ logged_in _.
        if_cases (Fair K s users) logged_in _ _
          (if_cases (Fair K s users) (has_user name users) _ _ (called name sdp)
            (quiet-Fair s users))
          (quiet-Fair s users)
    where
      called :
          (name sdp : Text)
          → Fair K s users (elim (get_user name users) [
            | none ↦ ok (quiet s users)
            | some receiver ↦ invite (alone env) s users receiver name sdp
          ])
      called name sdp = elim (Option-cases (find name users)) [
        | inl e ↦ rw e (quiet-Fair s users)
        | inr (u, e) ↦ rw e (λ t done k h opened.
            invite-Fair env s users u name sdp (λ fd bound. h name u fd e bound) t done k h opened)
      ]
