-- ===== src/Server/Call/Bounds.antt =====
-- The arrays of the CALL branch.
use client_server_signaling.Base.{
  ◌+◌, ◌*◌, ◌<◌, ◌≡◌, arith, Text, codes, ◌∷◌, ◌++◌, length, length-append,
}
use client_server_signaling.Fault.{ok, err, overflow}
use client_server_signaling.Wire.{socket_buffer_size, word_size, sprintf}
use client_server_signaling.Wire.Words.{IsWord}
use client_server_signaling.Wire.Named.{
  named, scan_named_sizes, scan_named-format, scan_named_truncated,
}
use client_server_signaling.UserStore.{UserStore}
use client_server_signaling.Server.Session.{Session, Env}
use client_server_signaling.Server.Call.{parse_call, invite_text, handle_call}

-- Whatever the message is, the INVITE made of its parts fits the array of twice the buffer size.
pub parse_call-invite_fits :
    (text name sdp : Text)
    → parse_call text ≡ ok (name, sdp)
    → sprintf (socket_buffer_size * 2) (invite_text name sdp) ≡ ok (invite_text name sdp)
unfolding parse_call
parse_call-invite_fits text name sdp h =
    ground (arith, scan_named_sizes (codes "CALL") text name sdp h, length-append name (32 ∷ sdp))

-- A message "CALL name sdp" is taken apart into exactly its name and its description.
pub parse_call-format :
    (name sdp : Text)
    → IsWord name
    → length name < word_size
    → 6 + length name + length sdp < socket_buffer_size
    → parse_call (named (codes "CALL") name sdp) ≡ ok (name, sdp)
unfolding parse_call
parse_call-format name sdp hw hl ht =
    scan_named-format (codes "CALL") name sdp hw hl (omega (arith, length-append name (32 ∷ sdp)))

-- A message "CALL name" with nothing after the name makes `strlen(buffer) - len` wrap around, and
-- `strncpy` runs past its array, whatever the store and the other threads.
pub handle_call_truncated :
    (env : Env) (s : Session) (users : UserStore) (name : Text)
    → IsWord name
    → length name < word_size
    → handle_call env s users (codes "CALL" ++ 32 ∷ name) ≡ err overflow
unfolding handle_call parse_call
handle_call_truncated env s users name hw hl =
    rw (scan_named_truncated (codes "CALL") name hw hl (omega arith), handle_call)
