-- ===== src/Client/Requests.antt =====
-- The functions of src/client.cpp that send a message to the server and read its answer.
pub mod Decimal
pub mod Flags
pub mod Packing
use client_server_signaling.Base.{
  ℕ, zero, suc, ◌+◌, ◌-◌, ◌/◌, ◌%◌, Text, codes, Bool, true, false, not, ◌||◌, Option, none, some,
  List, [], ◌∷◌, ◌++◌, if◌then◌else◌, length, ltb, ℤ, pos, negsuc, int_eq,
}
use client_server_signaling.Fault.{Result, ok, err, ◌>>=◌}
use client_server_signaling.Wire.{
  socket_buffer_size, word_size, c_string, read_buffer, store_word, strncpy, sprintf,
}
use client_server_signaling.Client.State.{Client, Reply, Done}

-- `strncpy(message, request.c_str(), strlen(request.c_str()))`
unfoldable pub pack : Text → Result Text
pack request = let s = c_string request in strncpy socket_buffer_size s (length s)

-- `none` where `send` or `recv` fails, else the answer's text; with the texts sent.
unfoldable pub exchange : Text → Reply → Result (Option Text × List Text)
exchange request r = do
  message ← pack request
  (if not r.send_ok then ok (none, []) else elim r.received [
    | none ↦ ok (none, message ∷ [])
    | some bytes ↦ (do
      answer ← read_buffer socket_buffer_size bytes
      ok (some answer, message ∷ []))
  ])

-- `strlen(buffer) == 0`
abbrev pub is_empty : Text → Bool
is_empty [] = true
is_empty (c ∷ s) = false

abbrev pub note_answer : Text → Client → Client
note_answer answer c = record c { server_disconnected = c.server_disconnected || is_empty answer }

abbrev pub register_request : ℤ → Text → Text → Text
register_request option username password =
    (if int_eq option (pos 1) then codes "SIGNUP" else codes "LOGIN")
    ++ (32 ∷ username ++ (32 ∷ password))

answered : Client → (Client → Client) → Option Text × List Text → Done
answered c f (none, sent) = record { client = c; sent = sent }
answered c f (some answer, sent) = record { client = f (note_answer answer c); sent = sent }

-- The two words are what `cin` gives.
unfoldable pub sign_up_login_user : ℤ → Text → Text → Reply → Client → Result Done
unfolding answered
sign_up_login_user option username password r c = do
  let c' = record c { username = username; password = password }
  x ← exchange (register_request option username password) r
  ok (answered c' (λ d. record d { exit_selected = false; is_login = true }) x)

unfoldable pub logout_user : Text → Reply → Client → Result Done
unfolding answered
logout_user username r c = do
  x ← exchange (codes "LOGOUT " ++ username) r
  ok (answered c (λ d. record d { is_login = false }) x)

-- With one reply for each of its two requests.
unfoldable pub exit_user : Reply → Reply → Client → Result Done
unfolding answered
exit_user r1 r2 c = do
  first ←
      if is_empty c.username
      then ok (record { client = c; sent = [] })
      else logout_user c.username r1 c
  x ← exchange (codes "EXIT EXIT") r2
  let last = answered first.client (λ d. record d { exit_selected = true }) x
  ok (record last { sent = first.sent ++ last.sent })

-- "CALL peer sdp"
abbrev pub call_request : Text → Text → Text
call_request peer sdp = codes "CALL" ++ (32 ∷ peer ++ (32 ∷ sdp))

-- `cin >> peer_username` of C++17 does not look at the size of the array.
unfoldable pub call_peer : Text → Bool → Client → Result Done
call_peer typed send_ok c = do
  peer ← store_word word_size typed
  message ← sprintf socket_buffer_size (call_request peer (c_string c.local_sdp))
  ok (record { client = c; sent = if send_ok then message ∷ [] else [] })

-- `%d` of a number of at most `fuel` digits.
digits : ℕ → ℕ → Text
digits zero n = []
digits (suc fuel) n =
    let rest = digits fuel (n / 10) in
    if ltb n 10 then (b'0' + n) ∷ [] else rest ++ (b'0' + n % 10) ∷ []

pub decimal : ℤ → Text
unfolding digits
decimal (pos n) = digits (suc n) n
decimal (negsuc n) = b'-' ∷ digits (suc (suc n)) (suc n)

-- "CLIENT address port"
abbrev pub client_request : Text → ℤ → Text
client_request address port = codes "CLIENT" ++ (32 ∷ address ++ (32 ∷ decimal port))

-- What is handed to `send`.
unfoldable pub send_ip_and_port_to_server : Text → ℤ → Result Text
send_ip_and_port_to_server address port = sprintf socket_buffer_size (client_request address port)
