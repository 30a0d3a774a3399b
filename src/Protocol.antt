-- ===== src/Protocol.antt =====
-- The client's messages as the server reads them: src/client.cpp and src/server.cpp together.
pub mod Calls
pub mod Sessions
pub mod Interrupt
pub mod Bounds
use client_server_signaling.Base.{
  ℕ, ◌+◌, ◌^◌, ◌<◌, ◌≤◌, ◌≡◌, ◌∙◌, arith, Text, codes, true, false, [], ◌∷◌, ◌++◌, if◌then◌else◌,
  ltb, length, length-append, lt→ltb, ℤ, pos, int_eq, All-append, Bool-cases, inl, inr,
}
use client_server_signaling.Fault.{ok, err, overflow, ◌>>=◌}
use client_server_signaling.User.{user}
use client_server_signaling.UserStore.{UserStore, add_user, login_user}
use client_server_signaling.Wire.{socket_buffer_size, word_size, ip_size}
use client_server_signaling.Wire.Words.{IsWord, HasNoNul, plain-HasNoNul}
use client_server_signaling.Server.Session.{Session, Env}
use client_server_signaling.Server.Commands.{replies, signup_reply, login_reply, scan_client}
use client_server_signaling.Server.Commands.Replies.{
  request, with_names, handle_signup_lem, handle_login_lem,
}
use client_server_signaling.Server.Commands.Address.{scan_client-address}
use client_server_signaling.Server.Call.{parse_call}
use client_server_signaling.Server.Call.Bounds.{parse_call-format}
use client_server_signaling.Server.Loop.{dispatch}
use client_server_signaling.Server.Loop.Kinds.{dispatch-signup, dispatch-login}
use client_server_signaling.Client.State.{Client}
use client_server_signaling.Client.Requests.{
  pack, register_request, call_request, call_peer, client_request, decimal,
}
use client_server_signaling.Client.Requests.Packing.{pack-HasNoNul, call_peer-sends}
use client_server_signaling.Client.Requests.Decimal.{scan_int-decimal}

-- What the client sends for an address and a port, the server reads back, if the address is shorter
-- than 15 bytes; the longest addresses in dotted form, of 15, run past the server's array.
pub scan_client-client_request :
    (s : Session) (ip : Text) (n : ℕ)
    → IsWord ip
    → n < 2 ^ 31
    → scan_client s (client_request ip (pos n)) ≡ (
        if ltb (length ip) ip_size
        then ok (record s { client_ip_address = ip; client_port_int = pos n })
        else err overflow)
scan_client-client_request s ip n hw hn =
    scan_client-address s ip (decimal (pos n)) (pos n) hw (scan_int-decimal n hn)

pub request-HasNoNul :
    (lit name password : Text)
    → HasNoNul lit
    → IsWord name
    → IsWord password
    → HasNoNul (request lit name password)
request-HasNoNul lit name password hl hn hp = All-append _ lit _ hl (
  omega arith,
  All-append _ name _ (plain-HasNoNul name hn.plain)
      (omega arith, plain-HasNoNul password hp.plain),
)

pub pack-request :
    (lit name password : Text)
    → HasNoNul lit
    → length lit ≤ 6
    → IsWord name
    → IsWord password
    → length name < word_size
    → length password < word_size
    → pack (request lit name password) ≡ ok (request lit name password)
pack-request lit name password hl ll hn hp ln lp =
    pack-HasNoNul _ (request-HasNoNul lit name password hl hn hp) (
      omega (
        arith,
        length-append lit (32 ∷ name ++ (32 ∷ password)),
        length-append name (32 ∷ password),
      ))

-- A sign-up, or a login, that the client packs is dispatched by the server to its branch, which
-- stores or checks exactly the typed name and password and answers with success.
pub dispatch-register_request :
    (env : Env) (s : Session) (users : UserStore) (option : ℤ) (name password : Text)
    → IsWord name
    → IsWord password
    → length name < word_size
    → length password < word_size
    → (pack (register_request option name password) >>= dispatch env s users)
      ≡ ok (
          let t = with_names s name password in
          if int_eq option (pos 1)
          then replies t (add_user (user name password false s.client_socket_fd) users) signup_reply
          else replies t (login_user name password users).0 login_reply)
dispatch-register_request env s users option name password hn hp ln lp =
    elim (Bool-cases (int_eq option (pos 1))) [
      | inl e ↦ rw (
        e,
        pack-request (codes "SIGNUP") name password (omega arith) (omega arith) hn hp ln lp,
        dispatch-signup env s users (32 ∷ name ++ (32 ∷ password)),
        handle_signup_lem s users name password hn hp,
        lt→ltb _ _ ln,
        lt→ltb _ _ lp,
      )
      | inr e ↦ rw (
        e,
        pack-request (codes "LOGIN") name password (omega arith) (omega arith) hn hp ln lp,
        dispatch-login env s users (32 ∷ name ++ (32 ∷ password)),
        handle_login_lem s users name password hn hp,
        lt→ltb _ _ ln,
        lt→ltb _ _ lp,
      )
    ]

-- The call that a client sends, if it fits the client's arrays, is taken apart by the server into
-- the typed name and the client's description, byte for byte.
pub parse_call-call_peer :
    (typed : Text) (c : Client)
    → IsWord typed
    → HasNoNul c.local_sdp
    → length typed < word_size
    → 6 + length typed + length c.local_sdp < socket_buffer_size
    → (m : Text) × (call_peer typed true c ≡ ok (record { client = c; sent = m ∷ [] }))
      × (parse_call m ≡ ok (typed, c.local_sdp))
parse_call-call_peer typed c hw hs ht hl = (
  call_request typed c.local_sdp,
  call_peer-sends typed c hs ht hl,
  parse_call-format typed c.local_sdp hw ht hl,
)
