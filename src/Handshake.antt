-- ===== src/Handshake.antt =====
-- src/offerer.cpp and src/answerer.cpp: two programs that exchange descriptions and candidates over
-- one TCP connection. What a `recv` gives is an argument; a send's bytes are an event.
pub mod Int32
pub mod Offerer
pub mod Answerer
pub mod Exchange
pub mod Candidates
use client_server_signaling.Base.{
  Text, codes, Option, none, some, Bool, List, [], ◌∷◌, if◌then◌else◌,
}
use client_server_signaling.Client.Listener.{Peer}

-- In the order of the calls: bytes sent to the other program, what the peer connection is told,
-- and a message on the data channel.
pub data Event : Type 0 where
  sends : Text → Event
  sets_remote : Text → Text → Event
  adds : Text → Event
  says : Text → Event

-- What `j["sdp"]` and `j["type"]` are, and the description made of them; `none` where one of the
-- calls throws something that is no `parse_error`.
unfoldable pub remote_description : (p : Peer) → p.Json → Option Event
remote_description p j = elim (p.string_at (codes "sdp") j) [
  | none ↦ none
  | some sdp ↦ elim (p.string_at (codes "type") j) [
    | none ↦ none
    | some type ↦ if p.accepts sdp type then some (sets_remote sdp type) else none
  ]
]
