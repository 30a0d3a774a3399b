-- ===== src/Client/Listener/Answers.antt =====
-- What the listener does with an INVITE and an ACCEPT.
use client_server_signaling.Base.{
  ◌+◌, ◌<◌, ◌≡◌, refl, arith, Text, codes, true, leb, [], ◌∷◌, ◌++◌, length,
}
use client_server_signaling.Fault.{ok, err, uncaught}
use client_server_signaling.Wire.{socket_buffer_size, word_size, begins, c_string, size_sub}
use client_server_signaling.Wire.Words.{IsWord, take-length}
use client_server_signaling.Wire.Named.{named, scan_named-format}
use client_server_signaling.Server.Call.{invite_text}
use client_server_signaling.Client.State.{Client}
use client_server_signaling.Gathering.{JsonLaws, own_description}
use client_server_signaling.Client.Listener.{
  Peer, sets_remote, sets_local, answers, listens, or_throws, described, handle_invite,
  handle_accept, hear,
}

hear-invite :
    (p : Peer) (c : Client) (name sdp : Text)
    → hear p c (invite_text name sdp) ≡ handle_invite p c (named (codes "INVITE") name sdp)
unfolding hear begins
hear-invite p c name sdp = refl

-- An INVITE whose description the JSON library and the connection take: the connection is given the
-- offer, makes an answer, and the server is sent "ACCEPT" with the client's own description.
pub hear-invite_accepted :
    (p : Peer) (c : Client) (name sdp d : Text)
    → IsWord name
    → length name < word_size
    → length (invite_text name sdp) < socket_buffer_size
    → described p (codes "offer") sdp ≡ ok d
    → 7 + length (c_string c.local_sdp) < socket_buffer_size
    → hear p c (invite_text name sdp)
      ≡ ok (record {
        client = record c { remote_sdp = sdp };
        events =
            sets_remote d (codes "offer")
            ∷ sets_local (codes "answer")
            ∷ answers (codes "ACCEPT " ++ c_string c.local_sdp) socket_buffer_size
            ∷ [];
        next = listens;
      })
unfolding handle_invite
hear-invite_accepted p c name sdp d hn ln lm hd la =
    rw
      (
        hear-invite p c name sdp,
        handle_invite,
        scan_named-format (codes "INVITE") name sdp hn ln lm,
        hd,
      )
      (ground arith)

module _ (p : Peer) (laws : JsonLaws p) where
  described_throws :
      (kind type sdp : Text) → described p kind (own_description laws type sdp) ≡ err uncaught
  unfolding described or_throws
  described_throws kind type sdp = rw (
    laws.parse-dump (laws.object type sdp),
    laws.missing (codes "description") type sdp (λ e. ground arith) (λ e. ground arith),
  )

  -- The listener asks for a member "description", and the clients write "type" and "sdp": on an
  -- INVITE with a description as a client makes it the listener always throws, and nothing catches it.
  pub hear-invite_throws :
      (c : Client) (name type sdp : Text)
      → IsWord name
      → length name < word_size
      → length (invite_text name (own_description laws type sdp)) < socket_buffer_size
      → hear p c (invite_text name (own_description laws type sdp)) ≡ err uncaught
  unfolding handle_invite
  hear-invite_throws c name type sdp hn ln lm = rw (
    hear-invite p c name (own_description laws type sdp),
    handle_invite,
    scan_named-format (codes "INVITE") name (own_description laws type sdp) hn ln lm,
    described_throws (codes "offer") type sdp,
  )

  -- The same of an ACCEPT.
  pub hear-accept_throws :
      (c : Client) (type sdp : Text)
      → 7 + length (own_description laws type sdp) < socket_buffer_size
      → hear p c (codes "ACCEPT" ++ 32 ∷ own_description laws type sdp) ≡ err uncaught
  unfolding hear handle_accept begins
  hear-accept_throws c type sdp l =
      let text = own_description laws type sdp in
      let fits : leb (length text) socket_buffer_size ≡ true = ground arith in
      rw
        (
          hear,
          handle_accept,
          count,
          take-length text (length text) (omega arith),
          fits,
          described_throws (codes "answer") type sdp,
        )
        refl
    where
      count :
          size_sub (length (codes "ACCEPT" ++ 32 ∷ own_description laws type sdp)) 7
          ≡ length (own_description laws type sdp)
      count = omega arith
