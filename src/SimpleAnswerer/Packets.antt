-- ===== src/SimpleAnswerer/Packets.antt =====
-- The packets of the track, from the camera of one program to the player of the other.
use client_server_signaling.Base.{
  ◌≡◌, ◌∙◌, ap, Text, Bool, true, Option, none, some, List, [], ◌∷◌, ◌++◌, map, append-nil,
  append_assoc,
}
use client_server_signaling.Fault.{ok}
use client_server_signaling.Rtp.{Buffer, fresh, offerer_loop}
use client_server_signaling.Rtp.Packets.{SetsSsrc, forwarded, offerer_loop-forwards}
use client_server_signaling.Client.Listener.{Peer}
use client_server_signaling.Handshake.{Event, remote_description}
use client_server_signaling.SimpleAnswerer.{
  line, message, answering, State, begin, read_offer, on_line, on_message, step, simple_answerer,
}

-- An answerer that has taken an offer.
abbrev pub playing : Event → List Text → State
playing e datagrams = record {
  phase = answering;
  remote = some e;
  answered = true;
  datagrams = datagrams;
}

module _ (p : Peer) where
  -- Messages that arrive one after the other are passed on as they are.
  simple_answerer-messages :
      (packets : List Text) (e : Event) (before : List Text)
      → simple_answerer p true (map message packets) (playing e before)
        ≡ playing e (before ++ packets)
  unfolding simple_answerer step on_message
  simple_answerer-messages [] e before = rw append-nil
  simple_answerer-messages (x ∷ packets) e before =
      simple_answerer-messages packets e (before ++ x ∷ [])
      ∙ ap (playing e) (append_assoc before (x ∷ []) packets)

  takes_offer :
      (offer : Text) (j : p.Json) (e : Event)
      → p.parse offer ≡ some j
      → remote_description p j ≡ some e
      → step p true (line offer) begin ≡ playing e []
  unfolding step on_line read_offer
  takes_offer offer j e parsed described = rw (parsed, read_offer, described)

  -- Where `setSsrc` writes its field only, the answerer has taken an offer, and the track gives it
  -- what the offerer sends, in order: of the datagrams that arrive at the offerer's port before its
  -- first `recv` that fails, the answerer passes on those that come while the track is open and
  -- hold a whole RTP header, cut to the buffer's size and with the SSRC replaced, in their order,
  -- and no others.
  pub simple_answerer-offerer_loop :
      (stamp : Buffer → Buffer) (offer : Text) (j : p.Json) (e : Event) (rs : List (Text × Bool))
      (is_open : Bool) (later : List (Option Text × Bool))
      → SetsSsrc stamp
      → p.parse offer ≡ some j
      → remote_description p j ≡ some e
      → (sent : List Text) × (offerer_loop stamp
            (map (λ (d, o). (some d, o)) rs ++ (none, is_open) ∷ later)
            fresh
          ≡ ok (sent, true))
        × (simple_answerer p true (line offer ∷ map message sent) begin ≡ playing e (forwarded rs))
  unfolding simple_answerer
  simple_answerer-offerer_loop stamp offer j e rs is_open later sets parsed described = (
    forwarded rs,
    offerer_loop-forwards stamp sets rs is_open later,
    rw (simple_answerer, takes_offer offer j e parsed described)
        (simple_answerer-messages (forwarded rs) e []),
  )
