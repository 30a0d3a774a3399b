-- ===== src/Client/Requests/Packing.antt =====
-- The client's arrays: when a request is copied whole, and when it runs past them.
use client_server_signaling.Base.{
  ◌+◌, ◌<◌, ◌≤◌, ◌≡◌, ◌∙◌, arith, Text, Bool, true, lt→ltb, length-append, [], ◌∷◌, if◌then◌else◌,
  ltb, length,
}
use client_server_signaling.Fault.{ok, err, overflow}
use client_server_signaling.Wire.{socket_buffer_size, word_size}
use client_server_signaling.Wire.Words.{HasNoNul, c_string-HasNoNul, take-length}
use client_server_signaling.Client.State.{Client}
use client_server_signaling.Client.Requests.{pack, call_request, call_peer}

pub pack-HasNoNul : (m : Text) → HasNoNul m → length m ≤ socket_buffer_size → pack m ≡ ok m
unfolding pack
pack-HasNoNul m h l = rw (c_string-HasNoNul m h) (ground (arith, take-length m (length m)))

pub pack-overflow : (m : Text) → HasNoNul m → socket_buffer_size < length m → pack m ≡ err overflow
unfolding pack
pack-overflow m h l = rw (c_string-HasNoNul m h) (ground arith)

-- A call is sent whole, or not at all if `send` fails; a name of 50 bytes or more, or a message that
-- does not fit the buffer with its NUL, runs past an array.
pub call_peer_lem :
    (typed : Text) (send_ok : Bool) (c : Client)
    → HasNoNul c.local_sdp
    → call_peer typed send_ok c ≡ (
        if ltb (length typed) word_size
        then if ltb (length (call_request typed c.local_sdp)) socket_buffer_size
          then ok (record {
            client = c;
            sent = if send_ok then call_request typed c.local_sdp ∷ [] else [];
          })
          else err overflow
        else err overflow)
unfolding call_peer
call_peer_lem typed send_ok c h = rw (c_string-HasNoNul c.local_sdp h, call_peer) (ground arith)

-- A call whose name and message fit their arrays is sent whole.
pub call_peer-sends :
    (typed : Text) (c : Client)
    → HasNoNul c.local_sdp
    → length typed < word_size
    → 6 + length typed + length c.local_sdp < socket_buffer_size
    → call_peer typed true c
      ≡ ok (record { client = c; sent = call_request typed c.local_sdp ∷ [] })
call_peer-sends typed c hs ht hl =
    call_peer_lem typed true c hs
    ∙ rw (
      lt→ltb _ _ ht,
      lt→ltb (length (call_request typed c.local_sdp)) socket_buffer_size
          (omega (arith, length-append typed (32 ∷ c.local_sdp))),
    )
