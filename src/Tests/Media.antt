-- ===== src/Tests/Media.antt =====
-- RTP packets, and a client that waits for them.
use client_server_signaling.Base.{
  ◌<◌, ◌≡◌, length, refl, arith, Text, codes, true, false, none, some, List, [], ◌∷◌, ◌++◌, map,
  take, drop, pos,
}
use client_server_signaling.Fault.{ok}
use client_server_signaling.Rtp.{Buffer, fresh, offerer_loop, media_handler}
use client_server_signaling.Rtp.Packets.{ssrc, SetsSsrc, restamp, media_handler-receiving}
use client_server_signaling.Gathering.{own_description}
use client_server_signaling.Gathering.Described.{remote_description-own}
use client_server_signaling.Handshake.{sets_remote}
use client_server_signaling.SimpleAnswerer.{line, message, simple_answerer, begin}
use client_server_signaling.SimpleAnswerer.Packets.{playing, simple_answerer-offerer_loop}
use client_server_signaling.Tests.Json.{peer, laws}
use client_server_signaling.Client.State.{start}
use client_server_signaling.Client.Requests.{client_request, decimal}
use client_server_signaling.Client.Requests.Decimal.{length-decimal}
use client_server_signaling.Wire.{socket_buffer_size}
use client_server_signaling.Client.Main.{Connecting, in_media, client_main}
use client_server_signaling.Client.Main.Reach.{IsConnected, client_main-receiving}

abbrev set_ssrc : Buffer → Buffer
set_ssrc b = take 8 b ++ (map some ssrc ++ drop 12 b)

set_ssrc-SetsSsrc : SetsSsrc set_ssrc
set_ssrc-SetsSsrc b h = refl

abbrev packet : Text
packet = codes "header..ABCDpayload"

abbrev offer : Text
offer = own_description laws (codes "offer") (codes "v=0")

simple_answerer-offerer_loop_example :
    (sent : List Text) × (offerer_loop set_ssrc
        ((some packet, true) ∷ (some (codes "short"), true) ∷ (none, true) ∷ [])
        fresh
      ≡ ok (sent, true))
    × (simple_answerer peer true (line offer ∷ map message sent) begin
        ≡ playing (sets_remote (codes "v=0") (codes "offer")) (restamp packet ∷ []))
simple_answerer-offerer_loop_example =
    simple_answerer-offerer_loop peer set_ssrc offer (laws.object (codes "offer") (codes "v=0"))
      (sets_remote (codes "v=0") (codes "offer")) ((packet, true) ∷ (codes "short", true) ∷ []) true
      [] set_ssrc-SetsSsrc refl (remote_description-own laws (codes "offer") (codes "v=0") refl)

media_handler-receiving_example :
    media_handler set_ssrc ((some packet, true) ∷ []) ≡ ok (restamp packet ∷ [], false)
media_handler-receiving_example =
    media_handler-receiving set_ssrc set_ssrc-SetsSsrc ((packet, true) ∷ [])

abbrev connecting : Connecting
connecting = record {
  sigaction_result = pos 0;
  socket_result = pos 3;
  inet_pton_ok = λ address. true;
  connect_ok = λ address port. true;
  send_ok = true;
}

abbrev server : Text
server = codes "10.0.0.1"

abbrev own_address : Text
own_address = codes "10.0.0.2"

connected : IsConnected connecting server 12345
connected = record {
  sigaction = refl;
  socket = refl;
  inet_pton = refl;
  connect = refl;
  send = refl;
}

fits : length (client_request own_address (pos 8080)) < socket_buffer_size
fits = omega (arith, length-decimal 8080 (omega arith))

client_main-receiving_example :
    client_main set_ssrc
      (server ∷ decimal (pos 12345) ∷ own_address ∷ decimal (pos 8080) ∷ [])
      connecting
      ((some packet, true) ∷ [])
      []
      start
    ≡ ok (in_media (client_request own_address (pos 8080)) (restamp packet ∷ []))
client_main-receiving_example =
    client_main-receiving set_ssrc connecting server own_address 12345 8080 [] start (omega arith)
      (omega arith) fits connected ((packet, true) ∷ []) set_ssrc-SetsSsrc
