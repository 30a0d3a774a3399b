-- ===== src/Rtp.antt =====
-- The loops that pass RTP packets from a UDP socket to a track: of src/simple_offerer.cpp, and of
-- `media_handler` in src/client.cpp. The track and `RtpHeader::setSsrc` are libdatachannel's:
-- `stamp` is what `setSsrc` does to the buffer.
pub mod Packets
pub mod Failing
use client_server_signaling.Base.{
  ℕ, zero, suc, Text, Bool, true, false, not, ◌||◌, Option, none, some, List, [], ◌∷◌, ◌++◌, map,
  if◌then◌else◌, ltb, length, take, drop, replicate,
}
use client_server_signaling.Fault.{Result, ok, err, uninitialised, overread, ◌>>=◌}

-- `BUFFER_SIZE`, and `BufferSize` of `media_handler`.
abbrev pub buffer_size : ℕ
buffer_size = 2048

-- `sizeof(rtc::RtpHeader)`
abbrev pub header_size : ℕ
header_size = 12

-- The bytes of an array, `none` where nothing has been written yet.
abbrev pub Buffer : Type 0
Buffer = List (Option ℕ)

abbrev pub fresh : Buffer
fresh = replicate buffer_size none

-- `recv(sock, buffer, BUFFER_SIZE, 0)`: what is too long for the buffer is cut off.
abbrev pub received : Text → Text
received datagram = take buffer_size datagram

abbrev pub overwrite : Text → Buffer → Buffer
overwrite bytes b = map some bytes ++ drop (length bytes) b

-- The first bytes of an array, for a call that reads them.
unfoldable pub contents : ℕ → Buffer → Result Text
contents zero b = ok []
contents (suc n) [] = err overread
contents (suc n) (none ∷ b) = err uninitialised
contents (suc n) (some c ∷ b) = do rest ← contents n b; ok (c ∷ rest)

-- What a round sends goes before what the rest of the loop sends.
abbrev pub then_sent : List Text → Result (List Text × Bool) → Result (List Text × Bool)
then_sent sent rest = do x ← rest; ok (sent ++ x.0, x.1)

module _ (stamp : Buffer → Buffer) where
  -- The body of both loops: the buffer, and what the track is sent.
  unfoldable pub forward : ℕ → Bool → Buffer → Result (Buffer × List Text)
  forward len is_open b =
      if ltb len header_size || not is_open
      then ok (b, [])
      else (do packet ← contents len (stamp b); ok (stamp b, packet ∷ []))

  -- The loop of simple_offerer.cpp, for each `recv` its datagram (`none` if it fails) and whether
  -- the track is open: what is sent, and whether the loop is left. At the end of the list it waits.
  unfoldable pub offerer_loop : List (Option Text × Bool) → Buffer → Result (List Text × Bool)
  offerer_loop [] b = ok ([], false)
  offerer_loop ((none, is_open) ∷ rs) b = ok ([], true)
  offerer_loop ((some datagram, is_open) ∷ rs) b = do
    let bytes = received datagram
    (b', sent) ← forward (length bytes) is_open (overwrite bytes b)
    then_sent sent (offerer_loop rs b')

  -- The loop of `media_handler`, with the same of each `recv`. One that fails is followed by a
  -- `send` on `output_socket`, a datagram socket that nothing connects: that fails with
  -- EDESTADDRREQ, and the loop is left.
  unfoldable pub media_loop : List (Option Text × Bool) → Buffer → Result (List Text × Bool)
  media_loop [] b = ok ([], false)
  media_loop ((none, is_open) ∷ rs) b = ok ([], true)
  media_loop ((some datagram, is_open) ∷ rs) b = do
    let bytes = received datagram
    (b', sent) ← forward (length bytes) is_open (overwrite bytes b)
    then_sent sent (media_loop rs b')

  unfoldable pub media_handler : List (Option Text × Bool) → Result (List Text × Bool)
  media_handler rs = media_loop rs fresh
