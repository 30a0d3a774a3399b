-- ===== src/Client/Listener/Stream.antt =====
-- The server's packets as the listener's `recv` cuts them: the INVITE is sent with twice the
-- buffer's size, and received a buffer at a time.
use client_server_signaling.Base.{
  ◌++◌, codes, ◌*◌, ◌<◌, ◌≡◌, refl, Text, Bool, true, Option, some, List, [], ◌∷◌, length, take,
  drop, append-nil,
}
use client_server_signaling.Fault.{Fault, ok, err}
use client_server_signaling.Wire.{socket_buffer_size, c_string, read_buffer, begins}
use client_server_signaling.Wire.Words.{HasNoNul}
use client_server_signaling.Wire.Arrays.{padded, read_buffer_first, read_buffer_second}
use client_server_signaling.Server.Call.{invite_text}
use client_server_signaling.Client.State.{Client}
use client_server_signaling.Client.Listener.{Peer, listens, stops, Heard, hear, listen}

hear_nothing :
    (p : Peer) (c : Client) → hear p c [] ≡ ok (record { client = c; events = []; next = stops })
unfolding hear
hear_nothing p c = refl

-- The bytes of the server's INVITE packet.
abbrev pub invite_packet : Text → Text → Text
invite_packet name sdp = padded (invite_text name sdp) (socket_buffer_size * 2)

-- A listener that has taken an INVITE without an exception finds no text in the second half of
-- the packet, and stops: it hears nothing of what the server sends later.
pub listen-invite_packet :
    (p : Peer) (c : Client) (name sdp : Text) (h : Heard) (still : Bool)
    (later : List (Bool × Option Text × Bool))
    → HasNoNul (invite_text name sdp)
    → length (invite_text name sdp) < socket_buffer_size
    → hear p c (invite_text name sdp) ≡ ok h
    → h.next ≡ listens
    → listen p
        ((true, some (take socket_buffer_size (invite_packet name sdp)), true)
          ∷ (
            true,
            some (take socket_buffer_size (drop socket_buffer_size (invite_packet name sdp))),
            still,
          )
          ∷ later)
        c
      ≡ ok (record h { next = stops })
unfolding listen
listen-invite_packet p c name sdp h still later nn l e n = rw (
  read_buffer_first (invite_text name sdp) socket_buffer_size (socket_buffer_size * 2) nn l,
  listen,
  e,
  n,
  read_buffer_second (invite_text name sdp) socket_buffer_size (socket_buffer_size * 2) l,
  hear_nothing p h.client,
  append-nil h.events,
)

-- A fault at an INVITE is one of the thread, whatever would come later.
pub listen-invite_packet_err :
    (p : Peer) (c : Client) (name sdp : Text) (f : Fault) (still : Bool)
    (later : List (Bool × Option Text × Bool))
    → HasNoNul (invite_text name sdp)
    → length (invite_text name sdp) < socket_buffer_size
    → hear p c (invite_text name sdp) ≡ err f
    → listen p ((true, some (take socket_buffer_size (invite_packet name sdp)), still) ∷ later) c
      ≡ err f
unfolding listen
listen-invite_packet_err p c name sdp f still later nn l e = rw (
  read_buffer_first (invite_text name sdp) socket_buffer_size (socket_buffer_size * 2) nn l,
  listen,
  e,
)

-- The same of a message that arrives as an array.
pub listen-array_err :
    (p : Peer) (c : Client) (text : Text) (f : Fault) (still : Bool)
    (later : List (Bool × Option Text × Bool))
    → HasNoNul text
    → length text < socket_buffer_size
    → hear p c text ≡ err f
    → listen p
        ((true, some (take socket_buffer_size (padded text socket_buffer_size)), still) ∷ later)
        c
      ≡ err f
unfolding listen
listen-array_err p c text f still later nn l e =
    rw (read_buffer_first text socket_buffer_size socket_buffer_size nn l, listen, e)

-- The five bytes that the server sends at an exit stop the listener, whatever would come later.
pub listen-exit :
    (p : Peer) (c : Client) (still : Bool) (later : List (Bool × Option Text × Bool))
    → listen p ((true, some (codes "EXIT" ++ 0 ∷ []), still) ∷ later) c
      ≡ ok (record { client = c; events = []; next = stops })
unfolding listen hear read_buffer c_string begins
listen-exit p c still later = refl
