-- ===== src/SimpleAnswerer.antt =====
-- `main` of src/simple_answerer.cpp: the user types an offer, and the packets of the track go to a
-- UDP port of this machine. Its whole body is in a `try`.
pub mod Packets
use client_server_signaling.Base.{
  ℕ, Text, codes, Bool, true, false, Option, none, some, List, [], ◌∷◌, ◌++◌, length, if◌then◌else◌,
}
use client_server_signaling.Wire.{skip_space}
use client_server_signaling.Client.Listener.{Peer}
use client_server_signaling.Handshake.{Event, remote_description}

-- What the program meets, in order: a line that is typed, the end of the input, and a message of
-- the track, which the library hands to the callback.
pub data Input : Type 0 where
  line : Text → Input
  message : Text → Input
  end_of_input : Input

-- Before the line, after it, at the end, or ended by an exception that `catch` prints.
pub data Phase : Type 0 where
  asking answering finished caught : Phase

-- `datagrams` is what `sendto` was given for 127.0.0.1:5000, in order.
pub record State : Type 0 where
  pub phase : Phase
  pub remote : Option Event
  pub answered : Bool
  pub datagrams : List Text

abbrev pub begin : State
begin = record { phase = asking; remote = none; answered = false; datagrams = [] }

module _ (p : Peer) (answer_ok : Bool) where
  -- `json::parse`, `setRemoteDescription`, and `setLocalDescription(Answer)`.
  unfoldable pub read_offer : Text → State → State
  read_offer text s = elim (p.parse text) [
    | none ↦ record s { phase = caught }
    | some j ↦ elim (remote_description p j) [
      | none ↦ record s { phase = caught }
      | some e ↦
          if answer_ok
          then record s { phase = answering; remote = some e; answered = true }
          else record s { phase = caught; remote = some e }
    ]
  ]

  -- `std::getline` takes the first line, and `std::cin >> dummy` the first byte that is no space.
  unfoldable pub on_line : Text → State → State
  on_line text s = elim s.phase [
    | asking ↦ read_offer text s
    | answering ↦ elim (skip_space text) [ [] ↦ s | c ∷ r ↦ record s { phase = finished } ]
    | _ ↦ s
  ]

  -- A `getline` that fails leaves the empty text, and `std::cin >> dummy` returns.
  unfoldable pub on_end_of_input : State → State
  on_end_of_input s = elim s.phase [
    | asking ↦ read_offer [] s
    | answering ↦ record s { phase = finished }
    | _ ↦ s
  ]

  -- The callback of `onMessage`. The program ends once the block of the `try` is left.
  unfoldable pub on_message : Text → State → State
  on_message packet s =
      let t : State = record s { datagrams = s.datagrams ++ packet ∷ [] } in
      elim s.phase [ asking ↦ t | answering ↦ t | _ ↦ s ]

  unfoldable pub step : Input → State → State
  step (line text) s = on_line text s
  step (message packet) s = on_message packet s
  step end_of_input s = on_end_of_input s

  unfoldable pub simple_answerer : List Input → State → State
  simple_answerer [] s = s
  simple_answerer (i ∷ inputs) s = simple_answerer inputs (step i s)
