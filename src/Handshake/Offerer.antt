-- ===== src/Handshake/Offerer.antt =====
-- `main` of src/offerer.cpp. Its whole body is in a `try`.
use client_server_signaling.Base.{
  ℕ, Text, Bool, true, false, Option, none, some, List, [], ◌∷◌, ◌++◌, map, if◌then◌else◌, length,
  ℤ, pos, negsuc,
}
use client_server_signaling.Fault.{Result, ok, ◌>>=◌}
use client_server_signaling.Wire.{c_string, read_buffer}
use client_server_signaling.Client.Listener.{Peer}
use client_server_signaling.Handshake.{Event, sends, says, adds, remote_description}
use client_server_signaling.Handshake.Int32.{int_bytes, of_bytes}

abbrev pub buffer_size : ℕ
buffer_size = 1024

abbrev pub negative : ℤ → Bool
negative (pos n) = false
negative (negsuc n) = true

-- What the calls of the run return. `candidates` is `local_candidates` when it is counted; `answer`
-- is what the first `recv` gives, `none` for a failure.
pub record Env : Type 0 where
  pub socket_result : ℤ
  pub bind_result : ℤ
  pub listen_result : ℤ
  pub accept_result : ℤ
  pub local_sdp : Text
  pub answer : Option Text
  pub candidates : List Text
  pub count_bytes : Text
  pub candidate_bytes : Text
  pub message : Text
  pub says_ok : Bool

-- `return 1`; an exception that the outer `catch` prints; or the end of the `try`.
pub data End : Type 0 where
  refused caught finished : End

pub record Run : Type 0 where
  pub events : List Event
  pub remote_cand_count : ℕ
  pub end : End

abbrev received : Option Text → Text
received none = []
received (some bytes) = bytes

module _ (p : Peer) (accepts_candidate : Text → Bool) where
  -- The inner `try`, which catches a `parse_error` only.
  unfoldable pub take_answer : Text → Option (List Event)
  take_answer text = elim (p.parse text) [
    | none ↦ some []
    | some j ↦ elim (remote_description p j) [ none ↦ none | some e ↦ some (e ∷ []) ]
  ]

  -- From the count on, after these events.
  unfoldable pub exchange_candidates : Env → List Event → Result Run
  exchange_candidates env before = do
    let counted = before ++ sends (int_bytes (length env.candidates)) ∷ []
    let offered = counted ++ map (λ c. sends (c_string c)) env.candidates
    let count = of_bytes env.count_bytes
    candidate ← read_buffer buffer_size env.candidate_bytes
    (if accepts_candidate candidate
        then if env.says_ok
          then ok (record {
            events = offered ++ adds candidate ∷ says env.message ∷ [];
            remote_cand_count = count;
            end = finished;
          })
          else ok (record {
            events = offered ++ adds candidate ∷ [];
            remote_cand_count = count;
            end = caught;
          })
        else ok (record { events = offered; remote_cand_count = count; end = caught }))

  -- From the printing of the buffer on.
  unfoldable pub from_answer : Env → Text → Result Run
  from_answer env text =
      let offer = sends (c_string env.local_sdp) in
      elim (take_answer text) [
        | none ↦ ok (record { events = offer ∷ []; remote_cand_count = 0; end = caught })
        | some es ↦ exchange_candidates env (offer ∷ es)
      ]

  unfoldable pub offerer : Env → Result Run
  offerer env =
      if negative env.socket_result
      then ok (record { events = []; remote_cand_count = 0; end = refused })
      else if negative env.bind_result
      then ok (record { events = []; remote_cand_count = 0; end = refused })
      else if negative env.listen_result
      then ok (record { events = []; remote_cand_count = 0; end = refused })
      else if negative env.accept_result
      then ok (record { events = []; remote_cand_count = 0; end = refused })
      else (do text ← read_buffer buffer_size (received env.answer); from_answer env text)
