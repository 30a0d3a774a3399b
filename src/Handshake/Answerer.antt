-- ===== src/Handshake/Answerer.antt =====
-- `main` of src/answerer.cpp. It catches nothing.
use client_server_signaling.Base.{
  ℕ, ◌^◌, ◌<◌, ◌≡◌, Text, Bool, not, Option, none, some, List, [], ◌∷◌, if◌then◌else◌, length, ℤ,
  pos, minus_one, int_eq,
}
use client_server_signaling.Fault.{Result, ok, err, missing, uncaught, ◌>>=◌}
use client_server_signaling.Wire.{c_string, read_buffer, scan_int, sprintf}
use client_server_signaling.Wire.Arguments.{htons}
use client_server_signaling.Client.Listener.{Peer}
use client_server_signaling.Client.Requests.{decimal}
use client_server_signaling.Client.Requests.Decimal.{scan_int-plain_decimal}
use client_server_signaling.Handshake.{Event, sends, adds, remote_description}
use client_server_signaling.Handshake.Int32.{int_bytes, of_bytes}

abbrev pub buffer_size : ℕ
buffer_size = 2048

-- `char remote_ip[50]`
abbrev pub ip_size : ℕ
ip_size = 50

-- `atoi`: 0 where there is no number.
unfoldable pub atoi : Text → Result ℤ
atoi text = elim (scan_int text) [ none ↦ ok (pos 0) | some number ↦ number ]

pub atoi-decimal : (n : ℕ) → n < 2 ^ 31 → atoi (decimal (pos n)) ≡ ok (pos n)
unfolding atoi
atoi-decimal n h = rw (atoi, scan_int-plain_decimal n h)

-- What the calls of the run return. `generated` is what the callback stores once gathering is
-- complete, `none` if it never is; `candidates` is `local_candidates_vector` when it is counted.
pub record Env : Type 0 where
  pub socket_result : ℤ
  pub inet_pton_ok : Text → Bool
  pub connect_ok : Text → ℕ → Bool
  pub offer_bytes : Text
  pub generated : Option Text
  pub count_bytes : Text
  pub candidate_bytes : Text
  pub candidates : List Text

-- `return 1`; for ever in `while(!sdp_generated)`; or the end.
pub data End : Type 0 where
  refused spins finished : End

pub record Run : Type 0 where
  pub events : List Event
  pub remote_cand_count : ℕ
  pub end : End

abbrev pub or_throws {ℓ} : {A : Type ℓ} → Option A → Result A
or_throws none = err uncaught
or_throws (some a) = ok a

-- `local_candidates_vector.at(0)`
abbrev pub at_first : List Text → Result Text
at_first [] = err uncaught
at_first (c ∷ cs) = ok c

module _ (p : Peer) (accepts_candidate : Text → Bool) where
  -- After `while(!sdp_generated)`.
  unfoldable pub answer : Env → Event → Text → Result Run
  answer env remote sdp = do
    let count = of_bytes env.count_bytes
    candidate ← read_buffer buffer_size env.candidate_bytes
    (if accepts_candidate candidate
        then (do
          own ← at_first env.candidates
          ok (record {
            events =
                remote
                ∷ sends (c_string sdp)
                ∷ adds candidate
                ∷ sends (int_bytes (length env.candidates))
                ∷ sends own
                ∷ [];
            remote_cand_count = count;
            end = finished;
          }))
        else err uncaught)

  -- Once connected.
  unfoldable pub take_offer : Env → Result Run
  take_offer env = do
    text ← read_buffer buffer_size env.offer_bytes
    j ← or_throws (p.parse text)
    remote ← or_throws (remote_description p j)
    elim env.generated [
      | none ↦ ok (record { events = remote ∷ []; remote_cand_count = 0; end = spins })
      | some sdp ↦ answer env remote sdp
    ]

  -- `arguments` are those after the program's name. The test `argc<1` fails always.
  unfoldable pub answerer : List Text → Env → Result Run
  answerer (ip ∷ port ∷ arguments) env = do
    number ← atoi port
    remote_ip ← sprintf ip_size ip
    (if int_eq env.socket_result minus_one
        then ok (record { events = []; remote_cand_count = 0; end = refused })
        else if not (env.inet_pton_ok remote_ip)
        then ok (record { events = []; remote_cand_count = 0; end = refused })
        else if not (env.connect_ok remote_ip (htons number))
        then ok (record { events = []; remote_cand_count = 0; end = refused })
        else take_offer env)
  answerer arguments env = err missing
