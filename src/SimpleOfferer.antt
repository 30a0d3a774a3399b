-- ===== src/SimpleOfferer.antt =====
-- `main` of src/simple_offerer.cpp: a description and candidates that the user types, and then the
-- packets that are passed on. Its whole body is in a `try`.
pub mod Candidates
use client_server_signaling.Base.{
  ℕ, suc, ◌-◌, ◌^◌, Text, Bool, true, false, Option, none, some, List, [], ◌∷◌, if◌then◌else◌, ltb,
  ℤ, pos, negsuc,
}
use client_server_signaling.Fault.{Result, ok, err, overflow, ◌>>=◌}
use client_server_signaling.Rtp.{Buffer, fresh, offerer_loop}
use client_server_signaling.Client.Listener.{Peer}
use client_server_signaling.Handshake.{Event, remote_description}

-- What `while(num_cand<0)` does: it is left, it waits for a line, or a call in it throws.
pub data LoopEnd : Type 0 where
  left waits throws : LoopEnd

abbrev adds_first : Text → Result (List Text × LoopEnd) → Result (List Text × LoopEnd)
adds_first line rest = do x ← rest; ok (line ∷ x.0, x.1)

-- With the lines that the user types. The count is an `int`, which must not pass its least value.
unfoldable pub add_candidates : (Text → Bool) → ℤ → List Text → Result (List Text × LoopEnd)
add_candidates accepts (pos n) lines = ok ([], left)
add_candidates accepts (negsuc n) [] = ok ([], waits)
add_candidates accepts (negsuc n) (line ∷ lines) =
    let rest = add_candidates accepts (negsuc (suc n)) lines in
    if accepts line
    then if ltb n (2 ^ 31 - 1) then adds_first line rest else err overflow
    else ok ([], throws)

-- What the calls of the run return, and what the user types.
pub record Env : Type 0 where
  pub bind_result : ℤ
  pub sdp : Text
  pub num_cand : ℤ
  pub lines : List Text
  pub media : List (Option Text × Bool)

-- An exception that `catch` prints; the candidate loop; the loop over `recv`; or its end.
pub data End : Type 0 where
  caught typing forwarding finished : End

pub record Run : Type 0 where
  pub remote : Option Event
  pub candidates : List Text
  pub packets : List Text
  pub end : End

module _ (p : Peer) (accepts_candidate : Text → Bool) (stamp : Buffer → Buffer) where
  -- The loop over `recv`.
  forwards : Event → List Text → Env → Result Run
  forwards remote added env = do
    (sent, is_left) ← offerer_loop stamp env.media fresh
    ok (record {
      remote = some remote;
      candidates = added;
      packets = sent;
      end = if is_left then finished else forwarding;
    })

  -- After the candidate loop.
  unfoldable pub after_loop : Event → Env → List Text × LoopEnd → Result Run
  unfolding forwards
  after_loop remote env (added, left) = forwards remote added env
  after_loop remote env (added, waits) =
      ok (record { remote = some remote; candidates = added; packets = []; end = typing })
  after_loop remote env (added, throws) =
      ok (record { remote = some remote; candidates = added; packets = []; end = caught })

  -- After `setRemoteDescription`.
  unfoldable pub after_description : Event → Env → Result Run
  after_description remote env =
      add_candidates accepts_candidate env.num_cand env.lines >>= after_loop remote env

  stopped : Run
  stopped = record { remote = none; candidates = []; packets = []; end = caught }

  unfoldable pub simple_offerer : Env → Result Run
  unfolding stopped
  simple_offerer env = elim env.bind_result [
    | negsuc n ↦ ok stopped
    | pos n ↦ elim (p.parse env.sdp) [
      | none ↦ ok stopped
      | some j ↦ elim (remote_description p j) [
        | none ↦ ok stopped
        | some remote ↦ after_description remote env
      ]
    ]
  ]
