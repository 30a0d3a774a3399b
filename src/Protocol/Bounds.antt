-- ===== src/Protocol/Bounds.antt =====
-- A request between the client's array and the server's.
use client_server_signaling.Base.{
  ◌<◌, ◌≡◌, refl, arith, Text, List, ◌==◌, if◌then◌else◌, ltb, length, inl, inr, Bool-cases,
}
use client_server_signaling.Fault.{err, overread, overflow, ◌>>=◌}
use client_server_signaling.UserStore.{UserStore, StoreOp, apply_all}
use client_server_signaling.Wire.{socket_buffer_size}
use client_server_signaling.Wire.Words.{HasNoNul}
use client_server_signaling.Wire.Arrays.{read_buffer_full}
use client_server_signaling.Server.Session.{Session, Env}
use client_server_signaling.Server.Loop.{dispatch, on_recv, round}
use client_server_signaling.Client.Requests.{pack}
use client_server_signaling.Client.Requests.Packing.{pack-HasNoNul, pack-overflow}
use client_server_signaling.Protocol.Sessions.{heard, round-heard}

module _ (env : Env) (others : List StoreOp) (s : Session) (users : UserStore) (m : Text)
    (nn : HasNoNul m) where
  full : length m ≡ socket_buffer_size → round (heard env others m) s users ≡ err overread
  unfolding round on_recv
  full l = rw (read_buffer_full m socket_buffer_size socket_buffer_size nn l) refl

  -- A request without NULs, as the client copies it into its array and the server receives that
  -- array: shorter than the array it is handled as it is; one that fills the array arrives with no
  -- NUL, and the server reads past its own array; a longer one runs past the client's.
  pub round-pack : pack m >>= (λ message. round (heard env others message) s users) ≡ (
      if ltb (length m) socket_buffer_size
      then dispatch env s (apply_all others users) m
      else if length m == socket_buffer_size
      then err overread
      else err overflow)
  round-pack = elim (Bool-cases (ltb (length m) socket_buffer_size)) [
    | inl e ↦
        let l : length m < socket_buffer_size = ground arith in
        rw (pack-HasNoNul m nn (omega (arith, l)), e) (round-heard env others s users m nn l)
    | inr e ↦ elim (Bool-cases (length m == socket_buffer_size)) [
      | inl q ↦
          let l : length m ≡ socket_buffer_size = ground arith in
          rw (pack-HasNoNul m nn (omega (arith, l)), e, q) (full l)
      | inr q ↦
          let l : socket_buffer_size < length m = ground arith in
          rw (pack-overflow m nn l, e, q) refl
    ]
  ]
