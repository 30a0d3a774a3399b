-- ===== src/SimpleOfferer/Candidates.antt =====
-- The candidates that a run adds.
use client_server_signaling.Base.{
  ℕ, suc, ltb, ◌^◌, ◌-◌, ◌≡◌, ◌≢◌, refl, subst, if_cases, inl, inr, Option-cases, Text, Bool, List,
  [], ◌∷◌, ℤ, pos, negsuc,
}
use client_server_signaling.Fault.{>>=-cases, Result, ok, err, overflow, ◌>>=◌}
use client_server_signaling.Rtp.{Buffer, fresh, offerer_loop}
use client_server_signaling.Client.Listener.{Peer}
use client_server_signaling.Handshake.{Event, remote_description}
use client_server_signaling.SimpleOfferer.{
  LoopEnd, left, waits, throws, adds_first, add_candidates, Env, caught, typing, Run, after_loop,
  after_description, simple_offerer,
}

-- Not left, with whatever is added.
abbrev Stays : Result (List Text × LoopEnd) → Type 0
Stays (ok (added, left)) = ⊥
Stays (ok (added, _)) = Unit
Stays (err f) = Unit

adds_first-Stays :
    (line : Text) (x : Result (List Text × LoopEnd)) → Stays x → Stays (adds_first line x)
adds_first-Stays line (ok (added, left)) h = h
adds_first-Stays line (ok (added, waits)) h = tt
adds_first-Stays line (ok (added, throws)) h = tt
adds_first-Stays line (err f) h = tt

add_candidates-Stays :
    (accepts : Text → Bool) (n : ℕ) (lines : List Text)
    → Stays (add_candidates accepts (negsuc n) lines)
unfolding add_candidates
add_candidates-Stays accepts n [] = tt
add_candidates-Stays accepts n (line ∷ lines) =
    if_cases Stays (accepts line) _ _
      (if_cases Stays (ltb n (2 ^ 31 - 1)) _ (err overflow)
        (adds_first-Stays line _ (add_candidates-Stays accepts (suc n) lines)) tt)
      tt

-- A run that has come past the candidate loop has added no candidate.
abbrev AddsNone : Result Run → Type 0
AddsNone (ok r) = r.end ≢ caught → r.end ≢ typing → r.candidates ≡ []
AddsNone (err f) = Unit

module _ (p : Peer) (accepts_candidate : Text → Bool) (stamp : Buffer → Buffer) where
  AddsNone-bind {ℓ} :
      {A : Type ℓ} (m : Result A) (f : A → Result Run)
      → ((a : A) → AddsNone (f a))
      → AddsNone (m >>= f)
  AddsNone-bind m f h = >>=-cases AddsNone m f (λ why. tt) (λ a e. h a)

  after_loop-AddsNone :
      (remote : Event) (env : Env) (x : Result (List Text × LoopEnd))
      → Stays x
      → AddsNone (x >>= after_loop p accepts_candidate stamp remote env)
  unfolding after_loop
  after_loop-AddsNone remote env (ok (added, left)) h = absurd h
  after_loop-AddsNone remote env (ok (added, waits)) h = λ c t. absurd (t refl)
  after_loop-AddsNone remote env (ok (added, throws)) h = λ c t. absurd (c refl)
  after_loop-AddsNone remote env (err f) h = tt

  after_description-AddsNone :
      (remote : Event) (n : ℤ) (env : Env)
      → env.num_cand ≡ n
      → AddsNone (after_description p accepts_candidate stamp remote env)
  unfolding after_description after_loop add_candidates
  after_description-AddsNone remote (pos n) env e =
      rw (after_description, e) (AddsNone-bind (offerer_loop stamp env.media fresh) _ λ x c t. refl)
  after_description-AddsNone remote (negsuc n) env e =
      rw (after_description, e)
        (after_loop-AddsNone remote env _ (add_candidates-Stays accepts_candidate n env.lines))

  simple_offerer-AddsNone :
      (b : ℤ) (env : Env)
      → env.bind_result ≡ b
      → AddsNone (simple_offerer p accepts_candidate stamp env)
  unfolding simple_offerer
  simple_offerer-AddsNone (negsuc n) env e = rw (simple_offerer, e) (λ c t. refl)
  simple_offerer-AddsNone (pos n) env e = elim (Option-cases (p.parse env.sdp)) [
    | inl e1 ↦ rw (simple_offerer, e, e1) (λ c t. refl)
    | inr (j, e1) ↦ elim (Option-cases (remote_description p j)) [
      | inl e2 ↦ rw (simple_offerer, e, e1, e2) (λ c t. refl)
      | inr (remote, e2) ↦
          rw (simple_offerer, e, e1, e2) (after_description-AddsNone remote env.num_cand env refl)
    ]
  ]

  -- Whatever number of candidates is typed, a run that no exception has ended and that does not
  -- wait for a candidate, so that it passes packets on or has done so, has added no candidate.
  pub simple_offerer-adds_none :
      (env : Env) (r : Run)
      → simple_offerer p accepts_candidate stamp env ≡ ok r
      → r.end ≢ caught
      → r.end ≢ typing
      → r.candidates ≡ []
  simple_offerer-adds_none env r h =
      subst AddsNone h (simple_offerer-AddsNone env.bind_result env refl)
