-- ===== src/Handshake/Candidates.antt =====
-- Runs of src/answerer.cpp that have no candidate to send.
use client_server_signaling.Base.{
  ◌≡◌, ◌≢◌, subst, if_cases, inl, inr, Option-cases, Text, Bool, not, List, [], ◌∷◌, minus_one,
  int_eq,
}
use client_server_signaling.Fault.{>>=-cases, Result, ok, err, ◌>>=◌}
use client_server_signaling.Wire.{read_buffer, sprintf}
use client_server_signaling.Wire.Arguments.{htons}
use client_server_signaling.Client.Listener.{Peer}
use client_server_signaling.Handshake.{Event, remote_description}
use client_server_signaling.Handshake.Answerer.{
  buffer_size, ip_size, atoi, Env, Run, finished, or_throws, answer, take_offer, answerer,
}

abbrev Unfinished : Result Run → Type 0
Unfinished (ok r) = r.end ≢ finished
Unfinished (err f) = Unit

module _ (p : Peer) (accepts_candidate : Text → Bool) where
  Unfinished-bind {ℓ} :
      {A : Type ℓ} (m : Result A) (f : A → Result Run)
      → ((a : A) → Unfinished (f a))
      → Unfinished (m >>= f)
  Unfinished-bind m f h = >>=-cases Unfinished m f (λ why. tt) (λ a e. h a)

  answer-Unfinished :
      (env : Env) (remote : Event) (sdp : Text)
      → env.candidates ≡ []
      → Unfinished (answer p accepts_candidate env remote sdp)
  unfolding answer
  answer-Unfinished env remote sdp e =
      Unfinished-bind (read_buffer buffer_size env.candidate_bytes) _
        λ candidate. if_cases Unfinished (accepts_candidate candidate) _ _ (rw (answer, e) tt) tt

  take_offer-Unfinished :
      (env : Env) → env.candidates ≡ [] → Unfinished (take_offer p accepts_candidate env)
  unfolding take_offer
  take_offer-Unfinished env e = Unfinished-bind (read_buffer buffer_size env.offer_bytes) _ λ text.
      Unfinished-bind (or_throws (p.parse text)) _ λ j.
        Unfinished-bind (or_throws (remote_description p j)) _ λ remote.
          elim (Option-cases env.generated) [
            | inl q ↦ rw q (λ h. cc)
            | inr (sdp, q) ↦ rw q (answer-Unfinished env remote sdp e)
          ]

  answerer-Unfinished :
      (arguments : List Text) (env : Env)
      → env.candidates ≡ []
      → Unfinished (answerer p accepts_candidate arguments env)
  unfolding answerer
  answerer-Unfinished [] env e = tt
  answerer-Unfinished (ip ∷ []) env e = tt
  answerer-Unfinished (ip ∷ port ∷ arguments) env e = Unfinished-bind (atoi port) _ λ number.
      Unfinished-bind (sprintf ip_size ip) _ λ remote_ip.
        if_cases Unfinished (int_eq env.socket_result minus_one) _ _ (λ h. cc)
          (if_cases Unfinished (not (env.inet_pton_ok remote_ip)) _ _ (λ h. cc)
            (if_cases Unfinished (not (env.connect_ok remote_ip (htons number))) _ _ (λ h. cc)
              (take_offer-Unfinished env e)))

  -- An answerer that has no candidate when it counts them does not come to its end: it returns
  -- 1, waits for ever, or is ended by a fault, an exception among them.
  pub answerer-no_candidate :
      (arguments : List Text) (env : Env) (r : Run)
      → env.candidates ≡ []
      → answerer p accepts_candidate arguments env ≡ ok r
      → r.end ≢ finished
  answerer-no_candidate arguments env r e h =
      subst Unfinished h (answerer-Unfinished arguments env e)
