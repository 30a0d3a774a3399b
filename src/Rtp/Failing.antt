-- ===== src/Rtp/Failing.antt =====
-- Runs of `media_handler` whose `recv` fails.
use client_server_signaling.Base.{
  ℕ, ◌≡◌, refl, ◌∙◌, ap, Text, Bool, true, false, Option, none, some, List, [], ◌∷◌, ◌++◌, length,
}
use client_server_signaling.Fault.{ok, err, ◌>>=◌, >>=-eq-ok}
use client_server_signaling.Rtp.{
  Buffer, fresh, forward, received, overwrite, then_sent, media_loop, media_handler,
}

-- In some round `recv` fails.
abbrev pub recv_fails : List (Option Text × Bool) → Bool
recv_fails [] = false
recv_fails ((none, is_open) ∷ rs) = true
recv_fails ((some datagram, is_open) ∷ rs) = recv_fails rs

was_left : (x y : List Text × Bool) → ok x ≡ ok y → x.1 ≡ y.1
was_left x y h = ap (λ r. elim r [ ok z ↦ z.1 | err _ ↦ x.1 ]) h

module _ (stamp : Buffer → Buffer) where
  -- The rest of the loop after a round.
  media_loop-rest :
      (len : ℕ) (is_open : Bool) (b : Buffer) (rs : List (Option Text × Bool)) (sent : List Text)
      → (do x ← forward stamp len is_open b; then_sent x.1 (media_loop stamp rs x.0))
        ≡ ok (sent, true)
      → (b' : Buffer) × (more : List Text) × (media_loop stamp rs b' ≡ ok (more, true))
  media_loop-rest len is_open b rs sent h =
      let (x, _, h1) = >>=-eq-ok (forward stamp len is_open b) _ h in
      let (y, e, h2) = >>=-eq-ok (media_loop stamp rs x.0) _ h1 in
      (x.0, y.0, e ∙ ap (λ l. ok (y.0, l)) (was_left (x.1 ++ y.0, y.1) (sent, true) h2))

  media_loop-left :
      (rs : List (Option Text × Bool)) (b : Buffer) (sent : List Text)
      → media_loop stamp rs b ≡ ok (sent, true)
      → recv_fails rs ≡ true
  unfolding media_loop
  media_loop-left [] b sent h = cc
  media_loop-left ((none, is_open) ∷ rs) b sent h = refl
  media_loop-left ((some d, is_open) ∷ rs) b sent h =
      let (b', more, e) =
        media_loop-rest (length (received d)) is_open (overwrite (received d) b) rs sent h in
      media_loop-left rs b' more e

  pub media_handler-left :
      (rs : List (Option Text × Bool)) (sent : List Text)
      → media_handler stamp rs ≡ ok (sent, true)
      → recv_fails rs ≡ true
  unfolding media_handler
  media_handler-left rs sent h = media_loop-left rs fresh sent h
