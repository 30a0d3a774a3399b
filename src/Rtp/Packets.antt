-- ===== src/Rtp/Packets.antt =====
-- What is sent of the datagrams that arrive.
use client_server_signaling.Base.{
  ℕ, zero, suc, ◌+◌, ◌≤◌, ◌≡◌, refl, sym, ◌∙◌, ap, arith, Text, Bool, true, false, not, ◌||◌,
  Option, none, some, List, [], ◌∷◌, ◌++◌, map, if◌then◌else◌, ltb, length, take, drop,
  length-append, append_assoc, inl, inr, Bool-cases,
}
use client_server_signaling.Fault.{ok}
use client_server_signaling.Rtp.{
  header_size, Buffer, received, overwrite, fresh, media_handler, contents, forward, offerer_loop,
  media_loop,
}

-- The four bytes of `ssrc`, 42, in the network's order.
abbrev pub ssrc : Text
ssrc = 0 ∷ 0 ∷ 0 ∷ 42 ∷ []

-- What `setSsrc` is documented to do: it writes the field at the bytes 8 to 11.
abbrev pub SetsSsrc : (Buffer → Buffer) → Type 0
SetsSsrc stamp =
    (b : Buffer) → header_size ≤ length b → stamp b ≡ take 8 b ++ (map some ssrc ++ drop 12 b)

abbrev pub restamp : Text → Text
restamp packet = take 8 packet ++ (ssrc ++ drop 12 packet)

contents-map : (t : Text) (b : Buffer) → contents (length t) (map some t ++ b) ≡ ok t
unfolding contents
contents-map [] b = refl
contents-map (c ∷ t) b = rw (contents-map t b)

length-map : (t : Text) (b : Buffer) → length (map some t ++ b) ≡ length t + length b
length-map [] b = omega arith
length-map (c ∷ t) b = omega (arith, length-map t b)

take-map :
    (n : ℕ) (t : Text) (b : Buffer) → n ≤ length t → take n (map some t ++ b) ≡ map some (take n t)
take-map zero t b h = refl
take-map (suc n) [] b h = absurd (omega arith)
take-map (suc n) (c ∷ t) b h = ap (λ r. some c ∷ r) (take-map n t b (omega arith))

drop-map :
    (n : ℕ) (t : Text) (b : Buffer)
    → n ≤ length t
    → drop n (map some t ++ b) ≡ map some (drop n t) ++ b
drop-map zero t b h = refl
drop-map (suc n) [] b h = absurd (omega arith)
drop-map (suc n) (c ∷ t) b h = drop-map n t b (omega arith)

map-append : (s t : Text) → map some (s ++ t) ≡ map some s ++ map some t
map-append [] t = refl
map-append (c ∷ s) t = ap (λ r. some c ∷ r) (map-append s t)

length-split : (n : ℕ) (t : Text) → n ≤ length t → length (take n t) + length (drop n t) ≡ length t
length-split zero t h = omega arith
length-split (suc n) [] h = absurd (omega arith)
length-split (suc n) (c ∷ t) h = omega (arith, length-split n t (omega arith))

length-take : (n : ℕ) (t : Text) → n ≤ length t → length (take n t) ≡ n
length-take zero t h = refl
length-take (suc n) [] h = absurd (omega arith)
length-take (suc n) (c ∷ t) h = ap suc (length-take n t (omega arith))

length-restamp : (t : Text) → header_size ≤ length t → length (restamp t) ≡ length t
length-restamp t h = omega (
  arith,
  length-append (take 8 t) (ssrc ++ drop 12 t),
  length-take 8 t (omega arith),
  length-take 12 t h,
  length-split 12 t h,
)

-- A packet that is forwarded: a whole header, while the track is open.
abbrev pub is_forwarded : Text → Bool → Bool
is_forwarded datagram is_open = not (ltb (length (received datagram)) header_size || not is_open)

abbrev pub outcome : Text → Bool → List Text
outcome datagram is_open =
    if is_forwarded datagram is_open then restamp (received datagram) ∷ [] else []

abbrev pub forwarded : List (Text × Bool) → List Text
forwarded [] = []
forwarded ((datagram, is_open) ∷ rs) = outcome datagram is_open ++ forwarded rs

module _ (stamp : Buffer → Buffer) (sets : SetsSsrc stamp) where
  stamped :
      (t : Text) (b : Buffer)
      → header_size ≤ length t
      → stamp (overwrite t b) ≡ map some (restamp t) ++ drop (length t) b
  stamped t b h =
      rw
        (
          sets (overwrite t b) (omega (arith, length-map t (drop (length t) b))),
          take-map 8 t (drop (length t) b) (omega arith),
          drop-map 12 t (drop (length t) b) h,
          map-append (take 8 t) (ssrc ++ drop 12 t),
          append_assoc,
        )
        refl

  contents-stamp :
      (t : Text) (b : Buffer)
      → header_size ≤ length t
      → contents (length t) (stamp (overwrite t b)) ≡ ok (restamp t)
  contents-stamp t b h =
      ap (λ n. contents n (stamp (overwrite t b))) (sym (length-restamp t h))
      ∙ rw (stamped t b h) (contents-map (restamp t) (drop (length t) b))

  -- A datagram that arrives, in either loop.
  forward_lem :
      (d : Text) (is_open : Bool) (b : Buffer)
      → (b' : Buffer) × (forward stamp (length (received d)) is_open (overwrite (received d) b)
          ≡ ok (b', outcome d is_open))
  unfolding forward
  forward_lem d is_open b =
      let t = received d in
      elim (Bool-cases (ltb (length t) header_size || not is_open)) [
        | inl e ↦ (overwrite t b, rw (e, forward))
        | inr e ↦ (stamp (overwrite t b), rw (forward, e, contents-stamp t b (ground arith)))
      ]

  offerer_loop-append :
      (rs : List (Text × Bool)) (rest : List (Option Text × Bool)) (left : Bool) (b : Buffer)
      → ((b' : Buffer) → offerer_loop stamp rest b' ≡ ok ([], left))
      → offerer_loop stamp (map (λ (d, o). (some d, o)) rs ++ rest) b ≡ ok (forwarded rs, left)
  unfolding offerer_loop
  offerer_loop-append [] rest left b h = h b
  offerer_loop-append ((d, o) ∷ rs) rest left b h =
      let (b', e) = forward_lem d o b in rw (e, offerer_loop-append rs rest left b' h)

  -- Where `setSsrc` writes its field only: of the datagrams before the first `recv` that fails,
  -- src/simple_offerer.cpp forwards those that come while the track is open and hold a whole RTP
  -- header, cut to the buffer's size and with the four bytes of the SSRC replaced, in their
  -- order; no unset byte is read, and the loop is left at that `recv`.
  pub offerer_loop-forwards :
      (rs : List (Text × Bool)) (is_open : Bool) (later : List (Option Text × Bool))
      → offerer_loop stamp (map (λ (d, o). (some d, o)) rs ++ (none, is_open) ∷ later) fresh
        ≡ ok (forwarded rs, true)
  unfolding offerer_loop
  offerer_loop-forwards rs is_open later =
      offerer_loop-append rs ((none, is_open) ∷ later) true fresh λ b. refl

  media_loop-receiving :
      (rs : List (Text × Bool)) (b : Buffer)
      → media_loop stamp (map (λ (d, o). (some d, o)) rs) b ≡ ok (forwarded rs, false)
  unfolding media_loop
  media_loop-receiving [] b = refl
  media_loop-receiving ((d, o) ∷ rs) b =
      let (b', e) = forward_lem d o b in rw (e, media_loop-receiving rs b')

  -- Where `setSsrc` writes its field only: as long as no `recv` fails, `media_handler` forwards
  -- the datagrams that come while the track is open and hold a whole RTP header, cut to the
  -- buffer's size and with the SSRC replaced, in their order, and does not return.
  pub media_handler-receiving :
      (rs : List (Text × Bool))
      → media_handler stamp (map (λ (d, o). (some d, o)) rs) ≡ ok (forwarded rs, false)
  unfolding media_handler
  media_handler-receiving rs = media_loop-receiving rs fresh
