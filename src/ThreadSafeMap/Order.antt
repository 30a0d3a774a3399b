-- ===== src/ThreadSafeMap/Order.antt =====
-- `std::less` on keys, and its instance for `std::string`.
use client_server_signaling.Base.{
  ◌≡◌, refl, arith, Text, Bool, true, false, ◌&&◌, ◌||◌, [], ◌∷◌, ltb, ◌==◌, Bool-cases, inl, inr,
}

pub record Ord {ℓ} (K : Type ℓ) : Type ℓ where
  pub lt : K → K → Bool
  pub lt_irrefl : (a : K) → lt a a ≡ false
  pub lt_trans : (a b c : K) → lt a b ≡ true → lt b c ≡ true → lt a c ≡ true
  pub lt_connex : (a b : K) → lt a b ≡ false → lt b a ≡ false → a ≡ b

pub lt_asymm {ℓ} : {K : Type ℓ} ⦃o : Ord K⦄ (a b : K) → o.lt a b ≡ true → o.lt b a ≡ false
lt_asymm ⦃o⦄ a b h = elim (Bool-cases (o.lt b a)) [
  | inl e ↦ ground (arith, o.lt_trans a b a h e, o.lt_irrefl a)
  | inr e ↦ e
]

-- `operator<` of `std::string`: by the first byte that differs.
unfoldable pub text_lt : Text → Text → Bool
text_lt [] [] = false
text_lt [] (b ∷ t) = true
text_lt (a ∷ s) [] = false
text_lt (a ∷ s) (b ∷ t) = ltb a b || (a == b && text_lt s t)

pub text_lt_irrefl : (s : Text) → text_lt s s ≡ false
unfolding text_lt
text_lt_irrefl [] = refl
text_lt_irrefl (a ∷ s) = ground (arith, text_lt_irrefl s)

pub text_lt_trans : (s t u : Text) → text_lt s t ≡ true → text_lt t u ≡ true → text_lt s u ≡ true
unfolding text_lt
text_lt_trans [] [] u p q = absurd (ground arith)
text_lt_trans [] (b ∷ t) [] p q = absurd (ground arith)
text_lt_trans [] (b ∷ t) (c ∷ u) p q = refl
text_lt_trans (a ∷ s) [] u p q = absurd (ground arith)
text_lt_trans (a ∷ s) (b ∷ t) [] p q = absurd (ground arith)
text_lt_trans (a ∷ s) (b ∷ t) (c ∷ u) p q = ground (arith, text_lt_trans s t u)

pub text_lt_connex : (s t : Text) → text_lt s t ≡ false → text_lt t s ≡ false → s ≡ t
unfolding text_lt
text_lt_connex [] [] p q = refl
text_lt_connex [] (b ∷ t) p q = absurd (ground arith)
text_lt_connex (a ∷ s) [] p q = absurd (ground arith)
text_lt_connex (a ∷ s) (b ∷ t) p q = ground (arith, text_lt_connex s t)

instance abbrev pub text_ord : Ord Text
text_ord = record {
  lt = text_lt;
  lt_irrefl = text_lt_irrefl;
  lt_trans = text_lt_trans;
  lt_connex = text_lt_connex;
}
