-- ===== src/ThreadSafeMap/Laws.antt =====
-- What a lookup finds after each method, in a map whose keys are in order.
use client_server_signaling.Base.{◌≡◌, ◌≢◌, refl, arith, true, none, some, List, [], ◌∷◌}
use client_server_signaling.ThreadSafeMap.{find, assign, erase}
use client_server_signaling.ThreadSafeMap.Order.{Ord, lt_asymm}

module _ {ℓ κ} {K : Type ℓ} {V : Type κ} ⦃o : Ord K⦄ where
  -- `key` comes before every key of the map.
  abbrev pub Below : K → List (K × V) → Type 0
  Below key [] = Unit
  Below key ((k, v) ∷ m) = (o.lt key k ≡ true) × Below key m

  -- The keys are in order, without repetition.
  abbrev pub IsSorted : List (K × V) → Type 0
  IsSorted [] = Unit
  IsSorted ((k, v) ∷ m) = Below k m × IsSorted m

  pub Below-trans : (a b : K) (m : List (K × V)) → o.lt a b ≡ true → Below b m → Below a m
  Below-trans a b [] h l = tt
  Below-trans a b ((k, v) ∷ m) h l = (o.lt_trans a b k h l.0, Below-trans a b m h l.1)

  pub find-Below : (key : K) (m : List (K × V)) → Below key m → find key m ≡ none
  unfolding find
  find-Below key [] h = refl
  find-Below key ((k, v) ∷ m) h = rw (lt_asymm key k h.0, h.0)

  pub find-assign_self :
      (key : K) (value : V) (m : List (K × V)) → find key (assign key value m) ≡ some value
  unfolding find assign
  find-assign_self key value [] = ground (arith, o.lt_irrefl key)
  find-assign_self key value ((k, v) ∷ m) =
      ground (arith, o.lt_irrefl key, find-assign_self key value m)

  pub find-assign_ne :
      (key j : K) (value : V) (m : List (K × V)) → j ≢ key → find j (assign key value m) ≡ find j m
  unfolding find assign
  find-assign_ne key j value [] h = ground (arith, o.lt_connex j key)
  find-assign_ne key j value ((k, v) ∷ m) h = ground (
    arith,
    o.lt_connex key j,
    o.lt_connex k key,
    lt_asymm j key,
    lt_asymm j k,
    lt_asymm k key,
    o.lt_trans j key k,
    o.lt_trans key j k,
    o.lt_trans k j key,
    o.lt_trans k key j,
    find-assign_ne key j value m h,
  )

  pub find-erase_self : (key : K) (m : List (K × V)) → IsSorted m → find key (erase key m) ≡ none
  unfolding find erase
  find-erase_self key [] h = refl
  find-erase_self key ((k, v) ∷ m) h =
      ground (arith, o.lt_connex k key, find-Below k m h.0, find-erase_self key m h.1)

  pub find-erase_ne :
      (key j : K) (m : List (K × V)) → IsSorted m → j ≢ key → find j (erase key m) ≡ find j m
  unfolding find erase
  find-erase_ne key j [] h n = refl
  find-erase_ne key j ((k, v) ∷ m) h n = ground (
    arith,
    o.lt_connex k key,
    o.lt_connex k j,
    find-Below j m,
    Below-trans j k m,
    find-erase_ne key j m h.1 n,
  )
