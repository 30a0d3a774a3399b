-- ===== src/ThreadSafeMap/Sorted.antt =====
-- Every method keeps the keys in order, and what the methods promise their callers.
use client_server_signaling.Base.{◌≡◌, ◌≢◌, arith, true, false, List, [], ◌∷◌, if◌then◌else◌}
use client_server_signaling.ThreadSafeMap.{assign, erase, add, edit, remove, get, contains}
use client_server_signaling.ThreadSafeMap.Order.{Ord}
use client_server_signaling.ThreadSafeMap.Laws.{
  Below, IsSorted, Below-trans, find-assign_self, find-assign_ne, find-erase_self, find-erase_ne,
}

module _ {ℓ κ} {K : Type ℓ} {V : Type κ} ⦃o : Ord K⦄ where
  assign-Below :
      (j key : K) (value : V) (m : List (K × V))
      → o.lt j key ≡ true
      → Below j m
      → Below j (assign key value m)
  unfolding assign
  assign-Below j key value [] h b = (h, tt)
  assign-Below j key value ((k, v) ∷ m) h b = ground (arith, assign-Below j key value m h b.1)

  assign-IsSorted :
      (key : K) (value : V) (m : List (K × V)) → IsSorted m → IsSorted (assign key value m)
  unfolding assign
  assign-IsSorted key value [] h = (tt, tt)
  assign-IsSorted key value ((k, v) ∷ m) h =
      ground
        (arith, assign-Below k key value m, assign-IsSorted key value m h.1, Below-trans key k m)

  erase-Below : (j key : K) (m : List (K × V)) → Below j m → Below j (erase key m)
  unfolding erase
  erase-Below j key [] b = tt
  erase-Below j key ((k, v) ∷ m) b = ground (arith, erase-Below j key m b.1)

  pub erase-IsSorted : (key : K) (m : List (K × V)) → IsSorted m → IsSorted (erase key m)
  unfolding erase
  erase-IsSorted key [] h = tt
  erase-IsSorted key ((k, v) ∷ m) h =
      ground (arith, erase-Below k key m h.0, erase-IsSorted key m h.1)

  -- Each of the three methods that write keeps the keys in order and without repetition.
  pub methods-IsSorted :
      (key : K) (value : V) (m : List (K × V))
      → IsSorted m
      → IsSorted (add key value m) × IsSorted (edit key value m) × IsSorted (remove key m)
  unfolding add edit remove
  methods-IsSorted key value m h =
      let a = assign-IsSorted key value m h in (a, ground (arith, a), erase-IsSorted key m h)

  -- `add` makes its key's value the new one, and leaves all other keys as they were.
  pub get-add :
      (key : K) (value default : V) (m : List (K × V))
      → (get key default (add key value m) ≡ value)
        × (contains key (add key value m) ≡ true)
        × ((j : K)
            → j ≢ key
            → (get j default (add key value m) ≡ get j default m)
              × (contains j (add key value m) ≡ contains j m))
  unfolding get contains add
  get-add key value default m = (
    ground (arith, find-assign_self key value m),
    ground (arith, find-assign_self key value m),
    λ j h. (
      ground (arith, find-assign_ne key j value m h),
      ground (arith, find-assign_ne key j value m h),
    ),
  )

  -- `edit` does what `add` does if the key is there, and nothing if it is not.
  pub edit-add :
      (key : K) (value : V) (m : List (K × V))
      → edit key value m ≡ (if contains key m then add key value m else m)
  unfolding edit contains add
  edit-add key value m = ground arith

  -- After `remove` a key of an ordered map is gone, so that `get` gives the default, and all other
  -- keys are as they were.
  pub get-remove :
      (key : K) (default : V) (m : List (K × V))
      → IsSorted m
      → (get key default (remove key m) ≡ default)
        × (contains key (remove key m) ≡ false)
        × ((j : K)
            → j ≢ key
            → (get j default (remove key m) ≡ get j default m)
              × (contains j (remove key m) ≡ contains j m))
  unfolding get contains remove
  get-remove key default m h = (
    ground (arith, find-erase_self key m h),
    ground (arith, find-erase_self key m h),
    λ j n. (ground (arith, find-erase_ne key j m h n), ground (arith, find-erase_ne key j m h n)),
  )
