-- ===== src/ThreadSafeMap.antt =====
-- include/ThreadSafeMap.hpp and src/ThreadSafeMap.cpp: a `std::map` behind a mutex. Each method is
-- one step. A map is the list of its pairs in the order of their keys, as `std::map` iterates.
pub mod Order
pub mod Laws
pub mod Sorted
pub mod Refines
pub mod File
use client_server_signaling.Base.{
  Bool, true, false, Option, none, some, List, [], ◌∷◌, if◌then◌else◌,
}
use Order.{Ord}

module _ {ℓ κ} {K : Type ℓ} {V : Type κ} ⦃o : Ord K⦄ where
  -- `map_.find(key)`
  unfoldable pub find : K → List (K × V) → Option V
  find key [] = none
  find key ((k, v) ∷ m) = if o.lt k key then find key m else if o.lt key k then none else some v

  -- `map_[key] = value`
  pub assign : K → V → List (K × V) → List (K × V)
  assign key value [] = (key, value) ∷ []
  assign key value ((k, v) ∷ m) =
      if o.lt k key
      then (k, v) ∷ assign key value m
      else if o.lt key k
      then (key, value) ∷ (k, v) ∷ m
      else (k, value) ∷ m

  -- `map_.erase(key)`
  pub erase : K → List (K × V) → List (K × V)
  erase key [] = []
  erase key ((k, v) ∷ m) =
      if o.lt k key then (k, v) ∷ erase key m else if o.lt key k then (k, v) ∷ m else m

  pub add : K → V → List (K × V) → List (K × V)
  add key value m = assign key value m

  -- `map_.count(key)` is 0 or 1.
  pub edit : K → V → List (K × V) → List (K × V)
  edit key value m = elim (find key m) [ none ↦ m | some _ ↦ assign key value m ]

  pub remove : K → List (K × V) → List (K × V)
  remove key m = erase key m

  -- The second argument is `V()`.
  pub get : K → V → List (K × V) → V
  get key default m = elim (find key m) [ none ↦ default | some v ↦ v ]

  pub contains : K → List (K × V) → Bool
  contains key m = elim (find key m) [ none ↦ false | some _ ↦ true ]
