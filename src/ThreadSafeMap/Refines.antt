-- ===== src/ThreadSafeMap/Refines.antt =====
-- The map as its callers may think of it: a function from keys to values. Any sequence of calls of
-- the methods of ThreadSafeMap, each of which is one step, implements the one on functions.
use client_server_signaling.Base.{
  ◌≡◌, ◌≢◌, refl, ap, ◌∙◌, fun_ext, arith, ◌⊎◌, Bool, true, false, not, ◌&&◌, Option, none, some,
  List, [], ◌∷◌, if◌then◌else◌, Option-cases, Bool-cases, inl, inr,
}
use client_server_signaling.ThreadSafeMap.{find, assign, add, edit, remove, get, contains}
use client_server_signaling.ThreadSafeMap.Order.{Ord}
use client_server_signaling.ThreadSafeMap.Laws.{
  IsSorted, find-assign_self, find-assign_ne, find-erase_self, find-erase_ne,
}
use client_server_signaling.ThreadSafeMap.Sorted.{methods-IsSorted, erase-IsSorted}

-- The calls that write.
pub data Method {ℓ κ} (K : Type ℓ) (V : Type κ) : Type (ℓ ⊔ κ) where
  adds edits : K → V → Method K V
  removes : K → Method K V

module _ {ℓ} {K : Type ℓ} ⦃o : Ord K⦄ where
  -- Keys of which neither comes before the other.
  abbrev pub same : K → K → Bool
  same j key = not (o.lt j key) && not (o.lt key j)

  same-cases : (j key : K) → ((same j key ≡ true) × (j ≡ key)) ⊎ ((same j key ≡ false) × (j ≢ key))
  same-cases j key = elim (Bool-cases (same j key)) [
    | inl e ↦ inl (e, o.lt_connex j key (ground arith) (ground arith))
    | inr e ↦ inr (e, λ q. ground (arith, o.lt_irrefl key))
  ]

module _ {ℓ κ} {K : Type ℓ} {V : Type κ} ⦃o : Ord K⦄ where
  unfoldable pub call : Method K V → List (K × V) → List (K × V)
  call (adds key value) m = add key value m
  call (edits key value) m = edit key value m
  call (removes key) m = remove key m

  unfoldable pub calls : List (Method K V) → List (K × V) → List (K × V)
  calls [] m = m
  calls (c ∷ cs) m = calls cs (call c m)

  -- The methods on functions: a write, a write where there is a value, and a gap.
  unfoldable pub spec_call : Method K V → (K → Option V) → K → Option V
  spec_call (adds key value) f j = if same j key then some value else f j
  spec_call (edits key value) f j =
      if same j key then elim (f key) [ none ↦ none | some _ ↦ some value ] else f j
  spec_call (removes key) f j = if same j key then none else f j

  unfoldable pub spec_calls : List (Method K V) → (K → Option V) → K → Option V
  spec_calls [] f = f
  spec_calls (c ∷ cs) f = spec_calls cs (spec_call c f)

  call-IsSorted : (c : Method K V) (m : List (K × V)) → IsSorted m → IsSorted (call c m)
  unfolding call remove
  call-IsSorted (adds key value) m h = (methods-IsSorted key value m h).0
  call-IsSorted (edits key value) m h = (methods-IsSorted key value m h).1
  call-IsSorted (removes key) m h = erase-IsSorted key m h

  find-assign :
      (key j : K) (value : V) (m : List (K × V))
      → find j (assign key value m) ≡ (if same j key then some value else find j m)
  find-assign key j value m = elim (same-cases j key) [
    | inl (e, q) ↦ rw (e, q) (find-assign_self key value m)
    | inr (e, n) ↦ rw e (find-assign_ne key j value m n)
  ]

  find-call :
      (c : Method K V) (m : List (K × V)) (j : K)
      → IsSorted m
      → find j (call c m) ≡ spec_call c (λ i. find i m) j
  unfolding call spec_call add edit remove
  find-call (adds key value) m j h = find-assign key j value m
  find-call (edits key value) m j h = elim (Option-cases (find key m)) [
    | inr (v, e) ↦ rw (edit, e) (find-assign key j value m)
    | inl e ↦ elim (same-cases j key) [
      | inl (e', q) ↦ rw (e', q, edit, e) e
      | inr (e', n) ↦ rw (edit, e, e')
    ]
  ]
  find-call (removes key) m j h = elim (same-cases j key) [
    | inl (e, q) ↦ rw (e, q) (find-erase_self key m h)
    | inr (e, n) ↦ rw e (find-erase_ne key j m h n)
  ]

  pub calls-IsSorted :
      (cs : List (Method K V)) (m : List (K × V)) → IsSorted m → IsSorted (calls cs m)
  unfolding calls
  calls-IsSorted [] m h = h
  calls-IsSorted (c ∷ cs) m h = calls-IsSorted cs (call c m) (call-IsSorted c m h)

  find-calls :
      (cs : List (Method K V)) (m : List (K × V))
      → IsSorted m
      → (λ j. find j (calls cs m)) ≡ spec_calls cs (λ j. find j m)
  unfolding calls spec_calls
  find-calls [] m h = refl
  find-calls (c ∷ cs) m h =
      find-calls cs (call c m) (call-IsSorted c m h)
      ∙ ap (spec_calls cs) (fun_ext λ j. find-call c m j h)

  -- After any sequence of calls of `add`, `edit` and `remove` on a map whose keys are in order, the
  -- keys are in order and without repetition, and `get` and `contains` tell of every key what the
  -- same calls give on a function from keys to values, and the default where it has none.
  pub calls-refines :
      (cs : List (Method K V)) (m : List (K × V)) (j : K) (default : V)
      → IsSorted m
      → IsSorted (calls cs m)
        × (get j default (calls cs m)
            ≡ elim (spec_calls cs (λ i. find i m) j) [ none ↦ default | some v ↦ v ])
        × (contains j (calls cs m)
            ≡ elim (spec_calls cs (λ i. find i m) j) [ none ↦ false | some _ ↦ true ])
  unfolding get contains
  calls-refines cs m j default h =
      let e : find j (calls cs m) ≡ spec_calls cs (λ i. find i m) j =
        ap (λ f. f j) (find-calls cs m h) in
      (calls-IsSorted cs m h, rw (get, e), rw (contains, e))
