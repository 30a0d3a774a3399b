-- ===== src/Fault.antt =====
-- What a C++ run may do besides returning: undefined behaviour, or an exception that nothing
-- catches. A value of `Result` is either what the code computes or the first such fault.
use client_server_signaling.Base.{◌≡◌, refl, ◌⊎◌, inl, inr}

pub data Fault : Type 0 where
  -- a read past the end of an array that holds no NUL
  overread : Fault
  -- a write past the end of an array
  overflow : Fault
  -- a read of a member that no constructor has set
  uninitialised : Fault
  -- a read of an argument of the program that was not given
  missing : Fault
  -- an exception that leaves the thread
  uncaught : Fault

pub data Result {ℓ} (R : Type ℓ) : Type ℓ where
  -- the code came to its end with this value
  ok : R → Result R
  -- it did not, and this stopped it
  err : (why : Fault) → Result R

module _ {ℓ κ} {R : Type ℓ} {S : Type κ} where
  infixl 5 ◌>>=◌
  abbrev pub ◌>>=◌ : Result R → (R → Result S) → Result S
  err why >>= next = err why
  ok value >>= next = next value

  pub >>=-eq-ok :
      (run : Result R) (next : R → Result S) {last : S}
      → run >>= next ≡ ok last
      → (value : R) × (run ≡ ok value) × (next value ≡ ok last)
  >>=-eq-ok (err _) next done = cc
  >>=-eq-ok (ok value) next done = (value, refl, done)

pub Result-cases {ℓ} :
    {R : Type ℓ} (run : Result R)
    → ((value : R) × (run ≡ ok value)) ⊎ ((why : Fault) × (run ≡ err why))
Result-cases (err why) = inr (why, refl)
Result-cases (ok value) = inl (value, refl)

-- A property of every fault and of what follows each value is one of the chain.
pub >>=-cases {ℓ κ ι} :
    {R : Type ℓ} {S : Type κ} (P : Result S → Type ι) (run : Result R) (next : R → Result S)
    → ((why : Fault) → P (err why))
    → ((value : R) → run ≡ ok value → P (next value))
    → P (run >>= next)
>>=-cases P (err why) next faulty fine = faulty why
>>=-cases P (ok value) next faulty fine = fine value refl
