-- ===== src/Client/Requests/Decimal.antt =====
-- A port in decimal digits, printed by `%d` and read back by `%d`.
use native.Mathlib.Nat.{pow-succ'}
use client_server_signaling.Base.{
  ℕ, zero, suc, ◌+◌, ◌*◌, ◌/◌, ◌%◌, ◌^◌, ◌<◌, ◌≡◌, refl, sym, ◌∙◌, arith, Text, some, [], ◌∷◌, ◌++◌,
  ltb, All, All-append, pos, lt→ltb, ltb→lt, length, length-append, ◌≤◌, Bool-cases, inl, inr,
}
use client_server_signaling.Fault.{ok}
use client_server_signaling.Wire.{scan_int, scan_digits}
use client_server_signaling.Wire.Digits.{
  IsDigit, scan_digits-snoc, scan_digits-nil, scan_int-digits, scan_int-space,
}
use client_server_signaling.Wire.Arguments.{stoi}
use client_server_signaling.Client.Requests.{digits, decimal}

digits-IsDigit : (fuel n : ℕ) → All IsDigit (digits fuel n)
unfolding digits
digits-IsDigit zero n = tt
digits-IsDigit (suc fuel) n = elim (Bool-cases (ltb n 10)) [
  | inl e ↦ rw e ((omega arith, omega (arith, ltb→lt n 10 e)), tt)
  | inr e ↦ rw e (
      All-append IsDigit (digits fuel (n / 10)) ((b'0' + n % 10) ∷ [])
        (digits-IsDigit fuel (n / 10)) ((omega arith, omega arith), tt))
]

scan_digits-digits : (fuel n : ℕ) → n < fuel → scan_digits 0 (digits fuel n) ≡ n
unfolding digits
scan_digits-digits zero n h = elim h [ ]
scan_digits-digits (suc fuel) n h = elim (Bool-cases (ltb n 10)) [
  | inl e ↦ rw e (
      scan_digits-snoc 0 (b'0' + n) [] tt (omega arith, omega (arith, ltb→lt n 10 e))
      ∙ rw scan_digits-nil (omega arith))
  | inr e ↦
      rw
        (
          e,
          scan_digits-snoc 0 (b'0' + n % 10) (digits fuel (n / 10)) (digits-IsDigit fuel (n / 10))
              (omega arith, omega arith),
          scan_digits-digits fuel (n / 10) (ground arith),
        )
        (omega arith)
]

snoc-cons : (xs : Text) (d : ℕ) → (c : ℕ) × (s : Text) × (xs ++ d ∷ [] ≡ c ∷ s)
snoc-cons [] d = (d, [], refl)
snoc-cons (x ∷ xs) d = (x, xs ++ d ∷ [], refl)

digits-cons : (fuel n : ℕ) → (c : ℕ) × (s : Text) × (digits (suc fuel) n ≡ c ∷ s)
unfolding digits
digits-cons fuel n = elim (Bool-cases (ltb n 10)) [
  | inl e ↦ (b'0' + n, [], rw e)
  | inr e ↦ let (c, s, q) = snoc-cons (digits fuel (n / 10)) (b'0' + n % 10) in (c, s, rw e q)
]

-- A number of an `int`, not negative, is read back as it was printed.
pub scan_int-decimal : (n : ℕ) → n < 2 ^ 31 → scan_int (32 ∷ decimal (pos n)) ≡ some (ok (pos n))
unfolding decimal
scan_int-decimal n h =
    let (c, s, e) = digits-cons n n in
    let d = digits-IsDigit (suc n) n in
    let whole = scan_digits-digits (suc n) n (omega arith) in
    let head : IsDigit c = (rw e at d).0 in
    rw (e, scan_int-digits c s head, ← e, whole, lt→ltb _ _ h)

pub scan_int-plain_decimal : (n : ℕ) → n < 2 ^ 31 → scan_int (decimal (pos n)) ≡ some (ok (pos n))
scan_int-plain_decimal n h = sym (scan_int-space (decimal (pos n))) ∙ scan_int-decimal n h

pub stoi-decimal : (n : ℕ) → n < 2 ^ 31 → stoi (decimal (pos n)) ≡ ok (pos n)
unfolding stoi
stoi-decimal n h = rw (stoi, scan_int-plain_decimal n h)

tenth : (n p : ℕ) → n < 10 * p → n / 10 < p
tenth n p h = omega arith

digits_short : (fuel k n : ℕ) → n < 10 ^ suc k → length (digits fuel n) ≤ suc k
unfolding digits
digits_short zero k n h = omega arith
digits_short (suc fuel) zero n h = rw (lt→ltb n 10 h) (omega arith)
digits_short (suc fuel) (suc k) n h = elim (Bool-cases (ltb n 10)) [
  | inl e ↦ rw e (omega arith)
  | inr e ↦ rw e (
      omega (
        arith,
        length-append (digits fuel (n / 10)) ((b'0' + n % 10) ∷ []),
        digits_short fuel k (n / 10) (tenth n (10 ^ suc k) (rw (pow-succ' 10 (suc k)) at h)),
      ))
]

-- An `int` that is not negative has at most ten digits.
pub length-decimal : (n : ℕ) → n < 2 ^ 31 → length (decimal (pos n)) ≤ 10
unfolding decimal
length-decimal n h = digits_short (suc n) 9 n (omega arith)
