-- ===== src/Wire/Digits.antt =====
-- What `%d` reads of a text of digits.
use client_server_signaling.Base.{
  ℕ, ◌+◌, ◌-◌, ◌*◌, ◌^◌, ◌≤◌, ◌≡◌, ◌≢◌, refl, arith, Text, false, none, some, [], ◌∷◌, ◌++◌,
  if◌then◌else◌, ltb, All, pos,
}
use client_server_signaling.Fault.{ok, err, overflow}
use client_server_signaling.Wire.{scan_int, scan_digits, skip_space, is_space}

abbrev pub IsDigit : ℕ → Type 0
IsDigit c = (b'0' ≤ c) × (c ≤ b'9')

pub scan_digits-nil : (acc : ℕ) → scan_digits acc [] ≡ acc
unfolding scan_digits
scan_digits-nil acc = refl

-- One more digit.
pub scan_digits-snoc :
    (acc d : ℕ) (s : Text)
    → All IsDigit s
    → IsDigit d
    → scan_digits acc (s ++ d ∷ []) ≡ scan_digits acc s * 10 + (d - b'0')
unfolding scan_digits
scan_digits-snoc acc d [] h k = ground arith
scan_digits-snoc acc d (c ∷ s) h k =
    ground (arith, scan_digits-snoc (acc * 10 + (c - b'0')) d s h.1 k)

pub scan_int-digits :
    (c : ℕ) (s : Text)
    → IsDigit c
    → scan_int (32 ∷ c ∷ s)
      ≡ some (let n = scan_digits 0 (c ∷ s) in if ltb n (2 ^ 31) then ok (pos n) else err overflow)
unfolding scan_int skip_space
scan_int-digits c s h = ground arith

pub scan_int-space : (s : Text) → scan_int (32 ∷ s) ≡ scan_int s
unfolding scan_int skip_space
scan_int-space s = refl

-- No number starts with a letter or another byte that is no digit, sign or space.
pub scan_int-none :
    (c : ℕ) (s : Text)
    → is_space c ≡ false
    → c ≢ b'-'
    → c ≢ b'+'
    → ¬ IsDigit c
    → scan_int (c ∷ s) ≡ none
unfolding scan_int skip_space
scan_int-none c s sp m p d = ground arith
