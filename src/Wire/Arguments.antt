-- ===== src/Wire/Arguments.antt =====
-- What both `main` functions make of the numbers among their arguments.
use client_server_signaling.Base.{
  ℕ, ◌-◌, ◌%◌, ◌^◌, ◌≡◌, ◌≢◌, Text, false, none, some, ◌∷◌, ℤ, pos, negsuc,
}
use client_server_signaling.Fault.{Result, ok, err, uncaught}
use client_server_signaling.Wire.{scan_int, is_space}
use client_server_signaling.Wire.Digits.{IsDigit, scan_int-none}

-- `std::stoi`: it throws where there is no number, and where the number is no `int`.
unfoldable pub stoi : Text → Result ℤ
stoi text = elim (scan_int text) [
  | none ↦ err uncaught
  | some number ↦ elim number [ ok n ↦ ok n | err _ ↦ err uncaught ]
]

-- `htons(port)`, in the host's order: the low 16 bits of an `int`.
abbrev pub htons : ℤ → ℕ
htons (pos n) = n % 2 ^ 16
htons (negsuc n) = 2 ^ 16 - 1 - n % 2 ^ 16

pub stoi-no_number :
    (c : ℕ) (text : Text)
    → is_space c ≡ false
    → c ≢ b'-'
    → c ≢ b'+'
    → ¬ IsDigit c
    → stoi (c ∷ text) ≡ err uncaught
unfolding stoi
stoi-no_number c text sp m p d = rw (stoi, scan_int-none c text sp m p d)
