-- ===== src/Handshake/Int32.antt =====
-- A candidate count as the four bytes of an `int` of x86, the lowest byte first.
use client_server_signaling.Base.{ℕ, ◌+◌, ◌*◌, ◌/◌, ◌%◌, ◌^◌, ◌<◌, ◌≡◌, arith, Text, [], ◌∷◌}

-- `send(fd, &n, 4, 0)`
abbrev pub int_bytes : ℕ → Text
int_bytes n = n % 256 ∷ n / 256 % 256 ∷ n / 65536 % 256 ∷ n / 16777216 % 256 ∷ []

-- `recv(fd, &n, 4, 0)` into an `int` that is 0, as an unsigned number.
unfoldable pub of_bytes : Text → ℕ
of_bytes [] = 0
of_bytes (b ∷ bytes) = b + 256 * of_bytes bytes

pub of_bytes-int_bytes : (n : ℕ) → n < 2 ^ 32 → of_bytes (int_bytes n) ≡ n
unfolding of_bytes
of_bytes-int_bytes n h = omega arith
