-- ===== src/Wire.antt =====
-- The C library calls by which both programs read and write their messages: NUL-terminated
-- strings in fixed arrays, `strncmp`, `strncpy`, `sscanf` with `%s` and `%d`, and `sprintf`.
-- A text is the bytes before the NUL. A call that would leave its array is a fault.
pub mod Words
pub mod Named
pub mod Digits
pub mod Arrays
pub mod Arguments
use client_server_signaling.Base.{
  ℕ, zero, suc, ◌+◌, ◌-◌, ◌*◌, ◌%◌, ◌^◌, Text, codes, Bool, true, false, ◌&&◌, ◌||◌, Option, none,
  some, [], ◌∷◌, ◌++◌, if◌then◌else◌, ltb, leb, ◌==◌, length, take, drop, ℤ, pos, negsuc, minus_one,
}
use client_server_signaling.Fault.{Result, ok, err, overread, overflow, ◌>>=◌}

-- include/util.hpp
abbrev pub socket_buffer_size : ℕ
socket_buffer_size = 1024

-- `char username_char[50]` and the like, and `char client_ip_address[15]`.
abbrev pub word_size : ℕ
word_size = 50

abbrev pub ip_size : ℕ
ip_size = 15

-- The text at the head of an array: up to the first NUL.
unfoldable pub c_string : Text → Text
c_string [] = []
c_string (c ∷ s) = if c == 0 then [] else c ∷ c_string s

-- An array of `size` bytes, zeroed and then filled from the front, read as a string.
unfoldable pub read_buffer : ℕ → Text → Result Text
read_buffer size bytes =
    let s = c_string bytes in if ltb (length s) size then ok s else err overread

-- `strncmp(s, lit, strlen(lit)) == 0`
unfoldable pub begins : Text → Text → Bool
begins [] s = true
begins (c ∷ lit) [] = false
begins (c ∷ lit) (d ∷ s) = c == d && begins lit s

-- A difference of two `size_t`.
abbrev pub size_sub : ℕ → ℕ → ℕ
size_sub a b = (a + 2 ^ 64 - b) % 2 ^ 64

-- `strncpy(dst, src, n)` writes `n` bytes, NULs after the end of `src`, into `size` bytes of NULs.
abbrev pub strncpy : ℕ → Text → ℕ → Result Text
strncpy size src n = if leb n size then ok (take n src) else err overflow

-- `sprintf` of a text that ends up in `size` bytes, its NUL included.
abbrev pub sprintf : ℕ → Text → Result Text
sprintf size s = if ltb (length s) size then ok s else err overflow

-- `isspace` of the C locale.
abbrev pub is_space : ℕ → Bool
is_space c = c == 32 || (leb 9 c && leb c 13)

-- A space in a format, and the start of `%s` and `%d`.
unfoldable pub skip_space : Text → Text
skip_space [] = []
skip_space (c ∷ s) = if is_space c then skip_space s else c ∷ s

-- The bytes before the first space, and the rest.
unfoldable pub word : Text → Text × Text
word [] = ([], [])
word (c ∷ s) = let (w, r) = word s in if is_space c then ([], c ∷ s) else (c ∷ w, r)

-- Other bytes of a format are matched one by one.
unfoldable pub literal : Text → Text → Option Text
literal [] s = some s
literal (c ∷ lit) [] = none
literal (c ∷ lit) (d ∷ s) = if c == d then literal lit s else none

unfoldable pub some_word : Text × Text → Option (Text × Text)
some_word ([], r) = none
some_word (c ∷ w, r) = some (c ∷ w, r)

-- `%s`, before its bytes are stored.
unfoldable pub scan_word : Text → Option (Text × Text)
scan_word s = some_word (word (skip_space s))

-- What `%s` stores into an array of `size` bytes: it does not look at the size.
abbrev pub store_word : ℕ → Text → Result Text
store_word size w = if ltb (length w) size then ok w else err overflow

-- `sscanf(s, " %s", w)` on a zeroed array, and what is left of `s`, if it is matched.
unfoldable pub take_word : ℕ → Text → Result (Text × Option Text)
take_word size s = elim (scan_word s) [
  | none ↦ ok ([], none)
  | some (w, r) ↦ do v ← store_word size w; ok (v, some r)
]

-- `sscanf(s, "lit %s", w)` on a zeroed array.
unfoldable pub scan_one : Text → ℕ → Text → Result Text
scan_one lit size s = elim (literal lit s) [
  | none ↦ ok []
  | some r ↦ do (w, _) ← take_word size r; ok w
]

-- The name after `lit`, and what follows the byte after it: `sscanf(s, "lit %s", name)` and then
-- `strncpy(rest, s + len, strlen(s) - len)` into an array of the buffer's size.
unfoldable pub scan_named : Text → Text → Result (Text × Text)
scan_named lit s = do
  name ← scan_one lit word_size s
  let len = length lit + 1 + length name + 1
  rest ← strncpy socket_buffer_size (drop len s) (size_sub (length s) len)
  ok (name, rest)

-- `sscanf(s, "lit %s %s", v, w)` on zeroed arrays.
unfoldable pub scan_two : Text → ℕ → Text → Result (Text × Text)
scan_two lit size s = elim (literal lit s) [
  | none ↦ ok ([], [])
  | some r ↦ do
    (v, left) ← take_word size r
    elim left [ none ↦ ok (v, []) | some r' ↦ (do (w, _) ← take_word size r'; ok (v, w)) ]
]

-- The number that the digits go on with.
pub scan_digits : ℕ → Text → ℕ
scan_digits n [] = n
scan_digits n (c ∷ s) = if leb b'0' c && leb c b'9' then scan_digits (n * 10 + (c - b'0')) s else n

-- `%d` wants a digit. A number past `int` is undefined.
unsigned_int : (ℕ → Result ℤ) → Text → Option (Result ℤ)
unsigned_int sign [] = none
unsigned_int sign (c ∷ s) =
    if leb b'0' c && leb c b'9' then some (sign (scan_digits 0 (c ∷ s))) else none

positive : ℕ → Result ℤ
positive n = if ltb n (2 ^ 31) then ok (pos n) else err overflow

negative : ℕ → Result ℤ
negative zero = ok (pos 0)
negative (suc n) = if ltb n (2 ^ 31) then ok (negsuc n) else err overflow

signed_int : Text → Option (Result ℤ)
signed_int [] = none
signed_int (c ∷ s) =
    if c == b'-'
    then unsigned_int negative s
    else if c == b'+'
    then unsigned_int positive s
    else unsigned_int positive (c ∷ s)

pub scan_int : Text → Option (Result ℤ)
unfolding signed_int unsigned_int scan_digits positive negative
scan_int s = signed_int (skip_space s)
