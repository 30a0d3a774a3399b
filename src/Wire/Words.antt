-- ===== src/Wire/Words.antt =====
-- How the scanner reads what the formatter wrote: words between single spaces.
use client_server_signaling.Base.{
  ℕ, zero, suc, ◌≤◌, ◌<◌, ◌≡◌, ◌≢◌, refl, arith, Text, Bool, true, false, Option, none, some, [],
  ◌∷◌, ◌++◌, ◌&&◌, not, if◌then◌else◌, ltb, ◌==◌, length, take, drop, All, append-nil, lt→ltb,
}
use client_server_signaling.Fault.{ok, err, overflow}
use client_server_signaling.Wire.{
  c_string, read_buffer, begins, is_space, skip_space, word, literal, some_word, scan_word,
  store_word, take_word, scan_one, scan_two,
}

-- A byte that is neither a space nor NUL.
pub record IsPlain (c : ℕ) : Type 0 where
  pub no_space : is_space c ≡ false
  pub no_nul : c ≢ 0

-- What `%s` can read back: one or more such bytes.
pub record IsWord (w : Text) : Type 0 where
  pub plain : All IsPlain w
  pub filled : w ≢ []

abbrev pub HasNoNul : Text → Type 0
HasNoNul = All (λ c. c ≢ 0)

pub plain-HasNoNul : (w : Text) → All IsPlain w → HasNoNul w
plain-HasNoNul [] h = tt
plain-HasNoNul (c ∷ w) h = (h.0.no_nul, plain-HasNoNul w h.1)

-- A string without NULs is read back whole.
pub c_string-HasNoNul : (s : Text) → HasNoNul s → c_string s ≡ s
unfolding c_string
c_string-HasNoNul [] h = refl
c_string-HasNoNul (c ∷ s) h = ground (arith, c_string-HasNoNul s h.1)

pub HasNoNul-c_string : (s : Text) → HasNoNul (c_string s)
unfolding c_string
HasNoNul-c_string [] = tt
HasNoNul-c_string (c ∷ s) = ground (arith, HasNoNul-c_string s)

pub read_buffer_fits :
    (size : ℕ) (s : Text) → HasNoNul s → length s < size → read_buffer size s ≡ ok s
unfolding read_buffer
read_buffer_fits size s h lt = rw (c_string-HasNoNul s h, lt→ltb _ _ lt)

pub read_buffer-lt :
    (size : ℕ) (bytes s : Text) → read_buffer size bytes ≡ ok s → (length s < size) × HasNoNul s
unfolding read_buffer
read_buffer-lt size bytes s h = ground (arith, HasNoNul-c_string bytes)

pub begins-append : (lit s : Text) → begins lit (lit ++ s) ≡ true
unfolding begins
begins-append [] s = refl
begins-append (c ∷ lit) s = ground (arith, begins-append lit s)

pub literal-append : (lit s : Text) → literal lit (lit ++ s) ≡ some s
unfolding literal
literal-append [] s = refl
literal-append (c ∷ lit) s = ground (arith, literal-append lit s)

-- The scanner stops a word at a space and at the end.
abbrev pub Ends : Text → Type 0
Ends [] = Unit
Ends (c ∷ s) = is_space c ≡ true

word-append : (w r : Text) → All IsPlain w → Ends r → word (w ++ r) ≡ (w, r)
unfolding word
word-append [] [] h e = refl
word-append [] (c ∷ r) h e = rw e
word-append (c ∷ w) r h e = rw (h.0.no_space, word-append w r h.1 e)

skip_space-word : (w r : Text) → IsWord w → skip_space (w ++ r) ≡ w ++ r
unfolding skip_space
skip_space-word [] r h = absurd (h.filled refl)
skip_space-word (c ∷ w) r h = rw h.plain.0.no_space

some_word-filled : (w r : Text) → w ≢ [] → some_word (w, r) ≡ some (w, r)
unfolding some_word
some_word-filled [] r h = absurd (h refl)
some_word-filled (c ∷ w) r h = refl

pub scan_word-append : (w r : Text) → IsWord w → Ends r → scan_word (32 ∷ w ++ r) ≡ some (w, r)
unfolding scan_word skip_space
scan_word-append w r h e =
    rw (skip_space-word w r h, word-append w r h.plain e) (some_word-filled w r h.filled)

-- A word that fits its array is stored, and any other is written past its end.
pub take_word-append :
    (size : ℕ) (w r : Text)
    → IsWord w
    → Ends r
    → take_word size (32 ∷ w ++ r) ≡ (if ltb (length w) size then ok (w, some r) else err overflow)
unfolding take_word
take_word-append size w r h e = rw (scan_word-append w r h e, take_word) (ground arith)

take_word_last :
    (size : ℕ) (w : Text)
    → IsWord w
    → take_word size (32 ∷ w) ≡ (if ltb (length w) size then ok (w, some []) else err overflow)
take_word_last size w h = rw append-nil at (take_word-append size w [] h tt)

pub scan_one-word :
    (lit : Text) (size : ℕ) (w r : Text)
    → IsWord w
    → Ends r
    → scan_one lit size (lit ++ (32 ∷ w ++ r)) ≡ store_word size w
unfolding scan_one
scan_one-word lit size w r h e =
    rw (literal-append lit (32 ∷ w ++ r), scan_one, take_word-append size w r h e) (ground arith)

pub scan_one_last :
    (lit : Text) (size : ℕ) (w : Text)
    → IsWord w
    → scan_one lit size (lit ++ 32 ∷ w) ≡ store_word size w
scan_one_last lit size w h = rw append-nil at (scan_one-word lit size w [] h tt)

-- Two words are stored if both fit, and one that does not is written past the end of its array.
pub scan_two-words :
    (lit : Text) (size : ℕ) (v w : Text)
    → IsWord v
    → IsWord w
    → scan_two lit size (lit ++ (32 ∷ v ++ (32 ∷ w)))
      ≡ (if ltb (length v) size && ltb (length w) size then ok (v, w) else err overflow)
unfolding scan_two
scan_two-words lit size v w hv hw =
    rw (literal-append lit (32 ∷ v ++ (32 ∷ w)), scan_two, take_word-append size v (32 ∷ w) hv refl)
      (ground (arith, take_word_last size w hw))

take_word-lt :
    (size : ℕ) (s w : Text) (r : Option Text)
    → 0 < size
    → take_word size s ≡ ok (w, r)
    → length w < size
unfolding take_word
take_word-lt size s w r p h = ground arith

-- A word that is stored fits its array.
pub scan_one-lt :
    (lit : Text) (size : ℕ) (s w : Text) → 0 < size → scan_one lit size s ≡ ok w → length w < size
unfolding scan_one take_word
scan_one-lt lit size s w p h = ground arith

pub length-take-le : (n : ℕ) (s : Text) → length (take n s) ≤ n
length-take-le zero s = omega arith
length-take-le (suc n) [] = omega arith
length-take-le (suc n) (c ∷ s) = omega (arith, length-take-le n s)

pub take-length : (s : Text) (n : ℕ) → length s ≤ n → take n s ≡ s
take-length [] zero h = refl
take-length [] (suc n) h = refl
take-length (c ∷ s) zero h = absurd (omega arith)
take-length (c ∷ s) (suc n) h = rw (take-length s n (omega arith))

-- Past a word and the byte after it.
pub drop_after : (w s : Text) (c : ℕ) → drop (suc (length w)) (w ++ c ∷ s) ≡ s
drop_after [] s c = refl
drop_after (d ∷ w) s c = drop_after w s c

take_word-nil : (size : ℕ) → take_word size [] ≡ ok ([], none)
unfolding take_word scan_word skip_space word some_word
take_word-nil size = refl

-- With the second word missing, its array stays empty.
pub scan_two_alone :
    (lit : Text) (size : ℕ) (v : Text)
    → IsWord v
    → scan_two lit size (lit ++ 32 ∷ v) ≡ (if ltb (length v) size then ok (v, []) else err overflow)
unfolding scan_two
scan_two_alone lit size v hv =
    rw (literal-append lit (32 ∷ v), scan_two)
      (ground (arith, take_word_last size v hv, take_word-nil size))

scan_word_first : (w r : Text) → IsWord w → Ends r → scan_word (w ++ r) ≡ some (w, r)
unfolding scan_word
scan_word_first w r h e =
    rw (skip_space-word w r h, word-append w r h.plain e) (some_word-filled w r h.filled)

take_word_first :
    (size : ℕ) (w r : Text)
    → IsWord w
    → Ends r
    → take_word size (w ++ r) ≡ (if ltb (length w) size then ok (w, some r) else err overflow)
unfolding take_word
take_word_first size w r h e = rw (scan_word_first w r h e, take_word) (ground arith)

-- `sscanf(s, "%s", w)` of a text that begins with a word.
pub scan_one_first :
    (size : ℕ) (w r : Text) → IsWord w → Ends r → scan_one [] size (w ++ r) ≡ store_word size w
unfolding scan_one literal
scan_one_first size w r h e = rw (take_word_first size w r h e, scan_one) (ground arith)

-- A text of bytes that `%s` reads, checked.
unfoldable pub plain_bytes : Text → Bool
plain_bytes [] = true
plain_bytes (c ∷ s) = not (is_space c) && (not (c == 0) && plain_bytes s)

pub plain_bytes_sound : (s : Text) → plain_bytes s ≡ true → All IsPlain s
unfolding plain_bytes
plain_bytes_sound [] h = tt
plain_bytes_sound (c ∷ s) h =
    (record { no_space = ground arith; no_nul = ground arith }, plain_bytes_sound s (ground arith))

pub IsWord-check : (c : ℕ) (s : Text) → plain_bytes (c ∷ s) ≡ true → IsWord (c ∷ s)
IsWord-check c s h = record { plain = plain_bytes_sound (c ∷ s) h; filled = λ e. ground arith }
