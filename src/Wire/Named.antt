-- ===== src/Wire/Named.antt =====
-- Messages "KIND name rest": how both programs take them apart, and when that leaves its arrays.
use client_server_signaling.Base.{
  ℕ, suc, ◌+◌, ◌^◌, ◌≤◌, ◌<◌, ◌≡◌, refl, arith, Text, [], ◌∷◌, ◌++◌, length, drop, length-append,
  lt→ltb,
}
use client_server_signaling.Fault.{ok, err, overflow, >>=-eq-ok}
use client_server_signaling.Wire.{
  socket_buffer_size, word_size, scan_one, size_sub, strncpy, scan_named,
}
use client_server_signaling.Wire.Words.{
  IsWord, scan_one-word, scan_one_last, scan_one-lt, length-take-le, take-length, drop_after,
}

-- "KIND name rest"
abbrev pub named : Text → Text → Text → Text
named lit name rest = lit ++ (32 ∷ name ++ (32 ∷ rest))

strncpy-le : (size : ℕ) (src dst : Text) (n : ℕ) → strncpy size src n ≡ ok dst → length dst ≤ size
strncpy-le size src dst n h = ground (arith, length-take-le n src)

-- Whatever the message is, what is stored has these sizes.
pub scan_named_sizes :
    (lit text name rest : Text)
    → scan_named lit text ≡ ok (name, rest)
    → (length name < word_size) × (length rest ≤ socket_buffer_size)
unfolding scan_named
scan_named_sizes lit text name rest h =
    let (w, e, h') = >>=-eq-ok (scan_one lit word_size text) _ h in
    let len = length lit + 1 + length w + 1 in
    let n = size_sub (length text) len in
    let (d, e', h'') = >>=-eq-ok (strncpy socket_buffer_size (drop len text) n) _ h' in
    ground (
      arith,
      scan_one-lt lit word_size text w,
      strncpy-le socket_buffer_size (drop len text) d n e',
    )

drop-named :
    (lit name rest : Text) → drop (length lit + 1 + length name + 1) (named lit name rest) ≡ rest
drop-named [] name rest = rw count (drop_after name rest 32)
  where
    count : 0 + 1 + length name + 1 ≡ suc (suc (length name))
    count = omega arith
drop-named (c ∷ lit) name rest = rw count (drop-named lit name rest)
  where
    count : suc (length lit) + 1 + length name + 1 ≡ suc (length lit + 1 + length name + 1)
    count = omega arith

size_sub-named :
    (lit name rest : Text)
    → length (named lit name rest) < 2 ^ 64
    → size_sub (length (named lit name rest)) (length lit + 1 + length name + 1) ≡ length rest
size_sub-named lit name rest h =
    omega (arith, length-append lit (32 ∷ name ++ (32 ∷ rest)), length-append name (32 ∷ rest))

-- A message that fits the buffer, with a word that fits its array, is taken apart into exactly its
-- name and its rest.
pub scan_named-format :
    (lit name rest : Text)
    → IsWord name
    → length name < word_size
    → length (named lit name rest) < socket_buffer_size
    → scan_named lit (named lit name rest) ≡ ok (name, rest)
unfolding scan_named
scan_named-format lit name rest hw hl ht =
    rw
      (
        scan_one-word lit word_size name (32 ∷ rest) hw refl,
        scan_named,
        lt→ltb _ _ hl,
        drop-named lit name rest,
        size_sub-named lit name rest (omega arith),
        take-length rest (length rest) (omega arith),
      )
      (ground (arith, length-append lit (32 ∷ name ++ (32 ∷ rest)), length-append name (32 ∷ rest)))

-- With nothing after the name, `strlen(buffer) - len` wraps around, and `strncpy` runs past its
-- array.
pub scan_named_truncated :
    (lit name : Text)
    → IsWord name
    → length name < word_size
    → length lit < socket_buffer_size
    → scan_named lit (lit ++ 32 ∷ name) ≡ err overflow
unfolding scan_named
scan_named_truncated lit name hw hl ht =
    rw (scan_one_last lit word_size name hw, scan_named, lt→ltb _ _ hl)
      (ground (arith, length-append lit (32 ∷ name)))
