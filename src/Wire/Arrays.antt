-- ===== src/Wire/Arrays.antt =====
-- Arrays of NULs that hold a text, as a stream of packets cuts them.
use client_server_signaling.Base.{
  ℕ, zero, suc, ◌-◌, ◌<◌, ◌≤◌, ◌≡◌, refl, arith, Text, [], ◌∷◌, ◌++◌, length, take, drop, replicate,
  lt→ltb,
}
use client_server_signaling.Fault.{ok, err, overread}
use client_server_signaling.Wire.{c_string, read_buffer}
use client_server_signaling.Wire.Words.{HasNoNul}

-- The `size` bytes of an array that holds the text and NULs.
abbrev pub padded : Text → ℕ → Text
padded s size = s ++ replicate (size - length s) 0

c_string-take-zeros : (n m : ℕ) → c_string (take n (replicate m 0)) ≡ []
unfolding c_string
c_string-take-zeros zero m = refl
c_string-take-zeros (suc n) zero = refl
c_string-take-zeros (suc n) (suc m) = refl

c_string-take-padded :
    (s : Text) (n m : ℕ) → HasNoNul s → length s ≤ n → c_string (take n (s ++ replicate m 0)) ≡ s
unfolding c_string
c_string-take-padded [] n m h l = c_string-take-zeros n m
c_string-take-padded (c ∷ s) zero m h l = absurd (omega arith)
c_string-take-padded (c ∷ s) (suc n) m h l = ground (arith, c_string-take-padded s n m h.1)

c_string-drop-zeros : (n m k : ℕ) → c_string (take k (drop n (replicate m 0))) ≡ []
c_string-drop-zeros zero m k = c_string-take-zeros k m
c_string-drop-zeros (suc n) zero k = c_string-take-zeros k zero
c_string-drop-zeros (suc n) (suc m) k = c_string-drop-zeros n m k

c_string-drop-padded :
    (s : Text) (n m k : ℕ) → length s ≤ n → c_string (take k (drop n (s ++ replicate m 0))) ≡ []
c_string-drop-padded [] n m k l = c_string-drop-zeros n m k
c_string-drop-padded (c ∷ s) zero m k l = absurd (omega arith)
c_string-drop-padded (c ∷ s) (suc n) m k l = c_string-drop-padded s n m k (omega arith)

-- A text that fits a buffer is what a first buffer of its packet holds, whatever the packet's size.
pub read_buffer_first :
    (s : Text) (n size : ℕ)
    → HasNoNul s
    → length s < n
    → read_buffer n (take n (padded s size)) ≡ ok s
unfolding read_buffer
read_buffer_first s n size h l =
    rw (c_string-take-padded s n (size - length s) h (omega arith), lt→ltb _ _ l)

-- A text that fills the buffer leaves no room for a NUL.
pub read_buffer_full :
    (s : Text) (n size : ℕ)
    → HasNoNul s
    → length s ≡ n
    → read_buffer n (take n (padded s size)) ≡ err overread
unfolding read_buffer
read_buffer_full s n size h l =
    rw (c_string-take-padded s n (size - length s) h (omega (arith, l)), l) (ground arith)

-- The next buffer of the packet holds no text.
pub read_buffer_second :
    (s : Text) (n size : ℕ) → length s < n → read_buffer n (take n (drop n (padded s size))) ≡ ok []
unfolding read_buffer
read_buffer_second s n size l =
    rw (c_string-drop-padded s n (size - length s) n (omega arith), lt→ltb 0 n (omega arith))
