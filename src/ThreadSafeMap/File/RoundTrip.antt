-- ===== src/ThreadSafeMap/File/RoundTrip.antt =====
-- A file that `writeToFile` wrote, read back by `readFromFile`.
use client_server_signaling.Base.{
  ℕ, ◌≡◌, ◌≢◌, refl, sym, ap, ◌∙◌, arith, Text, Lacks, true, some, [], ◌∷◌, ◌++◌, All, append-nil,
  append_assoc,
}
use client_server_signaling.ThreadSafeMap.{assign, add}
use client_server_signaling.ThreadSafeMap.Order.{text_ord}
use client_server_signaling.ThreadSafeMap.Laws.{Below, IsSorted}
use client_server_signaling.ThreadSafeMap.File.{
  newline, StringMap, entry_line, write_to_file, lines, split_at, non_empty, parse_line, read_line,
  read_lines, read_from_file,
}

-- What a file can hold: no key with the delimiter, no newline anywhere.
pub record IsWritable (delimiter : ℕ) (e : Text × Text) : Type 0 where
  pub key_delimiter : Lacks delimiter e.0
  pub key_newline : Lacks newline e.0
  pub value_newline : Lacks newline e.1

-- The entries whose value is not empty.
pub kept : StringMap → StringMap
kept [] = []
kept ((k, []) ∷ m) = kept m
kept ((k, c ∷ v) ∷ m) = (k, c ∷ v) ∷ kept m

-- A line without newlines is read up to the newline after it.
lines-append : (l s : Text) → Lacks newline l → lines (l ++ newline ∷ s) ≡ l ∷ lines s
unfolding lines
lines-append [] s h = refl
lines-append (c ∷ l) s h = ground (arith, lines-append l s h.1)

split_at-entry :
    (delimiter : ℕ) (key value : Text)
    → Lacks delimiter key
    → split_at delimiter (entry_line delimiter key value) ≡ some (key, value)
unfolding split_at
split_at-entry delimiter [] value h = ground arith
split_at-entry delimiter (c ∷ key) value h = ground (arith, split_at-entry delimiter key value h.1)

Lacks-entry :
    (delimiter : ℕ) (key value : Text)
    → delimiter ≢ newline
    → Lacks newline key
    → Lacks newline value
    → Lacks newline (entry_line delimiter key value)
Lacks-entry delimiter [] value d hk hv = (d, hv)
Lacks-entry delimiter (c ∷ key) value d hk hv = (hk.0, Lacks-entry delimiter key value d hk.1 hv)

-- Every key of the map comes before `key`.
abbrev Above : Text → StringMap → Type 0
Above key [] = Unit
Above key ((k, v) ∷ m) = (text_ord.lt k key ≡ true) × Above key m

assign-Above :
    (key value : Text) (m : StringMap) → Above key m → assign key value m ≡ m ++ (key, value) ∷ []
unfolding assign
assign-Above key value [] h = refl
assign-Above key value ((k, v) ∷ m) h = rw (h.0, assign-Above key value m h.1)

-- Every key of the first map comes before every key of the second.
abbrev Before : StringMap → StringMap → Type 0
Before acc [] = Unit
Before acc ((k, v) ∷ m) = Above k acc × Before acc m

Before-snoc :
    (acc : StringMap) (k v : Text) (m : StringMap)
    → Before acc m
    → Below k m
    → Before (acc ++ (k, v) ∷ []) m
Before-snoc acc k v [] h b = tt
Before-snoc acc k v ((j, w) ∷ m) h b = (Above-snoc acc h.0, Before-snoc acc k v m h.1 b.1)
  where
    Above-snoc : (acc : StringMap) → Above j acc → Above j (acc ++ (k, v) ∷ [])
    Above-snoc [] a = (b.0, tt)
    Above-snoc ((i, u) ∷ acc') a = (a.0, Above-snoc acc' a.1)

parse_line-entry :
    (delimiter : ℕ) (k v : Text)
    → Lacks delimiter k
    → parse_line delimiter (entry_line delimiter k v) ≡ non_empty (k, v)
unfolding parse_line
parse_line-entry delimiter k v h = rw (split_at-entry delimiter k v h, parse_line)

read_line-entry :
    (delimiter : ℕ) (k v : Text) (acc : StringMap)
    → Lacks delimiter k
    → Above k acc
    → read_line delimiter (entry_line delimiter k v) acc ≡ acc ++ kept ((k, v) ∷ [])
unfolding read_line non_empty kept add
read_line-entry delimiter k [] acc h a =
    rw (parse_line-entry delimiter k [] h, read_line, append-nil acc)
read_line-entry delimiter k (c ∷ v) acc h a =
    rw (parse_line-entry delimiter k (c ∷ v) h, read_line, assign-Above k (c ∷ v) acc a)

kept-cons : (e : Text × Text) (m : StringMap) → kept (e ∷ m) ≡ kept (e ∷ []) ++ kept m
unfolding kept
kept-cons (k, []) m = refl
kept-cons (k, c ∷ v) m = refl

Before-kept :
    (acc : StringMap) (k v : Text) (m : StringMap)
    → Before acc m
    → Below k m
    → Before (acc ++ kept ((k, v) ∷ [])) m
unfolding kept
Before-kept acc k [] m h b = rw (append-nil acc) h
Before-kept acc k (c ∷ v) m h b = Before-snoc acc k (c ∷ v) m h b

read_lines-write :
    (delimiter : ℕ) (m acc : StringMap)
    → delimiter ≢ newline
    → All (IsWritable delimiter) m
    → IsSorted m
    → Before acc m
    → read_lines delimiter (lines (write_to_file delimiter m)) acc ≡ acc ++ kept m
unfolding read_lines write_to_file
read_lines-write delimiter [] acc d w s b = unfold lines kept in sym (append-nil acc)
read_lines-write delimiter ((k, v) ∷ m) acc d w s b =
    rw
      (
        lines-append (entry_line delimiter k v) (write_to_file delimiter m) clean,
        read_lines,
        read_line-entry delimiter k v acc w.0.key_delimiter b.0,
      )
      (read_lines-write delimiter m (acc ++ kept ((k, v) ∷ [])) d w.1 s.1
          (Before-kept acc k v m b.1 s.0)
        ∙ append_assoc acc (kept ((k, v) ∷ [])) (kept m)
        ∙ ap (◌++◌ acc) (sym (kept-cons (k, v) m)))
  where
    clean : Lacks newline (entry_line delimiter k v)
    clean = Lacks-entry delimiter k v d w.0.key_newline w.0.value_newline

Before-empty : (m : StringMap) → Before [] m
Before-empty [] = tt
Before-empty ((k, v) ∷ m) = (tt, Before-empty m)

-- Written with a delimiter that is no newline and stands in no key, and read back into an empty
-- map, a map without newlines comes back entry for entry and in order, but for the entries whose
-- value is empty: those are lost.
pub read_from_file-write_to_file :
    (delimiter : ℕ) (m : StringMap)
    → delimiter ≢ newline
    → All (IsWritable delimiter) m
    → IsSorted m
    → read_from_file delimiter (some (write_to_file delimiter m)) [] ≡ kept m
unfolding read_from_file
read_from_file-write_to_file delimiter m d w s =
    read_lines-write delimiter m [] d w s (Before-empty m)
