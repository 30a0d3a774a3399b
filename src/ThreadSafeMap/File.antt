-- ===== src/ThreadSafeMap/File.antt =====
-- `writeToFile`, `readFromFile` and `print`, for a map of strings to strings. A file is its bytes;
-- `none` is a file that does not open.
pub mod RoundTrip
use client_server_signaling.Base.{
  ℕ, Text, codes, Bool, true, false, Option, none, some, List, [], ◌∷◌, ◌++◌, if◌then◌else◌, ◌==◌,
}
use client_server_signaling.ThreadSafeMap.{add}
use client_server_signaling.ThreadSafeMap.Order.{text_ord}

abbrev pub newline : ℕ
newline = 10

abbrev pub StringMap : Type 0
StringMap = List (Text × Text)

abbrev pub entry_line : ℕ → Text → Text → Text
entry_line delimiter key value = key ++ delimiter ∷ value

pub write_to_file : ℕ → StringMap → Text
write_to_file delimiter [] = []
write_to_file delimiter ((k, v) ∷ m) =
    entry_line delimiter k v ++ newline ∷ write_to_file delimiter m

-- The lines that `getline` gives: a last one with no newline counts if it is not empty.
push_line : ℕ → List Text → List Text
push_line c [] = (c ∷ []) ∷ []
push_line c (l ∷ ls) = (c ∷ l) ∷ ls

pub lines : Text → List Text
unfolding push_line
lines [] = []
lines (c ∷ s) = let rest = lines s in if c == newline then [] ∷ rest else push_line c rest

-- `getline(iss, key, delimiter)`, where the delimiter is there.
pub split_at : ℕ → Text → Option (Text × Text)
split_at delimiter [] = none
split_at delimiter (c ∷ s) =
    let rest = split_at delimiter s in
    if c == delimiter
    then some ([], s)
    else elim rest [ none ↦ none | some (k, v) ↦ some (c ∷ k, v) ]

non_empty : Text × Text → Option (Text × Text)
non_empty (k, []) = none
non_empty (k, c ∷ v) = some (k, c ∷ v)

-- Both `getline`s: the second fails at the end of the line, so where the delimiter is missing and
-- where nothing follows it.
pub parse_line : ℕ → Text → Option (Text × Text)
unfolding non_empty
parse_line delimiter line = elim (split_at delimiter line) [ none ↦ none | some e ↦ non_empty e ]

pub read_line : ℕ → Text → StringMap → StringMap
read_line delimiter line m = elim (parse_line delimiter line) [
  | none ↦ m
  | some (key, value) ↦ add key value m
]

pub read_lines : ℕ → List Text → StringMap → StringMap
read_lines delimiter [] m = m
read_lines delimiter (line ∷ ls) m = read_lines delimiter ls (read_line delimiter line m)

pub read_from_file : ℕ → Option Text → StringMap → StringMap
read_from_file delimiter none m = m
read_from_file delimiter (some bytes) m = read_lines delimiter (lines bytes) m

-- What `print` writes to the standard output.
pub print : StringMap → Text
print [] = []
print ((k, v) ∷ m) = codes "Key: " ++ (k ++ (codes " Value: " ++ (v ++ newline ∷ print m)))
