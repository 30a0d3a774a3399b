-- ===== src/Tests/Map.antt =====
-- The thread-safe map at concrete inputs.
use client_server_signaling.Base.{◌≡◌, refl, arith, Text, codes, true, some, List, [], ◌∷◌}
use client_server_signaling.ThreadSafeMap.{find, get, contains}
use client_server_signaling.ThreadSafeMap.Order.{text_ord, text_lt}
use client_server_signaling.ThreadSafeMap.Laws.{IsSorted}
use client_server_signaling.ThreadSafeMap.Refines.{
  Method, adds, edits, removes, calls, spec_call, spec_calls, calls-refines,
}
use client_server_signaling.ThreadSafeMap.File.{StringMap, write_to_file, read_from_file}
use client_server_signaling.ThreadSafeMap.File.RoundTrip.{
  IsWritable, kept, read_from_file-write_to_file,
}

-- db/users.txt, and a user with no password.
abbrev passwords : StringMap
passwords = (codes "test", codes "123") ∷ (codes "test2", codes "12345") ∷ (codes "test3", []) ∷ []

passwords-IsSorted : IsSorted passwords
unfolding text_lt
passwords-IsSorted = ((refl, (refl, tt)), ((refl, tt), (tt, tt)))

abbrev changes : List (Method Text Text)
changes =
    adds (codes "a") (codes "1")
    ∷ edits (codes "test2") (codes "new")
    ∷ edits (codes "b") (codes "2")
    ∷ removes (codes "test")
    ∷ []

calls-refines_example :
    IsSorted (calls changes passwords)
    × (get (codes "test2") [] (calls changes passwords) ≡ codes "new")
    × (contains (codes "test2") (calls changes passwords) ≡ true)
unfolding spec_calls spec_call find text_lt
calls-refines_example = calls-refines changes passwords (codes "test2") [] passwords-IsSorted

writable :
    (IsWritable 32 (codes "test", codes "123"))
    × (IsWritable 32 (codes "test2", codes "12345"))
    × (IsWritable 32 (codes "test3", []))
writable = (omega arith, omega arith, omega arith)

read_from_file-write_to_file_example :
    read_from_file 32 (some (write_to_file 32 passwords)) [] ≡ kept passwords
read_from_file-write_to_file_example =
    read_from_file-write_to_file 32 passwords (omega arith)
      (writable.0, (writable.1, (writable.2, tt))) passwords-IsSorted
