-- ===== src/TestData/Runs.antt =====
-- The theorems about test_data.h at concrete values and files.
use c_tests_runner.Base.{◌≡◌, if◌then◌else◌, refl, some, String, [], ◌∷◌, ◌++◌, All, arith}
use c_tests_runner.Base.Result.{Result, ok}
use c_tests_runner.TestData.{Bytes}
use c_tests_runner.TestData.Nested.{Value, pod, vec, write, read}
use c_tests_runner.TestData.NestedTrip.{Fits, read-write}
use c_tests_runner.TestData.Store.{same, bytes_lt, Entries, serialize, deserialize}
use c_tests_runner.TestData.Keys.{IsSorted}
use c_tests_runner.TestData.StreamTrip.{deserialize-serialize, deserialize_total, EntryFits}
use c_tests_runner.TestData.Typed.{view, write_value, read_value}
use c_tests_runner.TestData.Access.{write_value-then_read}

abbrev matrix : Value (vec (vec (pod 4)))
matrix = (1 ∷ 2 ∷ []) ∷ (300 ∷ []) ∷ []

matrix-Fits : Fits (vec (vec (pod 4))) matrix
matrix-Fits = (
  omega arith,
  ((omega arith, (omega arith, (omega arith, tt))), ((omega arith, (omega arith, tt)), tt)),
)

read-write_example :
    read (vec (vec (pod 4))) (write (vec (vec (pod 4))) matrix ++ 7 ∷ []) ≡ ok (matrix, 7 ∷ [])
read-write_example = read-write (vec (vec (pod 4))) matrix (7 ∷ []) (omega arith) matrix-Fits

abbrev two_entries : Entries
two_entries = (97 ∷ [], 1 ∷ 2 ∷ []) ∷ (98 ∷ [], []) ∷ []

two_entries-IsSorted : IsSorted two_entries
unfolding bytes_lt
two_entries-IsSorted = ((refl, tt), (tt, tt))

two_entries-EntryFits : All EntryFits two_entries
two_entries-EntryFits = ((omega arith, omega arith), ((omega arith, omega arith), tt))

deserialize-serialize_example :
    deserialize (serialize two_entries ++ 5 ∷ 0 ∷ 0 ∷ []) ≡ some (ok two_entries)
deserialize-serialize_example =
    deserialize-serialize two_entries (5 ∷ 0 ∷ 0 ∷ []) (omega arith) two_entries-IsSorted
      two_entries-EntryFits

deserialize_total_example : (r : Result Entries) × (deserialize (1 ∷ 2 ∷ 3 ∷ []) ≡ some r)
deserialize_total_example = deserialize_total (1 ∷ 2 ∷ 3 ∷ [])

abbrev no_text : Bytes → String
no_text k = "k"

write_value-then_read_example :
    (read_value no_text
        (vec (vec (pod 4)))
        (99 ∷ [])
        (write_value (vec (vec (pod 4))) (99 ∷ []) matrix two_entries)
      ≡ ok matrix)
    × ((j : Bytes)
        → view no_text j (write_value (vec (vec (pod 4))) (99 ∷ []) matrix two_entries) ≡ (
            if same (99 ∷ []) j
            then ok (write (vec (vec (pod 4))) matrix)
            else view no_text j two_entries))
write_value-then_read_example =
    write_value-then_read no_text (vec (vec (pod 4))) (99 ∷ []) matrix two_entries (omega arith)
      matrix-Fits
