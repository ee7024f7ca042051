-- ===== src/TestData/Typed.antt =====
-- runner_lib/include/test_data.h: the operations of class `TestData`, from `load` to `erase`. The
-- object is its entries; an operation that throws is a `Result`.
use c_tests_runner.Base.{
  ℕ, Bool, true, false, ◌==◌, Option, none, some, String, List, [], ◌∷◌, length, map, if◌then◌else◌,
}
use c_tests_runner.Base.Result.{Result, ok, err, ◌>>=◌}
use c_tests_runner.TestData.{Bytes}
use c_tests_runner.TestData.Nested.{Shape, Value, vec, write, read}
use c_tests_runner.TestData.Fields.{
  Field, FieldValue, MapLike, read_map, write_map, read_strings, write_strings,
}
use c_tests_runner.TestData.Store.{Entries, find, assign, remove, serialize, deserialize}
use Prim.Native.String.{◌++◌ as ◌++ₛ◌}

-- `load`, from what the file system holds at the path: nothing where the file is missing or cannot
-- be opened, else its bytes.
unfoldable pub load : Option Bytes → Option (Result Entries)
load none = some (ok [])
load (some bytes) = deserialize bytes

-- `save`: the bytes that the file holds afterwards, where it can be opened.
unfoldable pub save : String → Bool → Entries → Result Bytes
save file opens m =
    if opens then ok (serialize m) else err ("TestData::save: cannot open " ++ₛ file)

unfoldable pub contains : Bytes → Entries → Bool
contains key m = elim (find key m) [ none ↦ false | some d ↦ true ]

unfoldable pub size : Entries → ℕ
size m = length m

unfoldable pub is_empty : Entries → Bool
is_empty m = length m == 0

unfoldable pub write_value : (s : Shape) → Bytes → Value s → Entries → Entries
write_value s key value m = assign key (write s value) m

unfoldable pub write_array : (s : Shape) → Bytes → List (Value s) → Entries → Entries
write_array s key elements m = assign key (write (vec s) elements) m

unfoldable pub write_map_at :
    (k v : Field) {M : Type 0}
    → MapLike (FieldValue k) (FieldValue v) M
    → Bytes
    → M
    → Entries
    → Entries
write_map_at k v c key x m = assign key (write_map k v c x) m

unfoldable pub write_object : Bytes → (Entries → Entries) → Entries → Entries
write_object key builder m = assign key (serialize (builder [])) m

unfoldable pub write_string : Bytes → Bytes → Entries → Entries
write_string key s m = assign key s m

unfoldable pub write_strings_at : Bytes → List Bytes → Entries → Entries
write_strings_at key v m = assign key (write_strings v) m

unfoldable pub keys : Entries → List Bytes
keys m = map (λ e. e.0) m

-- The map afterwards, and whether something was erased.
unfoldable pub erase : Bytes → Entries → Entries × Bool
erase key m = (remove key m, contains key m)

-- The reader returns its value and drops the rest of the payload.
abbrev pub value_only {ℓ} : {A : Type ℓ} → Result (A × Bytes) → Result A
value_only r = r >>= λ e. ok e.0

-- The text of a key, in an exception.
module _ (text : Bytes → String) where
  unfoldable pub view : Bytes → Entries → Result Bytes
  view key m = elim (find key m) [
    | none ↦ err ("TestData: key '" ++ₛ (text key ++ₛ "' not found"))
    | some blob ↦ ok blob
  ]

  unfoldable pub read_value : (s : Shape) → Bytes → Entries → Result (Value s)
  read_value s key m = view key m >>= λ blob. value_only (read s blob)

  unfoldable pub read_array : (s : Shape) → Bytes → Entries → Result (List (Value s))
  read_array s key m = view key m >>= λ blob. value_only (read (vec s) blob)

  unfoldable pub read_map_at :
      (k v : Field) {M : Type 0}
      → MapLike (FieldValue k) (FieldValue v) M
      → Bytes
      → Entries
      → Result M
  read_map_at k v c key m = view key m >>= λ blob. value_only (read_map k v c blob)

  unfoldable pub read_string : Bytes → Entries → Result Bytes
  read_string key m = view key m

  unfoldable pub read_strings_at : Bytes → Entries → Result (List Bytes)
  read_strings_at key m = view key m >>= λ blob. value_only (read_strings blob)

  -- As with `deserialize`, `none` means that the fuel ran out.
  unfoldable pub read_object : Bytes → Entries → Option (Result Entries)
  read_object key m = elim (view key m) [
    | err what ↦ some (err what)
    | ok [] ↦ some (ok [])
    | ok (b ∷ blob) ↦ deserialize (b ∷ blob)
  ]
