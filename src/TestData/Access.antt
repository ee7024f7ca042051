-- ===== src/TestData/Access.antt =====
-- What is written under a key of a `TestData` is what is read there, and nothing else changes.
use mathlib.Core.List.{append-nil}
use mathlib.Core.Path.{subst}
use c_tests_runner.Base.{
  Bool-cases, inl, inr, if◌then◌else◌, ◌≡◌, refl, ◌∙◌, true, none, some, String, [], ◌∷◌, All,
  arith,
}
use c_tests_runner.Base.Result.{ok}
use c_tests_runner.TestData.{Bytes}
use c_tests_runner.TestData.Nested.{Shape, Value, write, read}
use c_tests_runner.TestData.NestedTrip.{IsNarrow, Fits, read-write}
use c_tests_runner.TestData.Store.{
  same, bytes_lt, Entries, find, assign, remove, serialize, deserialize, deserialize_loop,
  next_record,
}
use c_tests_runner.TestData.Keys.{bytes_lt_irrefl, same_eq, find-assign, IsSorted}
use c_tests_runner.TestData.StreamTrip.{deserialize-serialize, EntryFits}
use c_tests_runner.TestData.Typed.{
  view, write_value, read_value, write_object, read_object, erase, contains,
}

module _ (text : Bytes → String) where
  pub view-assign_same : (k d : Bytes) (m : Entries) → view text k (assign k d m) ≡ ok d
  unfolding view
  view-assign_same k d m = ground (arith, find-assign k k d m, bytes_lt_irrefl k)

  pub view-assign :
      (k j d : Bytes) (m : Entries)
      → view text j (assign k d m) ≡ (if same k j then ok d else view text j m)
  unfolding view
  view-assign k j d m = ground (arith, find-assign k j d m)

  -- A value of any shape that fits its type, written under a key, is what is read under that key
  -- afterwards; every other key has the bytes, or the exception, that it had.
  pub write_value-then_read :
      (s : Shape) (k : Bytes) (x : Value s) (m : Entries)
      → IsNarrow s
      → Fits s x
      → (read_value text s k (write_value s k x m) ≡ ok x)
        × ((j : Bytes)
            → view text j (write_value s k x m)
              ≡ (if same k j then ok (write s x) else view text j m))
  unfolding read_value write_value
  write_value-then_read s k x m n f =
      let trip : read s (write s x) ≡ ok (x, []) =
        subst (λ p. read s p ≡ ok (x, [])) (append-nil (write s x)) (read-write s x [] n f) in
      (rw (view-assign_same k (write s x) m, trip), λ j. view-assign k j (write s x) m)

  object_back :
      (blob : Bytes) (k : Bytes) (m : Entries)
      → read_object text k (assign k blob m) ≡ deserialize blob
  unfolding read_object deserialize deserialize_loop next_record
  object_back [] k m = rw (read_object, view-assign_same k [] m)
  object_back (b ∷ blob) k m = rw (read_object, view-assign_same k (b ∷ blob) m)

  -- The object that a builder makes is the object that is read back, if its keys are in the order of
  -- a std::map and its tags and payloads are within the caps of the format; objects nest.
  pub write_object-then_read :
      (k : Bytes) (builder : Entries → Entries) (m : Entries)
      → IsSorted (builder [])
      → All EntryFits (builder [])
      → read_object text k (write_object k builder m) ≡ some (ok (builder []))
  unfolding write_object
  write_object-then_read k builder m s f =
      object_back (serialize (builder [])) k m
      ∙ subst (λ p. deserialize p ≡ some (ok (builder []))) (append-nil (serialize (builder [])))
          (deserialize-serialize (builder []) [] (omega arith) s f)

find-above : (k : Bytes) (m : Entries) → All (λ e. bytes_lt k e.0 ≡ true) m → find k m ≡ none
unfolding find
find-above k [] a = refl
find-above k (e ∷ m) a = ground (arith, find-above k m a.1, a.0)

find-remove :
    (k j : Bytes) (m : Entries)
    → IsSorted m
    → find j (remove k m) ≡ (if same k j then none else find j m)
unfolding find remove
find-remove k j [] s = ground arith
find-remove k j ((i, d) ∷ m) s = elim (Bool-cases (same i j)) [
  | inl e ↦
      let q : i ≡ j = same_eq i j e in
      ground (
        arith,
        find-remove k j m s.1,
        find-above j m (subst (λ z. All (λ e. bytes_lt z e.0 ≡ true) m) q s.0),
        same_eq k j,
        same_eq i k,
        q,
        e,
        bytes_lt_irrefl j,
      )
  | inr e ↦ ground (arith, find-remove k j m s.1, same_eq k j, same_eq i k, e, bytes_lt_irrefl j)
]

-- Erasing a key of entries in order says whether the key was there, and leaves it absent and every
-- other key as it was.
pub erase_effect :
    (k j : Bytes) (m : Entries)
    → IsSorted m
    → ((erase k m).1 ≡ contains k m)
      × (find j (erase k m).0 ≡ (if same k j then none else find j m))
unfolding erase contains
erase_effect k j m s = (refl, find-remove k j m s)
