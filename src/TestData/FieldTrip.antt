-- ===== src/TestData/FieldTrip.antt =====
-- Maps and arrays of strings are read back from their bytes.
use mathlib.Core.List.{append_assoc}
use mathlib.Core.Path.{subst}
use c_tests_runner.Base.{
  suc, ◌^◌, ◌≤◌, ◌<◌, ◌≡◌, refl, ap, true, false, List, [], ◌∷◌, ◌++◌, length, All, take-append_len,
  drop-append_len, arith,
}
use c_tests_runner.Base.Result.{ok}
use c_tests_runner.TestData.{Bytes, append_pod}
use c_tests_runner.TestData.Pod.{load_pod-append, check_room-append}
use c_tests_runner.TestData.Nested.{write_each, read_each, read_bool}
use c_tests_runner.TestData.NestedTrip.{read_each-write_each}
use c_tests_runner.TestData.Fields.{
  max_length, write_str_field, read_str_field, Field, pod, bool, str, FieldValue, write_map_field,
  read_map_field, MapLike, emplace_all, firsts, seconds, write_map, read_map, write_strings,
  read_strings,
}

abbrev pub FieldFits : (k : Field) → FieldValue k → Type 0
FieldFits (pod w) x = x < 256 ^ w
FieldFits bool x = Unit
FieldFits str x = length x ≤ max_length

str_field_back :
    (s rest : Bytes)
    → length s ≤ max_length
    → read_str_field (write_str_field s ++ rest) ≡ ok (s, rest)
unfolding read_str_field write_str_field
str_field_back s rest h =
    rw
      (
        append_assoc (append_pod 8 (length s)) s rest,
        load_pod-append 8 (length s) (s ++ rest) "map string field length" (omega arith),
      )
      (rw
        (
          check_room-append s rest (length s) "map string field data" refl,
          take-append_len (length s) s rest refl,
          drop-append_len (length s) s rest refl,
        )
        (ground arith))

map_field_back :
    (k : Field) (x : FieldValue k) (rest : Bytes)
    → FieldFits k x
    → read_map_field k (write_map_field k x ++ rest) ≡ ok (x, rest)
unfolding read_map_field write_map_field read_bool
map_field_back (pod w) x rest h = load_pod-append w x rest "map POD field" h
map_field_back bool true rest h = refl
map_field_back bool false rest h = refl
map_field_back str x rest h = str_field_back x rest h

length-firsts : {K V : Type 0} (l : List (K × V)) → length (firsts l) ≡ length l
length-firsts [] = refl
length-firsts ((k, v) ∷ l) = ap suc (length-firsts l)

length-seconds : {K V : Type 0} (l : List (K × V)) → length (seconds l) ≡ length l
length-seconds [] = refl
length-seconds ((k, v) ∷ l) = ap suc (length-seconds l)

module _ (k v : Field) {M : Type 0} (c : MapLike (FieldValue k) (FieldValue v) M) where
  -- A map is read back from its bytes, keys and values of any of the three kinds, for any container
  -- that its own items rebuild, if it has at most 2^30 entries that fit.
  read_map-write_map :
      (m : M) (rest : Bytes)
      → emplace_all c (firsts (c.items m)) (seconds (c.items m)) c.empty ≡ m
      → length (c.items m) ≤ max_length
      → All (FieldFits k) (firsts (c.items m))
      → All (FieldFits v) (seconds (c.items m))
      → read_map k v c (write_map k v c m ++ rest) ≡ ok (m, rest)
  unfolding read_map write_map
  read_map-write_map m rest rebuild h hk hv =
      let its = c.items m in
      let kb = write_each (write_map_field k) (firsts its) in
      let vb = write_each (write_map_field v) (seconds its) in
      let keys =
        read_each-write_each (FieldFits k) (write_map_field k) (read_map_field k) (map_field_back k)
          (firsts its) (vb ++ rest) hk in
      let values =
        read_each-write_each (FieldFits v) (write_map_field v) (read_map_field v) (map_field_back v)
          (seconds its) rest hv in
      rw
        (
          append_assoc (append_pod 8 (length its)) (kb ++ vb) rest,
          append_assoc kb vb rest,
          load_pod-append 8 (length its) (kb ++ (vb ++ rest)) "map size" (omega arith),
        )
        (ground (
          arith,
          subst
              (λ n.
                read_each (read_map_field k) n (kb ++ (vb ++ rest)) ≡ ok (firsts its, vb ++ rest))
              (length-firsts its) keys,
          subst (λ n. read_each (read_map_field v) n (vb ++ rest) ≡ ok (seconds its, rest))
              (length-seconds its) values,
          rebuild,
        ))

-- An array of at most 2^30 strings of at most 2^30 bytes each is read back from its bytes, with
-- exactly the bytes behind it left.
pub read_strings-write_strings :
    (v : List Bytes) (rest : Bytes)
    → length v ≤ max_length
    → All (λ s. length s ≤ max_length) v
    → read_strings (write_strings v ++ rest) ≡ ok (v, rest)
unfolding read_strings write_strings
read_strings-write_strings v rest h a =
    rw
      (
        append_assoc (append_pod 8 (length v)) (write_each write_str_field v) rest,
        load_pod-append 8 (length v) (write_each write_str_field v ++ rest) "strings count"
            (omega arith),
      )
      (ground (
        arith,
        read_each-write_each (λ s. length s ≤ max_length) write_str_field read_str_field
            str_field_back v rest a,
      ))
