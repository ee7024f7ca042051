-- ===== src/TestData/Fields.antt =====
-- runner_lib/include/test_data.h: `write_str_field`, `write_map_field`, `MapIO`, and the arrays of
-- strings. A `std::string` is its bytes.
use c_tests_runner.Base.{ℕ, ◌^◌, Bool, List, [], ◌∷◌, ◌++◌, length, take, drop, ltb, if◌then◌else◌}
use c_tests_runner.Base.Result.{Result, ok, err, ◌>>=◌}
use c_tests_runner.TestData.{Bytes, append_pod, load_pod, check_room}
use c_tests_runner.TestData.Nested.{byte_of_bool, read_bool, write_each, read_each}

abbrev pub max_length : ℕ
max_length = 2 ^ 30

unfoldable pub write_str_field : Bytes → Bytes
write_str_field s = append_pod 8 (length s) ++ s

unfoldable pub read_str_field : Bytes → Result (Bytes × Bytes)
read_str_field p = do
  (len, p₁) ← load_pod 8 p "map string field length"
  if ltb max_length len
      then err "test_data: implausible string length in map field"
      else check_room p₁ len "map string field data" >>= λ _. ok (take len p₁, drop len p₁)

-- The types of a map's keys and values.
pub data Field : Type 0 where
  pod : ℕ → Field
  bool : Field
  str : Field

abbrev pub FieldValue : Field → Type 0
FieldValue (pod w) = ℕ
FieldValue bool = Bool
FieldValue str = Bytes

unfoldable pub write_map_field : (k : Field) → FieldValue k → Bytes
unfolding write_str_field
write_map_field (pod w) x = append_pod w x
write_map_field bool x = byte_of_bool x ∷ []
write_map_field str x = write_str_field x

unfoldable pub read_bool_field : Bytes → Result (Bool × Bytes)
unfolding read_bool
read_bool_field [] = check_room [] 1 "map bool field" >>= λ _. ok (Bool.false, [])
read_bool_field (b ∷ p) = read_bool (b ∷ p)

unfoldable pub read_map_field : (k : Field) → Bytes → Result (FieldValue k × Bytes)
unfolding read_str_field read_bool_field
read_map_field (pod w) p = load_pod w p "map POD field"
read_map_field bool p = read_bool_field p
read_map_field str p = read_str_field p

-- A map-like container, of the standard library or third-party: its items in the order of
-- iteration, and `emplace`.
pub record MapLike (K V M : Type 0) : Type 0 where
  pub empty : M
  pub emplace : K → V → M → M
  pub items : M → List (K × V)

abbrev pub emplace_all : {K V M : Type 0} → MapLike K V M → List K → List V → M → M
emplace_all c [] vs m = m
emplace_all c (k ∷ ks) [] m = m
emplace_all c (k ∷ ks) (v ∷ vs) m = emplace_all c ks vs (c.emplace k v m)

abbrev pub firsts : {K V : Type 0} → List (K × V) → List K
firsts [] = []
firsts ((k, v) ∷ l) = k ∷ firsts l

abbrev pub seconds : {K V : Type 0} → List (K × V) → List V
seconds [] = []
seconds ((k, v) ∷ l) = v ∷ seconds l

module _ (k v : Field) {M : Type 0} (c : MapLike (FieldValue k) (FieldValue v) M) where
  unfoldable pub write_map : M → Bytes
  unfolding write_each
  write_map m =
      append_pod 8 (length (c.items m))
      ++ (write_each (write_map_field k) (firsts (c.items m))
          ++ write_each (write_map_field v) (seconds (c.items m)))

  -- The keys are read first; each value is then read and emplaced under its key.
  unfoldable pub read_map : Bytes → Result (M × Bytes)
  unfolding read_each
  read_map p = do
    (n, p₁) ← load_pod 8 p "map size"
    if ltb max_length n then err "test_data: implausible map size" else do
      (keys, p₂) ← read_each (read_map_field k) n p₁
      (values, p₃) ← read_each (read_map_field v) n p₂
      ok (emplace_all c keys values c.empty, p₃)

unfoldable pub write_strings : List Bytes → Bytes
unfolding write_each
write_strings v = append_pod 8 (length v) ++ write_each write_str_field v

unfoldable pub read_strings : Bytes → Result (List Bytes × Bytes)
unfolding read_each
read_strings p = do
  (count, p₁) ← load_pod 8 p "strings count"
  if ltb max_length count
      then err "test_data: implausible string count"
      else read_each read_str_field count p₁
