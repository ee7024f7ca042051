-- ===== src/TestData/Nested.antt =====
-- runner_lib/include/test_data.h: `NestedIO<T>`, for scalars, bool and vectors at any depth.
use c_tests_runner.Base.{
  ℕ, zero, suc, ◌*◌, ◌%◌, ◌^◌, Bool, true, false, not, List, [], ◌∷◌, ◌++◌, map, length, take, drop,
  ltb, ◌==◌, if◌then◌else◌,
}
use c_tests_runner.Base.Result.{Result, ok, err, ◌>>=◌}
use c_tests_runner.TestData.{Bytes, append_pod, value_of, load_pod, check_room}

-- The types that `NestedIO` is instantiated at: a trivially copyable type of a width, bool, and
-- `std::vector`.
pub data Shape : Type 0 where
  pod : ℕ → Shape
  bool : Shape
  vec : Shape → Shape

abbrev pub Value : Shape → Type 0
Value (pod w) = ℕ
Value bool = Bool
Value (vec s) = List (Value s)

abbrev pub byte_of_bool : Bool → ℕ
byte_of_bool true = 1
byte_of_bool false = 0

abbrev pub bool_of_byte : ℕ → Bool
bool_of_byte b = not (b == 0)

module _ {A : Type 0} where
  unfoldable pub write_each : (A → Bytes) → List A → Bytes
  write_each f [] = []
  write_each f (x ∷ xs) = f x ++ write_each f xs

  -- The element loop: `n` reads, each from where the one before stopped.
  unfoldable pub read_each : (Bytes → Result (A × Bytes)) → ℕ → Bytes → Result (List A × Bytes)
  read_each f zero p = ok ([], p)
  read_each f (suc n) p = do (x, p₁) ← f p; (xs, p₂) ← read_each f n p₁; ok (x ∷ xs, p₂)

-- The memory of a vector of `n` values of width `w`, read back.
unfoldable pub copy_out : ℕ → ℕ → Bytes → List ℕ
copy_out w zero p = []
copy_out w (suc n) p = value_of (take w p) ∷ copy_out w n (drop w p)

unfoldable pub write : (s : Shape) → Value s → Bytes
unfolding write_each
write (pod w) x = append_pod w x
write bool x = byte_of_bool x ∷ []
write (vec bool) v = append_pod 8 (length v) ++ map byte_of_bool v
write (vec (pod w)) v = append_pod 8 (length v) ++ write_each (append_pod w) v
write (vec (vec s)) v = append_pod 8 (length v) ++ write_each (write (vec s)) v

abbrev pub max_elements : ℕ
max_elements = 2 ^ 40

unfoldable pub read_bool : Bytes → Result (Bool × Bytes)
unfolding check_room
read_bool [] = check_room [] 1 "bool leaf" >>= λ _. ok (false, [])
read_bool (b ∷ p) = ok (bool_of_byte b, p)

-- The count, refused if it is implausible.
unfoldable pub read_count : Bytes → Result (ℕ × Bytes)
unfolding load_pod
read_count p = do
  (n, p₁) ← load_pod 8 p "vector size"
  if ltb max_elements n then err "test_data: implausible vector size" else ok (n, p₁)

unfoldable pub read_bools : ℕ → Bytes → Result (List Bool × Bytes)
unfolding check_room
read_bools n p =
    check_room p n "vector<bool> data" >>= λ _. ok (map bool_of_byte (take n p), drop n p)

-- `bytes` is a std::size_t.
unfoldable pub read_pods : ℕ → ℕ → Bytes → Result (List ℕ × Bytes)
unfolding check_room copy_out
read_pods w n p =
    let bytes = n * w % 2 ^ 64 in
    check_room p bytes "vector<POD> data" >>= λ _. ok (copy_out w n p, drop bytes p)

unfoldable pub read : (s : Shape) → Bytes → Result (Value s × Bytes)
unfolding read_bool read_count read_bools read_pods read_each
read (pod w) p = load_pod w p "POD leaf"
read bool p = read_bool p
read (vec bool) p = do (n, p₁) ← read_count p; read_bools n p₁
read (vec (pod w)) p = do (n, p₁) ← read_count p; read_pods w n p₁
read (vec (vec s)) p = do (n, p₁) ← read_count p; read_each (read (vec s)) n p₁
