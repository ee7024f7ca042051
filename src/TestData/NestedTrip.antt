-- ===== src/TestData/NestedTrip.antt =====
-- What `NestedIO` writes it reads back, and it leaves what follows.
use mathlib.Core.List.{append_assoc}
use c_tests_runner.Base.{
  ℕ, ◌*◌, ◌%◌, ◌^◌, ◌≤◌, ◌<◌, ◌≡◌, refl, ap, Bool, true, false, List, [], ◌∷◌, ◌++◌, map, length,
  length-append, length-map, take-append_len, drop-append_len, All, arith,
}
use c_tests_runner.Base.Result.{Result, ok}
use c_tests_runner.TestData.{Bytes, append_pod}
use c_tests_runner.TestData.Pod.{
  length-append_pod, value_of-append_pod, check_room-append, load_pod-append,
}
use c_tests_runner.TestData.Nested.{
  Shape, pod, bool, vec, Value, byte_of_bool, bool_of_byte, write_each, read_each, copy_out, write,
  max_elements, read_bool, read_count, read_bools, read_pods, read,
}

-- A value that its type can hold: numbers within their width, vectors within the format's cap.
abbrev pub Fits : (s : Shape) → Value s → Type 0
Fits (pod w) x = x < 256 ^ w
Fits bool b = Unit
Fits (vec s) v = (length v ≤ max_elements) × All (Fits s) v

-- No type is wider than 8 MiB, so a vector's size in bytes does not wrap.
abbrev pub IsNarrow : Shape → Type 0
IsNarrow (pod w) = w ≤ 2 ^ 23
IsNarrow bool = Unit
IsNarrow (vec s) = IsNarrow s

pub read_count-append :
    (n : ℕ) (rest : Bytes) → n ≤ max_elements → read_count (append_pod 8 n ++ rest) ≡ ok (n, rest)
unfolding read_count
read_count-append n rest h =
    rw (load_pod-append 8 n rest "vector size" (omega arith)) (ground arith)

pub bool_of_byte_of_bool : (v : List Bool) → map bool_of_byte (map byte_of_bool v) ≡ v
bool_of_byte_of_bool [] = refl
bool_of_byte_of_bool (true ∷ v) = ap (◌∷◌ true) (bool_of_byte_of_bool v)
bool_of_byte_of_bool (false ∷ v) = ap (◌∷◌ false) (bool_of_byte_of_bool v)

read_bools-append :
    (v : List Bool) (rest : Bytes)
    → read_bools (length v) (map byte_of_bool v ++ rest) ≡ ok (v, rest)
unfolding read_bools
read_bools-append v rest = rw (
  check_room-append (map byte_of_bool v) rest (length v) "vector<bool> data"
      (length-map byte_of_bool v),
  take-append_len (length v) (map byte_of_bool v) rest (length-map byte_of_bool v),
  drop-append_len (length v) (map byte_of_bool v) rest (length-map byte_of_bool v),
  bool_of_byte_of_bool v,
)

length-write_each : (w : ℕ) (v : List ℕ) → length (write_each (append_pod w) v) ≡ length v * w
unfolding write_each
length-write_each w [] = omega arith
length-write_each w (x ∷ v) = omega (
  arith,
  length-append (append_pod w x) (write_each (append_pod w) v),
  length-append_pod w x,
  length-write_each w v,
)

copy_out-write_each :
    (w : ℕ) (v : List ℕ) (rest : Bytes)
    → All (λ x. x < 256 ^ w) v
    → copy_out w (length v) (write_each (append_pod w) v ++ rest) ≡ v
unfolding copy_out write_each
copy_out-write_each w [] rest h = refl
copy_out-write_each w (x ∷ v) rest h = rw (
  append_assoc (append_pod w x) (write_each (append_pod w) v) rest,
  take-append_len w (append_pod w x) (write_each (append_pod w) v ++ rest) (length-append_pod w x),
  drop-append_len w (append_pod w x) (write_each (append_pod w) v ++ rest) (length-append_pod w x),
  value_of-append_pod w x h.0,
  copy_out-write_each w v rest h.1,
)

no_wrap : (n w : ℕ) → n ≤ max_elements → w ≤ 2 ^ 23 → n * w % 2 ^ 64 ≡ n * w
no_wrap n w h k = grind arith

read_pods-append :
    (w : ℕ) (v : List ℕ) (rest : Bytes)
    → w ≤ 2 ^ 23
    → length v ≤ max_elements
    → All (λ x. x < 256 ^ w) v
    → read_pods w (length v) (write_each (append_pod w) v ++ rest) ≡ ok (v, rest)
unfolding read_pods
read_pods-append w v rest k h a = rw (
  no_wrap (length v) w h k,
  check_room-append (write_each (append_pod w) v) rest (length v * w) "vector<POD> data"
      (length-write_each w v),
  copy_out-write_each w v rest a,
  drop-append_len (length v * w) (write_each (append_pod w) v) rest (length-write_each w v),
)

module _ {A : Type 0} (P : A → Type 0) (f : A → Bytes) (g : Bytes → Result (A × Bytes))
    (back : (x : A) (rest : Bytes) → P x → g (f x ++ rest) ≡ ok (x, rest)) where
  pub read_each-write_each :
      (v : List A) (rest : Bytes)
      → All P v
      → read_each g (length v) (write_each f v ++ rest) ≡ ok (v, rest)
  unfolding read_each write_each
  read_each-write_each [] rest h = refl
  read_each-write_each (x ∷ v) rest h = rw (
    append_assoc (f x) (write_each f v) rest,
    back x (write_each f v ++ rest) h.0,
    read_each-write_each v rest h.1,
  )

-- Whatever the type, from a scalar to vectors nested to any depth, reading the bytes of a value
-- that fits (scalars in at most 2^23 bytes, vectors of at most 2^40 elements) gives the value and
-- leaves exactly the bytes behind it.
pub read-write :
    (s : Shape) (x : Value s) (rest : Bytes)
    → IsNarrow s
    → Fits s x
    → read s (write s x ++ rest) ≡ ok (x, rest)
unfolding read write read_bool
read-write (pod w) x rest n h = load_pod-append w x rest "POD leaf" h
read-write bool true rest n h = refl
read-write bool false rest n h = refl
read-write (vec bool) v rest n h =
    rw
      (
        append_assoc (append_pod 8 (length v)) (map byte_of_bool v) rest,
        read_count-append (length v) (map byte_of_bool v ++ rest) h.0,
      )
      (read_bools-append v rest)
read-write (vec (pod w)) v rest n h =
    rw
      (
        append_assoc (append_pod 8 (length v)) (write_each (append_pod w) v) rest,
        read_count-append (length v) (write_each (append_pod w) v ++ rest) h.0,
      )
      (read_pods-append w v rest n h.0 h.1)
read-write (vec (vec s)) v rest n h =
    rw
      (
        append_assoc (append_pod 8 (length v)) (write_each (write (vec s)) v) rest,
        read_count-append (length v) (write_each (write (vec s)) v ++ rest) h.0,
      )
      (read_each-write_each (Fits (vec s)) (write (vec s)) (read (vec s))
        (λ x r. read-write (vec s) x r n) v rest h.1)
