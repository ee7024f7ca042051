-- ===== src/Scenarios/Payloads.antt =====
-- What the loader writes for a JSON value, as the bytes under its key, and what the readers of the
-- verifier make of those bytes.
use mathlib.Core.List.{append-nil}
use mathlib.Core.Path.{subst}
use c_tests_runner.Base.{ℕ, ◌≤◌, ◌≡◌, refl, ap, String, List, [], ◌∷◌, length, map, All}
use c_tests_runner.Base.Result.{Result, ok, err, ◌>>=◌}
use c_tests_runner.TestData.{Bytes}
use c_tests_runner.TestData.Nested.{
  Shape, Value, pod, vec, bool as bool_shape, byte_of_bool, write, read,
}
use c_tests_runner.TestData.NestedTrip.{Fits, IsNarrow, read-write}
use c_tests_runner.TestData.Fields.{max_length, write_strings, read_strings}
use c_tests_runner.TestData.FieldTrip.{read_strings-write_strings}
use c_tests_runner.TestData.Store.{Entries, assign}
use c_tests_runner.TestData.Typed.{
  view, read_value, read_array, read_strings_at, write_value, write_array, write_string,
  write_strings_at,
}
use c_tests_runner.Scenarios.{
  Json, Double, JsonKind, unknown, int, double, bool, string, int_array, double_array, bool_array,
  string_array, empty_array, get_each, write_as,
}

module _ {A B : Type 0} where
  -- A chain that succeeds succeeded at its first link.
  pub bind_ok :
      (r : Result A) (f : A → Result B) (b : B)
      → (r >>= f) ≡ ok b
      → (a : A) × (r ≡ ok a) × (f a ≡ ok b)
  bind_ok (ok a) f b h = (a, refl, h)
  bind_ok (err e) f b h = absurd cc

pub get_each-All :
    {J A : Type 0} (P : A → Type 0) (get : J → Result A) (vs : List J) (xs : List A)
    → ((v : J) (x : A) → get v ≡ ok x → P x)
    → get_each get vs ≡ ok xs
    → All P xs
unfolding get_each
get_each-All P get vs [] each h = tt
get_each-All P get [] (x ∷ xs) each h = absurd cc
get_each-All P get (v ∷ vs) (x ∷ xs) each h =
    let b = bind_ok (get v) (λ y. get_each get vs >>= λ ys. ok (y ∷ ys)) (x ∷ xs) h in
    let c = bind_ok (get_each get vs) (λ ys. ok (b.0 ∷ ys)) (x ∷ xs) b.2 in
    let first : b.0 ≡ x = cc in
    let rest : c.0 ≡ xs = cc in
    (
      each v x (subst (λ y. get v ≡ ok y) first b.1),
      get_each-All P get vs xs each (subst (λ ys. get_each get vs ≡ ok ys) rest c.1),
    )

pub length-get_each :
    {J A : Type 0} (get : J → Result A) (vs : List J) (xs : List A)
    → get_each get vs ≡ ok xs
    → length xs ≡ length vs
unfolding get_each
length-get_each get [] [] h = refl
length-get_each get [] (x ∷ xs) h = absurd cc
length-get_each get (v ∷ vs) xs h =
    let b = bind_ok (get v) (λ y. get_each get vs >>= λ ys. ok (y ∷ ys)) xs h in
    let c = bind_ok (get_each get vs) (λ ys. ok (b.0 ∷ ys)) xs b.2 in
    let whole : b.0 ∷ c.0 ≡ xs = cc in rw (← whole) (ap ℕ.suc (length-get_each get vs c.0 c.1))

-- Readers of what was written under a key.
module _ (text : Bytes → String) (key : Bytes) (m : Entries) where
  pub read_value-view :
      (s : Shape) (x : Value s)
      → IsNarrow s
      → Fits s x
      → view text key m ≡ ok (write s x)
      → read_value text s key m ≡ ok x
  unfolding read_value
  read_value-view s x n f h =
      let trip : read s (write s x) ≡ ok (x, []) =
        subst (λ p. read s p ≡ ok (x, [])) (append-nil (write s x)) (read-write s x [] n f) in
      rw (h, trip)

  pub read_array-view :
      (s : Shape) (x : List (Value s))
      → IsNarrow s
      → Fits (vec s) x
      → view text key m ≡ ok (write (vec s) x)
      → read_array text s key m ≡ ok x
  unfolding read_array
  read_array-view s x n f h =
      let trip : read (vec s) (write (vec s) x) ≡ ok (x, []) =
        subst (λ p. read (vec s) p ≡ ok (x, [])) (append-nil (write (vec s) x))
          (read-write (vec s) x [] n f) in
      rw (h, trip)

  pub read_strings_at-view :
      (v : List Bytes)
      → length v ≤ max_length
      → All (λ s. length s ≤ max_length) v
      → view text key m ≡ ok (write_strings v)
      → read_strings_at text key m ≡ ok v
  unfolding read_strings_at
  read_strings_at-view v n f h =
      let trip : read_strings (write_strings v) ≡ ok (v, []) =
        subst (λ p. read_strings p ≡ ok (v, [])) (append-nil (write_strings v))
          (read_strings-write_strings v [] n f) in
      rw (h, trip)

module _ {J D : Type 0} (json : Json J D) (real : Double D) where
  -- What `write_as` stores.
  abbrev pub payload : JsonKind → J → Result Bytes
  payload int v = json.get_int v >>= λ x. ok (write (pod 8) x)
  payload double v = json.get_double v >>= λ x. ok (write (pod 8) (real.bits x))
  payload bool v = json.get_bool v >>= λ x. ok (write bool_shape x)
  payload string v = json.get_string v
  payload int_array v =
      get_each json.get_int (json.elements v) >>= λ xs. ok (write (vec (pod 8)) xs)
  payload empty_array v =
      get_each json.get_int (json.elements v) >>= λ xs. ok (write (vec (pod 8)) xs)
  payload double_array v = get_each json.get_double (json.elements v) >>= λ xs.
      ok (write (vec (pod 8)) (map real.bits xs))
  payload bool_array v = get_each json.get_bool (json.elements v) >>= λ xs.
      ok (write (vec (pod 1)) (map byte_of_bool xs))
  payload string_array v =
      get_each json.get_string (json.elements v) >>= λ xs. ok (write_strings xs)
  payload unknown v = err "unsupported"

module _ {A : Type 0} where
  then_assign :
      (r : Result A) (f : A → Bytes) (g : A → Entries) (key : Bytes) (td td' : Entries)
      → ((x : A) → g x ≡ assign key (f x) td)
      → (r >>= λ x. ok (g x)) ≡ ok td'
      → (b : Bytes) × ((r >>= λ x. ok (f x)) ≡ ok b) × (td' ≡ assign key b td)
  then_assign (ok x) f g key td td' e h =
      let same_td : g x ≡ td' = cc in
      (f x, refl, subst (λ z. z ≡ assign key (f x) td) same_td (e x))
  then_assign (err w) f g key td td' e h = absurd cc

-- A value that is written is a payload assigned to the key.
pub write_as-payload :
    {J D : Type 0} (json : Json J D) (real : Double D) (text : Bytes → String) (k : JsonKind)
    (key : Bytes) (v : J) (td td' : Entries)
    → write_as json real text k key v td ≡ ok td'
    → (b : Bytes) × (payload json real k v ≡ ok b) × (td' ≡ assign key b td)
unfolding write_as write_value write_array write_string write_strings_at
write_as-payload json real text int key v td td' h =
    then_assign (json.get_int v) (λ x. write (pod 8) x) (λ x. write_value (pod 8) key x td) key td
      td' (λ x. refl) h
write_as-payload json real text double key v td td' h =
    then_assign (json.get_double v) (λ x. write (pod 8) (real.bits x))
      (λ x. write_value (pod 8) key (real.bits x) td) key td td' (λ x. refl) h
write_as-payload json real text bool key v td td' h =
    then_assign (json.get_bool v) (λ x. write bool_shape x) (λ x. write_value bool_shape key x td)
      key td td' (λ x. refl) h
write_as-payload json real text string key v td td' h =
    let b = bind_ok (json.get_string v) (λ x. ok (assign key x td)) td' h in (b.0, b.1, cc)
write_as-payload json real text int_array key v td td' h =
    then_assign (get_each json.get_int (json.elements v)) (λ x. write (vec (pod 8)) x)
      (λ x. write_array (pod 8) key x td) key td td' (λ x. refl) h
write_as-payload json real text empty_array key v td td' h =
    then_assign (get_each json.get_int (json.elements v)) (λ x. write (vec (pod 8)) x)
      (λ x. write_array (pod 8) key x td) key td td' (λ x. refl) h
write_as-payload json real text double_array key v td td' h =
    then_assign (get_each json.get_double (json.elements v))
      (λ x. write (vec (pod 8)) (map real.bits x))
      (λ x. write_array (pod 8) key (map real.bits x) td) key td td' (λ x. refl) h
write_as-payload json real text bool_array key v td td' h =
    then_assign (get_each json.get_bool (json.elements v))
      (λ x. write (vec (pod 1)) (map byte_of_bool x))
      (λ x. write_array (pod 1) key (map byte_of_bool x) td) key td td' (λ x. refl) h
write_as-payload json real text string_array key v td td' h =
    then_assign (get_each json.get_string (json.elements v)) (λ x. write_strings x)
      (λ x. write_strings_at key x td) key td td' (λ x. refl) h
write_as-payload json real text unknown key v td td' h = absurd cc
