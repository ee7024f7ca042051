-- ===== src/Scenarios/Agreement.antt =====
-- An output that holds what the loader would write for the expected JSON passes the verifier.
use c_tests_runner.Base.{
  ℕ, ◌+◌, ◌^◌, ◌≤◌, ◌<◌, ◌≡◌, refl, Bool, true, false, ◌==◌, String, List, [], ◌∷◌, length, map,
  All, arith, length-map,
}
use c_tests_runner.Base.Result.{Result, ok, ◌>>=◌}
use c_tests_runner.TestData.{Bytes}
use c_tests_runner.TestData.Nested.{pod, vec, bool as bool_shape, byte_of_bool, write}
use c_tests_runner.TestData.NestedTrip.{bool_of_byte_of_bool}
use c_tests_runner.TestData.Fields.{max_length, write_strings}
use c_tests_runner.TestData.Store.{Entries, same}
use c_tests_runner.TestData.Keys.{bytes_lt_irrefl}
use c_tests_runner.TestData.Typed.{view, read_string}
use c_tests_runner.Scenarios.{
  Json, Double, JsonKind, unknown, int, double, bool, string, int_array, double_array, bool_array,
  string_array, empty_array, get_each,
}
use c_tests_runner.Scenarios.Verify.{
  equal_lists, doubles_equal, compare_from, compare_array, same_bool, passes, verify_ints,
  verify_as, bool_text, quoted, compare_double_array,
}
use c_tests_runner.Scenarios.Payloads.{
  bind_ok, get_each-All, length-get_each, read_value-view, read_array-view, read_strings_at-view,
  payload,
}

module _ {A : Type 0} (eq : A → A → Bool) where
  equal_lists_refl : (xs : List A) → All (λ x. eq x x ≡ true) xs → equal_lists eq xs xs ≡ true
  unfolding equal_lists
  equal_lists_refl [] h = refl
  equal_lists_refl (x ∷ xs) h = rw (h.0, equal_lists_refl xs h.1)

  compare_from_refl :
      (text : Bytes → String) (show : A → String) (key : Bytes) (i : ℕ) (xs : List A)
      → All (λ x. eq x x ≡ true) xs
      → compare_from text eq show key i xs xs ≡ passes
  unfolding compare_from
  compare_from_refl text show key i [] h = refl
  compare_from_refl text show key i (x ∷ xs) h =
      rw (h.0, compare_from_refl text show key (i + 1) xs h.1)

  compare_array_refl :
      (text : Bytes → String) (show : A → String) (key : Bytes) (xs : List A)
      → All (λ x. eq x x ≡ true) xs
      → compare_array text eq show key xs xs ≡ passes
  unfolding compare_array
  compare_array_refl text show key xs h =
      let s : (length xs == length xs) ≡ true = ground arith in
      rw (s, compare_from_refl text show key 0 xs h)

same_refl : (s : Bytes) → same s s ≡ true
same_refl s = rw (bytes_lt_irrefl s)

same_bool_refl : (b : Bool) → same_bool b b ≡ true
same_bool_refl true = refl
same_bool_refl false = refl

every : {A : Type 0} (P : A → Type 0) → ((x : A) → P x) → (xs : List A) → All P xs
every P p [] = tt
every P p (x ∷ xs) = (p x, every P p xs)

doubles_equal_refl :
    {D : Type 0} (real : Double D) (a eps : D)
    → real.equal a a ≡ true
    → doubles_equal real a a eps ≡ true
unfolding doubles_equal
doubles_equal_refl real a eps h = rw h

-- What the loader relies on of the JSON library and of the format of doubles: an integer is 64
-- bits, no JSON number is NaN, and the bits of a double are eight bytes that give it back.
pub record JsonLaws {J D : Type 0} (json : Json J D) (real : Double D) : Type 0 where
  pub int_fits : (v : J) (n : ℕ) → json.get_int v ≡ ok n → n < 256 ^ 8
  pub not_nan : (v : J) (d : D) → json.get_double v ≡ ok d → real.equal d d ≡ true
  pub bits_fit : (d : D) → real.bits d < 256 ^ 8
  pub bits_back : (d : D) → real.of_bits (real.bits d) ≡ d

-- A value within the caps of the format: at most 2^30 elements, and strings of at most 2^30 bytes.
pub record IsStorable {J D : Type 0} (json : Json J D) (v : J) : Type 0 where
  pub few : length (json.elements v) ≤ max_length
  pub short : (w : J) (s : Bytes) → json.get_string w ≡ ok s → length s ≤ max_length

bytes_fit-All : (xs : List Bool) → All (λ x. x < 256 ^ 1) (map byte_of_bool xs)
bytes_fit-All [] = tt
bytes_fit-All (true ∷ xs) = (omega arith, bytes_fit-All xs)
bytes_fit-All (false ∷ xs) = (omega arith, bytes_fit-All xs)

module _ {J D : Type 0} (json : Json J D) (real : Double D) (laws : JsonLaws json real) where
  bits_fit-All : (xs : List D) → All (λ x. x < 256 ^ 8) (map real.bits xs)
  bits_fit-All [] = tt
  bits_fit-All (x ∷ xs) = (laws.bits_fit x, bits_fit-All xs)

  bits_back_all : (xs : List D) → map real.of_bits (map real.bits xs) ≡ xs
  bits_back_all [] = refl
  bits_back_all (x ∷ xs) = rw (laws.bits_back x, bits_back_all xs)

  nan_free-All :
      (v : J) (eps : D) (xs : List D)
      → get_each json.get_double (json.elements v) ≡ ok xs
      → All (λ x. doubles_equal real x x eps ≡ true) xs
  nan_free-All v eps xs h =
      get_each-All (λ x. doubles_equal real x x eps ≡ true) json.get_double (json.elements v) xs
        (λ w x e. doubles_equal_refl real x eps (laws.not_nan w x e)) h

module _ {J D : Type 0} (json : Json J D) (real : Double D) (text : Bytes → String)
    (laws : JsonLaws json real) (key : Bytes) (m : Entries) where
  few_elements :
      {A : Type 0} (get : J → Result A) (v : J) (xs : List A)
      → IsStorable json v
      → get_each get (json.elements v) ≡ ok xs
      → length xs ≤ max_length
  few_elements get v xs st h =
      let l = length-get_each get (json.elements v) xs h in let f = st.few in omega arith

  verify_ints_payload :
      (v : J) (xs : List ℕ)
      → IsStorable json v
      → get_each json.get_int (json.elements v) ≡ ok xs
      → view text key m ≡ ok (write (vec (pod 8)) xs)
      → verify_ints json real text key v m ≡ ok passes
  unfolding verify_ints
  verify_ints_payload v xs st h look =
      let few = few_elements json.get_int v xs st h in
      let back =
        read_array-view text key m (pod 8) xs (omega arith)
          (
            omega arith,
            get_each-All (λ x. x < 256 ^ 8) json.get_int (json.elements v) xs laws.int_fits h,
          )
          look in
      let eqs =
        equal_lists_refl (λ x y. x == y) xs (every (λ x. (x == x) ≡ true) (λ x. ground arith) xs) in
      rw (h, back, eqs)

  verify_int_array :
      (v : J) (b : Bytes)
      → IsStorable json v
      → (get_each json.get_int (json.elements v) >>= λ xs. ok (write (vec (pod 8)) xs)) ≡ ok b
      → view text key m ≡ ok b
      → verify_ints json real text key v m ≡ ok passes
  verify_int_array v b st h look =
      let (xs, e, w) =
        bind_ok (get_each json.get_int (json.elements v)) (λ xs. ok (write (vec (pod 8)) xs)) b h in
      verify_ints_payload v xs st e cc

  -- For each kind, the bytes of the payload under the key make the switch pass.
  pub verify_as-payload :
      (k : JsonKind) (v : J) (eps : D) (b : Bytes)
      → IsStorable json v
      → payload json real k v ≡ ok b
      → view text key m ≡ ok b
      → verify_as json real text k key v m eps ≡ ok passes
  unfolding verify_as compare_double_array read_string
  verify_as-payload int v eps b st h look =
      let (x, e, w) = bind_ok (json.get_int v) (λ x. ok (write (pod 8) x)) b h in
      let back = read_value-view text key m (pod 8) x (omega arith) (laws.int_fits v x e) cc in
      let eqs : (x == x) ≡ true = ground arith in rw (e, back, eqs)
  verify_as-payload double v eps b st h look =
      let (x, e, w) = bind_ok (json.get_double v) (λ x. ok (write (pod 8) (real.bits x))) b h in
      let back =
        read_value-view text key m (pod 8) (real.bits x) (omega arith) (laws.bits_fit x) cc in
      rw (e, back, laws.bits_back x, doubles_equal_refl real x eps (laws.not_nan v x e))
  verify_as-payload bool v eps b st h look =
      let (x, e, w) = bind_ok (json.get_bool v) (λ x. ok (write bool_shape x)) b h in
      let back = read_value-view text key m bool_shape x tt tt cc in rw (e, back, same_bool_refl x)
  verify_as-payload string v eps b st h look = rw (h, look, same_refl b)
  verify_as-payload int_array v eps b st h look = verify_int_array v b st h look
  verify_as-payload empty_array v eps b st h look = verify_int_array v b st h look
  verify_as-payload double_array v eps b st h look =
      let (xs, e, w) =
        bind_ok (get_each json.get_double (json.elements v))
          (λ xs. ok (write (vec (pod 8)) (map real.bits xs))) b h in
      let few = few_elements json.get_double v xs st e in
      let lm = length-map real.bits xs in
      let back =
        read_array-view text key m (pod 8) (map real.bits xs) (omega arith)
          (omega arith, bits_fit-All json real laws xs) cc in
      rw (
        e,
        back,
        bits_back_all json real laws xs,
        compare_array_refl (λ x y. doubles_equal real x y eps) text real.show key xs
            (nan_free-All json real laws v eps xs e),
      )
  verify_as-payload bool_array v eps b st h look =
      let (xs, e, w) =
        bind_ok (get_each json.get_bool (json.elements v))
          (λ xs. ok (write (vec (pod 1)) (map byte_of_bool xs))) b h in
      let few = few_elements json.get_bool v xs st e in
      let lm = length-map byte_of_bool xs in
      let back =
        read_array-view text key m (pod 1) (map byte_of_bool xs) (omega arith)
          (omega arith, bytes_fit-All xs) cc in
      rw (
        e,
        back,
        bool_of_byte_of_bool xs,
        compare_array_refl same_bool text bool_text key xs
            (every (λ x. same_bool x x ≡ true) same_bool_refl xs),
      )
  verify_as-payload string_array v eps b st h look =
      let (xs, e, w) =
        bind_ok (get_each json.get_string (json.elements v)) (λ xs. ok (write_strings xs)) b h in
      let back =
        read_strings_at-view text key m xs (few_elements json.get_string v xs st e)
          (get_each-All (λ s. length s ≤ max_length) json.get_string (json.elements v) xs st.short
            e)
          cc in
      rw (
        e,
        back,
        compare_array_refl same text (quoted text) key xs
            (every (λ x. same x x ≡ true) same_refl xs),
      )
  verify_as-payload unknown v eps b st h look = absurd cc
