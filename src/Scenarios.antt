-- ===== src/Scenarios.antt =====
-- server_core/src/json_scenario_loader.cpp: JSON values as entries of a TestData. `nlohmann::json`
-- and `double` are interfaces; a `long long` is its 64 bits, as a number below 2^64.
pub mod Verify
pub mod Load
pub mod Payloads
pub mod Agreement
pub mod Echo
pub mod Registry
mod Runs
use c_tests_runner.Base.{ℕ, Bool, ◌==◌, String, List, [], ◌∷◌, map, if◌then◌else◌}
use c_tests_runner.Base.Result.{Result, ok, err, ◌>>=◌}
use c_tests_runner.TestData.{Bytes}
use c_tests_runner.TestData.Nested.{pod, bool as bool_shape, byte_of_bool}
use c_tests_runner.TestData.Store.{Entries}
use c_tests_runner.TestData.Typed.{write_value, write_array, write_string, write_strings_at}
use Prim.Native.String.{◌++◌ as ◌++ₛ◌}

-- What the loader uses of a JSON value. `elements` are those of an array, `members` those of an
-- object in the order of iteration, and the getters throw on a value of another type.
pub record Json (J D : Type 0) : Type 0 where
  pub is_number_integer : J → Bool
  pub is_number_float : J → Bool
  pub is_boolean : J → Bool
  pub is_string : J → Bool
  pub is_array : J → Bool
  pub is_object : J → Bool
  pub elements : J → List J
  pub members : J → List (Bytes × J)
  pub get_int : J → Result ℕ
  pub get_double : J → Result D
  pub get_bool : J → Result Bool
  pub get_string : J → Result Bytes

-- The operations of `double`: its 64 bits, the arithmetic of the comparison, and std::to_string.
pub record Double (D : Type 0) : Type 0 where
  pub bits : D → ℕ
  pub of_bits : ℕ → D
  pub equal : D → D → Bool
  pub at_most : D → D → Bool
  pub minus : D → D → D
  pub times : D → D → D
  pub fabs : D → D
  pub larger : D → D → D
  pub show : D → String

pub data JsonKind : Type 0 where
  unknown : JsonKind
  int : JsonKind
  double : JsonKind
  bool : JsonKind
  string : JsonKind
  int_array : JsonKind
  double_array : JsonKind
  bool_array : JsonKind
  string_array : JsonKind
  empty_array : JsonKind

-- get<std::vector<T>>: the elements in order, up to the first that throws.
unfoldable pub get_each : {J A : Type 0} → (J → Result A) → List J → Result (List A)
get_each get [] = ok []
get_each get (v ∷ vs) = do x ← get v; xs ← get_each get vs; ok (x ∷ xs)

module _ {J D : Type 0} (json : Json J D) where
  -- An array has the kind of its first element.
  abbrev pub kind_of_array : List J → JsonKind
  kind_of_array [] = empty_array
  kind_of_array (first ∷ rest) =
      if json.is_number_integer first
      then int_array
      else if json.is_number_float first
      then double_array
      else if json.is_boolean first
      then bool_array
      else if json.is_string first
      then string_array
      else unknown

  unfoldable pub classify_value : J → JsonKind
  classify_value v =
      if json.is_number_integer v
      then int
      else if json.is_number_float v
      then double
      else if json.is_boolean v
      then bool
      else if json.is_string v
      then string
      else if json.is_array v
      then kind_of_array (json.elements v)
      else unknown

module _ {J D : Type 0} (json : Json J D) (real : Double D) (text : Bytes → String) where
  abbrev pub write_ints : Bytes → J → Entries → Result Entries
  write_ints key v td =
      get_each json.get_int (json.elements v) >>= λ xs. ok (write_array (pod 8) key xs td)

  -- The switch of `write_json_to_test_data`.
  unfoldable pub write_as : JsonKind → Bytes → J → Entries → Result Entries
  write_as int key v td = json.get_int v >>= λ x. ok (write_value (pod 8) key x td)
  write_as double key v td =
      json.get_double v >>= λ x. ok (write_value (pod 8) key (real.bits x) td)
  write_as bool key v td = json.get_bool v >>= λ x. ok (write_value bool_shape key x td)
  write_as string key v td = json.get_string v >>= λ x. ok (write_string key x td)
  write_as int_array key v td = write_ints key v td
  write_as empty_array key v td = write_ints key v td
  write_as double_array key v td = get_each json.get_double (json.elements v) >>= λ xs.
      ok (write_array (pod 8) key (map real.bits xs) td)
  write_as bool_array key v td = get_each json.get_bool (json.elements v) >>= λ xs.
      ok (write_array (pod 1) key (map byte_of_bool xs) td)
  write_as string_array key v td =
      get_each json.get_string (json.elements v) >>= λ xs. ok (write_strings_at key xs td)
  write_as unknown key v td =
      err ("JSON scenario: unsupported type for key '" ++ₛ (text key ++ₛ "'"))

  unfoldable pub write_json_to_test_data : Bytes → J → Entries → Result Entries
  unfolding write_as
  write_json_to_test_data key v td = write_as (classify_value json v) key v td

  -- The loop of a test's setup, up to the first member that throws.
  unfoldable pub write_members : List (Bytes × J) → Entries → Result Entries
  unfolding write_json_to_test_data
  write_members [] td = ok td
  write_members ((key, v) ∷ ms) td =
      write_json_to_test_data key v td >>= λ written. write_members ms written

  unfoldable pub setup_input : J → Entries → Result Entries
  unfolding write_members
  setup_input input td =
      if json.is_object input
      then write_members (json.members input) td
      else err "JSON scenario: 'input' must be an object"
