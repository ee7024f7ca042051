-- ===== src/Scenarios/Verify.antt =====
-- server_core/src/json_scenario_loader.cpp: the comparison of a test's output with the expected
-- JSON. A verdict is whether it passes, with a message.
use c_tests_runner.Base.{
  ℕ, ◌+◌, ◌-◌, ◌^◌, Bool, true, false, not, ◌&&◌, ◌==◌, ltb, String, List, [], ◌∷◌, length, map,
  if◌then◌else◌,
}
use c_tests_runner.Base.Result.{Result, ok, err, ◌>>=◌}
use c_tests_runner.CpuIsolator.Text.{decimal, dash}
use c_tests_runner.TestData.{Bytes}
use c_tests_runner.TestData.Nested.{pod, bool as bool_shape, bool_of_byte}
use c_tests_runner.TestData.Store.{Entries, same}
use c_tests_runner.TestData.Typed.{contains, read_value, read_array, read_string, read_strings_at}
use c_tests_runner.Scenarios.{
  Json, Double, JsonKind, unknown, int, double, bool, string, int_array, double_array, bool_array,
  string_array, empty_array, get_each, classify_value,
}
use Prim.Native.String.{◌++◌}

abbrev pub Verdict : Type 0
Verdict = Bool × String

abbrev pub passes : Verdict
passes = (true, "")

abbrev pub same_bool : Bool → Bool → Bool
same_bool true b = b
same_bool false b = not b

abbrev pub bool_text : Bool → String
bool_text b = if b then "true" else "false"

unfoldable pub equal_lists : {A : Type 0} → (A → A → Bool) → List A → List A → Bool
equal_lists eq [] [] = true
equal_lists eq [] (y ∷ ys) = false
equal_lists eq (x ∷ xs) [] = false
equal_lists eq (x ∷ xs) (y ∷ ys) = eq x y && equal_lists eq xs ys

unfoldable pub doubles_equal : {D : Type 0} → Double D → D → D → D → Bool
doubles_equal real a b epsilon =
    let diff = real.fabs (real.minus a b) in
    if real.equal a b
    then true
    else if real.at_most diff epsilon
    then true
    else real.at_most diff (real.times epsilon (real.larger (real.fabs a) (real.fabs b)))

module _ (text : Bytes → String) where
  -- std::to_string of a std::size_t, and of a long long.
  abbrev pub size_text : ℕ → String
  size_text n = text (decimal n)

  abbrev pub long_text : ℕ → String
  long_text n = if ltb n (2 ^ 63) then text (decimal n) else text (dash ∷ decimal (2 ^ 64 - n))

  abbrev pub quoted : Bytes → String
  quoted s = "\"" ++ (text s ++ "\"")

  abbrev pub field_text : Bytes → String
  field_text key = "Field '" ++ (text key ++ "': ")

  abbrev pub differs : Bytes → String → String → Verdict
  differs key e a = (false, field_text key ++ ("expected " ++ (e ++ (", got " ++ a))))

  abbrev pub size_mismatch : Bytes → ℕ → ℕ → Verdict
  size_mismatch key e a = (
    false,
    field_text key
        ++ ("size mismatch (expected " ++ (size_text e ++ (", got " ++ (size_text a ++ ")")))),
  )

  abbrev pub mismatch_message : Bytes → ℕ → String → String → String
  mismatch_message key i e a =
      field_text key
      ++ ("mismatch at index " ++ (size_text i ++ (": expected " ++ (e ++ (", got " ++ a)))))

  module _ {A : Type 0} (eq : A → A → Bool) (show : A → String) where
    -- The loop over two arrays of one size, from the index `i` on: the expected and the actual.
    unfoldable pub compare_from : Bytes → ℕ → List A → List A → Verdict
    compare_from key i [] got = passes
    compare_from key i (e ∷ es) [] = passes
    compare_from key i (e ∷ es) (a ∷ got) =
        let later = compare_from key (i + 1) es got in
        if eq e a then later else (false, mismatch_message key i (show e) (show a))

    unfoldable pub compare_array : Bytes → List A → List A → Verdict
    unfolding compare_from
    compare_array key es got =
        if length got == length es
        then compare_from key 0 es got
        else size_mismatch key (length es) (length got)

module _ {J D : Type 0} (json : Json J D) (real : Double D) (text : Bytes → String) where
  unfoldable pub compare_double_array : Bytes → List D → List D → D → Verdict
  unfolding compare_array
  compare_double_array key expected actual eps =
      compare_array text (λ e a. doubles_equal real e a eps) real.show key expected actual

  unfoldable pub verify_ints : Bytes → J → Entries → Result Verdict
  verify_ints key expected output = do
    e ← get_each json.get_int (json.elements expected)
    a ← read_array text (pod 8) key output
    ok (
        if equal_lists (λ x y. x == y) a e
        then passes
        else compare_array text (λ x y. x == y) (long_text text) key e a)

  -- The switch of `verify_json_against_output`.
  unfoldable pub verify_as : JsonKind → Bytes → J → Entries → D → Result Verdict
  unfolding verify_ints
  verify_as int key expected output eps = do
    e ← json.get_int expected
    a ← read_value text (pod 8) key output
    ok (if a == e then passes else differs text key (long_text text e) (long_text text a))
  verify_as double key expected output eps = do
    e ← json.get_double expected
    a ← read_value text (pod 8) key output
    ok (
        if doubles_equal real e (real.of_bits a) eps
        then passes
        else differs text key (real.show e) (real.show (real.of_bits a)))
  verify_as bool key expected output eps = do
    e ← json.get_bool expected
    a ← read_value text bool_shape key output
    ok (if same_bool a e then passes else differs text key (bool_text e) (bool_text a))
  verify_as string key expected output eps = do
    e ← json.get_string expected
    a ← read_string text key output
    ok (if same a e then passes else differs text key (quoted text e) (quoted text a))
  verify_as int_array key expected output eps = verify_ints key expected output
  verify_as empty_array key expected output eps = verify_ints key expected output
  verify_as double_array key expected output eps = do
    e ← get_each json.get_double (json.elements expected)
    a ← read_array text (pod 8) key output
    ok (compare_double_array key e (map real.of_bits a) eps)
  verify_as bool_array key expected output eps = do
    e ← get_each json.get_bool (json.elements expected)
    a ← read_array text (pod 1) key output
    ok (compare_array text same_bool bool_text key e (map bool_of_byte a))
  verify_as string_array key expected output eps = do
    e ← get_each json.get_string (json.elements expected)
    a ← read_strings_at text key output
    ok (compare_array text same (quoted text) key e a)
  verify_as unknown key expected output eps =
      ok (false, field_text text key ++ "unsupported expected type")

  -- The handler: an exception is a failure with its text.
  abbrev pub caught : Bytes → Result Verdict → Verdict
  caught key (ok verdict) = verdict
  caught key (err what) = (false, field_text text key ++ what)

  unfoldable pub verify_json_against_output : Bytes → J → Entries → D → Verdict
  unfolding verify_as
  verify_json_against_output key expected output eps =
      if contains key output
      then caught key (verify_as (classify_value json expected) key expected output eps)
      else (false, "Output is missing key '" ++ (text key ++ "'"))

  -- The loop of a test's verifier: the first member that fails decides.
  unfoldable pub verify_members : List (Bytes × J) → Entries → D → Verdict
  verify_members [] output eps = passes
  verify_members ((key, v) ∷ ms) output eps =
      let verdict = verify_json_against_output key v output eps in
      let later = verify_members ms output eps in if verdict.0 then later else (false, verdict.1)

  unfoldable pub verify_output : J → Entries → D → Verdict
  verify_output expected output eps =
      if json.is_object expected then verify_members (json.members expected) output eps else passes
