-- ===== src/Scenarios/Runs.antt =====
-- The theorems about the scenario loader at concrete inputs.
use c_tests_runner.Base.{
  ℕ, ◌≡◌, ◌^◌, ◌<◌, ◌⊎◌, refl, ltb, ◌==◌, true, false, String, [], ◌∷◌, length, ◌≤◌, arith,
  if◌then◌else◌,
}
use c_tests_runner.Base.Result.{ok, err}
use c_tests_runner.TestData.{Bytes}
use c_tests_runner.TestData.Nested.{pod}
use c_tests_runner.TestData.Fields.{max_length}
use c_tests_runner.TestData.Store.{Entries, bytes_lt}
use c_tests_runner.TestData.Typed.{write_value, write_array}
use c_tests_runner.Scenarios.{
  Json, Double, get_each, classify_value, write_as, write_json_to_test_data, write_members,
  setup_input,
}
use c_tests_runner.Scenarios.Verify.{passes, verify_members, verify_output}
use c_tests_runner.Scenarios.Load.{JsonScenario, Document, Paths, DirEntry, load_entries, has_name}
use c_tests_runner.Scenarios.Agreement.{JsonLaws, IsStorable}
use c_tests_runner.Scenarios.Echo.{
  FirstFailure, verify_output-setup_input, verify_members-FirstFailure,
}
use c_tests_runner.Scenarios.Registry.{Keeps, load_entries-Keeps}

-- Documents as numbers: those below 100 are integers, 100 is an array, 200 an object of two members.
abbrev numbered : Json ℕ (Unit {0})
numbered = record {
  is_number_integer = λ v. ltb v 100;
  is_number_float = λ v. false;
  is_boolean = λ v. false;
  is_string = λ v. false;
  is_array = λ v. v == 100;
  is_object = λ v. v == 200;
  elements = λ v. if v == 100 then 1 ∷ 2 ∷ [] else [];
  members = λ v. if v == 200 then (97 ∷ [], 1) ∷ (98 ∷ [], 100) ∷ [] else [];
  get_int = λ v. if ltb v 100 then ok v else err "type must be number";
  get_double = λ v. err "type must be number";
  get_bool = λ v. err "type must be boolean";
  get_string = λ v. err "type must be string";
}

abbrev one_double : Double (Unit {0})
one_double = record {
  bits = λ d. 0;
  of_bits = λ n. tt;
  equal = λ a b. true;
  at_most = λ a b. true;
  minus = λ a b. tt;
  times = λ a b. tt;
  fabs = λ a. tt;
  larger = λ a b. tt;
  show = λ a. "0";
}

abbrev key_text : Bytes → String
key_text k = "k"

below_hundred :
    (v n : ℕ) → (if ltb v 100 then ok v else err "type must be number") ≡ ok n → n < 256 ^ 8
below_hundred v n h = ground arith

numbered-JsonLaws : JsonLaws numbered one_double
numbered-JsonLaws = record {
  int_fits = below_hundred;
  not_nan = λ v d h. refl;
  bits_fit = λ d. omega arith;
  bits_back = λ d. refl;
}

no_string : (w : ℕ) (s : Bytes) → numbered.get_string w ≡ ok s → length s ≤ max_length
no_string w s h = absurd cc

integer-IsStorable : IsStorable numbered 1
integer-IsStorable = record { few = omega arith; short = no_string }

array-IsStorable : IsStorable numbered 100
array-IsStorable = record { few = omega arith; short = no_string }

abbrev echoed : Entries
echoed = write_array (pod 8) (98 ∷ []) (1 ∷ 2 ∷ []) (write_value (pod 8) (97 ∷ []) 1 [])

echoed_by_setup : setup_input numbered one_double key_text 200 [] ≡ ok echoed
unfolding setup_input write_members write_json_to_test_data write_as classify_value get_each
echoed_by_setup = refl

verify_output-setup_input_example :
    verify_output numbered one_double key_text 200 echoed tt ≡ passes
unfolding bytes_lt
verify_output-setup_input_example =
    verify_output-setup_input numbered one_double key_text numbered-JsonLaws tt 200 [] echoed
      ((refl, tt), (tt, tt)) (integer-IsStorable, (array-IsStorable, tt)) echoed_by_setup

abbrev number_name : ℕ → String
number_name n = if n == 0 then "sort" else "scan"

verify_members-FirstFailure_example :
    (verify_members numbered one_double key_text (numbered.members 200) [] tt ≡ passes)
    ⊎ ((message : String) × (verify_members numbered one_double key_text
            (numbered.members 200)
            []
            tt
          ≡ (false, message))
        × FirstFailure numbered one_double key_text (numbered.members 200) [] tt message)
verify_members-FirstFailure_example =
    verify_members-FirstFailure numbered one_double key_text (numbered.members 200) [] tt

-- Documents that have every key, and paths that are absolute.
abbrev permissive : Document ℕ (Unit {0})
permissive = record {
  at = λ k v. if v == 7 then err "key not found" else ok v;
  contains_key = λ k v. false;
  text_of = λ v. ok "sort";
  items = λ v. v ∷ [];
  object_or = λ k v. ok v;
  epsilon_or = λ v. ok tt;
}

abbrev rooted : Paths
rooted = record { is_relative = λ p. false; join = λ d p. p; canonical = λ p. ok p }

abbrev json_file : ℕ → DirEntry ℕ
json_file n = record {
  is_regular_file = true;
  extension = ".json";
  parent_path = "cases";
  content = ok n;
}

abbrev always : JsonScenario ℕ (Unit {0}) → ℕ
always s = 0

load_entries-Keeps_example :
    Keeps number_name
      (1 ∷ [])
      (load_entries permissive rooted number_name always (json_file 1 ∷ json_file 7 ∷ []) (1 ∷ []))
unfolding has_name
load_entries-Keeps_example =
    load_entries-Keeps permissive rooted number_name always (json_file 1 ∷ json_file 7 ∷ [])
      (1 ∷ []) (refl, tt)
