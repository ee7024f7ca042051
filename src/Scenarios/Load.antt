-- ===== src/Scenarios/Load.antt =====
-- server_core/src/json_scenario_loader.cpp: `JsonScenarioLoader::load` and the tests that a loaded
-- scenario makes; test_engine/src: class `Test` and the registry of scenarios. A scenario of the
-- registry is a value of the type `S`, which a loaded file becomes by `scenario_of`.
use c_tests_runner.Base.{
  Bool, true, false, not, ◌&&◌, Option, none, some, String, List, [], ◌∷◌, ◌++◌, ◌=ₛ◌,
  if◌then◌else◌,
}
use c_tests_runner.Base.Result.{Result, ok, err, ◌>>=◌}
use c_tests_runner.TestData.{Bytes}
use c_tests_runner.TestData.Store.{Entries}
use c_tests_runner.Scenarios.{Json, Double, setup_input}
use c_tests_runner.Scenarios.Verify.{Verdict, passes, verify_output}

pub data ScenarioType : Type 0 where
  correctness : ScenarioType
  performance : ScenarioType

pub record TestDef (J D : Type 0) : Type 0 where
  pub name : String
  pub input : J
  pub output : J
  pub epsilon : D
  pub input_file : String
  pub expected_output_file : String

pub record JsonScenario (J D : Type 0) : Type 0 where
  pub name : String
  pub scenario_type : ScenarioType
  pub defs : List (TestDef J D)

-- What the loader asks of a parsed file: `at` and `value` throw as documented, `items` are what a
-- range-based loop visits, and `epsilon_or` and `object_or` are `value` with their fallbacks.
pub record Document (J D : Type 0) : Type 0 where
  pub at : String → J → Result J
  pub contains_key : String → J → Bool
  pub text_of : J → Result String
  pub items : J → List J
  pub object_or : String → J → Result J
  pub epsilon_or : J → Result D

-- std::filesystem: paths, and `weakly_canonical`, which throws where the system fails.
pub record Paths : Type 0 where
  pub is_relative : String → Bool
  pub join : String → String → String
  pub canonical : String → Result String

-- Setup and verification are absent where a file stands in for them.
pub record Test (D : Type 0) : Type 0 where
  pub test_name : String
  pub raw_input_path : String
  pub expected_output_path : String
  pub setup_fn : Option (Entries → Result Entries)
  pub verify_fn : Option (Entries → Entries → Verdict)

module _ {D : Type 0} where
  abbrev pub has_raw_input : Test D → Bool
  has_raw_input t = not (t.raw_input_path =ₛ "")

  abbrev pub has_expected_output : Test D → Bool
  has_expected_output t = not (t.expected_output_path =ₛ "")

  unfoldable pub setup : Test D → Entries → Result Entries
  setup t input = elim t.setup_fn [ none ↦ ok input | some f ↦ f input ]

  unfoldable pub verify : Test D → Entries → Entries → Verdict
  verify t input output = elim t.verify_fn [ none ↦ passes | some f ↦ f input output ]

module _ {J D : Type 0} (json : Json J D) (real : Double D) (text : Bytes → String) where
  unfoldable pub make_test : TestDef J D → Test D
  make_test def = record {
    test_name = def.name;
    raw_input_path = def.input_file;
    expected_output_path = def.expected_output_file;
    setup_fn =
        if def.input_file =ₛ "" then some (λ td. setup_input json real text def.input td) else none;
    verify_fn =
        if def.expected_output_file =ₛ ""
        then some (λ td out. verify_output json real text def.output out def.epsilon)
        else none;
  }

  unfoldable pub get_tests : List (TestDef J D) → List (Test D)
  unfolding make_test
  get_tests [] = []
  get_tests (def ∷ defs) = make_test def ∷ get_tests defs

module _ {J D : Type 0} (doc : Document J D) (paths : Paths) where
  -- An optional path of a test, relative to the directory of the file.
  unfoldable pub read_path : String → String → J → Result String
  read_path json_dir key t =
      if doc.contains_key key t
      then (doc.at key t >>= λ v. doc.text_of v >>= λ p.
          paths.canonical (if paths.is_relative p then paths.join json_dir p else p))
      else ok ""

  unfoldable pub parse_def : String → J → Result (TestDef J D)
  unfolding read_path
  parse_def json_dir t = do
    n ← doc.at "name" t
    name ← doc.text_of n
    input ← doc.object_or "input" t
    output ← doc.object_or "output" t
    epsilon ← doc.epsilon_or t
    input_file ← read_path json_dir "input_file" t
    expected_output_file ← read_path json_dir "expected_output_file" t
    ok (record {
      name = name;
      input = input;
      output = output;
      epsilon = epsilon;
      input_file = input_file;
      expected_output_file = expected_output_file;
    })

  unfoldable pub parse_defs : String → List J → Result (List (TestDef J D))
  unfolding parse_def
  parse_defs json_dir [] = ok []
  parse_defs json_dir (t ∷ ts) = do
    def ← parse_def json_dir t
    defs ← parse_defs json_dir ts
    ok (def ∷ defs)

  unfoldable pub parse_type : J → Result ScenarioType
  parse_type j =
      if doc.contains_key "type" j
      then (doc.at "type" j >>= λ v.
          doc.text_of v >>= λ t. ok (if t =ₛ "performance" then performance else correctness))
      else ok correctness

  unfoldable pub parse_scenario : String → J → Result (JsonScenario J D)
  unfolding parse_defs parse_type
  parse_scenario json_dir j = do
    n ← doc.at "name" j
    name ← doc.text_of n
    kind ← parse_type j
    tests ← doc.at "tests" j
    defs ← parse_defs json_dir (doc.items tests)
    ok (record { name = name; scenario_type = kind; defs = defs })

module _ {S : Type 0} (name_of : S → String) where
  unfoldable pub has_name : String → List S → Bool
  has_name name [] = false
  has_name name (s ∷ ss) = if name_of s =ₛ name then true else has_name name ss

  -- TestRegistry::register_test of a scenario: the list afterwards, and whether it was added.
  unfoldable pub register_test : S → List S → List S × Bool
  unfolding has_name
  register_test s tests =
      if has_name (name_of s) tests then (tests, false) else (tests ++ s ∷ [], true)

-- What the file system says of an entry of the directory: whether it is a regular file (false with
-- an error), its extension, its own directory, and the document in it.
pub record DirEntry (J : Type 0) : Type 0 where
  pub is_regular_file : Bool
  pub extension : String
  pub parent_path : String
  pub content : Result J

module _ {J D S : Type 0} (doc : Document J D) (paths : Paths) (name_of : S → String)
    (scenario_of : JsonScenario J D → S) where
  -- A file that throws is skipped: nothing of it is registered.
  unfoldable pub register_parsed : Result (JsonScenario J D) → List S → List S
  unfolding register_test
  register_parsed (err what) tests = tests
  register_parsed (ok scenario) tests = (register_test name_of (scenario_of scenario) tests).0

  unfoldable pub load_file : DirEntry J → List S → List S
  unfolding parse_scenario register_parsed
  load_file entry tests =
      register_parsed (entry.content >>= λ j. parse_scenario doc paths entry.parent_path j) tests

  unfoldable pub load_entries : List (DirEntry J) → List S → List S
  unfolding load_file
  load_entries [] tests = tests
  load_entries (entry ∷ entries) tests =
      let found = entry.is_regular_file && (entry.extension =ₛ ".json") in
      load_entries entries (if found then load_file entry tests else tests)

  -- Nothing where `cases` is missing or no directory.
  unfoldable pub load_cases : Option (List (DirEntry J)) → List S → List S
  unfolding load_entries
  load_cases none tests = tests
  load_cases (some entries) tests = load_entries entries tests
