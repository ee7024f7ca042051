-- ===== src/CMake/Runs.antt =====
-- The theorems about CMake files at a short file, `x # "` and `y`, and patterns that find OpenMP.
use c_tests_runner.Base.{◌≡◌, true, false, Option, none, some, String, List, [], ◌∷◌, if◌then◌else◌}
use c_tests_runner.CMake.{Text, strip_cmake_comments}
use c_tests_runner.CMake.Detector.{
  CMakeEntry, collect_cmake_text, Patterns, is_nil, match_cilk, match_parlay, match_openmp, detect,
}
use c_tests_runner.CMake.Validator.{Commands, validate}
use c_tests_runner.CMake.Decision.{only_one, Agrees, detect-table}
use c_tests_runner.CMake.Acceptance.{accepts, validate-accepts}

abbrev short_file : Text
short_file = 120 ∷ 32 ∷ 35 ∷ 32 ∷ 34 ∷ 10 ∷ 121 ∷ []

abbrev finds_openmp : Patterns
finds_openmp = record {
  fopencilk = λ t. false;
  parlay_word = λ t. false;
  find_openmp = λ t. true;
  openmp_target = λ t. false;
  parallel_lib_word = λ t. false;
}

abbrev solution : Option (List CMakeEntry)
solution = some (
    record {
      is_regular_file = true;
      filename = "CMakeLists.txt";
      extension = ".txt";
      content = some short_file;
    }
    ∷ [])

detect-table_example :
    let text = collect_cmake_text solution in
    let found =
      if is_nil text
      then none
      else only_one
          (match_cilk finds_openmp text)
          (match_parlay finds_openmp text)
          (match_openmp finds_openmp text) in
    Agrees ("openmp" ∷ []) found (detect finds_openmp "dir" solution ("openmp" ∷ []))
detect-table_example = detect-table finds_openmp "dir" solution ("openmp" ∷ [])

abbrev word_text : Text → String
word_text t = "word"

-- One package, and one call that links the target `x` with the library `y`.
abbrev two_commands : Commands
two_commands = record {
  execute_process = λ t. false;
  file_transfer = λ t. none;
  find_package = λ t. (121 ∷ []) ∷ [];
  find_library = λ t. [];
  fetch_content_declare = λ t. [];
  external_project_add = λ t. [];
  fetch_content_make_available = λ t. [];
  target_link_libraries = λ t. (120 ∷ 32 ∷ 121 ∷ []) ∷ [];
}

validate-accepts_example :
    let r = validate word_text ((121 ∷ []) ∷ []) two_commands (some short_file) in
    (r.valid ≡ accepts two_commands ((121 ∷ []) ∷ []) (strip_cmake_comments short_file))
    × (r.valid ≡ is_nil r.violations)
validate-accepts_example = validate-accepts word_text ((121 ∷ []) ∷ []) two_commands short_file
