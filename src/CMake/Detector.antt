-- ===== src/CMake/Detector.antt =====
-- server_core/src/framework_detector.cpp. The regular expressions are parameters: whether each is
-- found in a text.
use c_tests_runner.Base.{
  Bool, true, false, ◌&&◌, ◌||◌, Option, none, some, String, List, [], ◌∷◌, ◌++◌, ◌=ₛ◌,
  if◌then◌else◌,
}
use c_tests_runner.Base.Maps.{contains}
use c_tests_runner.Pipeline.{Detection}
use c_tests_runner.CMake.{Text, newline, strip_cmake_comments}
use Prim.Native.String.{◌++◌ as ◌++ₛ◌}

-- What the file system says of an entry under the solution: whether it is a regular file (false with
-- an error), its name and extension, and its bytes, none of them where it cannot be opened.
pub record CMakeEntry : Type 0 where
  pub is_regular_file : Bool
  pub filename : String
  pub extension : String
  pub content : Option Text

abbrev pub read_file : Option Text → Text
read_file none = []
read_file (some bytes) = bytes

unfoldable pub collect_entries : List CMakeEntry → Text
collect_entries [] = []
collect_entries (entry ∷ entries) =
    let rest = collect_entries entries in
    if entry.is_regular_file
      && ((entry.filename =ₛ "CMakeLists.txt") || (entry.extension =ₛ ".cmake"))
    then read_file entry.content ++ newline ∷ rest
    else rest

-- Nothing where the directory is missing.
unfoldable pub collect_cmake_text : Option (List CMakeEntry) → Text
unfolding collect_entries strip_cmake_comments
collect_cmake_text none = []
collect_cmake_text (some entries) = strip_cmake_comments (collect_entries entries)

pub record Patterns : Type 0 where
  pub fopencilk : Text → Bool
  pub parlay_word : Text → Bool
  pub find_openmp : Text → Bool
  pub openmp_target : Text → Bool
  pub parallel_lib_word : Text → Bool

unfoldable pub join_from : String → List String → String
join_from out [] = out
join_from out (name ∷ names) = join_from (out ++ₛ (", " ++ₛ name)) names

unfoldable pub join_names : List String → String
unfolding join_from
join_names [] = ""
join_names (name ∷ names) = join_from name names

abbrev pub rejected : String → Detection
rejected message = record { is_ok = false; framework = ""; error_message = message }

abbrev pub accepted : String → Detection
accepted framework = record { is_ok = true; framework = framework; error_message = "" }

abbrev pub is_nil : {A : Type 0} → List A → Bool
is_nil [] = true
is_nil (x ∷ xs) = false

module _ (pattern : Patterns) where
  abbrev pub match_cilk : Text → Bool
  match_cilk text = pattern.fopencilk text

  abbrev pub match_parlay : Text → Bool
  match_parlay text = pattern.parlay_word text

  abbrev pub match_openmp : Text → Bool
  match_openmp text =
      pattern.find_openmp text || (pattern.openmp_target text || pattern.parallel_lib_word text)

  unfoldable pub matched : Text → List String
  matched text =
      (if match_cilk text then "cilk" ∷ [] else [])
      ++ ((if match_parlay text then "parlay" ∷ [] else [])
          ++ (if match_openmp text then "openmp" ∷ [] else []))

-- The decision on what was matched.
unfoldable pub decide : List String → List String → Detection
decide [] allowed =
    if is_nil allowed || contains "none" allowed
    then accepted "none"
    else rejected (
        "No parallel framework detected in student CMake files, but this assignment requires one of: ["
        ++ₛ (join_names allowed ++ₛ "]. Add find_package(OpenMP), parlay marker, or -fopencilk."))
decide (detected ∷ []) allowed =
    if is_nil allowed
    then rejected (
        "Framework '"
        ++ₛ (detected
            ++ₛ "' detected, but this assignment forbids all parallel frameworks (allowedFrameworks is empty)."))
    else if contains detected allowed
    then accepted detected
    else rejected (
        "Framework '"
        ++ₛ (detected ++ₛ ("' is not in allowed list: [" ++ₛ (join_names allowed ++ₛ "]"))))
decide (first ∷ second ∷ more) allowed = rejected (
    "Multiple frameworks detected in student CMake files: "
    ++ₛ (join_names (first ∷ second ∷ more) ++ₛ ". Pick exactly one."))

unfoldable pub detect : Patterns → String → Option (List CMakeEntry) → List String → Detection
unfolding collect_cmake_text matched decide
detect pattern solution_dir entries allowed =
    let text = collect_cmake_text entries in
    if is_nil text
    then rejected ("No CMakeLists.txt or *.cmake files found in solution: " ++ₛ solution_dir)
    else decide (matched pattern text) allowed
