-- ===== src/CMake/Validator.antt =====
-- server_core/src/cmake_validator.cpp. The regular expressions are parameters: whether one is found
-- in a text, or the first group of each of its matches, in order.
use c_tests_runner.Base.{
  ℕ, ◌==◌, Bool, true, false, ◌&&◌, ◌||◌, Option, none, some, String, List, [], ◌∷◌, ◌++◌, map,
  if◌then◌else◌,
}
use c_tests_runner.CpuIsolator.Text.{is_space}
use c_tests_runner.Pipeline.{Validation}
use c_tests_runner.Pipeline.Steps.{tolower}
use c_tests_runner.CMake.{Text, codes, strip_cmake_comments}
use Prim.Native.String.{◌++◌ as ◌++ₛ◌}

pub record Commands : Type 0 where
  pub execute_process : Text → Bool
  pub file_transfer : Text → Option Text
  pub find_package : Text → List Text
  pub find_library : Text → List Text
  pub fetch_content_declare : Text → List Text
  pub external_project_add : Text → List Text
  pub fetch_content_make_available : Text → List Text
  pub target_link_libraries : Text → List Text

unfoldable pub same_text : Text → Text → Bool
same_text [] [] = true
same_text [] (d ∷ t) = false
same_text (c ∷ s) [] = false
same_text (c ∷ s) (d ∷ t) = (c == d) && same_text s t

unfoldable pub is_member : Text → List Text → Bool
unfolding same_text
is_member t [] = false
is_member t (u ∷ us) = same_text u t || is_member t us

abbrev pub to_lower : Text → Text
to_lower t = map tolower t

-- A word in front of the words of what follows: `open` while its end is not reached.
abbrev pub put_letter : ℕ → List Text × Bool → List Text × Bool
put_letter c (ws, false) = ((c ∷ []) ∷ ws, true)
put_letter c ([], true) = ((c ∷ []) ∷ [], true)
put_letter c (w ∷ ws, true) = ((c ∷ w) ∷ ws, true)

-- The words of a text, and whether it begins inside of the first.
unfoldable pub split_words : Text → List Text × Bool
split_words [] = ([], false)
split_words (c ∷ t) =
    let rest = split_words t in if is_space c then (rest.0, false) else put_letter c rest

-- The tokens that `>>` reads.
unfoldable pub tokens : Text → List Text
unfolding split_words
tokens t = (split_words t).0

-- find("::") != npos
unfoldable pub has_colons : Text → Bool
has_colons [] = false
has_colons (c ∷ []) = false
has_colons (c ∷ d ∷ t) = ((c == 58) && (d == 58)) || has_colons (d ∷ t)

-- token.front() == c
abbrev pub begins_with : ℕ → Text → Bool
begins_with c [] = false
begins_with c (d ∷ t) = d == c

unfoldable pub link_keywords : List Text
unfolding codes
link_keywords = codes "public" ∷ codes "private" ∷ codes "interface" ∷ []

unfoldable pub system_libs : List Text
unfolding codes
system_libs =
    codes "pthread"
    ∷ codes "m"
    ∷ codes "dl"
    ∷ codes "rt"
    ∷ codes "c"
    ∷ codes "stdc++"
    ∷ codes "gcc_s"
    ∷ codes "gomp"
    ∷ codes "atomic"
    ∷ []

abbrev pub reject : String → Validation → Validation
reject what r = record { valid = false; violations = r.violations ++ what ∷ [] }

unfoldable pub is_allowed : List Text → Text → Bool
unfolding is_member
is_allowed allowed_packages name = is_member (to_lower name) (map to_lower allowed_packages)

-- A token of target_link_libraries that is skipped.
unfoldable pub is_exempt : Text → Bool
unfolding is_member has_colons link_keywords system_libs
is_exempt token =
    is_member (to_lower token) link_keywords
    || (has_colons token
        || (begins_with 36 token
            || (begins_with 45 token || is_member (to_lower token) system_libs)))

-- The first token is the name of the target.
abbrev pub behind_first : List Text → List Text
behind_first [] = []
behind_first (target ∷ more) = more

abbrev pub check_process : Bool → Validation → Validation
check_process found r =
    if found then reject "execute_process() is not allowed in student solutions" r else r

abbrev pub check_transfer : (Text → String) → Option Text → Validation → Validation
check_transfer text none r = r
check_transfer text (some direction) r =
    reject ("file(" ++ₛ (text direction ++ₛ ") is not allowed in student solutions")) r

module _ (text : Text → String) (allowed_packages : List Text) where
  -- `check_first_arg`, over the names that were matched.
  unfoldable pub check_names : String → List Text → Validation → Validation
  unfolding is_allowed
  check_names command [] r = r
  check_names command (name ∷ names) r = check_names command names (
      if is_allowed allowed_packages name
      then r
      else reject (command ++ₛ ("(" ++ₛ (text name ++ₛ ") is not in the allowed library list"))) r)

  unfoldable pub check_available : List Text → Validation → Validation
  unfolding check_names tokens
  check_available [] r = r
  check_available (arguments ∷ more) r =
      check_available more (check_names "FetchContent_MakeAvailable" (tokens arguments) r)

  unfoldable pub check_links : List Text → Validation → Validation
  unfolding is_exempt is_allowed
  check_links [] r = r
  check_links (token ∷ more) r = check_links more (
      if is_exempt token || is_allowed allowed_packages token
      then r
      else reject
          ("target_link_libraries links \""
            ++ₛ (text token ++ₛ "\" which is not in the allowed library list"))
          r)

  unfoldable pub check_targets : List Text → Validation → Validation
  unfolding check_links tokens
  check_targets [] r = r
  check_targets (arguments ∷ more) r =
      check_targets more (check_links (behind_first (tokens arguments)) r)

  unfoldable pub check_content : Commands → Text → Validation
  unfolding check_names check_available check_targets
  check_content command content = check_targets (command.target_link_libraries content) (
      check_available (command.fetch_content_make_available content) (
        check_names "ExternalProject_Add" (command.external_project_add content) (
          check_names "FetchContent_Declare" (command.fetch_content_declare content) (
            check_names "find_library" (command.find_library content) (
              check_names "find_package" (command.find_package content) (
                check_transfer text (command.file_transfer content) (
                  check_process (command.execute_process content)
                    (record { valid = true; violations = [] }))))))))

  -- Nothing to validate where the file cannot be opened.
  unfoldable pub validate : Commands → Option Text → Validation
  unfolding check_content strip_cmake_comments
  validate command none = record { valid = true; violations = [] }
  validate command (some file) = check_content command (strip_cmake_comments file)
