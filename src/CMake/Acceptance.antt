-- ===== src/CMake/Acceptance.antt =====
-- What the CMake validator accepts, against a description without state.
use c_tests_runner.Base.{
  ◌≡◌, refl, ap, sym, ◌∙◌, Bool, true, false, not, ◌&&◌, ◌||◌, Option, none, some, String, List, [],
  ◌∷◌, ◌++◌, if◌then◌else◌,
}
use c_tests_runner.Pipeline.{Validation}
use c_tests_runner.CMake.{Text, strip_cmake_comments}
use c_tests_runner.CMake.Detector.{is_nil}
use c_tests_runner.CMake.Validator.{
  Commands, tokens, reject, is_allowed, check_names, check_available, is_exempt, check_links,
  behind_first, check_targets, check_process, check_transfer, check_content, validate,
}
use Prim.Native.String.{◌++◌ as ◌++ₛ◌}

-- A step of the validator: it keeps the verdict if a test passes and rejects otherwise, and the
-- verdict is that nothing was rejected.
abbrev pub Tracks : Bool → Validation → Validation → Type 0
Tracks passes old new = (new.valid ≡ (old.valid && passes)) × (new.valid ≡ is_nil new.violations)

abbrev pub IsHonest : Validation → Type 0
IsHonest r = r.valid ≡ is_nil r.violations

is_nil-snoc : (what : String) (ss : List String) → is_nil (ss ++ what ∷ []) ≡ false
is_nil-snoc what [] = refl
is_nil-snoc what (s ∷ ss) = refl

and_false : (b : Bool) → (b && false) ≡ false
and_false true = refl
and_false false = refl

and_true : (b : Bool) → (b && true) ≡ b
and_true true = refl
and_true false = refl

step-Tracks :
    (passes : Bool) (what : String) (r : Validation)
    → IsHonest r
    → Tracks passes r (if passes then r else reject what r)
step-Tracks true what r h = (sym (and_true r.valid), h)
step-Tracks false what r h = (sym (and_false r.valid), sym (is_nil-snoc what r.violations))

chain-Tracks :
    (b c : Bool) (r₁ r₂ r₃ : Validation) → Tracks b r₁ r₂ → Tracks c r₂ r₃ → Tracks (b && c) r₁ r₃
chain-Tracks true c r₁ r₂ r₃ (e, f) (g, h) = (g ∙ ap (λ v. v && c) (e ∙ and_true r₁.valid), h)
chain-Tracks false c r₁ r₂ r₃ (e, f) (g, h) =
    (g ∙ ap (λ v. v && c) (e ∙ and_false r₁.valid) ∙ sym (and_false r₁.valid), h)

abbrev pub no_transfer : Option Text → Bool
no_transfer none = true
no_transfer (some t) = false

abbrev pub all_pass : (Text → Bool) → List Text → Bool
all_pass p [] = true
all_pass p (t ∷ ts) = p t && all_pass p ts

-- A token that may be linked.
abbrev pub may_link : List Text → Text → Bool
may_link packages token = is_exempt token || is_allowed packages token

abbrev pub all_available : List Text → List Text → Bool
all_available packages calls =
    all_pass (λ c. all_pass (λ n. is_allowed packages n) (tokens c)) calls

abbrev pub all_linked : List Text → List Text → Bool
all_linked packages calls =
    all_pass (λ c. all_pass (λ n. may_link packages n) (behind_first (tokens c))) calls

module _ (text : Text → String) (packages : List Text) where
  check_names-Tracks :
      (command : String) (names : List Text) (r : Validation)
      → IsHonest r
      → Tracks
          (all_pass (λ n. is_allowed packages n) names)
          r
          (check_names text packages command names r)
  unfolding check_names
  check_names-Tracks command [] r h = (sym (and_true r.valid), h)
  check_names-Tracks command (name ∷ names) r h =
      let what = command ++ₛ ("(" ++ₛ (text name ++ₛ ") is not in the allowed library list")) in
      let passes = is_allowed packages name in
      let next = if passes then r else reject what r in
      let one = step-Tracks passes what r h in
      chain-Tracks passes (all_pass (λ n. is_allowed packages n) names) r next
        (check_names text packages command names next) one
        (check_names-Tracks command names next one.1)

  check_links-Tracks :
      (names : List Text) (r : Validation)
      → IsHonest r
      → Tracks (all_pass (λ n. may_link packages n) names) r (check_links text packages names r)
  unfolding check_links
  check_links-Tracks [] r h = (sym (and_true r.valid), h)
  check_links-Tracks (name ∷ names) r h =
      let what =
        "target_link_libraries links \""
        ++ₛ (text name ++ₛ "\" which is not in the allowed library list") in
      let passes = may_link packages name in
      let next = if passes then r else reject what r in
      let one = step-Tracks passes what r h in
      chain-Tracks passes (all_pass (λ n. may_link packages n) names) r next
        (check_links text packages names next) one (check_links-Tracks names next one.1)

  check_available-Tracks :
      (calls : List Text) (r : Validation)
      → IsHonest r
      → Tracks (all_available packages calls) r (check_available text packages calls r)
  unfolding check_available
  check_available-Tracks [] r h = (sym (and_true r.valid), h)
  check_available-Tracks (c ∷ calls) r h =
      let next = check_names text packages "FetchContent_MakeAvailable" (tokens c) r in
      let one = check_names-Tracks "FetchContent_MakeAvailable" (tokens c) r h in
      chain-Tracks (all_pass (λ n. is_allowed packages n) (tokens c)) (all_available packages calls)
        r next (check_available text packages calls next) one
        (check_available-Tracks calls next one.1)

  check_targets-Tracks :
      (calls : List Text) (r : Validation)
      → IsHonest r
      → Tracks (all_linked packages calls) r (check_targets text packages calls r)
  unfolding check_targets
  check_targets-Tracks [] r h = (sym (and_true r.valid), h)
  check_targets-Tracks (c ∷ calls) r h =
      let next = check_links text packages (behind_first (tokens c)) r in
      let one = check_links-Tracks (behind_first (tokens c)) r h in
      chain-Tracks (all_pass (λ n. may_link packages n) (behind_first (tokens c)))
        (all_linked packages calls) r next (check_targets text packages calls next) one
        (check_targets-Tracks calls next one.1)

  check_transfer-Tracks :
      (t : Option Text) (r : Validation)
      → IsHonest r
      → Tracks (no_transfer t) r (check_transfer text t r)
  check_transfer-Tracks none r h = (sym (and_true r.valid), h)
  check_transfer-Tracks (some t) r h =
      step-Tracks false ("file(" ++ₛ (text t ++ₛ ") is not allowed in student solutions")) r h

check_process-Tracks :
    (found : Bool) (r : Validation) → IsHonest r → Tracks (not found) r (check_process found r)
check_process-Tracks true r h =
    step-Tracks false "execute_process() is not allowed in student solutions" r h
check_process-Tracks false r h = step-Tracks true "" r h

-- What a content must be like: no execute_process and no file transfer, and every name that a
-- command brings in is allowed.
abbrev pub accepts : Commands → List Text → Text → Bool
accepts command packages content =
    not (command.execute_process content)
    && no_transfer (command.file_transfer content)
    && all_pass (λ n. is_allowed packages n) (command.find_package content)
    && all_pass (λ n. is_allowed packages n) (command.find_library content)
    && all_pass (λ n. is_allowed packages n) (command.fetch_content_declare content)
    && all_pass (λ n. is_allowed packages n) (command.external_project_add content)
    && all_available packages (command.fetch_content_make_available content)
    && all_linked packages (command.target_link_libraries content)

module _ (text : Text → String) (packages : List Text) where
  -- A file that can be opened is valid exactly if its text without comments runs no process and
  -- transfers no file, every package, library or external project that it names is allowed, and
  -- every token that a target links behind its name is exempt or allowed; and it is valid exactly if
  -- no violation is reported. (What the commands match in a text is any functions.)
  pub validate-accepts :
      (command : Commands) (file : Text)
      → let r = validate text packages command (some file) in
        (r.valid ≡ accepts command packages (strip_cmake_comments file))
        × (r.valid ≡ is_nil r.violations)
  unfolding validate check_content
  validate-accepts command file =
      let content = strip_cmake_comments file in
      let names_pass = (λ (names : List Text). all_pass (λ n. is_allowed packages n) names) in
      let r₀ : Validation = record { valid = true; violations = [] } in
      let r₁ = check_process (command.execute_process content) r₀ in
      let t₁ = check_process-Tracks (command.execute_process content) r₀ refl in
      let r₂ = check_transfer text (command.file_transfer content) r₁ in
      let t₂ = check_transfer-Tracks text packages (command.file_transfer content) r₁ t₁.1 in
      let r₃ = check_names text packages "find_package" (command.find_package content) r₂ in
      let t₃ =
        check_names-Tracks text packages "find_package" (command.find_package content) r₂ t₂.1 in
      let r₄ = check_names text packages "find_library" (command.find_library content) r₃ in
      let t₄ =
        check_names-Tracks text packages "find_library" (command.find_library content) r₃ t₃.1 in
      let r₅ =
        check_names text packages "FetchContent_Declare" (command.fetch_content_declare content)
          r₄ in
      let t₅ =
        check_names-Tracks text packages "FetchContent_Declare"
          (command.fetch_content_declare content) r₄ t₄.1 in
      let r₆ =
        check_names text packages "ExternalProject_Add" (command.external_project_add content) r₅ in
      let t₆ =
        check_names-Tracks text packages "ExternalProject_Add"
          (command.external_project_add content) r₅ t₅.1 in
      let r₇ = check_available text packages (command.fetch_content_make_available content) r₆ in
      let t₇ =
        check_available-Tracks text packages (command.fetch_content_make_available content) r₆
          t₆.1 in
      let r₈ = check_targets text packages (command.target_link_libraries content) r₇ in
      let t₈ = check_targets-Tracks text packages (command.target_link_libraries content) r₇ t₇.1 in
      (
        t₈.0
            ∙ ap (λ v. v && all_linked packages (command.target_link_libraries content))
                (t₇.0
                  ∙ ap
                      (λ v.
                        v && all_available packages (command.fetch_content_make_available content))
                      (t₆.0
                        ∙ ap (λ v. v && names_pass (command.external_project_add content))
                            (t₅.0
                              ∙ ap (λ v. v && names_pass (command.fetch_content_declare content))
                                  (t₄.0
                                    ∙ ap (λ v. v && names_pass (command.find_library content))
                                        (t₃.0
                                          ∙ ap (λ v. v && names_pass (command.find_package content))
                                              (t₂.0
                                                ∙ ap
                                                    (λ v.
                                                      v
                                                      && no_transfer
                                                          (command.file_transfer content))
                                                    (t₁.0))))))),
        t₈.1,
      )
