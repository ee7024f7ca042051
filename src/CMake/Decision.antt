-- ===== src/CMake/Decision.antt =====
-- What the framework detector decides, against a table.
use c_tests_runner.Base.{
  ◌≡◌, refl, Bool, true, false, Bool-cases, inl, inr, Option, none, some, String, List, [], ◌∷◌,
  ◌++◌, ◌=ₛ◌, if◌then◌else◌,
}
use c_tests_runner.Base.Maps.{contains}
use c_tests_runner.Pipeline.{Detection}
use c_tests_runner.CMake.Detector.{
  CMakeEntry, collect_cmake_text, Patterns, is_nil, accepted, rejected, match_cilk, match_parlay,
  match_openmp, matched, decide, detect,
}

-- The one framework that three tests name: "none" where no test does, nothing where several do.
abbrev pub only_one : Bool → Bool → Bool → Option String
only_one true false false = some "cilk"
only_one false true false = some "parlay"
only_one false false true = some "openmp"
only_one false false false = some "none"
only_one true true openmp = none
only_one true false true = none
only_one false true true = none

-- Whether an assignment permits it: an empty list forbids all frameworks but "none".
abbrev pub permits : List String → Option String → Bool
permits allowed none = false
permits [] (some framework) = framework =ₛ "none"
permits (a ∷ allowed) (some framework) = contains framework (a ∷ allowed)

abbrev pub named : Option String → Bool → String
named none b = ""
named (some framework) b = if b then framework else ""

-- The decision as a table.
abbrev pub Agrees : List String → Option String → Detection → Type 0
Agrees allowed found d =
    (d.is_ok ≡ permits allowed found) × (d.framework ≡ named found (permits allowed found))

choice-Agrees :
    (b : Bool) (f message : String)
    → ((if b then accepted f else rejected message).is_ok ≡ b)
      × ((if b then accepted f else rejected message).framework ≡ (if b then f else ""))
choice-Agrees true f message = (refl, refl)
choice-Agrees false f message = (refl, refl)

decide-Agrees :
    (c p o : Bool) (allowed : List String)
    → Agrees allowed (only_one c p o) (
        decide
          ((if c then "cilk" ∷ [] else [])
            ++ ((if p then "parlay" ∷ [] else []) ++ (if o then "openmp" ∷ [] else [])))
          allowed)
unfolding decide
decide-Agrees true true true allowed = (refl, refl)
decide-Agrees true true false allowed = (refl, refl)
decide-Agrees true false true allowed = (refl, refl)
decide-Agrees false true true allowed = (refl, refl)
decide-Agrees true false false [] = (refl, refl)
decide-Agrees true false false (a ∷ allowed) =
    choice-Agrees (contains "cilk" (a ∷ allowed)) "cilk" _
decide-Agrees false true false [] = (refl, refl)
decide-Agrees false true false (a ∷ allowed) =
    choice-Agrees (contains "parlay" (a ∷ allowed)) "parlay" _
decide-Agrees false false true [] = (refl, refl)
decide-Agrees false false true (a ∷ allowed) =
    choice-Agrees (contains "openmp" (a ∷ allowed)) "openmp" _
decide-Agrees false false false [] = (refl, refl)
decide-Agrees false false false (a ∷ allowed) =
    choice-Agrees (contains "none" (a ∷ allowed)) "none" _

-- A solution whose CMake files leave some text is accepted exactly if its markers name one framework
-- that the assignment lists, or none of them and the assignment lists nothing or "none"; then that
-- framework is the answer, and it is empty otherwise. A solution without CMake files is refused.
-- (Which text holds which marker is any three tests.)
pub detect-table :
    (pattern : Patterns) (solution_dir : String) (entries : Option (List CMakeEntry))
    (allowed : List String)
    → let text = collect_cmake_text entries in
      let found =
        if is_nil text
        then none
        else only_one
            (match_cilk pattern text)
            (match_parlay pattern text)
            (match_openmp pattern text) in
      Agrees allowed found (detect pattern solution_dir entries allowed)
unfolding detect matched
detect-table pattern solution_dir entries allowed =
    let text = collect_cmake_text entries in
    elim (Bool-cases (is_nil text)) [
      | inl e ↦ rw e (refl, refl)
      | inr e ↦ rw e (
          decide-Agrees (match_cilk pattern text) (match_parlay pattern text)
            (match_openmp pattern text) allowed)
    ]
