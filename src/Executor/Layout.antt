-- ===== src/Executor/Layout.antt =====
-- The results of a lane: which there are, in which order, and what becomes of the cores.
use c_tests_runner.Base.{
  ℕ, ◌≡◌, refl, ap, ◌∙◌, ◌&&◌, Bool, Bool-cases, inl, inr, Option, none, some, String, List, [],
  ◌∷◌, ◌++◌, ◌=ₛ◌, if◌then◌else◌,
}
use c_tests_runner.Base.Maps.{lookup, insert}
use c_tests_runner.Base.Result.{Result, ok, err}
use c_tests_runner.Scenarios.Load.{ScenarioType}
use c_tests_runner.Executor.{RunResult, TestResult, Test, Surroundings, build_test_result}
use c_tests_runner.Executor.Run.{
  TestInput, Scenario, TestScenarioResult, Limits, Ran, Machine, make_job_config, same_type,
  RunState, build_input, setup_failed, allocated, released, use_ran, run_with, use_input, run_known,
  run_test, and_then, run_tests, run_scenarios, run_counts, run,
}
use c_tests_runner.Executor.Passing.{OnOk, Copies, is_clean, good_output, build_test_result-OnOk}
use Prim.Native.String.{◌++◌ as ◌++ₛ◌}

-- One entry of a lane: the scenario, the number of threads, and the names of the tests.
abbrev pub Entry : Type 0
Entry = String × ℕ × List String

abbrev pub test_names : List Test → List String
test_names [] = []
test_names (t ∷ ts) = t.name ∷ test_names ts

abbrev pub result_names : {D : Type 0} → List (TestResult D) → List String
result_names [] = []
result_names (r ∷ rs) = r.name ∷ result_names rs

abbrev pub entries_of : {D : Type 0} → List (TestScenarioResult D) → List Entry
entries_of [] = []
entries_of (r ∷ rs) = (r.name, r.threads, result_names r.results) ∷ entries_of rs

-- The scenarios of the wanted type, each at `tc` threads.
abbrev pub slab : ScenarioType → ℕ → List Scenario → List Entry
slab kind tc [] = []
slab kind tc (s ∷ ss) =
    if same_type s.scenario_type kind
    then (s.name, tc, test_names s.tests) ∷ slab kind tc ss
    else slab kind tc ss

abbrev pub slabs : ScenarioType → List ℕ → List Scenario → List Entry
slabs kind [] registry = []
slabs kind (tc ∷ counts) registry = slab kind tc registry ++ slabs kind counts registry

entries_of-append :
    {D : Type 0} (rs ss : List (TestScenarioResult D))
    → entries_of (rs ++ ss) ≡ entries_of rs ++ entries_of ss
entries_of-append [] ss = refl
entries_of-append (r ∷ rs) ss =
    ap (◌∷◌ (r.name, r.threads, result_names r.results)) (entries_of-append rs ss)

module _ {I : Type 0} where
  -- What holds of a part of a run: its value, where there is one, and the cores as before.
  abbrev pub Holds : {A : Type 0} → (A → Type 0) → I → Result A × RunState I → Type 0
  Holds P cores r = OnOk P r.0 × (r.1.cores ≡ cores)

  then-Holds :
      {A B : Type 0} (P : A → Type 0) (Q : B → Type 0) (cores : I) (r : Result A × RunState I)
      (next : A → RunState I → Result B × RunState I)
      → Holds P cores r
      → ((a : A) (st : RunState I) → P a → st.cores ≡ cores → Holds Q cores (next a st))
      → Holds Q cores (and_then r next)
  then-Holds P Q cores (ok a, st) next (p, c) h = h a st p c
  then-Holds P Q cores (err what, st) next (p, c) h = (tt, c)

module _ {I D : Type 0} (around : Surroundings D) (machine : Machine I D) (limits : Limits)
    (restores : (n : ℕ) (c c' : I) (cpus : String)
      → machine.allocate n c ≡ ok (cpus, c')
      → (if cpus =ₛ "" then c' else machine.release cpus c') ≡ c) where
  given_back :
      (tc : ℕ) (c : I) (r : Result (String × I))
      → machine.allocate tc c ≡ r
      → released machine (allocated c r).0 (allocated c r).1 ≡ c
  given_back tc c (err what) e = refl
  given_back tc c (ok (cpus, c')) e = restores tc c c' cpus e

  only_name :
      (test : Test) (b : Bool) (run : RunResult D) (r : Result (TestResult D))
      → OnOk (λ tr. (tr.passed ≡ b) × Copies around test run tr) r
      → OnOk (λ (tr : TestResult D). tr.name ≡ test.name) r
  only_name test b run (ok tr) h = h.1.0
  only_name test b run (err what) h = tt

  use_ran-OnOk :
      (test : Test) (input : TestInput) (r : Result (Ran D))
      → OnOk
          (λ (tr : TestResult D). tr.name ≡ test.name)
          (use_ran around machine limits test input r)
  unfolding use_ran
  use_ran-OnOk test input (err what) = tt
  use_ran-OnOk test input (ok ran) =
      only_name test
        (is_clean ran.run_result
          && good_output around test ran.timing_json input.entries ran.output_bin)
        ran.run_result
        (build_test_result around test ran.run_result ran.timing_json input.entries ran.output_bin)
        (build_test_result-OnOk around test ran.run_result ran.timing_json input.entries
          ran.output_bin)

  run_with-Holds :
      (test : Test) (tc : ℕ) (input : TestInput) (st : RunState I) (cores : I)
      → st.cores ≡ cores
      → Holds
          (λ (tr : TestResult D). tr.name ≡ test.name)
          cores
          (run_with around machine limits test tc input st)
  unfolding run_with
  run_with-Holds test tc input st cores c =
      let given = allocated st.cores (machine.allocate tc st.cores) in
      (
        use_ran-OnOk test input
            (machine.sandbox input.file tc limits.monitor_mode (make_job_config tc given.0 limits)),
        given_back tc st.cores (machine.allocate tc st.cores) refl ∙ c,
      )

  use_input-Holds :
      (key : String) (test : Test) (tc : ℕ) (st : RunState I) (cores : I) (r : Result TestInput)
      → st.cores ≡ cores
      → Holds
          (λ (tr : TestResult D). tr.name ≡ test.name)
          cores
          (use_input around machine limits key test tc st r)
  unfolding use_input setup_failed
  use_input-Holds key test tc st cores (err what) c = (refl, c)
  use_input-Holds key test tc st cores (ok input) c =
      run_with-Holds test tc input (record st { inputs = insert key input st.inputs }) cores c

  run_known-Holds :
      (key : String) (test : Test) (tc : ℕ) (st : RunState I) (cores : I) (known : Option TestInput)
      → st.cores ≡ cores
      → Holds
          (λ (tr : TestResult D). tr.name ≡ test.name)
          cores
          (run_known around machine limits key test tc st known)
  unfolding run_known
  run_known-Holds key test tc st cores (some input) c = run_with-Holds test tc input st cores c
  run_known-Holds key test tc st cores none c =
      use_input-Holds key test tc st cores (build_input around machine limits test) c

  run_test-Holds :
      (scenario : String) (test : Test) (tc : ℕ) (st : RunState I) (cores : I)
      → st.cores ≡ cores
      → Holds
          (λ (tr : TestResult D). tr.name ≡ test.name)
          cores
          (run_test around machine limits scenario test tc st)
  unfolding run_test
  run_test-Holds scenario test tc st cores c =
      let key = scenario ++ₛ ("::" ++ₛ test.name) in
      run_known-Holds key test tc st cores (lookup key st.inputs) c

  run_tests-Holds :
      (scenario : String) (tc : ℕ) (tests : List Test) (st : RunState I) (cores : I)
      → st.cores ≡ cores
      → Holds
          (λ (trs : List (TestResult D)). result_names trs ≡ test_names tests)
          cores
          (run_tests around machine limits scenario tc tests st)
  unfolding run_tests
  run_tests-Holds scenario tc [] st cores c = (refl, c)
  run_tests-Holds scenario tc (test ∷ tests) st cores c =
      then-Holds (λ (tr : TestResult D). tr.name ≡ test.name)
        (λ (trs : List (TestResult D)). result_names trs ≡ test_names (test ∷ tests)) cores
        (run_test around machine limits scenario test tc st)
        (λ tr st₁.
          and_then (run_tests around machine limits scenario tc tests st₁)
            (λ trs st₂. (ok (tr ∷ trs), st₂)))
        (run_test-Holds scenario test tc st cores c)
        (λ tr st₁ n c₁.
          then-Holds (λ (trs : List (TestResult D)). result_names trs ≡ test_names tests)
            (λ (trs : List (TestResult D)). result_names trs ≡ test_names (test ∷ tests)) cores
            (run_tests around machine limits scenario tc tests st₁)
            (λ trs st₂. (ok (tr ∷ trs), st₂)) (run_tests-Holds scenario tc tests st₁ cores c₁)
            (λ trs st₂ ns c₂. (rw (n, ns) refl, c₂)))

  -- The rest of a lane behind the results of one scenario.
  scenario_then :
      (scenario : Scenario) (tc : ℕ) (rest : List Entry) (trs : List (TestResult D)) (cores : I)
      (later : Result (List (TestScenarioResult D)) × RunState I)
      → result_names trs ≡ test_names scenario.tests
      → Holds (λ (srs : List (TestScenarioResult D)). entries_of srs ≡ rest) cores later
      → Holds
          (λ (srs : List (TestScenarioResult D)).
            entries_of srs ≡ (scenario.name, tc, test_names scenario.tests) ∷ rest)
          cores
          (and_then later (λ srs st₂.
            (ok (record { name = scenario.name; results = trs; threads = tc } ∷ srs), st₂)))
  scenario_then scenario tc rest trs cores (ok srs, st) n (h, c) = (rw (n, h) refl, c)
  scenario_then scenario tc rest trs cores (err what, st) n (h, c) = (tt, c)

  run_scenarios-Holds :
      (kind : ScenarioType) (tc : ℕ) (registry : List Scenario) (st : RunState I) (cores : I)
      → st.cores ≡ cores
      → Holds
          (λ (srs : List (TestScenarioResult D)). entries_of srs ≡ slab kind tc registry)
          cores
          (run_scenarios around machine limits kind tc registry st)
  unfolding run_scenarios
  run_scenarios-Holds kind tc [] st cores c = (refl, c)
  run_scenarios-Holds kind tc (scenario ∷ scenarios) st cores c =
      elim (Bool-cases (same_type scenario.scenario_type kind)) [
        | inl e ↦ rw e (
            then-Holds (λ (trs : List (TestResult D)). result_names trs ≡ test_names scenario.tests)
              (λ (srs : List (TestScenarioResult D)).
                entries_of srs
                ≡ (scenario.name, tc, test_names scenario.tests) ∷ slab kind tc scenarios)
              cores (run_tests around machine limits scenario.name tc scenario.tests st)
              (λ trs st₁.
                and_then (run_scenarios around machine limits kind tc scenarios st₁) (λ srs st₂.
                  (ok (record { name = scenario.name; results = trs; threads = tc } ∷ srs), st₂)))
              (run_tests-Holds scenario.name tc scenario.tests st cores c)
              (λ trs st₁ n c₁.
                scenario_then scenario tc (slab kind tc scenarios) trs cores
                  (run_scenarios around machine limits kind tc scenarios st₁) n
                  (run_scenarios-Holds kind tc scenarios st₁ cores c₁)))
        | inr e ↦ rw e (run_scenarios-Holds kind tc scenarios st cores c)
      ]

  count_then :
      (first rest : List Entry) (srs : List (TestScenarioResult D)) (cores : I)
      (later : Result (List (TestScenarioResult D)) × RunState I)
      → entries_of srs ≡ first
      → Holds (λ (more : List (TestScenarioResult D)). entries_of more ≡ rest) cores later
      → Holds
          (λ (all : List (TestScenarioResult D)). entries_of all ≡ first ++ rest)
          cores
          (and_then later (λ more st₂. (ok (srs ++ more), st₂)))
  count_then first rest srs cores (ok more, st) n (h, c) =
      (entries_of-append srs more ∙ rw (n, h) refl, c)
  count_then first rest srs cores (err what, st) n (h, c) = (tt, c)

  run_counts-Holds :
      (kind : ScenarioType) (counts : List ℕ) (registry : List Scenario) (st : RunState I)
      (cores : I)
      → st.cores ≡ cores
      → Holds
          (λ (srs : List (TestScenarioResult D)). entries_of srs ≡ slabs kind counts registry)
          cores
          (run_counts around machine limits kind counts registry st)
  unfolding run_counts
  run_counts-Holds kind [] registry st cores c = (refl, c)
  run_counts-Holds kind (tc ∷ counts) registry st cores c =
      then-Holds (λ (srs : List (TestScenarioResult D)). entries_of srs ≡ slab kind tc registry)
        (λ (srs : List (TestScenarioResult D)).
          entries_of srs ≡ slab kind tc registry ++ slabs kind counts registry)
        cores (run_scenarios around machine limits kind tc registry st)
        (λ srs st₁.
          and_then (run_counts around machine limits kind counts registry st₁)
            (λ more st₂. (ok (srs ++ more), st₂)))
        (run_scenarios-Holds kind tc registry st cores c)
        (λ srs st₁ n c₁.
          count_then (slab kind tc registry) (slabs kind counts registry) srs cores
            (run_counts around machine limits kind counts registry st₁) n
            (run_counts-Holds kind counts registry st₁ cores c₁))

  -- Every lane that does not throw has one result for each scenario of its type at each number of
  -- threads, the numbers outermost, and in it one result for each test, in order and by name, be it
  -- that the test ran or that its setup failed; and thrown or not, the isolator is as before, if
  -- releasing an allocation undoes it. (An allocation that fails does not stop a test.)
  pub run-slabs :
      (kind : ScenarioType) (counts : List ℕ) (registry : List Scenario) (cores : I)
      → let ran = run around machine limits kind counts registry cores in
        OnOk
          (λ (srs : List (TestScenarioResult D)). entries_of srs ≡ slabs kind counts registry)
          ran.0
        × (ran.1 ≡ cores)
  unfolding run
  run-slabs kind counts registry cores =
      run_counts-Holds kind counts registry (record { inputs = []; cores = cores }) cores refl
