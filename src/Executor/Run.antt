-- ===== src/Executor/Run.antt =====
-- server_core/src/sandbox_test_executor.cpp: the inputs of tests, the limits of a sandbox, and `run`.
-- Directories are made and removed by the operating system and are not modelled; the file of an input
-- is its bytes, and can be written. Progress events are not modelled.
use c_tests_runner.Base.{
  ℕ, ◌+◌, ◌*◌, ◌-◌, ◌^◌, min, Bool, true, false, Option, none, some, String, List, [], ◌∷◌, ◌++◌,
  ◌=ₛ◌, if◌then◌else◌,
}
use c_tests_runner.Base.Int.{ℤ, pos, negsuc, ltb_ℤ}
use c_tests_runner.Base.Maps.{lookup, insert}
use c_tests_runner.Base.Result.{Result, ok, err, ◌>>=◌}
use c_tests_runner.TestData.{Bytes}
use c_tests_runner.TestData.Store.{Entries, serialize}
use c_tests_runner.TestData.Typed.{load}
use c_tests_runner.Scenarios.Load.{ScenarioType, correctness, performance}
use c_tests_runner.Pipeline.Context.{times}
use c_tests_runner.Executor.{
  RunResult, Meta, TestResult, no_stats, Test, Surroundings, build_test_result,
}
use Prim.Native.String.{◌++◌ as ◌++ₛ◌}

-- The input of a test, as input.bin and as the map that `verify` gets.
pub record TestInput : Type 0 where
  pub file : Bytes
  pub entries : Entries

pub record Scenario : Type 0 where
  pub name : String
  pub scenario_type : ScenarioType
  pub tests : List Test

pub record TestScenarioResult (D : Type 0) : Type 0 where
  pub name : String
  pub results : List (TestResult D)
  pub threads : ℕ

pub record JobConfig : Type 0 where
  pub wall_time_sec : ℤ
  pub cpu_time_sec : ℤ
  pub memory_limit_kb : ℤ
  pub max_processes : ℤ
  pub cpus : String
  pub extra_lib_dirs : List String
  pub warmup_iterations : ℤ

-- The limits that `run` is given.
pub record Limits : Type 0 where
  pub monitor_mode : String
  pub memory_limit_kb : ℤ
  pub wall_time_sec : ℤ
  pub cpu_time_sec : ℤ
  pub extra_lib_dirs : List String
  pub max_processes : ℤ
  pub warmup_iterations : ℤ

-- What a run in the sandbox leaves.
pub record Ran (D : Type 0) : Type 0 where
  pub run_result : RunResult D
  pub timing_json : Option (Meta D)
  pub output_bin : Option Bytes

-- The sandbox and the CPU isolator, with `I` the state of the isolator. Cores are their text.
pub record Machine (I D : Type 0) : Type 0 where
  pub sandbox : Bytes → ℕ → String → JobConfig → Result (Ran D)
  pub allocate : ℕ → I → Result (String × I)
  pub release : String → I → I

abbrev pub of_loaded : Bytes → Option (Result Entries) → Result TestInput
of_loaded bytes none = err ""
of_loaded bytes (some loaded) =
    loaded >>= λ entries. ok (record { file = bytes; entries = entries })

-- std::min(memory_limit_kb, INT_MAX)
abbrev pub capped : ℤ → ℤ
capped (pos n) = pos (min n (2 ^ 31 - 1))
capped (negsuc n) = negsuc n

-- std::max(1, warmup_iterations + 1)
abbrev pub loop_count : ℤ → ℤ
loop_count (pos n) = pos (n + 1)
loop_count (negsuc n) = pos 1

unfoldable pub make_job_config : ℕ → String → Limits → JobConfig
make_job_config thread_count cpus limits = record {
  wall_time_sec = times limits.wall_time_sec (loop_count limits.warmup_iterations);
  cpu_time_sec = times limits.cpu_time_sec (loop_count limits.warmup_iterations);
  memory_limit_kb = capped limits.memory_limit_kb;
  max_processes =
      if ltb_ℤ (pos 0) limits.max_processes then limits.max_processes else pos (thread_count * 2);
  cpus = cpus;
  extra_lib_dirs = limits.extra_lib_dirs;
  warmup_iterations = limits.warmup_iterations;
}

abbrev pub same_type : ScenarioType → ScenarioType → Bool
same_type correctness correctness = true
same_type correctness performance = false
same_type performance correctness = false
same_type performance performance = true

-- What `run` keeps: the inputs by key, and the isolator.
pub record RunState (I : Type 0) : Type 0 where
  pub inputs : List (String × TestInput)
  pub cores : I

-- An allocation that fails is logged, and the test runs without cores of its own.
abbrev pub allocated : {I : Type 0} → I → Result (String × I) → String × I
allocated cores (err what) = ("", cores)
allocated cores (ok given) = given

-- What follows a part of a run that did not throw.
abbrev pub and_then :
    {I A B : Type 0}
    → Result A × RunState I
    → (A → RunState I → Result B × RunState I)
    → Result B × RunState I
and_then (err what, st) next = (err what, st)
and_then (ok a, st) next = next a st

-- `cpu_guard`
abbrev pub released : {I D : Type 0} → Machine I D → String → I → I
released machine cpus cores = if cpus =ₛ "" then cores else machine.release cpus cores

module _ {I D : Type 0} (around : Surroundings D) (machine : Machine I D) (limits : Limits) where
  -- The `try` block of `setup_test_input`: a file that is copied, or a setup that is saved.
  unfoldable pub build_input : Test → Result TestInput
  build_input test =
      if test.raw_input_path =ₛ ""
      then (test.setup [] >>= λ entries.
          ok (record { file = serialize entries; entries = entries }))
      else (elim (around.open_file test.raw_input_path) [
        | none ↦ err (
            "Failed to copy raw_input_path '"
            ++ₛ (test.raw_input_path ++ₛ ("': " ++ₛ around.copy_error test.raw_input_path)))
        | some bytes ↦ of_loaded bytes (load (some bytes))
      ])

  -- The result that stands in for a test without input: as constructed, never run.
  unfoldable pub setup_failed : Test → String → TestResult D
  setup_failed test what = record {
    name = test.name;
    passed = false;
    message = "Setup failed: " ++ₛ what;
    time_ms = around.zero_time;
    stats = no_stats;
    exit_code = negsuc 0;
    cg_mem_peak_kb = 0;
    max_rss_kb = 0;
    cpu_time_sec = around.zero_time;
    wall_time_sec = around.zero_time;
    oom_killed = false;
    timed_out = false;
    stderr_output = "";
  }

  unfoldable pub use_ran : Test → TestInput → Result (Ran D) → Result (TestResult D)
  unfolding build_test_result
  use_ran test input (err what) = err what
  use_ran test input (ok ran) =
      build_test_result around test ran.run_result ran.timing_json input.entries ran.output_bin

  -- A test that has its input. The cores are released however it ends.
  unfoldable pub run_with : Test → ℕ → TestInput → RunState I → Result (TestResult D) × RunState I
  unfolding make_job_config use_ran
  run_with test tc input st =
      let given = allocated st.cores (machine.allocate tc st.cores) in
      (
        use_ran test input
            (machine.sandbox input.file tc limits.monitor_mode (make_job_config tc given.0 limits)),
        record st { cores = released machine given.0 given.1 },
      )

  unfoldable pub use_input :
      String → Test → ℕ → RunState I → Result TestInput → Result (TestResult D) × RunState I
  unfolding run_with setup_failed
  use_input key test tc st (err what) = (ok (setup_failed test what), st)
  use_input key test tc st (ok input) =
      run_with test tc input (record st { inputs = insert key input st.inputs })

  unfoldable pub run_known :
      String → Test → ℕ → RunState I → Option TestInput → Result (TestResult D) × RunState I
  unfolding run_with use_input build_input
  run_known key test tc st (some input) = run_with test tc input st
  run_known key test tc st none = use_input key test tc st (build_input test)

  unfoldable pub run_test : String → Test → ℕ → RunState I → Result (TestResult D) × RunState I
  unfolding run_known
  run_test scenario test tc st =
      let key = scenario ++ₛ ("::" ++ₛ test.name) in run_known key test tc st (lookup key st.inputs)

  unfoldable pub run_tests :
      String → ℕ → List Test → RunState I → Result (List (TestResult D)) × RunState I
  unfolding run_test
  run_tests scenario tc [] st = (ok [], st)
  run_tests scenario tc (test ∷ tests) st =
      and_then (run_test scenario test tc st)
        (λ tr st₁. and_then (run_tests scenario tc tests st₁) (λ trs st₂. (ok (tr ∷ trs), st₂)))

  unfoldable pub run_scenarios :
      ScenarioType
      → ℕ
      → List Scenario
      → RunState I
      → Result (List (TestScenarioResult D)) × RunState I
  unfolding run_tests
  run_scenarios kind tc [] st = (ok [], st)
  run_scenarios kind tc (scenario ∷ scenarios) st =
      let later = run_scenarios kind tc scenarios in
      if same_type scenario.scenario_type kind
      then and_then (run_tests scenario.name tc scenario.tests st) (λ trs st₁.
        and_then (later st₁) (λ srs st₂.
          (ok (record { name = scenario.name; results = trs; threads = tc } ∷ srs), st₂)))
      else later st

  unfoldable pub run_counts :
      ScenarioType
      → List ℕ
      → List Scenario
      → RunState I
      → Result (List (TestScenarioResult D)) × RunState I
  unfolding run_scenarios
  run_counts kind [] registry st = (ok [], st)
  run_counts kind (tc ∷ counts) registry st =
      and_then (run_scenarios kind tc registry st) (λ srs st₁.
        and_then (run_counts kind counts registry st₁) (λ more st₂. (ok (srs ++ more), st₂)))

  -- `run`: the results, or the exception, and the isolator afterwards.
  unfoldable pub run :
      ScenarioType → List ℕ → List Scenario → I → Result (List (TestScenarioResult D)) × I
  unfolding run_counts
  run kind thread_counts registry cores =
      let ran = run_counts kind thread_counts registry (record { inputs = []; cores = cores }) in
      (ran.0, ran.1.cores)
