-- ===== src/Executor/Runs.antt =====
-- The theorems about the executor at a sandbox in which every process succeeds, with the isolator as
-- a count of the cores in use.
use c_tests_runner.Base.{
  ℕ, ◌+◌, ◌-◌, ◌≡◌, true, false, none, some, String, List, [], ◌∷◌, ◌=ₛ◌, arith, if◌then◌else◌,
}
use c_tests_runner.Base.Int.{pos}
use c_tests_runner.Base.Result.{ok, err}
use c_tests_runner.Scenarios.Load.{correctness}
use c_tests_runner.Executor.{RunResult, Meta, Test, Surroundings}
use c_tests_runner.Executor.Run.{Scenario, TestScenarioResult, Limits, Machine, run}
use c_tests_runner.Executor.Passing.{OnOk}
use c_tests_runner.Executor.Layout.{entries_of, slabs, run-slabs}

abbrev around : Surroundings ℕ
around = record {
  text = λ b. "text";
  sanitize = λ s. s;
  zero_time = 0;
  to_ns = λ t. t;
  open_file = λ path. none;
  copy_error = λ path. "no such file";
}

abbrev clean_exit : RunResult ℕ
clean_exit = record {
  exit_code = pos 0;
  cg_mem_peak_kb = 10;
  max_rss_kb = 20;
  cpu_time_sec = 1;
  wall_time_sec = 1;
  oom_killed = false;
  timed_out = false;
  stderr_output = "";
}

abbrev accepting : Test
accepting = record {
  name = "accepting";
  raw_input_path = "";
  expected_output_path = "";
  setup = λ td. ok td;
  verify = λ input output. ok (true, "");
}

-- Its setup throws.
abbrev without_input : Test
without_input = record accepting { name = "without input"; setup = λ td. err "no input" }

abbrev a_meta : Meta ℕ
a_meta = record { time_ms = some (ok 5); parallel_stats = none }

abbrev machine : Machine ℕ ℕ
machine = record {
  sandbox = λ input tc mode config.
      ok (record { run_result = clean_exit; timing_json = some a_meta; output_bin = some [] });
  allocate = λ n used. ok ("0", used + 1);
  release = λ cpus used. used - 1;
}

abbrev limits : Limits
limits = record {
  monitor_mode = "stress";
  memory_limit_kb = pos 1024;
  wall_time_sec = pos 60;
  cpu_time_sec = pos 30;
  extra_lib_dirs = [];
  max_processes = pos 8;
  warmup_iterations = pos 0;
}

gives_back :
    (n c c' : ℕ) (cpus : String)
    → machine.allocate n c ≡ ok (cpus, c')
    → (if cpus =ₛ "" then c' else machine.release cpus c') ≡ c
gives_back n c c' cpus e =
    let text : "0" ≡ cpus = cc in let used : c + 1 ≡ c' = cc in rw (← text, ← used) (omega arith)

abbrev one_scenario : List Scenario
one_scenario =
    (record { name = "sort"; scenario_type = correctness; tests = accepting ∷ without_input ∷ [] })
    ∷ []

run-slabs_example :
    let ran = run around machine limits correctness (1 ∷ 2 ∷ []) one_scenario 3 in
    OnOk
      (λ (srs : List (TestScenarioResult ℕ)).
        entries_of srs ≡ slabs correctness (1 ∷ 2 ∷ []) one_scenario)
      ran.0
    × (ran.1 ≡ 3)
run-slabs_example =
    run-slabs around machine limits gives_back correctness (1 ∷ 2 ∷ []) one_scenario 3
