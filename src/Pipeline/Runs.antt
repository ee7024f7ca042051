-- ===== src/Pipeline/Runs.antt =====
-- The theorems about the pipeline at a concrete job: every service answers, one scenario is
-- registered, and its only test passes or fails as asked.
use c_tests_runner.Base.{ℕ, ◌+◌, ◌/◌, refl, ltb, Bool, true, false, none, some, [], ◌∷◌, ◌++◌}
use c_tests_runner.Base.Int.{pos}
use c_tests_runner.Base.Result.{ok}
use c_tests_runner.JobQueue.{new_queue}
use c_tests_runner.Summary.{Real, TestResult}
use c_tests_runner.Scenarios.Load.{correctness}
use c_tests_runner.Pipeline.{Request, AssignmentConfig, Services, JobContext}
use c_tests_runner.Pipeline.Context.{default_config, new_context, Inputs}
use c_tests_runner.Pipeline.Execute.{prepare, execute}
use c_tests_runner.Pipeline.Order.{Follows, step_names, prepare-Follows}
use c_tests_runner.Pipeline.Verdicts.{IsVerdict, execute-IsVerdict}
use c_tests_runner.Pipeline.Queueing.{replay_all, Passes, execute-Passes}

abbrev whole_numbers : Real ℕ
whole_numbers = record {
  zero_real = 0;
  add = λ a b. a + b;
  above = λ a b. ltb b a;
  div = λ a b. a / b;
  over = λ a n. a;
}

abbrev only_test : Bool → TestResult ℕ
only_test passes = record {
  passed = passes;
  time_ms = 5;
  max_rss_kb = 100;
  cg_mem_peak_kb = 90;
  cpu_time_sec = 1;
  timed_out = false;
  oom_killed = false;
  exit_code = pos 0;
}

abbrev sorting : AssignmentConfig
sorting = record default_config {
  name = "sorting";
  mode = "all";
  allowed_frameworks = "openmp" ∷ [];
  threads = some (pos 8);
}

-- Sources, scenarios and grouped results are numbers.
abbrev services : Bool → Services ℕ ℕ ℕ ℕ
services passes = record {
  clock = λ n. n;
  sanitize = λ s. s;
  file_name = λ s. s;
  hardware_threads = 16;
  default_memory_limit_mb = pos 1024;
  default_threads = pos 4;
  default_wall_time_sec = pos 60;
  default_cpu_time_sec = pos 30;
  sandbox_process_multiplier = pos 2;
  resolve = λ kind source. ok "dir";
  load_config = λ dir. ok sorting;
  detect = λ dir allowed. ok (record { is_ok = true; framework = "openmp"; error_message = "" });
  has_cmake_lists = λ dir. ok true;
  validate = λ dir packages. ok (record { valid = true; violations = [] });
  validate_framework = λ framework. (true, "");
  build_runner = λ framework solution tests job shadow. ok (record {
    success = true;
    error_message = "";
    build_output = "";
    runner_exe_path = "runner";
    build_dir = "build";
  });
  build_test_plugins = λ dir. ok (record {
    success = true;
    error_message = "";
    build_output = "";
    plugin_paths = "plugin" ∷ [];
    build_dir = "plugins";
  });
  load_plugin = λ path registry. ok (registry ++ 1 ∷ [], true);
  load_cases = λ dir registry. ok registry;
  scenario_type = λ s. correctness;
  tests_of = λ s. ok 1;
  extra_lib_dirs = λ framework. [];
  run = λ registry request. ok ((only_test passes ∷ []) ∷ []);
  to_grouped_json = λ results counts is_perf. ok 0;
}

abbrev request : Request ℕ
request = record {
  job_id = ok "job";
  test_id = ok "test";
  threads = none;
  memory_limit_mb = some (ok (pos 512));
  wall_time_sec = none;
  cpu_time_sec = none;
  max_processes = none;
  warmup_iterations = none;
  test_source_type = none;
  solution_source_type = none;
  test_source = ok 1;
  solution_source = ok 2;
  solution_name = ok "solution";
}

abbrev context : JobContext ℕ ℕ ℕ
context = new_context (services false) request "node" true

execute-IsVerdict_example : IsVerdict (execute (services true) whole_numbers request "node" true)
execute-IsVerdict_example = execute-IsVerdict (services true) whole_numbers request "node" true

execute-Passes_example : Passes (new_queue {J = ℕ} true 4) (
    replay_all
      (execute (services true) whole_numbers request "node" true).1
      (new_queue {J = ℕ} true 4))
unfolding new_queue
execute-Passes_example =
    execute-Passes (services true) whole_numbers request "node" true (new_queue {J = ℕ} true 4)
      (refl, refl, refl, refl)

prepare-Follows_example : Follows step_names context (prepare (services false) context)
prepare-Follows_example = prepare-Follows (services false) context

abbrev inputs : Inputs
inputs = record {
  job_id = "job";
  test_id = "test";
  solution_name = "solution";
  params = record {
    threads = pos 4;
    memory_limit_mb = pos 512;
    wall_time_sec = pos 60;
    cpu_time_sec = pos 30;
    max_processes = pos 8;
    warmup_iterations = pos 0;
    test_source_type = "local";
    solution_source_type = "local";
    mode = none;
    has_cmake_lists = none;
  };
}

abbrev in_all_mode : JobContext ℕ ℕ ℕ
in_all_mode = record context { mode = "all" }
