-- ===== src/Runner/Runs.antt =====
-- The theorems about runner.cpp on a runner with two warm-up iterations.
use c_tests_runner.Base.{ℕ, ◌+◌, ◌≡◌, refl, true, none, some, [], ◌∷◌, arith}
use c_tests_runner.Base.Int.{pos, negsuc}
use c_tests_runner.Base.Result.{ok}
use c_tests_runner.TestData.Store.{Entries, assign}
use c_tests_runner.TestData.Typed.{load}
use c_tests_runner.Runner.{Runner, new_config}
use c_tests_runner.Runner.Execution.{execute, finish, Files}
use c_tests_runner.Runner.Loop.{after_timed, execute_runs}
use c_tests_runner.Runner.Output.{load-finish}

abbrev runner : Runner ℕ
runner = record {
  config = record new_config { output_dir = "out"; warmup_iterations = pos 2 };
  initialized = true;
  execute_start = 0;
  execute_end = 0;
  finish_hook = none;
  input_data = [];
  output_data = (97 ∷ [], 1 ∷ []) ∷ [];
  counter = 0;
}

abbrev write_count : ℕ → Entries → Entries
write_count i m = assign (98 ∷ []) (i ∷ []) m

execute_runs_example :
    execute write_count (λ i. 100 + i) 4 0 runner
    ≡ some (after_timed write_count (λ i. 100 + i) 2 runner)
execute_runs_example = execute_runs write_count (λ i. 100 + i) 2 runner refl refl

abbrev unbounded : Runner ℕ
unbounded = record runner { config = record new_config { warmup_iterations = negsuc 1 } }

abbrev no_files : Files ℕ
no_files = record { output_bin = none; meta_bin = none }

load-finish_example :
    load (finish (λ t. t) true true runner no_files).output_bin ≡ some (ok runner.output_data)
load-finish_example =
    load-finish (λ t. t) true runner no_files refl (tt, tt) ((omega arith, omega arith), tt)
