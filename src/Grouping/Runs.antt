-- ===== src/Grouping/Runs.antt =====
-- The grouping of a lane with two tests at one and at two threads; doubles are natural numbers.
use c_tests_runner.Base.{ℕ, ◌+◌, ◌*◌, ◌/◌, ltb, ◌≡◌, refl, true, false, List, [], ◌∷◌, map, arith}
use c_tests_runner.Base.Int.{pos, pos_part}
use c_tests_runner.Executor.{TestResult, no_stats}
use c_tests_runner.Executor.Run.{TestScenarioResult}
use c_tests_runner.Grouping.{Doubles, to_grouped_json}
use c_tests_runner.Grouping.Rows.{Returns}
use c_tests_runner.Grouping.Grid.{Grid, counts_of, results_of, outline, expected}
use c_tests_runner.Grouping.Shape.{to_grouped_json-Returns}

abbrev whole_numbers : Doubles ℕ
whole_numbers = record {
  real = record {
    zero_real = 0;
    add = λ x y. x + y;
    above = λ x y. ltb y x;
    div = λ x y. x / y;
    over = λ x n. x / pos_part n;
  };
  of_nat = λ n. n;
  times = λ x y. x * y;
  mega = 1000000;
}

abbrev a_pass : TestResult ℕ
a_pass = record {
  name = "small";
  passed = true;
  message = "";
  time_ms = 8;
  stats = no_stats;
  exit_code = pos 0;
  cg_mem_peak_kb = 1;
  max_rss_kb = 1;
  cpu_time_sec = 1;
  wall_time_sec = 1;
  oom_killed = false;
  timed_out = false;
  stderr_output = "";
}

abbrev sorting : ℕ → TestScenarioResult ℕ
sorting threads = record {
  name = "sorting";
  results = a_pass ∷ record a_pass { name = "large" } ∷ [];
  threads = threads;
}

abbrev single_row : ℕ × List (TestScenarioResult ℕ)
single_row = (1, sorting 1 ∷ [])

abbrev double_row : Grid ℕ
double_row = (2, sorting 2 ∷ []) ∷ []

to_grouped_json-Returns_example :
    Returns
      (λ entries.
        map outline entries ≡ map (expected (counts_of (single_row ∷ double_row))) single_row.1)
      (to_grouped_json whole_numbers
        (results_of (single_row ∷ double_row))
        (counts_of (single_row ∷ double_row))
        true)
to_grouped_json-Returns_example =
    to_grouped_json-Returns whole_numbers (2 ∷ []) single_row double_row (refl, (refl, tt)) true
      (omega arith)
