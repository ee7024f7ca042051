-- ===== src/Summary/Runs.antt =====
-- The theorems about test_result_builder.cpp on two thread counts and two scenarios, with numbers for
-- reals.
use c_tests_runner.Base.{ℕ, ◌+◌, ◌/◌, ◌≡◌, refl, true, false, some, List, [], ◌∷◌, ltb}
use c_tests_runner.Base.Int.{ℤ, pos, negsuc}
use c_tests_runner.Summary.{Real, TestResult, ScenarioResults}
use c_tests_runner.Summary.Scalability.{Summary, has_layout, build_summary, scalability_from}
use c_tests_runner.Summary.Totals.{IsBalanced, tests_in, summary_totals}
use c_tests_runner.Summary.Gating.{counted, expected, ladder_gated}

abbrev naturals : Real ℕ
naturals = record {
  zero_real = 0;
  add = λ a b. a + b;
  above = λ a b. ltb b a;
  div = λ a b. a / b;
  over = λ a n. a;
}

abbrev passing : TestResult ℕ
passing = record {
  passed = true;
  time_ms = 8;
  max_rss_kb = 100;
  cg_mem_peak_kb = 90;
  cpu_time_sec = 1;
  timed_out = false;
  oom_killed = false;
  exit_code = pos 0;
}

abbrev crashing : TestResult ℕ
crashing = record passing { passed = false; exit_code = negsuc 10 }

abbrev four_results : List (ScenarioResults ℕ)
four_results =
    (passing ∷ crashing ∷ []) ∷ (passing ∷ []) ∷ (passing ∷ passing ∷ []) ∷ (crashing ∷ []) ∷ []

abbrev one_and_four : List ℤ
one_and_four = pos 1 ∷ pos 4 ∷ []

summary_totals_example :
    (s : Summary ℕ) × (build_summary naturals four_results one_and_four ≡ some s)
    × (s.tally.total ≡ tests_in four_results)
    × IsBalanced s.tally
unfolding has_layout
summary_totals_example = summary_totals naturals four_results one_and_four refl

ladder_gated_example :
    counted (scalability_from naturals four_results 2 (0 ∷ 1 ∷ []) 0 one_and_four)
    ≡ expected four_results 2 (0 ∷ 1 ∷ []) 0 one_and_four
ladder_gated_example = ladder_gated naturals four_results 2 (0 ∷ 1 ∷ []) 0 one_and_four
