-- ===== src/Summary/Scalability.antt =====
-- server_core/src/test_result_builder.cpp: `build_scalability`, `build_aggregate`, and the summaries
-- of a job and of one scenario.
use c_tests_runner.Base.{
  ℕ, zero, suc, ◌+◌, ◌*◌, ◌/◌, Bool, false, not, ◌&&◌, ◌||◌, Option, none, some, List, [], ◌∷◌,
  length, get_elem?, ltb, ◌==◌, if◌then◌else◌,
}
use c_tests_runner.Base.Int.{ℤ, pos, negsuc}
use c_tests_runner.Summary.{
  Real, TestResult, ScenarioResults, Tally, larger, new_tally, tally_slabs,
}

-- The sums over the compared tests.
pub record Ladder (D : Type 0) : Type 0 where
  pub total_time_ms : D
  pub baseline_time_ms : D
  pub total_cpu_sec : D
  pub max_rss_kb : ℕ
  pub tests_compared : ℕ
  pub tests_skipped : ℕ

pub record Entry (D : Type 0) : Type 0 where
  pub threads : ℤ
  pub total_time_ms : D
  pub speedup : D
  pub efficiency : D
  pub max_rss_kb : ℕ
  pub total_cpu_sec : D
  pub tests_compared : ℕ
  pub tests_skipped : ℕ

pub record Summary (D : Type 0) : Type 0 where
  pub tally : Tally D
  pub scalability : List (Entry D)

abbrev pub is_positive : ℤ → Bool
is_positive (pos n) = ltb 0 n
is_positive (negsuc n) = false

-- results[i], of an index in range.
abbrev pub result_at : {D : Type 0} → Option (ScenarioResults D) → ScenarioResults D
result_at none = []
result_at (some sr) = sr

abbrev pub count_up : ℕ → ℕ → List ℕ
count_up i zero = []
count_up i (suc n) = i ∷ count_up (i + 1) n

module _ {D : Type 0} (real : Real D) where
  abbrev pub new_ladder : Ladder D
  new_ladder = record {
    total_time_ms = real.zero_real;
    baseline_time_ms = real.zero_real;
    total_cpu_sec = real.zero_real;
    max_rss_kb = 0;
    tests_compared = 0;
    tests_skipped = 0;
  }

  -- One test at the thread count, and at the baseline.
  unfoldable pub compare_tests : TestResult D → TestResult D → Ladder D → Ladder D
  compare_tests r_t r_baseline l =
      if not r_t.passed || not r_baseline.passed
      then record l { tests_skipped = l.tests_skipped + 1 }
      else record l {
        tests_compared = l.tests_compared + 1;
        total_time_ms = real.add l.total_time_ms r_t.time_ms;
        baseline_time_ms = real.add l.baseline_time_ms r_baseline.time_ms;
        total_cpu_sec = real.add l.total_cpu_sec r_t.cpu_time_sec;
        max_rss_kb = larger r_t.max_rss_kb l.max_rss_kb;
      }

  unfoldable pub compare_scenario : ScenarioResults D → ScenarioResults D → Ladder D → Ladder D
  unfolding compare_tests
  compare_scenario [] sr_baseline l = l
  compare_scenario (r_t ∷ sr_t) [] l = l
  compare_scenario (r_t ∷ sr_t) (r_baseline ∷ sr_baseline) l =
      compare_scenario sr_t sr_baseline (compare_tests r_t r_baseline l)

  unfoldable pub compare_slab : List (ScenarioResults D) → ℕ → List ℕ → Ladder D → Ladder D
  unfolding compare_scenario
  compare_slab results base [] l = l
  compare_slab results base (s ∷ indices) l = compare_slab results base indices (
      compare_scenario (result_at (get_elem? results (base + s))) (result_at (get_elem? results s))
        l)

  unfoldable pub make_entry : ℤ → Ladder D → Entry D
  make_entry tc l =
      let speedup =
        if real.above l.total_time_ms real.zero_real
        then real.div l.baseline_time_ms l.total_time_ms
        else real.zero_real in
      record {
        threads = tc;
        total_time_ms = l.total_time_ms;
        speedup = speedup;
        efficiency = if is_positive tc then real.over speedup tc else real.zero_real;
        max_rss_kb = l.max_rss_kb;
        total_cpu_sec = l.total_cpu_sec;
        tests_compared = l.tests_compared;
        tests_skipped = l.tests_skipped;
      }

  -- The loop over the thread counts, from the `t`-th on.
  unfoldable pub scalability_from :
      List (ScenarioResults D) → ℕ → List ℕ → ℕ → List ℤ → List (Entry D)
  unfolding compare_slab make_entry
  scalability_from results num_scenarios indices t [] = []
  scalability_from results num_scenarios indices t (tc ∷ counts) =
      let l = compare_slab results (t * num_scenarios) indices new_ladder in
      let more = scalability_from results num_scenarios indices (t + 1) counts in
      if l.tests_compared == 0 then more else make_entry tc l ∷ more

  unfoldable pub build_scalability : List (ScenarioResults D) → List ℤ → ℕ → List ℕ → List (Entry D)
  unfolding scalability_from
  build_scalability results thread_counts num_scenarios indices =
      if ltb (length thread_counts) 2 || ((length results == 0) || (length indices == 0))
      then []
      else scalability_from results num_scenarios indices 0 thread_counts

  unfoldable pub build_aggregate : List (ScenarioResults D) → List ℤ → ℕ → List ℕ → Summary D
  unfolding tally_slabs build_scalability
  build_aggregate results thread_counts num_scenarios indices = record {
    tally =
        tally_slabs real results num_scenarios indices 0 (length thread_counts) (new_tally real);
    scalability = build_scalability results thread_counts num_scenarios indices;
  }

  -- The guards of both summaries: the results make full slabs of at least one scenario.
  unfoldable pub has_layout : List (ScenarioResults D) → List ℤ → Bool
  has_layout results thread_counts =
      let num_scenarios = length results / length thread_counts in
      not ((length results == 0) || (length thread_counts == 0))
      && (not (num_scenarios == 0) && (length results == num_scenarios * length thread_counts))

  unfoldable pub build_summary : List (ScenarioResults D) → List ℤ → Option (Summary D)
  unfolding has_layout build_aggregate
  build_summary results thread_counts =
      let num_scenarios = length results / length thread_counts in
      if has_layout results thread_counts
      then some (build_aggregate results thread_counts num_scenarios (count_up 0 num_scenarios))
      else none

  unfoldable pub build_scenario_summary : List (ScenarioResults D) → List ℤ → ℕ → Option (Summary D)
  unfolding has_layout build_aggregate
  build_scenario_summary results thread_counts scenario_index =
      let num_scenarios = length results / length thread_counts in
      if has_layout results thread_counts && ltb scenario_index num_scenarios
      then some (build_aggregate results thread_counts num_scenarios (scenario_index ∷ []))
      else none
