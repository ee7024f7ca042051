-- ===== src/Grouping.antt =====
-- server_core/src/test_scenario_result_converter.cpp and test_result_converter.cpp: the results of a
-- lane grouped by scenario and test. A JSON object is a record, with `none` where a member is not set.
-- An index out of range, which is undefined behaviour, is an error.
pub mod Rows
pub mod Grid
pub mod Shape
mod Runs
use c_tests_runner.Base.{
  ℕ, zero, suc, ◌+◌, ◌*◌, ◌-◌, ◌/◌, ◌%◌, ltb, ◌==◌, Bool, true, false, not, ◌&&◌, ◌||◌, Option,
  none, some, String, List, [], ◌∷◌, map, length, get_elem?, ◌=ₛ◌, if◌then◌else◌,
}
use c_tests_runner.Base.Int.{ℤ, pos}
use c_tests_runner.Base.Result.{Result, ok, err, ◌>>=◌}
use c_tests_runner.Summary.{Real, TestResult as SummaryResult}
use c_tests_runner.Summary.Scalability.{Summary, build_scenario_summary}
use c_tests_runner.Executor.{ParallelStats, TestResult}
use c_tests_runner.Executor.Run.{TestScenarioResult}

-- `process_stats_json`
pub record ProcessStats (D : Type 0) : Type 0 where
  pub exit_code : ℤ
  pub cg_mem_peak_kb : ℕ
  pub max_rss_kb : ℕ
  pub cpu_time_sec : D
  pub wall_time_sec : D
  pub oom_killed : Bool
  pub timed_out : Bool

pub record RunStats (D : Type 0) : Type 0 where
  pub time_ms : D
  pub speedup : D
  pub efficiency : D
  pub work_ms : Option D
  pub span_ms : Option D
  pub parallelism : Option D
  pub compute_efficiency : Option D
  pub avg_task_work_ms : Option D
  pub load_balance_ratio : Option D

pub record RunEntry (D : Type 0) : Type 0 where
  pub threads : ℕ
  pub passed : Bool
  pub message : Option String
  pub stats : RunStats D
  pub parallel_stats : ParallelStats
  pub process_stats : ProcessStats D
  pub stderr_output : Option String

pub record TestEntry (D : Type 0) : Type 0 where
  pub name : String
  pub runs : List (RunEntry D)

pub record Metrics (D : Type 0) : Type 0 where
  pub t1_ms : D
  pub tp_ms : D
  pub speedup : D
  pub efficiency : D

pub record ScenarioEntry (D : Type 0) : Type 0 where
  pub name : String
  pub tests : List (TestEntry D)
  pub summary : Option (Summary D)
  pub metrics : Option (Metrics D)

-- The further operations of `double`: of an integer, the product, and 1e6.
pub record Doubles (D : Type 0) : Type 0 where
  pub real : Real D
  pub of_nat : ℕ → D
  pub times : D → D → D
  pub mega : D

abbrev pub unless_empty : String → Option String
unless_empty s = if s =ₛ "" then none else some s

abbrev pub when : {A : Type 0} → Bool → A → Option A
when b a = if b then some a else none

-- l[i]
abbrev pub item : {A : Type 0} → List A → ℕ → Result A
item [] i = err "out of range"
item (x ∷ xs) zero = ok x
item (x ∷ xs) (suc i) = item xs i

-- thread_counts.back()
abbrev pub last_count : List ℕ → ℕ
last_count [] = 0
last_count (tc ∷ []) = tc
last_count (tc ∷ (td ∷ more)) = last_count (td ∷ more)

module _ {D : Type 0} where
  unfoldable pub process_stats_json : TestResult D → ProcessStats D
  process_stats_json tr = record {
    exit_code = tr.exit_code;
    cg_mem_peak_kb = tr.cg_mem_peak_kb;
    max_rss_kb = tr.max_rss_kb;
    cpu_time_sec = tr.cpu_time_sec;
    wall_time_sec = tr.wall_time_sec;
    oom_killed = tr.oom_killed;
    timed_out = tr.timed_out;
  }

  -- The fields of a result that the summaries read.
  abbrev pub summary_result : TestResult D → SummaryResult D
  summary_result tr = record {
    passed = tr.passed;
    time_ms = tr.time_ms;
    max_rss_kb = tr.max_rss_kb;
    cg_mem_peak_kb = tr.cg_mem_peak_kb;
    cpu_time_sec = tr.cpu_time_sec;
    timed_out = tr.timed_out;
    oom_killed = tr.oom_killed;
    exit_code = tr.exit_code;
  }

  abbrev pub summary_results : List (TestScenarioResult D) → List (List (SummaryResult D))
  summary_results results = map (λ r. map summary_result r.results) results

module _ {D : Type 0} (d : Doubles D) where
  abbrev pub above_zero : D → Bool
  above_zero x = d.real.above x d.real.zero_real

  abbrev pub quotient : D → D → D
  quotient a b = if above_zero b then d.real.div a b else d.real.zero_real

  -- The statistics of a run at `threads`, with `t1_ms` the time of the test's first run.
  unfoldable pub make_stats : D → ℕ → TestResult D → RunStats D
  make_stats t1_ms threads tr =
      let ps = tr.stats in
      let work_ms = d.real.div (d.of_nat ps.work_ns) d.mega in
      let speedup = quotient t1_ms tr.time_ms in
      let has_work = ltb 0 ps.work_ns in
      record {
        time_ms = tr.time_ms;
        speedup = speedup;
        efficiency = if ltb 0 threads then d.real.over speedup (pos threads) else d.real.zero_real;
        work_ms = when has_work work_ms;
        span_ms = when has_work (d.real.div (d.of_nat ps.span_ns) d.mega);
        parallelism =
            when (has_work && ltb 0 ps.span_ns)
              (d.real.div (d.of_nat ps.work_ns) (d.of_nat ps.span_ns));
        compute_efficiency = when (has_work && (above_zero tr.time_ms && ltb 0 threads)) (
            d.real.div (d.of_nat ps.work_ns)
              (d.times (d.times tr.time_ms d.mega) (d.of_nat threads)));
        avg_task_work_ms =
            when (has_work && ltb 0 ps.tasks_created) (d.real.over work_ms (pos ps.tasks_created));
        load_balance_ratio =
            when (ltb 0 ps.span_ns && (ltb 1 ps.max_threads_used && ltb 0 ps.tasks_created)) (
              d.real.div (d.of_nat ps.work_ns)
                (d.times (d.of_nat ps.span_ns) (d.of_nat ps.max_threads_used)));
      }

  unfoldable pub make_run : D → ℕ → TestResult D → RunEntry D
  unfolding make_stats process_stats_json
  make_run t1_ms threads tr = record {
    threads = threads;
    passed = tr.passed;
    message = unless_empty tr.message;
    stats = make_stats t1_ms threads tr;
    parallel_stats = tr.stats;
    process_stats = process_stats_json tr;
    stderr_output = unless_empty tr.stderr_output;
  }

  abbrev pub sum_time : D → List (TestResult D) → D
  sum_time acc [] = acc
  sum_time acc (tr ∷ trs) = sum_time (d.real.add acc tr.time_ms) trs

  unfoldable pub make_metrics : ℕ → List (TestResult D) → List (TestResult D) → Metrics D
  make_metrics p first final =
      let t1_total = sum_time d.real.zero_real first in
      let tp_total = sum_time d.real.zero_real final in
      record {
        t1_ms = t1_total;
        tp_ms = tp_total;
        speedup = quotient t1_total tp_total;
        efficiency =
            if above_zero tp_total && ltb 0 p
            then d.real.over (d.real.div t1_total tp_total) (pos p)
            else d.real.zero_real;
      }

  module _ (results : List (TestScenarioResult D)) (num_scenarios : ℕ) where
    -- The runs of test `ti` of scenario `s`, from thread count `t` on.
    unfoldable pub group_runs : ℕ → ℕ → D → ℕ → List ℕ → Result (List (RunEntry D))
    unfolding make_run
    group_runs s ti t1_ms t [] = ok []
    group_runs s ti t1_ms t (tc ∷ counts) = do
      r ← item results (t * num_scenarios + s)
      tr ← item r.results ti
      rest ← group_runs s ti t1_ms (t + 1) counts
      ok (make_run t1_ms r.threads tr ∷ rest)

    -- The next `k` tests of scenario `s`, from test `ti` on.
    unfoldable pub group_tests : List ℕ → ℕ → ℕ → ℕ → Result (List (TestEntry D))
    unfolding group_runs
    group_tests counts s ti zero = ok []
    group_tests counts s ti (suc k) = do
      base ← item results s
      first ← item base.results ti
      runs ← group_runs s ti first.time_ms 0 counts
      rest ← group_tests counts s (ti + 1) k
      ok (record { name = first.name; runs = runs } ∷ rest)

    unfoldable pub group_metrics :
        List ℕ → Bool → ℕ → TestScenarioResult D → Result (Option (Metrics D))
    unfolding make_metrics
    group_metrics counts perf_mode s result_t1 =
        if perf_mode && ltb 1 (length counts)
        then (do
          result_tp ← item results ((length counts - 1) * num_scenarios + s)
          ok (some (make_metrics (last_count counts) result_t1.results result_tp.results)))
        else ok none

    unfoldable pub group_scenario : List ℕ → Bool → ℕ → Result (ScenarioEntry D)
    unfolding group_tests group_metrics
    group_scenario counts perf_mode s = do
      base ← item results s
      tests ← group_tests counts s 0 (length base.results)
      metrics ← group_metrics counts perf_mode s base
      ok (record {
        name = base.name;
        tests = tests;
        summary = build_scenario_summary d.real (summary_results results) (map pos counts) s;
        metrics = metrics;
      })

    unfoldable pub group_scenarios : List ℕ → Bool → ℕ → ℕ → Result (List (ScenarioEntry D))
    unfolding group_scenario
    group_scenarios counts perf_mode s zero = ok []
    group_scenarios counts perf_mode s (suc k) = do
      entry ← group_scenario counts perf_mode s
      rest ← group_scenarios counts perf_mode (s + 1) k
      ok (entry ∷ rest)

  unfoldable pub to_grouped_json :
      List (TestScenarioResult D) → List ℕ → Bool → Result (List (ScenarioEntry D))
  unfolding group_scenarios
  to_grouped_json results thread_counts perf_mode =
      if (length results == 0) || (length thread_counts == 0)
      then ok []
      else if not (length results % length thread_counts == 0)
      then ok []
      else group_scenarios results (length results / length thread_counts) thread_counts perf_mode 0
          (length results / length thread_counts)
