-- ===== src/Summary.antt =====
-- server_core/src/test_result_builder.cpp: the aggregates over the results of a job. The JSON object
-- is a record with its fields, `none` where it is empty; `double` is an interface.
pub mod Scalability
pub mod Totals
pub mod Gating
mod Runs
use c_tests_runner.Base.{
  ℕ, zero, suc, ◌+◌, ◌*◌, ◌/◌, Bool, true, false, not, ◌||◌, Option, none, some, List, [], ◌∷◌,
  length, get_elem?, ltb, leb, ◌==◌, if◌then◌else◌,
}
use c_tests_runner.Base.Int.{ℤ, pos, negsuc}

-- The operations of `double` that the aggregates use; `over` also takes a number of threads.
pub record Real (D : Type 0) : Type 0 where
  pub zero_real : D
  pub add : D → D → D
  pub above : D → D → Bool
  pub div : D → D → D
  pub over : D → ℤ → D

-- The fields of a test's result that the aggregates read.
pub record TestResult (D : Type 0) : Type 0 where
  pub passed : Bool
  pub time_ms : D
  pub max_rss_kb : ℕ
  pub cg_mem_peak_kb : ℕ
  pub cpu_time_sec : D
  pub timed_out : Bool
  pub oom_killed : Bool
  pub exit_code : ℤ

-- The tests of one scenario at one thread count: `sr.results`.
abbrev pub ScenarioResults : Type 0 → Type 0
ScenarioResults D = List (TestResult D)

pub record Tally (D : Type 0) : Type 0 where
  pub total : ℕ
  pub passed : ℕ
  pub failed : ℕ
  pub failed_timeout : ℕ
  pub failed_oom : ℕ
  pub failed_crash : ℕ
  pub failed_correctness : ℕ
  pub max_time_ms : D
  pub max_rss_kb : ℕ
  pub max_cg_mem_kb : ℕ
  pub total_cpu_sec : D

abbrev pub is_zero : ℤ → Bool
is_zero (pos n) = n == 0
is_zero (negsuc n) = false

abbrev pub larger : ℕ → ℕ → ℕ
larger new old = if ltb old new then new else old

module _ {D : Type 0} (real : Real D) where
  abbrev pub new_tally : Tally D
  new_tally = record {
    total = 0;
    passed = 0;
    failed = 0;
    failed_timeout = 0;
    failed_oom = 0;
    failed_crash = 0;
    failed_correctness = 0;
    max_time_ms = real.zero_real;
    max_rss_kb = 0;
    max_cg_mem_kb = 0;
    total_cpu_sec = real.zero_real;
  }

  -- The measurements of a test.
  unfoldable pub measure : TestResult D → Tally D → Tally D
  measure tr a = record a {
    total = a.total + 1;
    max_time_ms = if real.above tr.time_ms a.max_time_ms then tr.time_ms else a.max_time_ms;
    max_rss_kb = larger tr.max_rss_kb a.max_rss_kb;
    max_cg_mem_kb = larger tr.cg_mem_peak_kb a.max_cg_mem_kb;
    total_cpu_sec = real.add a.total_cpu_sec tr.cpu_time_sec;
  }

  -- The verdict on a test, and the kind of its failure.
  unfoldable pub classify : TestResult D → Tally D → Tally D
  classify tr a =
      let b = record a { failed = a.failed + 1 } in
      if tr.passed
      then record a { passed = a.passed + 1 }
      else if tr.timed_out
      then record b { failed_timeout = b.failed_timeout + 1 }
      else if tr.oom_killed
      then record b { failed_oom = b.failed_oom + 1 }
      else if not (is_zero tr.exit_code)
      then record b { failed_crash = b.failed_crash + 1 }
      else record b { failed_correctness = b.failed_correctness + 1 }

  unfoldable pub tally_tests : ScenarioResults D → Tally D → Tally D
  unfolding measure classify
  tally_tests [] a = a
  tally_tests (tr ∷ trs) a = tally_tests trs (classify tr (measure tr a))

  abbrev pub tally_found : Option (ScenarioResults D) → Tally D → Tally D
  tally_found none a = a
  tally_found (some sr) a = tally_tests sr a

  -- The scenarios of one thread count, whose slab begins at `base`.
  unfoldable pub tally_slab : List (ScenarioResults D) → ℕ → List ℕ → Tally D → Tally D
  unfolding tally_tests
  tally_slab results base [] a = a
  tally_slab results base (s ∷ indices) a =
      tally_slab results base indices (tally_found (get_elem? results (base + s)) a)

  -- The thread counts from the `t`-th on, of which there are `more`.
  unfoldable pub tally_slabs : List (ScenarioResults D) → ℕ → List ℕ → ℕ → ℕ → Tally D → Tally D
  unfolding tally_slab
  tally_slabs results num_scenarios indices t zero a = a
  tally_slabs results num_scenarios indices t (suc more) a =
      tally_slabs results num_scenarios indices (t + 1) more
        (tally_slab results (t * num_scenarios) indices a)
