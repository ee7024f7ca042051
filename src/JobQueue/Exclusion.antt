-- ===== src/JobQueue/Exclusion.antt =====
-- Sandbox exclusivity: what job_queue.h promises of the phases.
use c_tests_runner.Base.{
  String, ℕ, ◌+◌, ◌≤◌, ◌≡◌, true, false, some, count_if, get_elem?, arith, count_if-set,
}
use c_tests_runner.Base.Json.{JsonApi}
use c_tests_runner.JobQueue.{Queue}
use c_tests_runner.JobQueue.Phases.{
  enter_correctness_phase, enter_perf_phase, exit_correctness_phase, exit_perf_phase,
}
use c_tests_runner.JobQueue.System.{System, new_system, Reach, executing, performance, outside}
use c_tests_runner.JobQueue.Gates.{in_correctness, in_performance}
use c_tests_runner.JobQueue.Accounting.{new-IsCounted, new-IsGated, Reach-IsGated}

-- However the workers interleave, until shutdown begins: at most one worker is in a performance
-- phase, and while one is, none is in a correctness phase.
pub performance_exclusive :
    {J : Type 0} (api : JsonApi J) (n : ℕ) {s : System J}
    → Reach api (new_system n) s
    → s.queue.stop ≡ false
    → (count_if in_performance s.workers ≤ 1)
      × ((i : ℕ) (id : String)
          → get_elem? s.workers i ≡ some (executing id performance)
          → count_if in_correctness s.workers ≡ 0)
performance_exclusive api n {s} r h =
    let g = Reach-IsGated api r (new-IsCounted n) (new-IsGated n) in
    (
      ground (arith, g.performing h),
      λ i id at. ground (
        arith,
        g.performing h,
        g.phases h,
        g.exclusive h,
        count_if-set in_performance s.workers i _ (executing id outside) at,
      ),
    )

-- Once shutdown has begun, a correctness phase is let in uncounted, and the exit of its guard takes
-- one of the phases still inside off the counter; a performance phase is let in without the flag,
-- and the exit of its guard clears the flag of the one that still runs.
pub shutdown_exit_miscounts :
    {J : Type 0} (q : Queue J)
    → q.stop ≡ true
    → (enter_correctness_phase q ≡ some q)
      × ((k : ℕ)
          → q.active_correctness_phases ≡ k + 1
          → (exit_correctness_phase q).active_correctness_phases ≡ k)
      × ((p : Queue J)
          → enter_perf_phase q ≡ some p
          → (p.perf_running ≡ q.perf_running) × ((exit_perf_phase p).perf_running ≡ false))
unfolding enter_correctness_phase exit_correctness_phase enter_perf_phase exit_perf_phase
shutdown_exit_miscounts q h = (ground arith, λ k e. ground arith, λ p e. ground arith)
