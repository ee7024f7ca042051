-- ===== src/JobQueue/Progress.antt =====
-- No phase call waits for ever on a sandbox that nobody uses.
use c_tests_runner.Base.{ℕ, ◌≡◌, ◌≢◌, none, count_if, arith}
use c_tests_runner.Base.Json.{JsonApi}
use c_tests_runner.JobQueue.Phases.{enter_correctness_phase, enter_perf_phase}
use c_tests_runner.JobQueue.System.{System, new_system, Reach}
use c_tests_runner.JobQueue.Gates.{in_correctness, in_performance, in_awaiting}
use c_tests_runner.JobQueue.Accounting.{new-IsCounted, new-IsGated, Reach-IsCounted, Reach-IsGated}

-- In every reachable state in which no worker is inside a phase, a worker that waits for a
-- performance phase may enter it, and if none waits for one, a correctness phase may be entered;
-- before shutdown and after it begins.
pub phases_progress :
    {J : Type 0} (api : JsonApi J) (n : ℕ) {s : System J}
    → Reach api (new_system n) s
    → count_if in_correctness s.workers ≡ 0
    → count_if in_performance s.workers ≡ 0
    → (enter_perf_phase s.queue ≢ none)
      × (count_if in_awaiting s.workers ≡ 0 → enter_correctness_phase s.queue ≢ none)
unfolding enter_correctness_phase enter_perf_phase
phases_progress api n {s} r c p =
    let k = Reach-IsCounted api r (new-IsCounted n) in
    let g = Reach-IsGated api r (new-IsCounted n) (new-IsGated n) in
    (λ e. ground (arith, g.performing, g.phases), λ a e. ground (arith, g.performing, k.pending))
