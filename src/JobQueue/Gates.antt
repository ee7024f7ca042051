-- ===== src/JobQueue/Gates.antt =====
-- What the gates of job_queue.cpp read, and what the worker threads do.
use c_tests_runner.Base.{
  ℕ, ◌≤◌, ◌≡◌, Bool, true, false, Option, List, [], ◌∷◌, String, length, count_if, arith,
  if◌then◌else◌,
}
use c_tests_runner.Base.Json.{JsonApi}
use c_tests_runner.Base.Maps.{keys}
use c_tests_runner.Base.Result.{Result, ok}
use c_tests_runner.JobQueue.{Queue}
use c_tests_runner.JobQueue.Jobs.{
  drop_if_stale, submit, enqueue, cancel, cancel_queued, sweep, cleanup_old_jobs,
}
use c_tests_runner.JobQueue.Execute.{store_outcome, store_result, store_exception}
use c_tests_runner.JobQueue.System.{
  correctness, awaiting_perf, performance, Worker, waiting, executing, exited, System,
}

abbrev pub in_correctness : Worker → Bool
in_correctness (executing id correctness) = true
in_correctness _ = false

abbrev pub in_awaiting : Worker → Bool
in_awaiting (executing id awaiting_perf) = true
in_awaiting _ = false

abbrev pub in_performance : Worker → Bool
in_performance (executing id performance) = true
in_performance _ = false

abbrev pub is_busy : Worker → Bool
is_busy waiting = false
is_busy exited = false
is_busy _ = true

-- What the gates read is the same in two queues.
pub record SameGates {J : Type 0} (p q : Queue J) : Type 0 where
  pub active : p.active_correctness_jobs ≡ q.active_correctness_jobs
  pub phases : p.active_correctness_phases ≡ q.active_correctness_phases
  pub pending : p.perf_pending ≡ q.perf_pending
  pub running : p.perf_running ≡ q.perf_running
  pub stop : p.stop ≡ q.stop
  pub drain : p.drain_count ≡ q.drain_count
  pub pool : p.pool_size ≡ q.pool_size

module _ {J : Type 0} where
  pub sweep-SameGates : (now : ℕ) (ids : List String) (q : Queue J) → SameGates (sweep now ids q) q
  unfolding sweep
  sweep-SameGates now [] q = ground arith
  sweep-SameGates now (id ∷ ids) q =
      ground (arith, sweep-SameGates now ids (drop_if_stale now id q))

  pub cancel-SameGates :
      (null : J) (now : ℕ) (id : String) (q : Queue J) → SameGates (cancel null now id q).1 q
  unfolding cancel cancel_queued
  cancel-SameGates null now id q = ground arith

  pub store_outcome-SameGates :
      (api : JsonApi J) (now : ℕ) (id : String) (outcome : Result J) (q : Queue J)
      → SameGates (store_outcome api now id outcome q).0 q
  unfolding store_outcome store_result store_exception
  store_outcome-SameGates api now id outcome q = ground arith

  pub submit-SameGates :
      (api : JsonApi J) (fresh : String) (now : ℕ) (request : J)
      (on_complete on_progress : Option ℕ) (q r : Queue J) (id : String)
      → submit api fresh now request on_complete on_progress q ≡ ok (id, r)
      → SameGates r q
  unfolding submit enqueue cleanup_old_jobs
  submit-SameGates api fresh now request on_complete on_progress q r id h =
      ground (arith, sweep-SameGates now (keys q.jobs) q)

-- The counters that hold whether or not the queue is stopping.
pub record IsCounted {J : Type 0} (s : System J) : Type 0 where
  pub active : s.queue.active_correctness_jobs ≡ count_if is_busy s.workers
  pub pending : s.queue.perf_pending ≡ count_if in_awaiting s.workers
  pub pool : s.queue.pool_size ≡ length s.workers
  pub drain : s.queue.drain_count ≤ s.queue.pool_size

-- The gates until shutdown begins.
pub record IsGated {J : Type 0} (s : System J) : Type 0 where
  pub phases :
      s.queue.stop ≡ false → s.queue.active_correctness_phases ≡ count_if in_correctness s.workers
  pub performing :
      s.queue.stop ≡ false
      → (if s.queue.perf_running then 1 else 0) ≡ count_if in_performance s.workers
  pub exclusive :
      s.queue.stop ≡ false → s.queue.perf_running ≡ true → s.queue.active_correctness_phases ≡ 0
