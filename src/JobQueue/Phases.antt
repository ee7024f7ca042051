-- ===== src/JobQueue/Phases.antt =====
-- server_core/src/job_queue.cpp: the phase gates, the pool's size, shutdown, and the worker's
-- decision under the lock. A wait on a condition variable is `none` (or `blocked`) while its
-- predicate is false: the thread takes the step when the predicate holds.
use c_tests_runner.Base.{
  ℕ, ◌+◌, ◌-◌, String, Bool, true, false, not, ◌&&◌, ◌||◌, Option, none, some, List, [], ◌∷◌, min,
  ltb, ◌==◌, if◌then◌else◌,
}
use c_tests_runner.Base.Int.{pos}
use c_tests_runner.Base.Maps.{modify}
use c_tests_runner.ApiTypes.{building}
use c_tests_runner.JobQueue.{Queue, new_job_info}
use c_tests_runner.JobQueue.Jobs.{update_queue_positions}

module _ {J : Type 0} where
  unfoldable pub enter_correctness_phase : Queue J → Option (Queue J)
  enter_correctness_phase q =
      if q.stop || (not q.perf_running && (q.perf_pending == 0))
      then some (
          if q.stop
          then q
          else record q { active_correctness_phases = q.active_correctness_phases + 1 })
      else none

  unfoldable pub exit_correctness_phase : Queue J → Queue J
  exit_correctness_phase q =
      if ltb 0 q.active_correctness_phases
      then record q { active_correctness_phases = q.active_correctness_phases - 1 }
      else q

  -- `enter_perf_phase` up to its wait.
  unfoldable pub request_perf_phase : Queue J → Queue J
  request_perf_phase q = record q { perf_pending = q.perf_pending + 1 }

  -- `enter_perf_phase` from its wait on.
  unfoldable pub enter_perf_phase : Queue J → Option (Queue J)
  enter_perf_phase q =
      if q.stop || (not q.perf_running && (q.active_correctness_phases == 0))
      then some (
          let p = record q { perf_pending = q.perf_pending - 1 } in
          if q.stop then p else record p { perf_running = true })
      else none

  unfoldable pub exit_perf_phase : Queue J → Queue J
  exit_perf_phase q = record q { perf_running = false }

  -- `new_size` is clamped to 1 first; the second result is the number of threads to spawn.
  unfoldable pub resize_correctness_pool : ℕ → Queue J → Queue J × ℕ
  resize_correctness_pool requested q =
      let new_size = if ltb requested 1 then 1 else requested in
      let current = q.pool_size - q.drain_count in
      if new_size == current
      then (q, 0)
      else if ltb current new_size
      then (let to_spawn = new_size - current in
          let reclaim = min q.drain_count to_spawn in
          (
            record q {
              drain_count = q.drain_count - reclaim;
              pool_size = q.pool_size + (to_spawn - reclaim);
            },
            to_spawn - reclaim,
          ))
      else (record q { drain_count = q.drain_count + (current - new_size) }, 0)

  -- The destructor's first block.
  unfoldable pub begin_shutdown : Queue J → Queue J
  begin_shutdown q = record q { stop = true }

  unfoldable pub set_executor : Bool → Queue J → Queue J
  set_executor given q = record q { has_executor = given }

abbrev pub is_empty : List String → Bool
is_empty [] = true
is_empty (_ ∷ _) = false

-- What a worker does next: stay in the wait, exit (drained, or stopped), wait again, or take a job.
pub data Wake (J : Type 0) : Type 0 where
  blocked : Wake J
  drained : Queue J → Wake J
  stopped : Wake J
  again : Wake J
  took : String → Queue J → Wake J

module _ {J : Type 0} where
  -- The predicate of the wait on `queue_cv_`.
  unfoldable pub may_wake : Queue J → Bool
  may_wake q =
      q.stop
      || (ltb 0 q.drain_count
          || (not (is_empty q.correctness_queue) && (not q.perf_running && (q.perf_pending == 0))))

  -- The front of the queue leaves it, and its job is being built.
  unfoldable pub start_job : J → ℕ → String → List String → Queue J → Queue J
  start_job null now id rest q =
      let p = update_queue_positions null (record q {
        correctness_queue = rest;
        active_correctness_jobs = q.active_correctness_jobs + 1;
      }) in
      record p {
        jobs =
            modify id (new_job_info null)
              (λ info. record info { status = building; queue_position = pos 0; started_at = now })
              p.jobs;
      }

  abbrev pub dequeue : J → ℕ → List String → Queue J → Wake J
  dequeue null now [] q = again
  dequeue null now (id ∷ rest) q =
      if q.perf_running || ltb 0 q.perf_pending
      then again
      else took id (start_job null now id rest q)

  unfoldable pub take_job : J → ℕ → Queue J → Wake J
  unfolding may_wake
  take_job null now q =
      if not (may_wake q)
      then blocked
      else if ltb 0 q.drain_count
      then drained (record q { drain_count = q.drain_count - 1 })
      else if q.stop && is_empty q.correctness_queue
      then stopped
      else dequeue null now q.correctness_queue q

  -- The block after `execute_job`.
  unfoldable pub release_worker : Queue J → Queue J
  release_worker q = record q { active_correctness_jobs = q.active_correctness_jobs - 1 }
