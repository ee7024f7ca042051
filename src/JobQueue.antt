-- ===== src/JobQueue.antt =====
-- server_core/src/job_queue.h: the members of `JobQueue`, shared by the worker threads and the
-- callers under `mutex_`. Each block under the lock is one function on this record.
-- Counters are unbounded numbers, times are ticks of the steady clock in nanoseconds, and a
-- callback is the number of a `std::function`.
pub mod Jobs
pub mod Phases
pub mod Execute
pub mod System
pub mod Gates
pub mod Moves
pub mod Accounting
pub mod Exclusion
pub mod Progress
pub mod Places
pub mod Positions
pub mod Effects
pub mod Outcomes
pub mod Runs
use c_tests_runner.Base.{ℕ, String, Bool, List, [], Option}
use c_tests_runner.Base.Int.{ℤ, pos}
use c_tests_runner.ApiTypes.{JobStatus, queued}

pub record JobInfo (J : Type 0) : Type 0 where
  pub job_id : String
  pub status : JobStatus
  pub queue_position : ℤ
  pub request : J
  pub result : J
  pub error : String
  pub submitted_at : ℕ
  pub started_at : ℕ
  pub finished_at : ℕ

pub record Queue (J : Type 0) : Type 0 where
  pub has_executor : Bool
  pub jobs : List (String × JobInfo J)
  pub callbacks : List (String × ℕ)
  pub progress_callbacks : List (String × ℕ)
  pub correctness_queue : List String
  pub active_correctness_jobs : ℕ
  pub active_correctness_phases : ℕ
  pub perf_pending : ℕ
  pub perf_running : Bool
  pub stop : Bool
  pub drain_count : ℕ
  pub job_retention_sec : ℕ
  -- the length of `correctness_workers_`
  pub pool_size : ℕ

-- `JobInfo{}`, what `jobs_[id]` makes of a missing key; `null` is the default document.
unfoldable pub new_job_info : {J : Type 0} → J → JobInfo J
new_job_info null = record {
  job_id = "";
  status = queued;
  queue_position = pos 0;
  request = null;
  result = null;
  error = "";
  submitted_at = 0;
  started_at = 0;
  finished_at = 0;
}

-- The constructor: as many workers as asked for, and nothing queued.
unfoldable pub new_queue : {J : Type 0} → Bool → ℕ → Queue J
new_queue has_executor correctness_workers = record {
  has_executor = has_executor;
  jobs = [];
  callbacks = [];
  progress_callbacks = [];
  correctness_queue = [];
  active_correctness_jobs = 0;
  active_correctness_phases = 0;
  perf_pending = 0;
  perf_running = Bool.false;
  stop = Bool.false;
  drain_count = 0;
  job_retention_sec = 300;
  pool_size = correctness_workers;
}
