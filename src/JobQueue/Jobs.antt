-- ===== src/JobQueue/Jobs.antt =====
-- server_core/src/job_queue.cpp: submitting, cancelling, inspecting and expiring jobs.
use c_tests_runner.Base.{
  ℕ, ◌+◌, ◌-◌, ◌*◌, String, Bool, true, false, ◌&&◌, ◌||◌, Option, none, some, List, [], ◌∷◌, ◌++◌,
  length, ltb, ◌=ₛ◌, if◌then◌else◌,
}
use c_tests_runner.Base.Int.{pos, negsuc}
use c_tests_runner.Base.Json.{JsonApi}
use c_tests_runner.Base.Maps.{lookup, insert, erase, modify, keys}
use c_tests_runner.Base.Result.{Result, ok, err, ◌>>=◌}
use c_tests_runner.ApiTypes.{
  JobStatus, queued, building, running, completed, failed, cancelled, QueueStatus, busy, idle,
}
use c_tests_runner.JobQueue.{JobInfo, Queue, new_job_info}

abbrev pub is_queued : JobStatus → Bool
is_queued queued = true
is_queued _ = false

abbrev pub is_terminal : JobStatus → Bool
is_terminal completed = true
is_terminal failed = true
is_terminal cancelled = true
is_terminal _ = false

abbrev pub is_active : JobStatus → Bool
is_active building = true
is_active running = true
is_active _ = false

-- Nanoseconds in `std::chrono::seconds(sec)`.
abbrev pub seconds : ℕ → ℕ
seconds sec = sec * 1000000000

abbrev pub store_callback : String → Option ℕ → List (String × ℕ) → List (String × ℕ)
store_callback id none m = m
store_callback id (some f) m = insert id f m

-- `std::remove` of an id from the queue.
unfoldable pub remove_id : String → List String → List String
remove_id id [] = []
remove_id id (j ∷ js) = if j =ₛ id then remove_id id js else j ∷ remove_id id js

module _ {J : Type 0} where
  -- The test of `cleanup_old_jobs`. The clock is monotonic, so `now - finished_at` is no debt.
  abbrev pub is_stale : ℕ → ℕ → JobInfo J → Bool
  is_stale now sec info = is_terminal info.status && ltb (seconds sec) (now - info.finished_at)

  abbrev pub stale_entry : ℕ → ℕ → Option (JobInfo J) → Bool
  stale_entry now sec none = false
  stale_entry now sec (some info) = is_stale now sec info

  abbrev pub drop_job : String → Queue J → Queue J
  drop_job id q = record q {
    jobs = erase id q.jobs;
    callbacks = erase id q.callbacks;
    progress_callbacks = erase id q.progress_callbacks;
  }

  abbrev pub drop_if_stale : ℕ → String → Queue J → Queue J
  drop_if_stale now id q =
      if stale_entry now q.job_retention_sec (lookup id q.jobs) then drop_job id q else q

  -- The loop of `cleanup_old_jobs` over the entries of `jobs_`, given by their keys.
  unfoldable pub sweep : ℕ → List String → Queue J → Queue J
  sweep now [] q = q
  sweep now (id ∷ ids) q = sweep now ids (drop_if_stale now id q)

  unfoldable pub cleanup_old_jobs : ℕ → Queue J → Queue J
  cleanup_old_jobs now q = sweep now (keys q.jobs) q

  -- The first binding of `submit`: the document's `jobId`, or a generated one that is written back.
  unfoldable pub assign_id : JsonApi J → String → J → Result (String × J)
  assign_id api fresh request = do
    id ← api.value request "jobId" ""
    if id =ₛ "" then ok (fresh, api.put request "jobId" fresh) else ok (id, request)

  -- `submit` from the lock on.
  unfoldable pub enqueue : JsonApi J → ℕ → String → J → Option ℕ → Option ℕ → Queue J → Queue J
  enqueue api now id request on_complete on_progress q =
      let c = cleanup_old_jobs now q in
      record c {
        jobs =
            insert id
              (record (new_job_info api.null) {
                job_id = id;
                status = queued;
                queue_position = pos (length c.correctness_queue + 1);
                request = request;
                submitted_at = now;
              })
              c.jobs;
        callbacks = store_callback id on_complete c.callbacks;
        progress_callbacks = store_callback id on_progress c.progress_callbacks;
        correctness_queue = c.correctness_queue ++ id ∷ [];
      }

  -- `submit`; `fresh` is what `generate_job_id` draws.
  unfoldable pub submit :
      JsonApi J → String → ℕ → J → Option ℕ → Option ℕ → Queue J → Result (String × Queue J)
  unfolding assign_id
  submit api fresh now request on_complete on_progress q = do
    (id, stamped) ← assign_id api fresh request
    ok (id, enqueue api now id stamped on_complete on_progress q)

  -- The loop of `update_queue_positions` from index `i` on.
  unfoldable pub number_from :
      J → ℕ → List String → List (String × JobInfo J) → List (String × JobInfo J)
  number_from null i [] m = m
  number_from null i (id ∷ ids) m =
      number_from null (i + 1) ids
        (modify id (new_job_info null) (λ info. record info { queue_position = pos (i + 1) }) m)

  unfoldable pub update_queue_positions : J → Queue J → Queue J
  update_queue_positions null q = record q { jobs = number_from null 0 q.correctness_queue q.jobs }

  -- `cancel` once the job is known to be queued.
  unfoldable pub cancel_queued : J → ℕ → String → JobInfo J → Queue J → Queue J
  unfolding update_queue_positions
  cancel_queued null now id info q = update_queue_positions null (record q {
    jobs =
        insert id (record info { status = cancelled; queue_position = negsuc 0; finished_at = now })
          q.jobs;
    correctness_queue = remove_id id q.correctness_queue;
    callbacks = erase id q.callbacks;
    progress_callbacks = erase id q.progress_callbacks;
  })

  unfoldable pub cancel : J → ℕ → String → Queue J → Bool × Queue J
  cancel null now id q = elim (lookup id q.jobs) [
    | none ↦ (false, q)
    | some info ↦
        if is_queued info.status then (true, cancel_queued null now id info q) else (false, q)
  ]

  unfoldable pub get_job_info : String → Queue J → Result (JobInfo J)
  get_job_info id q = elim (lookup id q.jobs) [
    | none ↦ err (Prim.Native.String.◌++◌ "Unknown job_id: " id)
    | some info ↦ ok info
  ]

  unfoldable pub set_job_retention_seconds : ℕ → Queue J → Queue J
  set_job_retention_seconds sec q = record q { job_retention_sec = if ltb sec 1 then 1 else sec }

-- One entry of the array "jobs" in the report of `get_status`: "position" only where it is positive.
pub record JobEntry : Type 0 where
  pub job_id : String
  pub status : JobStatus
  pub position : Option ℕ

pub record StatusReport : Type 0 where
  pub status : QueueStatus
  pub queue_size : ℕ
  pub active_jobs : ℕ
  pub max_correctness_workers : ℕ
  pub perf_phase_running : Bool
  pub perf_phase_pending : ℕ
  pub jobs : List JobEntry

module _ {J : Type 0} where
  abbrev pub job_entry : JobInfo J → ℕ → JobEntry
  job_entry info n = record {
    job_id = info.job_id;
    status = info.status;
    position = if ltb 0 n then some n else none;
  }

  unfoldable pub active_entries : List (String × JobInfo J) → List JobEntry
  active_entries [] = []
  active_entries ((id, info) ∷ m) =
      if is_active info.status then job_entry info 0 ∷ active_entries m else active_entries m

  abbrev pub entry_at : Option (JobInfo J) → ℕ → List JobEntry → List JobEntry
  entry_at none n rest = rest
  entry_at (some info) n rest = job_entry info n ∷ rest

  unfoldable pub queued_entries : ℕ → List String → List (String × JobInfo J) → List JobEntry
  queued_entries i [] m = []
  queued_entries i (id ∷ ids) m = entry_at (lookup id m) (i + 1) (queued_entries (i + 1) ids m)

  unfoldable pub get_status : Queue J → StatusReport
  get_status q = record {
    status = if q.perf_running || ltb 0 q.active_correctness_jobs then busy else idle;
    queue_size = length q.correctness_queue;
    active_jobs = q.active_correctness_jobs;
    max_correctness_workers = q.pool_size - q.drain_count;
    perf_phase_running = q.perf_running;
    perf_phase_pending = q.perf_pending;
    jobs = active_entries q.jobs ++ queued_entries 0 q.correctness_queue q.jobs;
  }
