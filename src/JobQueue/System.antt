-- ===== src/JobQueue/System.antt =====
-- The worker threads over the shared queue, as interleavings of the blocks under the lock
-- (server_core/src/job_queue.cpp: `correctness_worker_loop`, `execute_job`) and the phase calls that
-- a job's lanes make (server_core/src/pipeline_steps.cpp: `run_lane`, whose guard leaves the phase).
use c_tests_runner.Base.{
  ℕ, zero, suc, String, Bool, true, Option, some, List, [], ◌∷◌, ◌++◌, ◌≡◌, get_elem?, set,
}
use c_tests_runner.Base.Json.{JsonApi}
use c_tests_runner.Base.Result.{Result, ok}
use c_tests_runner.ApiTypes.{JobStatus}
use c_tests_runner.JobQueue.{Queue, new_queue}
use c_tests_runner.JobQueue.Jobs.{submit, cancel, set_job_retention_seconds}
use c_tests_runner.JobQueue.Phases.{
  drained, stopped, took, take_job, release_worker, enter_correctness_phase, exit_correctness_phase,
  request_perf_phase, enter_perf_phase, exit_perf_phase, resize_correctness_pool, begin_shutdown,
  set_executor,
}
use c_tests_runner.JobQueue.Execute.{update_status, store_outcome, take_callback}

-- Where in a job's execution a worker stands.
pub data Lane : Type 0 where
  outside correctness awaiting_perf performance : Lane

pub data Worker : Type 0 where
  waiting : Worker
  executing : String → Lane → Worker
  finishing : String → Worker
  releasing : Worker
  exited : Worker

pub record System (J : Type 0) : Type 0 where
  pub queue : Queue J
  pub workers : List Worker

abbrev pub fresh_workers : ℕ → List Worker
fresh_workers zero = []
fresh_workers (suc n) = waiting ∷ fresh_workers n

unfoldable pub new_system : {J : Type 0} → ℕ → System J
new_system n = record { queue = new_queue true n; workers = fresh_workers n }

abbrev pub moved : {J : Type 0} → System J → ℕ → Worker → Queue J → System J
moved s i w q = record { queue = q; workers = set s.workers i w }

module _ {J : Type 0} (api : JsonApi J) where
  -- A step of worker `i`, or a call from outside.
  pub data Step (s t : System J) : Type 0 where
    take :
        (i now : ℕ) (id : String) (q : Queue J)
        → get_elem? s.workers i ≡ some waiting
        → take_job api.null now s.queue ≡ took id q
        → t ≡ moved s i (executing id outside) q
        → Step s t
    drain :
        (i now : ℕ) (q : Queue J)
        → get_elem? s.workers i ≡ some waiting
        → take_job api.null now s.queue ≡ drained q
        → t ≡ moved s i exited q
        → Step s t
    leave :
        (i now : ℕ)
        → get_elem? s.workers i ≡ some waiting
        → take_job api.null now s.queue ≡ stopped
        → t ≡ moved s i exited s.queue
        → Step s t
    report :
        (i : ℕ) (id : String) (lane : Lane) (status : JobStatus)
        → get_elem? s.workers i ≡ some (executing id lane)
        → t ≡ record s { queue = update_status api.null id status s.queue }
        → Step s t
    enter_correctness :
        (i : ℕ) (id : String) (q : Queue J)
        → get_elem? s.workers i ≡ some (executing id outside)
        → enter_correctness_phase s.queue ≡ some q
        → t ≡ moved s i (executing id correctness) q
        → Step s t
    exit_correctness :
        (i : ℕ) (id : String)
        → get_elem? s.workers i ≡ some (executing id correctness)
        → t ≡ moved s i (executing id outside) (exit_correctness_phase s.queue)
        → Step s t
    request_perf :
        (i : ℕ) (id : String)
        → get_elem? s.workers i ≡ some (executing id outside)
        → t ≡ moved s i (executing id awaiting_perf) (request_perf_phase s.queue)
        → Step s t
    enter_perf :
        (i : ℕ) (id : String) (q : Queue J)
        → get_elem? s.workers i ≡ some (executing id awaiting_perf)
        → enter_perf_phase s.queue ≡ some q
        → t ≡ moved s i (executing id performance) q
        → Step s t
    exit_perf :
        (i : ℕ) (id : String)
        → get_elem? s.workers i ≡ some (executing id performance)
        → t ≡ moved s i (executing id outside) (exit_perf_phase s.queue)
        → Step s t
    finish :
        (i now : ℕ) (id : String) (outcome : Result J)
        → get_elem? s.workers i ≡ some (executing id outside)
        → t ≡ moved s i (finishing id) (store_outcome api now id outcome s.queue).0
        → Step s t
    notify :
        (i : ℕ) (id : String)
        → get_elem? s.workers i ≡ some (finishing id)
        → t ≡ moved s i releasing (take_callback id s.queue).1
        → Step s t
    release :
        (i : ℕ)
        → get_elem? s.workers i ≡ some releasing
        → t ≡ moved s i waiting (release_worker s.queue)
        → Step s t
    submitting :
        (now : ℕ) (fresh id : String) (request : J) (on_complete on_progress : Option ℕ)
        (q : Queue J)
        → submit api fresh now request on_complete on_progress s.queue ≡ ok (id, q)
        → t ≡ record s { queue = q }
        → Step s t
    cancelling :
        (now : ℕ) (id : String)
        → t ≡ record s { queue = (cancel api.null now id s.queue).1 }
        → Step s t
    resizing :
        (size : ℕ)
        → t ≡ record {
          queue = (resize_correctness_pool size s.queue).0;
          workers = s.workers ++ fresh_workers (resize_correctness_pool size s.queue).1;
        }
        → Step s t
    retaining :
        (sec : ℕ) → t ≡ record s { queue = set_job_retention_seconds sec s.queue } → Step s t
    replacing : (given : Bool) → t ≡ record s { queue = set_executor given s.queue } → Step s t
    shutting_down : t ≡ record s { queue = begin_shutdown s.queue } → Step s t

  pub data Reach (s : System J) : System J → Type 0 where
    here : Reach s s
    next : {t u : System J} → Reach s t → Step t u → Reach s u
