-- ===== src/JobQueue/Runs.antt =====
-- The theorems about job_queue.cpp at concrete queues.
use c_tests_runner.Base.{
  ℕ, zero, ◌≤◌, ◌≡◌, ◌≢◌, refl, String, true, false, Option, none, some, List, [], ◌∷◌, count_if,
  get_elem?,
}
use c_tests_runner.Base.Int.{pos, negsuc}
use c_tests_runner.Base.Json.{JsonApi}
use c_tests_runner.Base.Maps.{lookup, insert, keys, modify, or_default, contains}
use c_tests_runner.Base.Result.{ok, err}
use c_tests_runner.ApiTypes.{JobStatus, queued, failed, cancelled}
use c_tests_runner.JobQueue.{Queue, JobInfo, new_job_info, new_queue}
use c_tests_runner.JobQueue.Jobs.{
  submit, enqueue, cleanup_old_jobs, sweep, cancel, update_queue_positions, number_from,
}
use c_tests_runner.JobQueue.Phases.{
  take_job, enter_perf_phase, enter_correctness_phase, request_perf_phase, start_job,
}
use c_tests_runner.JobQueue.Execute.{store_outcome}
use c_tests_runner.JobQueue.System.{
  System, new_system, performance, executing, awaiting_perf, Reach, here, next, submitting, take,
  request_perf, enter_perf,
}
use c_tests_runner.JobQueue.Gates.{in_correctness, in_performance, in_awaiting}
use c_tests_runner.JobQueue.Exclusion.{performance_exclusive}
use c_tests_runner.JobQueue.Progress.{phases_progress}
use c_tests_runner.JobQueue.Positions.{IsPlaced, positions_kept}
use c_tests_runner.JobQueue.Effects.{status_in, cancel_effect}
use c_tests_runner.JobQueue.Outcomes.{outcome_ends}

abbrev Document : Type 0
Document = List (String × String)

abbrev documents : JsonApi Document
documents = record {
  null = [];
  value = λ j k d. ok (or_default (lookup k j) d);
  put = λ j k v. insert k v j;
  object = λ fields. fields;
}

abbrev request : Document
request = ("jobId", "a") ∷ []

abbrev with_job : Queue Document
with_job = enqueue documents 5 "a" request none none (new_queue true 1)

abbrev busy_queue : Queue Document
busy_queue = start_job [] 6 "a" [] with_job

abbrev performing : System Document
performing = record {
  queue = record busy_queue { perf_running = true };
  workers = executing "a" performance ∷ [];
}

performing_reached : Reach documents (new_system 1) performing
unfolding new_system new_queue enqueue cleanup_old_jobs sweep keys insert lookup submit take_job
    start_job update_queue_positions number_from modify new_job_info request_perf_phase
    enter_perf_phase
performing_reached =
    next
      (next
        (next (next here (submitting 5 "b" "a" request none none with_job refl refl))
          (take zero 6 "a" busy_queue refl refl refl))
        (request_perf zero "a" refl refl))
      (enter_perf zero "a" _ refl refl refl)

performance_exclusive_example :
    (count_if in_performance performing.workers ≤ 1)
    × ((i : ℕ) (id : String)
        → get_elem? performing.workers i ≡ some (executing id performance)
        → count_if in_correctness performing.workers ≡ 0)
unfolding enqueue new_queue start_job update_queue_positions cleanup_old_jobs sweep keys
performance_exclusive_example = performance_exclusive documents 1 performing_reached refl

abbrev awaiting : System Document
awaiting = record {
  queue = record busy_queue { perf_pending = 1 };
  workers = executing "a" awaiting_perf ∷ [];
}

awaiting_reached : Reach documents (new_system 1) awaiting
unfolding new_system new_queue enqueue cleanup_old_jobs sweep keys insert lookup submit take_job
    start_job update_queue_positions number_from modify new_job_info request_perf_phase
awaiting_reached =
    next
      (next (next here (submitting 5 "b" "a" request none none with_job refl refl))
        (take zero 6 "a" busy_queue refl refl refl))
      (request_perf zero "a" refl refl)

phases_progress_example :
    (enter_perf_phase awaiting.queue ≢ none)
    × (count_if in_awaiting awaiting.workers ≡ 0 → enter_correctness_phase awaiting.queue ≢ none)
phases_progress_example = phases_progress documents 1 awaiting_reached refl refl

new_queue-IsPlaced : IsPlaced (new_queue {J = Document} true 1)
unfolding new_queue lookup
new_queue-IsPlaced = record { agree = λ id. refl; distinct = tt }

positions_kept_example :
    ((request : Document) (on_complete on_progress : Option ℕ)
      → contains "a" (new_queue {J = Document} true 1).correctness_queue ≡ false
      → IsPlaced (enqueue documents 5 "a" request on_complete on_progress (new_queue true 1)))
    × IsPlaced (cancel documents.null 5 "a" (new_queue {J = Document} true 1)).1
    × ((rest : List String)
        → (new_queue {J = Document} true 1).correctness_queue ≡ "a" ∷ rest
        → IsPlaced (start_job documents.null 5 "a" rest (new_queue true 1)))
positions_kept_example = positions_kept documents 5 "a" (new_queue true 1) new_queue-IsPlaced

cancel_effect_example :
    let (answer, r) = cancel [] 9 "a" with_job in
    (answer ≡ true
      → (status_in (lookup "a" with_job.jobs) ≡ some queued)
        × (status_in (lookup "a" r.jobs) ≡ some cancelled)
        × (contains "a" r.correctness_queue ≡ false)
        × (lookup "a" r.callbacks ≡ none)
        × (lookup "a" r.progress_callbacks ≡ none)
        × ((k : String) (st : JobStatus)
            → k ≢ "a"
            → status_in (lookup k with_job.jobs) ≡ some st
            → status_in (lookup k r.jobs) ≡ some st))
    × (answer ≡ false → (status_in (lookup "a" with_job.jobs) ≢ some queued) × (r ≡ with_job))
cancel_effect_example = cancel_effect [] 9 "a" with_job

abbrev queued_info : JobInfo Document
queued_info = record {
  job_id = "a";
  status = queued;
  queue_position = pos 1;
  request = request;
  result = [];
  error = "";
  submitted_at = 5;
  started_at = 0;
  finished_at = 0;
}

outcome_ends_example :
    lookup "a" (store_outcome documents 8 "a" (err "no compiler") with_job).0.jobs
    ≡ some (record queued_info {
      status = failed;
      error = "no compiler";
      queue_position = negsuc 0;
      finished_at = 8;
    })
unfolding enqueue new_queue cleanup_old_jobs sweep keys insert lookup new_job_info
outcome_ends_example =
    outcome_ends documents 8 "a" (err "no compiler") with_job queued_info refl "a"
