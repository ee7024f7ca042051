-- ===== src/JobQueue/Execute.antt =====
-- server_core/src/job_queue.cpp: `execute_job`, block by block.
use c_tests_runner.Base.{ℕ, String, Bool, Option, [], ◌∷◌, ◌=ₛ◌, if◌then◌else◌}
use c_tests_runner.Base.Int.{negsuc}
use c_tests_runner.Base.Json.{JsonApi}
use c_tests_runner.Base.Maps.{lookup, erase, modify}
use c_tests_runner.Base.Result.{Result, ok, err}
use c_tests_runner.ApiTypes.{JobStatus, completed, failed, job_status_to_string}
use c_tests_runner.JobQueue.{Queue, new_job_info}

module _ {J : Type 0} where
  -- `jobs_[job_id].status = new_status`, the updater that is handed to the executor.
  unfoldable pub update_status : J → String → JobStatus → Queue J → Queue J
  update_status null id new_status q = record q {
    jobs = modify id (new_job_info null) (λ info. record info { status = new_status }) q.jobs;
  }

  -- The handler of an exception: the job fails with the exception's text.
  unfoldable pub store_exception : JsonApi J → ℕ → String → String → Queue J → Queue J × J
  store_exception api now id what q = (
    record q {
      jobs =
          modify id (new_job_info api.null)
            (λ info. record info {
              status = failed;
              error = what;
              queue_position = negsuc 0;
              finished_at = now;
            })
            q.jobs;
    },
    api.object (("jobId", id) ∷ ("status", job_status_to_string failed) ∷ ("error", what) ∷ []),
  )

  -- `info.status` and `info.result` are written before "error" is read, which may throw.
  unfoldable pub store_status : JsonApi J → String → Bool → J → Queue J → Queue J
  store_status api id is_failed result q = record q {
    jobs =
        modify id (new_job_info api.null)
          (λ info. record info {
            status = if is_failed then failed else completed;
            result = result;
          })
          q.jobs;
  }

  unfoldable pub store_error : JsonApi J → ℕ → String → String → Queue J → Queue J
  store_error api now id error q = record q {
    jobs =
        modify id (new_job_info api.null)
          (λ info. record info { error = error; queue_position = negsuc 0; finished_at = now })
          q.jobs;
  }

  unfoldable pub store_result : JsonApi J → ℕ → String → J → Queue J → Queue J × J
  unfolding store_status store_error
  store_result api now id result q = elim (api.value result "status" "") [
    | err what ↦ store_exception api now id what q
    | ok status ↦
        let stored = store_status api id (status =ₛ job_status_to_string failed) result q in
        elim (api.value result "error" "") [
          | err what ↦ store_exception api now id what stored
          | ok error ↦ (store_error api now id error stored, result)
        ]
  ]

  -- The `try` block and its handler: the executor's outcome is given, an exception by its text.
  unfoldable pub store_outcome : JsonApi J → ℕ → String → Result J → Queue J → Queue J × J
  store_outcome api now id outcome q =
      if q.has_executor
      then (elim outcome [
        | err what ↦ store_exception api now id what q
        | ok result ↦ store_result api now id result q
      ])
      else store_exception api now id "JobQueue: executor not set" q

  -- The completion callback is taken out of its table, so it can be called once only.
  unfoldable pub take_callback : String → Queue J → Option ℕ × Queue J
  take_callback id q = (
    lookup id q.callbacks,
    record q {
      callbacks = erase id q.callbacks;
      progress_callbacks = erase id q.progress_callbacks;
    },
  )
