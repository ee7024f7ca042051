-- ===== src/JobQueue/Outcomes.antt =====
-- How a job ends, and how the pool of workers changes size (job_queue.cpp).
use text.Mathlib.TextEquality.{eq_iff}
use text.Mathlib.TextPositions.{eq_refl}
use c_tests_runner.Base.{
  ℕ, ◌≡◌, ◌∙◌, refl, String, Bool, true, false, Option, none, some, ◌=ₛ◌, if◌then◌else◌, arith,
}
use c_tests_runner.Base.Int.{negsuc}
use c_tests_runner.Base.Json.{JsonApi}
use c_tests_runner.Base.Maps.{lookup, or_default, lookup-modify}
use c_tests_runner.Base.Result.{Result, ok, err}
use c_tests_runner.ApiTypes.{JobStatus, completed, failed, job_status_to_string}
use c_tests_runner.JobQueue.{Queue, JobInfo}
use c_tests_runner.JobQueue.Execute.{
  store_outcome, store_result, store_exception, store_status, store_error,
}

-- How a job ends, read off the executor's outcome alone: the status, the error text, and the
-- document that is kept, if there is one.
pub record Ending (J : Type 0) : Type 0 where
  pub status : JobStatus
  pub error : String
  pub kept : Option J

module _ {J : Type 0} (api : JsonApi J) where
  abbrev pub ending_of : J → Result String → Result String → Ending J
  ending_of result (err what) error = record { status = failed; error = what; kept = none }
  ending_of result (ok status) (err what) = record {
    status = failed;
    error = what;
    kept = some result;
  }
  ending_of result (ok status) (ok error) = record {
    status = if status =ₛ "failed" then failed else completed;
    error = error;
    kept = some result;
  }

  abbrev pub ending : Bool → Result J → Ending J
  ending false outcome = record {
    status = failed;
    error = "JobQueue: executor not set";
    kept = none;
  }
  ending true (err what) = record { status = failed; error = what; kept = none }
  ending true (ok result) =
      ending_of result (api.value result "status" "") (api.value result "error" "")

  abbrev pub ended : ℕ → Ending J → JobInfo J → JobInfo J
  ended now e info = record info {
    status = e.status;
    error = e.error;
    result = or_default e.kept info.result;
    queue_position = negsuc 0;
    finished_at = now;
  }

  failed_name : job_status_to_string failed ≡ "failed"
  unfolding job_status_to_string
  failed_name = refl

  exception_lem :
      (now : ℕ) (id what : String) (q : Queue J) (info : JobInfo J) (k : String)
      → lookup id q.jobs ≡ some info
      → lookup k (store_exception api now id what q).0.jobs ≡ (
          if id =ₛ k
          then some (record info {
            status = failed;
            error = what;
            queue_position = negsuc 0;
            finished_at = now;
          })
          else lookup k q.jobs)
  unfolding store_exception
  exception_lem now id what q info k known = rw (lookup-modify, known)

  status_lem :
      (id : String) (is_failed : Bool) (result : J) (q : Queue J) (info : JobInfo J) (k : String)
      → lookup id q.jobs ≡ some info
      → lookup k (store_status api id is_failed result q).jobs ≡ (
          if id =ₛ k
          then some
              (record info { status = if is_failed then failed else completed; result = result })
          else lookup k q.jobs)
  unfolding store_status
  status_lem id is_failed result q info k known = rw (lookup-modify, known)

  error_lem :
      (now : ℕ) (id error : String) (q : Queue J) (info : JobInfo J) (k : String)
      → lookup id q.jobs ≡ some info
      → lookup k (store_error api now id error q).jobs ≡ (
          if id =ₛ k
          then some (record info { error = error; queue_position = negsuc 0; finished_at = now })
          else lookup k q.jobs)
  unfolding store_error
  error_lem now id error q info k known = rw (lookup-modify, known)

  result_ends :
      (now : ℕ) (id : String) (result : J) (status error : Result String) (q : Queue J)
      (info : JobInfo J)
      → lookup id q.jobs ≡ some info
      → api.value result "status" "" ≡ status
      → api.value result "error" "" ≡ error
      → (k : String)
      → lookup k (store_result api now id result q).0.jobs ≡ (
          if id =ₛ k
          then some (ended now (ending_of result status error) info)
          else lookup k q.jobs)
  unfolding store_result
  result_ends now id result (err what) error q info known s e k =
      rw (s, store_result) (exception_lem now id what q info k known)
  result_ends now id result (ok status) (err what) q info known s e k =
      let f = status =ₛ job_status_to_string failed in
      let at = λ (j : String). status_lem id f result q info j known in
      rw (s, store_result, e)
        (exception_lem now id what (store_status api id f result q)
            (record info { status = if f then failed else completed; result = result }) k
            (at id ∙ rw eq_refl)
          ∙ ground (arith, at k, eq_iff id k))
  result_ends now id result (ok status) (ok error) q info known s e k =
      let f = status =ₛ job_status_to_string failed in
      let at = λ (j : String). status_lem id f result q info j known in
      rw (s, store_result, e)
        (error_lem now id error (store_status api id f result q)
            (record info { status = if f then failed else completed; result = result }) k
            (at id ∙ rw eq_refl)
          ∙ ground (arith, at k, eq_iff id k, failed_name))

  -- Whatever the executor does, whether it returns a document that says failed, one that lacks a
  -- status, one that cannot be read, throws, or is not set at all, the job ends: its status is
  -- completed or failed as the outcome says, with the error's text, and no other job is touched.
  pub outcome_ends :
      (now : ℕ) (id : String) (outcome : Result J) (q : Queue J) (info : JobInfo J)
      → lookup id q.jobs ≡ some info
      → (k : String)
      → lookup k (store_outcome api now id outcome q).0.jobs ≡ (
          if id =ₛ k
          then some (ended now (ending q.has_executor outcome) info)
          else lookup k q.jobs)
  unfolding store_outcome
  outcome_ends now id (err what) q info known k = ground (
    arith,
    exception_lem now id what q info k known,
    exception_lem now id "JobQueue: executor not set" q info k known,
  )
  outcome_ends now id (ok result) q info known k = ground (
    arith,
    result_ends now id result (api.value result "status" "") (api.value result "error" "") q info
        known refl refl k,
    exception_lem now id "JobQueue: executor not set" q info k known,
  )
