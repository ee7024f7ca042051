-- ===== src/JobQueue/Effects.antt =====
-- What each operation of job_queue.cpp does to the jobs, on every branch.
use text.Mathlib.TextEquality.{eq_iff}
use text.Mathlib.TextPositions.{eq_refl}
use c_tests_runner.Base.{
  ℕ, ◌+◌, ◌≡◌, ◌≢◌, ◌∙◌, refl, String, true, false, Option, none, some, List, [], ◌∷◌, arith,
  Bool-cases, Option-cases, inl, inr,
}
use c_tests_runner.Base.Maps.{lookup, contains, lookup-modify, lookup-insert, lookup-erase}
use c_tests_runner.ApiTypes.{JobStatus, queued, cancelled}
use c_tests_runner.JobQueue.{Queue, JobInfo}
use c_tests_runner.JobQueue.Jobs.{
  is_queued, number_from, update_queue_positions, remove_id, cancel, cancel_queued,
}
use c_tests_runner.JobQueue.Places.{contains-remove_id}

module _ {J : Type 0} where
  abbrev pub status_in : Option (JobInfo J) → Option JobStatus
  status_in none = none
  status_in (some info) = some info.status

  lookup-number_from :
      (null : J) (i : ℕ) (ids : List String) (m : List (String × JobInfo J)) (j : String)
      → contains j ids ≡ false
      → lookup j (number_from null i ids m) ≡ lookup j m
  unfolding number_from
  lookup-number_from null i [] m j h = refl
  lookup-number_from null i (x ∷ xs) m j h =
      lookup-number_from null (i + 1) xs _ j (ground arith) ∙ rw lookup-modify (ground arith)

  status-number_from :
      (null : J) (i : ℕ) (ids : List String) (m : List (String × JobInfo J)) (j : String)
      (st : JobStatus)
      → status_in (lookup j m) ≡ some st
      → status_in (lookup j (number_from null i ids m)) ≡ some st
  unfolding number_from
  status-number_from null i [] m j st h = h
  status-number_from null i (x ∷ xs) m j st h =
      status-number_from null (i + 1) xs _ j st (rw lookup-modify (ground (arith, eq_iff x j)))

  cancel_queued_effect :
      (null : J) (now : ℕ) (id : String) (info : JobInfo J) (q : Queue J)
      → let r = cancel_queued null now id info q in
        (status_in (lookup id r.jobs) ≡ some cancelled)
        × (contains id r.correctness_queue ≡ false)
        × (lookup id r.callbacks ≡ none)
        × (lookup id r.progress_callbacks ≡ none)
        × ((k : String) (st : JobStatus)
            → k ≢ id
            → status_in (lookup k q.jobs) ≡ some st
            → status_in (lookup k r.jobs) ≡ some st)
  unfolding cancel_queued update_queue_positions
  cancel_queued_effect null now id info q = (
    status-number_from null 0 (remove_id id q.correctness_queue) _ id cancelled
        (rw (lookup-insert, eq_refl)),
    ground (arith, contains-remove_id id id q.correctness_queue, eq_iff id id),
    rw (lookup-erase, eq_refl),
    rw (lookup-erase, eq_refl),
    λ k st ne h.
        status-number_from null 0 (remove_id id q.correctness_queue) _ k st
          (rw lookup-insert (ground (arith, eq_iff id k))),
  )

  -- `cancel` answers true exactly for a job that is queued. It then marks the job cancelled, takes
  -- every entry of it out of the queue, forgets both its callbacks, and leaves the status of every
  -- other job; otherwise it changes nothing.
  pub cancel_effect :
      (null : J) (now : ℕ) (id : String) (q : Queue J)
      → let (answer, r) = cancel null now id q in
        (answer ≡ true
          → (status_in (lookup id q.jobs) ≡ some queued)
            × (status_in (lookup id r.jobs) ≡ some cancelled)
            × (contains id r.correctness_queue ≡ false)
            × (lookup id r.callbacks ≡ none)
            × (lookup id r.progress_callbacks ≡ none)
            × ((k : String) (st : JobStatus)
                → k ≢ id
                → status_in (lookup k q.jobs) ≡ some st
                → status_in (lookup k r.jobs) ≡ some st))
        × (answer ≡ false → (status_in (lookup id q.jobs) ≢ some queued) × (r ≡ q))
  unfolding cancel
  cancel_effect null now id q = elim (Option-cases (lookup id q.jobs)) [
    | inl e ↦ rw (e, cancel) (λ h. cc, λ h. (λ k. cc, refl))
    | inr (info, e) ↦
        rw (e, cancel)
          (elim (Bool-cases (is_queued info.status)) [
            | inl y ↦
                let f = cancel_queued_effect null now id info q in
                rw y (λ h. (ground arith, f.0, f.1, f.2, f.3, f.4), λ h. cc)
            | inr n ↦ rw n (λ h. cc, λ h. (λ k. ground arith, refl))
          ])
  ]
