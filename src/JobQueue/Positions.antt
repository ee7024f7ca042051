-- ===== src/JobQueue/Positions.antt =====
-- The positions that clients see: a job is queued exactly when its id is in the queue, and its
-- `queue_position` is then its place in it, counted from 1.
use mathlib.Core.Path.{subst}
use text.Mathlib.TextEquality.{eq_iff}
use c_tests_runner.Base.{
  ℕ, ◌+◌, ◌≡◌, refl, ◌∙◌, String, Bool, true, false, Option, none, some, List, [], ◌∷◌, ◌=ₛ◌,
  if◌then◌else◌, arith, Bool-cases, Option-cases, inl, inr,
}
use c_tests_runner.Base.Int.{ℤ, pos}
use c_tests_runner.Base.Maps.{
  lookup, modify, keys, contains, lookup-insert, lookup-modify, lookup-erase,
}
use c_tests_runner.JobQueue.{Queue, JobInfo, new_job_info}
use c_tests_runner.JobQueue.Jobs.{
  is_queued, number_from, sweep, drop_if_stale, cleanup_old_jobs, enqueue, update_queue_positions,
  cancel, cancel_queued,
}
use c_tests_runner.JobQueue.Phases.{start_job}
use c_tests_runner.JobQueue.Places.{
  place, Distinct, place-contains, place-found, place-append, Distinct-append, contains-remove_id,
  Distinct-remove_id,
}
use c_tests_runner.Base.Json.{JsonApi}

module _ {J : Type 0} where
  -- The position of a job that is queued.
  abbrev pub slot : Option (JobInfo J) → Option ℤ
  slot none = none
  slot (some info) = if is_queued info.status then some info.queue_position else none

  -- A missing job counts: `jobs_[id]` makes a queued one.
  abbrev pub queued_in : Option (JobInfo J) → Bool
  queued_in none = true
  queued_in (some info) = is_queued info.status

  abbrev numbered : J → ℕ → String → List (String × JobInfo J) → List (String × JobInfo J)
  numbered null i id m =
      modify id (new_job_info null) (λ info. record info { queue_position = pos (i + 1) }) m

  queued_in-numbered :
      (null : J) (i : ℕ) (x j : String) (m : List (String × JobInfo J))
      → queued_in (lookup j (numbered null i x m)) ≡ queued_in (lookup j m)
  unfolding new_job_info
  queued_in-numbered null i x j m =
      rw
        (lookup-modify x j (new_job_info null)
          (λ info. record info { queue_position = pos (i + 1) }) m)
        (ground (arith, eq_iff x j))

  slot-numbered :
      (null : J) (i : ℕ) (x j : String) (m : List (String × JobInfo J))
      → slot (lookup j (numbered null i x m)) ≡ (
          if x =ₛ j
          then (if queued_in (lookup x m) then some (pos (i + 1)) else none)
          else slot (lookup j m))
  unfolding new_job_info
  slot-numbered null i x j m =
      rw
        (lookup-modify x j (new_job_info null)
          (λ info. record info { queue_position = pos (i + 1) }) m)
        (ground (arith, eq_iff x j))

  -- Renumbering gives each id of the list its place, and leaves the other jobs' positions.
  pub slot-number_from :
      (null : J) (i : ℕ) (ids : List String) (m : List (String × JobInfo J)) (j : String)
      → Distinct ids
      → ((k : String) → contains k ids ≡ true → queued_in (lookup k m) ≡ true)
      → slot (lookup j (number_from null i ids m))
        ≡ (if contains j ids then place j i ids else slot (lookup j m))
  unfolding number_from
  slot-number_from null i [] m j d h = refl
  slot-number_from null i (x ∷ xs) m j d h =
      let ih =
        slot-number_from null (i + 1) xs (numbered null i x m) j d.1
          (λ k e. queued_in-numbered null i x k m ∙ h k (ground arith)) in
      ih ∙ ground (arith, slot-numbered null i x j m, eq_iff x j, eq_iff x x, h x, d.0)

  -- The queue and the table of jobs agree.
  pub record IsPlaced (q : Queue J) : Type 0 where
    pub agree : (id : String) → slot (lookup id q.jobs) ≡ place id 0 q.correctness_queue
    pub distinct : Distinct q.correctness_queue

  -- Renumbering a queue whose ids are all queued makes the positions right.
  renumber-IsPlaced :
      (null : J) (q : Queue J)
      → Distinct q.correctness_queue
      → ((k : String) → contains k q.correctness_queue ≡ true → queued_in (lookup k q.jobs) ≡ true)
      → ((k : String) → contains k q.correctness_queue ≡ false → slot (lookup k q.jobs) ≡ none)
      → IsPlaced (update_queue_positions null q)
  unfolding update_queue_positions
  renumber-IsPlaced null q d h n = record {
    agree = λ id.
        slot-number_from null 0 q.correctness_queue q.jobs id d h
        ∙ ground (arith, n id, place-contains id 0 q.correctness_queue);
    distinct = d;
  }

  IsPlaced-queued :
      (q : Queue J)
      → IsPlaced q
      → (k : String) → contains k q.correctness_queue ≡ true
      → queued_in (lookup k q.jobs) ≡ true
  IsPlaced-queued q p k h = ground (arith, p.agree k, place-found k 0 q.correctness_queue h)

  IsPlaced-absent :
      (q : Queue J)
      → IsPlaced q
      → (k : String) → contains k q.correctness_queue ≡ false
      → slot (lookup k q.jobs) ≡ none
  IsPlaced-absent q p k h = p.agree k ∙ place-contains k 0 q.correctness_queue h

  cancel_queued-IsPlaced :
      (null : J) (now : ℕ) (id : String) (info : JobInfo J) (q : Queue J)
      → IsPlaced q
      → IsPlaced (cancel_queued null now id info q)
  unfolding cancel_queued
  cancel_queued-IsPlaced null now id info q p =
      renumber-IsPlaced null _ (Distinct-remove_id id q.correctness_queue p.distinct)
        (λ k h.
          rw lookup-insert
            (ground (arith, contains-remove_id id k q.correctness_queue, IsPlaced-queued q p k)))
        (λ k h.
          rw lookup-insert
            (ground (arith, contains-remove_id id k q.correctness_queue, IsPlaced-absent q p k)))

  -- `cancel` keeps the queue and the table in agreement.
  cancel-IsPlaced :
      (null : J) (now : ℕ) (id : String) (q : Queue J)
      → IsPlaced q
      → IsPlaced (cancel null now id q).1
  unfolding cancel
  cancel-IsPlaced null now id q p = elim (Option-cases (lookup id q.jobs)) [
    | inl e ↦ rw (e, cancel) p
    | inr (info, e) ↦
        rw (e, cancel)
          (elim (Bool-cases (is_queued info.status)) [
            | inl y ↦ rw y (cancel_queued-IsPlaced null now id info q p)
            | inr n ↦ rw n p
          ])
  ]

  -- Taking a job does.
  start_job-IsPlaced :
      (null : J) (now : ℕ) (id : String) (rest : List String) (q : Queue J)
      → q.correctness_queue ≡ id ∷ rest
      → IsPlaced q
      → IsPlaced (start_job null now id rest q)
  unfolding start_job update_queue_positions
  start_job-IsPlaced null now id rest q e p =
      let d : Distinct (id ∷ rest) = subst Distinct e p.distinct in
      let queued : (k : String) → contains k rest ≡ true → queued_in (lookup k q.jobs) ≡ true =
        λ k h. IsPlaced-queued q p k (rw e (ground arith)) in
      record {
        agree = λ k. rw lookup-modify (
            ground (
              arith,
              slot-number_from null 0 rest q.jobs k d.1 queued,
              IsPlaced-absent q p k,
              place-contains k 0 rest,
              eq_iff id k,
              d.0,
              e,
            ));
        distinct = d.1;
      }

  -- Expiry touches terminal jobs only.
  slot-sweep :
      (now : ℕ) (ids : List String) (q : Queue J) (k : String)
      → slot (lookup k (sweep now ids q).jobs) ≡ slot (lookup k q.jobs)
  unfolding sweep
  slot-sweep now [] q k = refl
  slot-sweep now (x ∷ xs) q k =
      slot-sweep now xs (drop_if_stale now x q) k
      ∙ ground (arith, lookup-erase x k q.jobs, eq_iff x k)

  queue-sweep :
      (now : ℕ) (ids : List String) (q : Queue J)
      → (sweep now ids q).correctness_queue ≡ q.correctness_queue
  unfolding sweep
  queue-sweep now [] q = refl
  queue-sweep now (x ∷ xs) q = queue-sweep now xs (drop_if_stale now x q) ∙ ground arith

  -- So does a submission under an id that is not in the queue.
  enqueue-IsPlaced :
      (api : JsonApi J) (now : ℕ) (id : String) (request : J) (on_complete on_progress : Option ℕ)
      (q : Queue J)
      → contains id q.correctness_queue ≡ false
      → IsPlaced q
      → IsPlaced (enqueue api now id request on_complete on_progress q)
  unfolding enqueue cleanup_old_jobs
  enqueue-IsPlaced api now id request on_complete on_progress q fresh p =
      let c = cleanup_old_jobs now q in
      let e : c.correctness_queue ≡ q.correctness_queue = queue-sweep now (keys q.jobs) q in
      let f : contains id c.correctness_queue ≡ false = rw e fresh in
      record {
        agree = λ k. rw lookup-insert (
            ground (
              arith,
              slot-sweep now (keys q.jobs) q k,
              place-append k id 0 c.correctness_queue f,
              p.agree k,
              e,
            ));
        distinct = Distinct-append id c.correctness_queue f (rw e p.distinct);
      }

  -- A job is queued exactly when its id is in the queue, no id is there twice, and each queued job's
  -- position is its place in the queue: a submission under an id that is not in the queue keeps
  -- this, a cancellation does, and so does a worker that takes the front of the queue.
  pub positions_kept :
      (api : JsonApi J) (now : ℕ) (id : String) (q : Queue J)
      → IsPlaced q
      → ((request : J) (on_complete on_progress : Option ℕ)
          → contains id q.correctness_queue ≡ false
          → IsPlaced (enqueue api now id request on_complete on_progress q))
        × IsPlaced (cancel api.null now id q).1
        × ((rest : List String)
            → q.correctness_queue ≡ id ∷ rest
            → IsPlaced (start_job api.null now id rest q))
  positions_kept api now id q p = (
    λ request on_complete on_progress fresh.
        enqueue-IsPlaced api now id request on_complete on_progress q fresh p,
    cancel-IsPlaced api.null now id q p,
    λ rest e. start_job-IsPlaced api.null now id rest q e p,
  )
