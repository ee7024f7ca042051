-- ===== src/JobQueue/Moves.antt =====
-- What a step of one thread does to the counters of job_queue.cpp.
use c_tests_runner.Base.{
  ℕ, zero, suc, ◌+◌, ◌≤◌, ◌≡◌, refl, true, false, some, List, [], ◌∷◌, ◌++◌, String, get_elem?,
  length, length-set, length-append, count_if, count_if-set, count_if-append, arith, if◌then◌else◌,
}
use mathlib.Core.Path.{subst, sym, ◌∙◌}
use c_tests_runner.JobQueue.{Queue}
use c_tests_runner.JobQueue.Jobs.{update_queue_positions}
use c_tests_runner.JobQueue.Phases.{
  dequeue, drained, took, take_job, start_job, resize_correctness_pool,
}
use c_tests_runner.JobQueue.System.{Worker, System, fresh_workers, moved}
use c_tests_runner.JobQueue.Gates.{
  in_correctness, in_awaiting, in_performance, is_busy, SameGates, IsCounted, IsGated,
}

pub count-fresh :
    (n : ℕ)
    → (count_if is_busy (fresh_workers n) ≡ 0)
      × (count_if in_awaiting (fresh_workers n) ≡ 0)
      × (count_if in_correctness (fresh_workers n) ≡ 0)
      × (count_if in_performance (fresh_workers n) ≡ 0)
      × (length (fresh_workers n) ≡ n)
count-fresh zero = (refl, refl, refl, refl, refl)
count-fresh (suc n) = omega (arith, count-fresh n)

module _ {J : Type 0} (s : System J) (i : ℕ) (w v : Worker) (q : Queue J)
    (at : get_elem? s.workers i ≡ some w) where
  pub moved-IsCounted :
      IsCounted s
      → q.active_correctness_jobs + (if is_busy w then 1 else 0)
        ≡ s.queue.active_correctness_jobs + (if is_busy v then 1 else 0)
      → q.perf_pending + (if in_awaiting w then 1 else 0)
        ≡ s.queue.perf_pending + (if in_awaiting v then 1 else 0)
      → q.pool_size ≡ s.queue.pool_size
      → q.drain_count ≤ s.queue.drain_count
      → IsCounted (moved s i v q)
  moved-IsCounted c a p n d = record {
    active = omega (arith, c.active, count_if-set is_busy s.workers i w v at);
    pending = omega (arith, c.pending, count_if-set in_awaiting s.workers i w v at);
    pool = omega (arith, c.pool, length-set s.workers i v);
    drain = omega (arith, c.drain);
  }

  pub moved-IsGated :
      IsGated s
      → (q.stop ≡ false → s.queue.stop ≡ false)
      → (q.stop ≡ false
          → q.active_correctness_phases + (if in_correctness w then 1 else 0)
            ≡ s.queue.active_correctness_phases + (if in_correctness v then 1 else 0))
      → (q.stop ≡ false
          → (if q.perf_running then 1 else 0) + (if in_performance w then 1 else 0)
            ≡ (if s.queue.perf_running then 1 else 0) + (if in_performance v then 1 else 0))
      → (q.stop ≡ false → q.perf_running ≡ true → q.active_correctness_phases ≡ 0)
      → IsGated (moved s i v q)
  moved-IsGated g st a p e = record {
    phases =
        λ h. omega (arith, a h, g.phases (st h), count_if-set in_correctness s.workers i w v at);
    performing = λ h.
        omega (arith, p h, g.performing (st h), count_if-set in_performance s.workers i w v at);
    exclusive = e;
  }

module _ {J : Type 0} (s : System J) (q : Queue J) (same : SameGates q s.queue) where
  pub quiet-IsCounted : IsCounted s → IsCounted (record s { queue = q })
  quiet-IsCounted c = ground arith

  pub quiet-IsGated : IsGated s → IsGated (record s { queue = q })
  quiet-IsGated g = record {
    phases = λ h. ground (arith, g.phases (ground arith));
    performing = λ h. ground (arith, g.performing (ground arith));
    exclusive = λ h r. ground (arith, g.exclusive (ground arith) (ground arith));
  }

pub start_job-SameGates :
    {J : Type 0} (null : J) (now : ℕ) (id : String) (l : List String) (q : Queue J)
    → SameGates
        (start_job null now id l q)
        (record q { active_correctness_jobs = q.active_correctness_jobs + 1 })
unfolding start_job update_queue_positions
start_job-SameGates null now id l q = ground arith

pub dequeue_gates :
    {J : Type 0} (null : J) (now : ℕ) (l : List String) (q r : Queue J) (id : String)
    → dequeue null now l q ≡ took id r
    → SameGates r (record q { active_correctness_jobs = q.active_correctness_jobs + 1 })
      × (q.perf_running ≡ false)
      × (q.perf_pending ≡ 0)
dequeue_gates null now [] q r id h = cc
dequeue_gates null now (x ∷ l) q r id h =
    let e : (start_job null now x l q ≡ r) × (q.perf_running ≡ false) × (q.perf_pending ≡ 0) =
      ground arith in
    (
      subst
          (λ z. SameGates z (record q { active_correctness_jobs = q.active_correctness_jobs + 1 }))
          e.0 (start_job-SameGates null now x l q),
      e.1,
      e.2,
    )

-- What a taken job, a drained worker tell of the gates.
module _ {J : Type 0} (null : J) (now : ℕ) (q r : Queue J) where
  pub took_gates :
      (id : String)
      → take_job null now q ≡ took id r
      → SameGates r (record q { active_correctness_jobs = q.active_correctness_jobs + 1 })
        × (q.perf_running ≡ false)
        × (q.perf_pending ≡ 0)
        × (q.drain_count ≡ 0)
  unfolding take_job
  took_gates id h =
      let d : (q.drain_count ≡ 0) × (dequeue null now q.correctness_queue q ≡ took id r) =
        ground arith in
      let g = dequeue_gates null now q.correctness_queue q r id d.1 in (g.0, g.1, g.2, d.0)

  pub drained_gates :
      take_job null now q ≡ drained r
      → (r ≡ record q { drain_count = r.drain_count }) × (r.drain_count + 1 ≡ q.drain_count)
  unfolding take_job
  drained_gates h = ground arith

pub resized-IsCounted :
    {J : Type 0} (size : ℕ) (s : System J)
    → IsCounted s
    → IsCounted (record {
      queue = (resize_correctness_pool size s.queue).0;
      workers = s.workers ++ fresh_workers (resize_correctness_pool size s.queue).1;
    })
unfolding resize_correctness_pool
resized-IsCounted size s c =
    let n = (resize_correctness_pool size s.queue).1 in
    let f = count-fresh n in
    record {
      active = ground (arith, c.active, count_if-append is_busy s.workers (fresh_workers n), f);
      pending =
          ground (arith, c.pending, count_if-append in_awaiting s.workers (fresh_workers n), f);
      pool = ground (arith, c.pool, length-append s.workers (fresh_workers n), f);
      drain = ground (arith, c.drain);
    }

pub resized-IsGated :
    {J : Type 0} (size : ℕ) (s : System J)
    → IsGated s
    → IsGated (record {
      queue = (resize_correctness_pool size s.queue).0;
      workers = s.workers ++ fresh_workers (resize_correctness_pool size s.queue).1;
    })
unfolding resize_correctness_pool
resized-IsGated size s g =
    let n = (resize_correctness_pool size s.queue).1 in
    let f = count-fresh n in
    let same : SameGates (resize_correctness_pool size s.queue).0 (record s.queue {
      drain_count = (resize_correctness_pool size s.queue).0.drain_count;
      pool_size = (resize_correctness_pool size s.queue).0.pool_size;
    }) =
      ground arith in
    record {
      phases = λ h. omega (
        arith,
        same,
        g.phases (sym same.stop ∙ h),
        count_if-append in_correctness s.workers (fresh_workers n),
        f,
      );
      performing = λ h. rw same.running (
          omega (
            arith,
            g.performing (sym same.stop ∙ h),
            count_if-append in_performance s.workers (fresh_workers n),
            f,
          ));
      exclusive = λ h r. same.phases ∙ g.exclusive (sym same.stop ∙ h) (sym same.running ∙ r);
    }
