-- ===== src/JobQueue/Accounting.antt =====
-- The counters of job_queue.cpp against what the worker threads do.
use c_tests_runner.Base.{ℕ, refl, count_if-set, arith}
use c_tests_runner.Base.Json.{JsonApi}
use c_tests_runner.JobQueue.{new_queue}
use c_tests_runner.JobQueue.Jobs.{set_job_retention_seconds}
use c_tests_runner.JobQueue.Phases.{
  release_worker, enter_correctness_phase, exit_correctness_phase, request_perf_phase,
  enter_perf_phase, exit_perf_phase, resize_correctness_pool, begin_shutdown, set_executor,
}
use c_tests_runner.JobQueue.Execute.{update_status, take_callback}
use c_tests_runner.JobQueue.System.{
  outside, performance, waiting, executing, System, new_system, Step, take, drain, leave, report,
  enter_correctness, exit_correctness, request_perf, enter_perf, exit_perf, finish, notify, release,
  submitting, cancelling, resizing, retaining, replacing, shutting_down, Reach, here, next,
}
use c_tests_runner.JobQueue.Gates.{
  in_correctness, in_awaiting, in_performance, is_busy, cancel-SameGates, store_outcome-SameGates,
  submit-SameGates, IsCounted, IsGated,
}
use c_tests_runner.JobQueue.Moves.{
  count-fresh, moved-IsCounted, moved-IsGated, quiet-IsCounted, quiet-IsGated, took_gates,
  drained_gates, resized-IsCounted, resized-IsGated,
}

module _ {J : Type 0} (api : JsonApi J) {s t : System J} where
  -- Every step keeps the counters in agreement with the workers.
  pub step-IsCounted : Step api s t → IsCounted s → IsCounted t
  unfolding enter_correctness_phase exit_correctness_phase request_perf_phase enter_perf_phase
      exit_perf_phase release_worker take_callback update_status begin_shutdown set_executor
      set_job_retention_seconds resize_correctness_pool
  step-IsCounted (take i now id q at woke e) c =
      let g = (took_gates api.null now s.queue q id woke).0 in
      rw e (
        moved-IsCounted s i _ _ q at c (omega (arith, g)) (omega (arith, g)) (omega (arith, g))
          (omega (arith, g)))
  step-IsCounted (drain i now q at woke e) c =
      let d = drained_gates api.null now s.queue q woke in
      rw e (
        moved-IsCounted s i _ _ q at c (ground (arith, d)) (ground (arith, d)) (ground (arith, d))
          (omega (arith, d)))
  step-IsCounted (leave i now at woke e) c =
      rw e (moved-IsCounted s i _ _ _ at c (omega arith) (omega arith) refl (omega arith))
  step-IsCounted (report i id lane status at e) c = rw e (quiet-IsCounted s _ (ground arith) c)
  step-IsCounted (enter_correctness i id q at may e) c =
      rw e
        (moved-IsCounted s i _ _ q at c (ground arith) (ground arith) (ground arith) (ground arith))
  step-IsCounted (exit_correctness i id at e) c =
      rw e
        (moved-IsCounted s i _ _ _ at c (ground arith) (ground arith) (ground arith) (ground arith))
  step-IsCounted (request_perf i id at e) c =
      rw e (moved-IsCounted s i _ _ _ at c (omega arith) (omega arith) refl (omega arith))
  step-IsCounted (enter_perf i id q at may e) c =
      let n = count_if-set in_awaiting s.workers i _ (executing id performance) at in
      rw e (
        moved-IsCounted s i _ _ q at c (ground arith) (ground (arith, n, c.pending)) (ground arith)
          (ground arith))
  step-IsCounted (exit_perf i id at e) c =
      rw e (moved-IsCounted s i _ _ _ at c (omega arith) (omega arith) refl (omega arith))
  step-IsCounted (finish i now id outcome at e) c =
      let g = store_outcome-SameGates api now id outcome s.queue in
      rw e (
        moved-IsCounted s i _ _ _ at c (omega (arith, g)) (omega (arith, g)) (omega (arith, g))
          (omega (arith, g)))
  step-IsCounted (notify i id at e) c =
      rw e (moved-IsCounted s i _ _ _ at c (omega arith) (omega arith) refl (omega arith))
  step-IsCounted (release i at e) c =
      let n = count_if-set is_busy s.workers i _ waiting at in
      rw e (
        moved-IsCounted s i _ _ _ at c (omega (arith, n, c.active)) (omega arith) refl
          (omega arith))
  step-IsCounted (submitting now fresh id request on_complete on_progress q ran e) c = rw e (
      quiet-IsCounted s q
        (submit-SameGates api fresh now request on_complete on_progress s.queue q id ran) c)
  step-IsCounted (cancelling now id e) c =
      rw e (quiet-IsCounted s _ (cancel-SameGates api.null now id s.queue) c)
  step-IsCounted (resizing size e) c = rw e (resized-IsCounted size s c)
  step-IsCounted (retaining sec e) c = rw e (quiet-IsCounted s _ (ground arith) c)
  step-IsCounted (replacing given e) c = rw e (quiet-IsCounted s _ (ground arith) c)
  step-IsCounted (shutting_down e) c = rw e (ground (arith, c))

  -- Every step keeps the gates in agreement with the workers.
  pub step-IsGated : Step api s t → IsCounted s → IsGated s → IsGated t
  unfolding enter_correctness_phase exit_correctness_phase request_perf_phase enter_perf_phase
      exit_perf_phase release_worker take_callback update_status begin_shutdown set_executor
      set_job_retention_seconds resize_correctness_pool
  step-IsGated (take i now id q at woke e) c g =
      let d = (took_gates api.null now s.queue q id woke).0 in
      rw e (
        moved-IsGated s i _ _ q at g (λ h. ground arith) (λ h. omega (arith, d))
          (λ h. ground (arith, d)) (λ h r. ground (arith, d, g.exclusive)))
  step-IsGated (drain i now q at woke e) c g =
      let d = drained_gates api.null now s.queue q woke in
      rw e (
        moved-IsGated s i _ _ q at g (λ h. ground (arith, d)) (λ h. ground (arith, d))
          (λ h. ground (arith, d)) (λ h r. ground (arith, d, g.exclusive)))
  step-IsGated (leave i now at woke e) c g =
      rw e (moved-IsGated s i _ _ _ at g (λ h. h) (λ h. omega arith) (λ h. omega arith) g.exclusive)
  step-IsGated (report i id lane status at e) c g = rw e (quiet-IsGated s _ (ground arith) g)
  step-IsGated (enter_correctness i id q at may e) c g = rw e (
      moved-IsGated s i _ _ q at g (λ h. ground arith) (λ h. ground arith) (λ h. ground arith)
        (λ h r. ground arith))
  step-IsGated (exit_correctness i id at e) c g =
      let n = count_if-set in_correctness s.workers i _ (executing id outside) at in
      rw e (
        moved-IsGated s i _ _ _ at g (λ h. ground arith) (λ h. ground (arith, n, g.phases))
          (λ h. ground arith) (λ h r. ground (arith, g.exclusive)))
  step-IsGated (request_perf i id at e) c g =
      rw e (moved-IsGated s i _ _ _ at g (λ h. h) (λ h. omega arith) (λ h. omega arith) g.exclusive)
  step-IsGated (enter_perf i id q at may e) c g = rw e (
      moved-IsGated s i _ _ q at g (λ h. ground arith) (λ h. ground arith) (λ h. ground arith)
        (λ h r. ground arith))
  step-IsGated (exit_perf i id at e) c g =
      let n = count_if-set in_performance s.workers i _ (executing id outside) at in
      rw e (
        moved-IsGated s i _ _ _ at g (λ h. h) (λ h. omega arith)
          (λ h. ground (arith, n, g.performing h)) (λ h r. cc))
  step-IsGated (finish i now id outcome at e) c g =
      let d = store_outcome-SameGates api now id outcome s.queue in
      rw e (
        moved-IsGated s i _ _ _ at g (λ h. ground (arith, d)) (λ h. omega (arith, d))
          (λ h. ground (arith, d)) (λ h r. ground (arith, d, g.exclusive)))
  step-IsGated (notify i id at e) c g =
      rw e (moved-IsGated s i _ _ _ at g (λ h. h) (λ h. omega arith) (λ h. omega arith) g.exclusive)
  step-IsGated (release i at e) c g =
      rw e (moved-IsGated s i _ _ _ at g (λ h. h) (λ h. omega arith) (λ h. omega arith) g.exclusive)
  step-IsGated (submitting now fresh id request on_complete on_progress q ran e) c g = rw e (
      quiet-IsGated s q
        (submit-SameGates api fresh now request on_complete on_progress s.queue q id ran) g)
  step-IsGated (cancelling now id e) c g =
      rw e (quiet-IsGated s _ (cancel-SameGates api.null now id s.queue) g)
  step-IsGated (resizing size e) c g = rw e (resized-IsGated size s g)
  step-IsGated (retaining sec e) c g = rw e (quiet-IsGated s _ (ground arith) g)
  step-IsGated (replacing given e) c g = rw e (quiet-IsGated s _ (ground arith) g)
  step-IsGated (shutting_down e) c g =
      rw e (record { phases = λ h. cc; performing = λ h. cc; exclusive = λ h r. cc })

module _ {J : Type 0} (api : JsonApi J) {s : System J} where
  pub Reach-IsCounted : {t : System J} → Reach api s t → IsCounted s → IsCounted t
  Reach-IsCounted here c = c
  Reach-IsCounted (next r st) c = step-IsCounted api st (Reach-IsCounted r c)

  pub Reach-IsGated : {t : System J} → Reach api s t → IsCounted s → IsGated s → IsGated t
  Reach-IsGated here c g = g
  Reach-IsGated (next r st) c g = step-IsGated api st (Reach-IsCounted r c) (Reach-IsGated r c g)

module _ {J : Type 0} where
  pub new-IsCounted : (n : ℕ) → IsCounted (new_system {J = J} n)
  unfolding new_system new_queue
  new-IsCounted n = omega (arith, count-fresh n)

  pub new-IsGated : (n : ℕ) → IsGated (new_system {J = J} n)
  unfolding new_system new_queue
  new-IsGated n = ground (arith, count-fresh n)
