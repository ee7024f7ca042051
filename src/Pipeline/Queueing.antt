-- ===== src/Pipeline/Queueing.antt =====
-- The pipeline against the gates of the job queue, which implements its LaneController.
use c_tests_runner.Base.{
  ◌+◌, ◌-◌, ◌≡◌, refl, ap, sym, ◌∙◌, inl, inr, Bool, true, false, Option, none, some, String, List,
  [], ◌∷◌, ◌++◌, arith,
}
use c_tests_runner.JobQueue.{Queue}
use c_tests_runner.JobQueue.Phases.{
  enter_correctness_phase, exit_correctness_phase, request_perf_phase, enter_perf_phase,
  exit_perf_phase,
}
use c_tests_runner.Summary.{Real}
use c_tests_runner.Pipeline.{
  Request, Services, Event, progress, updated, entered_correctness, exited_correctness,
  entered_perf, exited_perf, unloaded, cleaned,
}
use c_tests_runner.Pipeline.Execute.{execute}
use c_tests_runner.Pipeline.Outline.{gates}
use c_tests_runner.Pipeline.Gating.{phase, IsLaneRun}
use c_tests_runner.Pipeline.Verdicts.{execute-lanes}

module _ {Q : Type 0} where
  -- The queue after an event of a job, `none` where the job would wait at a gate.
  unfoldable pub replay : Event → Queue Q → Option (Queue Q)
  unfolding enter_correctness_phase exit_correctness_phase request_perf_phase enter_perf_phase
      exit_perf_phase
  replay (progress p message) q = some q
  replay (updated status) q = some q
  replay entered_correctness q = enter_correctness_phase q
  replay exited_correctness q = some (exit_correctness_phase q)
  replay entered_perf q = enter_perf_phase (request_perf_phase q)
  replay exited_perf q = some (exit_perf_phase q)
  replay unloaded q = some q
  replay (cleaned dir) q = some q

  abbrev pub and_replay : Option (Queue Q) → (Queue Q → Option (Queue Q)) → Option (Queue Q)
  and_replay none f = none
  and_replay (some q) f = f q

  unfoldable pub replay_all : List Event → Queue Q → Option (Queue Q)
  unfolding replay
  replay_all [] q = some q
  replay_all (e ∷ es) q = and_replay (replay e q) (λ p. replay_all es p)

  and_replay_ext :
      (r : Option (Queue Q)) (f g : Queue Q → Option (Queue Q))
      → ((q : Queue Q) → f q ≡ g q)
      → and_replay r f ≡ and_replay r g
  and_replay_ext none f g h = refl
  and_replay_ext (some q) f g h = h q

  and_replay_assoc :
      (r : Option (Queue Q)) (f g : Queue Q → Option (Queue Q))
      → and_replay (and_replay r f) g ≡ and_replay r (λ p. and_replay (f p) g)
  and_replay_assoc none f g = refl
  and_replay_assoc (some q) f g = refl

  -- Only the events of the gates matter.
  replay_all-gates : (es : List Event) (q : Queue Q) → replay_all es q ≡ replay_all (gates es) q
  unfolding replay_all gates
  replay_all-gates [] q = refl
  replay_all-gates (progress p message ∷ es) q = replay_all-gates es q
  replay_all-gates (updated status ∷ es) q = replay_all-gates es q
  replay_all-gates (entered_correctness ∷ es) q =
      and_replay_ext (replay entered_correctness q) (λ p. replay_all es p)
        (λ p. replay_all (gates es) p) (λ p. replay_all-gates es p)
  replay_all-gates (exited_correctness ∷ es) q = replay_all-gates es (exit_correctness_phase q)
  replay_all-gates (entered_perf ∷ es) q =
      and_replay_ext (replay entered_perf q) (λ p. replay_all es p) (λ p. replay_all (gates es) p)
        (λ p. replay_all-gates es p)
  replay_all-gates (exited_perf ∷ es) q = replay_all-gates es (exit_perf_phase q)
  replay_all-gates (unloaded ∷ es) q = replay_all-gates es q
  replay_all-gates (cleaned dir ∷ es) q = replay_all-gates es q

  -- No phase is running or waited for.
  abbrev pub IsOpen : Queue Q → Type 0
  IsOpen q =
      (q.stop ≡ false)
      × (q.perf_running ≡ false)
      × (q.perf_pending ≡ 0)
      × (q.active_correctness_phases ≡ 0)

  -- The job passes all its gates and leaves them open.
  abbrev pub Passes : Queue Q → Option (Queue Q) → Type 0
  Passes q r = (p : Queue Q) × (r ≡ some p) × IsOpen p

  phase-Passes : (is_perf : Bool) (q : Queue Q) → IsOpen q → Passes q (replay_all (phase is_perf) q)
  unfolding replay_all enter_perf_phase request_perf_phase exit_perf_phase enter_correctness_phase
      exit_correctness_phase
  phase-Passes true q o = (
    record q { perf_pending = q.perf_pending + 1 - 1; perf_running = false },
    rw (o.0, o.1, o.2, o.3) refl,
    (o.0, refl, omega arith, o.3),
  )
  phase-Passes false q o = (
    record q { active_correctness_phases = 0 },
    rw (o.0, o.1, o.2, o.3) refl,
    (o.0, o.1, o.2, refl),
  )

  replay_all-append :
      (es fs : List Event) (q : Queue Q)
      → replay_all (es ++ fs) q ≡ and_replay (replay_all es q) (λ p. replay_all fs p)
  unfolding replay_all
  replay_all-append [] fs q = refl
  replay_all-append (e ∷ es) fs q =
      and_replay_ext (replay e q) (λ p. replay_all (es ++ fs) p)
        (λ p. and_replay (replay_all es p) (λ v. replay_all fs v)) (λ p. replay_all-append es fs p)
      ∙ sym (and_replay_assoc (replay e q) (λ p. replay_all es p) (λ p. replay_all fs p))

  lanes-Passes :
      (es : List Event) (q : Queue Q) → IsOpen q → IsLaneRun es → Passes q (replay_all es q)
  unfolding replay_all
  lanes-Passes es q o (inl e) = rw e (q, refl, o)
  lanes-Passes es q o (inr (inl e)) = rw e (phase-Passes false q o)
  lanes-Passes es q o (inr (inr (inl e))) = rw e (phase-Passes true q o)
  lanes-Passes es q o (inr (inr (inr e))) =
      let (p, r, o₁) = phase-Passes false q o in
      let (p₂, r₂, open₂) = phase-Passes true p o₁ in
      rw e (
        p₂,
        replay_all-append (phase false) (phase true) q
            ∙ (ap (λ z. and_replay z (λ v. replay_all (phase true) v)) r ∙ r₂),
        open₂,
      )

-- A job that meets open gates, with no other job in between, waits at none of them and leaves them
-- open, however it ends: with a reply or with an exception.
pub execute-Passes :
    {J S G D Q : Type 0} (service : Services J S G D) (real : Real D) (request : Request J)
    (node_id : String) (on_progress : Bool) (q : Queue Q)
    → IsOpen q
    → Passes q (replay_all (execute service real request node_id on_progress).1 q)
execute-Passes service real request node_id on_progress q o =
    let es = (execute service real request node_id on_progress).1 in
    let (p, r, o₁) =
      lanes-Passes (gates es) q o (execute-lanes service real request node_id on_progress) in
    (p, replay_all-gates es q ∙ r, o₁)
