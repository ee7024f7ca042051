-- ===== src/Pipeline/Gating.antt =====
-- The lanes of a job: which phases are entered and left, and what the result says afterwards.
use mathlib.Core.List.{append_assoc}
use c_tests_runner.Base.{
  ◌≡◌, refl, ap, ◌∙◌, ◌⊎◌, inl, inr, Bool, true, false, ◌&&◌, Option, none, some, String, List, [],
  ◌∷◌, ◌++◌, ◌=ₛ◌, if◌then◌else◌, Bool-cases,
}
use c_tests_runner.Base.Result.{Result, ok, err}
use c_tests_runner.ApiTypes.{
  running, completed, failed, job_status_to_string, all, performance, test_mode_to_string,
}
use c_tests_runner.Summary.{Real, ScenarioResults}
use c_tests_runner.Summary.Scalability.{Summary}
use c_tests_runner.Pipeline.{
  Services, TaskResult, Event, updated, entered_correctness, exited_correctness, entered_perf,
  exited_perf, JobContext,
}
use c_tests_runner.Pipeline.Context.{
  emit, emit_phase, add_step, step_ms, finish_step, fail_step, is_empty,
}
use c_tests_runner.Pipeline.Lanes.{
  LaneResults, all_tests_passed, entered, exited, lane_request, leave_lane, run_lane,
  emit_lane_result, Attempt, Next, after_group, after_lane, try_lane, set_status, skip_performance,
  complete, continue_all, run_all, run_one, settle, step_run_tests,
}
use c_tests_runner.Pipeline.Outline.{gates, gates-append, gates-snoc, gates-phase}

-- A phase that is entered and left.
abbrev pub phase : Bool → List Event
phase is_perf =
    if is_perf
    then entered_perf ∷ exited_perf ∷ []
    else entered_correctness ∷ exited_correctness ∷ []

-- What a job may do at the gates: nothing, one phase, or correctness and then performance, each
-- left before the next event of a gate.
abbrev pub IsLaneRun : List Event → Type 0
IsLaneRun es = (es ≡ []) ⊎ (es ≡ phase false) ⊎ (es ≡ phase true) ⊎ (es ≡ phase false ++ phase true)

module _ {J S G D : Type 0} (service : Services J S G D) where
  pub gates-pair :
      (is_perf : Bool) (es : List Event)
      → gates ((es ++ entered service is_perf ∷ []) ++ exited service is_perf ∷ [])
        ≡ gates es ++ phase is_perf
  unfolding gates
  gates-pair true es =
      rw (append_assoc es (entered_perf ∷ []) (exited_perf ∷ []), gates-append es (phase true)) refl
  gates-pair false es =
      rw
        (
          append_assoc es (entered_correctness ∷ []) (exited_correctness ∷ []),
          gates-append es (phase false),
        )
        refl

  -- A lane adds its phase to the gates, and leaves alone what the verdict on the job needs.
  abbrev pub AfterLane : Bool → JobContext J G D → JobContext J G D → Type 0
  AfterLane is_perf old new =
      (gates new.events ≡ gates old.events ++ phase is_perf)
      × (new.result.failed_step ≡ old.result.failed_step)
      × (new.plugin_load_error ≡ old.plugin_load_error)

  leave_lane-AfterLane :
      (r : Result (List (ScenarioResults D))) (step_name : String) (is_perf : Bool)
      (ctx : JobContext J G D)
      → AfterLane is_perf ctx
          (leave_lane service r step_name is_perf
            (emit (entered service is_perf) (emit_phase step_name "" ctx))).1
  unfolding leave_lane emit emit_phase finish_step add_step step_ms
  leave_lane-AfterLane (err what) step_name is_perf ctx = (
    gates-pair is_perf (emit_phase step_name "" ctx).events
        ∙ ap (λ z. z ++ phase is_perf) (gates-phase ctx.on_progress ctx.events step_name ""),
    refl,
    refl,
  )
  leave_lane-AfterLane (ok results) step_name is_perf ctx = (
    gates-pair is_perf (emit_phase step_name "" ctx).events
        ∙ ap (λ z. z ++ phase is_perf) (gates-phase ctx.on_progress ctx.events step_name ""),
    refl,
    refl,
  )

-- A result that is decided: completed, or failed at a step that it names.
abbrev pub IsDecided : {G D : Type 0} → TaskResult G D → Type 0
IsDecided r =
    ((r.status ≡ some (job_status_to_string completed)) × (r.failed_step ≡ none))
    ⊎ ((r.status ≡ some (job_status_to_string failed)) × ((s : String) × (r.failed_step ≡ some s)))

module _ {J G D : Type 0} where
  -- The tests are over: the gates are left and the result is decided.
  abbrev pub Settled : JobContext J G D → JobContext J G D → Type 0
  Settled old new =
      ((es : List Event) × IsLaneRun es × (gates new.events ≡ gates old.events ++ es))
      × IsDecided new.result

one_phase : (is_perf : Bool) → IsLaneRun (phase is_perf)
one_phase true = inr (inr (inl refl))
one_phase false = inr (inl refl)

module _ {J S G D : Type 0} (service : Services J S G D) (real : Real D) where
  after_group-elim :
      (Q : Attempt service real → Type 0) (key : String) (lane : LaneResults D)
      (summary : List (String × Option (Summary D))) (is_perf : Bool) (ctx c : JobContext J G D)
      (next : Next service real) (r : Result G)
      → AfterLane service is_perf ctx c
      → ((what : String) (s : List (String × Option (Summary D))) (d : JobContext J G D)
          → AfterLane service is_perf ctx d
          → Q (err what, s, d))
      → ((l : LaneResults D) (s : List (String × Option (Summary D))) (d : JobContext J G D)
          → AfterLane service is_perf ctx d
          → Q (next l s d))
      → Q (after_group service real key lane summary c next r)
  unfolding after_group emit_lane_result
  after_group-elim Q key lane summary is_perf ctx c next (err what) a t h = t what summary c a
  after_group-elim Q key lane summary is_perf ctx c next (ok grouped) a t h =
      let stored = emit_lane_result service real key lane grouped summary c in
      h lane stored.0 stored.1 a

  after_lane-elim :
      (Q : Attempt service real → Type 0) (key : String)
      (summary : List (String × Option (Summary D))) (is_perf : Bool) (ctx c : JobContext J G D)
      (next : Next service real) (r : Result (LaneResults D))
      → AfterLane service is_perf ctx c
      → ((what : String) (s : List (String × Option (Summary D))) (d : JobContext J G D)
          → AfterLane service is_perf ctx d
          → Q (err what, s, d))
      → ((l : LaneResults D) (s : List (String × Option (Summary D))) (d : JobContext J G D)
          → AfterLane service is_perf ctx d
          → Q (next l s d))
      → Q (after_lane service real key is_perf summary next r c)
  unfolding after_lane
  after_lane-elim Q key summary is_perf ctx c next (err what) a t h = t what summary c a
  after_lane-elim Q key summary is_perf ctx c next (ok lane) a t h =
      after_group-elim Q key lane summary is_perf ctx c next
        (service.to_grouped_json lane.results lane.thread_counts is_perf) a t h

  -- Whatever holds of the ends of a lane that throws, and of what follows a lane, holds of a lane.
  try_lane-elim :
      (Q : Attempt service real → Type 0) (registry : List S) (step_name key : String)
      (is_perf : Bool) (summary : List (String × Option (Summary D))) (ctx : JobContext J G D)
      (next : Next service real)
      → ((what : String) (s : List (String × Option (Summary D))) (d : JobContext J G D)
          → AfterLane service is_perf ctx d
          → Q (err what, s, d))
      → ((l : LaneResults D) (s : List (String × Option (Summary D))) (d : JobContext J G D)
          → AfterLane service is_perf ctx d
          → Q (next l s d))
      → Q (try_lane service real registry step_name key is_perf summary ctx next)
  unfolding try_lane run_lane
  try_lane-elim Q registry step_name key is_perf summary ctx next t h =
      let begun = emit (entered service is_perf) (emit_phase step_name "" ctx) in
      let r = service.run registry (lane_request service is_perf begun) in
      let ran = leave_lane service r step_name is_perf begun in
      after_lane-elim Q key summary is_perf ctx ran.1 next ran.0
        (leave_lane-AfterLane service r step_name is_perf ctx) t h

  settle_err :
      (what : String) (s : List (String × Option (Summary D))) (old new : JobContext J G D)
      → ((es : List Event) × IsLaneRun es × (gates new.events ≡ gates old.events ++ es))
      → Settled old (settle service real (err what, s, new))
  unfolding settle fail_step finish_step add_step step_ms
  settle_err what [] old new e = (e, inr (refl, ("executeTests", refl)))
  settle_err what (x ∷ s) old new e = (e, inr (refl, ("executeTests", refl)))

  settle_ok :
      (s : List (String × Option (Summary D))) (old new : JobContext J G D)
      → ((es : List Event) × IsLaneRun es × (gates new.events ≡ gates old.events ++ es))
      → IsDecided new.result
      → Settled old (settle service real (ok tt, s, new))
  unfolding settle
  settle_ok [] old new e d = (e, d)
  settle_ok (x ∷ s) old new e d = (e, d)

  run_one-Settled :
      (registry : List S) (ctx : JobContext J G D)
      → ctx.result.failed_step ≡ none
      → Settled ctx (settle service real (run_one service real registry ctx))
  unfolding run_one set_status
  run_one-Settled registry ctx f =
      let is_perf = ctx.mode =ₛ test_mode_to_string performance in
      let one : IsLaneRun (phase is_perf) = one_phase is_perf in
      try_lane-elim (λ a. Settled ctx (settle service real a)) registry
        (if is_perf then "runPerformance" else "runCorrectness") ctx.mode is_perf [] ctx
        (complete service real) (λ what s d a. settle_err what s ctx d (phase is_perf, one, a.0))
        (λ l s d a.
          settle_ok s ctx (set_status service real completed d) (phase is_perf, one, a.0)
            (inl (refl, a.1 ∙ f)))

  two_phases :
      (ctx c d : JobContext J G D)
      → AfterLane service false ctx c
      → AfterLane service true c d
      → (es : List Event) × IsLaneRun es × (gates d.events ≡ gates ctx.events ++ es)
  two_phases ctx c d a b = (
    phase false ++ phase true,
    inr (inr (inr refl)),
    b.0
        ∙ (ap (λ z. z ++ phase true) a.0
            ∙ append_assoc (gates ctx.events) (phase false) (phase true)),
  )

  continue_all-Settled :
      (registry : List S) (ctx c : JobContext J G D) (corr : LaneResults D)
      (summary : List (String × Option (Summary D)))
      → ctx.result.failed_step ≡ none
      → AfterLane service false ctx c
      → Settled ctx (settle service real (continue_all service real registry corr summary c))
  unfolding continue_all set_status skip_performance
  continue_all-Settled registry ctx c corr summary f a =
      elim (Bool-cases (all_tests_passed corr.results && is_empty c.plugin_load_error)) [
        | inl e ↦ rw e (
            try_lane-elim (λ b. Settled ctx (settle service real b)) registry "runPerformance"
              "performance" true summary c (complete service real)
              (λ what s d b. settle_err what s ctx d (two_phases ctx c d a b))
              (λ l s d b.
                settle_ok s ctx (set_status service real completed d) (two_phases ctx c d a b)
                  (inl (refl, b.1 ∙ (a.1 ∙ f)))))
        | inr e ↦ rw e (
            settle_ok summary ctx (skip_performance service real c)
              (phase false, inr (inl refl), a.0) (inr (refl, ("correctnessTests", refl))))
      ]

  run_all-Settled :
      (registry : List S) (ctx : JobContext J G D)
      → ctx.result.failed_step ≡ none
      → Settled ctx (settle service real (run_all service real registry ctx))
  unfolding run_all
  run_all-Settled registry ctx f =
      try_lane-elim (λ a. Settled ctx (settle service real a)) registry "runCorrectness"
        "correctness" false [] ctx (continue_all service real registry)
        (λ what s d a. settle_err what s ctx d (phase false, inr (inl refl), a.0))
        (λ l s d a. continue_all-Settled registry ctx d l s f a)

  pub step_run_tests-Settled :
      (registry : List S) (ctx : JobContext J G D)
      → ctx.result.failed_step ≡ none
      → Settled ctx (step_run_tests service real registry ctx)
  unfolding step_run_tests emit gates
  step_run_tests-Settled registry ctx f =
      let begun = emit (updated running) ctx in
      let same = gates-snoc ctx.events (updated running) refl in
      elim (Bool-cases (ctx.mode =ₛ test_mode_to_string all)) [
        | inl e ↦
            let ((es, run, g), d) = run_all-Settled registry begun f in
            rw e ((es, run, g ∙ ap (λ z. z ++ es) same), d)
        | inr e ↦
            let ((es, run, g), d) = run_one-Settled registry begun f in
            rw e ((es, run, g ∙ ap (λ z. z ++ es) same), d)
      ]
