-- ===== src/Pipeline/Outline.antt =====
-- The events of the gates, and the names and statuses of the recorded steps.
use mathlib.Core.List.{append-nil}
use c_tests_runner.Base.{
  ◌≡◌, refl, ap, Bool, true, false, some, String, List, [], ◌∷◌, ◌++◌, if◌then◌else◌,
}
use c_tests_runner.ApiTypes.{failed, job_status_to_string}
use c_tests_runner.Pipeline.{
  StepInfo, Event, progress, updated, entered_correctness, exited_correctness, entered_perf,
  exited_perf, unloaded, cleaned, JobContext,
}
use c_tests_runner.Pipeline.Context.{Flow, go, halt, throw}

-- The events of the gates, in order.
unfoldable pub gates : List Event → List Event
gates [] = []
gates (progress phase message ∷ es) = gates es
gates (updated status ∷ es) = gates es
gates (entered_correctness ∷ es) = entered_correctness ∷ gates es
gates (exited_correctness ∷ es) = exited_correctness ∷ gates es
gates (entered_perf ∷ es) = entered_perf ∷ gates es
gates (exited_perf ∷ es) = exited_perf ∷ gates es
gates (unloaded ∷ es) = gates es
gates (cleaned dir ∷ es) = gates es

pub gates-append : (es fs : List Event) → gates (es ++ fs) ≡ gates es ++ gates fs
unfolding gates
gates-append [] fs = refl
gates-append (progress phase message ∷ es) fs = gates-append es fs
gates-append (updated status ∷ es) fs = gates-append es fs
gates-append (entered_correctness ∷ es) fs = ap (◌∷◌ entered_correctness) (gates-append es fs)
gates-append (exited_correctness ∷ es) fs = ap (◌∷◌ exited_correctness) (gates-append es fs)
gates-append (entered_perf ∷ es) fs = ap (◌∷◌ entered_perf) (gates-append es fs)
gates-append (exited_perf ∷ es) fs = ap (◌∷◌ exited_perf) (gates-append es fs)
gates-append (unloaded ∷ es) fs = gates-append es fs
gates-append (cleaned dir ∷ es) fs = gates-append es fs

-- An event of another kind leaves the gates as they are.
pub gates-snoc :
    (es : List Event) (e : Event) → gates (e ∷ []) ≡ [] → gates (es ++ e ∷ []) ≡ gates es
gates-snoc es e h = rw (gates-append es (e ∷ []), h) (append-nil (gates es))

pub gates-phase :
    (on : Bool) (es : List Event) (phase message : String)
    → gates (if on then es ++ progress phase message ∷ [] else es) ≡ gates es
unfolding gates
gates-phase true es phase message = gates-snoc es (progress phase message) refl
gates-phase false es phase message = refl

-- Names and statuses of recorded steps.
unfoldable pub outline : List StepInfo → List (String × String)
outline [] = []
outline (s ∷ ss) = (s.step, s.status) ∷ outline ss

pub outline-snoc :
    (ss : List StepInfo) (s : StepInfo)
    → outline (ss ++ s ∷ []) ≡ outline ss ++ (s.step, s.status) ∷ []
unfolding outline
outline-snoc [] s = refl
outline-snoc (t ∷ ss) s = ap (◌∷◌ (t.step, t.status)) (outline-snoc ss s)

module _ {J G D : Type 0} where
  -- No gate was touched, and the result names no outcome that it did not name before.
  abbrev pub IsQuiet : JobContext J G D → JobContext J G D → Type 0
  IsQuiet old new =
      (gates new.events ≡ gates old.events)
      × (new.result.status ≡ old.result.status)
      × (new.result.failed_step ≡ old.result.failed_step)

  -- How the step `name` may end: it is recorded as done, or as failed and then the result says so;
  -- gates are not touched.
  abbrev pub Ends : String → JobContext J G D → Flow J G D → Type 0
  Ends name old (go new) =
      (outline new.pipeline ≡ outline old.pipeline ++ (name, "ok") ∷ []) × IsQuiet old new
  Ends name old (halt new) =
      (outline new.pipeline ≡ outline old.pipeline ++ (name, "failed") ∷ [])
      × (gates new.events ≡ gates old.events)
      × (new.result.status ≡ some (job_status_to_string failed))
      × (new.result.failed_step ≡ some name)
  Ends name old (throw what new) = gates new.events ≡ gates old.events
