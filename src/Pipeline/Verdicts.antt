-- ===== src/Pipeline/Verdicts.antt =====
-- A whole run of the pipeline: its reply and its events.
use mathlib.Core.List.{append-nil}
use mathlib.Core.Path.{subst}
use c_tests_runner.Base.{
  ◌≡◌, refl, ap, sym, ◌∙◌, inl, inr, Bool, none, some, String, List, [], ◌++◌, if◌then◌else◌,
  Bool-cases,
}
use c_tests_runner.Base.Result.{Result, ok, err}
use c_tests_runner.Summary.{Real}
use c_tests_runner.Pipeline.{
  Request, Services, Discovered, TaskResult, Event, unloaded, cleaned, JobContext,
}
use c_tests_runner.Pipeline.Context.{
  Flow, go, halt, throw, and_then, is_empty, emit, emit_phase, add_step, step_ms, finish_step,
  new_context, Inputs, read_request, use_inputs, with_inputs, init_job_context,
}
use c_tests_runner.Pipeline.Lanes.{
  Loading, report_discovered, use_cases, use_loaded, count_tests, load_plugins, no_tests,
  step_load_plugins, step_run_tests, WithRegistry,
}
use c_tests_runner.Pipeline.Execute.{
  at_exit, cleaned_up, format_build_info, prepare, run_registered, cleanup_builds, finalize,
  reply_of, proceed, execute,
}
use c_tests_runner.Pipeline.Outline.{gates, gates-snoc, gates-phase}
use c_tests_runner.Pipeline.Order.{Follows, step_names, prepare-Follows}
use c_tests_runner.Pipeline.Gating.{IsLaneRun, IsDecided, step_run_tests-Settled}

module _ {J G D : Type 0} where
  -- A gate run behind a context.
  abbrev pub RunsLanes : JobContext J G D → JobContext J G D → Type 0
  RunsLanes old new = (es : List Event) × IsLaneRun es × (gates new.events ≡ gates old.events ++ es)

  -- The end of the scope of the registry.
  abbrev pub Reached : JobContext J G D → Flow J G D → Type 0
  Reached old (go new) = RunsLanes old new × IsDecided new.result
  Reached old (halt new) = RunsLanes old new × IsDecided new.result
  Reached old (throw what new) = RunsLanes old new

  no_lane : (old new : JobContext J G D) → gates new.events ≡ gates old.events → RunsLanes old new
  no_lane old new g = ([], inl refl, g ∙ sym (append-nil (gates old.events)))

  -- The same run from an earlier context with the same gates.
  Reached-from :
      (old mid : JobContext J G D) (f : Flow J G D)
      → gates mid.events ≡ gates old.events
      → Reached mid f
      → Reached old f
  Reached-from old mid (go new) g ((es, run, e), d) = ((es, run, e ∙ ap (λ z. z ++ es) g), d)
  Reached-from old mid (halt new) g ((es, run, e), d) = ((es, run, e ∙ ap (λ z. z ++ es) g), d)
  Reached-from old mid (throw what new) g (es, run, e) = (es, run, e ∙ ap (λ z. z ++ es) g)

  at_exit-Reached :
      (old : JobContext J G D) (f : Flow J G D)
      → Reached old f
      → Reached old (at_exit (λ c. emit unloaded c) f)
  unfolding emit gates
  at_exit-Reached old (go new) ((es, run, e), d) =
      ((es, run, gates-snoc new.events unloaded refl ∙ e), d)
  at_exit-Reached old (halt new) ((es, run, e), d) =
      ((es, run, gates-snoc new.events unloaded refl ∙ e), d)
  at_exit-Reached old (throw what new) (es, run, e) =
      (es, run, gates-snoc new.events unloaded refl ∙ e)

module _ {J S G D : Type 0} (service : Services J S G D) (old : JobContext J G D)
    (next : WithRegistry service)
    (goes : (registry : List S) (c : JobContext J G D)
      → gates c.events ≡ gates old.events
      → c.result.failed_step ≡ none
      → Reached old (next registry c)) where
  report_discovered-Reached :
      (c : JobContext J G D) (registry : List S) (r : Result Discovered)
      → gates c.events ≡ gates old.events
      → c.result.failed_step ≡ none
      → Reached old (report_discovered service c registry next r)
  unfolding report_discovered
  report_discovered-Reached c registry (err what) g f = no_lane old c g
  report_discovered-Reached c registry (ok d) g f =
      goes registry (record c { result = record (c.result) { tests_discovered = some d } }) g f

  use_cases-Reached :
      (c : JobContext J G D) (plugins : List (String × Bool)) (r : Result (List S))
      → gates c.events ≡ gates old.events
      → c.result.failed_step ≡ none
      → Reached old (use_cases service c plugins next r)
  unfolding use_cases finish_step add_step step_ms
  use_cases-Reached c plugins (err what) g f = no_lane old c g
  use_cases-Reached c plugins (ok registry) g f =
      report_discovered-Reached
        (finish_step service "loadPlugins"
          (if is_empty c.plugin_load_error then "ok" else "partial") c)
        registry (count_tests service registry (no_tests plugins)) g f

  use_loaded-Reached :
      (c : JobContext J G D) (r : Result (Loading S))
      → gates c.events ≡ gates old.events
      → c.result.failed_step ≡ none
      → Reached old (use_loaded service c next r)
  unfolding use_loaded
  use_loaded-Reached c (err what) g f = no_lane old c g
  use_loaded-Reached c (ok found) g f =
      use_cases-Reached (record c { plugin_load_error = found.plugin_load_error })
        found.plugins_loaded (service.load_cases c.test_dir found.registry) g f

  step_load_plugins-Reached :
      old.result.failed_step ≡ none → Reached old (step_load_plugins service old next)
  unfolding step_load_plugins emit_phase
  step_load_plugins-Reached f =
      let c = emit_phase "loadPlugins" "" old in
      use_loaded-Reached c
        (load_plugins service c.plugin_result.plugin_paths
          (record { registry = []; plugin_load_error = c.plugin_load_error; plugins_loaded = [] }))
        (gates-phase old.on_progress old.events "loadPlugins" "") f

-- What a caller sees: the gates of all events, and a reply that is decided.
abbrev pub IsVerdict : {G D : Type 0} → Result (TaskResult G D) × List Event → Type 0
IsVerdict (ok r, es) = IsLaneRun (gates es) × IsDecided r
IsVerdict (err what, es) = IsLaneRun (gates es)

gates-cleaned : (dir : String) (es : List Event) → gates (cleaned_up dir es) ≡ gates es
unfolding gates
gates-cleaned dir es = elim (Bool-cases (is_empty dir)) [
  | inl e ↦ rw e refl
  | inr e ↦ rw e (gates-snoc es (cleaned dir) refl)
]

module _ {J S G D : Type 0} (service : Services J S G D) (real : Real D) where
  run_registered-Reached :
      (ctx : JobContext J G D)
      → ctx.result.failed_step ≡ none
      → Reached ctx (run_registered service real ctx)
  unfolding run_registered format_build_info
  run_registered-Reached ctx f =
      let next : WithRegistry service =
        (λ registry c. go (format_build_info service (step_run_tests service real registry c))) in
      at_exit-Reached ctx (step_load_plugins service ctx next) (
        step_load_plugins-Reached service ctx next
          (λ registry c g h.
            Reached-from ctx c (next registry c) g
              (step_run_tests-Settled service real registry c h))
          f)

  then-Reached :
      (old : JobContext J G D) (f : Flow J G D)
      → old.result.failed_step ≡ none
      → Follows step_names old f
      → Reached old (and_then f (λ c. run_registered service real c))
  then-Reached old (go mid) n (p, q) =
      Reached-from old mid (run_registered service real mid) q.0
        (run_registered-Reached mid (q.2 ∙ n))
  then-Reached old (halt new) n (before, name, after, split, steps, g, s, f) =
      (no_lane old new g, inr (s, (name, f)))
  then-Reached old (throw what new) n g = no_lane old new g

  cleanup-gates :
      (ctx : JobContext J G D) → gates (cleanup_builds service ctx).events ≡ gates ctx.events
  unfolding cleanup_builds
  cleanup-gates ctx =
      gates-cleaned ctx.plugin_build_dir (cleaned_up ctx.runner_build_dir ctx.events)
      ∙ gates-cleaned ctx.runner_build_dir ctx.events

  lanes_alone :
      (old new : JobContext J G D)
      → gates old.events ≡ []
      → RunsLanes old new
      → IsLaneRun (gates (cleanup_builds service new).events)
  lanes_alone old new n (es, run, e) =
      let whole : gates (cleanup_builds service new).events ≡ es =
        cleanup-gates new ∙ (e ∙ ap (λ z. z ++ es) n) in
      subst IsLaneRun (sym whole) run

  reply_of-IsVerdict :
      (old : JobContext J G D) (f : Flow J G D)
      → gates old.events ≡ []
      → Reached old f
      → IsVerdict (reply_of service f)
  unfolding finalize
  reply_of-IsVerdict old (go new) n (run, d) = (lanes_alone old new n run, d)
  reply_of-IsVerdict old (halt new) n (run, d) = (lanes_alone old new n run, d)
  reply_of-IsVerdict old (throw what new) n run = lanes_alone old new n run

  proceed-IsVerdict :
      (ctx : JobContext J G D) (r : Result Inputs)
      → gates ctx.events ≡ []
      → ctx.result.failed_step ≡ none
      → IsVerdict (proceed service real (use_inputs service ctx r))
  unfolding proceed use_inputs gates
  proceed-IsVerdict ctx (err what) n f = inl refl
  proceed-IsVerdict ctx (ok inputs) n f =
      let begun : JobContext J G D = with_inputs service ctx inputs in
      reply_of-IsVerdict begun
        (and_then (prepare service begun) (λ c. run_registered service real c)) n
        (then-Reached begun (prepare service begun) f (prepare-Follows service begun))

  -- A call of the pipeline, whatever the services return or throw: if it replies, the reply is
  -- either "completed" and names no failed step, or "failed" and names one; and reply or exception,
  -- the job passed the gates in one of four ways: not at all, one phase entered and left, or the
  -- correctness phase entered and left and then the performance phase entered and left.
  pub execute-IsVerdict :
      (request : Request J) (node_id : String) (on_progress : Bool)
      → IsVerdict (execute service real request node_id on_progress)
  unfolding execute init_job_context new_context gates
  execute-IsVerdict request node_id on_progress =
      proceed-IsVerdict (new_context service request node_id on_progress)
        (read_request service request) refl refl

  verdict-lanes : (v : Result (TaskResult G D) × List Event) → IsVerdict v → IsLaneRun (gates v.1)
  verdict-lanes (ok r, es) v = v.0
  verdict-lanes (err what, es) v = v

  pub execute-lanes :
      (request : Request J) (node_id : String) (on_progress : Bool)
      → IsLaneRun (gates (execute service real request node_id on_progress).1)
  execute-lanes request node_id on_progress =
      verdict-lanes (execute service real request node_id on_progress)
        (execute-IsVerdict request node_id on_progress)
