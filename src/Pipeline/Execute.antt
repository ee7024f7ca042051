-- ===== src/Pipeline/Execute.antt =====
-- server_core/src/pipeline.cpp: `Pipeline::execute`.
use c_tests_runner.Base.{◌-◌, Bool, some, String, List, [], ◌∷◌, ◌++◌, if◌then◌else◌}
use c_tests_runner.Base.Result.{Result, ok, err}
use c_tests_runner.Summary.{Real}
use c_tests_runner.Pipeline.{Request, Services, TaskResult, Event, unloaded, cleaned, JobContext}
use c_tests_runner.Pipeline.Context.{
  Flow, go, halt, throw, and_then, is_empty, emit, new_context, init_job_context,
}
use c_tests_runner.Pipeline.Steps.{
  step_resolve, step_parse_config, step_detect_framework, step_validate, step_build_runner,
  step_build_plugins,
}
use c_tests_runner.Pipeline.Lanes.{step_load_plugins, step_run_tests}

-- A guard at the end of a scope: it runs however the flow ends.
abbrev pub at_exit :
    {J G D : Type 0} → (JobContext J G D → JobContext J G D) → Flow J G D → Flow J G D
at_exit guard (go ctx) = go (guard ctx)
at_exit guard (halt ctx) = halt (guard ctx)
at_exit guard (throw what ctx) = throw what (guard ctx)

-- A directory that a build made is removed.
abbrev pub cleaned_up : String → List Event → List Event
cleaned_up dir es = if is_empty dir then es else es ++ cleaned dir ∷ []

module _ {J S G D : Type 0} (service : Services J S G D) where
  unfoldable pub format_build_info : JobContext J G D → JobContext J G D
  format_build_info ctx = record ctx {
    result = record (ctx.result) {
      build_info =
          if is_empty ctx.plugin_load_error
          then ctx.result.build_info
          else some (service.sanitize ctx.plugin_load_error);
    };
  }

  -- The six steps before the registry.
  unfoldable pub prepare : JobContext J G D → Flow J G D
  unfolding step_resolve step_parse_config step_detect_framework step_validate step_build_runner
      step_build_plugins
  prepare ctx =
      and_then
        (and_then
          (and_then
            (and_then (and_then (step_resolve service ctx) (λ c. step_parse_config service c))
              (λ c. step_detect_framework service c))
            (λ c. step_validate service c))
          (λ c. step_build_runner service c))
        (λ c. step_build_plugins service c)

  -- `build_cleanup`
  unfoldable pub cleanup_builds : JobContext J G D → JobContext J G D
  cleanup_builds ctx = record ctx {
    events = cleaned_up ctx.plugin_build_dir (cleaned_up ctx.runner_build_dir ctx.events);
  }

  unfoldable pub finalize : JobContext J G D → TaskResult G D
  finalize ctx = record (ctx.result) {
    total_time = some (service.clock ctx.readings - ctx.job_start);
    pipeline = ctx.pipeline;
  }

  -- The reply, or the exception that leaves `execute`, and all events.
  abbrev pub reply_of : Flow J G D → Result (TaskResult G D) × List Event
  reply_of (go ctx) = (ok (finalize ctx), (cleanup_builds ctx).events)
  reply_of (halt ctx) = (ok (finalize ctx), (cleanup_builds ctx).events)
  reply_of (throw what ctx) = (err what, (cleanup_builds ctx).events)

module _ {J S G D : Type 0} (service : Services J S G D) (real : Real D) where
  -- The scope of the registry and its guard.
  unfoldable pub run_registered : JobContext J G D → Flow J G D
  unfolding step_load_plugins step_run_tests format_build_info emit
  run_registered ctx =
      at_exit (λ c. emit unloaded c)
        (step_load_plugins service ctx
          (λ registry c. go (format_build_info service (step_run_tests service real registry c))))

  -- `execute` behind `init_job_context`, which throws out of it before anything is done.
  unfoldable pub proceed : Result (JobContext J G D) → Result (TaskResult G D) × List Event
  unfolding prepare run_registered
  proceed (err what) = (err what, [])
  proceed (ok ctx) = reply_of service (and_then (prepare service ctx) (λ c. run_registered c))

  unfoldable pub execute : Request J → String → Bool → Result (TaskResult G D) × List Event
  unfolding new_context init_job_context proceed
  execute request node_id on_progress =
      proceed (init_job_context service (new_context service request node_id on_progress))
