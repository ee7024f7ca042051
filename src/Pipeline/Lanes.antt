-- ===== src/Pipeline/Lanes.antt =====
-- server_core/src/pipeline_steps.cpp: the loading of plugins, the lanes and `step_run_tests`.
use c_tests_runner.Base.{
  ℕ, ◌+◌, Bool, true, false, ◌&&◌, Option, some, String, List, [], ◌∷◌, ◌++◌, map, ◌=ₛ◌,
  if◌then◌else◌,
}
use c_tests_runner.Base.Int.{pos}
use c_tests_runner.Base.Maps.{insert}
use c_tests_runner.Base.Result.{Result, ok, err, ◌>>=◌}
use c_tests_runner.ApiTypes.{
  JobStatus, running, completed, failed, job_status_to_string, all, performance,
  test_mode_to_string,
}
use c_tests_runner.ThreadCounts.{get}
use c_tests_runner.Summary.{Real, TestResult, ScenarioResults}
use c_tests_runner.Summary.Scalability.{Summary, build_summary}
use c_tests_runner.Scenarios.Load.{
  ScenarioType, correctness as correctness_type, performance as performance_type,
}
use c_tests_runner.Pipeline.{
  Services, LaneRequest, Discovered, Event, updated, entered_correctness, exited_correctness,
  entered_perf, exited_perf, JobContext,
}
use c_tests_runner.Pipeline.Context.{
  Flow, throw, times, is_empty, emit, emit_phase, finish_step, fail_step,
}
use Prim.Native.String.{◌++◌ as ◌++ₛ◌}

pub record LaneResults (D : Type 0) : Type 0 where
  pub results : List (ScenarioResults D)
  pub thread_counts : List ℕ

unfoldable pub tests_pass : {D : Type 0} → List (TestResult D) → Bool
tests_pass [] = true
tests_pass (tr ∷ trs) = tr.passed && tests_pass trs

unfoldable pub all_tests_passed : {D : Type 0} → List (ScenarioResults D) → Bool
unfolding tests_pass
all_tests_passed [] = true
all_tests_passed (sr ∷ srs) = tests_pass sr && all_tests_passed srs

-- What the loop over the plugins has found so far.
pub record Loading (S : Type 0) : Type 0 where
  pub registry : List S
  pub plugin_load_error : String
  pub plugins_loaded : List (String × Bool)

abbrev pub add_error : String → String → String
add_error errors what = (if is_empty errors then errors else errors ++ₛ "; ") ++ₛ what

abbrev pub no_tests : List (String × Bool) → Discovered
no_tests plugins_loaded = record {
  correctness_scenarios = 0;
  correctness_tests = 0;
  performance_scenarios = 0;
  performance_tests = 0;
  plugins_loaded = plugins_loaded;
}

abbrev pub is_correctness : ScenarioType → Bool
is_correctness correctness_type = true
is_correctness performance_type = false

module _ {J S G D : Type 0} (service : Services J S G D) where
  unfoldable pub load_plugins : List String → Loading S → Result (Loading S)
  load_plugins [] found = ok found
  load_plugins (path ∷ paths) found =
      let name = service.file_name path in
      service.load_plugin path found.registry >>= λ loaded. load_plugins paths (
        if loaded.1
        then record {
          registry = loaded.0;
          plugin_load_error = found.plugin_load_error;
          plugins_loaded = found.plugins_loaded ++ (name, true) ∷ [];
        }
        else record {
          registry = loaded.0;
          plugin_load_error =
              add_error found.plugin_load_error ("Failed to load plugin: " ++ₛ name);
          plugins_loaded = found.plugins_loaded ++ (name, false) ∷ [];
        })

  unfoldable pub count_tests : List S → Discovered → Result Discovered
  count_tests [] d = ok d
  count_tests (scenario ∷ scenarios) d = service.tests_of scenario >>= λ n. count_tests scenarios (
      if is_correctness (service.scenario_type scenario)
      then record d {
        correctness_scenarios = d.correctness_scenarios + 1;
        correctness_tests = d.correctness_tests + n;
      }
      else record d {
        performance_scenarios = d.performance_scenarios + 1;
        performance_tests = d.performance_tests + n;
      })

  -- What follows the step, with the registry in its hands.
  abbrev pub WithRegistry : Type 0
  WithRegistry = List S → JobContext J G D → Flow J G D

  unfoldable pub report_discovered :
      JobContext J G D → List S → WithRegistry → Result Discovered → Flow J G D
  report_discovered ctx registry next (err what) = throw what ctx
  report_discovered ctx registry next (ok discovered) =
      next registry
        (record ctx { result = record (ctx.result) { tests_discovered = some discovered } })

  unfoldable pub use_cases :
      JobContext J G D → List (String × Bool) → WithRegistry → Result (List S) → Flow J G D
  unfolding finish_step count_tests report_discovered
  use_cases ctx₀ plugins_loaded next (err what) = throw what ctx₀
  use_cases ctx₀ plugins_loaded next (ok registry) =
      let status = if is_empty ctx₀.plugin_load_error then "ok" else "partial" in
      let ctx = finish_step service "loadPlugins" status ctx₀ in
      report_discovered ctx registry next (count_tests registry (no_tests plugins_loaded))

  unfoldable pub use_loaded : JobContext J G D → WithRegistry → Result (Loading S) → Flow J G D
  unfolding use_cases
  use_loaded ctx₀ next (err what) = throw what ctx₀
  use_loaded ctx₀ next (ok found) =
      let ctx = record ctx₀ { plugin_load_error = found.plugin_load_error } in
      use_cases ctx found.plugins_loaded next (service.load_cases ctx.test_dir found.registry)

  unfoldable pub step_load_plugins : JobContext J G D → WithRegistry → Flow J G D
  unfolding emit_phase load_plugins use_loaded
  step_load_plugins ctx₀ next =
      let ctx = emit_phase "loadPlugins" "" ctx₀ in
      use_loaded ctx next (
        load_plugins ctx.plugin_result.plugin_paths (record {
          registry = [];
          plugin_load_error = ctx.plugin_load_error;
          plugins_loaded = [];
        }))

  abbrev pub lane_type : Bool → ScenarioType
  lane_type is_perf = if is_perf then performance_type else correctness_type

  abbrev pub lane_request : Bool → JobContext J G D → LaneRequest
  lane_request is_perf ctx = record {
    runner_exe_path = ctx.runner_result.runner_exe_path;
    scenario_type = lane_type is_perf;
    thread_counts = get ctx.threads;
    monitor_mode = if is_perf then "normal" else ctx.assignment_config.correctness_mode;
    memory_limit_kb = times ctx.memory_limit_mb (pos 1024);
    job_id = ctx.job_id;
    wall_time_sec = ctx.wall_time_sec;
    cpu_time_sec = ctx.cpu_time_sec;
    node_id = ctx.node_id;
    extra_lib_dirs = service.extra_lib_dirs ctx.framework;
    max_processes = ctx.max_processes;
    warmup_iterations = if is_perf then ctx.warmup_iterations else pos 0;
  }

  abbrev pub entered : Bool → Event
  entered is_perf = if is_perf then entered_perf else entered_correctness

  abbrev pub exited : Bool → Event
  exited is_perf = if is_perf then exited_perf else exited_correctness

  -- The phase is left at the end of the scope, after the step is recorded, and also where the
  -- executor throws.
  unfoldable pub leave_lane :
      Result (List (ScenarioResults D))
      → String
      → Bool
      → JobContext J G D
      → Result (LaneResults D) × JobContext J G D
  unfolding emit finish_step
  leave_lane (err what) step_name is_perf ctx = (err what, emit (exited is_perf) ctx)
  leave_lane (ok results) step_name is_perf ctx = (
    ok (record { results = results; thread_counts = get ctx.threads }),
    emit (exited is_perf) (finish_step service step_name "ok" ctx),
  )

  unfoldable pub run_lane :
      List S → String → Bool → JobContext J G D → Result (LaneResults D) × JobContext J G D
  unfolding emit emit_phase leave_lane
  run_lane registry step_name is_perf ctx₀ =
      let ctx = emit (entered is_perf) (emit_phase step_name "" ctx₀) in
      leave_lane (service.run registry (lane_request is_perf ctx)) step_name is_perf ctx

module _ {J S G D : Type 0} (service : Services J S G D) (real : Real D) where
  -- The summary and the context afterwards, with what `to_grouped_json` returned.
  unfoldable pub emit_lane_result :
      String
      → LaneResults D
      → G
      → List (String × Option (Summary D))
      → JobContext J G D
      → List (String × Option (Summary D)) × JobContext J G D
  emit_lane_result key lane grouped summary ctx = (
    insert key (build_summary real lane.results (map pos lane.thread_counts)) summary,
    record ctx {
      result = record (ctx.result) {
        grouped = insert key grouped ctx.result.grouped;
        thread_counts = insert key lane.thread_counts ctx.result.thread_counts;
      };
    },
  )

  -- The end of the `try` block: what was thrown, if anything, the summary and the context.
  abbrev pub Attempt : Type 0
  Attempt = Result (Unit {0}) × List (String × Option (Summary D)) × JobContext J G D

  -- What follows a lane: its result is stored, then `next` goes on.
  abbrev pub Next : Type 0
  Next = LaneResults D → List (String × Option (Summary D)) → JobContext J G D → Attempt

  -- Grouping comes first: where it throws nothing is stored.
  unfoldable pub after_group :
      String
      → LaneResults D
      → List (String × Option (Summary D))
      → JobContext J G D
      → Next
      → Result G
      → Attempt
  unfolding emit_lane_result
  after_group key lane summary ctx next (err what) = (err what, summary, ctx)
  after_group key lane summary ctx next (ok grouped) =
      let stored = emit_lane_result key lane grouped summary ctx in next lane stored.0 stored.1

  unfoldable pub after_lane :
      String
      → Bool
      → List (String × Option (Summary D))
      → Next
      → Result (LaneResults D)
      → JobContext J G D
      → Attempt
  unfolding after_group
  after_lane key is_perf summary next (err what) ctx = (err what, summary, ctx)
  after_lane key is_perf summary next (ok lane) ctx =
      after_group key lane summary ctx next
        (service.to_grouped_json lane.results lane.thread_counts is_perf)

  unfoldable pub try_lane :
      List S
      → String
      → String
      → Bool
      → List (String × Option (Summary D))
      → JobContext J G D
      → Next
      → Attempt
  unfolding run_lane after_lane
  try_lane registry step_name key is_perf summary ctx next =
      let ran = run_lane service registry step_name is_perf ctx in
      after_lane key is_perf summary next ran.0 ran.1

  unfoldable pub set_status : JobStatus → JobContext J G D → JobContext J G D
  set_status status ctx = record ctx {
    result = record (ctx.result) { status = some (job_status_to_string status) };
  }

  unfoldable pub skip_performance : JobContext J G D → JobContext J G D
  skip_performance ctx = record ctx {
    result = record (ctx.result) {
      performance_skipped = true;
      failed_step = some "correctnessTests";
      performance_skip_reason = some (
          if is_empty ctx.plugin_load_error
          then "correctness tests failed"
          else "plugin load error");
      status = some (job_status_to_string failed);
    };
  }

  -- The last lane: the job is completed.
  abbrev pub complete : Next
  complete lane summary ctx = (ok tt, summary, set_status completed ctx)

  -- Mode "all": performance runs only behind a correct and complete correctness lane.
  unfoldable pub continue_all : List S → Next
  unfolding try_lane set_status skip_performance all_tests_passed
  continue_all registry corr summary ctx =
      if all_tests_passed corr.results && is_empty ctx.plugin_load_error
      then try_lane registry "runPerformance" "performance" true summary ctx complete
      else (ok tt, summary, skip_performance ctx)

  unfoldable pub run_all : List S → JobContext J G D → Attempt
  unfolding try_lane continue_all
  run_all registry ctx =
      try_lane registry "runCorrectness" "correctness" false [] ctx (continue_all registry)

  -- Any other mode runs one lane.
  unfoldable pub run_one : List S → JobContext J G D → Attempt
  unfolding try_lane set_status
  run_one registry ctx =
      let is_perf = ctx.mode =ₛ test_mode_to_string performance in
      try_lane registry (if is_perf then "runPerformance" else "runCorrectness") ctx.mode is_perf []
        ctx complete

  abbrev pub with_summary : List (String × Option (Summary D)) → JobContext J G D → JobContext J G D
  with_summary [] ctx = ctx
  with_summary (e ∷ summary) ctx = record ctx {
    result = record (ctx.result) { summary = e ∷ summary };
  }

  unfoldable pub settle : Attempt → JobContext J G D
  unfolding fail_step
  settle (ok u, summary, ctx) = with_summary summary ctx
  settle (err what, summary, ctx) = with_summary summary (
      fail_step service "executeTests" (service.sanitize ("Test execution failed: " ++ₛ what)) []
        ctx)

  unfoldable pub step_run_tests : List S → JobContext J G D → JobContext J G D
  unfolding emit run_all run_one settle
  step_run_tests registry ctx₀ =
      let ctx = emit (updated running) ctx₀ in
      settle
        (if ctx.mode =ₛ test_mode_to_string all then run_all registry ctx else run_one registry ctx)
