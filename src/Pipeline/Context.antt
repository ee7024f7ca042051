-- ===== src/Pipeline/Context.antt =====
-- server_core/src/pipeline.cpp: the helpers of a JobContext, `fail_step`, `init_job_context` and
-- `resolve_paths`.
use c_tests_runner.Base.{
  ℕ, suc, ◌+◌, ◌-◌, ◌*◌, Bool, true, false, none, some, String, List, [], ◌∷◌, ◌++◌, ◌=ₛ◌,
  if◌then◌else◌,
}
use c_tests_runner.Base.Int.{ℤ, pos, negsuc}
use c_tests_runner.Base.Result.{Result, ok, err, ◌>>=◌}
use c_tests_runner.CpuIsolator.Text.{negate}
use c_tests_runner.ApiTypes.{failed, job_status_to_string}
use c_tests_runner.Pipeline.{
  Given, Request, AssignmentConfig, RunnerBuildResult, TestPluginBuildResult, Services, Detail,
  text, EffectiveParams, TaskResult, Event, progress, JobContext,
}

-- How a step ends: it goes on, or halts with the error in the result, or throws. The context is the
-- one at that point, since guards at the end of scopes still see it.
pub data Flow (J G D : Type 0) : Type 0 where
  go : JobContext J G D → Flow J G D
  halt : JobContext J G D → Flow J G D
  throw : String → JobContext J G D → Flow J G D

abbrev pub and_then : {J G D : Type 0} → Flow J G D → (JobContext J G D → Flow J G D) → Flow J G D
and_then (go ctx) step = step ctx
and_then (halt ctx) step = halt ctx
and_then (throw what ctx) step = throw what ctx

-- A call of a service that may throw, inside a step.
abbrev pub calling :
    {A J G D : Type 0} → JobContext J G D → Result A → (A → Flow J G D) → Flow J G D
calling ctx (ok a) step = step a
calling ctx (err what) step = throw what ctx

-- a * b of two `int`s in range.
abbrev pub times : ℤ → ℤ → ℤ
times (pos a) (pos b) = pos (a * b)
times (pos a) (negsuc b) = negate (a * suc b)
times (negsuc a) (pos b) = negate (suc a * b)
times (negsuc a) (negsuc b) = pos (suc a * suc b)

abbrev pub contains : {A : Type 0} → Given A → Bool
contains none = false
contains (some a) = true

-- request.value(key, fallback)
abbrev pub value : {A : Type 0} → Given A → A → Result A
value none fallback = ok fallback
value (some a) fallback = a

abbrev pub is_empty : String → Bool
is_empty s = s =ₛ ""

module _ {J G D : Type 0} where
  unfoldable pub emit : Event → JobContext J G D → JobContext J G D
  emit event ctx = record ctx { events = ctx.events ++ event ∷ [] }

  -- An exception of the callback is swallowed.
  unfoldable pub emit_phase : String → String → JobContext J G D → JobContext J G D
  emit_phase phase message ctx = record ctx {
    events = if ctx.on_progress then ctx.events ++ progress phase message ∷ [] else ctx.events;
  }

  unfoldable pub add_step : String → String → ℕ → JobContext J G D → JobContext J G D
  add_step name status ms ctx = record ctx {
    pipeline = ctx.pipeline ++ record { step = name; status = status; duration = ms } ∷ [];
  }

module _ {J S G D : Type 0} (service : Services J S G D) where
  -- `step_ms`, as the time of the step and the context with the step's start moved.
  unfoldable pub step_ms : JobContext J G D → ℕ × JobContext J G D
  step_ms ctx =
      let now = service.clock ctx.readings in
      (now - ctx.step_start, record ctx { step_start = now; readings = ctx.readings + 1 })

  -- `add_step(name, status, step_ms())`
  unfoldable pub finish_step : String → String → JobContext J G D → JobContext J G D
  unfolding add_step step_ms
  finish_step name status ctx = let timed = step_ms ctx in add_step name status timed.0 timed.1

  unfoldable pub fail_step :
      String → String → List (String × Detail) → JobContext J G D → JobContext J G D
  unfolding finish_step
  fail_step step error_message extra_details ctx =
      let ended = finish_step step "failed" ctx in
      record ended {
        result = record (ended.result) {
          status = some (job_status_to_string failed);
          failed_step = some step;
          error = some error_message;
          error_details = extra_details ++ ("step", text step) ∷ [];
        };
      }

-- The members of a context that come from the request.
pub record Inputs : Type 0 where
  pub job_id : String
  pub test_id : String
  pub solution_name : String
  pub params : EffectiveParams

abbrev pub default_config : AssignmentConfig
default_config = record {
  name = "";
  mode = "correctness";
  allowed_frameworks = [];
  allowed_packages = [];
  correctness_mode = "stress";
  threads = none;
  memory_limit_mb = none;
  wall_time_sec = none;
  cpu_time_sec = none;
  max_processes = none;
  warmup_iterations = none;
}

abbrev pub no_runner : RunnerBuildResult
no_runner = record {
  success = false;
  error_message = "";
  build_output = "";
  runner_exe_path = "";
  build_dir = "";
}

abbrev pub no_plugins : TestPluginBuildResult
no_plugins = record {
  success = false;
  error_message = "";
  build_output = "";
  plugin_paths = [];
  build_dir = "";
}

abbrev pub no_result : {G D : Type 0} → TaskResult G D
no_result = record {
  job_id = "";
  solution = "";
  effective_params = none;
  hardware_threads = 0;
  mode = none;
  assignment_config = none;
  build_output = none;
  status = none;
  failed_step = none;
  error = none;
  error_details = [];
  tests_discovered = none;
  grouped = [];
  thread_counts = [];
  performance_skipped = false;
  performance_skip_reason = none;
  summary = [];
  build_info = none;
  total_time = none;
  pipeline = [];
}

module _ {J S G D : Type 0} (service : Services J S G D) where
  -- `JobContext{request}`, with the members that `execute` sets before `init_job_context`.
  unfoldable pub new_context : Request J → String → Bool → JobContext J G D
  new_context request node_id on_progress = record {
    request = request;
    job_id = "";
    test_id = "";
    node_id = node_id;
    threads = pos 4;
    memory_limit_mb = pos 0;
    wall_time_sec = pos 60;
    cpu_time_sec = pos 30;
    max_processes = pos 0;
    warmup_iterations = pos 0;
    solution_name = "";
    on_progress = on_progress;
    result = no_result;
    pipeline = [];
    test_dir = "";
    solution_dir = "";
    assignment_config = default_config;
    framework = "";
    mode = "";
    runner_result = no_runner;
    plugin_result = no_plugins;
    runner_build_dir = "";
    plugin_build_dir = "";
    plugin_load_error = "";
    job_start = service.clock 0;
    step_start = service.clock 0;
    readings = 1;
    events = [];
  }

  -- What the request gives, or the server's defaults.
  unfoldable pub read_request : Request J → Result Inputs
  read_request req = do
    job_id ← req.job_id
    test_id ← req.test_id
    threads ← value req.threads service.default_threads
    memory_limit_mb ← value req.memory_limit_mb service.default_memory_limit_mb
    wall_time_sec ← value req.wall_time_sec service.default_wall_time_sec
    cpu_time_sec ← value req.cpu_time_sec service.default_cpu_time_sec
    max_processes ← value req.max_processes (times threads service.sandbox_process_multiplier)
    warmup_iterations ← value req.warmup_iterations (pos 0)
    solution_name ← req.solution_name
    test_source_type ← value req.test_source_type "local"
    solution_source_type ← value req.solution_source_type "local"
    ok (record {
      job_id = job_id;
      test_id = test_id;
      solution_name = solution_name;
      params = record {
        threads = threads;
        memory_limit_mb = memory_limit_mb;
        wall_time_sec = wall_time_sec;
        cpu_time_sec = cpu_time_sec;
        max_processes = max_processes;
        warmup_iterations = warmup_iterations;
        test_source_type = test_source_type;
        solution_source_type = solution_source_type;
        mode = none;
        has_cmake_lists = none;
      };
    })

  abbrev pub with_inputs : JobContext J G D → Inputs → JobContext J G D
  with_inputs ctx inputs = record ctx {
    job_id = inputs.job_id;
    test_id = inputs.test_id;
    threads = inputs.params.threads;
    memory_limit_mb = inputs.params.memory_limit_mb;
    wall_time_sec = inputs.params.wall_time_sec;
    cpu_time_sec = inputs.params.cpu_time_sec;
    max_processes = inputs.params.max_processes;
    warmup_iterations = inputs.params.warmup_iterations;
    solution_name = inputs.solution_name;
    result = record (ctx.result) {
      job_id = inputs.job_id;
      solution = inputs.solution_name;
      effective_params = some inputs.params;
      hardware_threads = service.hardware_threads;
    };
  }

  unfoldable pub use_inputs : JobContext J G D → Result Inputs → Result (JobContext J G D)
  use_inputs ctx (err what) = err what
  use_inputs ctx (ok inputs) = ok (with_inputs ctx inputs)

  unfoldable pub init_job_context : JobContext J G D → Result (JobContext J G D)
  unfolding read_request use_inputs
  init_job_context ctx = use_inputs ctx (read_request ctx.request)

  -- One source: its phase is emitted, then its type and descriptor are read and resolved.
  unfoldable pub resolve_source : Given String → Result J → Result String
  resolve_source given described = do
    source_type ← value given "local"
    descriptor ← described
    service.resolve source_type descriptor

  abbrev pub checked_paths : String → String → Result (String × String)
  checked_paths test_dir solution_dir =
      if is_empty test_dir
      then err "testSource resolved to empty path"
      else if is_empty solution_dir
      then err "solutionSource resolved to empty path"
      else ok (test_dir, solution_dir)

  -- `resolve_paths` from the first `resolve` on: the paths or the exception, and the context after
  -- the phases that were emitted. The solution is not looked at if the tests throw.
  unfoldable pub resolve_solution :
      Result String → JobContext J G D → Result (String × String) × JobContext J G D
  unfolding resolve_source emit_phase
  resolve_solution (err what) ctx = (err what, ctx)
  resolve_solution (ok test_dir) ctx₀ =
      let ctx = emit_phase "resolveSolution" "" ctx₀ in
      (
        resolve_source ctx.request.solution_source_type ctx.request.solution_source
            >>= λ solution_dir. checked_paths test_dir solution_dir,
        ctx,
      )

  unfoldable pub resolve_paths : JobContext J G D → Result (String × String) × JobContext J G D
  unfolding resolve_source resolve_solution emit_phase
  resolve_paths ctx₀ =
      let ctx = emit_phase "resolveTests" "" ctx₀ in
      resolve_solution (resolve_source ctx.request.test_source_type ctx.request.test_source) ctx
