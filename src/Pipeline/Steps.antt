-- ===== src/Pipeline/Steps.antt =====
-- server_core/src/pipeline_steps.cpp: the steps up to the builds.
use c_tests_runner.Base.{
  ℕ, ◌+◌, Bool, true, false, ◌&&◌, leb, Option, none, some, String, List, [], ◌∷◌, ◌==◌,
  if◌then◌else◌,
}
use c_tests_runner.Base.Result.{Result, ok, err}
use c_tests_runner.ApiTypes.{building}
use c_tests_runner.Pipeline.{
  Given, AssignmentConfig, RunnerBuildResult, TestPluginBuildResult, Detection, Validation,
  Services, text, texts, flag, EffectiveParams, updated, JobContext,
}
use c_tests_runner.Pipeline.Context.{
  Flow, go, halt, throw, times, contains, value, is_empty, emit, emit_phase, finish_step, fail_step,
  resolve_paths,
}
use Prim.Native.Char.{code}
use Prim.Native.String.{◌++◌ as ◌++ₛ◌, [] as []ₛ, ◌∷◌ as ◌∷ₛ◌}

-- The slot that the request gave, else the assignment's, else what was there.
abbrev pub pick : {A : Type 0} → Given A → Option A → A → A
pick (some given) assigned current = current
pick none none current = current
pick none (some a) current = a

abbrev pub with_params :
    Option EffectiveParams → (EffectiveParams → EffectiveParams) → Option EffectiveParams
with_params none f = none
with_params (some p) f = some (f p)

-- std::tolower in the "C" locale.
abbrev pub tolower : ℕ → ℕ
tolower c = if leb 65 c && leb c 90 then c + 32 else c

-- Whether the lower case of a text is the given characters.
unfoldable pub lower_is : String → List ℕ → Bool
lower_is []ₛ [] = true
lower_is []ₛ (d ∷ ds) = false
lower_is (c ∷ₛ s) [] = false
lower_is (c ∷ₛ s) (d ∷ ds) = (tolower (code c) == d) && lower_is s ds

-- "openmp"
abbrev pub openmp_codes : List ℕ
openmp_codes = 111 ∷ 112 ∷ 101 ∷ 110 ∷ 109 ∷ 112 ∷ []

-- `shadow_omp`: no allowed package is OpenMP.
unfoldable pub shadow_omp : List String → Bool
unfolding lower_is
shadow_omp [] = true
shadow_omp (pkg ∷ pkgs) =
    let later = shadow_omp pkgs in if lower_is pkg openmp_codes then false else later

unfoldable pub join_violations : String → List String → String
join_violations violations [] = violations
join_violations violations (v ∷ vs) =
    join_violations ((if is_empty violations then violations else violations ++ₛ ", ") ++ₛ v) vs

module _ {J S G D : Type 0} (service : Services J S G D) where
  unfoldable pub resolved : String → String → JobContext J G D → JobContext J G D
  unfolding finish_step
  resolved test_dir solution_dir ctx =
      let ended =
        finish_step service "resolve" "ok"
          (record ctx { test_dir = test_dir; solution_dir = solution_dir }) in
      let unnamed = is_empty ended.solution_name in
      let name = service.file_name solution_dir in
      record ended {
        solution_name = if unnamed then name else ended.solution_name;
        result = record (ended.result) {
          solution = if unnamed then name else ended.result.solution;
        };
      }

  -- The handler reads the types of the sources again, which may throw.
  unfoldable pub report_unresolved :
      String → JobContext J G D → Result String → Result String → Flow J G D
  unfolding fail_step
  report_unresolved what ctx (err thrown) solution_type = throw thrown ctx
  report_unresolved what ctx (ok test_type) (err thrown) = throw thrown ctx
  report_unresolved what ctx (ok test_type) (ok solution_type) = halt (
      fail_step service "resolve" (service.sanitize what)
        (("testSourceType", text test_type) ∷ ("solutionSourceType", text solution_type) ∷ []) ctx)

  -- `step_resolve` after `resolve_paths`.
  unfoldable pub end_resolve : Result (String × String) → JobContext J G D → Flow J G D
  unfolding resolved report_unresolved
  end_resolve (ok paths) ctx = go (resolved paths.0 paths.1 ctx)
  end_resolve (err what) ctx =
      report_unresolved what ctx (value ctx.request.test_source_type "local")
        (value ctx.request.solution_source_type "local")

  unfoldable pub step_resolve : JobContext J G D → Flow J G D
  unfolding resolve_paths end_resolve
  step_resolve ctx = let found = resolve_paths service ctx in end_resolve found.0 found.1

  -- The cascade of caps: request, then assignment, then the server's default.
  unfoldable pub apply_caps : AssignmentConfig → JobContext J G D → JobContext J G D
  apply_caps a ctx =
      let req = ctx.request in
      let threads = pick req.threads a.threads ctx.threads in
      record ctx {
        threads = threads;
        memory_limit_mb = pick req.memory_limit_mb a.memory_limit_mb ctx.memory_limit_mb;
        wall_time_sec = pick req.wall_time_sec a.wall_time_sec ctx.wall_time_sec;
        cpu_time_sec = pick req.cpu_time_sec a.cpu_time_sec ctx.cpu_time_sec;
        max_processes =
            if contains req.max_processes then ctx.max_processes else (elim a.max_processes [
              | some n ↦ n
              | none ↦ times threads service.sandbox_process_multiplier
            ]);
        warmup_iterations = pick req.warmup_iterations a.warmup_iterations ctx.warmup_iterations;
      }

  -- The result repeats the mode and the caps.
  unfoldable pub report_caps : JobContext J G D → JobContext J G D
  report_caps ctx =
      let mode = ctx.assignment_config.mode in
      record ctx {
        mode = mode;
        result = record (ctx.result) {
          mode = some mode;
          effective_params = with_params ctx.result.effective_params (λ p. record p {
            threads = ctx.threads;
            memory_limit_mb = ctx.memory_limit_mb;
            wall_time_sec = ctx.wall_time_sec;
            cpu_time_sec = ctx.cpu_time_sec;
            max_processes = ctx.max_processes;
            warmup_iterations = ctx.warmup_iterations;
            mode = some mode;
          });
        };
      }

  unfoldable pub use_config : JobContext J G D → Result AssignmentConfig → Flow J G D
  unfolding finish_step apply_caps report_caps
  use_config ctx (err what) = throw what ctx
  use_config ctx (ok config) = go (
      report_caps (
        apply_caps config
          (finish_step service "parseConfig" "ok" (record ctx { assignment_config = config }))))

  unfoldable pub step_parse_config : JobContext J G D → Flow J G D
  unfolding emit_phase use_config
  step_parse_config ctx₀ =
      let ctx = emit_phase "parseConfig" "" ctx₀ in
      use_config ctx (service.load_config ctx.test_dir)

  unfoldable pub detected : String → JobContext J G D → JobContext J G D
  detected framework ctx =
      let config = ctx.assignment_config in
      record ctx {
        framework = framework;
        result = record (ctx.result) {
          assignment_config = some (record {
            allowed_frameworks = config.allowed_frameworks;
            allowed_packages = config.allowed_packages;
            framework = framework;
            correctness_mode = config.correctness_mode;
            mode = ctx.mode;
            name = if is_empty config.name then none else some config.name;
          });
        };
      }

  unfoldable pub use_detection : JobContext J G D → Result Detection → Flow J G D
  unfolding finish_step fail_step detected
  use_detection ctx (err what) = throw what ctx
  use_detection ctx (ok detection) =
      if detection.is_ok
      then go (detected detection.framework (finish_step service "detectFramework" "ok" ctx))
      else halt (
          fail_step service "detectFramework" detection.error_message
            (("allowedFrameworks", texts ctx.assignment_config.allowed_frameworks) ∷ []) ctx)

  unfoldable pub step_detect_framework : JobContext J G D → Flow J G D
  unfolding emit_phase use_detection
  step_detect_framework ctx₀ =
      let ctx = emit_phase "detectFramework" "" ctx₀ in
      use_detection ctx (service.detect ctx.solution_dir ctx.assignment_config.allowed_frameworks)

  -- The second half of `step_validate`.
  unfoldable pub check_framework : JobContext J G D → Flow J G D
  unfolding finish_step fail_step
  check_framework ctx =
      let available = service.validate_framework ctx.framework in
      if available.0
      then go (finish_step service "validation" "ok" ctx)
      else halt (
          fail_step service "validation"
            ("Framework '" ++ₛ (ctx.framework ++ₛ ("' unavailable: " ++ₛ available.1))) [] ctx)

  unfoldable pub use_validation : JobContext J G D → Result Validation → Flow J G D
  unfolding check_framework fail_step join_violations
  use_validation ctx (err what) = throw what ctx
  use_validation ctx (ok validation) =
      if validation.valid
      then check_framework ctx
      else halt (
          fail_step service "validation"
            ("Forbidden dependencies: " ++ₛ join_violations "" validation.violations)
            (("violations", texts validation.violations)
              ∷ ("allowedPackages", texts ctx.assignment_config.allowed_packages)
              ∷ [])
            ctx)

  -- Whether the student has a CMakeLists.txt is reported first.
  unfoldable pub report_cmake : Bool → JobContext J G D → JobContext J G D
  report_cmake has_student_cmake ctx = record ctx {
    result = record (ctx.result) {
      effective_params =
          with_params ctx.result.effective_params
            (λ p. record p { has_cmake_lists = some has_student_cmake });
    };
  }

  unfoldable pub use_cmake : JobContext J G D → Result Bool → Flow J G D
  unfolding check_framework use_validation report_cmake
  use_cmake ctx (err what) = throw what ctx
  use_cmake ctx (ok true) =
      use_validation (report_cmake true ctx)
        (service.validate ctx.solution_dir ctx.assignment_config.allowed_packages)
  use_cmake ctx (ok false) = check_framework (report_cmake false ctx)

  unfoldable pub step_validate : JobContext J G D → Flow J G D
  unfolding emit_phase use_cmake
  step_validate ctx₀ =
      let ctx = emit_phase "validation" "" ctx₀ in
      use_cmake ctx (service.has_cmake_lists ctx.solution_dir)

  abbrev pub reported_cmake : Option EffectiveParams → Bool
  reported_cmake none = false
  reported_cmake (some p) = elim p.has_cmake_lists [ none ↦ false | some b ↦ b ]

  abbrev pub with_build_output : String → JobContext J G D → JobContext J G D
  with_build_output output ctx = record ctx {
    result = record (ctx.result) { build_output = some (service.sanitize output) };
  }

  unfoldable pub use_runner : JobContext J G D → Result RunnerBuildResult → Flow J G D
  unfolding finish_step fail_step
  use_runner ctx (err what) = throw what ctx
  use_runner ctx₁ (ok build) =
      let ctx = record ctx₁ { runner_result = build; runner_build_dir = build.build_dir } in
      if build.success
      then go (finish_step service "buildRunner" "ok" ctx)
      else halt (
          fail_step service "buildRunner"
            (service.sanitize ("Runner build failed: " ++ₛ build.error_message))
            (("framework", text ctx.framework)
              ∷ ("hasCMakeLists", flag (reported_cmake ctx.result.effective_params))
              ∷ [])
            (with_build_output build.build_output ctx))

  unfoldable pub step_build_runner : JobContext J G D → Flow J G D
  unfolding emit emit_phase use_runner shadow_omp
  step_build_runner ctx₀ =
      let ctx =
        emit (updated building)
          (emit_phase "buildRunner" "Compiling student solution + runner" ctx₀) in
      use_runner ctx (
        service.build_runner ctx.framework ctx.solution_dir ctx.test_dir ctx.job_id
          (shadow_omp ctx.assignment_config.allowed_packages))

  unfoldable pub use_plugins : JobContext J G D → Result TestPluginBuildResult → Flow J G D
  unfolding finish_step fail_step
  use_plugins ctx (err what) = throw what ctx
  use_plugins ctx₁ (ok build) =
      let ctx = record ctx₁ { plugin_result = build; plugin_build_dir = build.build_dir } in
      if build.success
      then go (finish_step service "buildPlugins" "ok" ctx)
      else halt (
          fail_step service "buildPlugins"
            (service.sanitize ("Test plugin build failed: " ++ₛ build.error_message)) []
            (with_build_output build.build_output ctx))

  unfoldable pub step_build_plugins : JobContext J G D → Flow J G D
  unfolding emit_phase use_plugins
  step_build_plugins ctx₀ =
      let ctx = emit_phase "buildPlugins" "Compiling teacher test plugins" ctx₀ in
      use_plugins ctx (service.build_test_plugins ctx.test_dir)
