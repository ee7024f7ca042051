-- ===== src/Pipeline/Advance.antt =====
-- What each step before the tests does to the record of steps, to the status and to the gates.
use c_tests_runner.Base.{
  ◌≡◌, refl, ◌∙◌, Bool, true, false, String, List, [], ◌∷◌, Bool-cases, inl, inr,
}
use c_tests_runner.Base.Result.{Result, ok, err}
use c_tests_runner.ApiTypes.{building}
use c_tests_runner.Pipeline.{
  AssignmentConfig, RunnerBuildResult, TestPluginBuildResult, Detection, Validation, Services,
  Detail, updated, JobContext,
}
use c_tests_runner.Pipeline.Context.{
  go, halt, value, emit, emit_phase, add_step, step_ms, finish_step, fail_step, resolve_paths,
  resolve_solution, resolve_source,
}
use c_tests_runner.Pipeline.Steps.{
  shadow_omp, join_violations, apply_caps, report_caps, resolved, report_unresolved, end_resolve,
  step_resolve, use_config, step_parse_config, detected, use_detection, step_detect_framework,
  check_framework, use_validation, report_cmake, use_cmake, step_validate, use_runner,
  step_build_runner, use_plugins, step_build_plugins,
}
use Prim.Native.String.{◌++◌ as ◌++ₛ◌}
use c_tests_runner.Pipeline.Outline.{gates, gates-snoc, gates-phase, outline-snoc, IsQuiet, Ends}

module _ {J S G D : Type 0} (service : Services J S G D) where
  -- A context with the record of steps and the gates of another.
  done :
      (name : String) (old ctx : JobContext J G D)
      → (ctx.pipeline ≡ old.pipeline)
      → IsQuiet old ctx
      → Ends name old (go (finish_step service name "ok" ctx))
  unfolding finish_step add_step step_ms
  done name old ctx p q = rw (outline-snoc ctx.pipeline, p) (refl, q)

  failing :
      (name message : String) (details : List (String × Detail)) (old ctx : JobContext J G D)
      → (ctx.pipeline ≡ old.pipeline)
      → (gates ctx.events ≡ gates old.events)
      → Ends name old (halt (fail_step service name message details ctx))
  unfolding fail_step finish_step add_step step_ms
  failing name message details old ctx p q = rw (outline-snoc ctx.pipeline, p) (refl, q, refl, refl)

  report_unresolved-Ends :
      (what : String) (old ctx : JobContext J G D) (r t : Result String)
      → (ctx.pipeline ≡ old.pipeline)
      → (gates ctx.events ≡ gates old.events)
      → Ends "resolve" old (report_unresolved service what ctx r t)
  unfolding report_unresolved
  report_unresolved-Ends what old ctx (err w) t p q = q
  report_unresolved-Ends what old ctx (ok a) (err w) p q = q
  report_unresolved-Ends what old ctx (ok a) (ok b) p q =
      failing "resolve" (service.sanitize what)
        (("testSourceType", Detail.text a) ∷ ("solutionSourceType", Detail.text b) ∷ []) old ctx p q

  end_resolve-Ends :
      (r : Result (String × String)) (old ctx : JobContext J G D)
      → (ctx.pipeline ≡ old.pipeline)
      → IsQuiet old ctx
      → Ends "resolve" old (end_resolve service r ctx)
  unfolding end_resolve resolved finish_step add_step step_ms
  end_resolve-Ends (ok paths) old ctx p q = rw (outline-snoc ctx.pipeline, p) (refl, q)
  end_resolve-Ends (err what) old ctx p q =
      report_unresolved-Ends what old ctx (value ctx.request.test_source_type "local")
        (value ctx.request.solution_source_type "local") p q.0

  resolve_solution-kept :
      (r : Result String) (old ctx : JobContext J G D)
      → (ctx.pipeline ≡ old.pipeline)
      → IsQuiet old ctx
      → ((resolve_solution service r ctx).1.pipeline ≡ old.pipeline)
        × IsQuiet old (resolve_solution service r ctx).1
  unfolding resolve_solution emit_phase
  resolve_solution-kept (err what) old ctx p q = (p, q)
  resolve_solution-kept (ok test_dir) old ctx p q =
      (p, (gates-phase ctx.on_progress ctx.events "resolveSolution" "" ∙ q.0, q.1, q.2))

  pub step_resolve-Ends : (ctx : JobContext J G D) → Ends "resolve" ctx (step_resolve service ctx)
  unfolding step_resolve resolve_paths emit_phase
  step_resolve-Ends ctx =
      let begun = emit_phase "resolveTests" "" ctx in
      let r = resolve_source service ctx.request.test_source_type ctx.request.test_source in
      let found = resolve_solution service r begun in
      let kept =
        resolve_solution-kept r ctx begun refl
          (gates-phase ctx.on_progress ctx.events "resolveTests" "", refl, refl) in
      end_resolve-Ends found.0 ctx found.1 kept.0 kept.1

  use_config-Ends :
      (old ctx : JobContext J G D) (r : Result AssignmentConfig)
      → (ctx.pipeline ≡ old.pipeline)
      → IsQuiet old ctx
      → Ends "parseConfig" old (use_config service ctx r)
  unfolding use_config finish_step add_step step_ms apply_caps report_caps
  use_config-Ends old ctx (err what) p q = q.0
  use_config-Ends old ctx (ok config) p q = rw (outline-snoc ctx.pipeline, p) (refl, q)

  pub step_parse_config-Ends :
      (ctx : JobContext J G D) → Ends "parseConfig" ctx (step_parse_config service ctx)
  unfolding step_parse_config emit_phase
  step_parse_config-Ends ctx =
      use_config-Ends ctx (emit_phase "parseConfig" "" ctx) (service.load_config ctx.test_dir) refl
        (gates-phase ctx.on_progress ctx.events "parseConfig" "", refl, refl)

  use_detection-Ends :
      (old ctx : JobContext J G D) (r : Result Detection)
      → (ctx.pipeline ≡ old.pipeline)
      → IsQuiet old ctx
      → Ends "detectFramework" old (use_detection service ctx r)
  unfolding use_detection detected finish_step add_step step_ms
  use_detection-Ends old ctx (err what) p q = q.0
  use_detection-Ends old ctx (ok detection) p q = elim (Bool-cases detection.is_ok) [
    | inl e ↦ rw (e, outline-snoc ctx.pipeline, p) (refl, q)
    | inr e ↦ rw e (
        failing "detectFramework" detection.error_message
          (("allowedFrameworks", Detail.texts ctx.assignment_config.allowed_frameworks) ∷ []) old
          ctx p q.0)
  ]

  pub step_detect_framework-Ends :
      (ctx : JobContext J G D) → Ends "detectFramework" ctx (step_detect_framework service ctx)
  unfolding step_detect_framework emit_phase
  step_detect_framework-Ends ctx =
      use_detection-Ends ctx (emit_phase "detectFramework" "" ctx)
        (service.detect ctx.solution_dir ctx.assignment_config.allowed_frameworks) refl
        (gates-phase ctx.on_progress ctx.events "detectFramework" "", refl, refl)

  check_framework-Ends :
      (old ctx : JobContext J G D)
      → (ctx.pipeline ≡ old.pipeline)
      → IsQuiet old ctx
      → Ends "validation" old (check_framework service ctx)
  unfolding check_framework
  check_framework-Ends old ctx p q =
      elim (Bool-cases ((service.validate_framework ctx.framework).0)) [
        | inl e ↦ rw e (done "validation" old ctx p q)
        | inr e ↦ rw e (
            failing "validation"
              ("Framework '"
                ++ₛ (ctx.framework
                    ++ₛ ("' unavailable: " ++ₛ (service.validate_framework ctx.framework).1)))
              [] old ctx p q.0)
      ]

  use_validation-Ends :
      (old ctx : JobContext J G D) (r : Result Validation)
      → (ctx.pipeline ≡ old.pipeline)
      → IsQuiet old ctx
      → Ends "validation" old (use_validation service ctx r)
  unfolding use_validation
  use_validation-Ends old ctx (err what) p q = q.0
  use_validation-Ends old ctx (ok validation) p q = elim (Bool-cases validation.valid) [
    | inl e ↦ rw e (check_framework-Ends old ctx p q)
    | inr e ↦ rw e (
        failing "validation"
          ("Forbidden dependencies: " ++ₛ join_violations "" validation.violations)
          (("violations", Detail.texts validation.violations)
            ∷ ("allowedPackages", Detail.texts ctx.assignment_config.allowed_packages)
            ∷ [])
          old ctx p q.0)
  ]

  use_cmake-Ends :
      (old ctx : JobContext J G D) (r : Result Bool)
      → (ctx.pipeline ≡ old.pipeline)
      → IsQuiet old ctx
      → Ends "validation" old (use_cmake service ctx r)
  unfolding use_cmake report_cmake
  use_cmake-Ends old ctx (err what) p q = q.0
  use_cmake-Ends old ctx (ok true) p q =
      use_validation-Ends old (report_cmake service true ctx)
        (service.validate ctx.solution_dir ctx.assignment_config.allowed_packages) p q
  use_cmake-Ends old ctx (ok false) p q =
      check_framework-Ends old (report_cmake service false ctx) p q

  pub step_validate-Ends :
      (ctx : JobContext J G D) → Ends "validation" ctx (step_validate service ctx)
  unfolding step_validate emit_phase
  step_validate-Ends ctx =
      use_cmake-Ends ctx (emit_phase "validation" "" ctx) (service.has_cmake_lists ctx.solution_dir)
        refl (gates-phase ctx.on_progress ctx.events "validation" "", refl, refl)

  use_runner-Ends :
      (old ctx : JobContext J G D) (r : Result RunnerBuildResult)
      → (ctx.pipeline ≡ old.pipeline)
      → IsQuiet old ctx
      → Ends "buildRunner" old (use_runner service ctx r)
  unfolding use_runner finish_step fail_step add_step step_ms
  use_runner-Ends old ctx (err what) p q = q.0
  use_runner-Ends old ctx (ok build) p q = elim (Bool-cases build.success) [
    | inl e ↦ rw (e, outline-snoc ctx.pipeline, p) (refl, q)
    | inr e ↦ rw (e, outline-snoc ctx.pipeline, p) (refl, q.0, refl, refl)
  ]

  pub step_build_runner-Ends :
      (ctx : JobContext J G D) → Ends "buildRunner" ctx (step_build_runner service ctx)
  unfolding step_build_runner emit_phase emit gates
  step_build_runner-Ends ctx =
      let phased = emit_phase "buildRunner" "Compiling student solution + runner" ctx in
      use_runner-Ends ctx (emit (updated building) phased)
        (service.build_runner ctx.framework ctx.solution_dir ctx.test_dir ctx.job_id
          (shadow_omp ctx.assignment_config.allowed_packages))
        refl
        (
          gates-snoc phased.events (updated building) refl
              ∙ gates-phase ctx.on_progress ctx.events "buildRunner"
                  "Compiling student solution + runner",
          refl,
          refl,
        )

  use_plugins-Ends :
      (old ctx : JobContext J G D) (r : Result TestPluginBuildResult)
      → (ctx.pipeline ≡ old.pipeline)
      → IsQuiet old ctx
      → Ends "buildPlugins" old (use_plugins service ctx r)
  unfolding use_plugins finish_step fail_step add_step step_ms
  use_plugins-Ends old ctx (err what) p q = q.0
  use_plugins-Ends old ctx (ok build) p q = elim (Bool-cases build.success) [
    | inl e ↦ rw (e, outline-snoc ctx.pipeline, p) (refl, q)
    | inr e ↦ rw (e, outline-snoc ctx.pipeline, p) (refl, q.0, refl, refl)
  ]

  pub step_build_plugins-Ends :
      (ctx : JobContext J G D) → Ends "buildPlugins" ctx (step_build_plugins service ctx)
  unfolding step_build_plugins emit_phase
  step_build_plugins-Ends ctx =
      use_plugins-Ends ctx (emit_phase "buildPlugins" "Compiling teacher test plugins" ctx)
        (service.build_test_plugins ctx.test_dir) refl
        (
          gates-phase ctx.on_progress ctx.events "buildPlugins" "Compiling teacher test plugins",
          refl,
          refl,
        )
