-- ===== src/Pipeline/Order.antt =====
-- The steps before the tests as a chain that stops at the first failure.
use mathlib.Core.List.{append-nil, append_assoc}
use c_tests_runner.Base.{◌≡◌, refl, ap, sym, ◌∙◌, some, String, List, [], ◌∷◌, ◌++◌}
use c_tests_runner.ApiTypes.{failed, job_status_to_string}
use c_tests_runner.Pipeline.{Services, JobContext}
use c_tests_runner.Pipeline.Context.{Flow, go, halt, throw, and_then}
use c_tests_runner.Pipeline.Steps.{
  step_resolve, step_parse_config, step_detect_framework, step_validate, step_build_runner,
  step_build_plugins,
}
use c_tests_runner.Pipeline.Execute.{prepare}
use c_tests_runner.Pipeline.Outline.{gates, outline, IsQuiet, Ends}
use c_tests_runner.Pipeline.Advance.{
  step_resolve-Ends, step_parse_config-Ends, step_detect_framework-Ends, step_validate-Ends,
  step_build_runner-Ends, step_build_plugins-Ends,
}

-- The steps before the registry, in order.
abbrev pub step_names : List String
step_names =
    "resolve" ∷ "parseConfig" ∷ "detectFramework" ∷ "validation" ∷ "buildRunner" ∷ "buildPlugins"
    ∷ []

abbrev pub all_ok : List String → List (String × String)
all_ok [] = []
all_ok (name ∷ names) = (name, "ok") ∷ all_ok names

all_ok-snoc :
    (names : List String) (name : String)
    → all_ok (names ++ name ∷ []) ≡ all_ok names ++ (name, "ok") ∷ []
all_ok-snoc [] name = refl
all_ok-snoc (n ∷ names) name = ap (◌∷◌ (n, "ok")) (all_ok-snoc names name)

module _ {J G D : Type 0} where
  -- How a chain of steps may end: all are recorded as done; or a first part is, and the step behind
  -- it as failed, which the result names; or a step threw. Gates are not touched.
  abbrev pub Follows : List String → JobContext J G D → Flow J G D → Type 0
  Follows names old (go new) =
      (outline new.pipeline ≡ outline old.pipeline ++ all_ok names) × IsQuiet old new
  Follows names old (halt new) =
      (before : List String) × (name : String) × (after : List String) × (names
        ≡ before ++ name ∷ after)
      × (outline new.pipeline ≡ outline old.pipeline ++ (all_ok before ++ (name, "failed") ∷ []))
      × (gates new.events ≡ gates old.events)
      × (new.result.status ≡ some (job_status_to_string failed))
      × (new.result.failed_step ≡ some name)
  Follows names old (throw what new) = gates new.events ≡ gates old.events

  after_done :
      (names : List String) (name : String) (old mid : JobContext J G D) (g : Flow J G D)
      → (outline mid.pipeline ≡ outline old.pipeline ++ all_ok names)
      → IsQuiet old mid
      → Ends name mid g
      → Follows (names ++ name ∷ []) old g
  after_done names name old mid (go new) p q (e, quiet) = (
    e
        ∙ (ap (λ z. z ++ (name, "ok") ∷ []) p
            ∙ (append_assoc (outline old.pipeline) (all_ok names) ((name, "ok") ∷ [])
                ∙ ap (λ z. outline old.pipeline ++ z) (sym (all_ok-snoc names name)))),
    (quiet.0 ∙ q.0, quiet.1 ∙ q.1, quiet.2 ∙ q.2),
  )
  after_done names name old mid (halt new) p q (e, g, s, f) = (
    names,
    name,
    [],
    refl,
    e
        ∙ (ap (λ z. z ++ (name, "failed") ∷ []) p
            ∙ append_assoc (outline old.pipeline) (all_ok names) ((name, "failed") ∷ [])),
    g ∙ q.0,
    s,
    f,
  )
  after_done names name old mid (throw what new) p q e = e ∙ q.0

  then-Follows :
      (names : List String) (name : String) (old : JobContext J G D) (f : Flow J G D)
      (step : JobContext J G D → Flow J G D)
      → ((c : JobContext J G D) → Ends name c (step c))
      → Follows names old f
      → Follows (names ++ name ∷ []) old (and_then f step)
  then-Follows names name old (go mid) step each (p, q) =
      after_done names name old mid (step mid) p q (each mid)
  then-Follows names name old (halt new) step each
        (before, n, after, split, steps, quiet, status, step_name) =
      (
        before,
        n,
        after ++ name ∷ [],
        ap (λ z. z ++ name ∷ []) split ∙ append_assoc before (n ∷ after) (name ∷ []),
        steps,
        quiet,
        status,
        step_name,
      )
  then-Follows names name old (throw what new) step each q = q

-- The steps before the tests run in their order up to the first that fails: then the record of
-- steps has the steps before it as "ok" and that one as "failed" and nothing more, and the result
-- has the status "failed" and names the step. If none fails or throws all six are "ok". No phase is
-- entered either way.
pub prepare-Follows :
    {J S G D : Type 0} (service : Services J S G D) (ctx : JobContext J G D)
    → Follows step_names ctx (prepare service ctx)
unfolding prepare
prepare-Follows service ctx =
    let s₁ =
      then-Follows [] "resolve" ctx (go ctx) (λ c. step_resolve service c)
        (λ c. step_resolve-Ends service c)
        (sym (append-nil (outline ctx.pipeline)), (refl, refl, refl)) in
    let f₁ = step_resolve service ctx in
    let n₁ = "resolve" ∷ [] in
    let s₂ =
      then-Follows n₁ "parseConfig" ctx f₁ (λ c. step_parse_config service c)
        (λ c. step_parse_config-Ends service c) s₁ in
    let f₂ = and_then f₁ (λ c. step_parse_config service c) in
    let n₂ = "resolve" ∷ "parseConfig" ∷ [] in
    let s₃ =
      then-Follows n₂ "detectFramework" ctx f₂ (λ c. step_detect_framework service c)
        (λ c. step_detect_framework-Ends service c) s₂ in
    let f₃ = and_then f₂ (λ c. step_detect_framework service c) in
    let n₃ = "resolve" ∷ "parseConfig" ∷ "detectFramework" ∷ [] in
    let s₄ =
      then-Follows n₃ "validation" ctx f₃ (λ c. step_validate service c)
        (λ c. step_validate-Ends service c) s₃ in
    let f₄ = and_then f₃ (λ c. step_validate service c) in
    let n₄ = "resolve" ∷ "parseConfig" ∷ "detectFramework" ∷ "validation" ∷ [] in
    let s₅ =
      then-Follows n₄ "buildRunner" ctx f₄ (λ c. step_build_runner service c)
        (λ c. step_build_runner-Ends service c) s₄ in
    let f₅ = and_then f₄ (λ c. step_build_runner service c) in
    let n₅ = "resolve" ∷ "parseConfig" ∷ "detectFramework" ∷ "validation" ∷ "buildRunner" ∷ [] in
    then-Follows n₅ "buildPlugins" ctx f₅ (λ c. step_build_plugins service c)
      (λ c. step_build_plugins-Ends service c) s₅
