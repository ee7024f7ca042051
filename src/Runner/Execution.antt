-- ===== src/Runner/Execution.antt =====
-- runner_lib/src/runner.cpp: `_execute_should_continue`, the loop around it, and `finish`.
use c_tests_runner.Base.{
  ℕ, zero, suc, ◌+◌, ◌-◌, ◌=ₛ◌, Bool, true, false, Option, none, some, [], ltb, ◌==◌, if◌then◌else◌,
}
use c_tests_runner.Base.Int.{ℤ, pos, negsuc}
use c_tests_runner.Base.Result.{Result, ok, err}
use c_tests_runner.TestData.{Bytes}
use c_tests_runner.TestData.Typed.{load}
use c_tests_runner.TestData.Store.{Entries, serialize}
use c_tests_runner.Runner.{Runner}

-- The counter equals an `int`.
abbrev pub equals_int : ℕ → ℤ → Bool
equals_int n (pos m) = n == m
equals_int n (negsuc m) = false

abbrev pub next_int : ℤ → ℤ
next_int (pos n) = pos (n + 1)
next_int (negsuc zero) = pos 0
next_int (negsuc (suc n)) = negsuc n

abbrev pub is_positive : ℤ → Bool
is_positive (pos n) = ltb 0 n
is_positive (negsuc n) = false

module _ {M : Type 0} where
  unfoldable pub begin_execute : ℕ → Runner M → Runner M
  begin_execute now r = record r { execute_start = now }

  unfoldable pub end_execute : ℕ → Runner M → Runner M
  end_execute now r = record r { execute_end = now }

  unfoldable pub execute_time : Runner M → ℕ
  execute_time r = r.execute_end - r.execute_start

  unfoldable pub execute_should_continue : ℕ → Runner M → Bool × Runner M
  unfolding begin_execute end_execute
  execute_should_continue now r =
      let target = r.config.warmup_iterations in
      let cleared = record r { output_data = [] } in
      let counted = (λ (q : Runner M). record q { counter = q.counter + 1 }) in
      if equals_int r.counter (next_int target)
      then (false, record (end_execute now r) { counter = 0 })
      else if equals_int r.counter target
      then (true, counted (begin_execute now (if is_positive target then cleared else r)))
      else (true, counted cleared)

  -- RUNNER_EXECUTE, on fuel: `body` is what an iteration does to the output, `clock` the reading at
  -- each test of the condition, both by the number of tests before. `none` means that it goes on.
  unfoldable pub execute : (ℕ → Entries → Entries) → (ℕ → ℕ) → ℕ → ℕ → Runner M → Option (Runner M)
  execute body clock zero i r = none
  execute body clock (suc fuel) i r =
      let step = execute_should_continue (clock i) r in
      let later =
        execute body clock fuel (i + 1)
          (record (step.1) { output_data = body i step.1.output_data }) in
      if step.0 then later else some step.1

abbrev pub with_input : {M : Type 0} → Runner M → Result Entries → Result (Runner M)
with_input r (err what) = err what
with_input r (ok entries) = ok (record r { input_data = entries })

abbrev pub with_loaded :
    {M : Type 0} → Runner M → Option (Result Entries) → Option (Result (Runner M))
with_loaded r none = none
with_loaded r (some loaded) = some (with_input r loaded)

-- What a run leaves in the output directory.
pub record Files (M : Type 0) : Type 0 where
  pub output_bin : Option Bytes
  pub meta_bin : Option M

abbrev pub filled {ℓ} : {M : Type ℓ} → Option (M → M) → M → M
filled none m = m
filled (some hook) m = hook m

module _ {M : Type 0} where
  -- From what the file system holds at the path of input.bin; `none` as in `load`.
  unfoldable pub load_input : Option Bytes → Runner M → Option (Result (Runner M))
  load_input file r = if r.config.input_dir =ₛ "" then some (ok r) else with_loaded r (load file)

module _ {M : Type 0} (meta_of : ℕ → M) where
  -- Whether each of the two files can be opened; a failure with the output is logged only.
  unfoldable pub finish : Bool → Bool → Runner M → Files M → Files M
  unfolding execute_time
  finish output_opens meta_opens r files =
      let meta = filled r.finish_hook (meta_of (execute_time r)) in
      if r.config.output_dir =ₛ "" then files else record {
        output_bin = if output_opens then some (serialize r.output_data) else files.output_bin;
        meta_bin = if meta_opens then some meta else files.meta_bin;
      }
