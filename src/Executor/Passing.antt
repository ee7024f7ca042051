-- ===== src/Executor/Passing.antt =====
-- When a test passes.
use c_tests_runner.Base.{
  zero, suc, ◌≡◌, refl, Bool, true, false, not, ◌&&◌, Bool-cases, inl, inr, Option, none, some,
  String, arith,
}
use mathlib.Core.Path.{subst}
use c_tests_runner.Scenarios.Verify.{Verdict}
use c_tests_runner.Base.Int.{ℤ, pos, negsuc}
use c_tests_runner.Base.Result.{Result, ok, err, ◌>>=◌}
use c_tests_runner.TestData.{Bytes}
use c_tests_runner.TestData.Store.{Entries}
use c_tests_runner.Executor.{
  RunResult, Meta, ParallelStats, TestResult, Test, Surroundings, new_result, exit_message,
  process_failure, read_meta, judge, caught, has_none, use_meta, judge_output, decide,
  build_test_result,
}
use c_tests_runner.Summary.{is_zero}

-- What holds of a value, where there is one.
abbrev pub OnOk : {A : Type 0} → (A → Type 0) → Result A → Type 0
OnOk P (ok a) = P a
OnOk P (err what) = Unit

pub bind-OnOk :
    {A B : Type 0} (P : A → Type 0) (Q : B → Type 0) (r : Result A) (f : A → Result B)
    → OnOk P r
    → ((a : A) → P a → OnOk Q (f a))
    → OnOk Q (r >>= f)
bind-OnOk P Q (ok a) f p h = h a p
bind-OnOk P Q (err what) f p h = tt

-- The process ended by itself, with exit code 0.
abbrev pub is_clean : {D : Type 0} → RunResult D → Bool
is_clean run = not run.timed_out && not run.oom_killed && is_zero run.exit_code

abbrev pub is_none : Option String → Bool
is_none none = true
is_none (some s) = false

module _ {D : Type 0} (around : Surroundings D) where
  exit_message-clean : (e : ℤ) → is_none (exit_message around e) ≡ is_zero e
  unfolding exit_message
  exit_message-clean (pos zero) = refl
  exit_message-clean (pos (suc n)) = ground arith
  exit_message-clean (negsuc n) = refl

  process_failure-clean : (run : RunResult D) → is_none (process_failure around run) ≡ is_clean run
  unfolding process_failure
  process_failure-clean run = ground (arith, exit_message-clean run.exit_code)

  -- The name and the measurements of a process, in the result of a test.
  abbrev pub Copies : Test → RunResult D → TestResult D → Type 0
  Copies test run tr =
      (tr.name ≡ test.name)
      × (tr.exit_code ≡ run.exit_code)
      × (tr.timed_out ≡ run.timed_out)
      × (tr.oom_killed ≡ run.oom_killed)
      × (tr.max_rss_kb ≡ run.max_rss_kb)
      × (tr.cg_mem_peak_kb ≡ run.cg_mem_peak_kb)

  failed_result :
      (test : Test) (run : RunResult D) (message : String)
      → let tr : TestResult D = record (new_result around test.name run) { message = message } in
        (tr.passed ≡ false) × Copies test run tr
  unfolding new_result
  failed_result test run message = (refl, (refl, refl, refl, refl, refl, refl))

  use_meta-OnOk :
      (test : Test) (run : RunResult D) (v : Verdict) (r : Result (D × ParallelStats))
      → OnOk
          (λ tr. (tr.passed ≡ v.0) × Copies test run tr)
          (use_meta around (new_result around test.name run) v r)
  unfolding use_meta new_result
  use_meta-OnOk test run v (err what) = tt
  use_meta-OnOk test run v (ok m) = (refl, (refl, refl, refl, refl, refl, refl))

  -- The verdict on an output, where a process leaves one.
  abbrev pub good_output : Test → Option (Meta D) → Entries → Option Bytes → Bool
  good_output test meta input output =
      not (has_none meta output) && (caught (judge around test input output)).0

  judge_output-OnOk :
      (test : Test) (run : RunResult D) (meta : Option (Meta D)) (input : Entries)
      (output : Option Bytes)
      → OnOk
          (λ tr. (tr.passed ≡ good_output test meta input output) × Copies test run tr)
          (judge_output around test (new_result around test.name run) meta input output)
  unfolding judge_output
  judge_output-OnOk test run meta input output = elim (Bool-cases (has_none meta output)) [
    | inl e ↦ rw e (failed_result test run "Runner produced no output")
    | inr e ↦
        rw e
          (use_meta-OnOk test run (caught (judge around test input output)) (read_meta around meta))
  ]

  decide-OnOk :
      (test : Test) (run : RunResult D) (meta : Option (Meta D)) (input : Entries)
      (output : Option Bytes) (failure : Option String)
      → OnOk
          (λ tr.
            (tr.passed ≡ (is_none failure && good_output test meta input output))
            × Copies test run tr)
          (decide around test (new_result around test.name run) meta input output failure)
  unfolding decide
  decide-OnOk test run meta input output (some message) = failed_result test run message
  decide-OnOk test run meta input output none = judge_output-OnOk test run meta input output

  pub build_test_result-OnOk :
      (test : Test) (run : RunResult D) (meta : Option (Meta D)) (input : Entries)
      (output : Option Bytes)
      → OnOk
          (λ tr.
            (tr.passed ≡ (is_clean run && good_output test meta input output)) × Copies test run tr)
          (build_test_result around test run meta input output)
  unfolding build_test_result
  build_test_result-OnOk test run meta input output =
      subst
        (λ clean.
          OnOk
            (λ tr. (tr.passed ≡ (clean && good_output test meta input output)) × Copies test run tr)
            (build_test_result around test run meta input output))
        (process_failure-clean run)
        (decide-OnOk test run meta input output (process_failure around run))
