-- ===== src/Runner/Loop.antt =====
-- How often RUNNER_EXECUTE runs its body, and which run is timed.
use c_tests_runner.Base.{
  ℕ, zero, suc, ◌+◌, ◌≡◌, refl, sym, ap, ◌∙◌, true, false, inl, inr, none, some, [], arith,
  Bool-cases, if◌then◌else◌,
}
use c_tests_runner.Base.Int.{pos, negsuc}
use c_tests_runner.TestData.Store.{Entries}
use c_tests_runner.Runner.{Runner}
use c_tests_runner.Runner.Execution.{
  equals_int, next_int, is_positive, begin_execute, end_execute, execute_should_continue, execute,
}

module _ {M : Type 0} (r : Runner M) (now : ℕ) where
  past_timed :
      equals_int r.counter (next_int r.config.warmup_iterations) ≡ true
      → execute_should_continue now r ≡ (false, record r { execute_end = now; counter = 0 })
  unfolding execute_should_continue end_execute
  past_timed e = rw (execute_should_continue, e) refl

  at_timed :
      equals_int r.counter (next_int r.config.warmup_iterations) ≡ false
      → equals_int r.counter r.config.warmup_iterations ≡ true
      → execute_should_continue now r ≡ (
        true,
        record r {
          execute_start = now;
          output_data = if is_positive r.config.warmup_iterations then [] else r.output_data;
          counter = r.counter + 1;
        },
      )
  unfolding execute_should_continue begin_execute
  at_timed e f = elim (Bool-cases (is_positive r.config.warmup_iterations)) [
    | inl p ↦ rw (execute_should_continue, e, f, p) refl
    | inr p ↦ rw (execute_should_continue, e, f, p) refl
  ]

  at_warmup :
      equals_int r.counter (next_int r.config.warmup_iterations) ≡ false
      → equals_int r.counter r.config.warmup_iterations ≡ false
      → execute_should_continue now r
        ≡ (true, record r { output_data = []; counter = r.counter + 1 })
  unfolding execute_should_continue
  at_warmup e f = rw (execute_should_continue, e, f) refl

module _ {M : Type 0} (body : ℕ → Entries → Entries) (clock : ℕ → ℕ) where
  -- A round of the loop, by what the condition gives.
  stops :
      (fuel i : ℕ) (r q : Runner M)
      → execute_should_continue (clock i) r ≡ (false, q)
      → execute body clock (suc fuel) i r ≡ some q
  unfolding execute
  stops fuel i r q e = rw (execute, e) refl

  goes_on :
      (fuel i : ℕ) (r q : Runner M)
      → execute_should_continue (clock i) r ≡ (true, q)
      → execute body clock (suc fuel) i r
        ≡ execute body clock fuel (i + 1) (record q { output_data = body i q.output_data })
  unfolding execute
  goes_on fuel i r q e = rw (execute, e) refl

  -- The runner after the loop, whose timed run is the `k`-th.
  abbrev pub after_timed : ℕ → Runner M → Runner M
  after_timed k r = record r {
    execute_start = clock k;
    execute_end = clock (k + 1);
    output_data = body k (if is_positive r.config.warmup_iterations then [] else r.output_data);
    counter = 0;
  }

  from_round :
      (d i w : ℕ) (r : Runner M)
      → r.config.warmup_iterations ≡ pos w
      → r.counter + d ≡ w
      → execute body clock (suc (suc d)) i r ≡ some (after_timed (i + d) r)
  from_round zero i w r h c =
      let timed : Runner M = record r {
        execute_start = clock i;
        output_data = if is_positive r.config.warmup_iterations then [] else r.output_data;
        counter = r.counter + 1;
      } in
      let ran : Runner M = record timed { output_data = body i timed.output_data } in
      let a = at_timed r (clock i) (rw h (ground (arith, c))) (rw h (ground (arith, c))) in
      let b = past_timed ran (clock (i + 1)) (rw h (ground (arith, c))) in
      let k : i + 0 ≡ i = omega arith in
      goes_on 1 i r timed a
      ∙ (stops 0 (i + 1) ran (record ran { execute_end = clock (i + 1); counter = 0 }) b
          ∙ ap (λ j. some (after_timed j r)) (sym k))
  from_round (suc d) i w r h c =
      let warm : Runner M = record r { output_data = []; counter = r.counter + 1 } in
      let ran : Runner M = record warm { output_data = body i [] } in
      let a = at_warmup r (clock i) (rw h (ground (arith, c))) (rw h (ground (arith, c))) in
      let p : is_positive r.config.warmup_iterations ≡ true = rw h (ground (arith, c)) in
      let k : i + 1 + d ≡ i + suc d = omega arith in
      goes_on (suc (suc d)) i r warm a
      ∙ (from_round d (i + 1) w ran h (omega (arith, c)) ∙ rw (k, p) refl)

  -- With `w` warm-up iterations and the counter at 0, RUNNER_EXECUTE ends after the body has run
  -- exactly w + 1 times. The last run alone is timed, it starts from an empty output if there was a
  -- warm-up and from the present output if there was none, and the counter is back at 0 for the
  -- next RUNNER_EXECUTE.
  pub execute_runs :
      (w : ℕ) (r : Runner M)
      → r.config.warmup_iterations ≡ pos w
      → r.counter ≡ 0
      → execute body clock (suc (suc w)) 0 r ≡ some (after_timed w r)
  execute_runs w r h c =
      let k : 0 + w ≡ w = omega arith in
      from_round w 0 w r h (omega (arith, c)) ∙ ap (λ j. some (after_timed j r)) k

  -- With fewer than -1 warm-up iterations, which `--warmup` can set, RUNNER_EXECUTE never ends: no
  -- number of iterations is enough.
  pub execute_forever :
      (fuel i n : ℕ) (r : Runner M)
      → r.config.warmup_iterations ≡ negsuc (suc n)
      → execute body clock fuel i r ≡ none
  unfolding execute
  execute_forever zero i n r h = refl
  execute_forever (suc fuel) i n r h =
      let warm : Runner M = record r { output_data = []; counter = r.counter + 1 } in
      let a = at_warmup r (clock i) (rw h refl) (rw h refl) in
      goes_on fuel i r warm a
      ∙ execute_forever fuel (i + 1) n (record warm { output_data = body i [] }) h
