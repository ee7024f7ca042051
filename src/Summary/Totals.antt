-- ===== src/Summary/Totals.antt =====
-- The totals of a summary add up, and every test of the job is in them once.
use mathlib.Core.Path.{subst}
use c_tests_runner.Base.{
  ℕ, zero, suc, ◌+◌, ◌*◌, ◌/◌, ◌≡◌, refl, sym, ap, ◌∙◌, true, Option, none, some, List, [], ◌∷◌,
  length, get_elem?, take, drop, arith,
}
use c_tests_runner.Base.Int.{ℤ}
use c_tests_runner.Summary.{
  Real, TestResult, ScenarioResults, Tally, new_tally, measure, classify, tally_tests, tally_found,
  tally_slab, tally_slabs,
}
use c_tests_runner.Summary.Scalability.{
  Summary, count_up, build_aggregate, has_layout, build_summary,
}

-- Every test passed or failed, and every failure is of one kind.
pub record IsBalanced {D : Type 0} (a : Tally D) : Type 0 where
  pub verdicts : a.total ≡ a.passed + a.failed
  pub kinds : a.failed ≡ a.failed_timeout + a.failed_oom + a.failed_crash + a.failed_correctness

-- The number of tests in some scenarios.
abbrev pub tests_in : {D : Type 0} → List (ScenarioResults D) → ℕ
tests_in [] = 0
tests_in (sr ∷ srs) = length sr + tests_in srs

tests_in-take-nil : (D : Type 0) (n : ℕ) → tests_in (take {A = ScenarioResults D} n []) ≡ 0
tests_in-take-nil D zero = refl
tests_in-take-nil D (suc n) = refl

module _ {D : Type 0} where
  abbrev tests_found : Option (ScenarioResults D) → ℕ
  tests_found none = 0
  tests_found (some sr) = length sr

  tests_in-suc :
      (n k : ℕ) (xs : List (ScenarioResults D))
      → tests_in (take (suc n) (drop k xs))
        ≡ tests_found (get_elem? xs k) + tests_in (take n (drop (suc k) xs))
  tests_in-suc n zero [] = omega (arith, tests_in-take-nil D n)
  tests_in-suc n (suc k) [] = omega (arith, tests_in-take-nil D n)
  tests_in-suc n zero (x ∷ xs) = refl
  tests_in-suc n (suc k) (x ∷ xs) = tests_in-suc n k xs

  tests_in-split :
      (m n : ℕ) (xs : List (ScenarioResults D))
      → tests_in (take (m + n) xs) ≡ tests_in (take m xs) + tests_in (take n (drop m xs))
  tests_in-split zero n xs =
      let e : 0 + n ≡ n = omega arith in ap (λ k. tests_in (take k xs)) e ∙ omega arith
  tests_in-split (suc m) n [] =
      omega (arith, tests_in-take-nil D n, tests_in-take-nil D (suc m + n))
  tests_in-split (suc m) n (x ∷ xs) =
      let e : suc m + n ≡ suc (m + n) = omega arith in
      ap (λ k. tests_in (take k (x ∷ xs))) e ∙ omega (arith, tests_in-split m n xs)

  drop_nil : (n : ℕ) → [] ≡ drop {A = ScenarioResults D} n []
  drop_nil zero = refl
  drop_nil (suc n) = refl

  drop-drop : (m k : ℕ) (xs : List (ScenarioResults D)) → drop m (drop k xs) ≡ drop (k + m) xs
  drop-drop m zero xs = let e : m ≡ 0 + m = omega arith in ap (λ k. drop k xs) e
  drop-drop zero (suc k) [] = drop_nil (suc k + 0)
  drop-drop (suc m) (suc k) [] = drop_nil (suc k + suc m)
  drop-drop m (suc k) (x ∷ xs) =
      let e : suc (k + m) ≡ suc k + m = omega arith in
      drop-drop m k xs ∙ ap (λ j. drop j (x ∷ xs)) e

  take_whole : (xs : List (ScenarioResults D)) → take (length xs) xs ≡ xs
  take_whole [] = refl
  take_whole (x ∷ xs) = ap (◌∷◌ x) (take_whole xs)

module _ {D : Type 0} (real : Real D) where
  -- From one tally to another that has `n` tests more.
  record IsTallied (n : ℕ) (a b : Tally D) : Type 0 where
    total : b.total ≡ a.total + n
    balanced : IsBalanced a → IsBalanced b

  one-IsTallied :
      (tr : TestResult D) (a : Tally D) → IsTallied 1 a (classify real tr (measure real tr a))
  unfolding classify measure
  one-IsTallied tr a = record {
    total = ground arith;
    balanced =
        λ i. record { verdicts = ground (arith, i.verdicts); kinds = ground (arith, i.kinds) };
  }

  IsTallied-trans :
      (m n : ℕ) (a b c : Tally D) → IsTallied m a b → IsTallied n b c → IsTallied (m + n) a c
  IsTallied-trans m n a b c i j = record {
    total = omega (arith, i.total, j.total);
    balanced = λ h. j.balanced (i.balanced h);
  }

  none-IsTallied : (a : Tally D) → IsTallied 0 a a
  none-IsTallied a = record { total = omega arith; balanced = λ h. h }

  tests-IsTallied :
      (trs : ScenarioResults D) (a : Tally D) → IsTallied (length trs) a (tally_tests real trs a)
  unfolding tally_tests
  tests-IsTallied [] a = none-IsTallied a
  tests-IsTallied (tr ∷ trs) a =
      let b = classify real tr (measure real tr a) in
      subst (λ n. IsTallied n a (tally_tests real trs b)) (omega arith)
        (IsTallied-trans 1 (length trs) a b (tally_tests real trs b) (one-IsTallied tr a)
          (tests-IsTallied trs b))

  found-IsTallied :
      (o : Option (ScenarioResults D)) (a : Tally D)
      → IsTallied (tests_found o) a (tally_found real o a)
  found-IsTallied none a = none-IsTallied a
  found-IsTallied (some sr) a = tests-IsTallied sr a

  -- The scenarios from index `i` of the slab on.
  slab-IsTallied :
      (results : List (ScenarioResults D)) (base i n : ℕ) (a : Tally D)
      → IsTallied
          (tests_in (take n (drop (base + i) results)))
          a
          (tally_slab real results base (count_up i n) a)
  unfolding tally_slab
  slab-IsTallied results base i zero a = none-IsTallied a
  slab-IsTallied results base i (suc n) a =
      let o = get_elem? results (base + i) in
      let b = tally_found real o a in
      let c = tally_slab real results base (count_up (i + 1) n) b in
      let rest = tests_in (take n (drop (base + (i + 1)) results)) in
      let e : suc (base + i) ≡ base + (i + 1) = omega arith in
      let count : tests_found o + rest ≡ tests_in (take (suc n) (drop (base + i) results)) = sym (
        tests_in-suc n (base + i) results
        ∙ ap (λ k. tests_found o + tests_in (take n (drop k results))) e) in
      subst (λ k. IsTallied k a c) count
        (IsTallied-trans (tests_found o) rest a b c (found-IsTallied o a)
          (slab-IsTallied results base (i + 1) n b))

  -- The slabs from the `t`-th on.
  slabs-IsTallied :
      (results : List (ScenarioResults D)) (num t more : ℕ) (a : Tally D)
      → IsTallied
          (tests_in (take (more * num) (drop (t * num) results)))
          a
          (tally_slabs real results num (count_up 0 num) t more a)
  unfolding tally_slabs
  slabs-IsTallied results num t zero a =
      let e : 0 ≡ 0 * num = omega arith in
      subst (λ k. IsTallied (tests_in (take k (drop (t * num) results))) a a) e (none-IsTallied a)
  slabs-IsTallied results num t (suc more) a =
      let b = tally_slab real results (t * num) (count_up 0 num) a in
      let c = tally_slabs real results num (count_up 0 num) (t + 1) more b in
      let here = drop (t * num) results in
      let z : t * num + 0 ≡ t * num = omega arith in
      let one : IsTallied (tests_in (take num here)) a b =
        subst (λ k. IsTallied (tests_in (take num (drop k results))) a b) z
          (slab-IsTallied results (t * num) 0 num a) in
      let behind : drop ((t + 1) * num) results ≡ drop num here =
        sym (drop-drop num (t * num) results ∙ ap (λ k. drop k results) (grind arith)) in
      let count : tests_in (take num here) + tests_in (take (more * num) (drop num here))
          ≡ tests_in (take (suc more * num) here) =
        sym
          (ap (λ k. tests_in (take k here)) (grind arith) ∙ tests_in-split num (more * num) here) in
      subst (λ k. IsTallied k a c) count
        (IsTallied-trans (tests_in (take num here)) (tests_in (take (more * num) (drop num here))) a
          b c one
          (subst (λ xs. IsTallied (tests_in (take (more * num) xs)) b c) behind
            (slabs-IsTallied results num (t + 1) more b)))

  whole_layout :
      (results : List (ScenarioResults D)) (thread_counts : List ℤ)
      → has_layout real results thread_counts ≡ true
      → take
          (length thread_counts * (length results / length thread_counts))
          (drop (0 * (length results / length thread_counts)) results)
        ≡ results
  unfolding has_layout
  whole_layout results thread_counts h =
      let num = length results / length thread_counts in
      let z : 0 * num ≡ 0 = omega arith in
      let full : length results ≡ num * length thread_counts = ground (arith, h) in
      let e : length thread_counts * num ≡ length results = grind (arith, full) in
      rw (z, e) (take_whole results)

  -- The summary of a job whose results make full slabs of scenarios counts every test of every result
  -- exactly once, as passed or failed, and every failed one under exactly one kind of failure.
  pub summary_totals :
      (results : List (ScenarioResults D)) (thread_counts : List ℤ)
      → has_layout real results thread_counts ≡ true
      → (s : Summary D) × (build_summary real results thread_counts ≡ some s)
        × (s.tally.total ≡ tests_in results)
        × IsBalanced s.tally
  unfolding build_summary build_aggregate
  summary_totals results thread_counts h =
      let num = length results / length thread_counts in
      let n = length thread_counts in
      let t = slabs-IsTallied results num 0 n (new_tally real) in
      let whole : take (n * num) (drop (0 * num) results) ≡ results =
        whole_layout results thread_counts h in
      (
        build_aggregate real results thread_counts num (count_up 0 num),
        rw h refl,
        t.total ∙ (omega arith ∙ ap tests_in whole),
        t.balanced (record { verdicts = refl; kinds = refl }),
      )
