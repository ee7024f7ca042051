-- ===== src/Grouping/Grid.antt =====
-- The shape of the grouped results.
use mathlib.Core.Path.{subst}
use c_tests_runner.Base.{
  ℕ, zero, suc, ◌+◌, ◌*◌, ◌-◌, ◌<◌, ◌≤◌, ◌≡◌, refl, sym, ap, ◌∙◌, Bool, ◌&&◌, ltb, Bool-cases, inl,
  inr, String, List, [], ◌∷◌, ◌++◌, map, length, length-map, length-append, take, drop, All, arith,
}
use c_tests_runner.Base.Result.{ok}
use c_tests_runner.Executor.{TestResult}
use c_tests_runner.Executor.Run.{TestScenarioResult}
use c_tests_runner.Grouping.{
  RunEntry, TestEntry, ScenarioEntry, Doubles, item, make_run, group_runs, group_tests,
  group_metrics, group_scenario,
}
use c_tests_runner.Grouping.Rows.{
  Returns, bind-Returns, item-Returns, item-map, item-append, item-behind, take-item, take_all,
  item-value, ok-Returns, ok-injective, cons_eq,
}

-- The results of a lane: for each thread count, one result for each scenario.
abbrev pub Grid : Type 0 → Type 0
Grid D = List (ℕ × List (TestScenarioResult D))

module _ {D : Type 0} where
  abbrev pub counts_of : Grid D → List ℕ
  counts_of [] = []
  counts_of (row ∷ grid) = row.0 ∷ counts_of grid

  abbrev pub results_of : Grid D → List (TestScenarioResult D)
  results_of [] = []
  results_of (row ∷ grid) = row.1 ++ results_of grid

  -- The number of tests and the thread count of a result.
  abbrev pub cell : TestScenarioResult D → ℕ × ℕ
  cell r = (length r.results, r.threads)

  abbrev pub HasCell : ℕ → ℕ → TestScenarioResult D → Type 0
  HasCell size threads r = (length r.results ≡ size) × (r.threads ≡ threads)

  -- Each result of the row has the thread count of the row, and as many tests as the sizes say.
  abbrev pub IsRow : List ℕ → ℕ × List (TestScenarioResult D) → Type 0
  IsRow sizes row = map cell row.1 ≡ map (λ n. (n, row.0)) sizes

  abbrev pub thread_counts_of : List (RunEntry D) → List ℕ
  thread_counts_of [] = []
  thread_counts_of (r ∷ rs) = r.threads ∷ thread_counts_of rs

  -- A test's name and the thread counts of its runs, as grouped and as expected.
  abbrev pub test_outline : TestEntry D → String × List ℕ
  test_outline t = (t.name, thread_counts_of t.runs)

  abbrev pub expected_test : List ℕ → TestResult D → String × List ℕ
  expected_test counts tr = (tr.name, counts)

  abbrev pub outline : ScenarioEntry D → String × List (String × List ℕ)
  outline e = (e.name, map test_outline e.tests)

  abbrev pub expected : List ℕ → TestScenarioResult D → String × List (String × List ℕ)
  expected counts r = (r.name, map (expected_test counts) r.results)

  pub row-length :
      (sizes : List ℕ) (row : ℕ × List (TestScenarioResult D))
      → IsRow sizes row
      → length row.1 ≡ length sizes
  row-length sizes row h =
      sym (length-map cell row.1) ∙ ap length h ∙ length-map (λ n. (n, row.0)) sizes

  -- What a result of a row has.
  row-item :
      (sizes : List ℕ) (row : ℕ × List (TestScenarioResult D)) (s size : ℕ)
      → IsRow sizes row
      → item sizes s ≡ ok size
      → s < length sizes
      → Returns (HasCell size row.0) (item row.1 s)
  row-item sizes row s size h e lt =
      let below : s < length row.1 = omega (arith, row-length sizes row h, lt) in
      let found = item-value row.1 s below in
      let c : item (map cell row.1) s ≡ ok (size, row.0) =
        ap (λ cells. item cells s) h ∙ item-map (λ n. (n, row.0)) sizes s size e in
      let p =
        ok-injective (cell found.0) (size, row.0)
          (sym (item-map cell row.1 s found.0 found.1) ∙ c) in
      ok-Returns _ (item row.1 s) found.0 found.1 (ap (λ q. q.0) p, ap (λ q. q.1) p)

  pub results_of-length :
      (sizes : List ℕ) (grid : Grid D)
      → All (IsRow sizes) grid
      → length (results_of grid) ≡ length (counts_of grid) * length sizes
  results_of-length sizes [] h = omega arith
  results_of-length sizes (row ∷ grid) h = omega (
    arith,
    length-append row.1 (results_of grid),
    row-length sizes row h.0,
    results_of-length sizes grid h.1,
  )

last_row : (m n s len : ℕ) → len ≡ suc m * n → s < n → (suc m - 1) * n + s < len
last_row m n s len e lt =
    let less : suc m - 1 ≡ m = omega arith in
    let more : suc m * n ≡ n + m * n = omega arith in rw less (omega (arith, e ∙ more, lt))

module _ {D : Type 0} (d : Doubles D) (sizes : List ℕ) where
  group_runs-Returns :
      (results : List (TestScenarioResult D)) (s ti size : ℕ) (t1_ms : D) (t : ℕ) (rest : Grid D)
      → item sizes s ≡ ok size
      → s < length sizes
      → ti < size
      → All (IsRow sizes) rest
      → ((i : ℕ) → item results (t * length sizes + i) ≡ item (results_of rest) i)
      → Returns
          (λ runs. thread_counts_of runs ≡ counts_of rest)
          (group_runs d results (length sizes) s ti t1_ms t (counts_of rest))
  unfolding group_runs make_run
  group_runs-Returns results s ti size t1_ms t [] e lt in_size rows here = refl
  group_runs-Returns results s ti size t1_ms t (row ∷ rest) e lt in_size rows here =
      let n = row-length sizes row rows.0 in
      let same : item results (t * length sizes + s) ≡ item row.1 s =
        here s ∙ item-append row.1 (results_of rest) s (omega (arith, n, lt)) in
      let later : (i : ℕ) → item results ((t + 1) * length sizes + i) ≡ item (results_of rest) i =
        λ i.
          ap (item results) (omega (arith, n))
          ∙ here (length row.1 + i)
          ∙ item-behind row.1 (results_of rest) i in
      bind-Returns _ _ (item results (t * length sizes + s)) _
        (subst (Returns (HasCell size row.0)) (sym same) (row-item sizes row s size rows.0 e lt))
        (λ r p.
          bind-Returns _ _ (item r.results ti) _
            (item-Returns r.results ti (omega (arith, p.0, in_size)))
            (λ tr found.
              bind-Returns _ _
                (group_runs d results (length sizes) s ti t1_ms (t + 1) (counts_of rest)) _
                (group_runs-Returns results s ti size t1_ms (t + 1) rest e lt in_size rows.1 later)
                (λ runs q. cons_eq r.threads row.0 _ _ p.1 q)))

  -- The lane with its first row in front.
  module _ (row : ℕ × List (TestScenarioResult D)) (more : Grid D)
      (rows : All (IsRow sizes) (row ∷ more)) (perf_mode : Bool) where
    abbrev results : List (TestScenarioResult D)
    results = results_of (row ∷ more)

    abbrev counts : List ℕ
    counts = counts_of (row ∷ more)

    group_tests-Returns :
        (s : ℕ) (base : TestScenarioResult D) (ti k : ℕ)
        → item results s ≡ ok base
        → item sizes s ≡ ok (length base.results)
        → s < length sizes
        → ti + k ≤ length base.results
        → Returns
            (λ ts. map test_outline ts ≡ take k (drop ti (map (expected_test counts) base.results)))
            (group_tests d results (length sizes) counts s ti k)
    unfolding group_tests
    group_tests-Returns s base ti zero known e lt in_size = refl
    group_tests-Returns s base ti (suc k) known e lt in_size =
        let here : (i : ℕ) → item results (0 * length sizes + i) ≡ item results i =
          λ i. ap (item results) (omega arith) in
        rw known (
          bind-Returns _ _ (item base.results ti) _
            (item-Returns base.results ti (omega (arith, in_size)))
            (λ first found.
              bind-Returns _ _ (group_runs d results (length sizes) s ti first.time_ms 0 counts) _
                (group_runs-Returns results s ti (length base.results) first.time_ms 0 (row ∷ more)
                  e lt (omega (arith, in_size)) rows here)
                (λ runs q.
                  bind-Returns _ _ (group_tests d results (length sizes) counts s (ti + 1) k) _
                    (group_tests-Returns s base (ti + 1) k known e lt (omega (arith, in_size)))
                    (λ ts h.
                      cons_eq (first.name, thread_counts_of runs) (first.name, counts) _ _
                        (ap (λ tcs. (first.name, tcs)) q) h
                      ∙ sym (
                          take-item (map (expected_test counts) base.results) ti k _
                            (item-map (expected_test counts) base.results ti first found))))))

    group_metrics-Returns :
        (s : ℕ) (base : TestScenarioResult D)
        → s < length sizes
        → Returns (λ m. Unit) (group_metrics d results (length sizes) counts perf_mode s base)
    unfolding group_metrics
    group_metrics-Returns s base lt = elim (Bool-cases (perf_mode && ltb 1 (length counts))) [
      | inl e ↦
          let last : (length counts - 1) * length sizes + s < length results =
            last_row (length (counts_of more)) (length sizes) s (length results)
              (results_of-length sizes (row ∷ more) rows) lt in
          let found = item-value results ((length counts - 1) * length sizes + s) last in
          rw (e, found.1) tt
      | inr e ↦ rw e tt
    ]

    base_size :
        (s : ℕ) (base : TestScenarioResult D)
        → item row.1 s ≡ ok base
        → s < length sizes
        → item sizes s ≡ ok (length base.results)
    base_size s base known lt =
        let found = item-value sizes s lt in
        let c : ok (cell base) ≡ ok (found.0, row.0) =
          sym (item-map cell row.1 s base known)
          ∙ ap (λ cells. item cells s) rows.0
          ∙ item-map (λ n. (n, row.0)) sizes s found.0 found.1 in
        found.1 ∙ ap ok (sym (ap (λ q. q.0) (ok-injective _ _ c)))

    whole :
        (base : TestScenarioResult D)
        → take (length base.results) (map (expected_test counts) base.results)
          ≡ map (expected_test counts) base.results
    whole base =
        ap (λ n. take n (map (expected_test counts) base.results))
          (sym (length-map (expected_test counts) base.results))
        ∙ take_all (map (expected_test counts) base.results)

    pub group_scenario-Returns :
        (s : ℕ) (base : TestScenarioResult D)
        → item row.1 s ≡ ok base
        → s < length row.1
        → Returns
            (λ entry. outline entry ≡ expected counts base)
            (group_scenario d results (length sizes) counts perf_mode s)
    unfolding group_scenario
    group_scenario-Returns s base known lt =
        let below : s < length sizes = omega (arith, row-length sizes row rows.0, lt) in
        let known₁ : item results s ≡ ok base = item-append row.1 (results_of more) s lt ∙ known in
        let size = base_size s base known below in
        rw known₁ (
          bind-Returns _ _ (group_tests d results (length sizes) counts s 0 (length base.results)) _
            (group_tests-Returns s base 0 (length base.results) known₁ size below (omega arith))
            (λ tests h.
              bind-Returns _ _ (group_metrics d results (length sizes) counts perf_mode s base) _
                (group_metrics-Returns s base below)
                (λ metrics unit. ap (λ ts. (base.name, ts)) (h ∙ whole base))))
