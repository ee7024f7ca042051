-- ===== src/Grouping/Shape.antt =====
-- Grouping a whole lane.
use mathlib.Core.Path.{subst}
use native.Mathlib.Nat.{mul-div_right, mul-mod_right}
use c_tests_runner.Base.{
  ℕ, zero, suc, ◌+◌, ◌/◌, ◌%◌, ◌<◌, ◌≤◌, ◌≡◌, refl, sym, ap, ◌∙◌, Bool, false, ◌||◌, ◌==◌, List,
  ◌∷◌, map, length, length-map, length-append, take, drop, All, arith,
}
use c_tests_runner.Executor.Run.{TestScenarioResult}
use c_tests_runner.Grouping.{Doubles, group_scenario, group_scenarios, to_grouped_json}
use c_tests_runner.Grouping.Rows.{
  Returns, bind-Returns, item-map, take-item, take_all, item-value, cons_eq,
}
use c_tests_runner.Grouping.Grid.{
  Grid, counts_of, results_of, IsRow, outline, expected, row-length, results_of-length,
  group_scenario-Returns,
}

module _ {D : Type 0} (d : Doubles D) (sizes : List ℕ) (row : ℕ × List (TestScenarioResult D))
    (more : Grid D) (rows : All (IsRow sizes) (row ∷ more)) (perf_mode : Bool) where
  abbrev results : List (TestScenarioResult D)
  results = results_of (row ∷ more)

  abbrev counts : List ℕ
  counts = counts_of (row ∷ more)

  group_scenarios-Returns :
      (s k : ℕ)
      → s + k ≤ length row.1
      → Returns
          (λ entries. map outline entries ≡ take k (drop s (map (expected counts) row.1)))
          (group_scenarios d results (length sizes) counts perf_mode s k)
  unfolding group_scenarios
  group_scenarios-Returns s zero fits = refl
  group_scenarios-Returns s (suc k) fits =
      let lt : s < length row.1 = omega (arith, fits) in
      let found = item-value row.1 s lt in
      bind-Returns _ _ (group_scenario d results (length sizes) counts perf_mode s) _
        (group_scenario-Returns d sizes row more rows perf_mode s found.0 found.1 lt)
        (λ entry e.
          bind-Returns _ _ (group_scenarios d results (length sizes) counts perf_mode (s + 1) k) _
            (group_scenarios-Returns (s + 1) k (omega (arith, fits)))
            (λ entries h.
              cons_eq (outline entry) (expected counts found.0) _ _ e h
              ∙ sym (
                  take-item (map (expected counts) row.1) s k _
                    (item-map (expected counts) row.1 s found.0 found.1))))

  whole_row :
      take (length sizes) (drop 0 (map (expected counts) row.1)) ≡ map (expected counts) row.1
  whole_row =
      ap (λ n. take n (map (expected counts) row.1))
        (sym (length-map (expected counts) row.1 ∙ row-length sizes row rows.0))
      ∙ take_all (map (expected counts) row.1)

  -- The results of a lane that has at least one scenario, with one row for each thread count in which
  -- each scenario has as many tests as in the first row, are grouped without an index out of range:
  -- there is one entry for each scenario of the first row, in order and by name, and in it one for
  -- each of its tests, in order and by name, with one run for each thread count, in order.
  pub to_grouped_json-Returns :
      0 < length row.1
      → Returns
          (λ entries. map outline entries ≡ map (expected counts) row.1)
          (to_grouped_json d results counts perf_mode)
  unfolding to_grouped_json
  to_grouped_json-Returns some_scenario =
      let len = results_of-length sizes (row ∷ more) rows in
      let n = row-length sizes row rows.0 in
      let divided : length results / length counts ≡ length sizes =
        ap (λ k. k / length counts) len ∙ mul-div_right (length sizes) (omega arith) in
      let divides : length results % length counts ≡ 0 =
        ap (λ k. k % length counts) len ∙ mul-mod_right (length counts) (length sizes) in
      let full : ((length results == 0) || (length counts == 0)) ≡ false =
        ground (arith, length-append row.1 (results_of more)) in
      rw (full, divides, divided)
        (subst
          (λ l.
            Returns (λ entries. map outline entries ≡ l)
              (group_scenarios d results (length sizes) counts perf_mode 0 (length sizes)))
          whole_row (group_scenarios-Returns 0 (length sizes) (omega (arith, n))))
