-- ===== src/Summary/Gating.antt =====
-- The ladder of thread counts compares a test only with itself, and only where it passed twice.
use c_tests_runner.Base.{
  ℕ, ◌+◌, ◌*◌, min, ◌≡◌, refl, ◌&&◌, inl, inr, List, [], ◌∷◌, length, get_elem?, arith, Bool-cases,
  ◌==◌, if◌then◌else◌,
}
use c_tests_runner.Base.Int.{ℤ}
use c_tests_runner.Summary.{Real, TestResult, ScenarioResults}
use c_tests_runner.Summary.Scalability.{
  Ladder, Entry, new_ladder, compare_tests, compare_scenario, compare_slab, make_entry,
  scalability_from, result_at,
}

-- The pairs of results that both passed, and all the pairs.
abbrev pub both_passed : {D : Type 0} → ScenarioResults D → ScenarioResults D → ℕ
both_passed [] sr = 0
both_passed (r ∷ srt) [] = 0
both_passed (r ∷ srt) (b ∷ srb) = (if r.passed && b.passed then 1 else 0) + both_passed srt srb

abbrev pub pairs : {D : Type 0} → ScenarioResults D → ScenarioResults D → ℕ
pairs srt srb = min (length srt) (length srb)

module _ {D : Type 0} (results : List (ScenarioResults D)) where
  abbrev pub slab_passed : ℕ → List ℕ → ℕ
  slab_passed base [] = 0
  slab_passed base (s ∷ indices) =
      both_passed (result_at (get_elem? results (base + s))) (result_at (get_elem? results s))
      + slab_passed base indices

  abbrev pub slab_pairs : ℕ → List ℕ → ℕ
  slab_pairs base [] = 0
  slab_pairs base (s ∷ indices) =
      pairs (result_at (get_elem? results (base + s))) (result_at (get_elem? results s))
      + slab_pairs base indices

-- The thread counts whose tests give an entry, and what the entry counts.
abbrev pub expected :
    {D : Type 0} → List (ScenarioResults D) → ℕ → List ℕ → ℕ → List ℤ → List (ℤ × ℕ × ℕ)
expected results num indices t [] = []
expected results num indices t (tc ∷ counts) =
    if slab_passed results (t * num) indices == 0
    then expected results num indices (t + 1) counts
    else (tc, slab_passed results (t * num) indices, slab_pairs results (t * num) indices)
      ∷ expected results num indices (t + 1) counts

abbrev pub counted : {D : Type 0} → List (Entry D) → List (ℤ × ℕ × ℕ)
counted [] = []
counted (e ∷ es) = (e.threads, e.tests_compared, e.tests_compared + e.tests_skipped) ∷ counted es

module _ {D : Type 0} (real : Real D) where
  -- From one ladder to another, with `c` comparisons more out of `n` pairs.
  record IsCompared (c n : ℕ) (l m : Ladder D) : Type 0 where
    compared : m.tests_compared ≡ l.tests_compared + c
    all : m.tests_compared + m.tests_skipped ≡ l.tests_compared + l.tests_skipped + n

  step :
      (r b : TestResult D) (l : Ladder D)
      → IsCompared (if r.passed && b.passed then 1 else 0) 1 l (compare_tests real r b l)
  unfolding compare_tests
  step r b l = record { compared = ground arith; all = ground arith }

  scenario-IsCompared :
      (srt srb : ScenarioResults D) (l : Ladder D)
      → IsCompared (both_passed srt srb) (pairs srt srb) l (compare_scenario real srt srb l)
  unfolding compare_scenario
  scenario-IsCompared [] srb l = record { compared = omega arith; all = omega arith }
  scenario-IsCompared (r ∷ srt) [] l = record { compared = omega arith; all = omega arith }
  scenario-IsCompared (r ∷ srt) (b ∷ srb) l =
      let m = compare_tests real r b l in
      let i = scenario-IsCompared srt srb m in
      let s = step r b l in
      record { compared = omega (arith, i.compared, s.compared); all = omega (arith, i.all, s.all) }

  slab-IsCompared :
      (results : List (ScenarioResults D)) (base : ℕ) (indices : List ℕ) (l : Ladder D)
      → IsCompared
          (slab_passed results base indices)
          (slab_pairs results base indices)
          l
          (compare_slab real results base indices l)
  unfolding compare_slab
  slab-IsCompared results base [] l = record { compared = omega arith; all = omega arith }
  slab-IsCompared results base (s ∷ indices) l =
      let srt = result_at (get_elem? results (base + s)) in
      let srb = result_at (get_elem? results s) in
      let m = compare_scenario real srt srb l in
      let i = scenario-IsCompared srt srb l in
      let j = slab-IsCompared results base indices m in
      record { compared = omega (arith, i.compared, j.compared); all = omega (arith, i.all, j.all) }

  -- The ladder has an entry for exactly the thread counts, in order, at which some test passed that
  -- also passed at the first one. The entry compares exactly those tests and skips all other pairs.
  pub ladder_gated :
      (results : List (ScenarioResults D)) (num : ℕ) (indices : List ℕ) (t : ℕ) (counts : List ℤ)
      → counted (scalability_from real results num indices t counts)
        ≡ expected results num indices t counts
  unfolding scalability_from make_entry
  ladder_gated results num indices t [] = refl
  ladder_gated results num indices t (tc ∷ counts) =
      let l = compare_slab real results (t * num) indices (new_ladder real) in
      let i = slab-IsCompared results (t * num) indices (new_ladder real) in
      let c : l.tests_compared ≡ slab_passed results (t * num) indices =
        omega (arith, i.compared) in
      let a : l.tests_compared + l.tests_skipped ≡ slab_pairs results (t * num) indices =
        omega (arith, i.all) in
      elim (Bool-cases (l.tests_compared == 0)) [
        | inl e ↦ rw (← c, ← a, e) (ladder_gated results num indices (t + 1) counts)
        | inr e ↦ rw (← c, ← a, e, ladder_gated results num indices (t + 1) counts) refl
      ]
