-- ===== src/CpuIsolator/Pools.antt =====
-- A well-formed isolator, and what `allocate` chooses from it or refuses.
use mathlib.Core.Path.{subst}
use c_tests_runner.Base.{
  ℕ, ◌≤◌, ◌<◌, ◌≡◌, refl, sym, ap, ◌∙◌, Bool, true, false, ◌&&◌, ◌||◌, none, inl, inr, List, [],
  ◌∷◌, length, All, arith, Bool-cases, ltb, leb,
}
use c_tests_runner.Base.Int.{ℤ, pos, negsuc}
use c_tests_runner.Base.Result.{Result, ok, err, is_ok, ◌>>=◌}
use c_tests_runner.CpuIsolator.{mem, flatten, Isolator}
use c_tests_runner.CpuIsolator.CoreSets.{IsSorted, IsWithin, IsDistinct, sorted-IsDistinct}
use c_tests_runner.CpuIsolator.CoreLists.{length_le-IsWithin}
use c_tests_runner.CpuIsolator.Text.{int_max}
use c_tests_runner.CpuIsolator.Allocate.{
  free, node_at, fullest, choose_node, is_nonempty, is_auto, pick_l3, choose_from, choose_cores,
}
use c_tests_runner.CpuIsolator.Chosen.{
  IsChoice, mem-free, take-free-IsChoice, take-free-IsWithin_node, pick_l3-cases,
  node_at-IsDistinct,
}
use c_tests_runner.CpuIsolator.Spill.{spill-IsChoice}

-- The free cores are a set of the nodes' cores; no core is in two nodes or twice in an L3 group.
pub record IsWell (t : Isolator) : Type 0 where
  pub sorted : IsSorted t.available
  pub in_nodes : IsWithin t.available (flatten t.nodes)
  pub distinct : IsDistinct (flatten t.nodes)
  pub groups : All IsDistinct t.l3
  pub small : (c : ℕ) → mem c t.available ≡ true → c ≤ int_max

nonempty_of : (xs : List ℕ) → 0 < length xs → is_nonempty xs ≡ true
nonempty_of [] h = absurd (omega (arith, h))
nonempty_of (x ∷ xs) h = refl

-- Whether a request of `num` cores can be served: always where the node is free to choose.
abbrev pub can_serve : ℤ → ℕ → Isolator → Bool
can_serve (negsuc m) num t = true
can_serve (pos k) num t =
    ltb k (length t.nodes) && leb num (length (free t.available (node_at t.nodes k)))

module _ (t : Isolator) (well : IsWell t) where
  -- Every free core is counted in the nodes.
  pub free_in_nodes : length t.available ≤ length (free t.available (flatten t.nodes))
  free_in_nodes =
      length_le-IsWithin t.available (free t.available (flatten t.nodes))
        (sorted-IsDistinct t.available well.sorted)
        (λ c m. ground (arith, mem-free t.available (flatten t.nodes) c, m, well.in_nodes c m))

  abbrev Chosen : ℕ → ℕ → Result (List ℕ) → Type 0
  Chosen num p (err what) = Unit
  Chosen num p (ok cores) =
      IsChoice t.available num cores
      × (is_auto t.numa_node ≡ false → IsWithin cores (node_at t.nodes p))

  picked_nonempty :
      (num : ℕ) (cores : List ℕ)
      → 0 < num
      → IsChoice t.available num cores
      → is_nonempty cores ≡ true
  picked_nonempty num cores z c = nonempty_of cores (omega (arith, z, c.count))

  -- Whatever the passes give is a choice, inside the node if one is set.
  choose_from-Chosen :
      (num p : ℕ) → 0 < num → num ≤ length t.available → Chosen num p (choose_from num p t)
  unfolding choose_from
  choose_from-Chosen num p z h =
      let node = node_at t.nodes p in
      elim (pick_l3-cases t.available node num t.l3 well.groups) [
        | inl e ↦ elim (Bool-cases (leb num (length (free t.available node)))) [
          | inl l ↦
              rw (choose_from, e, l)
                (
                  take-free-IsChoice t.available node num
                      (node_at-IsDistinct t.nodes p well.distinct) (ground (arith, l)),
                  λ a. take-free-IsWithin_node t.available node num,
                )
          | inr l ↦ elim (Bool-cases (is_auto t.numa_node)) [
            | inl a ↦
                rw (choose_from, e, l, a)
                  (
                    spill-IsChoice t.available p num t.nodes well.distinct
                        (omega (arith, h, free_in_nodes)) (ground (arith, l)),
                    λ b. absurd (ground (arith, a, b)),
                  )
            | inr a ↦ rw (choose_from, e, l, a) tt
          ]
        ]
        | inr picked ↦
            rw (choose_from, picked_nonempty num (pick_l3 t.available node num t.l3) z picked.0)
              (picked.0, λ a. picked.1)
      ]

  picked_fits :
      (num : ℕ) (node cores : List ℕ)
      → IsChoice t.available num cores
      → IsWithin cores node
      → num ≤ length (free t.available node)
  picked_fits num node cores c w = omega (
    arith,
    c.count,
    length_le-IsWithin cores (free t.available node) c.distinct
        (λ d m. ground (arith, mem-free t.available node d, c.within d m, w d m)),
  )

  choose_from_ok :
      (num p : ℕ)
      → 0 < num
      → is_ok (choose_from num p t)
        ≡ (is_auto t.numa_node || leb num (length (free t.available (node_at t.nodes p))))
  unfolding choose_from
  choose_from_ok num p z =
      let node = node_at t.nodes p in
      elim (pick_l3-cases t.available node num t.l3 well.groups) [
        | inl e ↦ rw (choose_from, e) (ground arith)
        | inr picked ↦
            rw (choose_from, picked_nonempty num (pick_l3 t.available node num t.l3) z picked.0)
              (ground
                (arith, picked_fits num node (pick_l3 t.available node num t.l3) picked.0 picked.1))
      ]

  -- What `choose_cores` gives, whatever the preferred node.
  abbrev pub Served : ℕ → Result (List ℕ) → Type 0
  Served num (err what) = Unit
  Served num (ok cores) =
      IsChoice t.available num cores
      × ((k : ℕ) → t.numa_node ≡ pos k → IsWithin cores (node_at t.nodes k))

-- `choose_cores`, by the setting of the node.
module _ (num : ℕ) (t : Isolator) where
  by_node :
      (node : ℤ)
      → t.numa_node ≡ node
      → choose_cores num t ≡ (choose_node node t.available t.nodes >>= λ p. choose_from num p t)
  unfolding choose_cores
  by_node node e = ap (λ z. choose_node z t.available t.nodes >>= λ p. choose_from num p t) e

  no_node :
      (k : ℕ)
      → t.numa_node ≡ pos k
      → leb (length t.nodes) k ≡ true
      → choose_cores num t ≡ err "[cpu_isolator] NUMA node does not exist"
  no_node k e l = by_node (pos k) e ∙ rw l refl

  given_node :
      (k : ℕ)
      → t.numa_node ≡ pos k
      → leb (length t.nodes) k ≡ false
      → choose_cores num t ≡ choose_from num k t
  given_node k e l = by_node (pos k) e ∙ rw l refl

  auto_node :
      (m : ℕ)
      → t.numa_node ≡ negsuc m
      → choose_cores num t ≡ choose_from num (fullest t.available t.nodes 0 none 0) t
  auto_node m e = by_node (negsuc m) e

module _ (t : Isolator) (well : IsWell t) (num : ℕ) (positive : 0 < num) where
  at_node-Served :
      (p : ℕ) (node : ℤ)
      → t.numa_node ≡ node
      → ((k : ℕ) → node ≡ pos k → p ≡ k)
      → num ≤ length t.available
      → (r : Result (List ℕ)) → choose_from num p t ≡ r
      → Served t well num r
  at_node-Served p node e same h (err what) q = tt
  at_node-Served p node e same h (ok cores) q =
      let c : Chosen t well num p (ok cores) =
        subst (Chosen t well num p) q (choose_from-Chosen t well num p positive h) in
      (
        c.0,
        λ k s.
            subst (λ j. IsWithin cores (node_at t.nodes j)) (same k (sym e ∙ s))
              (c.1 (ap is_auto s)),
      )

  -- `choose_cores` gives a choice, on the set node if one is set, or throws.
  pub choose_cores-Served :
      num ≤ length t.available
      → (node : ℤ) → t.numa_node ≡ node
      → Served t well num (choose_cores num t)
  choose_cores-Served h (pos k) e = elim (Bool-cases (leb (length t.nodes) k)) [
    | inl l ↦ subst (Served t well num) (sym (no_node num t k e l)) tt
    | inr l ↦
        subst (Served t well num) (sym (given_node num t k e l))
          (at_node-Served k (pos k) e (λ j s. cc) h (choose_from num k t) refl)
  ]
  choose_cores-Served h (negsuc m) e =
      let p = fullest t.available t.nodes 0 none 0 in
      subst (Served t well num) (sym (auto_node num t m e))
        (at_node-Served p (negsuc m) e (λ j s. cc) h (choose_from num p t) refl)

  -- `choose_cores` throws just where the request cannot be served.
  pub choose_cores_ok :
      (node : ℤ) → t.numa_node ≡ node → is_ok (choose_cores num t) ≡ can_serve node num t
  choose_cores_ok (pos k) e = elim (Bool-cases (leb (length t.nodes) k)) [
    | inl l ↦ ap is_ok (no_node num t k e l) ∙ ground (arith, l)
    | inr l ↦
        ap is_ok (given_node num t k e l)
        ∙ (choose_from_ok t well num k positive ∙ ground (arith, l, ap is_auto e))
  ]
  choose_cores_ok (negsuc m) e =
      ap is_ok (auto_node num t m e)
      ∙ (choose_from_ok t well num (fullest t.available t.nodes 0 none 0) positive
          ∙ ground (arith, ap is_auto e))
