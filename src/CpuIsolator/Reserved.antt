-- ===== src/CpuIsolator/Reserved.antt =====
-- What the constructor leaves for tests, and what it reserves.
use mathlib.Core.Path.{subst}
use mathlib.Core.List.{append_assoc}
use c_tests_runner.Base.{
  ℕ, zero, suc, min, ◌≤◌, ◌≡◌, refl, sym, ap, ◌∙◌, Bool, true, false, not, inl, inr, List, [], ◌∷◌,
  ◌++◌, map, length, length-append, keep_if, All, arith, Bool-cases, eq_of, ◌==◌, if◌then◌else◌,
}
use c_tests_runner.Base.Int.{ℤ}
use c_tests_runner.CpuIsolator.{mem, flatten, Isolator}
use c_tests_runner.CpuIsolator.CoreSets.{
  IsSorted, IsDistinct, above_mem, insert_all-IsSorted, mem-insert_all,
}
use c_tests_runner.CpuIsolator.CoreLists.{mem-append, mem-keep_if, keep_if-IsDistinct}
use c_tests_runner.CpuIsolator.Text.{int_max}
use c_tests_runner.CpuIsolator.Allocate.{is_nonempty}
use c_tests_runner.CpuIsolator.Construct.{
  without, discovered, reserve_lowest, reserve, trim_l3, construct,
}
use c_tests_runner.CpuIsolator.Pools.{IsWell}

keep_if-append :
    (p : ℕ → Bool) (xs ys : List ℕ) → keep_if p (xs ++ ys) ≡ keep_if p xs ++ keep_if p ys
keep_if-append p [] ys = refl
keep_if-append p (x ∷ xs) ys = ground (arith, keep_if-append p xs ys)

flatten-without :
    (low : ℕ) (nodes : List (List ℕ))
    → flatten (map (without low) nodes) ≡ without low (flatten nodes)
unfolding without
flatten-without low [] = refl
flatten-without low (node ∷ nodes) =
    rw (flatten-without low nodes, keep_if-append (λ c. not (c == low)) node (flatten nodes))

-- What the machine offers: no core twice in the nodes, none twice in an L3 group, all of them `int`s.
pub record IsTopology (nodes l3 : List (List ℕ)) : Type 0 where
  pub distinct : IsDistinct (flatten nodes)
  pub groups : All IsDistinct l3
  pub small : (c : ℕ) → mem c (flatten nodes) ≡ true → c ≤ int_max

flatten-append_one :
    (nodes : List (List ℕ)) (c : ℕ) → flatten (nodes ++ (c ∷ []) ∷ []) ≡ flatten nodes ++ c ∷ []
flatten-append_one [] c = refl
flatten-append_one (node ∷ nodes) c =
    rw (flatten-append_one nodes c, append_assoc node (flatten nodes) (c ∷ []))

length_zero : (xs : List ℕ) → length xs ≡ 0 → xs ≡ []
length_zero [] h = refl
length_zero (x ∷ xs) h = absurd (omega (arith, h))

no_nodes :
    (nodes : List (List ℕ)) → length (flatten nodes) ≡ 0 → flatten (nodes ++ (0 ∷ []) ∷ []) ≡ 0 ∷ []
no_nodes nodes h =
    flatten-append_one nodes 0 ∙ ap (λ xs. xs ++ 0 ∷ []) (length_zero (flatten nodes) h)

discovered-IsWell :
    (numa_node : ℤ) (nodes l3 : List (List ℕ))
    → IsTopology nodes l3
    → IsWell (discovered numa_node nodes l3)
unfolding discovered mem
discovered-IsWell numa_node nodes l3 top = elim (Bool-cases (length (flatten nodes) == 0)) [
  | inl e ↦
      let one = no_nodes nodes (eq_of (length (flatten nodes)) 0 e) in
      rw (discovered, e)
        (record {
          sorted = (tt, tt);
          in_nodes = λ c m. rw one m;
          distinct = rw one (refl, tt);
          groups = top.groups;
          small = λ c m. ground (arith, m);
        })
  | inr e ↦
      rw (discovered, e)
        (record {
          sorted = insert_all-IsSorted (flatten nodes) [] tt;
          in_nodes = λ c m. ground (arith, m, mem-insert_all c (flatten nodes) []);
          distinct = top.distinct;
          groups = top.groups;
          small = λ c m. top.small c (ground (arith, m, mem-insert_all c (flatten nodes) []));
        })
]

lowest-IsWell :
    (available : List ℕ) (t : Isolator)
    → available ≡ t.available
    → IsWell t
    → IsWell (reserve_lowest available t).1
unfolding without mem
lowest-IsWell [] t e w = w
lowest-IsWell (low ∷ rest) t e w =
    let s : IsSorted (low ∷ rest) = subst IsSorted (sym e) w.sorted in
    let old : (c : ℕ) → mem c rest ≡ true → mem c t.available ≡ true =
      (λ c m. ap (mem c) (sym e) ∙ ground (arith, m)) in
    record {
      sorted = s.1;
      in_nodes = λ c m. rw (flatten-without low t.nodes) (
          ground (
            arith,
            mem-keep_if (λ d. not (d == low)) c (flatten t.nodes),
            w.in_nodes c (old c m),
            above_mem low c rest s.0 m,
          ));
      distinct =
          rw (flatten-without low t.nodes)
            (keep_if-IsDistinct (λ d. not (d == low)) (flatten t.nodes) w.distinct);
      groups = w.groups;
      small = λ c m. w.small c (old c m);
    }

reserve-IsWell : (n : ℕ) (t : Isolator) → IsWell t → IsWell (reserve n t).1
unfolding reserve
reserve-IsWell zero t w = w
reserve-IsWell (suc n) t w =
    reserve-IsWell n (reserve_lowest t.available t).1 (lowest-IsWell t.available t refl w)

trim-IsDistinct :
    (infra : List ℕ) (groups : List (List ℕ))
    → All IsDistinct groups
    → All IsDistinct (trim_l3 infra groups)
unfolding trim_l3
trim-IsDistinct infra [] d = tt
trim-IsDistinct infra (group ∷ groups) d =
    ground (
      arith,
      keep_if-IsDistinct (λ c. not (mem c infra)) group d.0,
      trim-IsDistinct infra groups d.1,
    )

-- From a topology without repeated cores, all of them in the range of an `int`, the constructor
-- makes a well-formed isolator.
pub construct-IsWell :
    (numa_node : ℤ) (infra_reserve : ℕ) (nodes l3 : List (List ℕ))
    → IsTopology nodes l3
    → IsWell (construct numa_node infra_reserve nodes l3)
unfolding construct
construct-IsWell numa_node infra_reserve nodes l3 top =
    let t = discovered numa_node nodes l3 in
    let w = reserve-IsWell infra_reserve t (discovered-IsWell numa_node nodes l3 top) in
    record {
      sorted = w.sorted;
      in_nodes = w.in_nodes;
      distinct = w.distinct;
      groups = trim-IsDistinct (reserve infra_reserve t).0 (reserve infra_reserve t).1.l3 w.groups;
      small = w.small;
    }

lowest_parts :
    (available : List ℕ) (t : Isolator)
    → available ≡ t.available
    → (reserve_lowest available t).0 ++ (reserve_lowest available t).1.available ≡ t.available
lowest_parts [] t e = refl
lowest_parts (low ∷ rest) t e = e

reserve_parts : (n : ℕ) (t : Isolator) → (reserve n t).0 ++ (reserve n t).1.available ≡ t.available
unfolding reserve
reserve_parts zero t = refl
reserve_parts (suc n) t =
    let low = reserve_lowest t.available t in
    rw (append_assoc low.0 (reserve n low.1).0 (reserve n low.1).1.available, reserve_parts n low.1)
      (lowest_parts t.available t refl)

lowest_one :
    (available : List ℕ) (t : Isolator)
    → length (reserve_lowest available t).0 ≡ min 1 (length available)
lowest_one [] t = omega arith
lowest_one (low ∷ rest) t = omega arith

reserve_count : (n : ℕ) (t : Isolator) → length (reserve n t).0 ≡ min n (length t.available)
unfolding reserve
reserve_count zero t = omega arith
reserve_count (suc n) t =
    let low = reserve_lowest t.available t in
    omega (
      arith,
      length-append low.0 (reserve n low.1).0,
      reserve_count n low.1,
      lowest_one t.available t,
      ap length (lowest_parts t.available t refl),
      length-append low.0 low.1.available,
    )

lowest_nodes :
    (c : ℕ) (available : List ℕ) (t : Isolator)
    → mem c (flatten (reserve_lowest available t).1.nodes)
      ≡ (if mem c (reserve_lowest available t).0 then false else mem c (flatten t.nodes))
unfolding mem without
lowest_nodes c [] t = refl
lowest_nodes c (low ∷ rest) t =
    rw (flatten-without low t.nodes)
      (ground (arith, mem-keep_if (λ d. not (d == low)) c (flatten t.nodes)))

reserve_nodes :
    (c n : ℕ) (t : Isolator)
    → mem c (flatten (reserve n t).1.nodes)
      ≡ (if mem c (reserve n t).0 then false else mem c (flatten t.nodes))
unfolding reserve mem
reserve_nodes c zero t = refl
reserve_nodes c (suc n) t =
    let low = reserve_lowest t.available t in
    ground (
      arith,
      reserve_nodes c n low.1,
      lowest_nodes c t.available t,
      mem-append c low.0 (reserve n low.1).0,
    )

mem_empty : (c : ℕ) (xs : List ℕ) → is_nonempty xs ≡ false → mem c xs ≡ false
unfolding mem
mem_empty c [] h = refl
mem_empty c (x ∷ xs) h = cc

trim_mem :
    (c : ℕ) (infra : List ℕ) (groups : List (List ℕ))
    → mem c (flatten (trim_l3 infra groups))
      ≡ (if mem c infra then false else mem c (flatten groups))
unfolding trim_l3 mem
trim_mem c infra [] = ground arith
trim_mem c infra (group ∷ groups) =
    let left = keep_if (λ d. not (mem d infra)) group in
    ground (
      arith,
      mem-keep_if (λ d. not (mem d infra)) c group,
      mem-append c group (flatten groups),
      mem-append c left (flatten (trim_l3 infra groups)),
      mem_empty c left,
      trim_mem c infra groups,
    )

lowest_l3 : (available : List ℕ) (t : Isolator) → (reserve_lowest available t).1.l3 ≡ t.l3
lowest_l3 [] t = refl
lowest_l3 (low ∷ rest) t = refl

reserve_l3 : (n : ℕ) (t : Isolator) → (reserve n t).1.l3 ≡ t.l3
unfolding reserve
reserve_l3 zero t = refl
reserve_l3 (suc n) t = reserve_l3 n (reserve_lowest t.available t).1 ∙ lowest_l3 t.available t

-- The cores that the constructor reserves are the lowest ones, as many as configured or all if there
-- are fewer; the test pool has exactly the others. The NUMA nodes and the L3 groups have the cores
-- that discovery gave them except the reserved ones.
pub construct_reserves :
    (numa_node : ℤ) (infra_reserve : ℕ) (nodes l3 : List (List ℕ)) (c : ℕ)
    → let t = discovered numa_node nodes l3 in
      let infra = (reserve infra_reserve t).0 in
      let made = construct numa_node infra_reserve nodes l3 in
      (infra ++ made.available ≡ t.available)
      × (length infra ≡ min infra_reserve (length t.available))
      × (mem c (flatten made.nodes) ≡ (if mem c infra then false else mem c (flatten t.nodes)))
      × (mem c (flatten made.l3) ≡ (if mem c infra then false else mem c (flatten t.l3)))
unfolding construct
construct_reserves numa_node infra_reserve nodes l3 c =
    let t = discovered numa_node nodes l3 in
    let r = reserve infra_reserve t in
    (
      reserve_parts infra_reserve t,
      reserve_count infra_reserve t,
      reserve_nodes c infra_reserve t,
      trim_mem c r.0 r.1.l3
          ∙ ap (λ g. if mem c r.0 then false else mem c (flatten g)) (reserve_l3 infra_reserve t),
    )
