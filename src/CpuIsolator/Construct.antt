-- ===== src/CpuIsolator/Construct.antt =====
-- server_core/src/cpu_isolator.cpp: the constructor, from what `numa::discover` returns.
use c_tests_runner.Base.{
  ℕ, zero, suc, not, List, [], ◌∷◌, ◌++◌, map, length, keep_if, ◌==◌, if◌then◌else◌,
}
use c_tests_runner.Base.Int.{ℤ}
use c_tests_runner.CpuIsolator.{mem, insert_all, flatten, Isolator}
use c_tests_runner.CpuIsolator.Allocate.{is_nonempty}

-- node_cores without one core
unfoldable pub without : ℕ → List ℕ → List ℕ
without low cores = keep_if (λ c. not (c == low)) cores

-- The nodes of the machine; where discovery found none, one node with core 0.
unfoldable pub discovered : ℤ → List (List ℕ) → List (List ℕ) → Isolator
unfolding insert_all
discovered numa_node nodes l3 =
    let cores = length (flatten nodes) in
    if cores == 0
    then record {
      numa_node = numa_node;
      available = 0 ∷ [];
      nodes = nodes ++ (0 ∷ []) ∷ [];
      l3 = l3;
      system_cores = 1;
    }
    else record {
      numa_node = numa_node;
      available = insert_all (flatten nodes) [];
      nodes = nodes;
      l3 = l3;
      system_cores = cores;
    }

abbrev pub reserve_lowest : List ℕ → Isolator → List ℕ × Isolator
reserve_lowest [] t = ([], t)
reserve_lowest (low ∷ rest) t =
    (low ∷ [], record t { available = rest; nodes = map (without low) t.nodes })

-- The loop that reserves `n` cores at most, 0 where the configured number is negative: the reserved
-- cores, and the isolator without them.
unfoldable pub reserve : ℕ → Isolator → List ℕ × Isolator
unfolding without
reserve zero t = ([], t)
reserve (suc n) t =
    let (low, u) = reserve_lowest t.available t in let (more, v) = reserve n u in (low ++ more, v)

-- The reserved cores leave the L3 groups, and the groups that are empty then are dropped.
unfoldable pub trim_l3 : List ℕ → List (List ℕ) → List (List ℕ)
trim_l3 infra groups = keep_if is_nonempty (map (keep_if (λ c. not (mem c infra))) groups)

unfoldable pub construct : ℤ → ℕ → List (List ℕ) → List (List ℕ) → Isolator
unfolding discovered reserve trim_l3
construct numa_node infra_reserve nodes l3 =
    let (infra, t) = reserve infra_reserve (discovered numa_node nodes l3) in
    record t { l3 = trim_l3 infra t.l3 }
