-- ===== src/CpuIsolator/Runs.antt =====
-- The theorems about cpu_isolator.cpp on a machine with two NUMA nodes of two cores each, of which
-- core 0 is reserved.
use mathlib.Core.Path.{subst}
use c_tests_runner.Base.{
  ℕ, min, ◌≡◌, refl, false, List, [], ◌∷◌, ◌++◌, length, arith, if◌then◌else◌,
}
use c_tests_runner.Base.Int.{pos, negsuc}
use c_tests_runner.Base.Result.{ok, is_ok}
use c_tests_runner.CpuIsolator.{
  mem, set_insert, set_erase, insert_all, erase_all, sort, insert_sorted, flatten, Isolator,
}
use c_tests_runner.CpuIsolator.Text.{format_cores, format_from, range_text, decimal, digits}
use c_tests_runner.CpuIsolator.Allocate.{
  fullest, pick_l3, choose_from, choose_cores, hand_out, allocate,
}
use c_tests_runner.CpuIsolator.Construct.{without, discovered, reserve, trim_l3, construct}
use c_tests_runner.CpuIsolator.Pools.{IsWell, can_serve}
use c_tests_runner.CpuIsolator.Effects.{IsGrant, allocate_grants, allocate_throws}
use c_tests_runner.CpuIsolator.Sharing.{Sharing, allocated, here, next, IsShared, sharing_safe}
use c_tests_runner.CpuIsolator.Reserved.{IsTopology, construct-IsWell, construct_reserves}

abbrev machine : List (List ℕ)
machine = (0 ∷ 1 ∷ []) ∷ (2 ∷ 3 ∷ []) ∷ []

machine-IsTopology : IsTopology machine machine
unfolding mem
machine-IsTopology = record {
  distinct = (refl, (refl, (refl, (refl, tt))));
  groups = ((refl, (refl, tt)), ((refl, (refl, tt)), tt));
  small = λ c m. ground (arith, m);
}

abbrev isolator : Isolator
isolator = record {
  numa_node = negsuc 0;
  available = 1 ∷ 2 ∷ 3 ∷ [];
  nodes = (1 ∷ []) ∷ (2 ∷ 3 ∷ []) ∷ [];
  l3 = (1 ∷ []) ∷ (2 ∷ 3 ∷ []) ∷ [];
  system_cores = 4;
}

constructed : construct (negsuc 0) 1 machine machine ≡ isolator
unfolding construct discovered reserve without trim_l3 insert_all set_insert mem
constructed = refl

isolator-IsWell : IsWell isolator
isolator-IsWell =
    subst IsWell constructed (construct-IsWell (negsuc 0) 1 machine machine machine-IsTopology)

construct_reserves_example :
    let t = discovered (negsuc 0) machine machine in
    let infra = (reserve 1 t).0 in
    let made = construct (negsuc 0) 1 machine machine in
    (infra ++ made.available ≡ t.available)
    × (length infra ≡ min 1 (length t.available))
    × (mem 0 (flatten made.nodes) ≡ (if mem 0 infra then false else mem 0 (flatten t.nodes)))
    × (mem 0 (flatten made.l3) ≡ (if mem 0 infra then false else mem 0 (flatten t.l3)))
construct_reserves_example = construct_reserves (negsuc 0) 1 machine machine 0

abbrev isolator_left : Isolator
isolator_left = record isolator { available = 1 ∷ [] }

-- Two cores come from the second node: "2-3".
two_allocated : allocate (pos 2) isolator ≡ ok (50 ∷ 45 ∷ 51 ∷ [], isolator_left)
unfolding allocate choose_cores fullest choose_from pick_l3 hand_out erase_all set_erase sort
    insert_sorted format_cores format_from range_text decimal digits mem
two_allocated = refl

allocate_grants_example : IsGrant isolator isolator_left (min 2 3) (50 ∷ 45 ∷ 51 ∷ [])
allocate_grants_example =
    allocate_grants isolator isolator-IsWell 1 (50 ∷ 45 ∷ 51 ∷ []) isolator_left two_allocated

allocate_throws_example :
    is_ok (allocate (pos 2) isolator)
    ≡ can_serve isolator.numa_node (min 2 (length isolator.available)) isolator
allocate_throws_example = allocate_throws isolator isolator-IsWell 1 (omega arith)

abbrev one_out : Sharing
one_out = record { isolator = isolator_left; held = (50 ∷ 45 ∷ 51 ∷ []) ∷ [] }

sharing_safe_example : IsShared isolator isolator-IsWell one_out × IsWell one_out.isolator
sharing_safe_example =
    sharing_safe isolator isolator-IsWell one_out
      (next here (allocated (pos 2) (50 ∷ 45 ∷ 51 ∷ []) two_allocated))
