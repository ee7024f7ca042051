-- ===== src/CpuIsolator.antt =====
-- server_core/src/cpu_isolator.{h,cpp}: sets of cores and the state of a `CpuIsolator`. A core is
-- the number of a CPU; a std::set<int> is the list of its elements in increasing order.
pub mod Text
pub mod Allocate
pub mod Construct
pub mod CoreSets
pub mod CoreLists
pub mod Numerals
pub mod TextTrip
pub mod Chosen
pub mod Spill
pub mod Pools
pub mod Effects
pub mod Sharing
pub mod Reserved
mod Runs
use c_tests_runner.Base.{ℕ, Bool, true, false, List, [], ◌∷◌, ◌++◌, ltb, ◌==◌, if◌then◌else◌}
use c_tests_runner.Base.Int.{ℤ}

-- available_.count(core)
unfoldable pub mem : ℕ → List ℕ → Bool
mem c [] = false
mem c (x ∷ xs) = if c == x then true else mem c xs

unfoldable pub set_insert : ℕ → List ℕ → List ℕ
set_insert c [] = c ∷ []
set_insert c (x ∷ xs) =
    if ltb c x then c ∷ x ∷ xs else if c == x then x ∷ xs else x ∷ set_insert c xs

unfoldable pub set_erase : ℕ → List ℕ → List ℕ
set_erase c [] = []
set_erase c (x ∷ xs) = if c == x then xs else x ∷ set_erase c xs

unfoldable pub insert_all : List ℕ → List ℕ → List ℕ
unfolding set_insert
insert_all [] s = s
insert_all (c ∷ cs) s = insert_all cs (set_insert c s)

unfoldable pub erase_all : List ℕ → List ℕ → List ℕ
unfolding set_erase
erase_all [] s = s
erase_all (c ∷ cs) s = erase_all cs (set_erase c s)

-- std::sort
unfoldable pub insert_sorted : ℕ → List ℕ → List ℕ
insert_sorted c [] = c ∷ []
insert_sorted c (x ∷ xs) = if ltb x c then x ∷ insert_sorted c xs else c ∷ x ∷ xs

unfoldable pub sort : List ℕ → List ℕ
unfolding insert_sorted
sort [] = []
sort (x ∷ xs) = insert_sorted x (sort xs)

-- `numa_node` is -1 where the node is chosen automatically.
pub record Isolator : Type 0 where
  pub numa_node : ℤ
  pub available : List ℕ
  pub nodes : List (List ℕ)
  pub l3 : List (List ℕ)
  pub system_cores : ℕ

-- The cores of all nodes, in order.
abbrev pub flatten : List (List ℕ) → List ℕ
flatten [] = []
flatten (node ∷ nodes) = node ++ flatten nodes
