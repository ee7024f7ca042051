-- ===== src/CpuIsolator/Allocate.antt =====
-- server_core/src/cpu_isolator.cpp: `allocate` and `release`, under the mutex. An exception leaves
-- the isolator as it was.
use c_tests_runner.Base.{
  ℕ, zero, suc, ◌+◌, ◌-◌, Bool, true, false, not, ◌&&◌, Option, none, some, List, [], ◌∷◌, ◌++◌,
  length, take, keep_if, all_of, ltb, leb, ◌==◌, if◌then◌else◌,
}
use c_tests_runner.Base.Int.{ℤ, pos, negsuc}
use c_tests_runner.Base.Result.{Result, ok, err, ◌>>=◌}
use c_tests_runner.CpuIsolator.{mem, erase_all, insert_all, sort, Isolator}
use c_tests_runner.CpuIsolator.Text.{format_cores, parse_cores}

abbrev pub free : List ℕ → List ℕ → List ℕ
free available cores = keep_if (λ c. mem c available) cores

-- nodes_[n], of an index in range.
abbrev pub node_at : List (List ℕ) → ℕ → List ℕ
node_at [] n = []
node_at (node ∷ nodes) zero = node
node_at (node ∷ nodes) (suc n) = node_at nodes n

abbrev pub exceeds : ℕ → Option ℕ → Bool
exceeds count none = true
exceeds count (some best_count) = ltb best_count count

-- The loop over the nodes, from node `n` on; `none` is a best count of -1.
unfoldable pub fullest : List ℕ → List (List ℕ) → ℕ → Option ℕ → ℕ → ℕ
fullest available [] n best_count preferred = preferred
fullest available (node ∷ nodes) n best_count preferred =
    let count = length (free available node) in
    let better = exceeds count best_count in
    fullest available nodes (n + 1) (if better then some count else best_count)
      (if better then n else preferred)

abbrev pub choose_node : ℤ → List ℕ → List (List ℕ) → Result ℕ
choose_node (pos n) available nodes =
    if leb (length nodes) n then err "[cpu_isolator] NUMA node does not exist" else ok n
choose_node (negsuc m) available nodes = ok (fullest available nodes 0 none 0)

abbrev pub is_nonempty : List ℕ → Bool
is_nonempty [] = false
is_nonempty (_ ∷ _) = true

-- Pass 0: the first L3 group inside the node that has enough free cores.
unfoldable pub pick_l3 : List ℕ → List ℕ → ℕ → List (List ℕ) → List ℕ
pick_l3 available numa num [] = []
pick_l3 available numa num (group ∷ groups) =
    let inside_numa = is_nonempty group && all_of (λ c. mem c numa) group in
    let l3_free = free available group in
    if inside_numa && leb num (length l3_free)
    then take num l3_free
    else pick_l3 available numa num groups

-- Pass 2: the first node but the preferred one that has enough free cores.
unfoldable pub other_node : List ℕ → ℕ → ℕ → List (List ℕ) → ℕ → Option (List ℕ)
other_node available preferred num [] n = none
other_node available preferred num (node ∷ nodes) n =
    if not (n == preferred) && leb num (length (free available node))
    then some node
    else other_node available preferred num nodes (n + 1)

-- Pass 3: free cores of the nodes but the preferred one, in order, up to `remaining`.
unfoldable pub span : List ℕ → ℕ → ℕ → List (List ℕ) → ℕ → List ℕ
span available preferred remaining [] n = []
span available preferred remaining (node ∷ nodes) n =
    let taken = take remaining (free available node) in
    if remaining == 0
    then []
    else if n == preferred
    then span available preferred remaining nodes (n + 1)
    else taken ++ span available preferred (remaining - length taken) nodes (n + 1)

-- Passes 2 and 3, where the preferred node has too few free cores.
unfoldable pub spill : List ℕ → ℕ → ℕ → List (List ℕ) → List ℕ
unfolding other_node span
spill available preferred num nodes =
    let node_available = free available (node_at nodes preferred) in
    elim (other_node available preferred num nodes 0) [
      | some node ↦ take num (free available node)
      | none ↦ node_available ++ span available preferred (num - length node_available) nodes 0
    ]

abbrev pub is_auto : ℤ → Bool
is_auto (pos n) = false
is_auto (negsuc n) = true

-- The passes, for the preferred node.
unfoldable pub choose_from : ℕ → ℕ → Isolator → Result (List ℕ)
unfolding pick_l3 spill
choose_from num preferred t =
    let node = node_at t.nodes preferred in
    let picked = pick_l3 t.available node num t.l3 in
    let node_available = free t.available node in
    if is_nonempty picked
    then ok picked
    else if leb num (length node_available)
    then ok (take num node_available)
    else if is_auto t.numa_node
    then ok (spill t.available preferred num t.nodes)
    else err "[cpu_isolator] too few cores available on the requested NUMA node"

-- The cores for a request of `num`, which is at least 1 and at most what is free.
unfoldable pub choose_cores : ℕ → Isolator → Result (List ℕ)
unfolding choose_from fullest
choose_cores num t =
    choose_node t.numa_node t.available t.nodes >>= λ preferred. choose_from num preferred t

-- The cores as text, and the isolator without them.
unfoldable pub hand_out : List ℕ → Isolator → List ℕ × Isolator
unfolding erase_all
hand_out allocated t =
    (format_cores (sort allocated), record t { available = erase_all allocated t.available })

unfoldable pub allocate : ℤ → Isolator → Result (List ℕ × Isolator)
unfolding choose_cores hand_out
allocate (negsuc n) t = ok ([], t)
allocate (pos zero) t = ok ([], t)
allocate (pos (suc n)) t =
    let many = length t.available in
    let num = if ltb many (suc n) then many else suc n in
    if ltb many (suc n) && (many == 0)
    then ok ([], t)
    else choose_cores num t >>= λ allocated. ok (hand_out allocated t)

unfoldable pub release : List ℕ → Isolator → Result Isolator
unfolding parse_cores insert_all
release [] t = ok t
release (c ∷ cores_str) t = do
  cores ← parse_cores (c ∷ cores_str)
  ok (record t { available = insert_all cores t.available })
