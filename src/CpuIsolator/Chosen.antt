-- ===== src/CpuIsolator/Chosen.antt =====
-- The cores that the passes of `allocate` choose are free, distinct and as many as requested.
use mathlib.Core.Path.{subst}
use c_tests_runner.Base.{
  ℕ, zero, suc, ◌+◌, ◌≤◌, ◌≡◌, refl, ap, ◌∙◌, true, false, not, ◌&&◌, ◌⊎◌, inl, inr, some, List, [],
  ◌∷◌, length, length-take, take, all_of, All, arith, Bool-cases, eq_of, leb, ◌==◌, if◌then◌else◌,
}
use c_tests_runner.CpuIsolator.{mem, flatten}
use c_tests_runner.CpuIsolator.CoreSets.{IsWithin, IsDistinct}
use c_tests_runner.CpuIsolator.CoreLists.{
  mem-append, IsDistinct-parts, mem-keep_if, keep_if-IsDistinct, take-IsWithin, take-IsDistinct,
}
use c_tests_runner.CpuIsolator.Allocate.{free, node_at, is_nonempty, pick_l3, other_node}

-- `num` distinct free cores.
pub record IsChoice (available : List ℕ) (num : ℕ) (cores : List ℕ) : Type 0 where
  pub within : IsWithin cores available
  pub distinct : IsDistinct cores
  pub count : length cores ≡ num

pub mem-free :
    (av cores : List ℕ) (c : ℕ) → mem c (free av cores) ≡ (if mem c av then mem c cores else false)
mem-free av cores c = mem-keep_if (λ d. mem d av) c cores

pub free-IsWithin : (av cores : List ℕ) → IsWithin (free av cores) av
free-IsWithin av cores c h = ground (arith, mem-free av cores c, h)

pub free-IsWithin_node : (av cores : List ℕ) → IsWithin (free av cores) cores
free-IsWithin_node av cores c h = ground (arith, mem-free av cores c, h)

-- Of a node with enough free cores, the first of them.
pub take-free-IsChoice :
    (av node : List ℕ) (num : ℕ)
    → IsDistinct node
    → num ≤ length (free av node)
    → IsChoice av num (take num (free av node))
take-free-IsChoice av node num d h = record {
  within = λ c m. free-IsWithin av node c (take-IsWithin num (free av node) c m);
  distinct = take-IsDistinct num (free av node) (keep_if-IsDistinct (λ c. mem c av) node d);
  count = omega (arith, length-take num (free av node), h);
}

pub take-free-IsWithin_node : (av node : List ℕ) (num : ℕ) → IsWithin (take num (free av node)) node
take-free-IsWithin_node av node num c m =
    free-IsWithin_node av node c (take-IsWithin num (free av node) c m)

all_of-IsWithin :
    (numa group : List ℕ) → all_of (λ c. mem c numa) group ≡ true → IsWithin group numa
unfolding mem
all_of-IsWithin numa [] h c m = cc
all_of-IsWithin numa (x ∷ group) h c m = elim (Bool-cases (c == x)) [
  | inl e ↦ ap (λ z. mem z numa) (eq_of c x e) ∙ ground (arith, h)
  | inr e ↦ all_of-IsWithin numa group (ground (arith, h)) c (ground (arith, m, e))
]

-- Pass 0 finds nothing, or a choice inside the node.
pub pick_l3-cases :
    (av numa : List ℕ) (num : ℕ) (groups : List (List ℕ))
    → All IsDistinct groups
    → (pick_l3 av numa num groups ≡ [])
      ⊎ (IsChoice av num (pick_l3 av numa num groups) × IsWithin (pick_l3 av numa num groups) numa)
unfolding pick_l3
pick_l3-cases av numa num [] d = inl refl
pick_l3-cases av numa num (group ∷ groups) d =
    elim (Bool-cases
      ((is_nonempty group && all_of (λ c. mem c numa) group) && leb num (length (free av group)))) [
        | inl e ↦ inr (
            rw e (
              take-free-IsChoice av group num d.0 (ground (arith, e)),
              λ c m.
                  all_of-IsWithin numa group (ground (arith, e)) c
                    (take-free-IsWithin_node av group num c m),
            ))
        | inr e ↦ rw e (pick_l3-cases av numa num groups d.1)
      ]

pub node_at-IsDistinct :
    (nodes : List (List ℕ)) (n : ℕ) → IsDistinct (flatten nodes) → IsDistinct (node_at nodes n)
node_at-IsDistinct [] n d = tt
node_at-IsDistinct (node ∷ nodes) zero d = (IsDistinct-parts node (flatten nodes) d).0
node_at-IsDistinct (node ∷ nodes) (suc n) d =
    node_at-IsDistinct nodes n (IsDistinct-parts node (flatten nodes) d).1

pub node_at-IsWithin : (nodes : List (List ℕ)) (n : ℕ) → IsWithin (node_at nodes n) (flatten nodes)
node_at-IsWithin [] n c m = m
node_at-IsWithin (node ∷ nodes) zero c m = ground (arith, mem-append c node (flatten nodes), m)
node_at-IsWithin (node ∷ nodes) (suc n) c m =
    ground (arith, mem-append c node (flatten nodes), node_at-IsWithin nodes n c m)

-- Pass 2 finds a node of its own with enough free cores.
pub other_node-enough :
    (av : List ℕ) (preferred num : ℕ) (nodes : List (List ℕ)) (n : ℕ) (node : List ℕ)
    → IsDistinct (flatten nodes)
    → other_node av preferred num nodes n ≡ some node
    → IsDistinct node × (num ≤ length (free av node))
unfolding other_node
other_node-enough av preferred num [] n node d h = cc
other_node-enough av preferred num (first ∷ nodes) n node d h =
    elim (Bool-cases (not (n == preferred) && leb num (length (free av first)))) [
      | inl e ↦
          let q : some first ≡ some node =
            subst
              (λ b.
                (if b then some first else other_node av preferred num nodes (n + 1)) ≡ some node)
              e h in
          let p : first ≡ node = cc in
          rw (← p) ((IsDistinct-parts first (flatten nodes) d).0, ground (arith, e))
      | inr e ↦
          let q : other_node av preferred num nodes (n + 1) ≡ some node =
            subst
              (λ b.
                (if b then some first else other_node av preferred num nodes (n + 1)) ≡ some node)
              e h in
          other_node-enough av preferred num nodes (n + 1) node
            (IsDistinct-parts first (flatten nodes) d).1 q
    ]
