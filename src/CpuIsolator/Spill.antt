-- ===== src/CpuIsolator/Spill.antt =====
-- A request that no single node can serve: pass 3 gives free cores of all nodes, as many as asked.
use c_tests_runner.Base.{
  ℕ, zero, suc, ◌+◌, ◌-◌, ◌≤◌, ◌<◌, ◌≡◌, refl, ap, ◌∙◌, Bool, true, false, inl, inr, Option-cases,
  List, [], ◌∷◌, ◌++◌, length, length-append, length-take, take, keep_if, arith, Bool-cases, eq_of,
  ◌==◌, if◌then◌else◌,
}
use c_tests_runner.CpuIsolator.{mem, flatten}
use c_tests_runner.CpuIsolator.CoreSets.{IsWithin, IsDistinct}
use c_tests_runner.CpuIsolator.CoreLists.{
  mem-append, IsDistinct-append, IsDistinct-parts, IsDisjoint-parts, keep_if-IsDistinct,
  take-IsWithin, take-IsDistinct,
}
use c_tests_runner.CpuIsolator.Allocate.{free, node_at, other_node, span, spill}
use c_tests_runner.CpuIsolator.Chosen.{
  IsChoice, free-IsWithin, free-IsWithin_node, take-free-IsChoice, node_at-IsDistinct,
  node_at-IsWithin, other_node-enough,
}

-- The cores of the nodes but the preferred one, where the first of the list is node `n`.
abbrev others : ℕ → List (List ℕ) → ℕ → List ℕ
others preferred [] n = []
others preferred (node ∷ nodes) n =
    if n == preferred
    then others preferred nodes (n + 1)
    else node ++ others preferred nodes (n + 1)

keep_if-append :
    (p : ℕ → Bool) (xs ys : List ℕ) → keep_if p (xs ++ ys) ≡ keep_if p xs ++ keep_if p ys
keep_if-append p [] ys = refl
keep_if-append p (x ∷ xs) ys = ground (arith, keep_if-append p xs ys)

take-parts :
    (n : ℕ) (xs ys : List ℕ) → take n (xs ++ ys) ≡ take n xs ++ take (n - length (take n xs)) ys
take-parts zero xs ys = refl
take-parts (suc n) [] ys = let e : suc n ≡ suc n - 0 = omega arith in ap (λ k. take k ys) e
take-parts (suc n) (x ∷ xs) ys =
    ap (◌∷◌ x) (take-parts n xs ys ∙ ap (λ k. take n xs ++ take k ys) (omega arith))

take_none : (xs : List ℕ) (n : ℕ) → (n == 0) ≡ true → take n xs ≡ []
take_none xs n h = ap (λ k. take k xs) (eq_of n 0 h)

span-take :
    (av : List ℕ) (preferred remaining : ℕ) (nodes : List (List ℕ)) (n : ℕ)
    → span av preferred remaining nodes n ≡ take remaining (free av (others preferred nodes n))
unfolding span
span-take av preferred zero [] n = refl
span-take av preferred (suc remaining) [] n = refl
span-take av preferred remaining (node ∷ nodes) n =
    let behind = others preferred nodes (n + 1) in
    let got = take remaining (free av node) in
    ground (
      arith,
      take_none (free av (others preferred (node ∷ nodes) n)) remaining,
      span-take av preferred remaining nodes (n + 1),
      span-take av preferred (remaining - length got) nodes (n + 1),
      take-parts remaining (free av node) (free av behind),
      keep_if-append (λ c. mem c av) node behind,
    )

others-IsWithin :
    (preferred : ℕ) (nodes : List (List ℕ)) (n : ℕ)
    → IsWithin (others preferred nodes n) (flatten nodes)
others-IsWithin preferred [] n c m = m
others-IsWithin preferred (node ∷ nodes) n c m = ground (
  arith,
  m,
  others-IsWithin preferred nodes (n + 1) c,
  mem-append c node (others preferred nodes (n + 1)),
  mem-append c node (flatten nodes),
)

not_others :
    (preferred : ℕ) (nodes : List (List ℕ)) (n c : ℕ)
    → mem c (flatten nodes) ≡ false
    → mem c (others preferred nodes n) ≡ false
not_others preferred nodes n c h = elim (Bool-cases (mem c (others preferred nodes n))) [
  | inl e ↦ absurd (ground (arith, h, others-IsWithin preferred nodes n c e))
  | inr e ↦ e
]

others-IsDistinct :
    (preferred : ℕ) (nodes : List (List ℕ)) (n : ℕ)
    → IsDistinct (flatten nodes)
    → IsDistinct (others preferred nodes n)
others-IsDistinct preferred [] n d = tt
others-IsDistinct preferred (node ∷ nodes) n d =
    let parts = IsDistinct-parts node (flatten nodes) d in
    let tail = others-IsDistinct preferred nodes (n + 1) parts.1 in
    elim (Bool-cases (n == preferred)) [
      | inl e ↦ rw e tail
      | inr e ↦ rw e (
          IsDistinct-append node (others preferred nodes (n + 1)) parts.0 tail (λ c m.
            not_others preferred nodes (n + 1) c (IsDisjoint-parts node (flatten nodes) d c m)))
    ]

-- The preferred node shares no core with the others.
apart :
    (k preferred n : ℕ) (nodes : List (List ℕ)) (c : ℕ)
    → n + k ≡ preferred
    → IsDistinct (flatten nodes)
    → mem c (node_at nodes k) ≡ true
    → mem c (others preferred nodes n) ≡ false
unfolding mem
apart k preferred n [] c h d m = refl
apart zero preferred n (node ∷ nodes) c h d m =
    let e : (n == preferred) ≡ true = ground (arith, h) in
    rw e (not_others preferred nodes (n + 1) c (IsDisjoint-parts node (flatten nodes) d c m))
apart (suc k) preferred n (node ∷ nodes) c h d m =
    let e : (n == preferred) ≡ false = ground (arith, h) in
    rw e (
      ground (
        arith,
        mem-append c node (others preferred nodes (n + 1)),
        apart k preferred (n + 1) nodes c (omega (arith, h))
            (IsDistinct-parts node (flatten nodes) d).1 m,
        IsDisjoint-parts node (flatten nodes) d c,
        node_at-IsWithin nodes k c m,
      ))

rest_of :
    (av : List ℕ) (preferred n : ℕ) (nodes : List (List ℕ))
    → preferred < n
    → length (free av (flatten nodes)) ≤ length (free av (others preferred nodes n))
rest_of av preferred n [] h = omega arith
rest_of av preferred n (node ∷ nodes) h =
    let e : (n == preferred) ≡ false = ground (arith, h) in
    rw
      (
        e,
        keep_if-append (λ c. mem c av) node (flatten nodes),
        keep_if-append (λ c. mem c av) node (others preferred nodes (n + 1)),
      )
      (omega (
        arith,
        length-append (free av node) (free av (flatten nodes)),
        length-append (free av node) (free av (others preferred nodes (n + 1))),
        rest_of av preferred (n + 1) nodes (omega (arith, h)),
      ))

-- All free cores are those of the preferred node and those of the others.
free_parts :
    (av : List ℕ) (k preferred n : ℕ) (nodes : List (List ℕ))
    → n + k ≡ preferred
    → length (free av (flatten nodes))
      ≤ length (free av (node_at nodes k)) + length (free av (others preferred nodes n))
free_parts av k preferred n [] h = omega arith
free_parts av zero preferred n (node ∷ nodes) h =
    let e : (n == preferred) ≡ true = ground (arith, h) in
    rw (e, keep_if-append (λ c. mem c av) node (flatten nodes))
      (omega (
        arith,
        length-append (free av node) (free av (flatten nodes)),
        rest_of av preferred (n + 1) nodes (omega (arith, h)),
      ))
free_parts av (suc k) preferred n (node ∷ nodes) h =
    let e : (n == preferred) ≡ false = ground (arith, h) in
    rw
      (
        e,
        keep_if-append (λ c. mem c av) node (flatten nodes),
        keep_if-append (λ c. mem c av) node (others preferred nodes (n + 1)),
      )
      (omega (
        arith,
        length-append (free av node) (free av (flatten nodes)),
        length-append (free av node) (free av (others preferred nodes (n + 1))),
        free_parts av k preferred (n + 1) nodes (omega (arith, h)),
      ))

module _ (av : List ℕ) (preferred num : ℕ) (nodes : List (List ℕ))
    (distinct : IsDistinct (flatten nodes)) where
  spanned-IsChoice :
      num ≤ length (free av (flatten nodes))
      → length (free av (node_at nodes preferred)) ≤ num
      → IsChoice av num (
          free av (node_at nodes preferred)
          ++ span av preferred (num - length (free av (node_at nodes preferred))) nodes 0)
  spanned-IsChoice h g =
      let mine = free av (node_at nodes preferred) in
      let theirs = free av (others preferred nodes 0) in
      let more = num - length mine in
      rw (span-take av preferred more nodes 0) (record {
        within = λ c m. ground (
          arith,
          m,
          mem-append c mine (take more theirs),
          free-IsWithin av (node_at nodes preferred) c,
          take-IsWithin more theirs c,
          free-IsWithin av (others preferred nodes 0) c,
        );
        distinct =
            IsDistinct-append mine (take more theirs)
              (keep_if-IsDistinct (λ c. mem c av) (node_at nodes preferred)
                (node_at-IsDistinct nodes preferred distinct))
              (take-IsDistinct more theirs (
                keep_if-IsDistinct (λ c. mem c av) (others preferred nodes 0)
                  (others-IsDistinct preferred nodes 0 distinct)))
              (λ c m. elim (Bool-cases (mem c (take more theirs))) [
                | inl e ↦ absurd (
                    ground (
                      arith,
                      free-IsWithin_node av (others preferred nodes 0) c
                          (take-IsWithin more theirs c e),
                      apart preferred preferred 0 nodes c (omega arith) distinct
                          (free-IsWithin_node av (node_at nodes preferred) c m),
                    ))
                | inr e ↦ e
              ]);
        count = omega (
          arith,
          h,
          g,
          length-append mine (take more theirs),
          length-take more theirs,
          free_parts av preferred preferred 0 nodes (omega arith),
        );
      })

  -- Where the nodes together have enough free cores, passes 2 and 3 choose as many as requested.
  pub spill-IsChoice :
      num ≤ length (free av (flatten nodes))
      → length (free av (node_at nodes preferred)) ≤ num
      → IsChoice av num (spill av preferred num nodes)
  unfolding spill
  spill-IsChoice h g = elim (Option-cases (other_node av preferred num nodes 0)) [
    | inl e ↦ rw (spill, e) (spanned-IsChoice h g)
    | inr (node, e) ↦
        let enough = other_node-enough av preferred num nodes 0 node distinct e in
        rw (spill, e) (take-free-IsChoice av node num enough.0 enough.1)
  ]
