-- ===== src/CpuIsolator/Effects.antt =====
-- What `allocate` and `release` do to the pool.
use mathlib.Core.Path.{subst}
use c_tests_runner.Base.{
  ℕ, suc, min, ◌≤◌, ◌<◌, ◌≡◌, refl, sym, ap, ◌∙◌, true, inl, inr, List, [], ◌∷◌, length, All, arith,
  Bool-cases, eq_of, ltb, ltb→lt, ◌==◌, if◌then◌else◌,
}
use c_tests_runner.Base.Int.{pos}
use c_tests_runner.Base.Result.{Result, ok, err, is_ok, ◌>>=◌}
use c_tests_runner.CpuIsolator.{mem, erase_all, insert_all, sort, Isolator}
use c_tests_runner.CpuIsolator.CoreSets.{
  IsSorted, IsWithin, sorted-IsDistinct, erase_all-IsSorted, insert_all-IsSorted, mem-erase_all,
  mem-insert_all, mem-sort, sort-IsSorted, length-sort, sort_sorted, set_ext, mem_head,
}
use c_tests_runner.CpuIsolator.Text.{int_max, parse_cores, parse_tokens, tokens}
use c_tests_runner.CpuIsolator.TextTrip.{parse_cores-format_cores}
use c_tests_runner.CpuIsolator.Allocate.{node_at, choose_cores, hand_out, allocate, release}
use c_tests_runner.CpuIsolator.Chosen.{IsChoice}
use c_tests_runner.CpuIsolator.Pools.{
  IsWell, Served, choose_cores-Served, choose_cores_ok, can_serve,
}

All-of_mem : (P : ℕ → Type 0) (xs : List ℕ) → ((c : ℕ) → mem c xs ≡ true → P c) → All P xs
unfolding mem
All-of_mem P [] h = tt
All-of_mem P (x ∷ xs) h = (h x (mem_head x xs), All-of_mem P xs (λ c m. h c (ground (arith, m))))

-- The isolator with another set of free cores.
abbrev pub with_free : List ℕ → Isolator → Isolator
with_free cores t = record t { available = cores }

-- The text names `num` free cores, which the isolator `u` has no more; all else is as in `t`.
pub record IsGrant (t u : Isolator) (num : ℕ) (text : List ℕ) : Type 0 where
  pub cores : List ℕ
  pub parsed : parse_cores text ≡ ok cores
  pub choice : IsChoice t.available num cores
  pub on_node : (k : ℕ) → t.numa_node ≡ pos k → IsWithin cores (node_at t.nodes k)
  pub left : u ≡ record t { available = erase_all cores t.available }

pub no_cores-IsGrant : (t : Isolator) (num : ℕ) → num ≡ 0 → IsGrant t t num []
unfolding mem parse_cores parse_tokens tokens erase_all
no_cores-IsGrant t num z = record {
  cores = [];
  parsed = refl;
  choice = record { within = λ c m. cc; distinct = tt; count = omega (arith, z) };
  on_node = λ k e c m. cc;
  left = refl;
}

erase_all_same :
    (xs ys av : List ℕ)
    → IsSorted av
    → ((c : ℕ) → mem c xs ≡ mem c ys)
    → erase_all xs av ≡ erase_all ys av
erase_all_same xs ys av s h =
    set_ext (erase_all xs av) (erase_all ys av) (erase_all-IsSorted xs av s)
      (erase_all-IsSorted ys av s)
      (λ c. ground (arith, mem-erase_all c xs av s, mem-erase_all c ys av s, h c))

module _ (t : Isolator) (well : IsWell t) where
  hand_out-IsGrant :
      (num : ℕ) (cores : List ℕ)
      → IsChoice t.available num cores
      → ((k : ℕ) → t.numa_node ≡ pos k → IsWithin cores (node_at t.nodes k))
      → IsGrant t (hand_out cores t).1 num (hand_out cores t).0
  unfolding hand_out
  hand_out-IsGrant num cores c on =
      let sorted = sort-IsSorted cores c.distinct in
      let within : IsWithin (sort cores) t.available =
        (λ d m. c.within d (sym (mem-sort d cores) ∙ m)) in
      record {
        cores = sort cores;
        parsed =
            parse_cores-format_cores (sort cores)
              (All-of_mem (λ x. x ≤ int_max) (sort cores) (λ d m. well.small d (within d m)))
            ∙ ap ok (sort_sorted (sort cores) sorted);
        choice = record {
          within = within;
          distinct = sorted-IsDistinct (sort cores) sorted;
          count = length-sort cores ∙ c.count;
        };
        on_node = λ k e d m. on k e d (sym (mem-sort d cores) ∙ m);
        left =
            ap (λ a. record t { available = a })
              (erase_all_same cores (sort cores) t.available well.sorted
                (λ d. sym (mem-sort d cores)));
      }

  -- The number of cores that a request is cut down to.
  capped : (n : ℕ) → ℕ
  capped n = if ltb (length t.available) (suc n) then length t.available else suc n

  abbrev Granted : ℕ → Result (List ℕ × Isolator) → Type 0
  Granted num (err what) = Unit
  Granted num (ok (text, u)) = IsGrant t u num text

  Served-Granted :
      (num : ℕ) (r : Result (List ℕ))
      → Served t well num r
      → Granted num (r >>= λ allocated. ok (hand_out allocated t))
  Served-Granted num (err what) s = tt
  Served-Granted num (ok cores) s = hand_out-IsGrant num cores s.0 s.1

  capped-min : (n : ℕ) → capped n ≡ min (suc n) (length t.available)
  unfolding capped
  capped-min n = ground arith

  empty_pool : (n : ℕ) → length t.available ≡ 0 → allocate (pos (suc n)) t ≡ ok ([], t)
  unfolding allocate
  empty_pool n z = ground (arith, z)

  full_pool :
      (n : ℕ)
      → 0 < length t.available
      → allocate (pos (suc n)) t
        ≡ (choose_cores (capped n) t >>= λ allocated. ok (hand_out allocated t))
  unfolding allocate capped
  full_pool n z = elim (Bool-cases (ltb (length t.available) (suc n))) [
    | inl e ↦ elim (Bool-cases (length t.available == 0)) [
      | inl q ↦ absurd (omega (arith, z, eq_of (length t.available) 0 q))
      | inr q ↦ rw (allocate, e, q) refl
    ]
    | inr e ↦ rw (allocate, e) refl
  ]

  allocate-Granted : (n : ℕ) → Granted (min (suc n) (length t.available)) (allocate (pos (suc n)) t)
  allocate-Granted n = elim (Bool-cases (ltb 0 (length t.available))) [
    | inl z ↦
        let served =
          choose_cores-Served t well (capped n)
            (omega (arith, capped-min n, ltb→lt 0 (length t.available) z))
            (omega (arith, capped-min n)) t.numa_node refl in
        subst (λ k. Granted k (allocate (pos (suc n)) t)) (capped-min n)
          (subst (Granted (capped n)) (sym (full_pool n (ltb→lt 0 (length t.available) z)))
            (Served-Granted (capped n) (choose_cores (capped n) t) served))
    | inr z ↦
        let empty : length t.available ≡ 0 = ground (arith, z) in
        subst (Granted (min (suc n) (length t.available))) (sym (empty_pool n empty))
          (no_cores-IsGrant t (min (suc n) (length t.available)) (omega (arith, empty)))
  ]

  -- On a well-formed isolator, a successful request for `n` cores, at least one, gives a text that
  -- names distinct free cores: `n` of them, or all that are free if these are fewer. They are in
  -- the configured NUMA node if one is set. Afterwards exactly they are missing from the pool, and
  -- nothing else has changed.
  pub allocate_grants :
      (n : ℕ) (text : List ℕ) (u : Isolator)
      → allocate (pos (suc n)) t ≡ ok (text, u)
      → IsGrant t u (min (suc n) (length t.available)) text
  allocate_grants n text u h =
      subst (Granted (min (suc n) (length t.available))) h (allocate-Granted n)

  ok_bind : (r : Result (List ℕ)) → is_ok (r >>= λ allocated. ok (hand_out allocated t)) ≡ is_ok r
  ok_bind (ok cores) = refl
  ok_bind (err what) = refl

  -- On a well-formed isolator with a free core, a request throws exactly if a NUMA node is set that
  -- does not exist or has fewer free cores than the request comes to. Without a set node it never
  -- throws.
  pub allocate_throws :
      (n : ℕ)
      → 0 < length t.available
      → is_ok (allocate (pos (suc n)) t)
        ≡ can_serve t.numa_node (min (suc n) (length t.available)) t
  allocate_throws n z =
      ap is_ok (full_pool n z)
      ∙ (ok_bind (choose_cores (capped n) t)
          ∙ (choose_cores_ok t well (capped n) (omega (arith, capped-min n, z)) t.numa_node refl
              ∙ ap (λ k. can_serve t.numa_node k t) (capped-min n)))

pub release_parsed :
    (text cores : List ℕ) (t : Isolator)
    → parse_cores text ≡ ok cores
    → release text t ≡ ok (record t { available = insert_all cores t.available })
unfolding release parse_cores parse_tokens tokens insert_all
release_parsed [] cores t h = let e : [] ≡ cores = cc in rw (← e) refl
release_parsed (c ∷ text) cores t h = rw h refl

-- Releasing what was allocated from a well-formed isolator, with nothing in between, gives back the
-- isolator as it was.
pub release-allocate :
    (t : Isolator)
    → IsWell t
    → (n : ℕ) (text : List ℕ) (u : Isolator) → allocate (pos (suc n)) t ≡ ok (text, u)
    → release text u ≡ ok t
release-allocate t well n text u h =
    let g = allocate_grants t well n text u h in
    let away = erase_all g.cores t.available in
    let back : insert_all g.cores away ≡ t.available =
      set_ext (insert_all g.cores away) t.available
        (insert_all-IsSorted g.cores away (erase_all-IsSorted g.cores t.available well.sorted))
        well.sorted
        (λ c. ground (
          arith,
          mem-insert_all c g.cores away,
          mem-erase_all c g.cores t.available well.sorted,
          g.choice.within c,
        )) in
    release_parsed text g.cores u g.parsed
    ∙ ap ok (
        ap (λ v. with_free (insert_all g.cores v.available) v) g.left
        ∙ ap (λ a. with_free a t) back)
