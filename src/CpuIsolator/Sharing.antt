-- ===== src/CpuIsolator/Sharing.antt =====
-- The pool over any sequence of requests and releases, by however many jobs.
use mathlib.Core.Path.{subst}
use c_tests_runner.Base.{
  ℕ, zero, suc, ◌+◌, min, ◌≡◌, refl, sym, ap, ◌∙◌, true, false, inl, inr, List, [], ◌∷◌, ◌++◌,
  length, count_if, count_if-append, arith, Bool-cases, eq_of, ltb, ◌==◌, if◌then◌else◌,
}
use c_tests_runner.Base.Int.{ℤ, pos, negsuc}
use c_tests_runner.Base.Result.{Result, ok, err, ◌>>=◌}
use c_tests_runner.CpuIsolator.{mem, erase_all, insert_all, Isolator}
use c_tests_runner.CpuIsolator.CoreSets.{
  IsSorted, IsDistinct, sorted-IsDistinct, erase_all-IsSorted, insert_all-IsSorted, mem-erase_all,
  mem-insert_all,
}
use c_tests_runner.CpuIsolator.Text.{parse_cores, parse_tokens, tokens}
use c_tests_runner.CpuIsolator.Allocate.{allocate, release}
use c_tests_runner.CpuIsolator.Pools.{IsWell}
use c_tests_runner.CpuIsolator.Effects.{with_free, IsGrant, allocate_grants, no_cores-IsGrant}

-- The isolator, and the texts that it has handed out and not got back.
pub record Sharing : Type 0 where
  pub isolator : Isolator
  pub held : List (List ℕ)

abbrev pub or_none : Result (List ℕ) → List ℕ
or_none (ok cores) = cores
or_none (err what) = []

-- The cores that a text names.
abbrev pub cores_of : List ℕ → List ℕ
cores_of text = or_none (parse_cores text)

abbrev pub held_cores : List (List ℕ) → List ℕ
held_cores [] = []
held_cores (text ∷ texts) = cores_of text ++ held_cores texts

pub data Step : Sharing → Sharing → Type 0 where
  allocated :
      {t u : Isolator} {held : List (List ℕ)} (z : ℤ) (text : List ℕ)
      → allocate z t ≡ ok (text, u)
      → Step (record { isolator = t; held = held }) (record { isolator = u; held = text ∷ held })
  released :
      {t u : Isolator} (before : List (List ℕ)) (text : List ℕ) (behind : List (List ℕ))
      → release text t ≡ ok u
      → Step
          (record { isolator = t; held = before ++ text ∷ behind })
          (record { isolator = u; held = before ++ behind })

pub data Reach (s : Sharing) : Sharing → Type 0 where
  here : Reach s s
  next : {r u : Sharing} → Reach s r → Step r u → Reach s u

-- How often a core occurs.
abbrev pub times : ℕ → List ℕ → ℕ
times c xs = count_if (λ x. c == x) xs

mem-times : (c : ℕ) (xs : List ℕ) → mem c xs ≡ ltb 0 (times c xs)
unfolding mem
mem-times c [] = refl
mem-times c (x ∷ xs) = ground (arith, mem-times c xs)

times_once : (c : ℕ) (xs : List ℕ) → IsDistinct xs → times c xs ≡ (if mem c xs then 1 else 0)
unfolding mem
times_once c [] d = refl
times_once c (x ∷ xs) d = elim (Bool-cases (c == x)) [
  | inl e ↦
      let q : mem c xs ≡ false = ap (λ z. mem z xs) (eq_of c x e) ∙ d.0 in
      rw (e, times_once c xs d.1, q)
  | inr e ↦ rw (e, times_once c xs d.1) (omega arith)
]

held_cores-split :
    (c : ℕ) (before : List (List ℕ)) (text : List ℕ) (behind : List (List ℕ))
    → times c (held_cores (before ++ text ∷ behind))
      ≡ times c (cores_of text) + times c (held_cores (before ++ behind))
held_cores-split c [] text behind =
    count_if-append (λ x. c == x) (cores_of text) (held_cores behind)
held_cores-split c (first ∷ before) text behind = omega (
  arith,
  count_if-append (λ x. c == x) (cores_of first) (held_cores (before ++ text ∷ behind)),
  count_if-append (λ x. c == x) (cores_of first) (held_cores (before ++ behind)),
  held_cores-split c before text behind,
)

parsed_result :
    (r : Result (List ℕ)) (t u : Isolator)
    → (r >>= λ cores. ok (with_free (insert_all cores t.available) t)) ≡ ok u
    → u ≡ with_free (insert_all (or_none r) t.available) t
parsed_result (ok cores) t u h =
    let e : with_free (insert_all cores t.available) t ≡ u = cc in sym e
parsed_result (err what) t u h = cc

release_result :
    (text : List ℕ) (t u : Isolator)
    → release text t ≡ ok u
    → u ≡ with_free (insert_all (cores_of text) t.available) t
unfolding release parse_cores parse_tokens tokens insert_all
release_result [] t u h = let e : t ≡ u = cc in sym e
release_result (c ∷ text) t u h = parsed_result (parse_cores (c ∷ text)) t u h

nothing_granted :
    (t u : Isolator) (text : List ℕ) (r : Result (List ℕ × Isolator))
    → r ≡ ok ([], t)
    → r ≡ ok (text, u)
    → IsGrant t u 0 text
nothing_granted t u text r g h =
    let e : t ≡ u = cc in
    let f : [] ≡ text = cc in
    subst (λ v. IsGrant t v 0 text) e (subst (IsGrant t t 0) f (no_cores-IsGrant t 0 refl))

module _ (pool : Isolator) (well : IsWell pool) where
  -- Every core of the pool is either free or held, once; no other core is.
  pub record IsShared (s : Sharing) : Type 0 where
    pub same : s.isolator ≡ record pool { available = s.isolator.available }
    pub sorted : IsSorted s.isolator.available
    pub once :
        (c : ℕ)
        → times c s.isolator.available + times c (held_cores s.held)
          ≡ (if mem c pool.available then 1 else 0)

  free_in_pool :
      (s : Sharing)
      → IsShared s
      → (c : ℕ) → mem c s.isolator.available ≡ true
      → mem c pool.available ≡ true
  free_in_pool s i c m = ground (arith, i.once c, mem-times c s.isolator.available, m)

  pub IsShared-IsWell : (s : Sharing) → IsShared s → IsWell s.isolator
  IsShared-IsWell s i = subst IsWell (sym i.same) (record {
    sorted = i.sorted;
    in_nodes = λ c m. well.in_nodes c (free_in_pool s i c m);
    distinct = well.distinct;
    groups = well.groups;
    small = λ c m. well.small c (free_in_pool s i c m);
  })

  granted-IsShared :
      (t u : Isolator) (held : List (List ℕ)) (num : ℕ) (text : List ℕ)
      → IsShared (record { isolator = t; held = held })
      → IsGrant t u num text
      → IsShared (record { isolator = u; held = text ∷ held })
  granted-IsShared t u held num text i g = rw (g.left) (record {
    same = ap (with_free (erase_all g.cores t.available)) i.same;
    sorted = erase_all-IsSorted g.cores t.available i.sorted;
    once = λ c.
        let away = erase_all g.cores t.available in
        let now =
          times_once c away
            (sorted-IsDistinct away (erase_all-IsSorted g.cores t.available i.sorted)) in
        let was = times_once c t.available (sorted-IsDistinct t.available i.sorted) in
        let mine = times_once c g.cores g.choice.distinct in
        let of_text : cores_of text ≡ g.cores = ap or_none g.parsed in
        rw of_text (
          ground (
            arith,
            i.once c,
            now,
            was,
            mine,
            mem-erase_all c g.cores t.available i.sorted,
            g.choice.within c,
            count_if-append (λ x. c == x) g.cores (held_cores held),
          ));
  })

  back-IsShared :
      (t : Isolator) (before : List (List ℕ)) (text : List ℕ) (behind : List (List ℕ))
      → IsShared (record { isolator = t; held = before ++ text ∷ behind })
      → IsShared (record {
        isolator = record t { available = insert_all (cores_of text) t.available };
        held = before ++ behind;
      })
  back-IsShared t before text behind i = record {
    same = ap (with_free (insert_all (cores_of text) t.available)) i.same;
    sorted = insert_all-IsSorted (cores_of text) t.available i.sorted;
    once = λ c.
        let full = insert_all (cores_of text) t.available in
        let now =
          times_once c full
            (sorted-IsDistinct full (insert_all-IsSorted (cores_of text) t.available i.sorted)) in
        let was = times_once c t.available (sorted-IsDistinct t.available i.sorted) in
        ground (
          arith,
          i.once c,
          now,
          was,
          held_cores-split c before text behind,
          mem-insert_all c (cores_of text) t.available,
          mem-times c (cores_of text),
        );
  }

  allocated-IsShared :
      (t u : Isolator) (held : List (List ℕ)) (z : ℤ) (text : List ℕ)
      → allocate z t ≡ ok (text, u)
      → IsShared (record { isolator = t; held = held })
      → IsShared (record { isolator = u; held = text ∷ held })
  unfolding allocate
  allocated-IsShared t u held (pos (suc n)) text h i =
      granted-IsShared t u held (min (suc n) (length t.available)) text i
        (allocate_grants t (IsShared-IsWell (record { isolator = t; held = held }) i) n text u h)
  allocated-IsShared t u held (pos zero) text h i =
      granted-IsShared t u held 0 text i (nothing_granted t u text (allocate (pos zero) t) refl h)
  allocated-IsShared t u held (negsuc n) text h i =
      granted-IsShared t u held 0 text i (nothing_granted t u text (allocate (negsuc n) t) refl h)

  step-IsShared : (s r : Sharing) → Step s r → IsShared s → IsShared r
  step-IsShared s r (allocated {t = t} {u = u} {held = held} z text h) i =
      allocated-IsShared t u held z text h i
  step-IsShared s r (released {t = t} {u = u} before text behind h) i =
      rw (release_result text t u h) (back-IsShared t before text behind i)

  start-IsShared : IsShared (record { isolator = pool; held = [] })
  start-IsShared = record {
    same = refl;
    sorted = well.sorted;
    once = λ c.
        omega (arith, times_once c pool.available (sorted-IsDistinct pool.available well.sorted));
  }

  Reach-IsShared : (s : Sharing) → Reach (record { isolator = pool; held = [] }) s → IsShared s
  Reach-IsShared s here = start-IsShared
  Reach-IsShared s (next {r = r} before step) = step-IsShared r s step (Reach-IsShared r before)

  -- After any sequence of requests and releases that begins with a well-formed pool and nothing
  -- handed out, every core of the pool is either free or named by exactly one text that is out, and
  -- named there once; a core outside the pool is neither. So no two jobs share a core and none is
  -- lost, and the isolator stays well-formed.
  pub sharing_safe :
      (s : Sharing)
      → Reach (record { isolator = pool; held = [] }) s
      → IsShared s × IsWell s.isolator
  sharing_safe s r = let i = Reach-IsShared s r in (i, IsShared-IsWell s i)
