-- ===== src/CpuIsolator/CoreLists.antt =====
-- Lists of cores in any order: parts, filters, prefixes, and how many they are.
use c_tests_runner.Base.{
  ℕ, zero, suc, ◌≤◌, ◌≡◌, refl, ap, Bool, true, false, inl, inr, List, [], ◌∷◌, ◌++◌, length, take,
  keep_if, arith, Bool-cases, eq_of, ◌==◌, if◌then◌else◌,
}
use c_tests_runner.CpuIsolator.{mem, set_erase}
use c_tests_runner.CpuIsolator.CoreSets.{IsWithin, IsDistinct, mem_head}

pub mem-append : (c : ℕ) (xs ys : List ℕ) → mem c (xs ++ ys) ≡ (if mem c xs then true else mem c ys)
unfolding mem
mem-append c [] ys = refl
mem-append c (x ∷ xs) ys = ground (arith, mem-append c xs ys)

-- No core is in both lists.
abbrev pub IsDisjoint : List ℕ → List ℕ → Type 0
IsDisjoint xs ys = (c : ℕ) → mem c xs ≡ true → mem c ys ≡ false

pub IsDisjoint-tail : (x : ℕ) (xs ys : List ℕ) → IsDisjoint (x ∷ xs) ys → IsDisjoint xs ys
unfolding mem
IsDisjoint-tail x xs ys d c h = d c (ground (arith, h))

pub IsDistinct-append :
    (xs ys : List ℕ) → IsDistinct xs → IsDistinct ys → IsDisjoint xs ys → IsDistinct (xs ++ ys)
IsDistinct-append [] ys dx dy d = dy
IsDistinct-append (x ∷ xs) ys dx dy d = (
  ground (arith, mem-append x xs ys, dx.0, d x (mem_head x xs)),
  IsDistinct-append xs ys dx.1 dy (IsDisjoint-tail x xs ys d),
)

pub IsDistinct-parts : (xs ys : List ℕ) → IsDistinct (xs ++ ys) → IsDistinct xs × IsDistinct ys
IsDistinct-parts [] ys d = (tt, d)
IsDistinct-parts (x ∷ xs) ys d = (
  (ground (arith, mem-append x xs ys, d.0), (IsDistinct-parts xs ys d.1).0),
  (IsDistinct-parts xs ys d.1).1,
)

pub IsDisjoint-parts : (xs ys : List ℕ) → IsDistinct (xs ++ ys) → IsDisjoint xs ys
unfolding mem
IsDisjoint-parts [] ys d c h = cc
IsDisjoint-parts (x ∷ xs) ys d c h =
    ground
      (arith, IsDisjoint-parts xs ys d.1 c, mem-append c xs ys, d.0, ap (λ z. mem z (xs ++ ys)), h)

pub mem-keep_if :
    (p : ℕ → Bool) (c : ℕ) (xs : List ℕ) → mem c (keep_if p xs) ≡ (if p c then mem c xs else false)
unfolding mem
mem-keep_if p c [] = ground arith
mem-keep_if p c (x ∷ xs) = elim (Bool-cases (c == x)) [
  | inl e ↦ let q : c ≡ x = eq_of c x e in ground (arith, mem-keep_if p c xs, ap p q, e)
  | inr e ↦ ground (arith, mem-keep_if p c xs, e)
]

pub keep_if-IsDistinct : (p : ℕ → Bool) (xs : List ℕ) → IsDistinct xs → IsDistinct (keep_if p xs)
keep_if-IsDistinct p [] d = tt
keep_if-IsDistinct p (x ∷ xs) d =
    ground (arith, keep_if-IsDistinct p xs d.1, mem-keep_if p x xs, d.0)

pub take-IsWithin : (n : ℕ) (xs : List ℕ) → IsWithin (take n xs) xs
unfolding mem
take-IsWithin zero xs c h = absurd (ground (arith, h))
take-IsWithin (suc n) [] c h = h
take-IsWithin (suc n) (x ∷ xs) c h = ground (arith, take-IsWithin n xs c, h)

not_mem-take : (n c : ℕ) (xs : List ℕ) → mem c xs ≡ false → mem c (take n xs) ≡ false
unfolding mem
not_mem-take zero c xs h = refl
not_mem-take (suc n) c [] h = h
not_mem-take (suc n) c (x ∷ xs) h = ground (arith, not_mem-take n c xs, h)

pub take-IsDistinct : (n : ℕ) (xs : List ℕ) → IsDistinct xs → IsDistinct (take n xs)
take-IsDistinct zero xs d = tt
take-IsDistinct (suc n) [] d = tt
take-IsDistinct (suc n) (x ∷ xs) d = (not_mem-take n x xs d.0, take-IsDistinct n xs d.1)

length-set_erase :
    (c : ℕ) (ys : List ℕ) → mem c ys ≡ true → length ys ≡ suc (length (set_erase c ys))
unfolding mem set_erase
length-set_erase c [] h = cc
length-set_erase c (y ∷ ys) h = ground (arith, length-set_erase c ys, h)

mem_other-set_erase :
    (d c : ℕ) (ys : List ℕ) → (d == c) ≡ false → mem d ys ≡ true → mem d (set_erase c ys) ≡ true
unfolding mem set_erase
mem_other-set_erase d c [] n h = h
mem_other-set_erase d c (y ∷ ys) n h = ground (arith, mem_other-set_erase d c ys n, h, n)

not_head : (x c : ℕ) (xs : List ℕ) → mem x xs ≡ false → mem c xs ≡ true → (c == x) ≡ false
not_head x c xs h g = elim (Bool-cases (c == x)) [
  | inl e ↦ absurd (ground (arith, h, g, ap (λ z. mem z xs) (eq_of c x e)))
  | inr e ↦ e
]

-- Distinct cores that are all in a list are no more than the list is long.
pub length_le-IsWithin : (xs ys : List ℕ) → IsDistinct xs → IsWithin xs ys → length xs ≤ length ys
unfolding mem
length_le-IsWithin [] ys d w = omega arith
length_le-IsWithin (x ∷ xs) ys d w =
    let rest : IsWithin xs (set_erase x ys) =
      (λ c h. mem_other-set_erase c x ys (not_head x c xs d.0 h) (w c (ground (arith, h)))) in
    omega (
      arith,
      length-set_erase x ys (w x (mem_head x xs)),
      length_le-IsWithin xs (set_erase x ys) d.1 rest,
    )
