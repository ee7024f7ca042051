-- ===== src/CpuIsolator/CoreSets.antt =====
-- The laws of sets of cores, as increasing lists: membership decides them.
use mathlib.Core.Path.{subst}
use c_tests_runner.Base.{
  ℕ, suc, ◌<◌, ◌≡◌, refl, sym, ap, ◌∙◌, true, false, List, [], ◌∷◌, length, All, arith, ◌==◌,
  if◌then◌else◌,
}
use c_tests_runner.CpuIsolator.{
  mem, set_insert, set_erase, insert_all, erase_all, insert_sorted, sort,
}

abbrev pub IsSorted : List ℕ → Type 0
IsSorted [] = Unit
IsSorted (x ∷ xs) = All (λ y. x < y) xs × IsSorted xs

-- Every core of the one list is in the other.
abbrev pub IsWithin : List ℕ → List ℕ → Type 0
IsWithin xs ys = (c : ℕ) → mem c xs ≡ true → mem c ys ≡ true

abbrev pub IsDistinct : List ℕ → Type 0
IsDistinct [] = Unit
IsDistinct (x ∷ xs) = (mem x xs ≡ false) × IsDistinct xs

pub above_mem : (x c : ℕ) (xs : List ℕ) → All (λ y. x < y) xs → mem c xs ≡ true → x < c
unfolding mem
above_mem x c [] a h = cc
above_mem x c (y ∷ xs) a h = ground (arith, above_mem x c xs a.1)

pub below_not_mem : (c : ℕ) (xs : List ℕ) → All (λ y. c < y) xs → mem c xs ≡ false
unfolding mem
below_not_mem c [] a = refl
below_not_mem c (y ∷ xs) a = ground (arith, below_not_mem c xs a.1)

pub sorted-IsDistinct : (xs : List ℕ) → IsSorted xs → IsDistinct xs
sorted-IsDistinct [] s = tt
sorted-IsDistinct (x ∷ xs) s = (below_not_mem x xs s.0, sorted-IsDistinct xs s.1)

pub mem-set_insert :
    (d c : ℕ) (xs : List ℕ) → mem d (set_insert c xs) ≡ (if d == c then true else mem d xs)
unfolding mem set_insert
mem-set_insert d c [] = refl
mem-set_insert d c (x ∷ xs) = ground (arith, mem-set_insert d c xs)

above-set_insert :
    (x c : ℕ) (xs : List ℕ) → x < c → All (λ y. x < y) xs → All (λ y. x < y) (set_insert c xs)
unfolding set_insert
above-set_insert x c [] h a = (h, tt)
above-set_insert x c (y ∷ xs) h a = ground (arith, above-set_insert x c xs h a.1)

above_trans : (x y : ℕ) (xs : List ℕ) → x < y → All (λ z. y < z) xs → All (λ z. x < z) xs
above_trans x y [] h a = tt
above_trans x y (z ∷ xs) h a = (omega (arith, a.0), above_trans x y xs h a.1)

pub set_insert-IsSorted : (c : ℕ) (xs : List ℕ) → IsSorted xs → IsSorted (set_insert c xs)
unfolding set_insert
set_insert-IsSorted c [] s = (tt, tt)
set_insert-IsSorted c (x ∷ xs) s =
    ground (arith, set_insert-IsSorted c xs s.1, above-set_insert x c xs, above_trans c x xs, s)

pub mem-set_erase :
    (d c : ℕ) (xs : List ℕ)
    → IsSorted xs
    → mem d (set_erase c xs) ≡ (if d == c then false else mem d xs)
unfolding mem set_erase
mem-set_erase d c [] s = ground arith
mem-set_erase d c (x ∷ xs) s = ground (arith, mem-set_erase d c xs s.1, below_not_mem x xs s.0)

above-set_erase : (x c : ℕ) (xs : List ℕ) → All (λ y. x < y) xs → All (λ y. x < y) (set_erase c xs)
unfolding set_erase
above-set_erase x c [] a = tt
above-set_erase x c (y ∷ xs) a = ground (arith, above-set_erase x c xs a.1)

pub set_erase-IsSorted : (c : ℕ) (xs : List ℕ) → IsSorted xs → IsSorted (set_erase c xs)
unfolding set_erase
set_erase-IsSorted c [] s = tt
set_erase-IsSorted c (x ∷ xs) s =
    ground (arith, set_erase-IsSorted c xs s.1, above-set_erase x c xs s.0, s)

pub insert_all-IsSorted : (cs xs : List ℕ) → IsSorted xs → IsSorted (insert_all cs xs)
unfolding insert_all
insert_all-IsSorted [] xs s = s
insert_all-IsSorted (c ∷ cs) xs s =
    insert_all-IsSorted cs (set_insert c xs) (set_insert-IsSorted c xs s)

pub erase_all-IsSorted : (cs xs : List ℕ) → IsSorted xs → IsSorted (erase_all cs xs)
unfolding erase_all
erase_all-IsSorted [] xs s = s
erase_all-IsSorted (c ∷ cs) xs s =
    erase_all-IsSorted cs (set_erase c xs) (set_erase-IsSorted c xs s)

pub mem-insert_all :
    (d : ℕ) (cs xs : List ℕ) → mem d (insert_all cs xs) ≡ (if mem d cs then true else mem d xs)
unfolding insert_all mem
mem-insert_all d [] xs = refl
mem-insert_all d (c ∷ cs) xs =
    ground (arith, mem-insert_all d cs (set_insert c xs), mem-set_insert d c xs)

pub mem-erase_all :
    (d : ℕ) (cs xs : List ℕ)
    → IsSorted xs
    → mem d (erase_all cs xs) ≡ (if mem d cs then false else mem d xs)
unfolding erase_all mem
mem-erase_all d [] xs s = refl
mem-erase_all d (c ∷ cs) xs s =
    ground (
      arith,
      mem-erase_all d cs (set_erase c xs) (set_erase-IsSorted c xs s),
      mem-set_erase d c xs s,
    )

head_eq :
    (x y : ℕ) (xs ys : List ℕ)
    → IsSorted (x ∷ xs)
    → IsSorted (y ∷ ys)
    → mem x (y ∷ ys) ≡ true
    → mem y (x ∷ xs) ≡ true
    → x ≡ y
unfolding mem
head_eq x y xs ys s t h g = ground (arith, above_mem x y xs s.0, above_mem y x ys t.0)

tail_eq :
    (x c : ℕ) (xs ys : List ℕ)
    → IsSorted (x ∷ xs)
    → IsSorted (x ∷ ys)
    → mem c (x ∷ xs) ≡ mem c (x ∷ ys)
    → mem c xs ≡ mem c ys
unfolding mem
tail_eq x c xs ys s t h = ground (arith, below_not_mem x xs s.0, below_not_mem x ys t.0)

pub mem_head : (x : ℕ) (xs : List ℕ) → mem x (x ∷ xs) ≡ true
unfolding mem
mem_head x xs = ground arith

-- Two sets with the same elements are the same list.
pub set_ext :
    (xs ys : List ℕ) → IsSorted xs → IsSorted ys → ((c : ℕ) → mem c xs ≡ mem c ys) → xs ≡ ys
unfolding mem
set_ext [] [] s t h = refl
set_ext [] (y ∷ ys) s t h = absurd (ground (arith, h y, mem_head y ys))
set_ext (x ∷ xs) [] s t h = absurd (ground (arith, h x, mem_head x xs))
set_ext (x ∷ xs) (y ∷ ys) s t h =
    let e : x ≡ y = head_eq x y xs ys s t (sym (h x) ∙ mem_head x xs) (h y ∙ mem_head y ys) in
    let t' : IsSorted (x ∷ ys) = subst (λ z. IsSorted (z ∷ ys)) (sym e) t in
    let h' : (c : ℕ) → mem c (x ∷ xs) ≡ mem c (x ∷ ys) =
      subst (λ z. (c : ℕ) → mem c (x ∷ xs) ≡ mem c (z ∷ ys)) (sym e) h in
    let r : xs ≡ ys = set_ext xs ys s.1 t.1 (λ c. tail_eq x c xs ys s t' (h' c)) in rw (e, r)

pub mem-insert_sorted :
    (d c : ℕ) (xs : List ℕ) → mem d (insert_sorted c xs) ≡ (if d == c then true else mem d xs)
unfolding mem insert_sorted
mem-insert_sorted d c [] = refl
mem-insert_sorted d c (x ∷ xs) = ground (arith, mem-insert_sorted d c xs)

pub mem-sort : (d : ℕ) (xs : List ℕ) → mem d (sort xs) ≡ mem d xs
unfolding sort mem
mem-sort d [] = refl
mem-sort d (x ∷ xs) = ground (arith, mem-sort d xs, mem-insert_sorted d x (sort xs))

above-insert_sorted :
    (x c : ℕ) (xs : List ℕ) → x < c → All (λ y. x < y) xs → All (λ y. x < y) (insert_sorted c xs)
unfolding insert_sorted
above-insert_sorted x c [] h a = (h, tt)
above-insert_sorted x c (y ∷ xs) h a = ground (arith, above-insert_sorted x c xs h a.1)

insert_sorted-IsSorted :
    (c : ℕ) (xs : List ℕ) → IsSorted xs → mem c xs ≡ false → IsSorted (insert_sorted c xs)
unfolding insert_sorted mem
insert_sorted-IsSorted c [] s h = (tt, tt)
insert_sorted-IsSorted c (x ∷ xs) s h =
    ground
      (arith, insert_sorted-IsSorted c xs s.1, above-insert_sorted x c xs, above_trans c x xs, s)

pub sort-IsSorted : (xs : List ℕ) → IsDistinct xs → IsSorted (sort xs)
unfolding sort
sort-IsSorted [] d = tt
sort-IsSorted (x ∷ xs) d =
    insert_sorted-IsSorted x (sort xs) (sort-IsSorted xs d.1) (mem-sort x xs ∙ d.0)

length-insert_sorted : (c : ℕ) (xs : List ℕ) → length (insert_sorted c xs) ≡ suc (length xs)
unfolding insert_sorted
length-insert_sorted c [] = refl
length-insert_sorted c (x ∷ xs) = ground (arith, length-insert_sorted c xs)

pub length-sort : (xs : List ℕ) → length (sort xs) ≡ length xs
unfolding sort
length-sort [] = refl
length-sort (x ∷ xs) = length-insert_sorted x (sort xs) ∙ ap suc (length-sort xs)

sort_sorted_head : (x : ℕ) (xs : List ℕ) → All (λ y. x < y) xs → insert_sorted x xs ≡ x ∷ xs
unfolding insert_sorted
sort_sorted_head x [] a = refl
sort_sorted_head x (y ∷ xs) a = ground arith

pub sort_sorted : (xs : List ℕ) → IsSorted xs → sort xs ≡ xs
unfolding sort
sort_sorted [] s = refl
sort_sorted (x ∷ xs) s = rw (sort_sorted xs s.1) (sort_sorted_head x xs s.0)
