-- ===== src/ThreadCounts/Ladder.antt =====
-- The thread counts double from 1 up to the ceiling, which is always the last.
use c_tests_runner.Base.{
  ℕ, zero, suc, ◌*◌, ◌^◌, ◌≤◌, ◌<◌, ◌≡◌, refl, ap, ◌∙◌, ◌⊎◌, inl, inr, List, [], ◌∷◌, arith,
  Bool-cases, eq_of, leb, ◌==◌,
}
use c_tests_runner.Base.Int.{ℤ, pos, negsuc}
use c_tests_runner.ThreadCounts.{clamp, powers, back, with_ceiling, get}

-- From one count to the next: twice as many, or the ceiling where that is less.
abbrev pub Follows : ℕ → ℕ → ℕ → Type 0
Follows m a b = ((b ≡ a * 2) × (b ≤ m)) ⊎ ((b ≡ m) × (a < m) × (m < a * 2))

abbrev pub IsLadder : ℕ → ℕ → List ℕ → Type 0
IsLadder m a [] = a ≡ m
IsLadder m a (b ∷ l) = Follows m a b × IsLadder m b l

-- What `n` has become after `f` rounds.
abbrev bound : ℕ → ℕ → ℕ
bound n zero = n
bound n (suc f) = bound (n * 2) f

powers_end : (f n m : ℕ) → m < n → powers f n m ≡ []
unfolding powers
powers_end zero n m h = refl
powers_end (suc f) n m h = ground (arith, h)

with_ceiling-cons :
    (m a b : ℕ) (l : List ℕ) → with_ceiling m (a ∷ b ∷ l) ≡ a ∷ with_ceiling m (b ∷ l)
unfolding with_ceiling
with_ceiling-cons m a b l = elim (Bool-cases (back (b ∷ l) == m)) [
  | inl e ↦ rw (with_ceiling, e) refl
  | inr e ↦ rw (with_ceiling, e) refl
]

-- The counts from `n` on, with the ceiling.
abbrev Climbs : ℕ → ℕ → ℕ → Type 0
Climbs f n m =
    (l : List ℕ) × (rest : List ℕ) × (powers f n m ≡ n ∷ l)
    × (with_ceiling m (n ∷ l) ≡ n ∷ rest)
    × IsLadder m n rest

top-Climbs : (f n m : ℕ) → n ≤ m → m < n * 2 → Climbs (suc f) n m
unfolding powers with_ceiling
top-Climbs f n m h g =
    let one : powers (suc f) n m ≡ n ∷ [] = ground (arith, powers_end f (n * 2) m g, h) in
    elim (Bool-cases (n == m)) [
      | inl e ↦ ([], [], one, rw (with_ceiling, e) refl, eq_of n m e)
      | inr e ↦
          ([], m ∷ [], one, rw (with_ceiling, e) refl, (inr (refl, ground (arith, e, h), g), refl))
    ]

powers-Climbs : (f n m : ℕ) → n ≤ m → m < bound n f → Climbs f n m
unfolding powers
powers-Climbs zero n m h g = absurd (omega (arith, h, g))
powers-Climbs (suc f) n m h g = elim (Bool-cases (leb (n * 2) m)) [
  | inl e ↦
      let (l, rest, p, w, i) = powers-Climbs f (n * 2) m (ground (arith, e)) g in
      (
        n * 2 ∷ l,
        n * 2 ∷ rest,
        ground (arith, h, p),
        with_ceiling-cons m n (n * 2) l ∙ ap (◌∷◌ n) w,
        (inl (refl, ground (arith, e)), i),
      )
  | inr e ↦ top-Climbs f n m h (ground (arith, e))
]

clamp_positive : (z : ℤ) → 1 ≤ clamp z
clamp_positive (pos n) = ground arith
clamp_positive (negsuc n) = omega arith

-- For a ceiling below 2^30, taken as 1 if it is smaller, the thread counts begin with 1, each next one
-- is twice the one before unless that exceeds the ceiling, and the last one is the ceiling.
pub get-IsLadder :
    (z : ℤ) → clamp z < 2 ^ 30 → (rest : List ℕ) × (get z ≡ 1 ∷ rest) × IsLadder (clamp z) 1 rest
unfolding get
get-IsLadder z h =
    let (l, rest, p, w, i) = powers-Climbs 31 1 (clamp z) (clamp_positive z) (omega (arith, h)) in
    (rest, ap (with_ceiling (clamp z)) p ∙ w, i)
