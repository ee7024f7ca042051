-- ===== src/Grouping/Rows.antt =====
-- Lists by index, and what a computation that does not throw returns.
use c_tests_runner.Base.{
  ℕ, zero, suc, ◌+◌, ◌<◌, ◌≡◌, refl, ap, List, [], ◌∷◌, ◌++◌, map, length, take, drop, arith,
}
use c_tests_runner.Base.Result.{Result, ok, err, ◌>>=◌}
use c_tests_runner.Grouping.{item}

-- It returns a value, and `P` holds of the value.
abbrev pub Returns : {A : Type 0} → (A → Type 0) → Result A → Type 0
Returns P (ok a) = P a
Returns P (err what) = ⊥

pub bind-Returns :
    {A B : Type 0} (P : A → Type 0) (Q : B → Type 0) (r : Result A) (f : A → Result B)
    → Returns P r
    → ((a : A) → P a → Returns Q (f a))
    → Returns Q (r >>= f)
bind-Returns P Q (ok a) f p h = h a p
bind-Returns P Q (err what) f p h = elim p [ ]

pub item-Returns :
    {A : Type 0} (xs : List A) (i : ℕ) → i < length xs → Returns (λ x. item xs i ≡ ok x) (item xs i)
item-Returns [] i h = omega (arith, h)
item-Returns (x ∷ xs) zero h = refl
item-Returns (x ∷ xs) (suc i) h = item-Returns xs i (omega (arith, h))

pub item-map :
    {A B : Type 0} (f : A → B) (xs : List A) (i : ℕ) (x : A)
    → item xs i ≡ ok x
    → item (map f xs) i ≡ ok (f x)
item-map f [] i x h = cc
item-map f (y ∷ xs) zero x h = ground arith
item-map f (y ∷ xs) (suc i) x h = item-map f xs i x h

none_below : (i : ℕ) → i < 0 → ⊥
none_below i h = omega (arith, h)

pub item-append :
    {A : Type 0} (xs ys : List A) (i : ℕ) → i < length xs → item (xs ++ ys) i ≡ item xs i
item-append [] ys i h = elim (none_below i h) [ ]
item-append (x ∷ xs) ys zero h = refl
item-append (x ∷ xs) ys (suc i) h = item-append xs ys i (omega (arith, h))

pub item-behind :
    {A : Type 0} (xs ys : List A) (i : ℕ) → item (xs ++ ys) (length xs + i) ≡ item ys i
item-behind [] ys i = ap (item ys) (omega arith)
item-behind (x ∷ xs) ys i =
    let e : length (x ∷ xs) + i ≡ suc (length xs + i) = omega arith in rw e (item-behind xs ys i)

pub take-item :
    {A : Type 0} (xs : List A) (i k : ℕ) (x : A)
    → item xs i ≡ ok x
    → take (suc k) (drop i xs) ≡ x ∷ take k (drop (i + 1) xs)
take-item [] i k x h = cc
take-item (y ∷ xs) zero k x h = ground arith
take-item (y ∷ xs) (suc i) k x h =
    let e : suc i + 1 ≡ suc (i + 1) = omega arith in rw e (take-item xs i k x h)

pub take_all : {A : Type 0} (xs : List A) → take (length xs) xs ≡ xs
take_all [] = refl
take_all (x ∷ xs) = ap (◌∷◌ x) (take_all xs)

pub item-value : {A : Type 0} (xs : List A) (i : ℕ) → i < length xs → (x : A) × (item xs i ≡ ok x)
item-value [] i h = elim (none_below i h) [ ]
item-value (x ∷ xs) zero h = (x, refl)
item-value (x ∷ xs) (suc i) h = item-value xs i (omega (arith, h))

pub ok-Returns : {A : Type 0} (P : A → Type 0) (r : Result A) (x : A) → r ≡ ok x → P x → Returns P r
ok-Returns P r x e p = rw e p

pub ok-injective : {A : Type 0} (a b : A) → ok a ≡ ok b → a ≡ b
ok-injective a b e = cc

pub cons_eq : {A : Type 0} (x y : A) (xs ys : List A) → x ≡ y → xs ≡ ys → x ∷ xs ≡ y ∷ ys
cons_eq x y xs ys e h = cc
