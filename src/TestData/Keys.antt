-- ===== src/TestData/Keys.antt =====
-- The order of keys in the entries of a TestData.
use c_tests_runner.Base.{
  ◌≡◌, refl, true, false, some, [], ◌∷◌, ◌++◌, All, arith, if◌then◌else◌, inl, inr, Bool-cases,
}
use c_tests_runner.TestData.{Bytes}
use c_tests_runner.TestData.Store.{bytes_lt, same, Entries, find, assign}

pub bytes_lt_irrefl : (k : Bytes) → bytes_lt k k ≡ false
unfolding bytes_lt
bytes_lt_irrefl [] = refl
bytes_lt_irrefl (x ∷ k) = ground (arith, bytes_lt_irrefl k)

pub bytes_lt_asymm : (j k : Bytes) → bytes_lt j k ≡ true → bytes_lt k j ≡ false
unfolding bytes_lt
bytes_lt_asymm [] [] h = refl
bytes_lt_asymm [] (y ∷ k) h = refl
bytes_lt_asymm (x ∷ j) [] h = cc
bytes_lt_asymm (x ∷ j) (y ∷ k) h = ground (arith, bytes_lt_asymm j k)

pub bytes_lt_trans :
    (i j k : Bytes) → bytes_lt i j ≡ true → bytes_lt j k ≡ true → bytes_lt i k ≡ true
unfolding bytes_lt
bytes_lt_trans [] [] k h g = g
bytes_lt_trans [] (y ∷ j) [] h g = cc
bytes_lt_trans [] (y ∷ j) (z ∷ k) h g = refl
bytes_lt_trans (x ∷ i) [] k h g = cc
bytes_lt_trans (x ∷ i) (y ∷ j) [] h g = cc
bytes_lt_trans (x ∷ i) (y ∷ j) (z ∷ k) h g = ground (arith, bytes_lt_trans i j k)

pub same_eq : (j k : Bytes) → same j k ≡ true → j ≡ k
unfolding bytes_lt
same_eq [] [] h = refl
same_eq [] (y ∷ k) h = cc
same_eq (x ∷ j) [] h = cc
same_eq (x ∷ j) (y ∷ k) h = ground (arith, same_eq j k)

-- The keys rise, as a std::map iterates over them.
abbrev pub IsSorted : Entries → Type 0
IsSorted [] = Unit
IsSorted ((k, d) ∷ m) = All (λ e. bytes_lt k e.0 ≡ true) m × IsSorted m

pub above_trans :
    (j k : Bytes) (m : Entries)
    → bytes_lt j k ≡ true
    → All (λ e. bytes_lt k e.0 ≡ true) m
    → All (λ e. bytes_lt j e.0 ≡ true) m
above_trans j k [] h a = tt
above_trans j k (e ∷ m) h a = (bytes_lt_trans j k e.0 h a.0, above_trans j k m h a.1)

pub above-assign :
    (j k d : Bytes) (m : Entries)
    → bytes_lt j k ≡ true
    → All (λ e. bytes_lt j e.0 ≡ true) m
    → All (λ e. bytes_lt j e.0 ≡ true) (assign k d m)
unfolding assign
above-assign j k d [] h a = (h, tt)
above-assign j k d (e ∷ m) h a = ground (arith, above-assign j k d m h a.1)

-- Assigning keeps the keys in order and distinct.
pub assign-IsSorted : (k d : Bytes) (m : Entries) → IsSorted m → IsSorted (assign k d m)
unfolding assign
assign-IsSorted k d [] s = (tt, tt)
assign-IsSorted k d ((j, c) ∷ m) s = elim (Bool-cases (bytes_lt k j)) [
  | inl h ↦ rw h ((h, above_trans k j m h s.0), (s.0, s.1))
  | inr n ↦ rw n (elim (Bool-cases (bytes_lt j k)) [
    | inl h ↦ rw h (above-assign j k d m h s.0, assign-IsSorted k d m s.1)
    | inr o ↦ let e : k ≡ j = same_eq k j (ground arith) in rw (o, e) (s.0, s.1)
  ])
]

pub find-assign :
    (k j d : Bytes) (m : Entries) → find j (assign k d m) ≡ (if same k j then some d else find j m)
unfolding find assign
find-assign k j d [] = refl
find-assign k j d ((i, c) ∷ m) = ground (
  arith,
  find-assign k j d m,
  same_eq k j,
  same_eq i j,
  same_eq k i,
  bytes_lt_irrefl i,
  bytes_lt_irrefl j,
)

-- An entry above all others goes to the end.
pub assign_last :
    (k d : Bytes) (m : Entries)
    → All (λ e. bytes_lt e.0 k ≡ true) m
    → assign k d m ≡ m ++ (k, d) ∷ []
unfolding assign
assign_last k d [] a = refl
assign_last k d (e ∷ m) a = ground (arith, bytes_lt_asymm e.0 k a.0, assign_last k d m a.1)
