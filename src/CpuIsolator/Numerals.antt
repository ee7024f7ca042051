-- ===== src/CpuIsolator/Numerals.antt =====
-- The decimal digits of a core, as std::stoi reads them.
use mathlib.Core.Path.{subst}
use c_tests_runner.Base.{
  ℕ, zero, suc, ◌+◌, ◌*◌, ◌/◌, ◌%◌, ◌≤◌, ◌<◌, ◌≡◌, refl, ap, ◌∙◌, true, List, [], ◌∷◌, All, arith,
  Bool-cases, inl, inr, ltb,
}
use c_tests_runner.Base.Int.{pos}
use c_tests_runner.Base.Result.{ok}
use c_tests_runner.CpuIsolator.Text.{
  digits, decimal, int_max, is_digit, read_digits, magnitude, stoi,
}

abbrev pub IsDigits : List ℕ → Type 0
IsDigits s = All (λ c. is_digit c ≡ true) s

pub digit_ok : (n : ℕ) → n < 10 → is_digit (48 + n) ≡ true
digit_ok n h = ground arith

pub digits-IsDigits : (fuel n : ℕ) (s : List ℕ) → IsDigits s → IsDigits (digits fuel n s)
unfolding digits
digits-IsDigits zero n s d = d
digits-IsDigits (suc fuel) n s d = ground (
  arith,
  digits-IsDigits fuel (n / 10) ((48 + n % 10) ∷ s) (digit_ok (n % 10) (omega arith), d),
  digit_ok n,
  d,
)

pub read_digits-digit :
    (m n : ℕ) (s : List ℕ) → n < 10 → read_digits m ((48 + n) ∷ s) ≡ read_digits (m * 10 + n) s
unfolding read_digits
read_digits-digit m n s h = ground arith

pub read_digits-digits :
    (fuel n : ℕ) (s : List ℕ) → n < fuel → read_digits 0 (digits fuel n s) ≡ read_digits n s
unfolding digits
read_digits-digits zero n s h = absurd (omega arith)
read_digits-digits (suc fuel) n s h =
    let whole : n / 10 * 10 + n % 10 ≡ n = omega arith in
    elim (Bool-cases (ltb n 10)) [
      | inl e ↦
          rw e (read_digits-digit 0 n s (ground arith) ∙ ap (λ k. read_digits k s) (omega arith))
      | inr e ↦
          let small : n / 10 < fuel = ground arith in
          rw e (
            read_digits-digits fuel (n / 10) ((48 + n % 10) ∷ s) small
            ∙ read_digits-digit (n / 10) (n % 10) s (omega arith)
            ∙ ap (λ k. read_digits k s) whole)
    ]

pub digits_cons :
    (fuel n d : ℕ) (s : List ℕ) → (c : ℕ) × (t : List ℕ) × (digits fuel n (d ∷ s) ≡ c ∷ t)
unfolding digits
digits_cons zero n d s = (d, s, refl)
digits_cons (suc fuel) n d s = elim (Bool-cases (ltb n 10)) [
  | inl h ↦ (48 + n, d ∷ s, rw h refl)
  | inr h ↦ rw h (digits_cons fuel (n / 10) (48 + n % 10) (d ∷ s))
]

-- A text of digits, as std::stoi reads it.
pub record IsNumeral (n : ℕ) (s : List ℕ) : Type 0 where
  pub numerals : IsDigits s
  pub worth : read_digits 0 s ≡ n
  pub first : ℕ
  pub others : List ℕ
  pub shape : s ≡ first ∷ others

pub decimal-IsNumeral : (n : ℕ) → IsNumeral n (decimal n)
unfolding decimal digits read_digits
decimal-IsNumeral n = elim (Bool-cases (ltb n 10)) [
  | inl h ↦ record {
    numerals = digits-IsDigits (suc n) n [] tt;
    worth = read_digits-digits (suc n) n [] (omega arith);
    first = 48 + n;
    others = [];
    shape = rw h refl;
  }
  | inr h ↦ record {
    numerals = digits-IsDigits (suc n) n [] tt;
    worth = read_digits-digits (suc n) n [] (omega arith);
    first = (digits_cons n (n / 10) (48 + n % 10) []).0;
    others = (digits_cons n (n / 10) (48 + n % 10) []).1;
    shape = rw h ((digits_cons n (n / 10) (48 + n % 10) []).2);
  }
]

pub stoi_digits :
    (c : ℕ) (s : List ℕ)
    → is_digit c ≡ true
    → read_digits 0 (c ∷ s) ≤ int_max
    → stoi (c ∷ s) ≡ ok (pos (read_digits 0 (c ∷ s)))
unfolding stoi magnitude
stoi_digits c s d h = ground arith

pub stoi-decimal : (n : ℕ) → n ≤ int_max → stoi (decimal n) ≡ ok (pos n)
stoi-decimal n h =
    let e = decimal-IsNumeral n in
    let d : IsDigits (e.first ∷ e.others) = subst IsDigits e.shape e.numerals in
    let w : read_digits 0 (e.first ∷ e.others) ≡ n =
      subst (λ s. read_digits 0 s ≡ n) e.shape e.worth in
    ground (arith, e.shape, stoi_digits e.first e.others d.0, w)
