-- ===== src/CpuIsolator/TextTrip.antt =====
-- The text that `format_cores` writes, as `parse_cores` reads it.
use mathlib.Core.Path.{subst}
use c_tests_runner.Base.{
  ℕ, zero, suc, ◌+◌, ◌-◌, ◌≤◌, ◌≡◌, refl, sym, ap, ◌∙◌, false, none, some, List, [], ◌∷◌, ◌++◌, All,
  All-append, arith, Bool-cases, eq_of, inl, inr, ltb, ◌==◌,
}
use c_tests_runner.Base.Result.{ok}
use c_tests_runner.CpuIsolator.{sort, insert_sorted}
use c_tests_runner.CpuIsolator.Text.{
  comma, dash, decimal, int_max, range_text, format_from, format_sorted, format_cores, tokens,
  split_dash, count_up, from_to, token_cores, parse_tokens, parse_cores,
}
use c_tests_runner.CpuIsolator.Numerals.{IsDigits, decimal-IsNumeral, stoi-decimal}

-- Texts without a given character.
abbrev Lacks : ℕ → List ℕ → Type 0
Lacks c s = All (λ d. (d == c) ≡ false) s

digits_lack : (s : List ℕ) → IsDigits s → Lacks comma s × Lacks dash s
digits_lack [] d = (tt, tt)
digits_lack (c ∷ s) d =
    ((ground (arith, d.0), (digits_lack s d.1).0), (ground (arith, d.0), (digits_lack s d.1).1))

range-Lacks-comma : (a b : ℕ) → Lacks comma (range_text a b)
unfolding range_text
range-Lacks-comma a b =
    let la = (digits_lack (decimal a) (decimal-IsNumeral a).numerals).0 in
    let lb = (digits_lack (decimal b) (decimal-IsNumeral b).numerals).0 in
    elim (Bool-cases (a == b)) [
      | inl h ↦ rw h la
      | inr h ↦
          rw h (All-append (λ d. (d == comma) ≡ false) (decimal a) (dash ∷ decimal b) la (refl, lb))
    ]

tokens-append : (s r : List ℕ) → Lacks comma s → tokens (s ++ comma ∷ r) ≡ s ∷ tokens r
unfolding tokens
tokens-append [] r l = refl
tokens-append (c ∷ s) r l = rw (l.0, tokens-append s r l.1)

tokens_one : (c : ℕ) (s : List ℕ) → Lacks comma (c ∷ s) → tokens (c ∷ s) ≡ (c ∷ s) ∷ []
unfolding tokens
tokens_one c [] l = rw l.0
tokens_one c (d ∷ s) l = rw (l.0, tokens_one d s l.1)

split_dash-none : (s : List ℕ) → Lacks dash s → split_dash s ≡ none
unfolding split_dash
split_dash-none [] l = refl
split_dash-none (c ∷ s) l = rw (l.0, split_dash-none s l.1)

split_dash-append : (s r : List ℕ) → Lacks dash s → split_dash (s ++ dash ∷ r) ≡ some (s, r)
unfolding split_dash
split_dash-append [] r l = refl
split_dash-append (c ∷ s) r l = rw (l.0, split_dash-append s r l.1)

range_cons : (a b : ℕ) → (c : ℕ) × (t : List ℕ) × (range_text a b ≡ c ∷ t)
unfolding range_text
range_cons a b =
    let e = decimal-IsNumeral a in
    elim (Bool-cases (a == b)) [
      | inl h ↦ (e.first, e.others, rw h e.shape)
      | inr h ↦ (e.first, e.others ++ dash ∷ decimal b, rw (h, e.shape))
    ]

token_cores-decimal : (a : ℕ) → a ≤ int_max → token_cores (decimal a) ≡ ok (a ∷ [])
unfolding token_cores
token_cores-decimal a h = rw (
  token_cores,
  split_dash-none (decimal a) (digits_lack (decimal a) (decimal-IsNumeral a).numerals).1,
  stoi-decimal a h,
)

token_cores-dashed :
    (a b : ℕ)
    → a ≤ int_max
    → b ≤ int_max
    → token_cores (decimal a ++ dash ∷ decimal b) ≡ ok (count_up a (b + 1 - a))
unfolding token_cores from_to
token_cores-dashed a b h g = rw (
  token_cores,
  split_dash-append (decimal a) (decimal b)
      (digits_lack (decimal a) (decimal-IsNumeral a).numerals).1,
  stoi-decimal a h,
  stoi-decimal b g,
)

token_cores-range_text :
    (a b : ℕ) → a ≤ b → b ≤ int_max → token_cores (range_text a b) ≡ ok (count_up a (b + 1 - a))
unfolding range_text count_up
token_cores-range_text a b h g = elim (Bool-cases (a == b)) [
  | inl e ↦
      let same : b + 1 - a ≡ 1 = omega (arith, eq_of a b e) in
      rw (e, same) (token_cores-decimal a (omega (arith, h, g)))
  | inr e ↦ rw e (token_cores-dashed a b (omega (arith, h, g)) g)
]

count_up_snoc : (i n : ℕ) (xs : List ℕ) → count_up i (suc n) ++ xs ≡ count_up i n ++ (i + n) ∷ xs
unfolding count_up
count_up_snoc i zero xs = ap (λ k. k ∷ xs) (omega arith)
count_up_snoc i (suc n) xs =
    ap (◌∷◌ i) (count_up_snoc (i + 1) n xs ∙ ap (λ k. count_up (i + 1) n ++ k ∷ xs) (omega arith))

parse_last :
    (a b : ℕ)
    → a ≤ b
    → b ≤ int_max
    → parse_tokens (tokens (range_text a b)) ≡ ok (count_up a (b + 1 - a) ++ [])
unfolding parse_tokens
parse_last a b h g =
    let (c, t, e) = range_cons a b in
    let one : tokens (range_text a b) ≡ range_text a b ∷ [] =
      subst (λ s. tokens s ≡ s ∷ []) (sym e)
        (tokens_one c t (subst (Lacks comma) e (range-Lacks-comma a b))) in
    rw (one, token_cores-range_text a b h g)

parse_format_from :
    (start here : ℕ) (xs : List ℕ)
    → start ≤ here
    → here ≤ int_max
    → All (λ x. x ≤ int_max) xs
    → parse_tokens (tokens (format_from start here xs))
      ≡ ok (count_up start (here + 1 - start) ++ xs)
unfolding format_from parse_tokens count_up
parse_format_from start here [] h g a = parse_last start here h g
parse_format_from start here (x ∷ xs) h g a = elim (Bool-cases (x == here + 1)) [
  | inl e ↦
      let q = eq_of x (here + 1) e in
      let n : x + 1 - start ≡ suc (here + 1 - start) = omega (arith, q) in
      let next : start + (here + 1 - start) ≡ x = omega (arith, q) in
      rw (
        e,
        parse_format_from start x xs (omega (arith, q, h)) a.0 a.1,
        n,
        count_up_snoc start (here + 1 - start) xs,
        next,
      )
  | inr e ↦
      let one : x + 1 - x ≡ 1 = omega arith in
      rw (
        e,
        tokens-append (range_text start here) (format_from x x xs) (range-Lacks-comma start here),
        token_cores-range_text start here h g,
        parse_format_from x x xs (omega arith) a.0 a.1,
        one,
      )
]

parse_format_sorted :
    (xs : List ℕ) → All (λ x. x ≤ int_max) xs → parse_tokens (tokens (format_sorted xs)) ≡ ok xs
unfolding parse_tokens tokens count_up
parse_format_sorted [] a = refl
parse_format_sorted (x ∷ xs) a =
    let one : x + 1 - x ≡ 1 = omega arith in
    rw (parse_format_from x x xs (omega arith) a.0 a.1, one)

All-insert_sorted :
    (P : ℕ → Type 0) (x : ℕ) (xs : List ℕ) → P x → All P xs → All P (insert_sorted x xs)
unfolding insert_sorted
All-insert_sorted P x [] h a = (h, tt)
All-insert_sorted P x (y ∷ xs) h a = elim (Bool-cases (ltb y x)) [
  | inl e ↦ rw e (a.0, All-insert_sorted P x xs h a.1)
  | inr e ↦ rw e (h, a)
]

pub All-sort : (P : ℕ → Type 0) (xs : List ℕ) → All P xs → All P (sort xs)
unfolding sort
All-sort P [] a = tt
All-sort P (x ∷ xs) a = All-insert_sorted P x (sort xs) a.0 (All-sort P xs a.1)

pub parse_cores-format_cores :
    (cores : List ℕ)
    → All (λ x. x ≤ int_max) cores
    → parse_cores (format_cores cores) ≡ ok (sort cores)
unfolding parse_cores format_cores
parse_cores-format_cores cores a =
    parse_format_sorted (sort cores) (All-sort (λ x. x ≤ int_max) cores a)
