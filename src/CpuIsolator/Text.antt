-- ===== src/CpuIsolator/Text.antt =====
-- server_core/src/cpu_isolator.cpp: `format_cores` and `parse_cores`. A std::string is the codes of
-- its characters; an `int` is printed in decimal, and std::stoi reads as the standard says.
use c_tests_runner.Base.{
  ℕ, zero, suc, ◌+◌, ◌-◌, ◌*◌, ◌/◌, ◌%◌, ◌^◌, Bool, ◌&&◌, ◌||◌, Option, none, some, List, [], ◌∷◌,
  ◌++◌, ltb, leb, ◌==◌, if◌then◌else◌,
}
use c_tests_runner.Base.Int.{ℤ, pos, negsuc}
use c_tests_runner.Base.Result.{Result, ok, err, ◌>>=◌}
use c_tests_runner.CpuIsolator.{sort}

abbrev pub comma : ℕ
comma = 44

abbrev pub dash : ℕ
dash = 45

-- The decimal digits of `n` in front of `behind`; fuel above `n` is enough.
unfoldable pub digits : ℕ → ℕ → List ℕ → List ℕ
digits zero n behind = behind
digits (suc fuel) n behind =
    if ltb n 10 then (48 + n) ∷ behind else digits fuel (n / 10) ((48 + n % 10) ∷ behind)

unfoldable pub decimal : ℕ → List ℕ
unfolding digits
decimal n = digits (suc n) n []

abbrev pub int_max : ℕ
int_max = 2 ^ 31 - 1

abbrev pub is_digit : ℕ → Bool
is_digit c = leb 48 c && leb c 57

abbrev pub is_space : ℕ → Bool
is_space c = (c == 32) || (leb 9 c && leb c 13)

-- Digits up to the first other character, onto the number read so far.
unfoldable pub read_digits : ℕ → List ℕ → ℕ
read_digits n [] = n
read_digits n (c ∷ s) = if is_digit c then read_digits (n * 10 + (c - 48)) s else n

-- The digits of std::stoi, with the largest magnitude that an `int` has.
unfoldable pub magnitude : ℕ → List ℕ → Result ℕ
unfolding read_digits
magnitude most [] = err "stoi"
magnitude most (c ∷ s) =
    if is_digit c
    then (if ltb most (read_digits 0 (c ∷ s)) then err "stoi" else ok (read_digits 0 (c ∷ s)))
    else err "stoi"

abbrev pub negate : ℕ → ℤ
negate zero = pos 0
negate (suc n) = negsuc n

unfoldable pub stoi : List ℕ → Result ℤ
unfolding magnitude
stoi [] = err "stoi"
stoi (c ∷ s) =
    let later = stoi s in
    if is_space c
    then later
    else if c == dash
    then (magnitude (2 ^ 31) s >>= λ n. ok (negate n))
    else if c == 43
    then (magnitude int_max s >>= λ n. ok (pos n))
    else (magnitude int_max (c ∷ s) >>= λ n. ok (pos n))

-- One range: a core, or the first and last of several.
unfoldable pub range_text : ℕ → ℕ → List ℕ
range_text start stop =
    if start == stop then decimal start else decimal start ++ dash ∷ decimal stop

-- The loop of `format_cores`: the range that began at `start` has reached `here`.
unfoldable pub format_from : ℕ → ℕ → List ℕ → List ℕ
unfolding range_text
format_from start here [] = range_text start here
format_from start here (x ∷ xs) =
    if x == here + 1
    then format_from start x xs
    else range_text start here ++ comma ∷ format_from x x xs

abbrev pub format_sorted : List ℕ → List ℕ
format_sorted [] = []
format_sorted (x ∷ xs) = format_from x x xs

unfoldable pub format_cores : List ℕ → List ℕ
unfolding format_from
format_cores cores = format_sorted (sort cores)

abbrev pub push : ℕ → List (List ℕ) → List (List ℕ)
push c [] = (c ∷ []) ∷ []
push c (t ∷ ts) = (c ∷ t) ∷ ts

-- The tokens that std::getline gives up to the end of the stream.
unfoldable pub tokens : List ℕ → List (List ℕ)
tokens [] = []
tokens (c ∷ s) = if c == comma then [] ∷ tokens s else push c (tokens s)

abbrev pub cut : ℕ → Option (List ℕ × List ℕ) → Option (List ℕ × List ℕ)
cut c none = none
cut c (some (before, behind)) = some (c ∷ before, behind)

-- What stands before and behind the first dash.
unfoldable pub split_dash : List ℕ → Option (List ℕ × List ℕ)
split_dash [] = none
split_dash (c ∷ s) = if c == dash then some ([], s) else cut c (split_dash s)

unfoldable pub count_up : ℕ → ℕ → List ℕ
count_up i zero = []
count_up i (suc n) = i ∷ count_up (i + 1) n

-- From `lo` to `hi`. What stands before the first dash has no minus sign, so `lo` is not negative.
unfoldable pub from_to : ℤ → ℤ → List ℕ
unfolding count_up
from_to (pos lo) (pos hi) = count_up lo (hi + 1 - lo)
from_to (pos lo) (negsuc hi) = []
from_to (negsuc lo) hi = []

abbrev pub single : ℤ → List ℕ
single (pos n) = n ∷ []
single (negsuc n) = []

unfoldable pub token_cores : List ℕ → Result (List ℕ)
unfolding from_to stoi split_dash
token_cores token = elim (split_dash token) [
  | none ↦ stoi token >>= λ n. ok (single n)
  | some (before, behind) ↦ do lo ← stoi before; hi ← stoi behind; ok (from_to lo hi)
]

unfoldable pub parse_tokens : List (List ℕ) → Result (List ℕ)
unfolding token_cores
parse_tokens [] = ok []
parse_tokens (t ∷ ts) = do cores ← token_cores t; more ← parse_tokens ts; ok (cores ++ more)

unfoldable pub parse_cores : List ℕ → Result (List ℕ)
unfolding parse_tokens tokens
parse_cores str = parse_tokens (tokens str)
