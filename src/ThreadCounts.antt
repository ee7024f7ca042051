-- ===== src/ThreadCounts.antt =====
-- server_core/src/thread_counts.h: `ThreadCounts::get`.
pub mod Ladder
mod Runs
use c_tests_runner.Base.{ℕ, zero, suc, ◌*◌, List, [], ◌∷◌, ◌++◌, ltb, leb, ◌==◌, if◌then◌else◌}
use c_tests_runner.Base.Int.{ℤ, pos, negsuc}

-- `max_threads`, at least 1.
abbrev pub clamp : ℤ → ℕ
clamp (pos n) = if ltb n 1 then 1 else n
clamp (negsuc n) = 1

-- The loop from `n` on, on fuel.
unfoldable pub powers : ℕ → ℕ → ℕ → List ℕ
powers zero n max_threads = []
powers (suc fuel) n max_threads =
    if leb n max_threads then n ∷ powers fuel (n * 2) max_threads else []

-- counts.back(), of a list that is not empty.
abbrev pub back : List ℕ → ℕ
back [] = 0
back (n ∷ []) = n
back (n ∷ m ∷ ns) = back (m ∷ ns)

unfoldable pub with_ceiling : ℕ → List ℕ → List ℕ
with_ceiling max_threads counts =
    if back counts == max_threads then counts else counts ++ max_threads ∷ []

unfoldable pub get : ℤ → List ℕ
unfolding powers with_ceiling
get max_threads = with_ceiling (clamp max_threads) (powers 31 1 (clamp max_threads))
