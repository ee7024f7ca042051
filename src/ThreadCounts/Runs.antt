-- ===== src/ThreadCounts/Runs.antt =====
-- The theorem about thread_counts.h for seven threads.
use c_tests_runner.Base.{ℕ, ◌≡◌, List, ◌∷◌, arith}
use c_tests_runner.Base.Int.{pos}
use c_tests_runner.ThreadCounts.{get}
use c_tests_runner.ThreadCounts.Ladder.{IsLadder, get-IsLadder}

get-IsLadder_example : (rest : List ℕ) × (get (pos 7) ≡ 1 ∷ rest) × IsLadder 7 1 rest
get-IsLadder_example = get-IsLadder (pos 7) (omega arith)
