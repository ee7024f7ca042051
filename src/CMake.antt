-- ===== src/CMake.antt =====
-- server_core/src/cmake_validator.cpp and framework_detector.cpp: the comments of CMake files. A text
-- is the codes of its characters.
pub mod Detector
pub mod Validator
pub mod Decision
pub mod Acceptance
pub mod Stripping
mod Runs
use c_tests_runner.Base.{
  ℕ, ◌==◌, Bool, true, false, not, ◌&&◌, String, List, [], ◌∷◌, ◌++◌, if◌then◌else◌,
}
use Prim.Native.Char.{code}
use Prim.Native.String.{[] as []ₛ, ◌∷◌ as ◌∷ₛ◌}

abbrev pub Text : Type 0
Text = List ℕ

abbrev pub newline : ℕ
newline = 10

abbrev pub quote : ℕ
quote = 34

abbrev pub hash : ℕ
hash = 35

-- The codes of a literal.
unfoldable pub codes : String → Text
codes []ₛ = []
codes (c ∷ₛ s) = code c ∷ codes s

abbrev pub push : ℕ → List Text → List Text
push c [] = (c ∷ []) ∷ []
push c (l ∷ ls) = (c ∷ l) ∷ ls

-- std::getline to the end of a text: its lines, without a last empty one.
unfoldable pub lines : Text → List Text
lines [] = []
lines (c ∷ t) = let rest = lines t in if c == newline then [] ∷ rest else push c rest

-- The loop over a line: a # outside of quotes cuts it off.
unfoldable pub strip_line : Bool → Text → Text
strip_line in_string [] = []
strip_line in_string (c ∷ line) =
    let toggled = strip_line (not in_string) line in
    let kept = strip_line in_string line in
    if c == quote then c ∷ toggled else if (c == hash) && not in_string then [] else c ∷ kept

unfoldable pub strip_lines : List Text → Text
unfolding strip_line
strip_lines [] = []
strip_lines (line ∷ ls) = strip_line false line ++ newline ∷ strip_lines ls

unfoldable pub strip_cmake_comments : Text → Text
unfolding lines strip_lines
strip_cmake_comments text = strip_lines (lines text)
