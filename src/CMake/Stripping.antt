-- ===== src/CMake/Stripping.antt =====
-- What the stripping of comments leaves.
use c_tests_runner.Base.{
  ℕ, ◌==◌, ◌≡◌, refl, Bool, false, not, Bool-cases, inl, inr, List, [], ◌∷◌, ◌++◌, All, arith,
}
use c_tests_runner.CMake.{Text, newline, push, lines, strip_line, strip_lines, strip_cmake_comments}

-- No character of a line ends it.
abbrev pub IsLine : Text → Type 0
IsLine l = All (λ c. (c == newline) ≡ false) l

-- A line that the loop leaves as it is has no comment.
abbrev pub IsUncommented : Text → Type 0
IsUncommented l = strip_line false l ≡ l

strip_line-again : (s : Bool) (l : Text) → strip_line s (strip_line s l) ≡ strip_line s l
unfolding strip_line
strip_line-again s [] = refl
strip_line-again s (c ∷ l) = ground (arith, strip_line-again s l, strip_line-again (not s) l)

strip_line-IsLine : (s : Bool) (l : Text) → IsLine l → IsLine (strip_line s l)
unfolding strip_line
strip_line-IsLine s [] h = tt
strip_line-IsLine s (c ∷ l) h =
    ground (arith, strip_line-IsLine s l h.1, strip_line-IsLine (not s) l h.1, h.0)

push-IsLine :
    (c : ℕ) (ls : List Text) → (c == newline) ≡ false → All IsLine ls → All IsLine (push c ls)
push-IsLine c [] h a = ((h, tt), tt)
push-IsLine c (l ∷ ls) h a = ((h, a.0), a.1)

lines-IsLine : (t : Text) → All IsLine (lines t)
unfolding lines
lines-IsLine [] = tt
lines-IsLine (c ∷ t) = elim (Bool-cases (c == newline)) [
  | inl e ↦ rw e (tt, lines-IsLine t)
  | inr e ↦ rw e (push-IsLine c (lines t) e (lines-IsLine t))
]

-- A line in front of a newline is the first line.
lines-line : (l t : Text) → IsLine l → lines (l ++ newline ∷ t) ≡ l ∷ lines t
unfolding lines
lines-line [] t h = refl
lines-line (c ∷ l) t h = rw (h.0, lines-line l t h.1) refl

strip_lines-again :
    (ls : List Text) → All IsLine ls → strip_lines (lines (strip_lines ls)) ≡ strip_lines ls
unfolding strip_lines lines
strip_lines-again [] a = refl
strip_lines-again (l ∷ ls) a =
    rw
      (
        lines-line (strip_line false l) (strip_lines ls) (strip_line-IsLine false l a.0),
        strip_line-again false l,
        strip_lines-again ls a.1,
      )
      refl

strip_lines-IsUncommented :
    (ls : List Text) → All IsLine ls → All IsUncommented (lines (strip_lines ls))
unfolding strip_lines lines
strip_lines-IsUncommented [] a = tt
strip_lines-IsUncommented (l ∷ ls) a =
    rw (lines-line (strip_line false l) (strip_lines ls) (strip_line-IsLine false l a.0))
      (strip_line-again false l, strip_lines-IsUncommented ls a.1)

-- Stripping is done once and for all: the lines of what is left are lines without a comment, so
-- that stripping again changes nothing.
strip_cmake_comments-IsUncommented :
    (t : Text)
    → All IsUncommented (lines (strip_cmake_comments t))
      × (strip_cmake_comments (strip_cmake_comments t) ≡ strip_cmake_comments t)
unfolding strip_cmake_comments
strip_cmake_comments-IsUncommented t = (
  strip_lines-IsUncommented (lines t) (lines-IsLine t),
  strip_lines-again (lines t) (lines-IsLine t),
)
