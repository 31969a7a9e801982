-- ===== src/Bytes/Lines.antt =====
-- `str::lines`, `str::split_once` and `str::split_ascii_whitespace`.
pub mod Laws
use rustmate.Base.{
  ℕ, zero, suc, ◌-◌, Bool, true, false, ◌&&◌, Option, none, some, List, [], ◌∷◌, ◌++◌, ◌==◌,
  if◌then◌else◌, is_empty,
}
use rustmate.Bytes.{is_ascii_whitespace, split}

-- The line without a carriage return at its end.
unfoldable pub strip_cr : List ℕ → List ℕ
strip_cr [] = []
strip_cr (c ∷ []) = if c == 13 then [] else c ∷ []
strip_cr (c ∷ d ∷ rest) = c ∷ strip_cr (d ∷ rest)

-- The last piece has no line feed after it: it is a line only if it is not empty.
lines_of : List (List ℕ) → List (List ℕ)
unfolding strip_cr
lines_of [] = []
lines_of (last ∷ []) = if is_empty last then [] else last ∷ []
lines_of (piece ∷ next ∷ pieces) = strip_cr piece ∷ lines_of (next ∷ pieces)

unfoldable pub lines : List ℕ → List (List ℕ)
unfolding lines_of split
lines text = lines_of (split 10 text)

-- What stands before and behind the first `c`.
unfoldable pub split_once : ℕ → List ℕ → Option (List ℕ × List ℕ)
split_once c [] = none
split_once c (x ∷ xs) = elim (x == c) [
  | true ↦ some ([], xs)
  | false ↦ elim (split_once c xs) [ none ↦ none | some (before, after) ↦ some (x ∷ before, after) ]
]

-- The words in reading order: `inside` is the one being read.
unfoldable pub words_from : List ℕ → Option (List ℕ) → List (List ℕ)
unfolding is_ascii_whitespace
words_from [] none = []
words_from [] (some inside) = inside ∷ []
words_from (x ∷ xs) none = words_from xs (if is_ascii_whitespace x then none else some (x ∷ []))
words_from (x ∷ xs) (some inside) = elim (is_ascii_whitespace x) [
  | true ↦ inside ∷ words_from xs none
  | false ↦ words_from xs (some (inside ++ x ∷ []))
]

unfoldable pub split_ascii_whitespace : List ℕ → List (List ℕ)
unfolding words_from
split_ascii_whitespace text = words_from text none
