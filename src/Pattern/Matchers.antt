-- ===== src/Pattern/Matchers.antt =====
-- The crates that search for patterns: aho_corasick for literals, regex for regular expressions.
use rustmate.Base.{ℕ, ◌≡◌, ◌≤◌, ◌<◌, List, Option, some, All, length}

-- A match: the index of the literal, and where it starts and ends in the bytes searched.
pub record LiteralMatch : Type 0 where
  pub pattern : ℕ
  pub start : ℕ
  pub end : ℕ

pub record RegexMatch : Type 0 where
  pub start : ℕ
  pub end : ℕ

-- The crates, and what their documentation promises: a match lies within the bytes searched, and a
-- literal's index is that of one of the literals that the automaton was built from.
pub record Matchers : Type 1 where
  pub Automaton : Type 0
  pub build : List (List ℕ) → Option Automaton
  pub find_overlapping_iter : Automaton → List ℕ → List LiteralMatch
  pub Regex : Type 0
  pub new_regex : List ℕ → Option Regex
  pub find_iter : Regex → List ℕ → List RegexMatch
  pub literals_in_range :
      (needles : List (List ℕ)) (automaton : Automaton) (bytes : List ℕ)
      → build needles ≡ some automaton
      → All
          (λ (f : LiteralMatch).
            (f.pattern < length needles) × (f.start ≤ f.end) × (f.end ≤ length bytes))
          (find_overlapping_iter automaton bytes)
  pub regex_in_range :
      (regex : Regex) (bytes : List ℕ)
      → All (λ (f : RegexMatch). (f.start ≤ f.end) × (f.end ≤ length bytes)) (find_iter regex bytes)
