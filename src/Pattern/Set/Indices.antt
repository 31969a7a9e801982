-- ===== src/Pattern/Set/Indices.antt =====
-- What makes a set of compiled patterns well-formed.
use rustmate.Base.{ℕ, ◌≡◌, ◌<◌, List, some, All, length}
use rustmate.Pattern.Matchers.{Matchers}
use rustmate.Pattern.Set.{PatternSet}

-- The indices of the literals are those of patterns, one for each literal that the automaton has.
pub record WellFormed (m : Matchers) (s : PatternSet m) : Type 0 where
  pub known : All (λ i. i < length s.patterns) s.literal_indices
  pub built :
      (automaton : m.Automaton)
      → s.literal_automaton ≡ some automaton
      → (needles : List (List ℕ)) × (m.build needles ≡ some automaton)
        × (length needles ≡ length s.literal_indices)
