-- ===== src/Pattern/Engine/Range.antt =====
-- That the engine's indices and slices are in range.
use rustmate.Base.{
  ℕ, zero, suc, ◌+◌, ◌≡◌, ◌≤◌, ◌<◌, refl, ap, subst, Option, none, some, List, [], ◌∷◌, ◌++◌, map,
  arith, All, All-append, length, get_elem?,
}
use rustmate.Pattern.Matchers.{Matchers, LiteralMatch, RegexMatch}
use rustmate.Pattern.Set.{PatternKind, CompiledPattern, PatternEngineConfig}
use rustmate.Pattern.Set.Indices.{WellFormed}
use rustmate.Pattern.Engine.{
  CandidateMatch, literal_candidates, regex_candidates, literals_of, candidates,
}

-- A match of one of `n` patterns, within the bytes.
abbrev pub InRange : ℕ → List ℕ → CandidateMatch → Type 0
InRange n bytes c = (c.pattern_index < n) × (c.start ≤ c.end) × (c.end ≤ length bytes)

get_elem?-All :
    (P : ℕ → Type 0) (i : ℕ) (xs : List ℕ)
    → i < length xs
    → All P xs
    → (x : ℕ) × (get_elem? xs i ≡ some x) × P x
get_elem?-All P i [] h a = absurd (omega arith)
get_elem?-All P zero (x ∷ xs) h a = (x, refl, a.0)
get_elem?-All P (suc i) (x ∷ xs) h a = get_elem?-All P i xs (omega arith) a.1

module _ (m : Matchers) (base64 : List ℕ → List ℕ) (n : ℕ) (bytes : List ℕ) where
  literal_candidates-InRange :
      (indices : List ℕ) (found : List LiteralMatch)
      → All (λ i. i < n) indices
      → All
          (λ (f : LiteralMatch).
            (f.pattern < length indices) × (f.start ≤ f.end) × (f.end ≤ length bytes))
          found
      → (cs : List CandidateMatch) × (literal_candidates m base64 indices found ≡ some cs)
        × All (InRange n bytes) cs
  unfolding literal_candidates
  literal_candidates-InRange indices [] k a = ([], refl, tt)
  literal_candidates-InRange indices (f ∷ found) k a =
      let (i, e, b) = get_elem?-All (λ i. i < n) f.pattern indices a.0.0 k in
      let (cs, es, bs) = literal_candidates-InRange indices found k a.1 in
      (
        record { pattern_index = i; start = f.start; end = f.end } ∷ cs,
        rw (e, literal_candidates, es) refl,
        ((b, a.0.1, a.0.2), bs),
      )

  regex_matches-InRange :
      (index : ℕ) (found : List RegexMatch)
      → index < n
      → All (λ (f : RegexMatch). (f.start ≤ f.end) × (f.end ≤ length bytes)) found
      → All (InRange n bytes) (
          map
            (λ (f : RegexMatch). record { pattern_index = index; start = f.start; end = f.end })
            found)
  regex_matches-InRange index [] h a = tt
  regex_matches-InRange index (f ∷ found) h a =
      ((h, a.0.0, a.0.1), regex_matches-InRange index found h a.1)

  regex_candidates-InRange :
      (index : ℕ) (patterns : List (CompiledPattern m))
      → index + length patterns ≤ n
      → All (InRange n bytes) (regex_candidates m base64 index patterns bytes)
  unfolding regex_candidates
  regex_candidates-InRange index [] h = tt
  regex_candidates-InRange index (p ∷ patterns) h =
      go p.kind (regex_candidates-InRange (index + 1) patterns (omega arith))
    where
      rest : List CandidateMatch
      rest = regex_candidates m base64 (index + 1) patterns bytes

      go :
          (kind : PatternKind m)
          → All (InRange n bytes) rest
          → All (InRange n bytes) (elim kind [
            | PatternKind.substring ↦ rest
            | PatternKind.binary ↦ rest
            | PatternKind.regex regex ↦
                map
                  (λ (matched : RegexMatch). record {
                    pattern_index = index;
                    start = matched.start;
                    end = matched.end;
                  })
                  (m.find_iter regex bytes)
                ++ rest
          ])
      go PatternKind.substring a = a
      go PatternKind.binary a = a
      go (PatternKind.regex regex) a =
          All-append (InRange n bytes) _ rest
            (regex_matches-InRange index (m.find_iter regex bytes) (omega arith)
              (m.regex_in_range regex bytes))
            a

literals_of-InRange :
    (m : Matchers) (base64 : List ℕ → List ℕ) (config : PatternEngineConfig m) (bytes : List ℕ)
    → WellFormed m config.set
    → (cs : List CandidateMatch) × (literals_of m base64 config bytes ≡ some cs)
      × All (InRange (length config.set.patterns) bytes) cs
unfolding literals_of
literals_of-InRange m base64 config bytes w = go config.set.literal_automaton refl
  where
    go :
        (automaton : Option m.Automaton)
        → config.set.literal_automaton ≡ automaton
        → (cs : List CandidateMatch) × (elim automaton [
          | none ↦ some []
          | some automaton ↦
              literal_candidates m base64 config.set.literal_indices
                (m.find_overlapping_iter automaton bytes)
        ]
            ≡ some cs)
          × All (InRange (length config.set.patterns) bytes) cs
    go none e = ([], refl, tt)
    go (some automaton) e =
        let (needles, b, l) = w.built automaton e in
        literal_candidates-InRange m base64 (length config.set.patterns) bytes
          config.set.literal_indices (m.find_overlapping_iter automaton bytes) w.known
          (subst
            (λ k.
              All
                (λ (f : LiteralMatch). (f.pattern < k) × (f.start ≤ f.end) × (f.end ≤ length bytes))
                (m.find_overlapping_iter automaton bytes))
            l (m.literals_in_range needles automaton bytes b))

pub candidates-InRange :
    (m : Matchers) (base64 : List ℕ → List ℕ) (config : PatternEngineConfig m) (bytes : List ℕ)
    → WellFormed m config.set
    → (cs : List CandidateMatch) × (candidates m base64 config bytes ≡ some cs)
      × All (InRange (length config.set.patterns) bytes) cs
unfolding candidates
candidates-InRange m base64 config bytes w =
    let (literals, e, a) = literals_of-InRange m base64 config bytes w in
    (
      literals ++ regex_candidates m base64 0 config.set.patterns bytes,
      with_literals literals e,
      All-append (InRange (length config.set.patterns) bytes) literals
          (regex_candidates m base64 0 config.set.patterns bytes) a
          (regex_candidates-InRange m base64 (length config.set.patterns) bytes 0
            config.set.patterns (omega arith)),
    )
  where
    with_literals :
        (literals : List CandidateMatch)
        → literals_of m base64 config bytes ≡ some literals
        → candidates m base64 config bytes
          ≡ some (literals ++ regex_candidates m base64 0 config.set.patterns bytes)
    with_literals literals e =
        ap
          (λ (found : Option (List CandidateMatch)).
            elim found as (λ _. Option (List CandidateMatch)) [
              | none ↦ none
              | some literals ↦
                  some (literals ++ regex_candidates m base64 0 config.set.patterns bytes)
            ])
          e
