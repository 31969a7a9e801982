-- ===== src/Pattern/Set/Compile.antt =====
-- That `compile` makes well-formed sets.
use rustmate.Base.{
  ℕ, ◌+◌, ◌≡◌, ◌<◌, refl, subst, ◌∙◌, true, ◌||◌, ◌==◌, Option, none, some, List, [], ◌∷◌, ◌++◌,
  arith, All, All-append, All-mono, if_both, is_empty, length, length-append,
}
use rustmate.Pattern.Hex.{automaton_not_built}
use rustmate.Pattern.Matchers.{Matchers}
use rustmate.Pattern.Set.{
  PatternDefinition, PatternDefinitionKind, Compiled, ok, err, panicked, PatternKind,
  CompiledPattern, Compiling, add_literal, add_regex, add_definition, add_definitions, build_set,
  compile_set, PatternEngineConfig, compile,
}
use rustmate.Pattern.Set.Indices.{WellFormed}

module _ (m : Matchers) where
  -- A property of the value, if there is one.
  abbrev Answers : {A : Type 0} → (A → Type 0) → Compiled A → Type 0
  Answers P (ok x) = P x
  Answers P (err error) = Unit {0}
  Answers P panicked = Unit {0}

  record Consistent (c : Compiling m) : Type 0 where
    known : All (λ i. i < length c.patterns) c.literal_indices
    one_each : length c.literal_needles ≡ length c.literal_indices

  add_literal-Consistent :
      (id name : List ℕ) (kind : PatternKind m) (bytes : List ℕ) (c : Compiling m)
      → Consistent c
      → Answers Consistent (add_literal m id name kind bytes c)
  unfolding add_literal
  add_literal-Consistent id name kind bytes c k =
      if_both (Answers Consistent) (is_empty bytes) (λ _. tt)
        (λ _. record {
          known =
              All-append
                (λ i. i < length (c.patterns ++ record { id = id; name = name; kind = kind } ∷ []))
                c.literal_indices (length c.patterns ∷ [])
                (All-mono (λ i. i < length c.patterns)
                  (λ i.
                    i < length (c.patterns ++ record { id = id; name = name; kind = kind } ∷ []))
                  (λ i h. omega (arith, longer, h)) c.literal_indices k.known)
                (omega (arith, longer), tt);
          one_each = omega (
            arith,
            k.one_each,
            length-append c.literal_needles (bytes ∷ []),
            length-append c.literal_indices (length c.patterns ∷ []),
          );
        })
    where
      longer :
          length (c.patterns ++ record { id = id; name = name; kind = kind } ∷ [])
          ≡ length c.patterns + 1
      longer = length-append c.patterns (record { id = id; name = name; kind = kind } ∷ [])

  add_regex-Consistent :
      (id name : List ℕ) (compiled : Option m.Regex) (c : Compiling m)
      → Consistent c
      → Answers Consistent (add_regex m id name compiled c)
  unfolding add_regex
  add_regex-Consistent id name none c k = tt
  add_regex-Consistent id name (some compiled) c k = record {
    known =
        All-mono (λ i. i < length c.patterns) (λ i. i < length (c.patterns ++ added))
          (λ i h. omega (arith, h, length-append c.patterns added)) c.literal_indices k.known;
    one_each = k.one_each;
  }
    where
      added : List (CompiledPattern m)
      added = record { id = id; name = name; kind = PatternKind.regex compiled } ∷ []

  add_definition-Consistent :
      (d : PatternDefinition) (c : Compiling m)
      → Consistent c
      → Answers Consistent (add_definition m d c)
  unfolding add_definition
  add_definition-Consistent d c k = go d.kind
    where
      go :
          (kind : PatternDefinitionKind)
          → Answers Consistent (elim kind [
            | PatternDefinitionKind.substring bytes ↦
                add_literal m d.id d.name PatternKind.substring bytes c
            | PatternDefinitionKind.binary bytes ↦
                add_literal m d.id d.name PatternKind.binary bytes c
            | PatternDefinitionKind.regex pattern ↦ add_regex m d.id d.name (m.new_regex pattern) c
          ])
      go (PatternDefinitionKind.substring bytes) =
          add_literal-Consistent d.id d.name PatternKind.substring bytes c k
      go (PatternDefinitionKind.binary bytes) =
          add_literal-Consistent d.id d.name PatternKind.binary bytes c k
      go (PatternDefinitionKind.regex pattern) =
          add_regex-Consistent d.id d.name (m.new_regex pattern) c k

  -- Doing the rest with a result.
  then_Answers :
      {A B : Type 0} (P : A → Type 0) (Q : B → Type 0) (r : Compiled A) (f : A → Compiled B)
      → ((x : A) → P x → Answers Q (f x))
      → Answers P r
      → Answers Q (elim r [ ok x ↦ f x | err error ↦ err error | panicked ↦ panicked ])
  then_Answers P Q (ok x) f h a = h x a
  then_Answers P Q (err error) f h a = tt
  then_Answers P Q panicked f h a = tt

  add_definitions-Consistent :
      (definitions : List PatternDefinition) (c : Compiling m)
      → Consistent c
      → Answers Consistent (add_definitions m definitions c)
  unfolding add_definitions
  add_definitions-Consistent [] c k = k
  add_definitions-Consistent (d ∷ definitions) c k =
      then_Answers Consistent Consistent (add_definition m d c) (add_definitions m definitions)
        (λ x h. add_definitions-Consistent definitions x h) (add_definition-Consistent d c k)

  build_set-WellFormed : (c : Compiling m) → Consistent c → Answers (WellFormed m) (build_set m c)
  unfolding build_set
  build_set-WellFormed c k =
      if_both (Answers (WellFormed m)) (is_empty c.literal_needles)
        (λ _. record { known = k.known; built = λ automaton e. absurd (ground arith) })
        (λ _. go (m.build c.literal_needles) refl)
    where
      go :
          (built : Option m.Automaton)
          → m.build c.literal_needles ≡ built
          → Answers (WellFormed m) (elim built [
            | none ↦ err automaton_not_built
            | some automaton ↦ ok (record {
              patterns = c.patterns;
              literal_indices = c.literal_indices;
              literal_automaton = some automaton;
              max_literal_len = c.max_literal_len;
            })
          ])
      go none e = tt
      go (some automaton) e = record {
        known = k.known;
        built = λ other s. (c.literal_needles, e ∙ s, k.one_each);
      }

  compile-Answers :
      (definitions : List PatternDefinition)
      (max_matches_per_stream max_total_matches regex_window_bytes : ℕ)
      → Answers
          (λ (config : PatternEngineConfig m). WellFormed m config.set)
          (compile m definitions max_matches_per_stream max_total_matches regex_window_bytes)
  unfolding compile compile_set
  compile-Answers definitions max_matches_per_stream max_total_matches regex_window_bytes =
      if_both (Answers (λ (config : PatternEngineConfig m). WellFormed m config.set))
        (is_empty definitions || max_matches_per_stream == 0 || max_total_matches == 0)
        (λ _. record { known = tt; built = λ automaton e. absurd (ground arith) })
        (λ _.
          then_Answers (WellFormed m) (λ (config : PatternEngineConfig m). WellFormed m config.set)
            (compile_set m definitions)
            (λ set. ok (record {
              enabled = true;
              set = set;
              max_matches_per_stream = max_matches_per_stream;
              max_total_matches = max_total_matches;
              regex_window_bytes = regex_window_bytes;
            }))
            (λ set h. h)
            (then_Answers Consistent (WellFormed m) (add_definitions m definitions nothing)
              (build_set m) build_set-WellFormed
              (add_definitions-Consistent definitions nothing
                (record { known = tt; one_each = refl }))))
    where
      nothing : Compiling m
      nothing = record {
        patterns = [];
        literal_indices = [];
        literal_needles = [];
        max_literal_len = 0;
      }

  pub compile-WellFormed :
      (definitions : List PatternDefinition)
      (max_matches_per_stream max_total_matches regex_window_bytes : ℕ)
      (config : PatternEngineConfig m)
      → compile m definitions max_matches_per_stream max_total_matches regex_window_bytes
        ≡ ok config
      → WellFormed m config.set
  compile-WellFormed definitions max_matches_per_stream max_total_matches regex_window_bytes config
        e =
      subst (Answers (λ (config : PatternEngineConfig m). WellFormed m config.set)) e
        (compile-Answers definitions max_matches_per_stream max_total_matches regex_window_bytes)
