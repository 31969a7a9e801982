-- ===== src/Pattern/Set.antt =====
-- src/pattern.rs: definitions of patterns, and the set that they are compiled to (`PatternSet`).
pub mod Indices
pub mod Compile
use rustmate.Base.{
  ℕ, ◌-◌, Bool, true, false, ◌||◌, Option, none, some, List, [], ◌∷◌, ◌++◌, ◌==◌, if◌then◌else◌,
  max, length, is_empty,
}
use rustmate.Pattern.Hex.{
  PatternError, pattern_is_empty, regex_not_compiled, automaton_not_built, HexPattern,
  parse_hex_pattern,
}
use rustmate.Pattern.Matchers.{Matchers}

pub data PatternDefinitionKind : Type 0 where
  substring binary regex : List ℕ → PatternDefinitionKind

pub record PatternDefinition : Type 0 where
  pub id : List ℕ
  pub name : List ℕ
  pub kind : PatternDefinitionKind

unfoldable pub substring_pattern : List ℕ → List ℕ → PatternDefinition
substring_pattern id value = record {
  id = id;
  name = value;
  kind = PatternDefinitionKind.substring value;
}

unfoldable pub regex_pattern : List ℕ → List ℕ → PatternDefinition
regex_pattern id value = record { id = id; name = value; kind = PatternDefinitionKind.regex value }

-- A result, an error, or a panic of `parse_hex_pattern`.
pub data Compiled {ℓ} (A : Type ℓ) : Type ℓ where
  ok : A → Compiled A
  err : PatternError → Compiled A
  panicked : Compiled A

unfoldable pub binary_hex : List ℕ → List ℕ → Compiled PatternDefinition
unfolding parse_hex_pattern
binary_hex id value = elim (parse_hex_pattern value) [
  | HexPattern.ok bytes ↦
      ok (record { id = id; name = value; kind = PatternDefinitionKind.binary bytes })
  | HexPattern.err error ↦ err error
  | HexPattern.panicked ↦ panicked
]

module _ (m : Matchers) where
  pub data PatternKind : Type 0 where
    substring binary : PatternKind
    regex : m.Regex → PatternKind

  pub record CompiledPattern : Type 0 where
    pub id : List ℕ
    pub name : List ℕ
    pub kind : PatternKind

  pub record PatternSet : Type 0 where
    pub patterns : List CompiledPattern
    pub literal_indices : List ℕ
    pub literal_automaton : Option m.Automaton
    pub max_literal_len : ℕ

  abbrev pub empty : PatternSet
  empty = record {
    patterns = [];
    literal_indices = [];
    literal_automaton = none;
    max_literal_len = 0;
  }

  -- The variables of the loop of `compile`.
  pub record Compiling : Type 0 where
    pub patterns : List CompiledPattern
    pub literal_indices : List ℕ
    pub literal_needles : List (List ℕ)
    pub max_literal_len : ℕ

  unfoldable pub add_literal :
      List ℕ → List ℕ → PatternKind → List ℕ → Compiling → Compiled Compiling
  add_literal id name kind bytes c =
      if is_empty bytes
      then err (pattern_is_empty id)
      else ok (record {
        patterns = c.patterns ++ record { id = id; name = name; kind = kind } ∷ [];
        literal_indices = c.literal_indices ++ length c.patterns ∷ [];
        literal_needles = c.literal_needles ++ bytes ∷ [];
        max_literal_len = max c.max_literal_len (length bytes);
      })

  unfoldable pub add_regex : List ℕ → List ℕ → Option m.Regex → Compiling → Compiled Compiling
  add_regex id name none c = err regex_not_compiled
  add_regex id name (some compiled) c = ok (record c {
    patterns =
        c.patterns ++ record { id = id; name = name; kind = PatternKind.regex compiled } ∷ [];
  })

  unfoldable pub add_definition : PatternDefinition → Compiling → Compiled Compiling
  unfolding add_literal add_regex
  add_definition d c = elim d.kind [
    | PatternDefinitionKind.substring bytes ↦ add_literal d.id d.name PatternKind.substring bytes c
    | PatternDefinitionKind.binary bytes ↦ add_literal d.id d.name PatternKind.binary bytes c
    | PatternDefinitionKind.regex pattern ↦ add_regex d.id d.name (m.new_regex pattern) c
  ]

  unfoldable pub add_definitions : List PatternDefinition → Compiling → Compiled Compiling
  unfolding add_definition
  add_definitions [] c = ok c
  add_definitions (d ∷ definitions) c = elim (add_definition d c) [
    | ok added ↦ add_definitions definitions added
    | err error ↦ err error
    | panicked ↦ panicked
  ]

  unfoldable pub build_set : Compiling → Compiled PatternSet
  build_set c =
      let set : Option m.Automaton → PatternSet = λ automaton. record {
        patterns = c.patterns;
        literal_indices = c.literal_indices;
        literal_automaton = automaton;
        max_literal_len = c.max_literal_len;
      } in
      if is_empty c.literal_needles then ok (set none) else elim (m.build c.literal_needles) [
        | none ↦ err automaton_not_built
        | some automaton ↦ ok (set (some automaton))
      ]

  unfoldable pub compile_set : List PatternDefinition → Compiled PatternSet
  unfolding add_definitions build_set
  compile_set definitions =
      elim (add_definitions definitions (record {
        patterns = [];
        literal_indices = [];
        literal_needles = [];
        max_literal_len = 0;
      })) [ ok c ↦ build_set c | err error ↦ err error | panicked ↦ panicked ]

  pub record PatternEngineConfig : Type 0 where
    pub enabled : Bool
    pub set : PatternSet
    pub max_matches_per_stream : ℕ
    pub max_total_matches : ℕ
    pub regex_window_bytes : ℕ

  abbrev pub disabled : PatternEngineConfig
  disabled = record {
    enabled = false;
    set = empty;
    max_matches_per_stream = 0;
    max_total_matches = 0;
    regex_window_bytes = 0;
  }

  unfoldable pub compile : List PatternDefinition → ℕ → ℕ → ℕ → Compiled PatternEngineConfig
  unfolding compile_set
  compile definitions max_matches_per_stream max_total_matches regex_window_bytes =
      if is_empty definitions || max_matches_per_stream == 0 || max_total_matches == 0
      then ok disabled
      else elim (compile_set definitions) [
        | ok set ↦ ok (record {
          enabled = true;
          set = set;
          max_matches_per_stream = max_matches_per_stream;
          max_total_matches = max_total_matches;
          regex_window_bytes = regex_window_bytes;
        })
        | err error ↦ err error
        | panicked ↦ panicked
      ]

  unfoldable pub lookbehind_bytes : PatternEngineConfig → ℕ
  lookbehind_bytes config = max (config.set.max_literal_len - 1) config.regex_window_bytes
