-- ===== src/Pattern/Engine.antt =====
-- src/pattern.rs: the search for patterns in what is new of a stream (`PatternEngine`).
pub mod Range
pub mod Limit
pub mod Panic
use native.Mathlib.Decide.{ℕ_discrete}
use rustmate.Base.{
  ℕ, suc, ◌+◌, ◌-◌, Bool, true, false, not, ◌&&◌, ◌||◌, Option, none, some, List, [], ◌∷◌, ◌++◌,
  map, leb, ltb, ◌==◌, if◌then◌else◌, saturating_add, length, take, drop, is_empty, any, get_elem?,
  get, set_value,
}
use rustmate.Flow.Chunk.{FlowDirection, a_to_b, b_to_a}
use rustmate.Content.Direction.{StreamContentRange, StreamContentWindow}
use rustmate.Content.Store.{StreamContent, StreamContentUpdate}
use rustmate.Content.Window.{direction_windows}
use rustmate.Slice.Render.{is_textish}
use rustmate.Pattern.Matchers.{Matchers, LiteralMatch, RegexMatch}
use rustmate.Pattern.Set.{PatternKind, CompiledPattern, PatternEngineConfig, lookbehind_bytes}
use rustmate.Pattern.Set

pub record PatternEngineStats : Type 0 where
  pub pattern_matches : ℕ
  pub pattern_dropped_matches : ℕ
  pub pattern_matched_streams : ℕ

pub record NewRange : Type 0 where
  pub start : ℕ
  pub end : ℕ

pub record MatchKey : Type 0 where
  pub pattern_index : ℕ
  pub stream_id : ℕ
  pub direction : FlowDirection
  pub start : ℕ
  pub end : ℕ

pub record CandidateMatch : Type 0 where
  pub pattern_index : ℕ
  pub start : ℕ
  pub end : ℕ

unfoldable pub same_direction : FlowDirection → FlowDirection → Bool
same_direction a_to_b a_to_b = true
same_direction a_to_b b_to_a = false
same_direction b_to_a a_to_b = false
same_direction b_to_a b_to_a = true

unfoldable pub same_key : MatchKey → MatchKey → Bool
unfolding same_direction
same_key k j =
    k.pattern_index == j.pattern_index
    && k.stream_id == j.stream_id
    && same_direction k.direction j.direction
    && k.start == j.start
    && k.end == j.end

unfoldable pub match_key : StreamContentWindow → CandidateMatch → MatchKey
match_key window c = record {
  pattern_index = c.pattern_index;
  stream_id = window.stream_id;
  direction = window.direction;
  start = saturating_add window.logical_start c.start;
  end = saturating_add window.logical_start c.end;
}

-- The text of a match, if all of it can be read; a line break is written as `\n` and so on.
unfoldable pub preview_of : ℕ → List ℕ
preview_of byte =
    if byte == 10
    then 92 ∷ b'n' ∷ []
    else if byte == 13
    then 92 ∷ b'r' ∷ []
    else if byte == 9
    then 92 ∷ b't' ∷ []
    else if leb 0x20 byte && leb byte 0x7e
    then byte ∷ []
    else b'.' ∷ []

unfoldable pub preview_bytes : List ℕ → List ℕ
unfolding preview_of
preview_bytes [] = []
preview_bytes (b ∷ bs) = preview_of b ++ preview_bytes bs

unfoldable pub preview_text : List ℕ → Option (List ℕ)
unfolding preview_bytes is_textish any
preview_text bytes =
    if is_empty bytes || any (λ b. not (is_textish b)) bytes
    then none
    else some (preview_bytes bytes)

-- `Entry::or_insert(0)`.
unfoldable pub or_insert_zero : ℕ → List (ℕ × ℕ) → List (ℕ × ℕ)
unfolding get
or_insert_zero stream_id m = elim (get ℕ_discrete stream_id m) [
  | none ↦ (stream_id, 0) ∷ m
  | some n ↦ m
]

unfoldable pub matches_of : ℕ → List (ℕ × ℕ) → ℕ
unfolding get
matches_of stream_id m = elim (get ℕ_discrete stream_id m) [ none ↦ 0 | some n ↦ n ]

-- `base64` is the encoder of the base64 crate.
module _ (m : Matchers) (base64 : List ℕ → List ℕ) where
  -- The fields of an event, of which the stream's id is written in hexadecimal digits. What the event
  -- says of the packet is left out.
  pub record PatternMatch : Type 0 where
    pub stream_id : ℕ
    pub pattern_id : List ℕ
    pub pattern_name : List ℕ
    pub pattern_type : PatternKind m
    pub direction : FlowDirection
    pub logical_start : ℕ
    pub logical_end : ℕ
    pub match_len : ℕ
    pub match_base64 : List ℕ
    pub match_text : Option (List ℕ)

  -- The set of the keys that an update has emitted goes through `emitted`, the events through `events`.
  -- `panicked` says whether an index or a slice was out of range: what stands behind is then never run.
  pub record PatternEngine : Type 0 where
    pub config : PatternEngineConfig m
    pub matches_by_stream : List (ℕ × ℕ)
    pub stats : PatternEngineStats
    pub emitted : List MatchKey
    pub events : List PatternMatch
    pub panicked : Bool

  unfoldable pub new : PatternEngineConfig m → PatternEngine
  new config = record {
    config = config;
    matches_by_stream = [];
    stats = record {
      pattern_matches = 0;
      pattern_dropped_matches = 0;
      pattern_matched_streams = 0;
    };
    emitted = [];
    events = [];
    panicked = false;
  }

  unfoldable pub stats : PatternEngine → PatternEngineStats
  stats e = record e.stats { pattern_matched_streams = length e.matches_by_stream }

  unfoldable pub pattern_fields :
      CompiledPattern m → StreamContentWindow → ℕ → ℕ → List ℕ → PatternMatch
  unfolding preview_text
  pattern_fields pattern window absolute_start absolute_end bytes = record {
    stream_id = window.stream_id;
    pattern_id = pattern.id;
    pattern_name = pattern.name;
    pattern_type = pattern.kind;
    direction = window.direction;
    logical_start = absolute_start;
    logical_end = absolute_end;
    match_len = length bytes;
    match_base64 = base64 bytes;
    match_text = preview_text bytes;
  }

  unfoldable pub drop_match : PatternEngine → PatternEngine
  drop_match e = record e {
    stats = record e.stats {
      pattern_dropped_matches = saturating_add e.stats.pattern_dropped_matches 1;
    };
  }

  -- Whether a match may be reported, and the engine that has counted it.
  unfoldable pub reserve_match : ℕ → PatternEngine → Bool × PatternEngine
  unfolding drop_match or_insert_zero matches_of set_value
  reserve_match stream_id e =
      let entered : PatternEngine = record e {
        matches_by_stream = or_insert_zero stream_id e.matches_by_stream;
      } in
      let n = matches_of stream_id e.matches_by_stream in
      if leb e.config.max_total_matches e.stats.pattern_matches
      then (false, drop_match e)
      else if leb e.config.max_matches_per_stream n
      then (false, drop_match entered)
      else (
        true,
        record e {
          matches_by_stream =
              set_value ℕ_discrete stream_id (saturating_add n 1) entered.matches_by_stream;
          stats = record e.stats { pattern_matches = saturating_add e.stats.pattern_matches 1 };
        },
      )

  -- The event is put behind the others, if the pattern and the bytes are there.
  unfoldable pub push_event :
      StreamContentWindow → CandidateMatch → ℕ → ℕ → PatternEngine → PatternEngine
  unfolding pattern_fields
  push_event window c absolute_start absolute_end e =
      elim (get_elem? e.config.set.patterns c.pattern_index) [
        | none ↦ record e { panicked = true }
        | some pattern ↦
            if leb c.start c.end && leb c.end (length window.bytes)
            then record e {
              events =
                  e.events
                  ++ pattern_fields pattern window absolute_start absolute_end
                      (take (c.end - c.start) (drop c.start window.bytes))
                    ∷ [];
            }
            else record e { panicked = true }
      ]

  -- A match that has not been emitted in this update.
  unfoldable pub emit_match :
      StreamContentWindow → CandidateMatch → ℕ → ℕ → PatternEngine → PatternEngine
  unfolding reserve_match push_event
  emit_match window c absolute_start absolute_end e =
      let (reserved, counted) = reserve_match window.stream_id e in
      if reserved then push_event window c absolute_start absolute_end counted else counted

  unfoldable pub emit_match_if_new :
      StreamContentWindow → NewRange → CandidateMatch → PatternEngine → PatternEngine
  unfolding emit_match match_key same_key any
  emit_match_if_new window new_range c e =
      let key = match_key window c in
      if c.start == c.end
      then e
      else if leb new_range.end key.start || leb key.end new_range.start
      then e
      else if any (same_key key) e.emitted
      then e
      else emit_match window c key.start key.end (record e { emitted = key ∷ e.emitted })

  unfoldable pub emit_candidates :
      StreamContentWindow → NewRange → List CandidateMatch → PatternEngine → PatternEngine
  unfolding emit_match_if_new
  emit_candidates window new_range [] e = e
  emit_candidates window new_range (c ∷ found) e =
      emit_candidates window new_range found (emit_match_if_new window new_range c e)

  -- The matches of the literals; `none` where an index is out of range.
  unfoldable pub literal_candidates : List ℕ → List LiteralMatch → Option (List CandidateMatch)
  literal_candidates literal_indices [] = some []
  literal_candidates literal_indices (matched ∷ more) =
      elim (get_elem? literal_indices matched.pattern) [
        | none ↦ none
        | some pattern_index ↦ elim (literal_candidates literal_indices more) [
          | none ↦ none
          | some found ↦ some (
              record { pattern_index = pattern_index; start = matched.start; end = matched.end }
              ∷ found)
        ]
      ]

  -- The matches of the regular expressions, the first pattern having this index.
  unfoldable pub regex_candidates : ℕ → List (CompiledPattern m) → List ℕ → List CandidateMatch
  regex_candidates pattern_index [] bytes = []
  regex_candidates pattern_index (pattern ∷ patterns) bytes =
      let rest = regex_candidates (pattern_index + 1) patterns bytes in
      elim pattern.kind [
        | PatternKind.substring ↦ rest
        | PatternKind.binary ↦ rest
        | PatternKind.regex regex ↦
            map
              (λ (matched : RegexMatch). record {
                pattern_index = pattern_index;
                start = matched.start;
                end = matched.end;
              })
              (m.find_iter regex bytes)
            ++ rest
      ]

  unfoldable pub literals_of : PatternEngineConfig m → List ℕ → Option (List CandidateMatch)
  unfolding literal_candidates
  literals_of config bytes = elim config.set.literal_automaton [
    | none ↦ some []
    | some automaton ↦
        literal_candidates config.set.literal_indices (m.find_overlapping_iter automaton bytes)
  ]

  unfoldable pub candidates : PatternEngineConfig m → List ℕ → Option (List CandidateMatch)
  unfolding literals_of regex_candidates
  candidates config bytes = elim (literals_of config bytes) [
    | none ↦ none
    | some literals ↦ some (literals ++ regex_candidates 0 config.set.patterns bytes)
  ]

  unfoldable pub scan_window : StreamContentWindow → NewRange → PatternEngine → PatternEngine
  unfolding candidates emit_candidates
  scan_window window new_range e = elim (candidates e.config window.bytes) [
    | none ↦ record e { panicked = true }
    | some found ↦ emit_candidates window new_range found e
  ]

  unfoldable pub scan_windows : NewRange → List StreamContentWindow → PatternEngine → PatternEngine
  unfolding scan_window
  scan_windows new_range [] e = e
  scan_windows new_range (window ∷ windows) e =
      scan_windows new_range windows (scan_window window new_range e)

  unfoldable pub scan_range :
      StreamContent → StreamContentUpdate → StreamContentRange → PatternEngine → PatternEngine
  unfolding scan_windows direction_windows lookbehind_bytes
  scan_range content update range e =
      elim (direction_windows update.key range.direction
        (range.logical_start - lookbehind_bytes m e.config) range.logical_end content) [
          | none ↦ e
          | some windows ↦
              scan_windows (record { start = range.logical_start; end = range.logical_end }) windows
                e
        ]

  unfoldable pub scan_ranges :
      StreamContent → StreamContentUpdate → List StreamContentRange → PatternEngine → PatternEngine
  unfolding scan_range
  scan_ranges content update [] e = e
  scan_ranges content update (range ∷ ranges) e =
      scan_ranges content update ranges (scan_range content update range e)

  unfoldable pub scan_update : StreamContent → StreamContentUpdate → PatternEngine → PatternEngine
  unfolding scan_ranges
  scan_update content update e =
      if e.config.enabled
      then record (scan_ranges content update update.ranges (record e { emitted = [] })) {
        emitted = [];
      }
      else e
