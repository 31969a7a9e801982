-- ===== src/Pattern/Tests.antt =====
-- The pattern `ab` in a stream that holds `xabab`, searched with a matcher that tries every place.
use native.Mathlib.Decide.{ℕ_discrete}
use rustmate.Base.{
  ℕ, ◌+◌, ◌≡◌, ◌≢◌, ◌≤◌, ◌<◌, refl, true, false, none, some, List, [], ◌∷◌, arith, if◌then◌else◌,
  if_both, All, leb, is_empty, ◌&&◌, length,
}
use rustmate.Bytes.{codes, starts_with}
use rustmate.Packet.Segment.{tcp}
use rustmate.Packet.Decoded.{v4}
use rustmate.Flow.Chunk.{a_to_b}
use rustmate.Flow.Route.{FlowKey}
use rustmate.Flow.Table.{FlowKey-discrete}
use rustmate.Content.Config.{disabled}
use rustmate.Content.Direction.{empty_content}
use rustmate.Content.Store.{StreamContent, StreamContentUpdate}
use rustmate.Content.Store
use rustmate.Slice.Render.{bytes_to_hex}
use rustmate.Pattern.Hex.{ok, panicked, parse_hex_pattern}
use rustmate.Pattern.Hex.Roundtrip.{parse_hex_pattern-bytes_to_hex}
use rustmate.Pattern.Hex.Ascii.{parse_hex_pattern-ascii}
use rustmate.Pattern.Matchers.{Matchers, LiteralMatch}
use rustmate.Pattern.Set.{PatternDefinition, PatternDefinitionKind, PatternEngineConfig}
use rustmate.Pattern.Set
use rustmate.Pattern.Engine.{PatternEngine, scan_update}
use rustmate.Pattern.Engine
use rustmate.Pattern.Engine.Panic.{scan_update-panicked}
use rustmate.Pattern.Engine.Limit.{IsValid, scan_update-IsValid}

parse_hex_pattern-bytes_to_hex_example :
    parse_hex_pattern (bytes_to_hex (0xde ∷ 0x0a ∷ [])) ≡ ok (0xde ∷ 0x0a ∷ [])
parse_hex_pattern-bytes_to_hex_example =
    parse_hex_pattern-bytes_to_hex (0xde ∷ 0x0a ∷ []) (ground arith) refl

parse_hex_pattern-ascii_example : parse_hex_pattern (codes "0xde:0") ≢ panicked
parse_hex_pattern-ascii_example = parse_hex_pattern-ascii (codes "0xde:0") (ground arith)

-- Two digits with a character of two bytes between them: a slice ends within it.
splits_character : parse_hex_pattern (b'a' ∷ 0xc3 ∷ 0xa9 ∷ b'b' ∷ []) ≡ panicked
unfolding parse_hex_pattern starts_with
splits_character = refl

-- A sign is read as part of a number.
reads_sign : parse_hex_pattern (codes "+5") ≡ ok (5 ∷ [])
unfolding parse_hex_pattern starts_with
reads_sign = refl

-- The places of a needle in what is left of `total` bytes from `at` on.
abbrev places : List ℕ → ℕ → List ℕ → ℕ → List LiteralMatch
places needle total [] at = []
places needle total (b ∷ bs) at =
    let more = places needle total bs (at + 1) in
    if starts_with needle (b ∷ bs) && leb (at + length needle) total
    then record { pattern = 0; start = at; end = at + length needle } ∷ more
    else more

places_in_range :
    (needle : List ℕ) (total n : ℕ) (bs : List ℕ) (at : ℕ)
    → 0 < n
    → All
        (λ (f : LiteralMatch). (f.pattern < n) × (f.start ≤ f.end) × (f.end ≤ total))
        (places needle total bs at)
places_in_range needle total n [] at h = tt
places_in_range needle total n (b ∷ bs) at h =
    if_both (All (λ (f : LiteralMatch). (f.pattern < n) × (f.start ≤ f.end) × (f.end ≤ total)))
      (starts_with needle (b ∷ bs) && leb (at + length needle) total)
      (λ t. ((h, omega arith, ground (arith, t)), places_in_range needle total n bs (at + 1) h))
      (λ _. places_in_range needle total n bs (at + 1) h)

build_one :
    (needles automaton : List (List ℕ))
    → (if is_empty needles then none else some needles) ≡ some automaton
    → 0 < length needles
build_one [] automaton e = ground arith
build_one (needle ∷ needles) automaton e = omega arith

-- It searches for one literal, and knows no regular expression.
abbrev matchers : Matchers
matchers = record {
  Automaton = List (List ℕ);
  build = λ needles. if is_empty needles then none else some needles;
  find_overlapping_iter = λ needles bytes. places (first needles) (length bytes) bytes 0;
  Regex = ℕ;
  new_regex = λ pattern. none;
  find_iter = λ regex bytes. [];
  literals_in_range = λ needles automaton bytes e.
      places_in_range (first automaton) (length bytes) (length needles) bytes 0
        (build_one needles automaton e);
  regex_in_range = λ regex bytes. tt;
}
  where
    first : List (List ℕ) → List ℕ
    first [] = []
    first (needle ∷ needles) = needle

abbrev config : PatternEngineConfig matchers
config = record {
  enabled = true;
  set = record {
    patterns = record { id = codes "p"; name = codes "ab"; kind = Set.PatternKind.substring } ∷ [];
    literal_indices = 0 ∷ [];
    literal_automaton = some (codes "ab" ∷ []);
    max_literal_len = 2;
  };
  max_matches_per_stream = 1;
  max_total_matches = 5;
  regex_window_bytes = 0;
}

abbrev engine : PatternEngine matchers (λ bytes. bytes)
engine = Engine.new matchers (λ bytes. bytes) config

abbrev key : FlowKey
key = record {
  protocol = tcp;
  a = record { addr = v4 (10 ∷ 0 ∷ 0 ∷ 1 ∷ []); port = 9 };
  b = record { addr = v4 (10 ∷ 0 ∷ 0 ∷ 1 ∷ []); port = 80 };
}

abbrev content : StreamContent
content = record (Store.new disabled) {
  streams =
      (
        key,
        record {
          id = 5;
          last_seen_us = 0;
          directions = record {
            first = record {
              next_offset = 5;
              stored_bytes = 5;
              segments =
                  record {
                    logical_start = 0;
                    sequence_start = none;
                    observed_us = 0;
                    bytes = codes "xabab";
                  }
                  ∷ [];
            };
            second = empty_content;
          };
          truncated = false;
        },
      )
      ∷ [];
}

abbrev update : StreamContentUpdate
update = record {
  stream_id = 5;
  key = key;
  ranges =
      record {
        stream_id = 5;
        direction = a_to_b;
        logical_start = 0;
        logical_end = 5;
        sequence_start = none;
        sequence_end = none;
        stored_bytes = 5;
      }
      ∷ [];
  observed_bytes = 5;
  stored_bytes_after = 5;
}

engine-IsValid : IsValid matchers (λ bytes. bytes) engine
unfolding Engine.new
engine-IsValid = record { in_total = omega arith; in_stream = tt; added_up = refl }

-- Both places are found, one is reported, as many as the limit allows.
reports_one :
    ((scan_update matchers (λ bytes. bytes) content update engine).stats.pattern_matches ≡ 1)
    × ((scan_update matchers (λ bytes. bytes) content update engine).stats.pattern_dropped_matches
        ≡ 1)
unfolding scan_update Engine.new FlowKey-discrete ℕ_discrete starts_with
reports_one = (refl, refl)

scan_update-IsValid_example :
    IsValid matchers (λ bytes. bytes) (scan_update matchers (λ bytes. bytes) content update engine)
    × (length (scan_update matchers (λ bytes. bytes) content update engine).events + 0
        ≤ 0 + (scan_update matchers (λ bytes. bytes) content update engine).stats.pattern_matches)
unfolding Engine.new
scan_update-IsValid_example =
    scan_update-IsValid matchers (λ bytes. bytes) engine content update (omega arith) (omega arith)
      engine-IsValid

abbrev definitions : List PatternDefinition
definitions =
    record {
      id = codes "p";
      name = codes "ab";
      kind = PatternDefinitionKind.substring (codes "ab");
    }
    ∷ []

compiles : Set.compile matchers definitions 1 5 0 ≡ Set.ok engine.config
unfolding Set.compile Engine.new
compiles = refl

engine-calm : engine.panicked ≡ false
unfolding Engine.new
engine-calm = refl

scan_update-panicked_example :
    (scan_update matchers (λ bytes. bytes) content update engine).panicked ≡ false
scan_update-panicked_example =
    scan_update-panicked matchers (λ bytes. bytes) definitions 1 5 0 engine content update compiles
      engine-calm
