-- ===== src/Slice/Highlight.antt =====
-- src/stream_slice.rs: the matches of patterns within the segments of a slice (`highlights`), with
-- the types that src/stream_view.rs has for a match.
use rustmate.Base.{
  ℕ, ◌+◌, ◌-◌, Bool, ◌&&◌, ◌||◌, Option, List, [], ◌∷◌, ◌++◌, leb, ltb, ◌==◌, if◌then◌else◌, min,
  max, saturating_add, length, take,
}
use rustmate.Flow.Chunk.{FlowDirection}
use rustmate.Pattern.Engine.{same_direction}
use rustmate.Slice.Segment.{StreamSliceSegment}

pub data StreamPatternType : Type 0 where
  substring regex binary unknown : StreamPatternType

-- Without `stream_id_hex`, the id in hexadecimal digits.
pub record StreamPatternMatch : Type 0 where
  pub stream_id : ℕ
  pub pattern_id : List ℕ
  pub pattern_name : List ℕ
  pub pattern_type : StreamPatternType
  pub direction : FlowDirection
  pub logical_start : ℕ
  pub logical_end : ℕ
  pub match_len : ℕ
  pub match_text : Option (List ℕ)

pub record StreamSliceHighlight : Type 0 where
  pub stream_id : ℕ
  pub pattern_id : List ℕ
  pub pattern_name : List ℕ
  pub pattern_type : StreamPatternType
  pub direction : FlowDirection
  pub logical_start : ℕ
  pub logical_end : ℕ
  pub segment_index : ℕ
  pub segment_start : ℕ
  pub segment_end : ℕ

-- Whether one highlight's key is no greater than another's.
unfoldable pub key_le : StreamSliceHighlight → StreamSliceHighlight → Bool
key_le a b =
    ltb a.logical_start b.logical_start
    || a.logical_start == b.logical_start
      && (ltb a.logical_end b.logical_end
          || a.logical_end == b.logical_end && leb a.segment_index b.segment_index)

-- `sort_by_key`, which leaves equal keys in their order.
unfoldable pub insert_sorted :
    StreamSliceHighlight → List StreamSliceHighlight → List StreamSliceHighlight
unfolding key_le
insert_sorted h [] = h ∷ []
insert_sorted h (x ∷ xs) =
    let rest = insert_sorted h xs in if key_le h x then h ∷ x ∷ xs else x ∷ rest

unfoldable pub sorted : List StreamSliceHighlight → List StreamSliceHighlight
unfolding insert_sorted
sorted [] = []
sorted (h ∷ hs) = insert_sorted h (sorted hs)

module _ (direction : FlowDirection) where
  -- The highlights of a match in the segments, the first of which has this index.
  unfoldable pub match_highlights :
      ℕ → StreamPatternMatch → ℕ → List StreamSliceSegment → List StreamSliceHighlight
  match_highlights stream_id pattern_match segment_index [] = []
  match_highlights stream_id pattern_match segment_index (segment ∷ segments) =
      let start = max pattern_match.logical_start segment.logical_start in
      let end = min pattern_match.logical_end segment.logical_end in
      let rest = match_highlights stream_id pattern_match (segment_index + 1) segments in
      if leb end start
      then rest
      else record {
        stream_id = stream_id;
        pattern_id = pattern_match.pattern_id;
        pattern_name = pattern_match.pattern_name;
        pattern_type = pattern_match.pattern_type;
        direction = direction;
        logical_start = start;
        logical_end = end;
        segment_index = segment_index;
        segment_start = start - segment.logical_start;
        segment_end = end - segment.logical_start;
      }
        ∷ rest

  unfoldable pub all_highlights :
      ℕ → List StreamPatternMatch → List StreamSliceSegment → List StreamSliceHighlight
  unfolding match_highlights same_direction
  all_highlights stream_id [] segments = []
  all_highlights stream_id (pattern_match ∷ matches) segments =
      let rest = all_highlights stream_id matches segments in
      if same_direction pattern_match.direction direction
      then match_highlights stream_id pattern_match 0 segments ++ rest
      else rest

  count_segments : StreamPatternMatch → List StreamSliceSegment → ℕ → ℕ
  count_segments pattern_match [] count = count
  count_segments pattern_match (segment ∷ segments) count = count_segments pattern_match segments (
      if ltb pattern_match.logical_start segment.logical_end
        && ltb segment.logical_start pattern_match.logical_end
      then saturating_add count 1
      else count)

  unfoldable pub count_from : List StreamPatternMatch → List StreamSliceSegment → ℕ → ℕ
  unfolding count_segments same_direction
  count_from [] segments count = count
  count_from (pattern_match ∷ matches) segments count = count_from matches segments (
      if same_direction pattern_match.direction direction
      then count_segments pattern_match segments count
      else count)

  unfoldable pub count_overlapping_matches : List StreamPatternMatch → List StreamSliceSegment → ℕ
  unfolding count_from
  count_overlapping_matches matches segments = count_from matches segments 0

  -- The first in the order of their keys, and how many are left out.
  unfoldable pub highlights :
      ℕ → ℕ → List StreamPatternMatch → List StreamSliceSegment → List StreamSliceHighlight × ℕ
  unfolding all_highlights sorted count_overlapping_matches
  highlights max_highlights stream_id matches segments =
      if max_highlights == 0 then ([], count_overlapping_matches matches segments) else (
        take max_highlights (sorted (all_highlights stream_id matches segments)),
        length (all_highlights stream_id matches segments) - max_highlights,
      )
