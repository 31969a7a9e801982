-- ===== src/Content/Direction.antt =====
-- src/stream_content.rs: the stored content of one direction of a stream (`DirectionContent`).
pub mod History
use rustmate.Base.{
  ℕ, suc, ◌+◌, ◌-◌, Bool, true, false, not, Option, none, some, List, [], ◌∷◌, ◌++◌, ltb, leb, ◌==◌,
  if◌then◌else◌, min, max, wrapping_add, as_u32, saturating_add, length, take, drop, is_empty, loop,
}
use rustmate.Flow.Chunk.{FlowDirection}

pub record ContentSegment : Type 0 where
  pub logical_start : ℕ
  pub sequence_start : Option ℕ
  pub observed_us : ℕ
  pub bytes : List ℕ

pub record DirectionContent : Type 0 where
  pub next_offset : ℕ
  pub stored_bytes : ℕ
  pub segments : List ContentSegment

pub record StreamContentRange : Type 0 where
  pub stream_id : ℕ
  pub direction : FlowDirection
  pub logical_start : ℕ
  pub logical_end : ℕ
  pub sequence_start : Option ℕ
  pub sequence_end : Option ℕ
  pub stored_bytes : ℕ

pub record StreamContentWindow : Type 0 where
  pub stream_id : ℕ
  pub direction : FlowDirection
  pub logical_start : ℕ
  pub bytes : List ℕ

pub record AppendStats : Type 0 where
  pub observed_bytes : ℕ
  pub stored_bytes : ℕ
  pub merged_segments : ℕ

pub record DirectionAppend : Type 0 where
  pub ranges : List StreamContentRange
  pub stats : AppendStats

abbrev pub empty_content : DirectionContent
empty_content = record { next_offset = 0; stored_bytes = 0; segments = [] }

-- `sequence.wrapping_add(n as u32)` under `Option::map`.
abbrev pub advance : Option ℕ → ℕ → Option ℕ
advance none n = none
advance (some sequence) n = some (wrapping_add sequence (as_u32 n))

unfoldable pub logical_end : ContentSegment → ℕ
logical_end s = saturating_add s.logical_start (length s.bytes)

unfoldable pub sequence_end : ContentSegment → Option ℕ
sequence_end s = advance s.sequence_start (length s.bytes)

-- The checks of `try_merge_last` on the last segment; `last_end` is its `sequence_end`.
unfoldable pub merge_segment :
    Option ℕ → Option ℕ → List ℕ → ℕ → ContentSegment → Option ContentSegment
merge_segment none last_end bytes max_segment_bytes last = none
merge_segment (some sequence_start) none bytes max_segment_bytes last = none
merge_segment (some sequence_start) (some last_end) bytes max_segment_bytes last =
    if not (last_end == sequence_start)
    then none
    else if ltb max_segment_bytes (saturating_add (length last.bytes) (length bytes))
    then none
    else some (record last { bytes = last.bytes ++ bytes })

-- `none` where it returns false.
unfoldable pub try_merge_last :
    Option ℕ → List ℕ → ℕ → List ContentSegment → Option (List ContentSegment)
unfolding merge_segment sequence_end
try_merge_last sequence_start bytes max_segment_bytes [] = none
try_merge_last sequence_start bytes max_segment_bytes (last ∷ []) =
    elim (merge_segment sequence_start (sequence_end last) bytes max_segment_bytes last) [
      | none ↦ none
      | some merged ↦ some (merged ∷ [])
    ]
try_merge_last sequence_start bytes max_segment_bytes (first ∷ second ∷ rest) =
    elim (try_merge_last sequence_start bytes max_segment_bytes (second ∷ rest)) [
      | none ↦ none
      | some merged ↦ some (first ∷ merged)
    ]

-- The loop of `append` works on these.
pub record Appending : Type 0 where
  pub content : DirectionContent
  pub append : DirectionAppend
  pub consumed : ℕ

-- The new segments, and by how much the count of merges grows.
unfoldable pub store_slice :
    Option ℕ → List ℕ → ℕ → ℕ → ℕ → List ContentSegment → List ContentSegment × ℕ
unfolding try_merge_last
store_slice sequence_start slice logical_start observed_us max_segment_bytes segments =
    elim (try_merge_last sequence_start slice max_segment_bytes segments) [
      | some merged ↦ (merged, 1)
      | none ↦ (
        segments
            ++ record {
              logical_start = logical_start;
              sequence_start = sequence_start;
              observed_us = observed_us;
              bytes = slice;
            }
              ∷ [],
        0,
      )
    ]

-- The body of the loop.
unfoldable pub append_slice : ℕ → FlowDirection → List ℕ → Option ℕ → ℕ → ℕ → Appending → Appending
unfolding store_slice
append_slice stream_id direction bytes sequence_start observed_us max_segment_bytes a =
    let taken = min (length bytes - a.consumed) max_segment_bytes in
    let slice = take taken (drop a.consumed bytes) in
    let logical_start = a.content.next_offset in
    let logical_end = saturating_add logical_start taken in
    let segment_start = advance sequence_start a.consumed in
    let (segments, merges) =
      store_slice segment_start slice logical_start observed_us max_segment_bytes
        a.content.segments in
    record {
      content = record {
        next_offset = logical_end;
        stored_bytes = saturating_add a.content.stored_bytes taken;
        segments = segments;
      };
      append = record {
        ranges =
            a.append.ranges
            ++ record {
              stream_id = stream_id;
              direction = direction;
              logical_start = logical_start;
              logical_end = logical_end;
              sequence_start = segment_start;
              sequence_end = advance segment_start taken;
              stored_bytes = taken;
            }
              ∷ [];
        stats = record {
          observed_bytes = saturating_add a.append.stats.observed_bytes taken;
          stored_bytes = saturating_add a.append.stats.stored_bytes taken;
          merged_segments = saturating_add a.append.stats.merged_segments merges;
        };
      };
      consumed = a.consumed + taken;
    }

-- `while consumed < bytes.len()`: `none` where all bytes are consumed.
unfoldable pub append_step :
    ℕ → FlowDirection → List ℕ → Option ℕ → ℕ → ℕ → Appending → Option Appending
unfolding append_slice
append_step stream_id direction bytes sequence_start observed_us max_segment_bytes a =
    if ltb a.consumed (length bytes)
    then some
        (append_slice stream_id direction bytes sequence_start observed_us max_segment_bytes a)
    else none

-- Each round consumes a byte, since `normalized` leaves `max_segment_bytes` at least 1.
unfoldable pub append : ℕ → FlowDirection → List ℕ → Option ℕ → ℕ → ℕ → DirectionContent → Appending
unfolding append_step loop
append stream_id direction bytes sequence_start observed_us max_segment_bytes content =
    loop (append_step stream_id direction bytes sequence_start observed_us max_segment_bytes)
      (suc (length bytes))
      (record {
        content = content;
        append = record {
          ranges = [];
          stats = record { observed_bytes = 0; stored_bytes = 0; merged_segments = 0 };
        };
        consumed = 0;
      })

pub record Trimmed : Type 0 where
  pub segments : List ContentSegment
  pub stored_bytes : ℕ
  pub trimmed : ℕ

-- What is left of the first segment without its first `n` bytes.
unfoldable pub trim_segment : ℕ → ContentSegment → ContentSegment
trim_segment n first = record {
  logical_start = saturating_add first.logical_start n;
  sequence_start = advance first.sequence_start n;
  observed_us = first.observed_us;
  bytes = drop n first.bytes;
}

-- The loop of `trim_oldest`: each round but the last removes the first segment.
unfoldable pub trim_rounds : ℕ → ℕ → ℕ → List ContentSegment → Trimmed
unfolding trim_segment
trim_rounds remaining trimmed stored [] = record {
  segments = [];
  stored_bytes = stored;
  trimmed = trimmed;
}
trim_rounds remaining trimmed stored (first ∷ rest) =
    let taken = min remaining (length first.bytes) in
    let further =
      trim_rounds (remaining - taken) (saturating_add trimmed taken) (stored - taken) rest in
    if remaining == 0
    then record { segments = first ∷ rest; stored_bytes = stored; trimmed = trimmed }
    else if taken == length first.bytes
    then further
    else record {
      segments = trim_segment taken first ∷ rest;
      stored_bytes = stored - taken;
      trimmed = saturating_add trimmed taken;
    }

unfoldable pub trim_oldest : ℕ → DirectionContent → DirectionContent × ℕ
unfolding trim_rounds
trim_oldest n content =
    let t = trim_rounds n 0 content.stored_bytes content.segments in
    (record content { segments = t.segments; stored_bytes = t.stored_bytes }, t.trimmed)

unfoldable pub segment_bytes : List ContentSegment → List ℕ
segment_bytes [] = []
segment_bytes (s ∷ rest) = s.bytes ++ segment_bytes rest

unfoldable pub bytes : DirectionContent → List ℕ
unfolding segment_bytes
bytes content = segment_bytes content.segments
