-- ===== src/Content/Record.antt =====
-- src/stream_content.rs: the content of one stream, both directions (`ContentRecord`).
use rustmate.Base.{
  ℕ, suc, ◌+◌, ◌-◌, Bool, true, false, not, ◌&&◌, ◌||◌, Option, none, some, List, [], ◌∷◌, ◌++◌,
  map, ltb, ◌==◌, if◌then◌else◌, saturating_add, length, is_empty, loop,
}
use rustmate.Flow.Chunk.{FlowDirection, a_to_b, b_to_a, StreamChunk, as_slice}
use rustmate.Flow.Tcp.{Directions, at_direction, set_direction}
use rustmate.Flow.Route.{FlowKey, stable_id}
use rustmate.Content.Direction.{
  ContentSegment, DirectionContent, StreamContentRange, AppendStats, empty_content, logical_end,
  sequence_end, append, trim_oldest, bytes,
}

pub record ContentRecord : Type 0 where
  pub id : ℕ
  pub last_seen_us : ℕ
  pub directions : Directions DirectionContent
  pub truncated : Bool

pub record RecordUpdate : Type 0 where
  pub ranges : List StreamContentRange
  pub appended : AppendStats
  pub trimmed_bytes : ℕ
  pub newly_truncated : Bool

abbrev pub no_update : RecordUpdate
no_update = record {
  ranges = [];
  appended = record { observed_bytes = 0; stored_bytes = 0; merged_segments = 0 };
  trimmed_bytes = 0;
  newly_truncated = false;
}

unfoldable pub merge : RecordUpdate → RecordUpdate → RecordUpdate
merge u o = record {
  ranges = u.ranges ++ o.ranges;
  appended = record {
    observed_bytes = saturating_add u.appended.observed_bytes o.appended.observed_bytes;
    stored_bytes = saturating_add u.appended.stored_bytes o.appended.stored_bytes;
    merged_segments = saturating_add u.appended.merged_segments o.appended.merged_segments;
  };
  trimmed_bytes = saturating_add u.trimmed_bytes o.trimmed_bytes;
  newly_truncated = u.newly_truncated || o.newly_truncated;
}

unfoldable pub new : FlowKey → ℕ → ContentRecord
new key now_us = record {
  id = stable_id key;
  last_seen_us = now_us;
  directions = record { first = empty_content; second = empty_content };
  truncated = false;
}

-- The sum of two bounded counts: it does not overflow.
unfoldable pub stored_bytes : ContentRecord → ℕ
stored_bytes r = r.directions.first.stored_bytes + r.directions.second.stored_bytes

unfoldable pub segment_count : ContentRecord → ℕ
segment_count r = length r.directions.first.segments + length r.directions.second.segments

unfoldable pub direction_bytes : FlowDirection → ContentRecord → List ℕ
unfolding bytes
direction_bytes direction r = bytes (at_direction direction r.directions)

-- `ranges` of a direction's segments.
unfoldable pub ranges : ℕ → FlowDirection → DirectionContent → List StreamContentRange
unfolding logical_end sequence_end
ranges stream_id direction content =
    map
      (λ (s : ContentSegment). record {
        stream_id = stream_id;
        direction = direction;
        logical_start = s.logical_start;
        logical_end = logical_end s;
        sequence_start = s.sequence_start;
        sequence_end = sequence_end s;
        stored_bytes = length s.bytes;
      })
      content.segments

unfoldable pub direction_ranges : FlowDirection → ContentRecord → List StreamContentRange
unfolding ranges
direction_ranges direction r = ranges r.id direction (at_direction direction r.directions)

-- The order of the pairs by which `oldest_direction` compares the first segments of both directions.
unfoldable pub second_older : ContentSegment → ContentSegment → Bool
second_older first second =
    ltb second.observed_us first.observed_us
    || (second.observed_us == first.observed_us && ltb second.logical_start first.logical_start)

older_of : List ContentSegment → List ContentSegment → Option FlowDirection
unfolding second_older
older_of [] [] = none
older_of (x ∷ xs) [] = some a_to_b
older_of [] (y ∷ ys) = some b_to_a
older_of (x ∷ xs) (y ∷ ys) = if second_older x y then some b_to_a else some a_to_b

unfoldable pub oldest_direction : ContentRecord → Option FlowDirection
unfolding older_of
oldest_direction r = older_of r.directions.first.segments r.directions.second.segments

-- The loop of `trim_to_limit` works on these; `stopped` is its second `break`.
pub record Trimming : Type 0 where
  pub content : ContentRecord
  pub trimmed : ℕ
  pub stopped : Bool

trim_direction : ℕ → FlowDirection → Trimming → Trimming
unfolding trim_oldest
trim_direction excess direction t =
    let (content, dropped) = trim_oldest excess (at_direction direction t.content.directions) in
    let directions = set_direction direction content t.content.directions in
    if dropped == 0
    then record t { content = record t.content { directions = directions }; stopped = true }
    else record t {
      content = record t.content { directions = directions; truncated = true };
      trimmed = saturating_add t.trimmed dropped;
    }

-- One round: `none` where the loop has ended.
unfoldable pub trim_step : ℕ → Trimming → Option Trimming
unfolding stored_bytes oldest_direction trim_direction
trim_step max_bytes_per_stream t =
    if not t.stopped && ltb max_bytes_per_stream (stored_bytes t.content)
    then elim (oldest_direction t.content) [
      | none ↦ none
      | some direction ↦
          some (trim_direction (stored_bytes t.content - max_bytes_per_stream) direction t)
    ]
    else none

-- Each round but the last takes at least a byte from the content.
unfoldable pub trim_to_limit : ℕ → ContentRecord → Trimming
unfolding trim_step loop stored_bytes
trim_to_limit max_bytes_per_stream r =
    loop (trim_step max_bytes_per_stream) (suc (suc (stored_bytes r)))
      (record { content = r; trimmed = 0; stopped = false })

unfoldable pub observe_payload :
    FlowDirection → List ℕ → Option ℕ → ℕ → ℕ → ℕ → ContentRecord → ContentRecord × RecordUpdate
unfolding append trim_to_limit
observe_payload direction payload sequence_start observed_us max_segment_bytes max_bytes_per_stream
      r =
    let appended =
      append r.id direction payload sequence_start observed_us max_segment_bytes
        (at_direction direction r.directions) in
    let trimmed =
      trim_to_limit max_bytes_per_stream
        (record r { directions = set_direction direction appended.content r.directions }) in
    if is_empty payload then (r, no_update) else (
      trimmed.content,
      record {
        ranges = appended.append.ranges;
        appended = appended.append.stats;
        trimmed_bytes = trimmed.trimmed;
        newly_truncated = not r.truncated && trimmed.content.truncated;
      },
    )

-- The chunks that are still to come, and the update so far.
unfoldable pub observe_chunks_from :
    List StreamChunk → ℕ → ℕ → ℕ → ContentRecord → RecordUpdate → ContentRecord × RecordUpdate
unfolding observe_payload as_slice merge
observe_chunks_from [] observed_us max_segment_bytes max_bytes_per_stream r update = (r, update)
observe_chunks_from (chunk ∷ chunks) observed_us max_segment_bytes max_bytes_per_stream r update =
    let (after, payload_update) =
      observe_payload chunk.direction (as_slice chunk.bytes) (some chunk.sequence_start) observed_us
        max_segment_bytes max_bytes_per_stream r in
    observe_chunks_from chunks observed_us max_segment_bytes max_bytes_per_stream after
      (merge update payload_update)

unfoldable pub observe_chunks :
    List StreamChunk → ℕ → ℕ → ℕ → ContentRecord → ContentRecord × RecordUpdate
unfolding observe_chunks_from
observe_chunks chunks observed_us max_segment_bytes max_bytes_per_stream r =
    observe_chunks_from chunks observed_us max_segment_bytes max_bytes_per_stream r no_update
