-- ===== src/Flow/Payload.antt =====
-- src/flow/mod.rs: how a segment's payload becomes a stream chunk, whole or cut at the sequence number
-- that reassembly expects next.
pub mod Cut
use rustmate.Base.{
  ℕ, ◌-◌, Bool, ◌||◌, Option, none, some, List, [], ◌∷◌, ◌++◌, if◌then◌else◌, min, wrapping_add,
  wrapping_sub, as_u32, length, drop, is_empty,
}
use rustmate.Packet.Segment.{TcpSegment, payload_sequence_start, payload_sequence_end}
use rustmate.Flow.Seq.{seq_eq, seq_before}
use rustmate.Flow.Chunk.{
  FlowDirection, StreamChunk, StreamChunkSource, borrowed, owned, buffered_segment, overlap_trimmed,
}

pub record BufferedSegment : Type 0 where
  pub start : ℕ
  pub end : ℕ
  pub payload_start : ℕ
  pub bytes : List ℕ

-- The payload behind `expected`, where `start` is the sequence number of its first byte; both
-- `into_stream_chunk` and `push_trimmed_current_stream_chunk` cut it this way.
unfoldable pub trim_payload : ℕ → List ℕ → ℕ → ℕ × List ℕ
unfolding seq_before
trim_payload payload_start bytes expected =
    if seq_before payload_start expected
    then (expected, drop (min (wrapping_sub expected payload_start) (length bytes)) bytes)
    else (payload_start, bytes)

unfoldable pub push_current_stream_chunk :
    List StreamChunk → FlowDirection → TcpSegment → List ℕ → StreamChunkSource → List StreamChunk
unfolding payload_sequence_start
push_current_stream_chunk chunks direction segment payload source =
    if is_empty payload
    then chunks
    else chunks
      ++ record {
        direction = direction;
        sequence_start = payload_sequence_start segment;
        sequence_end = wrapping_add (payload_sequence_start segment) (as_u32 (length payload));
        bytes = borrowed payload;
        source = source;
      }
        ∷ []

unfoldable pub push_trimmed_current_stream_chunk :
    List StreamChunk → FlowDirection → TcpSegment → List ℕ → ℕ → List StreamChunk
unfolding trim_payload seq_before seq_eq payload_sequence_start payload_sequence_end
push_trimmed_current_stream_chunk chunks direction segment payload expected =
    let payload_end = payload_sequence_end segment in
    let trimmed = trim_payload (payload_sequence_start segment) payload expected in
    if is_empty payload
    then chunks
    else if seq_before payload_end expected || seq_eq payload_end expected
    then chunks
    else if is_empty trimmed.1
    then chunks
    else chunks
      ++ record {
        direction = direction;
        sequence_start = trimmed.0;
        sequence_end = wrapping_add trimmed.0 (as_u32 (length trimmed.1));
        bytes = borrowed trimmed.1;
        source = overlap_trimmed;
      }
        ∷ []

unfoldable pub into_stream_chunk : BufferedSegment → ℕ → FlowDirection → Option StreamChunk
unfolding trim_payload seq_before seq_eq
into_stream_chunk segment expected direction =
    let payload_end = wrapping_add segment.payload_start (as_u32 (length segment.bytes)) in
    let trimmed = trim_payload segment.payload_start segment.bytes expected in
    if is_empty segment.bytes
    then none
    else if seq_before payload_end expected || seq_eq payload_end expected
    then none
    else if is_empty trimmed.1
    then none
    else some (record {
      direction = direction;
      sequence_start = trimmed.0;
      sequence_end = wrapping_add trimmed.0 (as_u32 (length trimmed.1));
      bytes = owned trimmed.1;
      source = buffered_segment;
    })
