-- ===== src/Flow/Buffer.antt =====
-- src/flow/mod.rs: the state of one direction of a TCP connection (`TcpDirectionState`) and its
-- bounded buffer of out-of-order segments.
pub mod Insert
pub mod Consume
pub mod Follow
use rustmate.Base.{
  ℕ, suc, ◌-◌, Bool, true, false, ◌&&◌, ◌||◌, Option, none, some, List, [], ◌∷◌, ◌++◌, ltb, leb,
  ◌==◌, if◌then◌else◌, wrapping_add, saturating_add, length, any, position, remove, insert_at, loop,
}
use rustmate.Packet.Segment.{TcpSegment, sequence_span, payload_sequence_start}
use rustmate.Flow.Seq.{seq_eq, seq_before, seq_after}
use rustmate.Flow.Chunk.{FlowDirection, StreamChunk}
use rustmate.Flow.Payload.{BufferedSegment, into_stream_chunk}
use rustmate.Flow.Config.{FlowTableConfig}

pub record TcpDirectionState : Type 0 where
  pub initial_seq : Option ℕ
  pub next_seq : Option ℕ
  pub highest_seq : Option ℕ
  pub packets : ℕ
  pub payload_bytes : ℕ
  pub gaps : ℕ
  pub retransmissions : ℕ
  pub overlaps : ℕ
  pub out_of_order_buffered : ℕ
  pub out_of_order_dropped : ℕ
  pub buffered_bytes : ℕ
  pub fin_seen : Bool
  pub rst_seen : Bool
  pub syn_seen : Bool
  pub buffered : List BufferedSegment

pub data BufferOutcome : Type 0 where
  buffered duplicate dropped : BufferOutcome

abbrev pub default : TcpDirectionState
default = record {
  initial_seq = none;
  next_seq = none;
  highest_seq = none;
  packets = 0;
  payload_bytes = 0;
  gaps = 0;
  retransmissions = 0;
  overlaps = 0;
  out_of_order_buffered = 0;
  out_of_order_dropped = 0;
  buffered_bytes = 0;
  fin_seen = false;
  rst_seen = false;
  syn_seen = false;
  buffered = [];
}

-- A buffered segment that starts at `expected`, or straddles it.
unfoldable pub continues : ℕ → BufferedSegment → Bool
unfolding seq_eq seq_before seq_after
continues expected segment =
    seq_eq segment.start expected
    || (seq_before segment.start expected && seq_after segment.end expected)

-- The loop of `consume_contiguous_buffer` works on these.
pub record Consuming : Type 0 where
  pub state : TcpDirectionState
  pub stream_chunks : List StreamChunk
  pub advanced : Bool

-- The round for a `segment` that was taken out of the buffer, which leaves `rest`.
unfoldable pub consume_segment :
    FlowDirection → ℕ → BufferedSegment → List BufferedSegment → Consuming → Consuming
unfolding into_stream_chunk seq_after
consume_segment direction expected segment rest c =
    let taken : TcpDirectionState = record c.state {
      buffered = rest;
      buffered_bytes = c.state.buffered_bytes - length segment.bytes;
    } in
    let chunks : List StreamChunk = elim (into_stream_chunk segment expected direction) [
      | some chunk ↦ c.stream_chunks ++ chunk ∷ []
      | none ↦ c.stream_chunks
    ] in
    if seq_after segment.end expected
    then record {
      state = record taken { next_seq = some segment.end };
      stream_chunks = chunks;
      advanced = true;
    }
    else record { state = taken; stream_chunks = chunks; advanced = c.advanced }

-- One round of the loop: `none` is its `return advanced`.
unfoldable pub consume_step : FlowDirection → Consuming → Option Consuming
unfolding consume_segment continues position remove
consume_step direction c = elim c.state.next_seq [
  | none ↦ none
  | some expected ↦ elim (position (continues expected) c.state.buffered) [
    | none ↦ none
    | some index ↦ elim (remove index c.state.buffered) [
      | none ↦ none
      | some (segment, rest) ↦ some (consume_segment direction expected segment rest c)
    ]
  ]
]

-- Each round takes one segment out of the buffer, so one more round than it has segments ends it.
unfoldable pub consume_contiguous_buffer :
    TcpDirectionState → FlowDirection → List StreamChunk → Consuming
unfolding consume_step loop
consume_contiguous_buffer state direction stream_chunks =
    loop (consume_step direction) (suc (length state.buffered))
      (record { state = state; stream_chunks = stream_chunks; advanced = false })

unfoldable pub buffer_out_of_order :
    TcpDirectionState
    → TcpSegment
    → List ℕ
    → FlowTableConfig
    → ℕ
    → TcpDirectionState × BufferOutcome
unfolding sequence_span payload_sequence_start seq_before any position insert_at
buffer_out_of_order state segment payload config flow_buffered_bytes =
    let start = segment.sequence_number in
    let end_ = wrapping_add start (sequence_span segment) in
    let insert_index : ℕ = elim (position (λ s. seq_before start s.start) state.buffered) [
      | some i ↦ i
      | none ↦ length state.buffered
    ] in
    if any (λ s. s.start == start && s.end == end_) state.buffered
    then (state, duplicate)
    else if leb config.max_tcp_out_of_order_segments_per_direction (length state.buffered)
    then (state, dropped)
    else if ltb config.max_tcp_buffered_bytes_per_flow
        (saturating_add flow_buffered_bytes (length payload))
    then (state, dropped)
    else (
      record state {
        buffered =
            insert_at insert_index
              (record {
                start = start;
                end = end_;
                payload_start = payload_sequence_start segment;
                bytes = payload;
              })
              state.buffered;
        buffered_bytes = saturating_add state.buffered_bytes (length payload);
      },
      buffered,
    )
