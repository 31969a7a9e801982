-- ===== src/Flow/Direction.antt =====
-- src/flow/mod.rs: what one direction of a TCP connection does with a segment
-- (`TcpDirectionState::observe`). A method that takes `&mut self` and `&mut stats` returns both.
pub mod Branches
pub mod Reassembly
pub mod Delivery
pub mod Bounds
use rustmate.Base.{
  ℕ, ◌-◌, Bool, true, false, ◌||◌, Option, none, some, List, [], ◌==◌, if◌then◌else◌, not,
  wrapping_add, saturating_add, length,
}
use rustmate.Packet.Segment.{TcpSegment, sequence_span}
use rustmate.Flow.Seq.{seq_eq, seq_before, seq_after}
use rustmate.Flow.Chunk.{FlowDirection, StreamChunk, current_segment, stream_chunk_bytes}
use rustmate.Flow.Payload.{push_current_stream_chunk, push_trimmed_current_stream_chunk}
use rustmate.Flow.Config.{FlowTableConfig}
use rustmate.Flow.Stats.{FlowTableStats}
use rustmate.Flow.Buffer.{
  TcpDirectionState, BufferOutcome, buffered, duplicate, dropped, Consuming,
  consume_contiguous_buffer, buffer_out_of_order,
}

pub data TcpSequenceStatus : Type 0 where
  no_sequence init in_order out_of_order_buffered out_of_order_dropped : TcpSequenceStatus
  gap_filled retransmission overlap reset fin : TcpSequenceStatus

pub record TcpObservation : Type 0 where
  pub sequence_number : ℕ
  pub next_sequence : ℕ
  pub acknowledgment_number : ℕ
  pub payload_len : ℕ
  pub status : TcpSequenceStatus
  pub buffered_segments : ℕ
  pub buffered_bytes : ℕ
  pub stream_chunks : List StreamChunk

-- What `observe` leaves behind: the direction, the counters and its result.
pub record Observed : Type 0 where
  pub state : TcpDirectionState
  pub stats : FlowTableStats
  pub observation : TcpObservation

-- The result is built from the state that the branch leaves.
unfoldable pub observation :
    TcpSegment
    → TcpSequenceStatus
    → List StreamChunk
    → TcpDirectionState
    → FlowTableStats
    → Observed
observation segment status stream_chunks state stats = record {
  state = state;
  stats = stats;
  observation = record {
    sequence_number = segment.sequence_number;
    next_sequence = elim state.next_seq [ none ↦ segment.sequence_number | some next ↦ next ];
    acknowledgment_number = segment.acknowledgment_number;
    payload_len = segment.payload_len;
    status = status;
    buffered_segments = length state.buffered;
    buffered_bytes = state.buffered_bytes;
    stream_chunks = stream_chunks;
  };
}

-- The counters and flags that every segment updates.
unfoldable pub count_segment : TcpSegment → TcpDirectionState → TcpDirectionState
count_segment segment state = record state {
  packets = saturating_add state.packets 1;
  payload_bytes = saturating_add state.payload_bytes segment.payload_len;
  syn_seen = state.syn_seen || segment.flags.syn;
  fin_seen = state.fin_seen || segment.flags.fin;
  rst_seen = state.rst_seen || segment.flags.rst;
}

unfoldable pub raise_highest : ℕ → TcpDirectionState → TcpDirectionState
unfolding seq_after
raise_highest end_ state = record state {
  highest_seq = some (elim state.highest_seq [
    | none ↦ end_
    | some highest ↦ if seq_after end_ highest then end_ else highest
  ]);
}

-- The first segment with a span: the stream begins there.
unfoldable pub observe_init :
    FlowDirection → TcpSegment → List ℕ → ℕ → FlowTableStats → TcpDirectionState → Observed
unfolding observation push_current_stream_chunk consume_contiguous_buffer
observe_init direction segment payload end_ stats state =
    let started : TcpDirectionState = record state {
      initial_seq = some segment.sequence_number;
      next_seq = some end_;
    } in
    let counted : FlowTableStats =
      if not segment.flags.syn
      then record stats { tcp_midstream_starts = saturating_add stats.tcp_midstream_starts 1 }
      else stats in
    let chunks = push_current_stream_chunk [] direction segment payload current_segment in
    let c = consume_contiguous_buffer started direction chunks in
    observation segment init c.stream_chunks c.state counted

-- The segment starts at the expected sequence number.
unfoldable pub observe_in_order :
    FlowDirection → TcpSegment → List ℕ → ℕ → FlowTableStats → TcpDirectionState → Observed
unfolding observation push_current_stream_chunk consume_contiguous_buffer
observe_in_order direction segment payload end_ stats state =
    let chunks = push_current_stream_chunk [] direction segment payload current_segment in
    let c = consume_contiguous_buffer (record state { next_seq = some end_ }) direction chunks in
    let status : TcpSequenceStatus =
      if c.advanced then gap_filled else if segment.flags.fin then fin else in_order in
    observation segment status c.stream_chunks c.state stats

-- The segment starts before the expected sequence number and ends after it.
unfoldable pub observe_overlap :
    FlowDirection → TcpSegment → List ℕ → ℕ → ℕ → FlowTableStats → TcpDirectionState → Observed
unfolding observation push_trimmed_current_stream_chunk consume_contiguous_buffer stream_chunk_bytes
observe_overlap direction segment payload end_ expected stats state =
    let chunks = push_trimmed_current_stream_chunk [] direction segment payload expected in
    let emitted_bytes = stream_chunk_bytes chunks - stream_chunk_bytes [] in
    let counted : FlowTableStats = record stats {
      tcp_overlaps = saturating_add stats.tcp_overlaps 1;
      tcp_overlap_trimmed_bytes =
          saturating_add stats.tcp_overlap_trimmed_bytes (length payload - emitted_bytes);
    } in
    let advanced : TcpDirectionState = record state {
      overlaps = saturating_add state.overlaps 1;
      next_seq = some end_;
    } in
    let c = consume_contiguous_buffer advanced direction chunks in
    observation segment overlap c.stream_chunks c.state counted

-- The segment is not after the expected sequence number, or it is in the buffer already.
unfoldable pub observe_retransmission :
    TcpSegment → List ℕ → FlowTableStats → TcpDirectionState → Observed
unfolding observation
observe_retransmission segment payload stats state =
    observation segment retransmission []
      (record state { retransmissions = saturating_add state.retransmissions 1 })
      (record stats {
        tcp_retransmissions = saturating_add stats.tcp_retransmissions 1;
        tcp_retransmitted_bytes = saturating_add stats.tcp_retransmitted_bytes (length payload);
      })

-- The segment starts after the expected sequence number.
unfoldable pub observe_buffered :
    TcpSegment → List ℕ → FlowTableStats → TcpDirectionState × BufferOutcome → Observed
unfolding observation observe_retransmission
observe_buffered segment payload stats (state, buffered) =
    observation segment out_of_order_buffered []
      (record state {
        gaps = saturating_add state.gaps 1;
        out_of_order_buffered = saturating_add state.out_of_order_buffered 1;
      })
      (record stats {
        tcp_gaps = saturating_add stats.tcp_gaps 1;
        tcp_out_of_order_buffered = saturating_add stats.tcp_out_of_order_buffered 1;
        tcp_out_of_order_buffered_bytes =
            saturating_add stats.tcp_out_of_order_buffered_bytes (length payload);
      })
observe_buffered segment payload stats (state, duplicate) =
    observe_retransmission segment payload stats state
observe_buffered segment payload stats (state, dropped) =
    observation segment out_of_order_dropped []
      (record state {
        gaps = saturating_add state.gaps 1;
        out_of_order_dropped = saturating_add state.out_of_order_dropped 1;
      })
      (record stats {
        tcp_gaps = saturating_add stats.tcp_gaps 1;
        tcp_out_of_order_dropped = saturating_add stats.tcp_out_of_order_dropped 1;
        tcp_out_of_order_dropped_bytes =
            saturating_add stats.tcp_out_of_order_dropped_bytes (length payload);
      })

-- A segment from `start` to `end_` where the stream is at `expected`.
unfoldable pub observe_at :
    FlowDirection
    → TcpSegment
    → List ℕ
    → FlowTableConfig
    → ℕ
    → ℕ
    → ℕ
    → FlowTableStats
    → TcpDirectionState
    → Observed
unfolding seq_eq seq_before seq_after observe_in_order observe_overlap observe_retransmission
    observe_buffered buffer_out_of_order
observe_at direction segment payload config flow_buffered_bytes end_ expected stats state =
    let start = segment.sequence_number in
    if seq_eq start expected
    then observe_in_order direction segment payload end_ stats state
    else if seq_before start expected
    then (if seq_after end_ expected
        then observe_overlap direction segment payload end_ expected stats state
        else observe_retransmission segment payload stats state)
    else observe_buffered segment payload stats
        (buffer_out_of_order state segment payload config flow_buffered_bytes)

-- The segment takes up sequence space, from its sequence number to `end_`; `next` is `next_seq`.
unfoldable pub observe_span :
    FlowDirection
    → TcpSegment
    → List ℕ
    → FlowTableConfig
    → ℕ
    → ℕ
    → Option ℕ
    → FlowTableStats
    → TcpDirectionState
    → Observed
unfolding observe_init observe_at
observe_span direction segment payload config flow_buffered_bytes end_ none stats state =
    observe_init direction segment payload end_ stats state
observe_span direction segment payload config flow_buffered_bytes end_ (some expected) stats state =
    observe_at direction segment payload config flow_buffered_bytes end_ expected stats state

unfoldable pub observe :
    FlowDirection
    → TcpSegment
    → List ℕ
    → FlowTableConfig
    → ℕ
    → FlowTableStats
    → TcpDirectionState
    → Observed
unfolding observation count_segment sequence_span raise_highest observe_span
observe direction segment payload config flow_buffered_bytes stats state =
    let counted = count_segment segment state in
    let end_ = wrapping_add segment.sequence_number (sequence_span segment) in
    if segment.flags.rst
    then observation segment reset [] counted stats
    else if sequence_span segment == 0
    then observation segment no_sequence [] counted stats
    else observe_span direction segment payload config flow_buffered_bytes end_ state.next_seq stats
        (raise_highest end_ counted)
