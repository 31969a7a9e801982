-- ===== src/Flow/Entry/Keeps.antt =====
-- What observing a segment leaves alone: the table's own counters.
use rustmate.Base.{
  ℕ, ◌≡◌, refl, ◌∙◌, Option, none, some, List, [], ◌∷◌, arith, ◌==◌, if_both, saturating_add,
}
use rustmate.Packet.Segment.{TcpSegment, sequence_span}
use rustmate.Flow.Seq.{seq_eq, seq_before, seq_after}
use rustmate.Flow.Chunk.{
  FlowDirection, StreamChunk, StreamChunkSource, current_segment, buffered_segment, overlap_trimmed,
}
use rustmate.Flow.Config.{FlowTableConfig}
use rustmate.Flow.Stats.{FlowTableStats, observe_stream_chunk_source, observe_stream_chunk_sources}
use rustmate.Flow.Buffer.{TcpDirectionState, BufferOutcome, buffered, duplicate, dropped}
use rustmate.Flow.Direction
use rustmate.Flow.Direction.{
  Observed, TcpObservation, observe_init, observe_in_order, observe_overlap, observe_retransmission,
  observe_buffered, observe_at, observe_span, observation,
}
use rustmate.Flow.Tcp
use rustmate.Flow.Tcp.{
  TcpFlowState, FlowObserved, count_flags, count_chunks, at_direction, set_direction,
  buffered_bytes,
}
use rustmate.Flow.Entry
use rustmate.Flow.Entry.{
  FlowEntry, FlowPacket, EntryObserved, TransportFlowState, tcp_flow, datagram, observe_transport,
  count_packet,
}

pub record Keeps (s s' : FlowTableStats) : Type 0 where
  pub created : s'.created_flows ≡ s.created_flows
  pub evicted : s'.evicted_flows ≡ s.evicted_flows
  pub dropped_new : s'.dropped_new_flows ≡ s.dropped_new_flows

keeps : {s : FlowTableStats} → Keeps s s
keeps = record { created = refl; evicted = refl; dropped_new = refl }

Keeps-then : {s t u : FlowTableStats} → Keeps s t → Keeps t u → Keeps s u
Keeps-then h k = record {
  created = k.created ∙ h.created;
  evicted = k.evicted ∙ h.evicted;
  dropped_new = k.dropped_new ∙ h.dropped_new;
}

module _ (d : FlowDirection) (segment : TcpSegment) (payload : List ℕ) (config : FlowTableConfig)
    (stats : FlowTableStats) where
  abbrev KeptBy : Observed → Type 0
  KeptBy o = Keeps stats o.stats

  init-Keeps :
      (end_ : ℕ) (state : TcpDirectionState)
      → KeptBy (observe_init d segment payload end_ stats state)
  unfolding observe_init
  init-Keeps end_ state = ground arith

  in_order-Keeps :
      (end_ : ℕ) (state : TcpDirectionState)
      → KeptBy (observe_in_order d segment payload end_ stats state)
  unfolding observe_in_order
  in_order-Keeps end_ state = record { created = refl; evicted = refl; dropped_new = refl }

  overlap-Keeps :
      (end_ expected : ℕ) (state : TcpDirectionState)
      → KeptBy (observe_overlap d segment payload end_ expected stats state)
  unfolding observe_overlap
  overlap-Keeps end_ expected state = record { created = refl; evicted = refl; dropped_new = refl }

  retransmission-Keeps :
      (state : TcpDirectionState) → KeptBy (observe_retransmission segment payload stats state)
  unfolding observe_retransmission
  retransmission-Keeps state = record { created = refl; evicted = refl; dropped_new = refl }

  buffered-Keeps :
      (r : TcpDirectionState × BufferOutcome) → KeptBy (observe_buffered segment payload stats r)
  unfolding observe_buffered
  buffered-Keeps (state, buffered) = record { created = refl; evicted = refl; dropped_new = refl }
  buffered-Keeps (state, duplicate) = record { created = refl; evicted = refl; dropped_new = refl }
  buffered-Keeps (state, dropped) = record { created = refl; evicted = refl; dropped_new = refl }

  observe_at-Keeps :
      (flow_buffered_bytes end_ expected : ℕ) (state : TcpDirectionState)
      → KeptBy (observe_at d segment payload config flow_buffered_bytes end_ expected stats state)
  unfolding observe_at
  observe_at-Keeps flow_buffered_bytes end_ expected state =
      if_both KeptBy (seq_eq segment.sequence_number expected) (λ _. in_order-Keeps end_ state)
        (λ _.
          if_both KeptBy (seq_before segment.sequence_number expected)
            (λ _.
              if_both KeptBy (seq_after end_ expected) (λ _. overlap-Keeps end_ expected state)
                (λ _. retransmission-Keeps state))
            (λ _. buffered-Keeps _))

  observe_span-Keeps :
      (flow_buffered_bytes end_ : ℕ) (next : Option ℕ) (state : TcpDirectionState)
      → KeptBy (observe_span d segment payload config flow_buffered_bytes end_ next stats state)
  unfolding observe_span
  observe_span-Keeps flow_buffered_bytes end_ none state = init-Keeps end_ state
  observe_span-Keeps flow_buffered_bytes end_ (some expected) state =
      observe_at-Keeps flow_buffered_bytes end_ expected state

  direction-Keeps :
      (flow_buffered_bytes : ℕ) (state : TcpDirectionState)
      → KeptBy (Direction.observe d segment payload config flow_buffered_bytes stats state)
  unfolding Direction.observe observation
  direction-Keeps flow_buffered_bytes state =
      if_both KeptBy segment.flags.rst
        (λ _. record { created = refl; evicted = refl; dropped_new = refl })
        (λ _.
          if_both KeptBy (sequence_span segment == 0)
            (λ _. record { created = refl; evicted = refl; dropped_new = refl })
            (λ _. observe_span-Keeps flow_buffered_bytes _ state.next_seq _))

source-Keeps :
    (chunk : StreamChunk) (source : StreamChunkSource) (stats : FlowTableStats)
    → Keeps stats (observe_stream_chunk_source chunk source stats)
unfolding observe_stream_chunk_source
source-Keeps chunk current_segment stats = record {
  created = refl;
  evicted = refl;
  dropped_new = refl;
}
source-Keeps chunk buffered_segment stats = record {
  created = refl;
  evicted = refl;
  dropped_new = refl;
}
source-Keeps chunk overlap_trimmed stats = record {
  created = refl;
  evicted = refl;
  dropped_new = refl;
}

sources-Keeps :
    (chunks : List StreamChunk) (stats : FlowTableStats)
    → Keeps stats (observe_stream_chunk_sources chunks stats)
unfolding observe_stream_chunk_sources
sources-Keeps [] stats = keeps
sources-Keeps (chunk ∷ chunks) stats =
    Keeps-then (source-Keeps chunk chunk.source stats) (sources-Keeps chunks _)

count_chunks-Keeps :
    (o : TcpObservation) (n : ℕ) (stats : FlowTableStats) → Keeps stats (count_chunks o n stats)
unfolding count_chunks
count_chunks-Keeps o n stats =
    let k = sources-Keeps o.stream_chunks _ in
    record { created = k.created; evicted = k.evicted; dropped_new = k.dropped_new }

count_flags-Keeps :
    (segment : TcpSegment) (stats : FlowTableStats) → Keeps stats (count_flags segment stats)
unfolding count_flags
count_flags-Keeps segment stats = ground arith

tcp-Keeps :
    (d : FlowDirection) (segment : TcpSegment) (payload : List ℕ) (config : FlowTableConfig)
    (stats : FlowTableStats) (state : TcpFlowState)
    → Keeps stats (Tcp.observe d segment payload config stats state).stats
unfolding Tcp.observe
tcp-Keeps d segment payload config stats state =
    if_both (λ (o : FlowObserved). Keeps stats o.stats) segment.flags.rst
      (λ _. again total (all total))
      (λ _. if_both (λ (o : FlowObserved). Keeps stats o.stats) _ (λ _. all total) (λ _. all total))
  where
    o : Observed
    o =
        Direction.observe d segment payload config (buffered_bytes state)
          (count_flags segment stats) (at_direction d state.directions)

    total : ℕ
    total = buffered_bytes (record state { directions = set_direction d o.state state.directions })

    all : (n : ℕ) → Keeps stats (count_chunks o.observation n o.stats)
    all n = Keeps-then (count_flags-Keeps segment stats) (
        Keeps-then
          (direction-Keeps d segment payload config (count_flags segment stats)
            (buffered_bytes state) (at_direction d state.directions))
          (count_chunks-Keeps o.observation n o.stats))

    again :
        (n : ℕ)
        → Keeps stats (count_chunks o.observation n o.stats)
        → Keeps stats (record (count_chunks o.observation n o.stats) {
          tcp_resets = saturating_add (count_chunks o.observation n o.stats).tcp_resets 1;
        })
    again n k = record { created = k.created; evicted = k.evicted; dropped_new = k.dropped_new }

observe_transport-Keeps :
    (packet : FlowPacket) (config : FlowTableConfig) (stats : FlowTableStats) (entry : FlowEntry)
    (transport : TransportFlowState) (segment : Option TcpSegment)
    → Keeps stats (observe_transport packet config stats entry transport segment).stats
unfolding observe_transport
observe_transport-Keeps packet config stats entry (tcp_flow state) (some segment) =
    tcp-Keeps packet.direction segment packet.payload config stats state
observe_transport-Keeps packet config stats entry (tcp_flow state) none = keeps
observe_transport-Keeps packet config stats entry datagram segment = keeps

-- A flow's packet changes no counter of created, evicted or dropped flows.
pub observe-Keeps :
    (packet : FlowPacket) (config : FlowTableConfig) (stats : FlowTableStats) (entry : FlowEntry)
    → Keeps stats (Entry.observe packet config stats entry).stats
unfolding Entry.observe
observe-Keeps packet config stats entry =
    observe_transport-Keeps packet config stats (count_packet packet entry) entry.transport
      packet.tcp_segment
