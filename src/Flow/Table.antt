-- ===== src/Flow/Table.antt =====
-- src/flow/mod.rs: the bounded table of flows (`FlowTable`).
pub mod Evict
pub mod Observe
pub mod Oldest
use native.Mathlib.Decide.{ℕ_discrete}
use rustmate.Base.{
  ℕ, ◌+◌, ◌-◌, ◌*◌, ◌%◌, ◌^◌, Bool, true, false, not, ◌&&◌, Option, none, some, List, [], ◌∷◌, leb,
  ◌==◌, if◌then◌else◌, min, u64_max, saturating_add, length, get, set_value, remove_key, retain,
  min_by_key,
}
use rustmate.Packet.Decoded.{PacketTimestamp, DecodedPacket, TransportPayload, transport_payload}
use rustmate.Flow.Chunk.{FlowDirection}
use rustmate.Flow.Config.{FlowTableConfig}
use rustmate.Flow.Stats.{FlowTableStats}
use rustmate.Flow.Direction.{TcpObservation}
use rustmate.Flow.Entry
use rustmate.Flow.Entry.{FlowEntry, FlowPacket, EntryObserved}
use rustmate.Flow.Route.{FlowKey, FlowRoute, from_packet}

unfoldable pub FlowKey-discrete : Discrete FlowKey
FlowKey-discrete = hlevel ℕ_discrete

abbrev pub Entries : Type 0
Entries = List (FlowKey × FlowEntry)

pub record FlowTable : Type 0 where
  pub config : FlowTableConfig
  pub entries : Entries
  pub observed_packets : ℕ
  pub stats : FlowTableStats

pub record FlowObservation : Type 0 where
  pub key : FlowKey
  pub direction : FlowDirection
  pub packets : ℕ
  pub bytes : ℕ
  pub is_new : Bool
  pub tcp : Option TcpObservation

abbrev pub default_stats : FlowTableStats
default_stats = record {
  active_flows = 0;
  created_flows = 0;
  evicted_flows = 0;
  dropped_new_flows = 0;
  tcp_stream_chunks = 0;
  tcp_stream_bytes = 0;
  tcp_current_stream_chunks = 0;
  tcp_current_stream_bytes = 0;
  tcp_buffered_stream_chunks = 0;
  tcp_buffered_stream_bytes = 0;
  tcp_overlap_trimmed_stream_chunks = 0;
  tcp_overlap_trimmed_stream_bytes = 0;
  tcp_gaps = 0;
  tcp_retransmissions = 0;
  tcp_overlaps = 0;
  tcp_out_of_order_buffered = 0;
  tcp_out_of_order_buffered_bytes = 0;
  tcp_out_of_order_dropped = 0;
  tcp_out_of_order_dropped_bytes = 0;
  tcp_retransmitted_bytes = 0;
  tcp_overlap_trimmed_bytes = 0;
  tcp_reassembly_buffered_bytes_peak = 0;
  tcp_midstream_starts = 0;
  tcp_syns = 0;
  tcp_fins = 0;
  tcp_resets = 0;
}

unfoldable pub new : FlowTableConfig → FlowTable
new config = record { config = config; entries = []; observed_packets = 0; stats = default_stats }

-- A plain `+` on `u64`: it wraps in a release build.
unfoldable pub timestamp_us : PacketTimestamp → ℕ
timestamp_us ts = (min (ts.sec * 1000000) u64_max + ts.usec) % 2 ^ 64

unfoldable pub stats : FlowTable → FlowTableStats
stats t = record t.stats { active_flows = length t.entries }

-- `is_multiple_of(0)` holds of 0 alone, as `%` by 0 leaves the number.
unfoldable pub should_evict : FlowTable → Bool
should_evict t =
    not (t.observed_packets == 0) && (t.observed_packets % t.config.eviction_interval_packets == 0)

unfoldable pub is_fresh : ℕ → ℕ → FlowKey → FlowEntry → Bool
is_fresh now_us timeout_us key entry = leb (now_us - entry.last_seen_us) timeout_us

unfoldable pub evict_idle : ℕ → FlowTable → FlowTable
unfolding is_fresh
evict_idle now_us t =
    let kept = retain (is_fresh now_us t.config.idle_timeout_us) t.entries in
    record t {
      entries = kept;
      stats = record t.stats {
        evicted_flows = saturating_add t.stats.evicted_flows (length t.entries - length kept);
      };
    }

unfoldable pub evict_oldest : FlowTable → FlowTable
evict_oldest t = elim (min_by_key (λ entry. entry.last_seen_us) t.entries) [
  | none ↦ t
  | some (key, entry) ↦ record t {
    entries = remove_key FlowKey-discrete key t.entries;
    stats = record t.stats { evicted_flows = saturating_add t.stats.evicted_flows 1 };
  }
]

unfoldable pub flow_packet : DecodedPacket → TransportPayload → FlowDirection → FlowPacket
unfolding timestamp_us
flow_packet packet transport direction = record {
  direction = direction;
  now_us = timestamp_us packet.timestamp;
  bytes = length packet.raw;
  payload_bytes = length transport.bytes;
  tcp_segment = transport.tcp;
  payload = transport.bytes;
}

-- A packet of the flow `entry`, which the table has.
unfoldable pub observe_known :
    FlowRoute → FlowPacket → FlowEntry → FlowTable → FlowTable × Option FlowObservation
observe_known route packet entry t =
    let o = Entry.observe packet t.config t.stats entry in
    (
      record t {
        entries = set_value FlowKey-discrete route.key o.entry t.entries;
        stats = o.stats;
      },
      some (record {
        key = route.key;
        direction = route.direction;
        packets = o.entry.packets;
        bytes = o.entry.bytes;
        is_new = false;
        tcp = o.tcp;
      }),
    )

-- Makes room for a new flow, if the table is full.
unfoldable pub make_room : ℕ → FlowTable → FlowTable
make_room now_us t =
    if leb t.config.max_flows (length t.entries)
    then (let t' = evict_idle now_us t in
        if leb t'.config.max_flows (length t'.entries) then evict_oldest t' else t')
    else t

-- The first packet of a flow; the table is full if the flow is dropped.
unfoldable pub observe_new : FlowRoute → FlowPacket → FlowTable → FlowTable × Option FlowObservation
observe_new route packet t =
    if leb t.config.max_flows (length t.entries)
    then (
      record t {
        stats = record t.stats { dropped_new_flows = saturating_add t.stats.dropped_new_flows 1 };
      },
      none,
    )
    else (let o =
          Entry.observe packet t.config t.stats (Entry.new packet.now_us route.key.protocol) in
        (
          record t {
            entries = (route.key, o.entry) ∷ t.entries;
            stats = record o.stats { created_flows = saturating_add o.stats.created_flows 1 };
          },
          some (record {
            key = route.key;
            direction = route.direction;
            packets = o.entry.packets;
            bytes = o.entry.bytes;
            is_new = true;
            tcp = o.tcp;
          }),
        ))

unfoldable pub observe_packet :
    FlowRoute → FlowPacket → FlowTable → FlowTable × Option FlowObservation
observe_packet route packet t = elim (get FlowKey-discrete route.key t.entries) [
  | some entry ↦ observe_known route packet entry t
  | none ↦ observe_new route packet (make_room packet.now_us t)
]

-- The packet is counted, and every so many packets the idle flows go.
unfoldable pub count_observed : ℕ → FlowTable → FlowTable
unfolding should_evict
count_observed now_us t =
    let counted : FlowTable = record t { observed_packets = saturating_add t.observed_packets 1 } in
    if should_evict counted then evict_idle now_us counted else counted

unfoldable pub observe_with_route :
    DecodedPacket → FlowRoute → FlowTable → FlowTable × Option FlowObservation
observe_with_route packet route t =
    let counted = count_observed (timestamp_us packet.timestamp) t in
    elim (transport_payload packet) [
      | none ↦ (counted, none)
      | some transport ↦ observe_packet route (flow_packet packet transport route.direction) counted
    ]

unfoldable pub observe : DecodedPacket → FlowTable → FlowTable × Option FlowObservation
unfolding observe_with_route
observe packet t = elim (from_packet packet) [
  | none ↦ (t, none)
  | some route ↦ observe_with_route packet route t
]
