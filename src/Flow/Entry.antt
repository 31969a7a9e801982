-- ===== src/Flow/Entry.antt =====
-- src/flow/mod.rs: one flow of the table (`FlowEntry`).
pub mod Keeps
use rustmate.Base.{ℕ, Option, none, some, List, saturating_add}
use rustmate.Packet.Segment.{TransportProtocol, tcp, TcpSegment}
use rustmate.Flow.Chunk.{FlowDirection}
use rustmate.Flow.Config.{FlowTableConfig}
use rustmate.Flow.Stats.{FlowTableStats}
use rustmate.Flow.Direction.{TcpObservation}
use rustmate.Flow.Tcp
use rustmate.Flow.Tcp.{Directions, at_direction, set_direction, TcpFlowState, default_flow}

pub record FlowDirectionStats : Type 0 where
  pub packets : ℕ
  pub bytes : ℕ
  pub payload_bytes : ℕ

pub data TransportFlowState : Type 0 where
  tcp_flow : TcpFlowState → TransportFlowState
  datagram : TransportFlowState

pub record FlowEntry : Type 0 where
  pub first_seen_us : ℕ
  pub last_seen_us : ℕ
  pub packets : ℕ
  pub bytes : ℕ
  pub directions : Directions FlowDirectionStats
  pub transport : TransportFlowState

pub record FlowPacket : Type 0 where
  pub direction : FlowDirection
  pub now_us : ℕ
  pub bytes : ℕ
  pub payload_bytes : ℕ
  pub tcp_segment : Option TcpSegment
  pub payload : List ℕ

pub record EntryObserved : Type 0 where
  pub entry : FlowEntry
  pub stats : FlowTableStats
  pub tcp : Option TcpObservation

abbrev pub no_stats : FlowDirectionStats
no_stats = record { packets = 0; bytes = 0; payload_bytes = 0 }

unfoldable pub transport_for : TransportProtocol → TransportFlowState
transport_for tcp = tcp_flow default_flow
transport_for _ = datagram

unfoldable pub new : ℕ → TransportProtocol → FlowEntry
unfolding transport_for
new now_us protocol = record {
  first_seen_us = now_us;
  last_seen_us = now_us;
  packets = 0;
  bytes = 0;
  directions = record { first = no_stats; second = no_stats };
  transport = transport_for protocol;
}

-- The counters that every packet of the flow updates.
unfoldable pub count_packet : FlowPacket → FlowEntry → FlowEntry
count_packet packet entry =
    let ds = at_direction packet.direction entry.directions in
    record entry {
      last_seen_us = packet.now_us;
      packets = saturating_add entry.packets 1;
      bytes = saturating_add entry.bytes packet.bytes;
      directions =
          set_direction packet.direction
            (record {
              packets = saturating_add ds.packets 1;
              bytes = saturating_add ds.bytes packet.bytes;
              payload_bytes = saturating_add ds.payload_bytes packet.payload_bytes;
            })
            entry.directions;
    }

-- `entry` is counted already.
unfoldable pub observe_transport :
    FlowPacket
    → FlowTableConfig
    → FlowTableStats
    → FlowEntry
    → TransportFlowState
    → Option TcpSegment
    → EntryObserved
unfolding Tcp.observe
observe_transport packet config stats entry (tcp_flow state) (some segment) =
    let o = Tcp.observe packet.direction segment packet.payload config stats state in
    record {
      entry = record entry { transport = tcp_flow o.state };
      stats = o.stats;
      tcp = some o.observation;
    }
observe_transport packet config stats entry (tcp_flow state) none = record {
  entry = entry;
  stats = stats;
  tcp = none;
}
observe_transport packet config stats entry datagram segment = record {
  entry = entry;
  stats = stats;
  tcp = none;
}

unfoldable pub observe : FlowPacket → FlowTableConfig → FlowTableStats → FlowEntry → EntryObserved
unfolding count_packet observe_transport
observe packet config stats entry =
    observe_transport packet config stats (count_packet packet entry) entry.transport
      packet.tcp_segment
