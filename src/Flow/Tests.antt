-- ===== src/Flow/Tests.antt =====
-- Concrete flows: a short conversation that arrives out of order, a full table, a full buffer.
use rustmate.Flow.Route.{FlowKey}
use rustmate.Flow.Entry.{FlowEntry}
use rustmate.Flow.Table.{FlowKey-discrete}
use rustmate.Base.{
  remove_key, ◌≤◌, ℕ, ◌-◌, ◌^◌, ◌≡◌, refl, ◌≢◌, ◌⊎◌, Bool, true, false, not, none, some, List, [],
  ◌∷◌, arith, length, wrapping_sub, All, get, loop, ap,
}
use rustmate.Packet.Segment.{TcpSegment, tcp}
use rustmate.Packet.Decoded.{
  ethernet, v4, ipv4, tcp_slice, DecodedPacket, TransportPayload, transport_payload,
}
use rustmate.Flow.Seq.{seq_eq, seq_before, seq_after}
use rustmate.Flow.Seq.Window.{seq_trichotomy}
use rustmate.Flow.Chunk.{a_to_b}
use rustmate.Flow.Config.{FlowTableConfig}
use rustmate.Flow.Stream.{Fits, Slice, slice}
use rustmate.Flow.Buffer.{
  TcpDirectionState, default, continues, consume_contiguous_buffer, consume_step, consume_segment,
}
use rustmate.Flow.Buffer.Consume.{consume_contiguous_buffer_ends}
use rustmate.Flow.Direction.Delivery.{Arrival, SentAll, deliver, deliver_sound, deliver_complete}
use rustmate.Flow.Direction.Reassembly.{Tracks}
use rustmate.Flow.Tcp.{TcpFlowState}
use rustmate.Flow.Tcp
use rustmate.Flow.Tcp.Buffers.{BuffersBounded, observe-BuffersBounded}
use rustmate.Flow.Entry
use rustmate.Flow.Route.{Endpoint, FlowRoute, stable_id}
use rustmate.Flow.Route
use rustmate.Flow.Route.Symmetry.{opposite, new_symmetric}
use rustmate.Flow.Table.{FlowTable, default_stats, timestamp_us, count_observed, observe_with_route}
use rustmate.Flow.Table
use rustmate.Flow.Table.Evict.{IsValid}
use rustmate.Flow.Table.Oldest.{evict_oldest-Oldest}
use rustmate.Flow.Table.Observe.{Observes, observe_with_route-Observes, observe-IsValid}

abbrev hello : List ℕ
hello = 104 ∷ 101 ∷ 108 ∷ 108 ∷ 111 ∷ []

-- The segment at a sequence number, with its SYN and FIN flags.
abbrev segment : ℕ → Bool → Bool → List ℕ → TcpSegment
segment sequence_number syn fin payload = record {
  sequence_number = sequence_number;
  acknowledgment_number = 0;
  flags = record {
    fin = fin;
    syn = syn;
    rst = false;
    psh = false;
    ack = true;
    urg = false;
    ece = false;
    cwr = false;
  };
  window_size = 1024;
  payload_len = length payload;
}

abbrev arrives : ℕ → Bool → Bool → List ℕ → Arrival
arrives sequence_number syn fin payload = record {
  segment = segment sequence_number syn fin payload;
  payload = payload;
  flow_buffered_bytes = 0;
  stats = default_stats;
}

abbrev config : FlowTableConfig
config = record {
  max_flows = 1;
  idle_timeout_us = 1000;
  eviction_interval_packets = 16384;
  max_tcp_buffered_bytes_per_flow = 64;
  max_tcp_out_of_order_segments_per_direction = 2;
}

-- The sequence numbers wrap after the second byte: 2^32 - 3 is the SYN's.
abbrev isn : ℕ
isn = 2 ^ 32 - 3

abbrev first_syn : Arrival
first_syn = arrives isn true false []

-- The end of the stream, then its beginning, then the FIN.
abbrev llo : Arrival
llo = arrives 0 false false (108 ∷ 108 ∷ 111 ∷ [])

abbrev hel : Arrival
hel = arrives (2 ^ 32 - 2) false false (104 ∷ 101 ∷ 108 ∷ [])

abbrev last_fin : Arrival
last_fin = arrives 3 false true []

hello-Fits : Fits hello
hello-Fits = omega arith

abbrev first_syn-Slice : Slice isn hello (first_syn).segment (first_syn).payload
first_syn-Slice = record {
  first = 0;
  last = 1;
  nonempty = omega arith;
  inside = omega arith;
  sequence = refl;
  syn = refl;
  fin = refl;
  bytes = refl;
  counted = refl;
}

abbrev llo-Slice : Slice isn hello (llo).segment (llo).payload
llo-Slice = record {
  first = 3;
  last = 6;
  nonempty = omega arith;
  inside = omega arith;
  sequence = refl;
  syn = refl;
  fin = refl;
  bytes = refl;
  counted = refl;
}

abbrev hel-Slice : Slice isn hello (hel).segment (hel).payload
hel-Slice = record {
  first = 1;
  last = 4;
  nonempty = omega arith;
  inside = omega arith;
  sequence = refl;
  syn = refl;
  fin = refl;
  bytes = refl;
  counted = refl;
}

abbrev last_fin-Slice : Slice isn hello (last_fin).segment (last_fin).payload
last_fin-Slice = record {
  first = 6;
  last = 7;
  nonempty = omega arith;
  inside = omega arith;
  sequence = refl;
  syn = refl;
  fin = refl;
  bytes = refl;
  counted = refl;
}

abbrev rest_sent : SentAll isn hello (llo ∷ hel ∷ llo ∷ last_fin ∷ [])
rest_sent = (slice llo-Slice, (slice hel-Slice, (slice llo-Slice, (slice last_fin-Slice, tt))))

deliver_sound_example :
    let r = deliver a_to_b config (hel ∷ llo ∷ []) default in Tracks isn hello r.0 r.1
deliver_sound_example =
    deliver_sound isn hello hello-Fits a_to_b config (hel ∷ llo ∷ [])
      (slice hel-Slice, (slice llo-Slice, tt))

deliver_complete_example :
    (deliver a_to_b config (first_syn ∷ llo ∷ hel ∷ llo ∷ last_fin ∷ []) default).0 ≡ hello
deliver_complete_example =
    deliver_complete isn hello hello-Fits a_to_b config first_syn (llo ∷ hel ∷ llo ∷ last_fin ∷ [])
      first_syn-Slice rest_sent refl refl (omega arith)

seq_trichotomy_example :
    ((wrapping_sub 5 (2 ^ 32 - 5) ≡ 2 ^ 31)
      × (seq_before 5 (2 ^ 32 - 5) ≡ true)
      × (seq_after 5 (2 ^ 32 - 5) ≡ true))
    ⊎ ((5 ≡ 2 ^ 32 - 5) × (seq_before 5 (2 ^ 32 - 5) ≡ false) × (seq_after 5 (2 ^ 32 - 5) ≡ false))
    ⊎ ((5 ≢ 2 ^ 32 - 5)
        × (wrapping_sub 5 (2 ^ 32 - 5) ≢ 2 ^ 31)
        × (seq_after 5 (2 ^ 32 - 5) ≡ not (seq_before 5 (2 ^ 32 - 5))))
seq_trichotomy_example = seq_trichotomy 5 (2 ^ 32 - 5) (omega arith) (omega arith)

-- The state of a direction that waits for byte 1 and holds "llo".
abbrev waiting : TcpDirectionState
waiting = record default {
  initial_seq = some isn;
  next_seq = some (2 ^ 32 - 2);
  highest_seq = some 3;
  syn_seen = true;
  buffered_bytes = 3;
  buffered = record { start = 0; end = 3; payload_start = 0; bytes = 108 ∷ 108 ∷ 111 ∷ [] } ∷ [];
}

abbrev waiting_flow : TcpFlowState
waiting_flow = record {
  directions = record { first = waiting; second = default };
  resets = 0;
  finished = false;
}

waiting-BuffersBounded : BuffersBounded config waiting_flow.directions
waiting-BuffersBounded = record {
  first_counted = refl;
  second_counted = refl;
  first_segments = omega arith;
  second_segments = omega arith;
  together = omega arith;
}

observe-BuffersBounded_example :
    BuffersBounded config
      (Tcp.observe a_to_b
        (segment 5 false false (33 ∷ []))
        (33 ∷ [])
        config
        default_stats
        waiting_flow).state.directions
observe-BuffersBounded_example =
    observe-BuffersBounded config (omega arith) (segment 5 false false (33 ∷ [])) (33 ∷ [])
      default_stats a_to_b waiting_flow waiting-BuffersBounded

-- "hel" has just come: the buffer goes on from there.
abbrev filled : TcpDirectionState
filled = record waiting { next_seq = some 1 }

filled_next : (consume_contiguous_buffer filled a_to_b []).state.next_seq ≡ some 3
unfolding consume_contiguous_buffer consume_step consume_segment loop continues seq_eq seq_before
    seq_after
filled_next = refl

consume_contiguous_buffer_ends_example :
    All (λ s. continues 3 s ≡ false) (consume_contiguous_buffer filled a_to_b []).state.buffered
consume_contiguous_buffer_ends_example =
    consume_contiguous_buffer_ends filled a_to_b [] 3 filled_next

abbrev client : Endpoint
client = record { addr = v4 (10 ∷ 0 ∷ 0 ∷ 1 ∷ []); port = 40000 }

abbrev server : Endpoint
server = record { addr = v4 (10 ∷ 0 ∷ 0 ∷ 2 ∷ []); port = 80 }

client≢server : client ≢ server
client≢server e = omega (arith, ap (λ (x : Endpoint). x.port) e)

new_symmetric_example :
    ((Route.new tcp client server).key ≡ (Route.new tcp server client).key)
    × (stable_id (Route.new tcp client server).key ≡ stable_id (Route.new tcp server client).key)
    × ((Route.new tcp server client).direction ≡ opposite (Route.new tcp client server).direction)
new_symmetric_example = new_symmetric tcp client server client≢server

-- A table that is full with one flow, and a packet of another.
abbrev full : FlowTable
full = record {
  config = config;
  entries = (record { protocol = tcp; a = server; b = server }, Entry.new 5 tcp) ∷ [];
  observed_packets = 7;
  stats = record default_stats { active_flows = 1; created_flows = 1 };
}

full-IsValid : IsValid full
unfolding get
full-IsValid = record {
  positive = omega arith;
  bounded = omega arith;
  distinct = (refl, tt);
  balanced = refl;
  small = omega arith;
}

abbrev packet : DecodedPacket
packet = record {
  timestamp = record { sec = 1; usec = 5 };
  link_layer = ethernet;
  raw = 0 ∷ [];
  parsed = some (record {
    net = some (ipv4 (10 ∷ 0 ∷ 0 ∷ 1 ∷ []) (10 ∷ 0 ∷ 0 ∷ 2 ∷ []));
    transport = some (
        tcp_slice (record {
          source_port = 40000;
          destination_port = 80;
          sequence_number = 7;
          acknowledgment_number = 0;
          flags = (segment 7 true false []).flags;
          window_size = 1024;
          payload = [];
        }));
  });
  decode_error = none;
}

abbrev packet_payload : TransportPayload
packet_payload = record {
  protocol = tcp;
  source_port = some 40000;
  destination_port = some 80;
  bytes = [];
  tcp = some (segment 7 true false []);
}

packet-payload : transport_payload packet ≡ some packet_payload
unfolding transport_payload
packet-payload = refl

abbrev route : FlowRoute
route = Route.new tcp client server

observe_with_route-Observes_example :
    Observes route
      (count_observed (timestamp_us packet.timestamp) full)
      (observe_with_route packet route full)
    × ((observe_with_route packet route full).0.stats.dropped_new_flows
        ≡ full.stats.dropped_new_flows)
observe_with_route-Observes_example =
    observe_with_route-Observes packet route full packet_payload packet-payload full-IsValid
      (omega arith)

observe-IsValid_example : IsValid (Table.observe packet full).0
observe-IsValid_example = observe-IsValid packet full full-IsValid (omega arith)

evict_oldest-Oldest_example :
    (key : FlowKey) × (entry : FlowEntry) × (get FlowKey-discrete key full.entries ≡ some entry)
    × All (λ (e : FlowKey × FlowEntry). entry.last_seen_us ≤ e.1.last_seen_us) full.entries
    × ((Table.evict_oldest full).entries ≡ remove_key FlowKey-discrete key full.entries)
evict_oldest-Oldest_example = evict_oldest-Oldest full full-IsValid (omega arith)
