-- ===== src/Flow/Table/Observe.antt =====
-- Observing a packet: the table stays within its limit, and every packet with a transport payload is
-- observed.
use rustmate.Base.{
  ℕ, ◌<◌, ◌≡◌, refl, ◌∙◌, sym, ap, inl, inr, true, false, Bool, Option, none, some, arith, leb,
  if_both, Option-cases, u64_max, length, get, length-set_value, get-set_value, Distinct-set_value,
  get-front, saturating_add,
}
use rustmate.Packet.Decoded.{DecodedPacket, TransportPayload, transport_payload}
use rustmate.Flow.Route.{FlowRoute, from_packet}
use rustmate.Flow.Config
use rustmate.Flow.Config.{FlowTableConfig}
use rustmate.Flow.Entry
use rustmate.Flow.Entry.{FlowEntry, FlowPacket, EntryObserved}
use rustmate.Flow.Entry.Keeps.{observe-Keeps}
use rustmate.Flow.Table.{
  FlowTable, FlowObservation, FlowKey-discrete, make_room, observe_known, observe_new,
  observe_packet, count_observed, should_evict, observe_with_route, flow_packet, timestamp_us, new,
  observe,
}
use rustmate.Flow.Table.Evict.{
  IsValid, Evicts, Evicts-trans, evict_idle-Evicts, evict_idle-IsValid, make_room-Roomy,
}

abbrev pub lacks : Option FlowEntry → Bool
lacks none = true
lacks (some entry) = false

-- A packet of `route` is observed: the table keeps its invariant, the observation carries the key,
-- the direction and the counters of the flow's entry, which the table then has, and no flow is
-- dropped. The flow is called new exactly if the table lacked it.
pub record Observes (route : FlowRoute) (t : FlowTable) (r : FlowTable × Option FlowObservation)
    : Type 0 where
  pub valid : IsValid r.0
  pub config : r.0.config ≡ t.config
  pub dropped_new : r.0.stats.dropped_new_flows ≡ t.stats.dropped_new_flows
  pub observation : FlowObservation
  pub returned : r.1 ≡ some observation
  pub key : observation.key ≡ route.key
  pub direction : observation.direction ≡ route.direction
  pub fresh : observation.is_new ≡ lacks (get FlowKey-discrete route.key t.entries)
  pub entry : FlowEntry
  pub kept : get FlowKey-discrete route.key r.0.entries ≡ some entry
  pub packets : observation.packets ≡ entry.packets
  pub bytes : observation.bytes ≡ entry.bytes

observe_known-Observes :
    (route : FlowRoute) (packet : FlowPacket) (entry : FlowEntry) (t : FlowTable)
    → get FlowKey-discrete route.key t.entries ≡ some entry
    → IsValid t
    → Observes route t (observe_known route packet entry t)
unfolding observe_known
observe_known-Observes route packet entry t e v =
    let o = Entry.observe packet t.config t.stats entry in
    let k = observe-Keeps packet t.config t.stats entry in
    let same = length-set_value FlowKey-discrete route.key o.entry t.entries in
    record {
      valid = record {
        positive = v.positive;
        bounded = omega (arith, v.bounded, same);
        distinct = Distinct-set_value FlowKey-discrete route.key o.entry t.entries v.distinct;
        balanced = omega (arith, v.balanced, k.created, k.evicted, same);
        small = omega (arith, v.small, k.created);
      };
      config = refl;
      dropped_new = k.dropped_new;
      observation = record {
        key = route.key;
        direction = route.direction;
        packets = o.entry.packets;
        bytes = o.entry.bytes;
        is_new = false;
        tcp = o.tcp;
      };
      returned = refl;
      key = refl;
      direction = refl;
      fresh = ap lacks (sym e);
      entry = o.entry;
      kept = get-set_value FlowKey-discrete route.key o.entry entry t.entries e;
      packets = refl;
      bytes = refl;
    }

observe_new-Observes :
    (route : FlowRoute) (packet : FlowPacket) (t : FlowTable)
    → get FlowKey-discrete route.key t.entries ≡ none
    → IsValid t
    → length t.entries < t.config.max_flows
    → t.stats.created_flows < u64_max
    → Observes route t (observe_new route packet t)
unfolding observe_new
observe_new-Observes route packet t e v room few =
    let o = Entry.observe packet t.config t.stats (Entry.new packet.now_us route.key.protocol) in
    let k = observe-Keeps packet t.config t.stats (Entry.new packet.now_us route.key.protocol) in
    if_both (Observes route t) (leb t.config.max_flows (length t.entries))
      (λ full. absurd (ground arith))
      (λ roomy. record {
        valid = record {
          positive = v.positive;
          bounded = omega (arith, room);
          distinct = (e, v.distinct);
          balanced = omega (arith, v.balanced, k.created, k.evicted, few);
          small = omega arith;
        };
        config = refl;
        dropped_new = k.dropped_new;
        observation = record {
          key = route.key;
          direction = route.direction;
          packets = o.entry.packets;
          bytes = o.entry.bytes;
          is_new = true;
          tcp = o.tcp;
        };
        returned = refl;
        key = refl;
        direction = refl;
        fresh = ap lacks (sym e);
        entry = o.entry;
        kept = get-front FlowKey-discrete route.key o.entry t.entries;
        packets = refl;
        bytes = refl;
      })

observe_packet-Observes :
    (route : FlowRoute) (packet : FlowPacket) (t : FlowTable)
    → IsValid t
    → t.stats.created_flows < u64_max
    → Observes route t (observe_packet route packet t)
unfolding observe_packet
observe_packet-Observes route packet t v few = go (get FlowKey-discrete route.key t.entries) refl
  where
    go :
        (o : Option FlowEntry)
        → get FlowKey-discrete route.key t.entries ≡ o
        → Observes route t (elim o [
          | some entry ↦ observe_known route packet entry t
          | none ↦ observe_new route packet (make_room packet.now_us t)
        ])
    go (some entry) e = observe_known-Observes route packet entry t e v
    go none e =
        let m = make_room-Roomy packet.now_us t v in
        let x =
          observe_new-Observes route packet (make_room packet.now_us t)
            (m.evicts.absent route.key e) m.valid m.room (omega (arith, m.evicts.created)) in
        record {
          valid = x.valid;
          config = x.config ∙ m.evicts.config;
          dropped_new = x.dropped_new ∙ m.evicts.dropped_new;
          observation = x.observation;
          returned = x.returned;
          key = x.key;
          direction = x.direction;
          fresh = x.fresh ∙ ap lacks (m.evicts.absent route.key e ∙ sym e);
          entry = x.entry;
          kept = x.kept;
          packets = x.packets;
          bytes = x.bytes;
        }

count_observed-Evicts : (now_us : ℕ) (t : FlowTable) → Evicts t (count_observed now_us t)
unfolding count_observed
count_observed-Evicts now_us t =
    if_both (Evicts t) (should_evict counted)
      (λ _. Evicts-trans same (evict_idle-Evicts now_us counted)) (λ _. same)
  where
    counted : FlowTable
    counted = record t { observed_packets = saturating_add t.observed_packets 1 }

    same : Evicts t counted
    same = record { config = refl; created = refl; dropped_new = refl; absent = λ key e. e }

count_observed-IsValid :
    (now_us : ℕ) (t : FlowTable) → IsValid t → IsValid (count_observed now_us t)
unfolding count_observed
count_observed-IsValid now_us t v =
    if_both IsValid (should_evict counted) (λ _. evict_idle-IsValid now_us counted same) (λ _. same)
  where
    counted : FlowTable
    counted = record t { observed_packets = saturating_add t.observed_packets 1 }

    same : IsValid counted
    same = record {
      positive = v.positive;
      bounded = v.bounded;
      distinct = v.distinct;
      balanced = v.balanced;
      small = v.small;
    }

-- In a valid table that has created fewer than 2^64 - 1 flows, every packet that carries a
-- transport payload is observed, however full the table is. Once idle flows are gone, where their
-- time has come: the table stays valid, the observation carries the key and direction of the route
-- and the counters of the flow's entry, which the table then has, and the flow is called new
-- exactly if the table lacked it. The counter of dropped flows does not move.
pub observe_with_route-Observes :
    (packet : DecodedPacket) (route : FlowRoute) (t : FlowTable) (transport : TransportPayload)
    → transport_payload packet ≡ some transport
    → IsValid t
    → t.stats.created_flows < u64_max
    → Observes route
        (count_observed (timestamp_us packet.timestamp) t)
        (observe_with_route packet route t)
      × ((observe_with_route packet route t).0.stats.dropped_new_flows ≡ t.stats.dropped_new_flows)
unfolding observe_with_route
observe_with_route-Observes packet route t transport e v few =
    let evicts = count_observed-Evicts (timestamp_us packet.timestamp) t in
    let o =
      observe_packet-Observes route (flow_packet packet transport route.direction)
        (count_observed (timestamp_us packet.timestamp) t)
        (count_observed-IsValid (timestamp_us packet.timestamp) t v)
        (omega (arith, evicts.created)) in
    rw (e, observe_with_route) (o, o.dropped_new ∙ evicts.dropped_new)

-- A new table satisfies the invariant, if its configuration comes from `FlowTableConfig::new`.
new-IsValid :
    (max_flows idle_timeout_ms bytes segments : ℕ)
    → IsValid (new (Config.new max_flows idle_timeout_ms bytes segments))
unfolding new Config.new
new-IsValid max_flows idle_timeout_ms bytes segments = record {
  positive = omega arith;
  bounded = omega arith;
  distinct = tt;
  balanced = refl;
  small = omega arith;
}

with_route-IsValid :
    (packet : DecodedPacket) (route : FlowRoute) (t : FlowTable)
    → IsValid t
    → t.stats.created_flows < u64_max
    → IsValid (observe_with_route packet route t).0
unfolding observe_with_route
with_route-IsValid packet route t v few = elim (Option-cases (transport_payload packet)) [
  | inl e ↦ rw (e, observe_with_route) (count_observed-IsValid (timestamp_us packet.timestamp) t v)
  | inr (transport, e) ↦ (observe_with_route-Observes packet route t transport e v few).0.valid
]

-- Any packet keeps a valid table valid that has created fewer than 2^64 - 1 flows: the table never
-- holds more flows than its limit, nor a key twice, and of the flows created each is evicted or
-- still there.
pub observe-IsValid :
    (packet : DecodedPacket) (t : FlowTable)
    → IsValid t
    → t.stats.created_flows < u64_max
    → IsValid (observe packet t).0
unfolding observe
observe-IsValid packet t v few = elim (Option-cases (from_packet packet)) [
  | inl e ↦ rw (e, observe) v
  | inr (route, e) ↦ rw (e, observe) (with_route-IsValid packet route t v few)
]
