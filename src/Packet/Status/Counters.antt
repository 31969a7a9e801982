-- ===== src/Packet/Status/Counters.antt =====
-- Every packet has a status, and the counters of two parts of the traffic add up to those of the whole.
use rustmate.Base.{
  ℕ, ◌≡◌, refl, ap, ◌∙◌, inl, inr, List, [], ◌∷◌, ◌++◌, arith, saturating_add, if_both,
  Option-cases,
}
use rustmate.Packet.Decoded.{
  DecodedPacket, PacketDecodeError, LinkLayer, SlicedPacket, decode_error, unsupported_link_layer,
}
use rustmate.Packet.Fragment.Reads.{Returns, raw_packet_is_fragmented-Returns}
use rustmate.Packet.Status.{
  PacketDecodeStatus, malformed, non_ip, parsed, fragmented, unsupported_transport,
  unsupported_link, PacketDecodeCounters, no_packets, observe, add, is_ip, parsed_status,
  failed_status, decode_status,
}

failed_status-Returns :
    (link_layer : LinkLayer) (raw : List ℕ) (error : PacketDecodeError)
    → Returns (failed_status link_layer raw error)
unfolding failed_status
failed_status-Returns link_layer raw unsupported_link_layer = (unsupported_link, refl)
failed_status-Returns link_layer raw decode_error =
    let (is_fragment, e) = raw_packet_is_fragmented-Returns link_layer raw in
    rw (e, failed_status) (_, refl)

parsed_status-Returns :
    (link_layer : LinkLayer) (raw : List ℕ) (packet : SlicedPacket)
    → Returns (parsed_status link_layer raw packet)
unfolding parsed_status
parsed_status-Returns link_layer raw packet =
    if_both Returns (is_ip packet.net)
      (λ _. elim (Option-cases packet.transport) [
        | inr (transport, t) ↦ rw t (parsed, refl)
        | inl t ↦
            let (is_fragment, e) = raw_packet_is_fragmented-Returns link_layer raw in
            rw (t, e) (_, refl)
      ])
      (λ _. (non_ip, refl))

-- Every packet gets a status: whatever its bytes, no read of them is out of range.
pub decode_status-Returns : (packet : DecodedPacket) → Returns (decode_status packet)
unfolding decode_status
decode_status-Returns packet = elim (Option-cases packet.decode_error) [
  | inr (error, e) ↦
      rw (e, decode_status) (failed_status-Returns packet.link_layer packet.raw error)
  | inl e ↦ elim (Option-cases packet.parsed) [
    | inl p ↦ rw (e, p, decode_status) (malformed, refl)
    | inr (sliced, p) ↦
        rw (e, p, decode_status) (parsed_status-Returns packet.link_layer packet.raw sliced)
  ]
]

-- The counters after `statuses`, the latest first.
unfoldable pub observe_all : List PacketDecodeStatus → PacketDecodeCounters
unfolding observe
observe_all [] = no_packets
observe_all (status ∷ statuses) = observe status (observe_all statuses)

-- Saturating sums may be taken in any order.
saturating_add_assoc :
    (a b c : ℕ) → saturating_add (saturating_add a b) c ≡ saturating_add a (saturating_add b c)
saturating_add_assoc a b c = omega arith

saturating_add_right_comm :
    (a b c : ℕ) → saturating_add (saturating_add a b) c ≡ saturating_add (saturating_add a c) b
saturating_add_right_comm a b c = omega arith

observe-add :
    (status : PacketDecodeStatus) (c o : PacketDecodeCounters)
    → observe status (add c o) ≡ add (observe status c) o
unfolding observe add
observe-add parsed c o =
    ap (λ n. record (add c o) { packet_parsed_packets = n })
      (saturating_add_right_comm c.packet_parsed_packets o.packet_parsed_packets 1)
observe-add non_ip c o =
    ap (λ n. record (add c o) { packet_non_ip_packets = n })
      (saturating_add_right_comm c.packet_non_ip_packets o.packet_non_ip_packets 1)
observe-add fragmented c o =
    ap (λ n. record (add c o) { packet_fragmented_packets = n })
      (saturating_add_right_comm c.packet_fragmented_packets o.packet_fragmented_packets 1)
observe-add unsupported_transport c o =
    ap (λ n. record (add c o) { packet_unsupported_transport_packets = n })
      (saturating_add_right_comm c.packet_unsupported_transport_packets
        o.packet_unsupported_transport_packets 1)
observe-add malformed c o =
    ap (λ n. record (add c o) { packet_malformed_packets = n })
      (saturating_add_right_comm c.packet_malformed_packets o.packet_malformed_packets 1)
observe-add unsupported_link c o =
    ap (λ n. record (add c o) { packet_unsupported_link_packets = n })
      (saturating_add_right_comm c.packet_unsupported_link_packets o.packet_unsupported_link_packets
        1)

observe-add_right :
    (status : PacketDecodeStatus) (c o : PacketDecodeCounters)
    → observe status (add c o) ≡ add c (observe status o)
unfolding observe add
observe-add_right parsed c o =
    ap (λ n. record (add c o) { packet_parsed_packets = n })
      (saturating_add_assoc c.packet_parsed_packets o.packet_parsed_packets 1)
observe-add_right non_ip c o =
    ap (λ n. record (add c o) { packet_non_ip_packets = n })
      (saturating_add_assoc c.packet_non_ip_packets o.packet_non_ip_packets 1)
observe-add_right fragmented c o =
    ap (λ n. record (add c o) { packet_fragmented_packets = n })
      (saturating_add_assoc c.packet_fragmented_packets o.packet_fragmented_packets 1)
observe-add_right unsupported_transport c o =
    ap (λ n. record (add c o) { packet_unsupported_transport_packets = n })
      (saturating_add_assoc c.packet_unsupported_transport_packets
        o.packet_unsupported_transport_packets 1)
observe-add_right malformed c o =
    ap (λ n. record (add c o) { packet_malformed_packets = n })
      (saturating_add_assoc c.packet_malformed_packets o.packet_malformed_packets 1)
observe-add_right unsupported_link c o =
    ap (λ n. record (add c o) { packet_unsupported_link_packets = n })
      (saturating_add_assoc c.packet_unsupported_link_packets o.packet_unsupported_link_packets 1)

add-no_packets :
    (statuses : List PacketDecodeStatus)
    → observe_all statuses ≡ add no_packets (observe_all statuses)
unfolding observe_all add
add-no_packets [] = refl
add-no_packets (status ∷ statuses) =
    ap (observe status) (add-no_packets statuses)
    ∙ observe-add_right status no_packets (observe_all statuses)

-- The counters of two shards, added, are those of all their packets, also where a counter is full.
pub observe_all-append :
    (xs ys : List PacketDecodeStatus)
    → observe_all (xs ++ ys) ≡ add (observe_all xs) (observe_all ys)
unfolding observe_all
observe_all-append [] ys = add-no_packets ys
observe_all-append (status ∷ xs) ys =
    ap (observe status) (observe_all-append xs ys)
    ∙ observe-add status (observe_all xs) (observe_all ys)
