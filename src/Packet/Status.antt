-- ===== src/Packet/Status.antt =====
-- src/packet/mod.rs: what became of a packet (`PacketDecodeStatus`), and the counters of it.
pub mod Counters
use rustmate.Base.{
  ℕ, ◌+◌, Bool, true, false, ◌||◌, Option, none, some, List, saturating_add, if◌then◌else◌,
}
use rustmate.Packet.Decoded.{
  LinkLayer, NetSlice, ipv4, ipv6, other, SlicedPacket, PacketDecodeError, unsupported_link_layer,
  decode_error, DecodedPacket, TransportSlice,
}
use rustmate.Packet.Fragment.{raw_packet_is_fragmented}

pub data PacketDecodeStatus : Type 0 where
  parsed non_ip fragmented unsupported_transport malformed unsupported_link : PacketDecodeStatus

unfoldable pub is_decode_error : PacketDecodeStatus → Bool
is_decode_error parsed = false
is_decode_error non_ip = false
is_decode_error fragmented = false
is_decode_error unsupported_transport = false
is_decode_error malformed = true
is_decode_error unsupported_link = true

pub record PacketDecodeCounters : Type 0 where
  pub packet_parsed_packets : ℕ
  pub packet_non_ip_packets : ℕ
  pub packet_fragmented_packets : ℕ
  pub packet_unsupported_transport_packets : ℕ
  pub packet_malformed_packets : ℕ
  pub packet_unsupported_link_packets : ℕ

abbrev pub no_packets : PacketDecodeCounters
no_packets = record {
  packet_parsed_packets = 0;
  packet_non_ip_packets = 0;
  packet_fragmented_packets = 0;
  packet_unsupported_transport_packets = 0;
  packet_malformed_packets = 0;
  packet_unsupported_link_packets = 0;
}

unfoldable pub observe : PacketDecodeStatus → PacketDecodeCounters → PacketDecodeCounters
observe parsed c = record c { packet_parsed_packets = saturating_add c.packet_parsed_packets 1 }
observe non_ip c = record c { packet_non_ip_packets = saturating_add c.packet_non_ip_packets 1 }
observe fragmented c = record c {
  packet_fragmented_packets = saturating_add c.packet_fragmented_packets 1;
}
observe unsupported_transport c = record c {
  packet_unsupported_transport_packets = saturating_add c.packet_unsupported_transport_packets 1;
}
observe malformed c = record c {
  packet_malformed_packets = saturating_add c.packet_malformed_packets 1;
}
observe unsupported_link c = record c {
  packet_unsupported_link_packets = saturating_add c.packet_unsupported_link_packets 1;
}

unfoldable pub add : PacketDecodeCounters → PacketDecodeCounters → PacketDecodeCounters
add c o = record {
  packet_parsed_packets = saturating_add c.packet_parsed_packets o.packet_parsed_packets;
  packet_non_ip_packets = saturating_add c.packet_non_ip_packets o.packet_non_ip_packets;
  packet_fragmented_packets =
      saturating_add c.packet_fragmented_packets o.packet_fragmented_packets;
  packet_unsupported_transport_packets =
      saturating_add c.packet_unsupported_transport_packets o.packet_unsupported_transport_packets;
  packet_malformed_packets = saturating_add c.packet_malformed_packets o.packet_malformed_packets;
  packet_unsupported_link_packets =
      saturating_add c.packet_unsupported_link_packets o.packet_unsupported_link_packets;
}

unfoldable pub decode_error_packets : PacketDecodeCounters → ℕ
decode_error_packets c = saturating_add c.packet_malformed_packets c.packet_unsupported_link_packets

-- The `NetSlice` is one of the two IP versions.
unfoldable pub is_ip : Option NetSlice → Bool
is_ip (some (ipv4 source destination)) = true
is_ip (some (ipv6 source destination)) = true
is_ip (some other) = false
is_ip none = false

parsed_status : LinkLayer → List ℕ → SlicedPacket → Option PacketDecodeStatus
unfolding raw_packet_is_fragmented is_ip
parsed_status link_layer raw packet =
    if is_ip packet.net
    then (elim packet.transport [
      | some transport ↦ some parsed
      | none ↦ elim (raw_packet_is_fragmented link_layer raw) [
        | none ↦ none
        | some is_fragment ↦ some (if is_fragment then fragmented else unsupported_transport)
      ]
    ])
    else some non_ip

failed_status : LinkLayer → List ℕ → PacketDecodeError → Option PacketDecodeStatus
unfolding raw_packet_is_fragmented
failed_status link_layer raw unsupported_link_layer = some unsupported_link
failed_status link_layer raw decode_error = elim (raw_packet_is_fragmented link_layer raw) [
  | none ↦ none
  | some is_fragment ↦ some (if is_fragment then fragmented else malformed)
]

-- `none` where the source would panic.
unfoldable pub decode_status : DecodedPacket → Option PacketDecodeStatus
unfolding parsed_status failed_status
decode_status packet = elim packet.decode_error [
  | some error ↦ failed_status packet.link_layer packet.raw error
  | none ↦ elim packet.parsed [
    | none ↦ some malformed
    | some sliced ↦ parsed_status packet.link_layer packet.raw sliced
  ]
]
