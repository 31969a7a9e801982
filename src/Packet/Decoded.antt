-- ===== src/Packet/Decoded.antt =====
-- src/packet/mod.rs: decoded packets. What the etherparse crate makes of the bytes is data here: the
-- values of the accessors that the source calls on its slices.
use rustmate.Base.{ℕ, List, Option, none, some, length}
use rustmate.Packet.Segment.{TransportProtocol, tcp, udp, icmpv4, icmpv6, TcpFlags, TcpSegment}

pub record PacketTimestamp : Type 0 where
  pub sec : ℕ
  pub usec : ℕ

pub data LinkLayer : Type 0 where
  ethernet linux_sll raw_ip bsd_loopback unsupported : LinkLayer

-- The octets, most significant first.
pub data IpAddr : Type 0 where
  v4 v6 : List ℕ → IpAddr

-- `NetSlice`: `other` is every variant but the two IP versions.
pub data NetSlice : Type 0 where
  ipv4 ipv6 : (source_addr destination_addr : List ℕ) → NetSlice
  other : NetSlice

pub record TcpSlice : Type 0 where
  pub source_port : ℕ
  pub destination_port : ℕ
  pub sequence_number : ℕ
  pub acknowledgment_number : ℕ
  pub flags : TcpFlags
  pub window_size : ℕ
  pub payload : List ℕ

pub data TransportSlice : Type 0 where
  tcp_slice : TcpSlice → TransportSlice
  udp_slice : (source_port destination_port : ℕ) (payload : List ℕ) → TransportSlice
  icmpv4_slice icmpv6_slice : (payload : List ℕ) → TransportSlice

pub record SlicedPacket : Type 0 where
  pub net : Option NetSlice
  pub transport : Option TransportSlice

-- The text of a decoding error is the crate's; it is left out.
pub data PacketDecodeError : Type 0 where
  decode_error unsupported_link_layer : PacketDecodeError

pub record DecodedPacket : Type 0 where
  pub timestamp : PacketTimestamp
  pub link_layer : LinkLayer
  pub raw : List ℕ
  pub parsed : Option SlicedPacket
  pub decode_error : Option PacketDecodeError

pub record TransportPayload : Type 0 where
  pub protocol : TransportProtocol
  pub source_port : Option ℕ
  pub destination_port : Option ℕ
  pub bytes : List ℕ
  pub tcp : Option TcpSegment

net_addresses : Option NetSlice → Option IpAddr × Option IpAddr
net_addresses (some (ipv4 source destination)) = (some (v4 source), some (v4 destination))
net_addresses (some (ipv6 source destination)) = (some (v6 source), some (v6 destination))
net_addresses (some other) = (none, none)
net_addresses none = (none, none)

unfoldable pub ip_addresses : DecodedPacket → Option IpAddr × Option IpAddr
unfolding net_addresses
ip_addresses packet = elim packet.parsed [
  | none ↦ (none, none)
  | some parsed ↦ net_addresses parsed.net
]

transport_of : TransportSlice → TransportPayload
transport_of (tcp_slice t) = record {
  protocol = tcp;
  source_port = some t.source_port;
  destination_port = some t.destination_port;
  bytes = t.payload;
  tcp = some (record {
    sequence_number = t.sequence_number;
    acknowledgment_number = t.acknowledgment_number;
    flags = t.flags;
    window_size = t.window_size;
    payload_len = length t.payload;
  });
}
transport_of (udp_slice source_port destination_port payload) = record {
  protocol = udp;
  source_port = some source_port;
  destination_port = some destination_port;
  bytes = payload;
  tcp = none;
}
transport_of (icmpv4_slice payload) = record {
  protocol = icmpv4;
  source_port = none;
  destination_port = none;
  bytes = payload;
  tcp = none;
}
transport_of (icmpv6_slice payload) = record {
  protocol = icmpv6;
  source_port = none;
  destination_port = none;
  bytes = payload;
  tcp = none;
}

unfoldable pub transport_payload : DecodedPacket → Option TransportPayload
unfolding transport_of
transport_payload packet = elim packet.parsed [
  | none ↦ none
  | some parsed ↦ elim parsed.transport [ none ↦ none | some t ↦ some (transport_of t) ]
]
