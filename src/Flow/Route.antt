-- ===== src/Flow/Route.antt =====
-- src/flow/mod.rs: the key of a flow and the direction of a packet on it (`FlowKey`, `FlowRoute`).
pub mod Symmetry
use Prim.Native.Nat.{bit_xor, compare, Ordering}
use rustmate.Base.{
  ℕ, ◌*◌, ◌/◌, ◌%◌, ◌^◌, Bool, true, false, Option, none, some, List, [], ◌∷◌, ◌++◌, leb, ltb,
  if◌then◌else◌,
}
use rustmate.Packet.Segment.{TransportProtocol, tcp, udp, icmpv4, icmpv6}
use rustmate.Packet.Decoded.{
  IpAddr, v4, v6, DecodedPacket, TransportPayload, ip_addresses, transport_payload,
}
use rustmate.Flow.Chunk.{FlowDirection, a_to_b, b_to_a}

pub record Endpoint : Type 0 where
  pub addr : IpAddr
  pub port : ℕ

pub record FlowKey : Type 0 where
  pub protocol : TransportProtocol
  pub a : Endpoint
  pub b : Endpoint

pub record FlowRoute : Type 0 where
  pub key : FlowKey
  pub direction : FlowDirection

-- The key by which endpoints are ordered: version, sixteen bytes, port.
abbrev pub SortKey : Type 0
SortKey = ℕ × List ℕ × ℕ

abbrev zeros : List ℕ
zeros = 0 ∷ 0 ∷ 0 ∷ 0 ∷ 0 ∷ 0 ∷ 0 ∷ 0 ∷ 0 ∷ 0 ∷ 0 ∷ 0 ∷ []

addr_key : IpAddr → ℕ → SortKey
addr_key (v4 octets) port = (4, zeros ++ octets, port)
addr_key (v6 octets) port = (6, octets, port)

unfoldable pub endpoint_sort_key : Endpoint → SortKey
unfolding addr_key
endpoint_sort_key endpoint = addr_key endpoint.addr endpoint.port

-- The order of arrays and tuples: the first difference decides.
unfoldable pub compare_bytes : List ℕ → List ℕ → Ordering
compare_bytes [] [] = Ordering.eq
compare_bytes [] (y ∷ ys) = Ordering.lt
compare_bytes (x ∷ xs) [] = Ordering.gt
compare_bytes (x ∷ xs) (y ∷ ys) = elim (compare x y) [
  | Ordering.lt ↦ Ordering.lt
  | Ordering.eq ↦ compare_bytes xs ys
  | Ordering.gt ↦ Ordering.gt
]

unfoldable pub sort_key_le : SortKey → SortKey → Bool
unfolding compare_bytes
sort_key_le (v, bytes, port) (v', bytes', port') = elim (compare v v') [
  | Ordering.lt ↦ true
  | Ordering.gt ↦ false
  | Ordering.eq ↦ elim (compare_bytes bytes bytes') [
    | Ordering.lt ↦ true
    | Ordering.gt ↦ false
    | Ordering.eq ↦ leb port port'
  ]
]

unfoldable pub new : TransportProtocol → Endpoint → Endpoint → FlowRoute
new protocol source destination =
    if sort_key_le (endpoint_sort_key source) (endpoint_sort_key destination)
    then record {
      key = record { protocol = protocol; a = source; b = destination };
      direction = a_to_b;
    }
    else record {
      key = record { protocol = protocol; a = destination; b = source };
      direction = b_to_a;
    }

-- `?` on each of the four options; the protocol is that of the payload.
route_of :
    TransportProtocol → Option ℕ → Option ℕ → Option IpAddr × Option IpAddr → Option FlowRoute
unfolding new
route_of protocol (some source_port) (some destination_port) (some source, some destination) =
    some (
      new protocol (record { addr = source; port = source_port })
        (record { addr = destination; port = destination_port }))
route_of protocol (some source_port) (some destination_port) (some source, none) = none
route_of protocol (some source_port) (some destination_port) (none, d) = none
route_of protocol (some source_port) none addresses = none
route_of protocol none d addresses = none

unfoldable pub from_packet : DecodedPacket → Option FlowRoute
unfolding route_of ip_addresses transport_payload
from_packet packet = elim (transport_payload packet) [
  | none ↦ none
  | some t ↦ route_of t.protocol t.source_port t.destination_port (ip_addresses packet)
]

-- FNV-1a over 64 bits.
unfoldable pub write_u8 : ℕ → ℕ → ℕ
write_u8 hash byte = (bit_xor hash byte * 0x100000001b3) % 2 ^ 64

unfoldable pub write_bytes : ℕ → List ℕ → ℕ
unfolding write_u8
write_bytes hash [] = hash
write_bytes hash (byte ∷ bytes) = write_bytes (write_u8 hash byte) bytes

unfoldable pub write_u16 : ℕ → ℕ → ℕ
unfolding write_bytes
write_u16 hash value = write_bytes hash (value / 256 ∷ value % 256 ∷ [])

write_addr : ℕ → IpAddr → ℕ
unfolding write_u8 write_bytes
write_addr hash (v4 octets) = write_bytes (write_u8 hash 4) octets
write_addr hash (v6 octets) = write_bytes (write_u8 hash 6) octets

unfoldable pub write_endpoint : ℕ → Endpoint → ℕ
unfolding write_addr write_u16
write_endpoint hash endpoint = write_u16 (write_addr hash endpoint.addr) endpoint.port

protocol_code : TransportProtocol → ℕ
protocol_code tcp = 1
protocol_code udp = 2
protocol_code icmpv4 = 3
protocol_code icmpv6 = 4

unfoldable pub stable_id : FlowKey → ℕ
unfolding write_u8 write_endpoint protocol_code
stable_id key =
    write_endpoint (write_endpoint (write_u8 0xcbf29ce484222325 (protocol_code key.protocol)) key.a)
      key.b
