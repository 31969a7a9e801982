-- ===== src/Packet/Fragment.antt =====
-- src/packet/mod.rs: whether the raw bytes of a packet are a fragment of an IP datagram. Where the
-- source indexes, `data[i]`, it panics out of range: there the answer is `none`.
pub mod Reads
use Prim.Native.Nat.{bit_and, zero}
use rustmate.Base.{
  ℕ, suc, ◌+◌, ◌*◌, ◌/◌, Bool, true, false, not, ◌||◌, Option, none, some, List, ltb, ◌==◌,
  if◌then◌else◌, saturating_add, length, get_elem?, ◌>>=◌,
}
use rustmate.Packet.Decoded.{LinkLayer, ethernet, linux_sll, raw_ip, bsd_loopback, unsupported}

unfoldable pub read_u16 : List ℕ → ℕ → Option ℕ
read_u16 bytes offset = do
  high ← get_elem? bytes offset
  low ← get_elem? bytes (offset + 1)
  some (high * 256 + low)

pub data NetworkHeader : Type 0 where
  ipv4 ipv6 : NetworkHeader

unfoldable pub network_from_ethertype : ℕ → Option NetworkHeader
network_from_ethertype ethertype =
    if ethertype == 0x0800 then some ipv4 else if ethertype == 0x86dd then some ipv6 else none

unfoldable pub network_from_ip_version : List ℕ → ℕ → Option NetworkHeader
network_from_ip_version bytes offset = do
  byte ← get_elem? bytes offset
  if byte / 16 == 4 then some ipv4 else if byte / 16 == 6 then some ipv6 else none

-- `n` more VLAN tags may follow.
unfoldable pub skip_vlan : ℕ → List ℕ → ℕ → ℕ → Option (ℕ × ℕ)
unfolding read_u16
skip_vlan zero bytes ethertype offset = some (ethertype, offset)
skip_vlan (suc n) bytes ethertype offset =
    if ethertype == 0x8100 || ethertype == 0x88a8 || ethertype == 0x9100
    then (if ltb (length bytes) (offset + 4) then none else elim (read_u16 bytes (offset + 2)) [
      | none ↦ none
      | some inner ↦ skip_vlan n bytes inner (offset + 4)
    ])
    else some (ethertype, offset)

unfoldable pub ethernet_payload : List ℕ → Option (ℕ × ℕ)
unfolding read_u16 skip_vlan
ethernet_payload bytes =
    if ltb (length bytes) 14
    then none
    else elim (read_u16 bytes 12) [ none ↦ none | some ethertype ↦ skip_vlan 2 bytes ethertype 14 ]

unfoldable pub network_payload : LinkLayer → List ℕ → Option (NetworkHeader × ℕ)
unfolding read_u16 ethernet_payload network_from_ethertype network_from_ip_version
network_payload ethernet bytes = do
  (ethertype, offset) ← ethernet_payload bytes
  network ← network_from_ethertype ethertype
  some (network, offset)
network_payload linux_sll bytes = do
  ethertype ← read_u16 bytes 14
  network ← network_from_ethertype ethertype
  some (network, 16)
network_payload raw_ip bytes = do network ← network_from_ip_version bytes 0; some (network, 0)
network_payload bsd_loopback bytes = do network ← network_from_ip_version bytes 4; some (network, 4)
network_payload unsupported bytes = none

unfoldable pub ipv4_is_fragmented : List ℕ → ℕ → Bool
unfolding read_u16
ipv4_is_fragmented bytes offset = elim (read_u16 bytes (offset + 6)) [
  | none ↦ false
  | some flags_and_offset ↦ not (bit_and flags_and_offset 0x3fff == 0)
]

-- At most `n` more headers are read, the first of them of the kind `next_header`, at `cursor`.
unfoldable pub walk_ipv6 : ℕ → List ℕ → ℕ → ℕ → Option Bool
walk_ipv6 zero bytes next_header cursor = some false
walk_ipv6 (suc n) bytes next_header cursor =
    let read_next : ℕ → ℕ → Option Bool = λ extra unit.
      if ltb (length bytes) (cursor + 2) then some false else elim (get_elem? bytes cursor) [
        | none ↦ none
        | some next ↦ elim (get_elem? bytes (cursor + 1)) [
          | none ↦ none
          | some size ↦ walk_ipv6 n bytes next (saturating_add cursor ((size + extra) * unit))
        ]
      ] in
    if next_header == 44
    then some true
    else if next_header == 0 || next_header == 43 || next_header == 60
    then read_next 1 8
    else if next_header == 51
    then read_next 2 4
    else some false

unfoldable pub ipv6_is_fragmented : List ℕ → ℕ → Option Bool
unfolding walk_ipv6
ipv6_is_fragmented bytes offset =
    if ltb (length bytes) (offset + 40) then some false else elim (get_elem? bytes offset) [
      | none ↦ none
      | some byte ↦
          if byte / 16 == 6
          then (elim (get_elem? bytes (offset + 6)) [
            | none ↦ none
            | some next_header ↦ walk_ipv6 8 bytes next_header (offset + 40)
          ])
          else some false
    ]

unfoldable pub raw_packet_is_fragmented : LinkLayer → List ℕ → Option Bool
unfolding network_payload ipv4_is_fragmented ipv6_is_fragmented
raw_packet_is_fragmented link_layer bytes = elim (network_payload link_layer bytes) [
  | none ↦ some false
  | some (ipv4, offset) ↦ some (ipv4_is_fragmented bytes offset)
  | some (ipv6, offset) ↦ ipv6_is_fragmented bytes offset
]
