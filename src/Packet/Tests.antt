-- ===== src/Packet/Tests.antt =====
-- An IPv6 packet with a hop-by-hop header before its fragment header.
use rustmate.Base.{ℕ, ◌≡◌, refl, none, some, List, [], ◌∷◌, ◌++◌}
use rustmate.Packet.Decoded.{DecodedPacket, raw_ip, ipv6}
use rustmate.Packet.Fragment.Reads.{Returns}
use rustmate.Packet.Status.{parsed, fragmented, malformed, add, decode_status}
use rustmate.Packet.Status.Counters.{decode_status-Returns, observe_all, observe_all-append}

abbrev eight_zeros : List ℕ
eight_zeros = 0 ∷ 0 ∷ 0 ∷ 0 ∷ 0 ∷ 0 ∷ 0 ∷ 0 ∷ []

abbrev fragment : DecodedPacket
fragment = record {
  timestamp = record { sec = 1; usec = 0 };
  link_layer = raw_ip;
  raw =
      0x60 ∷ (0 ∷ 0 ∷ 0 ∷ 0 ∷ 16 ∷ 0 ∷ 64 ∷ [])
      ++ eight_zeros
      ++ eight_zeros
      ++ eight_zeros
      ++ eight_zeros
      ++ (44 ∷ 0 ∷ 0 ∷ 0 ∷ 0 ∷ 0 ∷ 0 ∷ 0 ∷ [])
      ++ eight_zeros;
  parsed = some (record { net = some (ipv6 [] []); transport = none });
  decode_error = none;
}

fragment_is_found : decode_status fragment ≡ some fragmented
unfolding decode_status
fragment_is_found = refl

decode_status-Returns_example : Returns (decode_status fragment)
decode_status-Returns_example = decode_status-Returns fragment

observe_all-append_example :
    observe_all ((parsed ∷ fragmented ∷ []) ++ malformed ∷ [])
    ≡ add (observe_all (parsed ∷ fragmented ∷ [])) (observe_all (malformed ∷ []))
observe_all-append_example = observe_all-append (parsed ∷ fragmented ∷ []) (malformed ∷ [])
