-- ===== src/Packet/Fragment/Reads.antt =====
-- The reads of the fragmentation test are in range.
use rustmate.Base.{
  ℕ, zero, suc, ◌+◌, ◌*◌, ◌/◌, ◌<◌, ◌≡◌, refl, inl, inr, true, false, ◌||◌, Option, none, some,
  List, [], ◌∷◌, arith, ltb, ◌==◌, if◌then◌else◌, if_both, Option-cases, saturating_add, length,
  get_elem?,
}
use rustmate.Packet.Decoded.{LinkLayer}
use rustmate.Packet.Fragment.{
  ipv4, ipv6, network_payload, walk_ipv6, ipv4_is_fragmented, ipv6_is_fragmented,
  raw_packet_is_fragmented,
}

-- The answer is a value: no read was out of range.
abbrev pub Returns {ℓ} : {A : Type ℓ} → Option A → Type ℓ
Returns {A} o = (a : A) × (o ≡ some a)

get_elem?-Returns : (bytes : List ℕ) (i : ℕ) → i < length bytes → Returns (get_elem? bytes i)
get_elem?-Returns [] i h = absurd (omega arith)
get_elem?-Returns (x ∷ bytes) zero h = (x, refl)
get_elem?-Returns (x ∷ bytes) (suc i) h = get_elem?-Returns bytes i (omega arith)

walk_ipv6-Returns :
    (n : ℕ) (bytes : List ℕ) (next_header cursor : ℕ)
    → Returns (walk_ipv6 n bytes next_header cursor)
unfolding walk_ipv6
walk_ipv6-Returns zero bytes next_header cursor = (false, refl)
walk_ipv6-Returns (suc n) bytes next_header cursor =
    if_both Returns (next_header == 44) (λ _. (true, refl))
      (λ _.
        if_both Returns (next_header == 0 || next_header == 43 || next_header == 60)
          (λ _. further 1 8 (walk_ipv6-Returns n bytes))
          (λ _.
            if_both Returns (next_header == 51) (λ _. further 2 4 (walk_ipv6-Returns n bytes))
              (λ _. (false, refl))))
  where
    further :
        (extra unit : ℕ)
        → ((next at : ℕ) → Returns (walk_ipv6 n bytes next at))
        → Returns (
            if ltb (length bytes) (cursor + 2) then some false else elim (get_elem? bytes cursor) [
              | none ↦ none
              | some next ↦ elim (get_elem? bytes (cursor + 1)) [
                | none ↦ none
                | some size ↦ walk_ipv6 n bytes next (saturating_add cursor ((size + extra) * unit))
              ]
            ])
    further extra unit walked =
        if_both Returns (ltb (length bytes) (cursor + 2)) (λ _. (false, refl))
          (λ h.
            let (next, e) = get_elem?-Returns bytes cursor (ground arith) in
            let (size, f) = get_elem?-Returns bytes (cursor + 1) (ground arith) in
            rw (e, f) (walked next (saturating_add cursor ((size + extra) * unit))))

ipv6_is_fragmented-Returns :
    (bytes : List ℕ) (offset : ℕ) → Returns (ipv6_is_fragmented bytes offset)
unfolding ipv6_is_fragmented
ipv6_is_fragmented-Returns bytes offset =
    if_both Returns (ltb (length bytes) (offset + 40)) (λ _. (false, refl))
      (λ h.
        let (byte, e) = get_elem?-Returns bytes offset (ground arith) in
        let (next_header, f) = get_elem?-Returns bytes (offset + 6) (ground arith) in
        rw (e, f)
          (if_both Returns (byte / 16 == 6)
            (λ _. walk_ipv6-Returns 8 bytes next_header (offset + 40)) (λ _. (false, refl))))

pub raw_packet_is_fragmented-Returns :
    (link_layer : LinkLayer) (bytes : List ℕ) → Returns (raw_packet_is_fragmented link_layer bytes)
unfolding raw_packet_is_fragmented
raw_packet_is_fragmented-Returns link_layer bytes =
    elim (Option-cases (network_payload link_layer bytes)) [
      | inl e ↦ rw (e, raw_packet_is_fragmented) (false, refl)
      | inr ((ipv4, offset), e) ↦
          rw (e, raw_packet_is_fragmented) (ipv4_is_fragmented bytes offset, refl)
      | inr ((ipv6, offset), e) ↦
          rw (e, raw_packet_is_fragmented) (ipv6_is_fragmented-Returns bytes offset)
    ]
