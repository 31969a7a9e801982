-- ===== src/Flow/Route/Symmetry.antt =====
-- Both directions of a conversation have one key.
use Prim.Native.Nat.{Ordering}
use rustmate.Base.{ℕ, ◌≡◌, refl, ap, ◌≢◌, true, false, List, [], ◌∷◌, arith}
use rustmate.Packet.Segment.{TransportProtocol}
use rustmate.Packet.Decoded.{IpAddr, v4, v6}
use rustmate.Flow.Chunk.{FlowDirection, a_to_b, b_to_a}
use rustmate.Flow.Route.{
  Endpoint, SortKey, addr_key, endpoint_sort_key, compare_bytes, sort_key_le, new, stable_id,
}

compare_bytes-eq : (xs ys : List ℕ) → compare_bytes xs ys ≡ Ordering.eq → xs ≡ ys
unfolding compare_bytes
compare_bytes-eq [] [] e = refl
compare_bytes-eq [] (y ∷ ys) e = cc
compare_bytes-eq (x ∷ xs) [] e = cc
compare_bytes-eq (x ∷ xs) (y ∷ ys) e = ground (arith, compare_bytes-eq xs ys)

compare_bytes_flip :
    (xs ys : List ℕ)
    → (compare_bytes xs ys ≡ Ordering.lt → compare_bytes ys xs ≡ Ordering.gt)
      × (compare_bytes xs ys ≡ Ordering.gt → compare_bytes ys xs ≡ Ordering.lt)
      × (compare_bytes xs ys ≡ Ordering.eq → compare_bytes ys xs ≡ Ordering.eq)
unfolding compare_bytes
compare_bytes_flip [] [] = (λ e. cc, λ e. cc, λ e. refl)
compare_bytes_flip [] (y ∷ ys) = (λ e. refl, λ e. cc, λ e. cc)
compare_bytes_flip (x ∷ xs) [] = (λ e. cc, λ e. refl, λ e. cc)
compare_bytes_flip (x ∷ xs) (y ∷ ys) = (
  ground (arith, compare_bytes_flip xs ys),
  ground (arith, compare_bytes_flip xs ys),
  ground (arith, compare_bytes_flip xs ys),
)

-- The order is total.
sort_key_le_total : (j k : SortKey) → sort_key_le j k ≡ false → sort_key_le k j ≡ true
unfolding sort_key_le
sort_key_le_total (v, xs, p) (w, ys, q) e = ground (arith, compare_bytes_flip xs ys)

-- Only equal keys are below each other.
sort_key_le_antisym : (j k : SortKey) → sort_key_le j k ≡ true → sort_key_le k j ≡ true → j ≡ k
unfolding sort_key_le
sort_key_le_antisym (v, xs, p) (w, ys, q) e f =
    ground (arith, compare_bytes_flip xs ys, compare_bytes-eq xs ys)

addr_key-eq : (x y : IpAddr) (p q : ℕ) → addr_key x p ≡ addr_key y q → (x ≡ y) × (p ≡ q)
unfolding addr_key
addr_key-eq (v4 x) (v4 y) p q e = ground arith
addr_key-eq (v4 x) (v6 y) p q e = absurd (ground arith)
addr_key-eq (v6 x) (v4 y) p q e = absurd (ground arith)
addr_key-eq (v6 x) (v6 y) p q e = ground arith

endpoint_sort_key-eq : (x y : Endpoint) → endpoint_sort_key x ≡ endpoint_sort_key y → x ≡ y
unfolding endpoint_sort_key
endpoint_sort_key-eq x y e = ground (arith, addr_key-eq x.addr y.addr x.port y.port)

abbrev pub opposite : FlowDirection → FlowDirection
opposite a_to_b = b_to_a
opposite b_to_a = a_to_b

module _ (protocol : TransportProtocol) (x y : Endpoint) where
  key-new : (new protocol x y).key ≡ (new protocol y x).key
  unfolding new
  key-new = ground (
    arith,
    sort_key_le_total (endpoint_sort_key x) (endpoint_sort_key y),
    sort_key_le_antisym (endpoint_sort_key x) (endpoint_sort_key y),
    endpoint_sort_key-eq x y,
  )

  direction-new : x ≢ y → (new protocol y x).direction ≡ opposite (new protocol x y).direction
  unfolding new
  direction-new h = ground (
    arith,
    sort_key_le_total (endpoint_sort_key x) (endpoint_sort_key y),
    sort_key_le_antisym (endpoint_sort_key x) (endpoint_sort_key y),
    endpoint_sort_key-eq x y,
  )

-- Between two distinct endpoints, the route of the answer has the key of the question, so also its
-- stable id, and the opposite direction.
pub new_symmetric :
    (protocol : TransportProtocol) (x y : Endpoint)
    → x ≢ y
    → ((new protocol x y).key ≡ (new protocol y x).key)
      × (stable_id (new protocol x y).key ≡ stable_id (new protocol y x).key)
      × ((new protocol y x).direction ≡ opposite (new protocol x y).direction)
new_symmetric protocol x y h =
    (key-new protocol x y, ap stable_id (key-new protocol x y), direction-new protocol x y h)
