-- ===== src/Flow/Tcp/Buffers.antt =====
-- The two buffers of a connection share one limit.
use native.Mathlib.Nat.{add_comm}
use rustmate.Base.{ℕ, ◌+◌, ◌-◌, ◌≤◌, ◌<◌, ◌≡◌, subst, List, arith, if_both, u64_max, length}
use rustmate.Packet.Segment.{TcpSegment}
use rustmate.Flow.Chunk.{FlowDirection, a_to_b, b_to_a}
use rustmate.Flow.Config.{FlowTableConfig}
use rustmate.Flow.Stats.{FlowTableStats}
use rustmate.Flow.Buffer.{TcpDirectionState}
use rustmate.Flow.Direction
use rustmate.Flow.Direction.{Observed}
use rustmate.Flow.Direction.Bounds.{Bounded, held_bytes, observe-Within}
use rustmate.Flow.Tcp.{
  TcpFlowState, FlowObserved, Directions, at_direction, set_direction, count_flags, observe,
}

-- Each direction's count of buffered bytes is what its buffer holds, and its buffer has no more
-- segments than the configuration allows; together they hold no more bytes than the configuration
-- allows for a flow.
pub record BuffersBounded (config : FlowTableConfig) (ds : Directions TcpDirectionState)
    : Type 0 where
  pub first_counted : ds.first.buffered_bytes ≡ held_bytes ds.first.buffered
  pub second_counted : ds.second.buffered_bytes ≡ held_bytes ds.second.buffered
  pub first_segments : length ds.first.buffered ≤ config.max_tcp_out_of_order_segments_per_direction
  pub second_segments :
      length ds.second.buffered ≤ config.max_tcp_out_of_order_segments_per_direction
  pub together :
      ds.first.buffered_bytes + ds.second.buffered_bytes ≤ config.max_tcp_buffered_bytes_per_flow

module _ (config : FlowTableConfig) (large : config.max_tcp_buffered_bytes_per_flow < u64_max)
    (segment : TcpSegment) (payload : List ℕ) (stats : FlowTableStats) where
  observed : FlowDirection → Directions TcpDirectionState → Observed
  observed d ds =
      Direction.observe d segment payload config
        (ds.first.buffered_bytes + ds.second.buffered_bytes) (count_flags segment stats)
        (at_direction d ds)

  directions-BuffersBounded :
      (d : FlowDirection) (ds : Directions TcpDirectionState)
      → BuffersBounded config ds
      → BuffersBounded config (set_direction d (observed d ds).state ds)
  unfolding observed
  directions-BuffersBounded a_to_b ds b =
      let w =
        observe-Within config ds.second.buffered_bytes (omega (arith, b.together)) large a_to_b
          segment payload (count_flags segment stats) ds.first
          (record {
            counted = b.first_counted;
            bytes = omega (arith, b.together);
            segments = b.first_segments;
          }) in
      record {
        first_counted = w.counted;
        second_counted = b.second_counted;
        first_segments = w.segments;
        second_segments = b.second_segments;
        together = omega (arith, w.bytes, b.together);
      }
  directions-BuffersBounded b_to_a ds b =
      let w =
        subst
          (λ n.
            Bounded config (config.max_tcp_buffered_bytes_per_flow - ds.first.buffered_bytes)
              (Direction.observe b_to_a segment payload config n (count_flags segment stats)
                ds.second).state)
          (add_comm ds.second.buffered_bytes ds.first.buffered_bytes)
          (observe-Within config ds.first.buffered_bytes (omega (arith, b.together)) large b_to_a
            segment payload (count_flags segment stats) ds.second
            (record {
              counted = b.second_counted;
              bytes = omega (arith, b.together);
              segments = b.second_segments;
            })) in
      record {
        first_counted = b.first_counted;
        second_counted = w.counted;
        first_segments = b.first_segments;
        second_segments = w.segments;
        together = omega (arith, w.bytes, b.together);
      }

  -- Whatever segment comes, in either direction, the connection's buffers stay within the limits of
  -- the configuration and their counts of bytes stay exact; the limit on bytes is below 2^64 - 1,
  -- where `saturating_add` could hide an excess.
  pub observe-BuffersBounded :
      (d : FlowDirection) (state : TcpFlowState)
      → BuffersBounded config state.directions
      → BuffersBounded config (observe d segment payload config stats state).state.directions
  unfolding observe observed
  observe-BuffersBounded d state b =
      if_both (λ (o : FlowObserved). BuffersBounded config o.state.directions) segment.flags.rst
        (λ _. directions-BuffersBounded d state.directions b)
        (λ _.
          if_both (λ (o : FlowObserved). BuffersBounded config o.state.directions) _
            (λ _. directions-BuffersBounded d state.directions b)
            (λ _. directions-BuffersBounded d state.directions b))
