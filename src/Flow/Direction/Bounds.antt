-- ===== src/Flow/Direction/Bounds.antt =====
-- The bounds on the buffer of out-of-order segments: its count of segments and of bytes.
use rustmate.Base.{
  ℕ, suc, ◌+◌, ◌-◌, ◌≤◌, ◌<◌, ◌≡◌, refl, sym, ap, ◌∙◌, inl, inr, false, Option, none, some, List,
  [], arith, ◌==◌, if_both, u64_max, saturating_add, length, sum_map, loop_inv, insert_at-Taken,
  length-Taken, sum_map-Taken,
}
use rustmate.Packet.Segment.{TcpSegment, sequence_span}
use rustmate.Flow.Seq.{seq_eq, seq_before, seq_after}
use rustmate.Flow.Chunk.{FlowDirection, StreamChunk, current_segment}
use rustmate.Flow.Config.{FlowTableConfig}
use rustmate.Flow.Stats.{FlowTableStats}
use rustmate.Flow.Payload.{
  BufferedSegment, push_current_stream_chunk, push_trimmed_current_stream_chunk,
}
use rustmate.Flow.Buffer.{
  TcpDirectionState, BufferOutcome, buffered, duplicate, dropped, Consuming, consume_segment,
  consume_step, consume_contiguous_buffer, buffer_out_of_order,
}
use rustmate.Flow.Buffer.Insert.{kept, buffer_out_of_order-cases}
use rustmate.Flow.Buffer.Consume.{consume_step-some}
use rustmate.Flow.Direction.{
  Observed, observation, count_segment, raise_highest, observe_init, observe_in_order,
  observe_overlap, observe_retransmission, observe_buffered, observe_at, observe_span, observe,
}

abbrev pub held_bytes : List BufferedSegment → ℕ
held_bytes = sum_map λ s. length s.bytes

-- `buffered_bytes` is what the buffer holds, no more than `most`, in at most as many segments as the
-- configuration allows.
pub record Bounded (config : FlowTableConfig) (most : ℕ) (state : TcpDirectionState) : Type 0 where
  pub counted : state.buffered_bytes ≡ held_bytes state.buffered
  pub bytes : state.buffered_bytes ≤ most
  pub segments : length state.buffered ≤ config.max_tcp_out_of_order_segments_per_direction

module _ (config : FlowTableConfig) (most : ℕ) where
  -- Only the buffer and its count of bytes matter.
  same_buffer :
      {state state' : TcpDirectionState}
      → state'.buffered ≡ state.buffered
      → state'.buffered_bytes ≡ state.buffered_bytes
      → Bounded config most state
      → Bounded config most state'
  same_buffer h k b = record {
    counted = k ∙ b.counted ∙ ap held_bytes (sym h);
    bytes = omega (arith, b.bytes);
    segments = omega (arith, b.segments, ap length h);
  }

  consume_segment-Bounded :
      (d : FlowDirection) (x : ℕ) (s : BufferedSegment) (rest : List BufferedSegment)
      (c : Consuming)
      → held_bytes c.state.buffered ≡ length s.bytes + held_bytes rest
      → length c.state.buffered ≡ suc (length rest)
      → Bounded config most c.state
      → Bounded config most (consume_segment d x s rest c).state
  unfolding consume_segment
  consume_segment-Bounded d x s rest c h k b =
      if_both (λ (o : Consuming). Bounded config most o.state) (seq_after s.end x)
        (λ _. fewer (record c.state { next_seq = some s.end })) (λ _. fewer c.state)
    where
      fewer :
          (state : TcpDirectionState)
          → Bounded config most (record state {
            buffered = rest;
            buffered_bytes = c.state.buffered_bytes - length s.bytes;
          })
      fewer state = record {
        counted = omega (arith, h, b.counted);
        bytes = omega (arith, b.bytes);
        segments = omega (arith, k, b.segments);
      }

  consume_step-Bounded :
      (d : FlowDirection) (c c' : Consuming)
      → Bounded config most c.state
      → consume_step d c ≡ some c'
      → Bounded config most c'.state
  consume_step-Bounded d c c' b e =
      let (x, s, rest, n, t, k, q) = consume_step-some d c c' e in
      rw q (
        consume_segment-Bounded d x s rest c
          (sum_map-Taken (λ (s : BufferedSegment). length s.bytes) k) (length-Taken k) b)

  consume_contiguous_buffer-Bounded :
      (state : TcpDirectionState) (d : FlowDirection) (chunks : List StreamChunk)
      → Bounded config most state
      → Bounded config most (consume_contiguous_buffer state d chunks).state
  unfolding consume_contiguous_buffer
  consume_contiguous_buffer-Bounded state d chunks b =
      loop_inv (consume_step d) (λ c. Bounded config most c.state)
        (λ c c' h e. consume_step-Bounded d c c' h e) (suc (length state.buffered))
        (record { state = state; stream_chunks = chunks; advanced = false }) b

-- `other` bytes stand in the buffer of the opposite direction.
module _ (config : FlowTableConfig) (other : ℕ)
    (room : other ≤ config.max_tcp_buffered_bytes_per_flow)
    (large : config.max_tcp_buffered_bytes_per_flow < u64_max) where
  abbrev most : ℕ
  most = config.max_tcp_buffered_bytes_per_flow - other

  abbrev Within : TcpDirectionState → Type 0
  Within = Bounded config most

  abbrev WithinAfter : Observed → Type 0
  WithinAfter o = Within o.state

  buffer_out_of_order-Within :
      (state : TcpDirectionState) (segment : TcpSegment) (payload : List ℕ)
      → Within state
      → Within (buffer_out_of_order state segment payload config (state.buffered_bytes + other)).0
  buffer_out_of_order-Within state segment payload b =
      elim (buffer_out_of_order-cases state segment payload config (state.buffered_bytes + other)) [
        | inl (same, _) ↦ rw same b
        | inr (i, e, r) ↦
            let t = insert_at-Taken i (kept segment payload) state.buffered in
            let n = sum_map-Taken (λ (s : BufferedSegment). length s.bytes) t in
            rw e (record {
              counted = omega (arith, b.counted, b.bytes, r.bytes, n);
              bytes = omega (arith, b.bytes, r.bytes);
              segments = omega (arith, r.segments, length-Taken t);
            })
      ]

  module _ (d : FlowDirection) (segment : TcpSegment) (payload : List ℕ)
      (stats : FlowTableStats) where
    init-Within :
        (end_ : ℕ) (state : TcpDirectionState)
        → Within state
        → WithinAfter (observe_init d segment payload end_ stats state)
    unfolding observe_init
    init-Within end_ state b =
        consume_contiguous_buffer-Bounded config most
          (record state { initial_seq = some segment.sequence_number; next_seq = some end_ }) d
          (push_current_stream_chunk [] d segment payload current_segment)
          (same_buffer config most refl refl b)

    in_order-Within :
        (end_ : ℕ) (state : TcpDirectionState)
        → Within state
        → WithinAfter (observe_in_order d segment payload end_ stats state)
    unfolding observe_in_order
    in_order-Within end_ state b =
        consume_contiguous_buffer-Bounded config most (record state { next_seq = some end_ }) d
          (push_current_stream_chunk [] d segment payload current_segment)
          (same_buffer config most refl refl b)

    overlap-Within :
        (end_ expected : ℕ) (state : TcpDirectionState)
        → Within state
        → WithinAfter (observe_overlap d segment payload end_ expected stats state)
    unfolding observe_overlap
    overlap-Within end_ expected state b =
        consume_contiguous_buffer-Bounded config most
          (record state { overlaps = saturating_add state.overlaps 1; next_seq = some end_ }) d
          (push_trimmed_current_stream_chunk [] d segment payload expected)
          (same_buffer config most refl refl b)

    retransmission-Within :
        (state : TcpDirectionState)
        → Within state
        → WithinAfter (observe_retransmission segment payload stats state)
    unfolding observe_retransmission
    retransmission-Within state b = same_buffer config most refl refl b

    buffered-Within :
        (r : TcpDirectionState × BufferOutcome)
        → Within r.0
        → WithinAfter (observe_buffered segment payload stats r)
    unfolding observe_buffered
    buffered-Within (state, buffered) b = same_buffer config most refl refl b
    buffered-Within (state, duplicate) b = same_buffer config most refl refl b
    buffered-Within (state, dropped) b = same_buffer config most refl refl b

    observe_span-Within :
        (end_ : ℕ) (next : Option ℕ) (state : TcpDirectionState)
        → Within state
        → WithinAfter (
            observe_span d segment payload config
              (state.buffered_bytes + other)
              end_
              next
              stats
              state)
    unfolding observe_span observe_at
    observe_span-Within end_ none state b = init-Within end_ state b
    observe_span-Within end_ (some expected) state b =
        if_both WithinAfter (seq_eq segment.sequence_number expected)
          (λ _. in_order-Within end_ state b)
          (λ _.
            if_both WithinAfter (seq_before segment.sequence_number expected)
              (λ _.
                if_both WithinAfter (seq_after end_ expected)
                  (λ _. overlap-Within end_ expected state b) (λ _. retransmission-Within state b))
              (λ _. buffered-Within _ (buffer_out_of_order-Within state segment payload b)))

    pub observe-Within :
        (state : TcpDirectionState)
        → Within state
        → WithinAfter (observe d segment payload config (state.buffered_bytes + other) stats state)
    unfolding observe observation count_segment raise_highest
    observe-Within state b =
        if_both WithinAfter segment.flags.rst (λ _. same_buffer config most refl refl b)
          (λ _.
            if_both WithinAfter (sequence_span segment == 0)
              (λ _. same_buffer config most refl refl b)
              (λ _.
                observe_span-Within _ state.next_seq (raise_highest _ (count_segment segment state))
                  (same_buffer config most refl refl b)))
