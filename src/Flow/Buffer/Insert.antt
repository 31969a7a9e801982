-- ===== src/Flow/Buffer/Insert.antt =====
-- The two outcomes of `buffer_out_of_order`: the direction as it was, or with the segment added.
use rustmate.Base.{
  ℕ, ◌≤◌, ◌<◌, ◌≡◌, refl, ◌⊎◌, inl, inr, ◌≢◌, List, arith, Bool-cases, wrapping_add, saturating_add,
  length, insert_at, ltb, leb, any, ◌==◌, ◌&&◌,
}
use rustmate.Packet.Segment.{TcpSegment, sequence_span, payload_sequence_start}
use rustmate.Flow.Config.{FlowTableConfig}
use rustmate.Flow.Payload.{BufferedSegment}
use rustmate.Flow.Buffer.{TcpDirectionState, buffered, buffer_out_of_order}

-- What the buffer keeps of a segment.
abbrev pub kept : TcpSegment → List ℕ → BufferedSegment
kept segment payload = record {
  start = segment.sequence_number;
  end = wrapping_add segment.sequence_number (sequence_span segment);
  payload_start = payload_sequence_start segment;
  bytes = payload;
}

abbrev pub with_kept : ℕ → TcpSegment → List ℕ → TcpDirectionState → TcpDirectionState
with_kept i segment payload state = record state {
  buffered = insert_at i (kept segment payload) state.buffered;
  buffered_bytes = saturating_add state.buffered_bytes (length payload);
}

pub record Room (config : FlowTableConfig) (flow_buffered_bytes : ℕ) (payload : List ℕ)
    (state : TcpDirectionState) : Type 0 where
  pub segments : length state.buffered < config.max_tcp_out_of_order_segments_per_direction
  pub bytes :
      saturating_add flow_buffered_bytes (length payload) ≤ config.max_tcp_buffered_bytes_per_flow

pub buffer_out_of_order-cases :
    (state : TcpDirectionState) (segment : TcpSegment) (payload : List ℕ) (config : FlowTableConfig)
    (flow_buffered_bytes : ℕ)
    → let r = buffer_out_of_order state segment payload config flow_buffered_bytes in
      ((r.0 ≡ state) × (r.1 ≢ buffered))
      ⊎ ((i : ℕ) × (r ≡ (with_kept i segment payload state, buffered))
          × Room config flow_buffered_bytes payload state)
unfolding buffer_out_of_order
buffer_out_of_order-cases state segment payload config flow_buffered_bytes =
    elim (Bool-cases (
      any
        (λ s.
          s.start == segment.sequence_number
          && s.end == wrapping_add segment.sequence_number (sequence_span segment))
        state.buffered)) [
          | inl t ↦ rw t (inl (refl, λ e. cc))
          | inr f ↦
              rw f
                (elim (Bool-cases (
                  leb config.max_tcp_out_of_order_segments_per_direction (length state.buffered))) [
                    | inl t ↦ rw t (inl (refl, λ e. cc))
                    | inr g ↦
                        rw g
                          (elim (Bool-cases (
                            ltb config.max_tcp_buffered_bytes_per_flow
                              (saturating_add flow_buffered_bytes (length payload)))) [
                                | inl t ↦ rw t (inl (refl, λ e. cc))
                                | inr h ↦ rw h (inr (_, refl, ground arith))
                              ])
                  ])
        ]
