-- ===== src/Flow/Direction/Branches.antt =====
-- The branches of `observe`, each against the stream that the segments are cut from.
use rustmate.Base.{
  ℕ, ◌≤◌, ◌<◌, ◌≡◌, refl, sym, ap₂, ◌∙◌, inl, inr, some, List, [], ◌++◌, arith, append-nil, subst,
  All, All-put, insert_at-Taken,
}
use rustmate.Packet.Segment.{TcpSegment}
use rustmate.Flow.Seq.Window.{at}
use rustmate.Flow.Chunk.{FlowDirection, StreamChunk, current_segment, payload_of}
use rustmate.Flow.Config.{FlowTableConfig}
use rustmate.Flow.Stats.{FlowTableStats}
use rustmate.Flow.Payload.{push_current_stream_chunk}
use rustmate.Flow.Payload.Cut.{
  sequence_span-Slice, payload_sequence_start-Slice, payload_of-push_current,
  payload_of-push_trimmed,
}
use rustmate.Flow.Stream.{between, Fits, Slice, Held}
use rustmate.Flow.Stream.Slices.{between-append}
use rustmate.Flow.Buffer.{
  TcpDirectionState, BufferOutcome, buffered, duplicate, dropped, buffer_out_of_order,
}
use rustmate.Flow.Buffer.Insert.{kept, buffer_out_of_order-cases}
use rustmate.Flow.Buffer.Follow.{At, Follows, consume_contiguous_buffer-Follows}
use rustmate.Flow.Direction.{
  Observed, observe_init, observe_in_order, observe_overlap, observe_retransmission,
  observe_buffered,
}

-- A direction that began at position `b` and has passed `r`: `out`, what it has emitted so far, is
-- the stream from `b` up to where it stands.
pub record Started (isn : ℕ) (stream : List ℕ) (b r : ℕ) (out : List ℕ) (state : TcpDirectionState)
    : Type 0 where
  pub position : ℕ
  pub stands : At isn stream position state
  pub later : b ≤ position
  pub passed : r ≤ position
  pub all : out ≡ between stream b position

-- The same once `o` is observed.
abbrev pub StartedAfter : ℕ → List ℕ → ℕ → ℕ → List ℕ → Observed → Type 0
StartedAfter isn stream b r out o =
    Started isn stream b r (out ++ payload_of o.observation.stream_chunks) o.state

module _ (isn : ℕ) (stream : List ℕ) (out : List ℕ) where
  -- A branch that emits nothing.
  pub quiet :
      {b r : ℕ} {state : TcpDirectionState}
      → Started isn stream b r out state
      → Started isn stream b r (out ++ []) state
  quiet {b} {r} {state} t = subst (λ o. Started isn stream b r o state) (sym (append-nil out)) t

  -- The fields that a direction's place in the stream rests on.
  pub same_place :
      {b r : ℕ} {state state' : TcpDirectionState}
      → state'.next_seq ≡ state.next_seq
      → state'.buffered ≡ state.buffered
      → Started isn stream b r out state
      → Started isn stream b r out state'
  same_place n h t = record {
    position = t.position;
    stands = record {
      next = n ∙ t.stands.next;
      inside = t.stands.inside;
      held = subst (All (Held isn stream)) (sym h) t.stands.held;
    };
    later = t.later;
    passed = t.passed;
    all = t.all;
  }

  follow :
      {b r : ℕ} {state : TcpDirectionState} {chunks : List StreamChunk}
      → Follows isn stream b r out state chunks
      → Started isn stream b r (out ++ payload_of chunks) state
  follow f = record {
    position = f.position;
    stands = f.stands;
    later = f.later;
    passed = f.passed;
    all = f.all;
  }

  module _ (fits : Fits stream) {segment : TcpSegment} {payload : List ℕ}
      (s : Slice isn stream segment payload) (d : FlowDirection) (stats : FlowTableStats) where
    pub init-Started :
        (state : TcpDirectionState)
        → state.buffered ≡ []
        → out ≡ []
        → StartedAfter isn stream s.first s.last out
            (observe_init d segment payload (at isn s.last) stats state)
    unfolding observe_init payload_of
    init-Started state none_held fresh = follow (
        consume_contiguous_buffer-Follows isn stream fits s.first s.last out begun d
          (push_current_stream_chunk [] d segment payload current_segment)
          (record {
            position = s.last;
            stands = record { next = refl; inside = s.inside; held = rw none_held tt };
            later = omega (arith, s.nonempty);
            passed = omega arith;
            all = rw fresh (payload_of-push_current isn stream fits s [] d current_segment);
          }))
      where
        begun : TcpDirectionState
        begun = record state {
          initial_seq = some segment.sequence_number;
          next_seq = some (at isn s.last);
        }

    pub in_order-Started :
        (state : TcpDirectionState) (b : ℕ)
        → At isn stream s.first state
        → b ≤ s.first
        → out ≡ between stream b s.first
        → StartedAfter isn stream b s.last out
            (observe_in_order d segment payload (at isn s.last) stats state)
    unfolding observe_in_order payload_of
    in_order-Started state b a h e = follow (
        consume_contiguous_buffer-Follows isn stream fits b s.last out _ d _ (record {
          position = s.last;
          stands = record { next = refl; inside = s.inside; held = a.held };
          later = omega (arith, s.nonempty);
          passed = omega arith;
          all =
              ap₂ ◌++◌ e (payload_of-push_current isn stream fits s [] d current_segment)
              ∙ between-append stream b s.first s.last h (omega (arith, s.nonempty));
        }))

    pub overlap-Started :
        (state : TcpDirectionState) (b p : ℕ)
        → At isn stream p state
        → b ≤ p
        → out ≡ between stream b p
        → s.first ≤ p
        → p < s.last
        → StartedAfter isn stream b s.last out
            (observe_overlap d segment payload (at isn s.last) (at isn p) stats state)
    unfolding observe_overlap payload_of
    overlap-Started state b p a h e k l = follow (
        consume_contiguous_buffer-Follows isn stream fits b s.last out _ d _ (record {
          position = s.last;
          stands = record { next = refl; inside = s.inside; held = a.held };
          later = omega arith;
          passed = omega arith;
          all =
              ap₂ ◌++◌ e (payload_of-push_trimmed isn stream fits s [] d p k l)
              ∙ between-append stream b p s.last h (omega arith);
        }))

    pub retransmission-Started :
        (state : TcpDirectionState) {b r : ℕ}
        → Started isn stream b r out state
        → StartedAfter isn stream b r out (observe_retransmission segment payload stats state)
    unfolding observe_retransmission payload_of
    retransmission-Started state t = quiet (same_place refl refl t)

    -- What the slice leaves in the buffer is a slice of the stream.
    Held-slice : Held isn stream (kept segment payload)
    Held-slice = record {
      first = s.first;
      last = s.last;
      nonempty = s.nonempty;
      inside = s.inside;
      starts = s.sequence;
      ends = sequence_span-Slice isn stream fits s;
      payload_starts = payload_sequence_start-Slice isn stream fits s;
      holds = s.bytes;
    }

    pub buffer-At :
        (state : TcpDirectionState) (p : ℕ) (config : FlowTableConfig) (flow_buffered_bytes : ℕ)
        → At isn stream p state
        → At isn stream p (buffer_out_of_order state segment payload config flow_buffered_bytes).0
    buffer-At state p config flow_buffered_bytes a =
        elim (buffer_out_of_order-cases state segment payload config flow_buffered_bytes) [
          | inl (same, _) ↦ rw same a
          | inr (i, e, _) ↦ rw e (record {
            next = a.next;
            inside = a.inside;
            held =
                All-put (Held isn stream) (insert_at-Taken i (kept segment payload) state.buffered)
                  Held-slice a.held;
          })
        ]

    pub buffered-Started :
        (o : TcpDirectionState × BufferOutcome) {b r : ℕ}
        → Started isn stream b r out o.0
        → StartedAfter isn stream b r out (observe_buffered segment payload stats o)
    unfolding observe_buffered payload_of
    buffered-Started (state, buffered) t = quiet (same_place refl refl t)
    buffered-Started (state, duplicate) t = quiet (same_place refl refl t)
    buffered-Started (state, dropped) t = quiet (same_place refl refl t)
