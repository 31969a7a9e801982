-- ===== src/Flow/Buffer/Consume.antt =====
-- The loop of `consume_contiguous_buffer`: what a round does, and why the loop ends.
use rustmate.Base.{
  ℕ, suc, ◌<◌, ◌≡◌, inl, inr, true, false, none, some, Option-cases, List, arith, length, position,
  loop, loop_ends, Taken, length-Taken, position-remove, position-none, All,
}
use rustmate.Flow.Chunk.{FlowDirection, StreamChunk}
use rustmate.Flow.Payload.{BufferedSegment}
use rustmate.Flow.Buffer.{
  TcpDirectionState, Consuming, continues, consume_segment, consume_step, consume_contiguous_buffer,
}

-- A round that does not return takes one segment, which continues the stream, out of the buffer.
pub consume_step-some :
    (d : FlowDirection) (c c' : Consuming)
    → consume_step d c ≡ some c'
    → (expected : ℕ) × (segment : BufferedSegment) × (rest : List BufferedSegment)
      × (c.state.next_seq ≡ some expected)
      × (continues expected segment ≡ true)
      × Taken segment c.state.buffered rest
      × (c' ≡ consume_segment d expected segment rest c)
unfolding consume_step
consume_step-some d c c' e = elim (Option-cases c.state.next_seq) [
  | inl n ↦ absurd (ground arith)
  | inr (x, n) ↦ elim (Option-cases (position (continues x) c.state.buffered)) [
    | inl q ↦ absurd (ground arith)
    | inr (i, q) ↦
        let (segment, rest, r, t, k) = position-remove (continues x) c.state.buffered i q in
        (x, segment, rest, n, t, k, ground arith)
  ]
]

buffered-consume_segment :
    (d : FlowDirection) (expected : ℕ) (s : BufferedSegment) (rest : List BufferedSegment)
    (c : Consuming)
    → (consume_segment d expected s rest c).state.buffered ≡ rest
unfolding consume_segment
buffered-consume_segment d expected s rest c = ground arith

-- The loop returns only where no buffered segment continues the stream.
consume_step-none :
    (d : FlowDirection) (c : Consuming)
    → consume_step d c ≡ none
    → (expected : ℕ) → c.state.next_seq ≡ some expected
    → All (λ s. continues expected s ≡ false) c.state.buffered
unfolding consume_step
consume_step-none d c e expected n =
    elim (Option-cases (position (continues expected) c.state.buffered)) [
      | inl q ↦ position-none (continues expected) c.state.buffered q
      | inr (i, q) ↦
          let (segment, rest, r, t, k) =
            position-remove (continues expected) c.state.buffered i q in
          absurd (ground arith)
    ]

-- When `consume_contiguous_buffer` is done and a sequence number is expected next, no buffered
-- segment starts at it or straddles it: the loop never stops for want of fuel.
pub consume_contiguous_buffer_ends :
    (state : TcpDirectionState) (d : FlowDirection) (chunks : List StreamChunk) (expected : ℕ)
    → (consume_contiguous_buffer state d chunks).state.next_seq ≡ some expected
    → All
        (λ s. continues expected s ≡ false)
        (consume_contiguous_buffer state d chunks).state.buffered
unfolding consume_contiguous_buffer
consume_contiguous_buffer_ends state d chunks expected n =
    consume_step-none d (loop (consume_step d) (suc (length state.buffered)) start)
      (loop_ends (consume_step d) (λ c. Unit {0}) (λ c. length c.state.buffered)
        (λ c c' h e. (tt, shorter c c' e)) (suc (length state.buffered)) start (omega arith) tt)
      expected n
  where
    start : Consuming
    start = record { state = state; stream_chunks = chunks; advanced = false }

    shorter :
        (c c' : Consuming)
        → consume_step d c ≡ some c'
        → length c'.state.buffered < length c.state.buffered
    shorter c c' e =
        let (x, s, rest, n, t, k, q) = consume_step-some d c c' e in
        rw (q, buffered-consume_segment d x s rest c) (omega (arith, length-Taken k))
