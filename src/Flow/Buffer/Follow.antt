-- ===== src/Flow/Buffer/Follow.antt =====
-- Consuming the buffer follows the stream: what is emitted is the stream, from where it stood.
use rustmate.Base.{
  ℕ, suc, ◌+◌, ◌≤◌, ◌<◌, ◌≡◌, sym, ap, ◌∙◌, true, false, Option, none, some, List, [], ◌∷◌, ◌++◌,
  arith, length, append_assoc, loop_inv, All, All-Taken, subst, lt→ltb, ap₂, eq_of_some,
}
use rustmate.Flow.Seq.{seq_after}
use rustmate.Flow.Seq.Window.{at, seq_before-at, seq_after-at, seq_eq-at}
use rustmate.Flow.Chunk.{FlowDirection, StreamChunk, payload_of}
use rustmate.Flow.Payload.{BufferedSegment, into_stream_chunk}
use rustmate.Flow.Payload.Cut.{emitted, emitted-into_stream_chunk, payload_of-emitted}
use rustmate.Flow.Stream.{between, Fits, Held}
use rustmate.Flow.Stream.Slices.{between-append}
use rustmate.Flow.Buffer.{
  TcpDirectionState, Consuming, continues, consume_segment, consume_step, consume_contiguous_buffer,
}
use rustmate.Flow.Buffer.Consume.{consume_step-some}

-- The direction stands at position `p` of the stream, and its buffer holds slices of it.
pub record At (isn : ℕ) (stream : List ℕ) (p : ℕ) (state : TcpDirectionState) : Type 0 where
  pub next : state.next_seq ≡ some (at isn p)
  pub inside : p ≤ length stream + 2
  pub held : All (Held isn stream) state.buffered

-- From position `b` on, `out` and the chunks are the stream up to where the direction stands, which
-- is position `r` or later.
pub record Follows (isn : ℕ) (stream : List ℕ) (b r : ℕ) (out : List ℕ) (state : TcpDirectionState)
    (chunks : List StreamChunk) : Type 0 where
  pub position : ℕ
  pub stands : At isn stream position state
  pub later : b ≤ position
  pub passed : r ≤ position
  pub all : out ++ payload_of chunks ≡ between stream b position

module _ (isn : ℕ) (stream : List ℕ) (fits : Fits stream) where
  -- A held segment that continues position `p` contains it.
  pub continues-Held :
      (p : ℕ) (s : BufferedSegment) (h : Held isn stream s)
      → p ≤ length stream + 2
      → continues (at isn p) s ≡ true
      → (h.first ≤ p) × (p < h.last)
  unfolding continues
  continues-Held p s h i e =
      ground
        (arith, seq_eq-at isn h.first p, seq_before-at isn h.first p, seq_after-at isn h.last p)

  pub consume_segment-Follows :
      (b r : ℕ) (out : List ℕ) (d : FlowDirection) (p : ℕ) (s : BufferedSegment)
      (rest : List BufferedSegment) (c : Consuming) (h : Held isn stream s)
      → p ≤ length stream + 2
      → h.first ≤ p
      → p < h.last
      → b ≤ p
      → r ≤ p
      → All (Held isn stream) rest
      → out ++ payload_of c.stream_chunks ≡ between stream b p
      → let c' = consume_segment d (at isn p) s rest c in
        Follows isn stream b r out c'.state c'.stream_chunks
  unfolding consume_segment
  consume_segment-Follows b r out d p s rest c h i k l m g hs e =
      rw (after, consume_segment)
        (record {
          position = h.last;
          stands = record { next = ap some h.ends; inside = h.inside; held = hs };
          later = omega arith;
          passed = omega arith;
          all = joined;
        })
    where
      after : seq_after s.end (at isn p) ≡ true
      after =
          rw (h.ends, seq_after-at isn h.last p (omega (arith, h.inside)) (omega arith))
            (lt→ltb p h.last l)

      chunk : Option StreamChunk
      chunk = into_stream_chunk s (at isn p) d

      joined :
          out
            ++ payload_of
                (elim chunk [ some chunk ↦ c.stream_chunks ++ chunk ∷ [] | none ↦ c.stream_chunks ])
          ≡ between stream b h.last
      joined =
          ap (◌++◌ out) (payload_of-emitted chunk c.stream_chunks)
          ∙ sym (append_assoc out (payload_of c.stream_chunks) (emitted chunk))
          ∙ ap₂ ◌++◌ e (emitted-into_stream_chunk isn stream fits s h p d k l)
          ∙ between-append stream b p h.last m (omega arith)

  consume_step-Follows :
      (b r : ℕ) (out : List ℕ) (d : FlowDirection) (c c' : Consuming)
      → Follows isn stream b r out c.state c.stream_chunks
      → consume_step d c ≡ some c'
      → Follows isn stream b r out c'.state c'.stream_chunks
  consume_step-Follows b r out d c c' f e =
      let (x, s, rest, n, t, k, q) = consume_step-some d c c' e in
      let same : x ≡ at isn f.position = eq_of_some (sym n ∙ f.stands.next) in
      let (h, hs) = All-Taken (Held isn stream) k f.stands.held in
      let (lo, hi) =
        continues-Held f.position s h f.stands.inside (subst (λ y. continues y s ≡ true) same t) in
      rw (q, same)
        (consume_segment-Follows b r out d f.position s rest c h f.stands.inside lo hi f.later
          f.passed hs f.all)

  -- `consume_contiguous_buffer` goes on with the stream where the chunks before it stop.
  pub consume_contiguous_buffer-Follows :
      (b r : ℕ) (out : List ℕ) (state : TcpDirectionState) (d : FlowDirection)
      (chunks : List StreamChunk)
      → Follows isn stream b r out state chunks
      → let c = consume_contiguous_buffer state d chunks in
        Follows isn stream b r out c.state c.stream_chunks
  unfolding consume_contiguous_buffer
  consume_contiguous_buffer-Follows b r out state d chunks f =
      loop_inv (consume_step d) (λ c. Follows isn stream b r out c.state c.stream_chunks)
        (λ c c' g e. consume_step-Follows b r out d c c' g e) (suc (length state.buffered))
        (record { state = state; stream_chunks = chunks; advanced = false }) f
