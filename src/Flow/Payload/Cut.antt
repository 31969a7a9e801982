-- ===== src/Flow/Payload/Cut.antt =====
-- Cutting a slice of the stream at the position that is expected next leaves the rest of the slice.
use rustmate.Base.{
  ℕ, ◌+◌, ◌^◌, ◌≤◌, ◌<◌, ◌≡◌, refl, sym, ap, ◌∙◌, inl, inr, true, false, Bool-cases, ◌||◌, leb,
  ltb→lt, wrapping_sub, ap₂, Option, none, some, List, [], ◌∷◌, ◌++◌, arith, ltb, ◌==◌, min, max,
  length, drop, is_empty, append-nil, append_assoc, if◌then◌else◌, Bool, leb→le, wrapping_add,
  as_u32,
}
use rustmate.Packet.Segment.{
  TcpSegment, payload_sequence_start, payload_sequence_end, sequence_span,
}
use rustmate.Flow.Seq.{seq_eq, seq_before}
use rustmate.Flow.Seq.Window.{at, wrapping_sub-at, seq_before-at, seq_eq-at}
use rustmate.Flow.Chunk.{FlowDirection, StreamChunk, StreamChunkSource, as_slice, payload_of}
use rustmate.Flow.Payload.{
  BufferedSegment, trim_payload, push_current_stream_chunk, push_trimmed_current_stream_chunk,
  into_stream_chunk,
}
use rustmate.Flow.Stream.{between, Fits, Slice, Held}
use rustmate.Flow.Stream.Slices.{length-between, drop-between, between_past, drop-min}

pub emitted : Option StreamChunk → List ℕ
emitted none = []
emitted (some chunk) = as_slice chunk.bytes

is_empty-nil : (xs : List ℕ) → is_empty xs ≡ true → xs ≡ []
is_empty-nil [] h = refl
is_empty-nil (x ∷ xs) h = ground arith

pub payload_of-append :
    (xs ys : List StreamChunk) → payload_of (xs ++ ys) ≡ payload_of xs ++ payload_of ys
unfolding payload_of
payload_of-append [] ys = refl
payload_of-append (x ∷ xs) ys =
    ap (◌++◌ (as_slice x.bytes)) (payload_of-append xs ys)
    ∙ sym (append_assoc (as_slice x.bytes) (payload_of xs) (payload_of ys))

pub payload_of-push :
    (xs : List StreamChunk) (chunk : StreamChunk)
    → payload_of (xs ++ chunk ∷ []) ≡ payload_of xs ++ as_slice chunk.bytes
unfolding payload_of
payload_of-push xs chunk =
    payload_of-append xs (chunk ∷ [])
    ∙ ap (◌++◌ (payload_of xs)) (append-nil (as_slice chunk.bytes))

pub payload_of-emitted :
    (o : Option StreamChunk) (chunks : List StreamChunk)
    → payload_of (elim o [ some chunk ↦ chunks ++ chunk ∷ [] | none ↦ chunks ])
      ≡ payload_of chunks ++ emitted o
unfolding emitted
payload_of-emitted none chunks = sym (append-nil (payload_of chunks))
payload_of-emitted (some chunk) chunks = payload_of-push chunks chunk

-- The three early returns of both cuts are taken only where nothing is left of the slice.
emitted_cut :
    (none_at behind empty : Bool) (chunk : StreamChunk) (rest : List ℕ)
    → (none_at ≡ true → rest ≡ [])
    → (behind ≡ true → rest ≡ [])
    → (empty ≡ true → rest ≡ [])
    → as_slice chunk.bytes ≡ rest
    → emitted
        (if none_at then none else if behind then none else if empty then none else some chunk)
      ≡ rest
unfolding emitted
emitted_cut true b c chunk rest h k l e = sym (h refl)
emitted_cut false true c chunk rest h k l e = sym (k refl)
emitted_cut false false true chunk rest h k l e = sym (l refl)
emitted_cut false false false chunk rest h k l e = e

pushed_cut :
    (none_at behind empty : Bool) (chunks : List StreamChunk) (chunk : StreamChunk) (rest : List ℕ)
    → (none_at ≡ true → rest ≡ [])
    → (behind ≡ true → rest ≡ [])
    → (empty ≡ true → rest ≡ [])
    → as_slice chunk.bytes ≡ rest
    → payload_of (
        if none_at
        then chunks
        else if behind
        then chunks
        else if empty
        then chunks
        else chunks ++ chunk ∷ [])
      ≡ payload_of chunks ++ rest
pushed_cut true b c chunks chunk rest h k l e = rw (h refl) (sym (append-nil (payload_of chunks)))
pushed_cut false true c chunks chunk rest h k l e =
    rw (k refl) (sym (append-nil (payload_of chunks)))
pushed_cut false false true chunks chunk rest h k l e =
    rw (l refl) (sym (append-nil (payload_of chunks)))
pushed_cut false false false chunks chunk rest h k l e =
    payload_of-push chunks chunk ∙ ap (◌++◌ (payload_of chunks)) e

end-at : (isn q m : ℕ) → wrapping_add (at isn q) (as_u32 m) ≡ at isn (q + m)
end-at isn q m = omega arith

lt-or-eq : (a b : ℕ) → (ltb a b || a == b) ≡ leb a b
lt-or-eq a b = ground arith

module _ (isn : ℕ) (stream : List ℕ) (fits : Fits stream) where
  -- Trimming at position `p` leaves what the slice has from `p` on.
  trim-between :
      (o e p : ℕ)
      → o ≤ p
      → p < e
      → e ≤ length stream + 2
      → trim_payload (at isn (max o 1)) (between stream o e) (at isn p)
        ≡ (at isn (max p 1), between stream p e)
  unfolding trim_payload
  trim-between o e p h k b =
      rw (seq_before-at isn (max o 1) p (omega arith) (omega arith))
        (elim (Bool-cases (ltb (max o 1) p)) [
          | inl t ↦ rw t (ap₂ (λ a b. (a, b)) (front t) (rest t))
          | inr f ↦ rw f (ap₂ (λ a b. (a, b)) (same f) (whole f))
        ])
    where
      front : ltb (max o 1) p ≡ true → at isn p ≡ at isn (max p 1)
      front t = let e : p ≡ max p 1 = omega (arith, ltb→lt (max o 1) p t) in ap (at isn) e

      rest :
          ltb (max o 1) p ≡ true
          → drop
              (min (wrapping_sub (at isn p) (at isn (max o 1))) (length (between stream o e)))
              (between stream o e)
            ≡ between stream p e
      rest t =
          drop-min (wrapping_sub (at isn p) (at isn (max o 1))) (between stream o e)
          ∙ drop-between stream (wrapping_sub (at isn p) (at isn (max o 1))) o e p (
              omega (
                arith,
                ltb→lt (max o 1) p t,
                wrapping_sub-at isn p (max o 1) (omega (arith, ltb→lt (max o 1) p t)) (omega arith),
              ))

      same : ltb (max o 1) p ≡ false → at isn (max o 1) ≡ at isn (max p 1)
      same f = let e : max o 1 ≡ max p 1 = ground arith in ap (at isn) e

      whole : ltb (max o 1) p ≡ false → between stream o e ≡ between stream p e
      whole f = drop-between stream 0 o e p (ground arith)

  -- The sequence number behind the payload of a slice is after `p` unless nothing is left.
  past-eq-leb :
      (o e p : ℕ)
      → o < e
      → e ≤ length stream + 2
      → p ≤ length stream + 2
      → let payload_end = wrapping_add (at isn (max o 1)) (as_u32 (length (between stream o e))) in
        (seq_before payload_end (at isn p) || seq_eq payload_end (at isn p))
        ≡ leb (max o 1 + length (between stream o e)) p
  past-eq-leb o e p k b c =
      rw
        (
          end-at isn (max o 1) (length (between stream o e)),
          seq_before-at isn (max o 1 + length (between stream o e)) p size (omega arith),
          seq_eq-at isn (max o 1 + length (between stream o e)) p size (omega arith),
        )
        (lt-or-eq (max o 1 + length (between stream o e)) p)
    where
      size : max o 1 + length (between stream o e) < p + 2 ^ 31
      size = omega (arith, length-between stream o e)

  behind-nil :
      (o e p : ℕ) → leb (max o 1 + length (between stream o e)) p ≡ true → between stream p e ≡ []
  behind-nil o e p h =
      between_past stream p e (
        omega
          (arith, leb→le (max o 1 + length (between stream o e)) p h, length-between stream o e))

  whole-nil : (o e p : ℕ) → o ≤ p → is_empty (between stream o e) ≡ true → between stream p e ≡ []
  whole-nil o e p k h =
      between_past stream p e
        (omega (arith, ap length (is_empty-nil (between stream o e) h), length-between stream o e))

  -- What a buffered segment hands over at position `p` is the stream from `p` to its end.
  pub emitted-into_stream_chunk :
      (segment : BufferedSegment) (h : Held isn stream segment) (p : ℕ) (direction : FlowDirection)
      → h.first ≤ p
      → p < h.last
      → emitted (into_stream_chunk segment (at isn p) direction) ≡ between stream p h.last
  unfolding into_stream_chunk as_slice
  emitted-into_stream_chunk segment h p direction k l =
      rw
        (
          h.payload_starts,
          h.holds,
          trim-between h.first h.last p k l h.inside,
          past-eq-leb h.first h.last p h.nonempty h.inside (omega (arith, h.inside)),
        )
        (emitted_cut (is_empty (between stream h.first h.last))
          (leb (max h.first 1 + length (between stream h.first h.last)) p)
          (is_empty (between stream p h.last)) _ (between stream p h.last)
          (whole-nil h.first h.last p k) (behind-nil h.first h.last p)
          (is_empty-nil (between stream p h.last)) refl)

  module _ {segment : TcpSegment} {payload : List ℕ} (s : Slice isn stream segment payload) where
    -- The payload of a slice starts behind its SYN, if it has one.
    pub payload_sequence_start-Slice : payload_sequence_start segment ≡ at isn (max s.first 1)
    unfolding payload_sequence_start
    payload_sequence_start-Slice = rw (s.sequence, s.syn) (ground arith)

    pub sequence_span-Slice :
        wrapping_add segment.sequence_number (sequence_span segment) ≡ at isn s.last
    unfolding sequence_span
    sequence_span-Slice =
        rw (s.sequence, s.syn, s.fin, s.counted, s.bytes, length-between stream s.first s.last)
          (ground arith)

    pub payload_of-push_current :
        (chunks : List StreamChunk) (direction : FlowDirection) (source : StreamChunkSource)
        → payload_of (push_current_stream_chunk chunks direction segment payload source)
          ≡ payload_of chunks ++ between stream s.first s.last
    unfolding push_current_stream_chunk as_slice
    payload_of-push_current chunks direction source = rw s.bytes (
        pushed_cut (is_empty (between stream s.first s.last)) false false chunks _
          (between stream s.first s.last) (is_empty-nil (between stream s.first s.last)) (λ h. cc)
          (λ h. cc) refl)

    pub payload_of-push_trimmed :
        (chunks : List StreamChunk) (direction : FlowDirection) (p : ℕ)
        → s.first ≤ p
        → p < s.last
        → payload_of (push_trimmed_current_stream_chunk chunks direction segment payload (at isn p))
          ≡ payload_of chunks ++ between stream p s.last
    unfolding push_trimmed_current_stream_chunk payload_sequence_end as_slice
    payload_of-push_trimmed chunks direction p k l =
        rw
          (
            payload_sequence_start-Slice,
            s.counted,
            s.bytes,
            trim-between s.first s.last p k l s.inside,
            past-eq-leb s.first s.last p s.nonempty s.inside (omega (arith, s.inside)),
          )
          (pushed_cut (is_empty (between stream s.first s.last))
            (leb (max s.first 1 + length (between stream s.first s.last)) p)
            (is_empty (between stream p s.last)) chunks _ (between stream p s.last)
            (whole-nil s.first s.last p k) (behind-nil s.first s.last p)
            (is_empty-nil (between stream p s.last)) refl)
