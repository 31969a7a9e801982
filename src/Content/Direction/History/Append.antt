-- ===== src/Content/Direction/History/Append.antt =====
-- Appending adds to the end of the history.
use rustmate.Base.{
  ℕ, suc, ◌+◌, ◌-◌, ◌≤◌, ◌<◌, ◌≡◌, refl, sym, ap, ◌∙◌, subst, inl, inr, true, Option, none, some,
  Option-cases, Bool-cases, List, [], ◌∷◌, ◌++◌, arith, ltb, min, u64_max, length, take, drop,
  append_assoc, append-nil, length-append, length-take, length-drop, take-add, drop-append,
  eq_of_some, ltb→lt, take_of_length-le, loop_inv, loop_ends,
}
use rustmate.Flow.Chunk.{FlowDirection}
use rustmate.Content.Direction.{
  ContentSegment, DirectionContent, Appending, segment_bytes, sequence_end, merge_segment,
  try_merge_last, store_slice, append_slice, append_step, append, advance,
}
use rustmate.Content.Direction.History.{Chain, Holds}

-- What is stored behind the chain's end.
record Extends (segments merged : List ContentSegment) (a e : ℕ) (slice : List ℕ) : Type 0 where
  chain : Chain merged a (e + length slice)
  bytes : segment_bytes merged ≡ segment_bytes segments ++ slice

merge_segment-some :
    (start last_end : Option ℕ) (slice : List ℕ) (limit : ℕ) (last merged : ContentSegment)
    → merge_segment start last_end slice limit last ≡ some merged
    → (merged.logical_start ≡ last.logical_start) × (merged.bytes ≡ last.bytes ++ slice)
unfolding merge_segment
merge_segment-some none last_end slice limit last merged e = absurd (ground arith)
merge_segment-some (some s) none slice limit last merged e = absurd (ground arith)
merge_segment-some (some s) (some t) slice limit last merged e = ground arith

try_merge_last-Extends :
    (start : Option ℕ) (slice : List ℕ) (limit : ℕ) (segments merged : List ContentSegment)
    (a e : ℕ)
    → Chain segments a e
    → try_merge_last start slice limit segments ≡ some merged
    → Extends segments merged a e slice
unfolding try_merge_last segment_bytes
try_merge_last-Extends start slice limit [] merged a e c m = absurd (ground arith)
try_merge_last-Extends start slice limit (last ∷ []) merged a e c m =
    elim (Option-cases (merge_segment start (sequence_end last) slice limit last)) [
      | inl n ↦ absurd (ground arith)
      | inr (x, s) ↦
          let (same, joined) = merge_segment-some start (sequence_end last) slice limit last x s in
          subst (λ l. Extends (last ∷ []) l a e slice) (found x s)
            (record {
              chain = (
                same ∙ c.0,
                omega (arith, c.1, ap length joined, length-append last.bytes slice),
              );
              bytes =
                  append-nil x.bytes ∙ joined ∙ ap (λ l. l ++ slice) (sym (append-nil last.bytes));
            })
    ]
  where
    found :
        (x : ContentSegment)
        → merge_segment start (sequence_end last) slice limit last ≡ some x
        → x ∷ [] ≡ merged
    found x s = ground arith
try_merge_last-Extends start slice limit (first ∷ second ∷ rest) merged a e c m =
    elim (Option-cases (try_merge_last start slice limit (second ∷ rest))) [
      | inl n ↦ absurd (ground arith)
      | inr (x, s) ↦
          let x' =
            try_merge_last-Extends start slice limit (second ∷ rest) x (a + length first.bytes) e
              c.1 s in
          subst (λ l. Extends (first ∷ second ∷ rest) l a e slice) (found x s)
            (record {
              chain = (c.0, x'.chain);
              bytes =
                  ap (◌++◌ first.bytes) x'.bytes
                  ∙ sym (append_assoc first.bytes (segment_bytes (second ∷ rest)) slice);
            })
    ]
  where
    found :
        (x : List ContentSegment)
        → try_merge_last start slice limit (second ∷ rest) ≡ some x
        → first ∷ x ≡ merged
    found x s = ground arith

push-Extends :
    (segments : List ContentSegment) (new : ContentSegment) (a e : ℕ)
    → Chain segments a e
    → new.logical_start ≡ e
    → Extends segments (segments ++ new ∷ []) a e new.bytes
unfolding segment_bytes
push-Extends [] new a e c h = record {
  chain = (omega (arith, c), omega (arith, c));
  bytes = append-nil new.bytes;
}
push-Extends (s ∷ rest) new a e c h =
    let x = push-Extends rest new (a + length s.bytes) e c.1 h in
    record {
      chain = (c.0, x.chain);
      bytes = ap (◌++◌ s.bytes) x.bytes ∙ sym (append_assoc s.bytes (segment_bytes rest) new.bytes);
    }

store_slice-Extends :
    (start : Option ℕ) (slice : List ℕ) (e observed_us limit : ℕ) (segments : List ContentSegment)
    (a : ℕ)
    → Chain segments a e
    → Extends segments (store_slice start slice e observed_us limit segments).0 a e slice
unfolding store_slice
store_slice-Extends start slice e observed_us limit segments a c =
    elim (Option-cases (try_merge_last start slice limit segments)) [
      | inl n ↦ rw (n, store_slice) (push-Extends segments _ a e c refl)
      | inr (x, s) ↦
          rw (s, store_slice) (try_merge_last-Extends start slice limit segments x a e c s)
    ]

module _ (stream_id : ℕ) (direction : FlowDirection) (bytes : List ℕ) (sequence_start : Option ℕ)
    (observed_us limit : ℕ) (positive : 0 < limit) where
  taken : Appending → ℕ
  taken a = min (length bytes - a.consumed) limit

  slice : Appending → List ℕ
  unfolding taken
  slice a = take (taken a) (drop a.consumed bytes)

  step : Appending → Option Appending
  step = append_step stream_id direction bytes sequence_start observed_us limit

  round : Appending → Appending
  round = append_slice stream_id direction bytes sequence_start observed_us limit

  step-some : (a t : Appending) → step a ≡ some t → (a.consumed < length bytes) × (t ≡ round a)
  unfolding step append_step round
  step-some a t e = elim (Bool-cases (ltb a.consumed (length bytes))) [
    | inl y ↦ (ltb→lt a.consumed (length bytes) y, sym (eq_of_some (sym (first y) ∙ e)))
    | inr n ↦ absurd (ground arith)
  ]
    where
      first : ltb a.consumed (length bytes) ≡ true → step a ≡ some (round a)
      first y = rw y

  step-none : (a : Appending) → step a ≡ none → length bytes ≤ a.consumed
  unfolding step append_step
  step-none a e = ground arith

  -- The history with the bytes that are consumed, all of them stored besides the `before` bytes that
  -- were stored.
  record Appended (history : List ℕ) (before : ℕ) (a : Appending) : Type 0 where
    holds : Holds (history ++ take a.consumed bytes) a.content
    inside : a.consumed ≤ length bytes
    kept : a.content.stored_bytes ≡ before + a.consumed

  length-slice : (a : Appending) → length (slice a) ≡ taken a
  unfolding slice taken
  length-slice a = omega (
    arith,
    length-take (min (length bytes - a.consumed) limit) (drop a.consumed bytes),
    length-drop a.consumed bytes,
  )

  slice-end :
      (history : List ℕ) (a : Appending)
      → (history ++ take a.consumed bytes) ++ slice a ≡ history ++ take (a.consumed + taken a) bytes
  unfolding slice
  slice-end history a =
      append_assoc history (take a.consumed bytes) (slice a)
      ∙ ap (◌++◌ history) (sym (take-add a.consumed (taken a) bytes))

  seen :
      (history : List ℕ) (k : ℕ)
      → k ≤ length bytes
      → length (history ++ take k bytes) ≡ length history + k
  seen history k h = omega (arith, length-append history (take k bytes), length-take k bytes)

  round-Appended :
      (history : List ℕ) (stored : ℕ) (a : Appending)
      → length history + length bytes ≤ u64_max
      → a.consumed < length bytes
      → Appended history stored a
      → Appended history stored (round a) × (a.consumed < (round a).consumed)
  unfolding round append_slice taken slice
  round-Appended history stored a fits more p =
      let h = p.holds in
      let x =
        store_slice-Extends (advance sequence_start a.consumed) (slice a) a.content.next_offset
          observed_us limit a.content.segments h.first h.chain in
      let before = seen history a.consumed p.inside in
      let after = seen history (a.consumed + taken a) (omega (arith, more)) in
      (
        record {
          holds = record {
            first = h.first;
            chain =
                subst (Chain (round a).content.segments h.first)
                  (omega (arith, length-slice a, h.offset, before, more)) x.chain;
            offset = omega (arith, h.offset, before, after, more);
            stored = omega (arith, h.stored, h.offset, before, more);
            exact =
                x.bytes
                ∙ ap (λ l. l ++ slice a) h.exact
                ∙ sym (
                    drop-append h.first (history ++ take a.consumed bytes) (slice a)
                      (omega (arith, h.stored, h.offset)))
                ∙ ap (drop h.first) (slice-end history a);
          };
          inside = omega (arith, more);
          kept = omega (arith, p.kept, h.stored, h.offset, before, more);
        },
        omega (arith, more, positive),
      )

  -- Appending `bytes` to a direction that holds the end of a history leaves it holding the end of
  -- the longer history: every byte is stored, in order, besides all that was stored before, and the
  -- offsets go on from where they were. The segment limit is at least 1, as `normalized` sees to, and the offsets fit in 64 bits.
  pub append-Holds :
      (history : List ℕ) (content : DirectionContent)
      → length history + length bytes ≤ u64_max
      → Holds history content
      → Holds
          (history ++ bytes)
          (append stream_id direction bytes sequence_start observed_us limit content).content
        × ((append stream_id direction bytes sequence_start observed_us limit
              content).content.stored_bytes
            ≡ content.stored_bytes + length bytes)
  unfolding append step
  append-Holds history content fits h = (
    subst (λ l. Holds (history ++ l) final.content)
        (take_of_length-le final.consumed bytes (step-none final ended)) done.holds,
    omega (arith, done.kept, done.inside, step-none final ended),
  )
    where
      start : Appending
      start = record {
        content = content;
        append = record {
          ranges = [];
          stats = record { observed_bytes = 0; stored_bytes = 0; merged_segments = 0 };
        };
        consumed = 0;
      }

      final : Appending
      final = append stream_id direction bytes sequence_start observed_us limit content

      begins : Appended history content.stored_bytes start
      begins = record {
        holds = subst (λ l. Holds l content) (sym (append-nil history)) h;
        inside = omega arith;
        kept = omega arith;
      }

      goes_on :
          (a t : Appending)
          → Appended history content.stored_bytes a
          → step a ≡ some t
          → Appended history content.stored_bytes t
            × (length bytes - t.consumed < length bytes - a.consumed)
      goes_on a t p e =
          let (more, same) = step-some a t e in
          let (q, grows) = round-Appended history content.stored_bytes a fits more p in
          rw same (q, omega (arith, more, grows))

      done : Appended history content.stored_bytes final
      done =
          loop_inv step (Appended history content.stored_bytes) (λ a t p e. (goes_on a t p e).0)
            (suc (length bytes)) start begins

      ended : step final ≡ none
      ended =
          loop_ends step (Appended history content.stored_bytes) (λ a. length bytes - a.consumed)
            goes_on (suc (length bytes)) start (omega arith) begins
