-- ===== src/Content/Window/History.antt =====
-- What the windows hold of the history that a direction's content holds the end of.
use rustmate.Base.{
  ℕ, zero, suc, ◌+◌, ◌-◌, ◌≡◌, ◌≤◌, ◌<◌, refl, sym, ap, subst, ◌∙◌, true, false, List, [], ◌∷◌,
  ◌++◌, arith, leb, ◌==◌, if◌then◌else◌, min, max, u64_max, length, take, drop, is_empty, if_both,
  Bool-cases, inl, inr, length-take, length-drop, take-append, take-add, drop-drop,
  drop-append_length,
}
use rustmate.Flow.Chunk.{FlowDirection}
use rustmate.Content.Direction.{ContentSegment, DirectionContent, logical_end, segment_bytes}
use rustmate.Content.Direction.History.{Chain, Holds, length-Chain}
use rustmate.Content.Window.{Gathering, flush, gather_part, gather_segment, gather, windows}

is_empty-length : (xs : List ℕ) → is_empty xs ≡ true → length xs ≡ 0
is_empty-length [] h = refl
is_empty-length (x ∷ xs) h = ground arith

length-is_empty : (xs : List ℕ) → is_empty xs ≡ false → 0 < length xs
length-is_empty [] h = ground arith
length-is_empty (x ∷ xs) h = omega arith

take-take_le : (n m : ℕ) (xs : List ℕ) → n ≤ m → take n (take m xs) ≡ take n xs
take-take_le zero m xs h = refl
take-take_le (suc n) zero xs h = absurd (omega arith)
take-take_le (suc n) (suc m) [] h = refl
take-take_le (suc n) (suc m) (x ∷ xs) h = ap (λ ys. x ∷ ys) (take-take_le n m xs (omega arith))

take-drop-take :
    (n k m : ℕ) (xs : List ℕ) → k + n ≤ m → take n (drop k (take m xs)) ≡ take n (drop k xs)
take-drop-take n zero m xs h = take-take_le n m xs (omega (arith, h))
take-drop-take n (suc k) zero xs h = absurd (omega arith)
take-drop-take n (suc k) (suc m) [] h = refl
take-drop-take n (suc k) (suc m) (x ∷ xs) h = take-drop-take n k m xs (omega arith)

module _ (stream_id : ℕ) (direction : FlowDirection) (history : List ℕ)
    (first logical_start range_end : ℕ) where
  abbrev from : ℕ
  from = max first logical_start

  -- The bytes of the request that stand before offset `a`.
  abbrev gathered : ℕ → List ℕ
  gathered a = take (min a range_end - from) (drop from history)

  -- Before offset `a`: no window is complete, and the current one has the bytes so far.
  record Gathered (a : ℕ) (g : Gathering) : Type 0 where
    none_done : g.windows ≡ []
    bytes : g.current_bytes ≡ gathered a
    start : from < min a range_end → g.current_start ≡ from
    end : from < min a range_end → g.current_end ≡ min a range_end

  length-gathered : (a : ℕ) → a ≤ length history → length (gathered a) ≡ min a range_end - from
  length-gathered a h =
      omega
        (arith, length-take (min a range_end - from) (drop from history), length-drop from history)

  -- A part that follows what is gathered.
  part_Gathered :
      (a b : ℕ) (g : Gathering)
      → first ≤ a
      → b ≤ length history
      → a ≤ b
      → max a logical_start < min b range_end
      → Gathered a g
      → Gathered b (
          gather_part stream_id direction
            (max a logical_start)
            (min b range_end)
            (take (min b range_end - max a logical_start) (drop (max a logical_start) history))
            g)
  unfolding gather_part
  part_Gathered a b g f l o h s =
      if_both (Gathered b) (is_empty g.current_bytes)
        (λ e.
          let at_from : max a logical_start ≡ from = omega (arith, is_empty-length _ e, size) in
          record {
            none_done = s.none_done;
            bytes = ap (λ k. take (min b range_end - k) (drop k history)) at_from;
            start = λ _. at_from;
            end = λ _. refl;
          })
        (λ e.
          if_both (Gathered b) (max a logical_start == g.current_end)
            (λ q. record {
              none_done = s.none_done;
              bytes =
                  ap
                    (λ xs.
                      xs
                      ++ take (min b range_end - max a logical_start)
                          (drop (max a logical_start) history))
                    s.bytes
                  ∙ joined (omega (arith, length-is_empty _ e, size));
              start = λ _. s.start (omega (arith, length-is_empty _ e, size));
              end = λ _. refl;
            })
            (λ q. absurd (apart q (length-is_empty _ e))))
    where
      size : length g.current_bytes ≡ min a range_end - from
      size = ap length s.bytes ∙ length-gathered a (omega (arith, o, l))

      apart : (max a logical_start == g.current_end) ≡ false → 0 < length g.current_bytes → ⊥
      apart q e =
          let ends : g.current_end ≡ min a range_end = s.end (omega (arith, size, e)) in
          ground (arith, ends, size, e, q, h)

      joined :
          from < min a range_end
          → gathered a
              ++ take (min b range_end - max a logical_start) (drop (max a logical_start) history)
            ≡ gathered b
      joined w =
          ap (λ xs. gathered a ++ take (min b range_end - max a logical_start) xs)
            (sym (
              drop-drop (min a range_end - from) from (max a logical_start) history
                (omega (arith, w, h))))
          ∙ sym (
              take-add (min a range_end - from) (min b range_end - max a logical_start)
                (drop from history))
          ∙ ap (λ n. take n (drop from history)) (omega (arith, w, h, o))

  module _ (a b : ℕ) (segment : ContentSegment) (sa : segment.logical_start ≡ a)
      (sb : a + length segment.bytes ≡ b) where
    start_at : max segment.logical_start logical_start ≡ max a logical_start
    start_at = ap (λ n. max n logical_start) sa

    end_at : b ≤ u64_max → min (logical_end segment) range_end ≡ min b range_end
    unfolding logical_end
    end_at u = omega (arith, sa, sb)

    bytes_at :
        segment.bytes ≡ take (length segment.bytes) (drop a history)
        → max a logical_start < min b range_end
        → take
            (min b range_end - max a logical_start)
            (drop (max a logical_start - a) segment.bytes)
          ≡ take (min b range_end - max a logical_start) (drop (max a logical_start) history)
    bytes_at exact h =
        ap (λ xs. take (min b range_end - max a logical_start) (drop (max a logical_start - a) xs))
          exact
        ∙ take-drop-take (min b range_end - max a logical_start) (max a logical_start - a)
            (length segment.bytes) (drop a history) (omega (arith, h, sb))
        ∙ ap (take (min b range_end - max a logical_start))
            (drop-drop (max a logical_start - a) a (max a logical_start) history (omega arith))

    keep :
        (g : Gathering)
        → first ≤ a
        → min b range_end ≤ max a logical_start
        → Gathered a g
        → Gathered b g
    keep g f q s = record {
      none_done = s.none_done;
      bytes = s.bytes ∙ ap (λ n. take n (drop from history)) (omega (arith, f, q, sb));
      start = λ w. s.start (omega (arith, f, q, sb, w));
      end = λ w. s.end (omega (arith, f, q, sb, w)) ∙ omega (arith, f, q, sb, w);
    }

    same :
        (g : Gathering)
        → b ≤ u64_max
        → segment.bytes ≡ take (length segment.bytes) (drop a history)
        → max a logical_start < min b range_end
        → gather_part stream_id direction
            (max segment.logical_start logical_start)
            (min (logical_end segment) range_end)
            (take (min (logical_end segment) range_end - max segment.logical_start logical_start) (
              drop (max segment.logical_start logical_start - segment.logical_start) segment.bytes))
            g
          ≡ gather_part stream_id direction
              (max a logical_start)
              (min b range_end)
              (take (min b range_end - max a logical_start) (drop (max a logical_start) history))
              g
    same g u exact h = rw (end_at u, sa, bytes_at exact h) refl

    segment_Gathered :
        (g : Gathering)
        → first ≤ a
        → b ≤ length history
        → b ≤ u64_max
        → segment.bytes ≡ take (length segment.bytes) (drop a history)
        → Gathered a g
        → Gathered b (gather_segment stream_id direction logical_start range_end segment g)
    unfolding gather_segment
    segment_Gathered g f l u exact s =
        if_both (Gathered b)
          (leb (min (logical_end segment) range_end) (max segment.logical_start logical_start))
          (λ q. keep g f (ground (arith, start_at, end_at u, q)) s)
          (λ q.
            let h : max a logical_start < min b range_end = ground (arith, start_at, end_at u, q) in
            subst (Gathered b) (sym (same g u exact h))
              (part_Gathered a b g f l (omega (arith, sb)) h s))

  gather-Gathered :
      (segments : List ContentSegment) (a e : ℕ) (g : Gathering)
      → Chain segments a e
      → segment_bytes segments ≡ drop a history
      → first ≤ a
      → e ≡ length history
      → e ≤ u64_max
      → Gathered a g
      → Gathered e (gather stream_id direction logical_start range_end segments g)
  unfolding gather segment_bytes
  gather-Gathered [] a e g c exact f l u s = subst (λ n. Gathered n g) c s
  gather-Gathered (segment ∷ segments) a e g c exact f l u s =
      gather-Gathered segments (a + length segment.bytes) e
        (gather_segment stream_id direction logical_start range_end segment g) c.1 behind
        (omega (arith, f)) l u
        (segment_Gathered a (a + length segment.bytes) segment c.0 refl g f
          (omega (arith, l, within)) (omega (arith, u, within)) front s)
    where
      within : a + length segment.bytes ≤ e
      within = omega (arith, length-Chain segments (a + length segment.bytes) e c.1)

      front : segment.bytes ≡ take (length segment.bytes) (drop a history)
      front =
          sym (take-append segment.bytes (segment_bytes segments))
          ∙ ap (take (length segment.bytes)) exact

      behind : segment_bytes segments ≡ drop (a + length segment.bytes) history
      behind =
          sym (drop-append_length segment.bytes (segment_bytes segments))
          ∙ ap (drop (length segment.bytes)) exact
          ∙ drop-drop (length segment.bytes) a (a + length segment.bytes) history (omega arith)

flush-Gathered :
    (stream_id : ℕ) (direction : FlowDirection) (history : List ℕ)
    (first logical_start range_end : ℕ) (g : Gathering)
    → Gathered stream_id direction history first logical_start range_end (length history) g
    → flush stream_id direction g ≡ (
        if leb (min (length history) range_end) (max first logical_start)
        then []
        else record {
          stream_id = stream_id;
          direction = direction;
          logical_start = max first logical_start;
          bytes =
              take
                (min (length history) range_end - max first logical_start)
                (drop (max first logical_start) history);
        }
          ∷ [])
unfolding flush
flush-Gathered stream_id direction history first logical_start range_end g s =
    elim (Bool-cases (is_empty g.current_bytes)) [
      | inl e ↦ rw (e, flush, all_outside (is_empty-length g.current_bytes e)) s.none_done
      | inr e ↦
          let w : max first logical_start < min (length history) range_end =
            omega (arith, size, length-is_empty g.current_bytes e) in
          rw (e, flush, some_inside w, s.none_done, s.start w, s.bytes) refl
    ]
  where
    size : length g.current_bytes ≡ min (length history) range_end - max first logical_start
    size =
        ap length s.bytes
        ∙ length-gathered stream_id direction history first logical_start range_end (length history)
            (omega arith)

    all_outside :
        length g.current_bytes ≡ 0
        → leb (min (length history) range_end) (max first logical_start) ≡ true
    all_outside z = ground (arith, size)

    some_inside :
        max first logical_start < min (length history) range_end
        → leb (min (length history) range_end) (max first logical_start) ≡ false
    some_inside w = ground arith

-- A window of a direction's content gives back its history: of the bytes that the content still holds,
-- those in the requested range, as one window that starts at the first of them, and no window if there
-- are none; as long as the history has at most 2^64 - 1 bytes.
pub windows-Holds :
    (stream_id : ℕ) (direction : FlowDirection) (history : List ℕ) (content : DirectionContent)
    (logical_start range_end : ℕ) (h : Holds history content)
    → length history ≤ u64_max
    → windows stream_id direction logical_start range_end content.segments ≡ (
        if leb (min (length history) range_end) (max h.first logical_start)
        then []
        else record {
          stream_id = stream_id;
          direction = direction;
          logical_start = max h.first logical_start;
          bytes =
              take
                (min (length history) range_end - max h.first logical_start)
                (drop (max h.first logical_start) history);
        }
          ∷ [])
unfolding windows flush
windows-Holds stream_id direction history content logical_start range_end h u =
    elim (Bool-cases (leb range_end logical_start)) [
      | inl empty ↦ ground arith
      | inr some_range ↦
          rw (some_range, windows)
            (flush-Gathered stream_id direction history h.first logical_start range_end final
              final_Gathered)
    ]
  where
    final : Gathering
    final =
        gather stream_id direction logical_start range_end content.segments
          (record { windows = []; current_start = 0; current_end = 0; current_bytes = [] })

    nothing : 0 ≡ min h.first range_end - max h.first logical_start
    nothing = omega arith

    final_Gathered :
        Gathered stream_id direction history h.first logical_start range_end (length history) final
    final_Gathered =
        subst (λ n. Gathered stream_id direction history h.first logical_start range_end n final)
          h.offset
          (gather-Gathered stream_id direction history h.first logical_start range_end
            content.segments h.first content.next_offset _ h.chain h.exact (omega arith) h.offset
            (omega (arith, u, h.offset))
            (record {
              none_done = refl;
              bytes = ap (λ n. take n (drop (max h.first logical_start) history)) nothing;
              start = λ w. absurd (omega (arith, w));
              end = λ w. absurd (omega (arith, w));
            }))
