-- ===== src/Content/Direction/History/Trim.antt =====
-- Trimming drops from the front of what is stored.
use rustmate.Base.{
  ℕ, ◌+◌, ◌-◌, ◌≤◌, ◌<◌, ◌≡◌, sym, ap, ◌∙◌, subst, List, [], ◌∷◌, ◌++◌, arith, ◌==◌, if_both, min,
  u64_max, saturating_add, length, drop, length-drop, drop-append, drop-append_past, drop-drop,
  drop-nil,
}
use rustmate.Content.Direction.{
  ContentSegment, DirectionContent, Trimmed, segment_bytes, trim_segment, trim_rounds, trim_oldest,
}
use rustmate.Content.Direction.History.{Chain, Holds, length-Chain}

-- `k` bytes have gone from the front of `segments`, which start at `a` and end at `e`.
record Cut (segments : List ContentSegment) (a e k trimmed stored : ℕ) (t : Trimmed) : Type 0 where
  chain : Chain t.segments (a + k) e
  bytes : segment_bytes t.segments ≡ drop k (segment_bytes segments)
  trimmed_to : t.trimmed ≡ trimmed + k
  stored_to : t.stored_bytes ≡ stored - k

trim_rounds-Cut :
    (remaining trimmed stored : ℕ) (segments : List ContentSegment) (a e : ℕ)
    → Chain segments a e
    → e ≤ u64_max
    → trimmed + (e - a) ≤ u64_max
    → Cut segments a e
        (min remaining (e - a))
        trimmed
        stored
        (trim_rounds remaining trimmed stored segments)
unfolding trim_rounds trim_segment segment_bytes
trim_rounds-Cut remaining trimmed stored [] a e c h k = record {
  chain = omega (arith, c);
  bytes = sym (drop-nil (min remaining (e - a)));
  trimmed_to = omega (arith, c);
  stored_to = omega (arith, c);
}
trim_rounds-Cut remaining trimmed stored (first ∷ rest) a e c h k =
    if_both (Cut (first ∷ rest) a e (min remaining (e - a)) trimmed stored) (remaining == 0)
      (λ z. stop (ground arith))
      (λ z.
        if_both (Cut (first ∷ rest) a e (min remaining (e - a)) trimmed stored)
          (min remaining (length first.bytes) == length first.bytes)
          (λ y. whole (ground arith) (
            trim_rounds-Cut (remaining - min remaining (length first.bytes))
              (saturating_add trimmed (min remaining (length first.bytes)))
              (stored - min remaining (length first.bytes)) rest (a + length first.bytes) e c.1 h
              (omega (arith, size))))
          (λ n. part (ground arith)))
  where
    size : length (segment_bytes rest) + (a + length first.bytes) ≡ e
    size = length-Chain rest (a + length first.bytes) e c.1

    stop :
        remaining ≡ 0
        → Cut
            (first ∷ rest)
            a
            e
            (min remaining (e - a))
            trimmed
            stored
            (record { segments = first ∷ rest; stored_bytes = stored; trimmed = trimmed })
    stop z =
        let at_start : a ≡ a + min remaining (e - a) = omega (arith, z) in
        let nothing : 0 ≡ min remaining (e - a) = omega (arith, z) in
        record {
          chain = subst (λ b. Chain (first ∷ rest) b e) at_start c;
          bytes = ap (λ j. drop j (segment_bytes (first ∷ rest))) nothing;
          trimmed_to = omega (arith, z);
          stored_to = omega (arith, z);
        }

    whole :
        length first.bytes ≤ remaining
        → Cut rest
            (a + length first.bytes)
            e
            (min (remaining - min remaining (length first.bytes)) (e - (a + length first.bytes)))
            (saturating_add trimmed (min remaining (length first.bytes)))
            (stored - min remaining (length first.bytes))
            (trim_rounds
              (remaining - min remaining (length first.bytes))
              (saturating_add trimmed (min remaining (length first.bytes)))
              (stored - min remaining (length first.bytes))
              rest)
        → Cut (first ∷ rest) a e (min remaining (e - a)) trimmed stored (
            trim_rounds
              (remaining - min remaining (length first.bytes))
              (saturating_add trimmed (min remaining (length first.bytes)))
              (stored - min remaining (length first.bytes))
              rest)
    whole y t =
        let cut_end : a
              + length first.bytes
              + min (remaining - min remaining (length first.bytes)) (e - (a + length first.bytes))
            ≡ a + min remaining (e - a) =
          omega (arith, size, y) in
        record {
          chain =
              subst
                (λ b.
                  Chain
                    (trim_rounds (remaining - min remaining (length first.bytes))
                      (saturating_add trimmed (min remaining (length first.bytes)))
                      (stored - min remaining (length first.bytes)) rest).segments
                    b e)
                cut_end t.chain;
          bytes =
              t.bytes
              ∙ sym (
                  drop-append_past (min remaining (e - a))
                    (min (remaining - min remaining (length first.bytes))
                      (e - (a + length first.bytes)))
                    first.bytes (segment_bytes rest) (omega (arith, size, y)));
          trimmed_to = omega (arith, t.trimmed_to, size, y);
          stored_to = omega (arith, t.stored_to, size, y);
        }

    part :
        remaining < length first.bytes
        → Cut (first ∷ rest) a e (min remaining (e - a)) trimmed stored (record {
          segments = trim_segment (min remaining (length first.bytes)) first ∷ rest;
          stored_bytes = stored - min remaining (length first.bytes);
          trimmed = saturating_add trimmed (min remaining (length first.bytes));
        })
    part n =
        let start : saturating_add first.logical_start (min remaining (length first.bytes))
            ≡ a + min remaining (e - a) =
          omega (arith, size, n, h, c.0) in
        let taken : min remaining (e - a) ≡ min remaining (length first.bytes) =
          omega (arith, size, n) in
        let after : a + length first.bytes
            ≡ a
              + min remaining (e - a)
              + length (drop (min remaining (length first.bytes)) first.bytes) =
          omega (arith, size, n, length-drop (min remaining (length first.bytes)) first.bytes) in
        record {
          chain = (start, subst (λ b. Chain rest b e) after c.1);
          bytes =
              sym (
                drop-append (min remaining (length first.bytes)) first.bytes (segment_bytes rest)
                  (omega (arith, n)))
              ∙ ap (λ j. drop j (first.bytes ++ segment_bytes rest)) (sym taken);
          trimmed_to = omega (arith, size, n, k);
          stored_to = omega (arith, size, n);
        }

-- Trimming `n` bytes from a direction that holds the end of a history, whose length fits in 64
-- bits, leaves the end of the same history, counts exactly the bytes that it drops, at most those
-- stored, and takes as many from the count of stored bytes.
pub trim_oldest-Holds :
    (n : ℕ) (history : List ℕ) (content : DirectionContent)
    → length history ≤ u64_max
    → Holds history content
    → Holds history (trim_oldest n content).0
      × ((trim_oldest n content).1 ≡ min n content.stored_bytes)
      × ((trim_oldest n content).0.stored_bytes ≡ content.stored_bytes - n)
unfolding trim_oldest
trim_oldest-Holds n history content fits h =
    let stored : content.next_offset - h.first ≡ content.stored_bytes = omega (arith, h.stored) in
    let t =
      trim_rounds-Cut n 0 content.stored_bytes content.segments h.first content.next_offset h.chain
        (omega (arith, h.offset, fits)) (omega (arith, h.offset, fits)) in
    (
      record {
        first = h.first + min n (content.next_offset - h.first);
        chain = t.chain;
        offset = h.offset;
        stored = omega (arith, t.stored_to, h.stored);
        exact =
            t.bytes
            ∙ ap (drop (min n (content.next_offset - h.first))) h.exact
            ∙ drop-drop (min n (content.next_offset - h.first)) h.first
                (h.first + min n (content.next_offset - h.first)) history (omega arith);
      },
      omega (arith, t.trimmed_to, stored),
      omega (arith, t.stored_to, stored),
    )
