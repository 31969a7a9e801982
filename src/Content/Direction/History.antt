-- ===== src/Content/Direction/History.antt =====
-- A direction's content is the end of its history: the bytes that it was given, less those trimmed
-- from the front, in segments that follow one another without a gap.
pub mod Append
pub mod Trim
use rustmate.Base.{
  ℕ, ◌+◌, ◌-◌, ◌≤◌, ◌≡◌, refl, ap, ◌∙◌, List, [], ◌∷◌, ◌++◌, arith, length, drop, length-append,
}
use rustmate.Content.Direction.{ContentSegment, DirectionContent, segment_bytes}

-- The segments lead from offset `a` to offset `e`.
abbrev pub Chain : List ContentSegment → ℕ → ℕ → Type 0
Chain [] a e = a ≡ e
Chain (s ∷ rest) a e = (s.logical_start ≡ a) × Chain rest (a + length s.bytes) e

-- `content` has seen `history` and holds it from offset `first` on.
pub record Holds (history : List ℕ) (content : DirectionContent) : Type 0 where
  pub first : ℕ
  pub chain : Chain content.segments first content.next_offset
  pub offset : content.next_offset ≡ length history
  pub stored : content.stored_bytes + first ≡ content.next_offset
  pub exact : segment_bytes content.segments ≡ drop first history

pub length-Chain :
    (segments : List ContentSegment) (a e : ℕ)
    → Chain segments a e
    → length (segment_bytes segments) + a ≡ e
unfolding segment_bytes
length-Chain [] a e c = omega (arith, c)
length-Chain (s ∷ rest) a e c = omega (
  arith,
  length-append s.bytes (segment_bytes rest),
  length-Chain rest (a + length s.bytes) e c.1,
)
