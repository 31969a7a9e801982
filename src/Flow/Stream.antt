-- ===== src/Flow/Stream.antt =====
-- The specification that src/flow/mod.rs is measured against: one byte stream, as its sender numbers
-- it. Position 0 is the SYN, positions 1 to n are the n bytes, position n + 1 is the FIN.
pub mod Slices
use rustmate.Base.{ℕ, ◌+◌, ◌-◌, ◌^◌, ◌≤◌, ◌<◌, ◌≡◌, true, List, ◌==◌, length, take, drop, max}
use rustmate.Packet.Segment.{TcpSegment, sequence_span}
use rustmate.Flow.Seq.Window.{at}
use rustmate.Flow.Payload.{BufferedSegment}

-- The bytes at the positions from `x` up to `y`.
abbrev pub between : List ℕ → ℕ → ℕ → List ℕ
between stream x y = drop (x - 1) (take (y - 1) stream)

-- Fewer than 2^31 positions, so that no two of them are compared the wrong way round.
abbrev pub Fits : List ℕ → Type 0
Fits stream = length stream + 2 < 2 ^ 31

-- A segment that the sender cut from the stream, the positions from `first` up to `last`.
pub record Slice (isn : ℕ) (stream : List ℕ) (segment : TcpSegment) (payload : List ℕ)
    : Type 0 where
  pub first : ℕ
  pub last : ℕ
  pub nonempty : first < last
  pub inside : last ≤ length stream + 2
  pub sequence : segment.sequence_number ≡ at isn first
  pub syn : segment.flags.syn ≡ (first == 0)
  pub fin : segment.flags.fin ≡ (last == length stream + 2)
  pub bytes : payload ≡ between stream first last
  pub counted : segment.payload_len ≡ length payload

-- What may arrive: a reset, a segment without sequence space, or a slice of the stream.
pub data Sent (isn : ℕ) (stream : List ℕ) (segment : TcpSegment) (payload : List ℕ) : Type 0 where
  reset : segment.flags.rst ≡ true → Sent isn stream segment payload
  empty : sequence_span segment ≡ 0 → Sent isn stream segment payload
  slice : Slice isn stream segment payload → Sent isn stream segment payload

-- A buffered segment that holds a slice of the stream.
pub record Held (isn : ℕ) (stream : List ℕ) (segment : BufferedSegment) : Type 0 where
  pub first : ℕ
  pub last : ℕ
  pub nonempty : first < last
  pub inside : last ≤ length stream + 2
  pub starts : segment.start ≡ at isn first
  pub ends : segment.end ≡ at isn last
  pub payload_starts : segment.payload_start ≡ at isn (max first 1)
  pub holds : segment.bytes ≡ between stream first last
