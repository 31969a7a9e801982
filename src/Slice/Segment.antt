-- ===== src/Slice/Segment.antt =====
-- src/stream_slice.rs: a slice of the stored content of a stream, and its segments.
use rustmate.Base.{ℕ, Bool, Option, none, some, List, [], ◌∷◌, ◌++◌, ◌≡◌, saturating_add, length}
use rustmate.Content.Direction.{StreamContentWindow}
use rustmate.Slice.Render.{StreamSliceHexRow, safe_text, bytes_to_hex, hex_rows}

-- The base64 crate's encoder and decoder, and what its documentation promises.
pub record Base64 : Type 0 where
  pub encode : List ℕ → List ℕ
  pub decode : List ℕ → Option (List ℕ)
  pub decode-encode : (bytes : List ℕ) → decode (encode bytes) ≡ some bytes

pub data StreamSliceMode : Type 0 where
  raw text hex : StreamSliceMode

pub data StreamSliceCopyFormat : Type 0 where
  base64 hex text : StreamSliceCopyFormat

pub data StreamSliceSegmentView : Type 0 where
  raw : (base64 : List ℕ) → StreamSliceSegmentView
  text : (text : List ℕ) → (lossy : Bool) → StreamSliceSegmentView
  hex : List StreamSliceHexRow → StreamSliceSegmentView

pub record StreamSliceSegment : Type 0 where
  pub logical_start : ℕ
  pub logical_end : ℕ
  pub bytes_len : ℕ
  pub base64 : List ℕ
  pub view : StreamSliceSegmentView

module _ (b : Base64) where
  slice_view : StreamSliceMode → ℕ → List ℕ → ℕ → StreamSliceSegmentView
  unfolding safe_text hex_rows
  slice_view StreamSliceMode.raw logical_start bytes hex_row_bytes =
      StreamSliceSegmentView.raw (b.encode bytes)
  slice_view StreamSliceMode.text logical_start bytes hex_row_bytes =
      let t = safe_text bytes in StreamSliceSegmentView.text t.text t.lossy
  slice_view StreamSliceMode.hex logical_start bytes hex_row_bytes =
      StreamSliceSegmentView.hex (hex_rows logical_start bytes hex_row_bytes)

  unfoldable pub segment_from_window :
      StreamContentWindow → StreamSliceMode → ℕ → StreamSliceSegment
  unfolding slice_view
  segment_from_window window mode hex_row_bytes = record {
    logical_start = window.logical_start;
    logical_end = saturating_add window.logical_start (length window.bytes);
    bytes_len = length window.bytes;
    base64 = b.encode window.bytes;
    view = slice_view mode window.logical_start window.bytes hex_row_bytes;
  }

  -- A segment that cannot be decoded is left out.
  unfoldable pub concatenated_bytes : List StreamSliceSegment → List ℕ
  concatenated_bytes [] = []
  concatenated_bytes (segment ∷ segments) =
      let rest = concatenated_bytes segments in
      elim (b.decode segment.base64) [ none ↦ rest | some decoded ↦ decoded ++ rest ]

  unfoldable pub copy_as : StreamSliceCopyFormat → List StreamSliceSegment → List ℕ
  unfolding concatenated_bytes bytes_to_hex safe_text
  copy_as StreamSliceCopyFormat.base64 segments = b.encode (concatenated_bytes segments)
  copy_as StreamSliceCopyFormat.hex segments = bytes_to_hex (concatenated_bytes segments)
  copy_as StreamSliceCopyFormat.text segments = (safe_text (concatenated_bytes segments)).text
