-- ===== src/Slice/Reader.antt =====
-- src/stream_slice.rs: reading a slice of the stored content (`slice_with_context`).
pub mod History
use rustmate.Base.{
  ℕ, ◌+◌, Bool, Option, none, some, List, [], ◌∷◌, ltb, ◌==◌, if◌then◌else◌, min, max,
  saturating_add, length, map,
}
use rustmate.Flow.Chunk.{FlowDirection}
use rustmate.Flow.Route.{FlowKey}
use rustmate.Content.Direction.{StreamContentWindow}
use rustmate.Content.Store.{StreamContent}
use rustmate.Content.Window.{direction_windows}
use rustmate.Slice.Segment.{Base64, StreamSliceMode, StreamSliceSegment, segment_from_window}
use rustmate.Slice.Highlight.{StreamPatternMatch, StreamSliceHighlight, highlights}

pub record StreamSliceConfig : Type 0 where
  pub max_slice_bytes : ℕ
  pub max_highlights : ℕ
  pub hex_row_bytes : ℕ
  pub max_transform_bytes : ℕ

unfoldable pub normalized : StreamSliceConfig → StreamSliceConfig
normalized c = record c {
  max_slice_bytes = max c.max_slice_bytes 1;
  hex_row_bytes = min (max c.hex_row_bytes 1) 64;
  max_transform_bytes = max c.max_transform_bytes 1;
}

pub record StreamSliceRequest : Type 0 where
  pub stream_id : ℕ
  pub direction : FlowDirection
  pub logical_start : ℕ
  pub max_bytes : ℕ
  pub mode : StreamSliceMode

-- Without `stream_id_hex`, the id in hexadecimal digits, and `transforms`, which starts empty.
pub record StreamContentSlice : Type 0 where
  pub stream_id : ℕ
  pub direction : FlowDirection
  pub requested_start : ℕ
  pub requested_end : ℕ
  pub returned_bytes : ℕ
  pub truncated_by_limit : Bool
  pub segments : List StreamSliceSegment
  pub highlights : List StreamSliceHighlight
  pub dropped_highlights : ℕ

pub data StreamSliceError : Type 0 where
  stream_not_found content_not_found : (stream_id : ℕ) → StreamSliceError
  empty_request : StreamSliceError

pub data SliceResult : Type 0 where
  ok : StreamContentSlice → SliceResult
  err : StreamSliceError → SliceResult

-- The count of bytes, from `returned_bytes` on.
unfoldable pub count_bytes : ℕ → List StreamContentWindow → ℕ
count_bytes returned_bytes [] = returned_bytes
count_bytes returned_bytes (window ∷ windows) =
    count_bytes (saturating_add returned_bytes (length window.bytes)) windows

-- The reader is given by its configuration, which `new` has normalized, and its content.
module _ (b : Base64) (config : StreamSliceConfig) where
  unfoldable pub requested_end_of : StreamSliceRequest → ℕ
  requested_end_of request =
      saturating_add request.logical_start (max (min request.max_bytes config.max_slice_bytes) 1)

  unfoldable pub slice_of :
      StreamSliceRequest → List StreamPatternMatch → List StreamContentWindow → StreamContentSlice
  unfolding count_bytes segment_from_window highlights requested_end_of
  slice_of request matches windows =
      let segments =
        map (λ window. segment_from_window b window request.mode config.hex_row_bytes) windows in
      let (kept, dropped) =
        highlights request.direction config.max_highlights request.stream_id matches segments in
      record {
        stream_id = request.stream_id;
        direction = request.direction;
        requested_start = request.logical_start;
        requested_end = requested_end_of request;
        returned_bytes = count_bytes 0 windows;
        truncated_by_limit = ltb config.max_slice_bytes request.max_bytes;
        segments = segments;
        highlights = kept;
        dropped_highlights = dropped;
      }

  unfoldable pub slice_with_context :
      StreamContent → StreamSliceRequest → FlowKey → List StreamPatternMatch → SliceResult
  unfolding slice_of requested_end_of direction_windows
  slice_with_context content request key matches =
      if request.max_bytes == 0
      then err empty_request
      else elim (direction_windows key request.direction request.logical_start
          (requested_end_of request) content) [
            | none ↦ err (content_not_found request.stream_id)
            | some windows ↦ ok (slice_of request matches windows)
          ]
