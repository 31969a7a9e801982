-- ===== src/Transform/Plan.antt =====
-- src/stream_transform.rs: a chain of decoders over a slice (`apply_transform_plan`).
pub mod Limit
pub mod Over
use rustmate.Base.{
  ℕ, suc, ◌+◌, Bool, true, false, not, ◌&&◌, ◌||◌, Option, none, some, List, [], ◌∷◌, ◌++◌, ltb,
  ◌==◌, if◌then◌else◌, length, is_empty, min, max,
}
use rustmate.Slice.Segment.{StreamSliceMode}
use rustmate.Slice.Render.{StreamSliceHexRow, safe_text, hex_rows}
use rustmate.Transform.Outcome.{
  StreamTransformMode, StreamTransformApplied, StreamTransformStatus, applied, noop, failed,
  TransformOutcome, Note, empty_plan, url_decode_skipped, noop_with, is_applied, is_failed,
}
use rustmate.Transform.Reader.{Reader}
use rustmate.Transform.Http.{is_mostly_text, transform_step}

pub record StreamTransformConfig : Type 0 where
  pub max_output_bytes : ℕ
  pub hex_row_bytes : ℕ

pub record StreamTransformStep : Type 0 where
  pub requested : StreamTransformMode
  pub applied : StreamTransformApplied
  pub status : StreamTransformStatus
  pub input_bytes : ℕ
  pub output_bytes : ℕ
  pub truncated_by_limit : Bool
  pub notes : List Note

-- A note of a plan: the notes of a step with its mode, or one of its own.
pub data PlanNote : Type 0 where
  step_notes : StreamTransformMode → List Note → PlanNote
  plan_note : Note → PlanNote

pub data StreamTransformSegmentView : Type 0 where
  raw : (base64 : List ℕ) → StreamTransformSegmentView
  text : (text : List ℕ) → (lossy : Bool) → StreamTransformSegmentView
  hex : List StreamSliceHexRow → StreamTransformSegmentView

pub record StreamTransformSegment : Type 0 where
  pub source_logical_start : Option ℕ
  pub source_logical_end : Option ℕ
  pub bytes_len : ℕ
  pub base64 : List ℕ
  pub view : StreamTransformSegmentView

pub record StreamTransformOutput : Type 0 where
  pub requested : StreamTransformMode
  pub requested_chain : List StreamTransformMode
  pub applied : StreamTransformApplied
  pub status : StreamTransformStatus
  pub input_bytes : ℕ
  pub output_bytes : ℕ
  pub truncated_by_limit : Bool
  pub source_logical_start : Option ℕ
  pub source_logical_end : Option ℕ
  pub notes : List PlanNote
  pub steps : List StreamTransformStep
  pub segments : List StreamTransformSegment

-- The parts of a slice that the plan reads: its bytes, and where they start and end in the stream.
pub record TransformInput : Type 0 where
  pub bytes : List ℕ
  pub source_logical_start : Option ℕ
  pub source_logical_end : Option ℕ

unfoldable pub is_url_decode : StreamTransformMode → Bool
is_url_decode StreamTransformMode.auto = false
is_url_decode StreamTransformMode.url_decode = true
is_url_decode StreamTransformMode.gzip = false
is_url_decode StreamTransformMode.http_chunked = false
is_url_decode StreamTransformMode.http_gzip = false
is_url_decode StreamTransformMode.web_socket_deflate = false

-- `base64` is the encoder of the base64 crate.
module _ (base64 : List ℕ → List ℕ) where
  segment_view : StreamSliceMode → Option ℕ → List ℕ → ℕ → StreamTransformSegmentView
  unfolding safe_text hex_rows
  segment_view StreamSliceMode.raw start bytes hex_row_bytes =
      StreamTransformSegmentView.raw (base64 bytes)
  segment_view StreamSliceMode.text start bytes hex_row_bytes =
      let t = safe_text bytes in StreamTransformSegmentView.text t.text t.lossy
  segment_view StreamSliceMode.hex start bytes hex_row_bytes =
      let from : ℕ = elim start [ none ↦ 0 | some n ↦ n ] in
      StreamTransformSegmentView.hex (hex_rows from bytes hex_row_bytes)

  unfoldable pub segment_from_bytes :
      TransformInput → List ℕ → StreamSliceMode → ℕ → StreamTransformSegment
  unfolding segment_view
  segment_from_bytes source bytes mode hex_row_bytes = record {
    source_logical_start = source.source_logical_start;
    source_logical_end = source.source_logical_end;
    bytes_len = length bytes;
    base64 = base64 bytes;
    view = segment_view mode source.source_logical_start bytes hex_row_bytes;
  }

  unfoldable pub output_from_outcome :
      StreamTransformMode
      → List StreamTransformMode
      → List StreamTransformStep
      → TransformOutcome PlanNote
      → TransformInput
      → StreamSliceMode
      → StreamTransformConfig
      → StreamTransformOutput
  unfolding segment_from_bytes is_applied
  output_from_outcome requested requested_chain steps outcome source view_mode config = record {
    requested = requested;
    requested_chain = requested_chain;
    applied = outcome.applied;
    status = outcome.status;
    input_bytes = length source.bytes;
    output_bytes = length outcome.bytes;
    truncated_by_limit = outcome.truncated_by_limit;
    source_logical_start = source.source_logical_start;
    source_logical_end = source.source_logical_end;
    notes = outcome.notes;
    steps = steps;
    segments =
        if is_applied outcome.status
        then segment_from_bytes source outcome.bytes view_mode config.hex_row_bytes ∷ []
        else [];
  }

-- The variables of the loop over the chain.
pub record Chaining : Type 0 where
  pub current : List ℕ
  pub steps : List StreamTransformStep
  pub notes : List PlanNote
  pub applied : StreamTransformApplied
  pub applied_count : ℕ
  pub truncated_by_limit : Bool
  pub failed : Bool

-- A step's outcome is taken over.
unfoldable pub add_step : StreamTransformMode → TransformOutcome Note → Chaining → Chaining
unfolding is_applied is_failed
add_step mode outcome c =
    let noted : Chaining = record c {
      notes =
          if is_empty outcome.notes then c.notes else c.notes ++ step_notes mode outcome.notes ∷ [];
      steps =
          c.steps
          ++ record {
            requested = mode;
            applied = outcome.applied;
            status = outcome.status;
            input_bytes = length c.current;
            output_bytes = length outcome.bytes;
            truncated_by_limit = outcome.truncated_by_limit;
            notes = outcome.notes;
          }
            ∷ [];
      failed = is_failed outcome.status;
    } in
    if is_applied outcome.status
    then record noted {
      current = outcome.bytes;
      applied = outcome.applied;
      applied_count = c.applied_count + 1;
      truncated_by_limit = c.truncated_by_limit || outcome.truncated_by_limit;
    }
    else noted

abbrev pub start_chain : List ℕ → Chaining
start_chain input = record {
  current = input;
  steps = [];
  notes = [];
  applied = StreamTransformApplied.none;
  applied_count = 0;
  truncated_by_limit = false;
  failed = false;
}

-- What stands behind the loop.
unfoldable pub chain_outcome : Chaining → TransformOutcome PlanNote
chain_outcome c =
    if c.failed
    then record {
      applied = StreamTransformApplied.none;
      status = failed;
      bytes = [];
      truncated_by_limit = c.truncated_by_limit;
      notes = c.notes;
    }
    else if c.applied_count == 0
    then record {
      applied = StreamTransformApplied.none;
      status = noop;
      bytes = [];
      truncated_by_limit = c.truncated_by_limit;
      notes = c.notes;
    }
    else record {
      applied = c.applied;
      status = applied;
      bytes = c.current;
      truncated_by_limit = c.truncated_by_limit;
      notes = c.notes;
    }

module _ (gz deflate : Reader) where
  -- The outcome of one mode of the chain; `many` if the chain has several.
  unfoldable pub chain_step : Bool → StreamTransformMode → List ℕ → ℕ → TransformOutcome Note
  unfolding is_url_decode is_mostly_text transform_step noop_with
  chain_step many mode current max_output_bytes =
      if many && is_url_decode mode && not (is_mostly_text current)
      then noop_with url_decode_skipped
      else transform_step gz deflate current mode max_output_bytes

  unfoldable pub chain_loop : Bool → ℕ → List StreamTransformMode → Chaining → Chaining
  unfolding chain_step add_step
  chain_loop many max_output_bytes [] c = c
  chain_loop many max_output_bytes (mode ∷ modes) c =
      elim (add_step mode (chain_step many mode c.current max_output_bytes) c).failed [
        | true ↦ add_step mode (chain_step many mode c.current max_output_bytes) c
        | false ↦
            chain_loop many max_output_bytes modes
              (add_step mode (chain_step many mode c.current max_output_bytes) c)
      ]

  unfoldable pub apply_transform_plan :
      (List ℕ → List ℕ)
      → TransformInput
      → List StreamTransformMode
      → StreamSliceMode
      → StreamTransformConfig
      → StreamTransformOutput
  unfolding chain_loop chain_outcome output_from_outcome noop_with
  apply_transform_plan base64 source [] view_mode config =
      output_from_outcome base64 StreamTransformMode.auto [] [] (noop_with (plan_note empty_plan))
        source view_mode
        (record {
          max_output_bytes = max config.max_output_bytes 1;
          hex_row_bytes = min (max config.hex_row_bytes 1) 64;
        })
  apply_transform_plan base64 source (mode ∷ modes) view_mode config =
      let normalized : StreamTransformConfig = record {
        max_output_bytes = max config.max_output_bytes 1;
        hex_row_bytes = min (max config.hex_row_bytes 1) 64;
      } in
      let final =
        chain_loop (ltb 1 (length (mode ∷ modes))) normalized.max_output_bytes (mode ∷ modes)
          (start_chain source.bytes) in
      output_from_outcome base64 mode (mode ∷ modes) final.steps (chain_outcome final) source
        view_mode normalized
