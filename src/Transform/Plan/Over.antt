-- ===== src/Transform/Plan/Over.antt =====
-- A plan that decodes URLs takes no notice of its limit.
use rustmate.Base.{ℕ, ◌≡◌, ◌<◌, false, List, [], ◌∷◌, length, max, min}
use rustmate.Slice.Segment.{StreamSliceMode}
use rustmate.Transform.Outcome.{
  StreamTransformMode, StreamTransformApplied, applied, TransformOutcome, Note,
}
use rustmate.Transform.Reader.{Reader}
use rustmate.Transform.Plan.{
  StreamTransformConfig, StreamTransformOutput, TransformInput, Chaining, chain_outcome,
  output_from_outcome,
}

-- The outcome of decoding, as a step of a plan.
abbrev decoded : List ℕ → TransformOutcome Note
decoded bs = record {
  applied = StreamTransformApplied.url_decode;
  status = applied;
  bytes = bs;
  truncated_by_limit = false;
  notes = [];
}

module _ (gz deflate : Reader) where
  module _ (base64 : List ℕ → List ℕ) (source : TransformInput) (view_mode : StreamSliceMode)
      (config : StreamTransformConfig) where
    abbrev output_of : Chaining → StreamTransformOutput
    output_of final =
        output_from_outcome base64 StreamTransformMode.url_decode
          (StreamTransformMode.url_decode ∷ []) final.steps (chain_outcome final) source view_mode
          (record {
            max_output_bytes = max config.max_output_bytes 1;
            hex_row_bytes = min (max config.hex_row_bytes 1) 64;
          })

    abbrev Over : List ℕ → StreamTransformOutput → Type 0
    Over bs output =
        (output.status ≡ applied)
        × (config.max_output_bytes < output.output_bytes)
        × (output.output_bytes ≡ length bs)
        × (output.truncated_by_limit ≡ false)
