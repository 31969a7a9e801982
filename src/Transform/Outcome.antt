-- ===== src/Transform/Outcome.antt =====
-- src/stream_transform.rs: what a decoder returns (`TransformOutcome`). The texts of its notes are
-- constructors, with the numbers that stand in them.
use rustmate.Base.{ℕ, Bool, true, false, List, [], ◌∷◌}

pub data StreamTransformMode : Type 0 where
  auto url_decode gzip http_chunked http_gzip web_socket_deflate : StreamTransformMode

pub data StreamTransformApplied : Type 0 where
  url_decode gzip http_chunked http_gzip web_socket_deflate none : StreamTransformApplied

pub data StreamTransformStatus : Type 0 where
  applied noop failed : StreamTransformStatus

pub data ChunkedError : Type 0 where
  empty_size_line size_not_utf8 invalid_size missing_line_end : ChunkedError

pub data WebSocketError : Type 0 where
  truncated_header truncated_length_or_mask truncated_payload : WebSocketError
  continuation_without_message interrupted_message truncated_message : WebSocketError
  deflate_failed : WebSocketError

pub data Note : Type 0 where
  no_url_bytes no_http_header header_not_utf8 not_http not_chunked not_gzip_encoded : Note
  no_gzip_header gzip_incomplete gzip_failed gzip_body_failed no_chunk_data : Note
  chunked_incomplete no_compressed_messages nothing_detected empty_plan url_decode_skipped : Note
  invalid_escapes_left decoded_chunks trailer_ignored gzip_body_decoded : ℕ → Note
  chunked_failed : ChunkedError → Note
  web_socket_failed : WebSocketError → Note
  web_socket_messages : (decoded copied control_frames : ℕ) → Note

-- `N` is the type of the notes: those of a decoder, or of a plan.
pub record TransformOutcome (N : Type 0) : Type 0 where
  pub applied : StreamTransformApplied
  pub status : StreamTransformStatus
  pub bytes : List ℕ
  pub truncated_by_limit : Bool
  pub notes : List N

unfoldable pub noop_with : {N : Type 0} → N → TransformOutcome N
noop_with note = record {
  applied = none;
  status = noop;
  bytes = [];
  truncated_by_limit = false;
  notes = note ∷ [];
}

unfoldable pub failed_with : {N : Type 0} → N → TransformOutcome N
failed_with note = record {
  applied = none;
  status = failed;
  bytes = [];
  truncated_by_limit = false;
  notes = note ∷ [];
}

unfoldable pub is_applied : StreamTransformStatus → Bool
is_applied applied = true
is_applied noop = false
is_applied failed = false

unfoldable pub is_failed : StreamTransformStatus → Bool
is_failed applied = false
is_failed noop = false
is_failed failed = true
