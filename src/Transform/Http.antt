-- ===== src/Transform/Http.antt =====
-- src/stream_transform.rs: the decoders of HTTP bodies, and the choice of a decoder.
use rustmate.Base.{
  ℕ, suc, ◌+◌, ◌*◌, Bool, true, false, not, ◌&&◌, ◌||◌, Option, none, some, List, [], ◌∷◌, ◌++◌,
  leb, ◌==◌, if◌then◌else◌, length, take, drop, is_empty, any, min,
}
use rustmate.Bytes.{codes, starts_with, eq_ignore_ascii_case, trim, split}
use rustmate.Bytes.Lines.{lines, split_once, split_ascii_whitespace}
use rustmate.Bytes.Utf8.{from_utf8}
use rustmate.Slice.Render.{is_textish}
use rustmate.Transform.Outcome.{
  StreamTransformMode, StreamTransformApplied, applied, TransformOutcome, Note, no_http_header,
  header_not_utf8, not_http, not_chunked, not_gzip_encoded, no_gzip_header, gzip_incomplete,
  gzip_failed, gzip_body_failed, no_chunk_data, chunked_incomplete, decoded_chunks, trailer_ignored,
  gzip_body_decoded, chunked_failed, nothing_detected, noop_with, failed_with, is_applied,
}
use rustmate.Transform.Url.{escape, url_decode_transform}
use rustmate.Transform.Chunked.{ChunkedDecode, ok, err, decode_chunked_body}
use rustmate.Transform.Reader.{Reader, read_limited}
use rustmate.Transform.WebSocket.Messages.{websocket_deflate_transform}

-- `windows(n).position(|window| window == pattern)`.
unfoldable pub find_bytes : List ℕ → List ℕ → Option ℕ
unfolding starts_with
find_bytes pattern [] = none
find_bytes pattern (x ∷ xs) =
    let later = find_bytes pattern xs in
    if starts_with pattern (x ∷ xs)
    then some 0
    else elim later [ none ↦ none | some i ↦ some (suc i) ]

-- The length of the header, and where the body starts.
unfoldable pub find_http_header_end : List ℕ → Option (ℕ × ℕ)
unfolding find_bytes
find_http_header_end bytes = elim (find_bytes (13 ∷ 10 ∷ 13 ∷ 10 ∷ []) bytes) [
  | some pos ↦ some (pos, pos + 4)
  | none ↦ elim (find_bytes (10 ∷ 10 ∷ []) bytes) [ none ↦ none | some pos ↦ some (pos, pos + 2) ]
]

first_line_is_http : List (List ℕ) → Bool
first_line_is_http [] = false
first_line_is_http (line ∷ more) =
    starts_with (codes "HTTP/") line || (elim (split_ascii_whitespace line) [
      | word ∷ (second ∷ (version ∷ rest)) ↦ starts_with (codes "HTTP/") version
      | _ ↦ false
    ])

unfoldable pub looks_like_http_header : List ℕ → Bool
unfolding first_line_is_http
looks_like_http_header header = first_line_is_http (lines header)

-- A line `name: …` among whose values, separated by commas, is `value`, in any case.
unfoldable pub header_has : List ℕ → List ℕ → List ℕ → Bool
header_has name value header =
    any
      (λ line. elim (split_once b':' line) [
        | none ↦ false
        | some (found, values) ↦
            eq_ignore_ascii_case (trim found) name
            && any (λ v. eq_ignore_ascii_case (trim v) value) (split b',' values)
      ])
      (lines header)

unfoldable pub header_has_gzip_content_encoding : List ℕ → Bool
unfolding header_has
header_has_gzip_content_encoding header =
    header_has (codes "content-encoding") (codes "gzip") header

unfoldable pub header_has_chunked_transfer_encoding : List ℕ → Bool
unfolding header_has
header_has_chunked_transfer_encoding header =
    header_has (codes "transfer-encoding") (codes "chunked") header

unfoldable pub is_gzip : List ℕ → Bool
is_gzip bytes = starts_with (0x1f ∷ 0x8b ∷ []) bytes

unfoldable pub has_valid_percent_escape : List ℕ → Bool
unfolding escape
has_valid_percent_escape [] = false
has_valid_percent_escape (x ∷ []) = false
has_valid_percent_escape (x ∷ y ∷ []) = false
has_valid_percent_escape (x ∷ y ∷ z ∷ rest) =
    (elim (escape x y z) [ none ↦ false | some byte ↦ true ])
    || has_valid_percent_escape (y ∷ z ∷ rest)

unfoldable pub count_textish : List ℕ → ℕ
unfolding is_textish
count_textish [] = 0
count_textish (b ∷ bs) = (if is_textish b then 1 else 0) + count_textish bs

-- 85 of 100 in the first 4096 bytes.
unfoldable pub is_mostly_text : List ℕ → Bool
unfolding count_textish
is_mostly_text bytes =
    if is_empty bytes
    then false
    else leb (min (length bytes) 4096 * 85)
        (count_textish (take (min (length bytes) 4096) bytes) * 100)

unfoldable pub looks_like_url_encoded_text : List ℕ → Bool
unfolding has_valid_percent_escape is_mostly_text
looks_like_url_encoded_text bytes = has_valid_percent_escape bytes && is_mostly_text bytes

-- The test of an HTTP message whose header names an encoding: where the body starts, or why not.
unfoldable pub http_body : (List ℕ → Bool) → Note → List ℕ → (Note × Option ℕ)
unfolding find_http_header_end looks_like_http_header
http_body encoded not_encoded input = elim (find_http_header_end input) [
  | none ↦ (no_http_header, none)
  | some (header_len, header_end) ↦ elim (from_utf8 (take header_len input)) [
    | none ↦ (header_not_utf8, none)
    | some header_text ↦
        if not (looks_like_http_header header_text)
        then (not_http, none)
        else if not (encoded header_text)
        then (not_encoded, none)
        else (not_encoded, some header_end)
  ]
]

unfoldable pub chunked_notes : ChunkedDecode → List Note
chunked_notes d =
    decoded_chunks d.chunks
    ∷ ((if d.partial then chunked_incomplete ∷ [] else [])
        ++ (if d.reached_last_chunk && not (d.trailing_bytes == 0)
            then trailer_ignored d.trailing_bytes ∷ []
            else []))

unfoldable pub chunked_body : ℕ → List ℕ → ℕ → TransformOutcome Note
unfolding decode_chunked_body chunked_notes noop_with failed_with
chunked_body header_end input max_output_bytes =
    elim (decode_chunked_body (drop header_end input) max_output_bytes) [
      | err error ↦ failed_with (chunked_failed error)
      | ok decoded ↦
          if not (decoded.chunks == 0) || decoded.reached_last_chunk
          then record {
            applied = StreamTransformApplied.http_chunked;
            status = applied;
            bytes = take header_end input ++ decoded.bytes;
            truncated_by_limit = decoded.truncated_by_limit;
            notes = chunked_notes decoded;
          }
          else noop_with no_chunk_data
    ]

unfoldable pub http_chunked_transform : List ℕ → ℕ → TransformOutcome Note
unfolding http_body header_has_chunked_transfer_encoding chunked_body noop_with
http_chunked_transform input max_output_bytes =
    let (note, body) = http_body header_has_chunked_transfer_encoding not_chunked input in
    elim body [
      | none ↦ noop_with note
      | some header_end ↦ chunked_body header_end input max_output_bytes
    ]

unfoldable pub first_note : List Note → Note
first_note [] = gzip_body_failed
first_note (note ∷ notes) = note

module _ (gz deflate : Reader) where
  unfoldable pub gzip_transform : List ℕ → ℕ → TransformOutcome Note
  unfolding is_gzip read_limited noop_with failed_with
  gzip_transform input max_output_bytes =
      if is_gzip input
      then (elim (read_limited gz max_output_bytes input) [
        | none ↦ failed_with gzip_failed
        | some limited ↦ record {
          applied = StreamTransformApplied.gzip;
          status = applied;
          bytes = limited.bytes;
          truncated_by_limit = limited.truncated_by_limit;
          notes = if limited.incomplete then gzip_incomplete ∷ [] else [];
        }
      ])
      else noop_with no_gzip_header

  unfoldable pub gzip_body : ℕ → List ℕ → ℕ → TransformOutcome Note
  unfolding gzip_transform failed_with first_note is_applied
  gzip_body header_end input max_output_bytes =
      let decoded = gzip_transform (drop header_end input) max_output_bytes in
      if is_applied decoded.status
      then record {
        applied = StreamTransformApplied.http_gzip;
        status = applied;
        bytes = take header_end input ++ decoded.bytes;
        truncated_by_limit = decoded.truncated_by_limit;
        notes = decoded.notes ++ gzip_body_decoded header_end ∷ [];
      }
      else failed_with (first_note decoded.notes)

  unfoldable pub http_gzip_transform : List ℕ → ℕ → TransformOutcome Note
  unfolding http_body header_has_gzip_content_encoding gzip_body noop_with
  http_gzip_transform input max_output_bytes =
      let (note, body) = http_body header_has_gzip_content_encoding not_gzip_encoded input in
      elim body [
        | none ↦ noop_with note
        | some header_end ↦ gzip_body header_end input max_output_bytes
      ]

  -- The first decoder that applies, in this order.
  unfoldable pub auto_transform : List ℕ → ℕ → TransformOutcome Note
  unfolding http_chunked_transform http_gzip_transform gzip_transform websocket_deflate_transform
      url_decode_transform looks_like_url_encoded_text is_gzip is_applied noop_with
  auto_transform input max_output_bytes =
      let chunked = http_chunked_transform input max_output_bytes in
      let http = http_gzip_transform input max_output_bytes in
      let gzip = gzip_transform input max_output_bytes in
      let websocket = websocket_deflate_transform deflate max_output_bytes input in
      let url = url_decode_transform input in
      if is_applied chunked.status
      then chunked
      else if is_applied http.status
      then http
      else if is_gzip input && is_applied gzip.status
      then gzip
      else if is_applied websocket.status
      then websocket
      else if looks_like_url_encoded_text input && is_applied url.status
      then url
      else noop_with nothing_detected

  -- `map_applied` names the decoder that has already been named.
  unfoldable pub transform_step : List ℕ → StreamTransformMode → ℕ → TransformOutcome Note
  unfolding auto_transform
  transform_step input StreamTransformMode.auto max_output_bytes =
      auto_transform input max_output_bytes
  transform_step input StreamTransformMode.url_decode max_output_bytes = url_decode_transform input
  transform_step input StreamTransformMode.gzip max_output_bytes =
      gzip_transform input max_output_bytes
  transform_step input StreamTransformMode.http_chunked max_output_bytes =
      http_chunked_transform input max_output_bytes
  transform_step input StreamTransformMode.http_gzip max_output_bytes =
      http_gzip_transform input max_output_bytes
  transform_step input StreamTransformMode.web_socket_deflate max_output_bytes =
      websocket_deflate_transform deflate max_output_bytes input
