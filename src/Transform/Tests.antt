-- ===== src/Transform/Tests.antt =====
-- The decoders at concrete inputs: a reader that reads its input as it is, and short payloads.
use rustmate.Base.{
  ℕ, ◌≡◌, ◌≢◌, ◌≤◌, refl, subst, ap, true, false, none, some, List, [], ◌∷◌, arith, length,
  length-take, take, drop,
}
use rustmate.Transform.Outcome.{StreamTransformMode, StreamTransformApplied, applied}
use rustmate.Transform.Url.{url_decode_transform}
use rustmate.Transform.Url.Roundtrip.{percent_encode, has_reserved, url_decode-percent_encode}
use rustmate.Transform.Chunked
use rustmate.Transform.Chunked.{decode_chunked_body, no_chunks}
use rustmate.Transform.Chunked.Roundtrip.{chunk, encode_chunks, decode_chunked_body-encode_chunks}
use rustmate.Transform.Chunked.Limit.{decode_chunked_body-le, decode_chunked_body-cut}
use rustmate.Transform.Reader.{
  Reader, ReadResult, read, unexpected_eof, other_error, LimitedRead, reading, read_loop,
  read_limited,
}
use rustmate.Transform.Reader.Limit.{read_limited-le}
use rustmate.Transform.WebSocket
use rustmate.Transform.WebSocket.{WebSocketFrame}
use rustmate.Transform.WebSocket.Messages.{collect_loop, returned, websocket_deflate_transform}
use rustmate.Transform.WebSocket.Limit.{websocket_deflate_transform-le}
use rustmate.Transform.Http.{transform_step}
use rustmate.Transform.Plan.{StreamTransformConfig, TransformInput}
use rustmate.Transform.Plan.Limit.{most, transform_step-le}

-- `a b`, whose space has to be encoded.
abbrev two_words : List ℕ
two_words = b'a' ∷ b' ' ∷ b'b' ∷ []

url_decode-percent_encode_example : url_decode_transform (percent_encode two_words) ≡ record {
  applied = StreamTransformApplied.url_decode;
  status = applied;
  bytes = two_words;
  truncated_by_limit = false;
  notes = [];
}
unfolding has_reserved
url_decode-percent_encode_example = url_decode-percent_encode two_words (ground arith) refl

abbrev payloads : List (List ℕ)
payloads = (1 ∷ 2 ∷ []) ∷ (3 ∷ []) ∷ []

decode_chunked_body-encode_chunks_example :
    decode_chunked_body (encode_chunks payloads (13 ∷ 10 ∷ [])) 8
    ≡ Chunked.ok (record {
      bytes = 1 ∷ 2 ∷ 3 ∷ [];
      chunks = 2;
      truncated_by_limit = false;
      partial = false;
      reached_last_chunk = true;
      trailing_bytes = 2;
    })
decode_chunked_body-encode_chunks_example =
    decode_chunked_body-encode_chunks payloads (13 ∷ 10 ∷ []) 8 (ground arith) (omega arith)

decode_chunked_body-cut_example :
    decode_chunked_body (chunk (1 ∷ 2 ∷ 3 ∷ []) []) 2
    ≡ Chunked.ok (record no_chunks { bytes = 1 ∷ 2 ∷ []; chunks = 1 })
decode_chunked_body-cut_example =
    decode_chunked_body-cut (1 ∷ 2 ∷ 3 ∷ []) 2 (omega arith) (omega arith)

decode_chunked_body-le_example : length {A = ℕ} (1 ∷ 2 ∷ []) ≤ 2
decode_chunked_body-le_example =
    decode_chunked_body-le (chunk (1 ∷ 2 ∷ 3 ∷ []) []) 2
      (record no_chunks { bytes = 1 ∷ 2 ∷ []; chunks = 1 }) decode_chunked_body-cut_example

-- A masked frame of two bytes.
abbrev frame : WebSocketFrame
frame = record { fin = true; opcode = 2; rsv1 = false; payload = 7 ∷ 200 ∷ [] }

abbrev bytes_of : ReadResult → List ℕ
bytes_of (read bytes) = bytes
bytes_of unexpected_eof = []
bytes_of other_error = []

-- The reader that reads its input as it is.
abbrev plain_reader : Reader
plain_reader = record {
  State = List ℕ;
  open_input = λ input. input;
  read_into = λ n rest. (read (take n rest), drop n rest);
  read_fits = λ n rest bytes after e.
      subst (λ xs. length xs ≤ n) (ap (λ (p : ReadResult × List ℕ). bytes_of p.0) e)
        (take_le n rest);
}
  where
    take_le : (n : ℕ) (rest : List ℕ) → length (take n rest) ≤ n
    take_le n rest = omega (arith, length-take n rest)

read_limited-le_example :
    ((read_loop plain_reader 2 (1 ∷ 2 ∷ 3 ∷ [])).phase ≢ reading)
    × ((limited : LimitedRead)
        → read_limited plain_reader 2 (1 ∷ 2 ∷ 3 ∷ []) ≡ some limited
        → length limited.bytes ≤ 2)
read_limited-le_example = read_limited-le plain_reader 2 (1 ∷ 2 ∷ 3 ∷ [])

-- The frame above, not masked.
abbrev frames : List ℕ
frames = 130 ∷ 2 ∷ 7 ∷ 200 ∷ []

websocket_deflate_transform-le_example :
    (collect_loop plain_reader 8 frames
      ≡ returned (websocket_deflate_transform plain_reader 8 frames))
    × (length (websocket_deflate_transform plain_reader 8 frames).bytes ≤ 8)
websocket_deflate_transform-le_example = websocket_deflate_transform-le plain_reader 8 frames

transform_step-le_example :
    length
      (transform_step plain_reader plain_reader
        (chunk two_words [])
        StreamTransformMode.auto
        2).bytes
    ≤ most (chunk two_words []) StreamTransformMode.auto 2
transform_step-le_example =
    transform_step-le plain_reader plain_reader (chunk two_words []) StreamTransformMode.auto 2

abbrev one_byte : StreamTransformConfig
one_byte = record { max_output_bytes = 1; hex_row_bytes = 16 }

abbrev encoded : TransformInput
encoded = record {
  bytes = percent_encode two_words;
  source_logical_start = none;
  source_logical_end = none;
}
