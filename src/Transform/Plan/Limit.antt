-- ===== src/Transform/Plan/Limit.antt =====
-- The limit on what one decoder of a chain yields.
use rustmate.Base.{
  ℕ, suc, ◌+◌, ◌≡◌, ◌≤◌, refl, Bool, true, false, not, ◌&&◌, ◌||◌, Option, none, some, List, [],
  ◌∷◌, ◌++◌, arith, ◌==◌, if◌then◌else◌, min, max, subst, ap, length, length-append, length-take,
  take, drop, if_both, Option-cases, inl, inr,
}
use rustmate.Transform.Outcome.{
  StreamTransformMode, StreamTransformApplied, applied, TransformOutcome, Note, noop_with,
  failed_with, is_applied,
}
use rustmate.Transform.Url.{UrlDecoding, escape, push_byte, url_decode_loop, url_decode_transform}
use rustmate.Transform.Chunked.{ChunkedDecode, ChunkedResult, ok, err, decode_chunked_body}
use rustmate.Transform.Chunked.Limit.{decode_chunked_body-le}
use rustmate.Transform.Reader.{Reader, LimitedRead, read_limited}
use rustmate.Transform.Reader.Limit.{read_limited-le}
use rustmate.Transform.WebSocket.Messages.{websocket_deflate_transform}
use rustmate.Transform.WebSocket.Limit.{websocket_deflate_transform-le}
use rustmate.Bytes.Utf8.{from_utf8}
use rustmate.Transform.Http.{
  find_http_header_end, looks_like_http_header, http_body, header_has_gzip_content_encoding,
  header_has_chunked_transfer_encoding, chunked_body, chunked_notes, http_chunked_transform,
  gzip_transform, gzip_body, http_gzip_transform, auto_transform, transform_step, is_gzip,
  looks_like_url_encoded_text,
}

push_byte-length :
    (byte : ℕ) (d : UrlDecoding) → length (push_byte byte d).output ≡ suc (length d.output)
unfolding push_byte
push_byte-length byte d =
    if_both (λ (e : UrlDecoding). length e.output ≡ suc (length d.output)) (byte == b'%')
      (λ _. omega (arith, length-append d.output (byte ∷ [])))
      (λ _.
        if_both (λ (e : UrlDecoding). length e.output ≡ suc (length d.output)) (byte == b'+')
          (λ _. omega (arith, length-append d.output (b' ' ∷ [])))
          (λ _. omega (arith, length-append d.output (byte ∷ []))))

url_decode_loop-le :
    (input : List ℕ) (d : UrlDecoding)
    → length (url_decode_loop input d).output ≤ length d.output + length input
unfolding url_decode_loop
url_decode_loop-le [] d = omega arith
url_decode_loop-le (x ∷ []) d = omega (arith, push_byte-length x d)
url_decode_loop-le (x ∷ y ∷ []) d =
    omega (arith, push_byte-length x d, push_byte-length y (push_byte x d))
url_decode_loop-le (x ∷ y ∷ z ∷ rest) d = elim (Option-cases (escape x y z)) [
  | inl e ↦
      rw (e, url_decode_loop)
        (omega (arith, push_byte-length x d, url_decode_loop-le (y ∷ z ∷ rest) (push_byte x d)))
  | inr (byte, e) ↦
      rw (e, url_decode_loop)
        (omega (
          arith,
          length-append d.output (byte ∷ []),
          url_decode_loop-le rest (record d { output = d.output ++ byte ∷ []; changed = true }),
        ))
]

-- An outcome's bytes are at most `n`.
abbrev Fits : ℕ → TransformOutcome Note → Type 0
Fits n outcome = length outcome.bytes ≤ n

noop_with-Fits : (note : Note) (n : ℕ) → Fits n (noop_with note)
unfolding noop_with
noop_with-Fits note n = omega arith

failed_with-Fits : (note : Note) (n : ℕ) → Fits n (failed_with note)
unfolding failed_with
failed_with-Fits note n = omega arith

url_decode_transform-Fits : (input : List ℕ) → Fits (length input) (url_decode_transform input)
unfolding url_decode_transform noop_with
url_decode_transform-Fits input =
    if_both (Fits (length input))
      (not
        (url_decode_loop input
          (record { output = []; changed = false; invalid_escapes = 0 })).changed)
      (λ _. omega arith)
      (λ _. omega (
        arith,
        url_decode_loop-le input (record { output = []; changed = false; invalid_escapes = 0 }),
      ))

chunked_body-Fits :
    (header_end : ℕ) (input : List ℕ) (max_output_bytes : ℕ)
    → Fits
        (min header_end (length input) + max_output_bytes)
        (chunked_body header_end input max_output_bytes)
unfolding chunked_body failed_with noop_with
chunked_body-Fits header_end input max_output_bytes =
    go (decode_chunked_body (drop header_end input) max_output_bytes)
      (λ d e. decode_chunked_body-le (drop header_end input) max_output_bytes d e)
  where
    go :
        (result : ChunkedResult)
        → ((d : ChunkedDecode) → result ≡ ok d → length d.bytes ≤ max_output_bytes)
        → Fits (min header_end (length input) + max_output_bytes) (elim result [
          | err error ↦ failed_with (Note.chunked_failed error)
          | ok decoded ↦
              if not (decoded.chunks == 0) || decoded.reached_last_chunk
              then record {
                applied = StreamTransformApplied.http_chunked;
                status = applied;
                bytes = take header_end input ++ decoded.bytes;
                truncated_by_limit = decoded.truncated_by_limit;
                notes = chunked_notes decoded;
              }
              else noop_with Note.no_chunk_data
        ])
    go (err error) h = omega arith
    go (ok d) h =
        if_both (Fits (min header_end (length input) + max_output_bytes))
          (not (d.chunks == 0) || d.reached_last_chunk)
          (λ _. omega (
            arith,
            h d refl,
            length-append (take header_end input) d.bytes,
            length-take header_end input,
          ))
          (λ _. omega arith)

-- The length of the header in front of a body, the empty line included; 0 without a header.
abbrev pub header_of : List ℕ → ℕ
header_of input = elim (find_http_header_end input) [
  | none ↦ 0
  | some (header_len, header_end) ↦ min header_end (length input)
]

-- The body that `http_body` finds stands behind that header.
http_body-header_of :
    (encoded : List ℕ → Bool) (note : Note) (input : List ℕ) (header_end : ℕ)
    → (http_body encoded note input).1 ≡ some header_end
    → min header_end (length input) ≡ header_of input
unfolding http_body
http_body-header_of encoded note input header_end e = go (find_http_header_end input) e
  where
    text :
        (header_len found : ℕ) (header : Option (List ℕ))
        → (elim header as (λ _. Note × Option ℕ) [
          | none ↦ (Note.header_not_utf8, none)
          | some header_text ↦
              if not (looks_like_http_header header_text)
              then (Note.not_http, none)
              else if not (encoded header_text)
              then (note, none)
              else (note, some found)
        ]).1
          ≡ some header_end
        → header_end ≡ found
    text header_len found none e = ground arith
    text header_len found (some header_text) e = ground arith

    go :
        (found : Option (ℕ × ℕ))
        → (elim found as (λ _. Note × Option ℕ) [
          | none ↦ (Note.no_http_header, none)
          | some (header_len, header_end) ↦ elim (from_utf8 (take header_len input)) [
            | none ↦ (Note.header_not_utf8, none)
            | some header_text ↦
                if not (looks_like_http_header header_text)
                then (Note.not_http, none)
                else if not (encoded header_text)
                then (note, none)
                else (note, some header_end)
          ]
        ]).1
          ≡ some header_end
        → min header_end (length input)
          ≡ elim found [ none ↦ 0 | some (header_len, found_end) ↦ min found_end (length input) ]
    go none e = ground arith
    go (some (header_len, found)) e =
        ap (λ n. min n (length input)) (text header_len found (from_utf8 (take header_len input)) e)

-- What holds of the outcome without a body and of that with the body found holds of the outcome.
body_Fits :
    (n : ℕ) (note : Note) (body : Option ℕ) (f : ℕ → TransformOutcome Note)
    → ((header_end : ℕ) → body ≡ some header_end → Fits n (f header_end))
    → Fits n (elim body [ none ↦ noop_with note | some header_end ↦ f header_end ])
body_Fits n note none f h = noop_with-Fits note n
body_Fits n note (some header_end) f h = h header_end refl

http_chunked_transform-Fits :
    (input : List ℕ) (max_output_bytes : ℕ)
    → Fits (header_of input + max_output_bytes) (http_chunked_transform input max_output_bytes)
unfolding http_chunked_transform
http_chunked_transform-Fits input max_output_bytes =
    body_Fits (header_of input + max_output_bytes)
      (http_body header_has_chunked_transfer_encoding Note.not_chunked input).0
      (http_body header_has_chunked_transfer_encoding Note.not_chunked input).1
      (λ header_end. chunked_body header_end input max_output_bytes)
      (λ header_end e.
        subst (λ n. Fits (n + max_output_bytes) (chunked_body header_end input max_output_bytes))
          (http_body-header_of header_has_chunked_transfer_encoding Note.not_chunked input
            header_end e)
          (chunked_body-Fits header_end input max_output_bytes))

-- The most bytes that a mode may yield: URL decoding keeps no limit but the input's length, and the
-- decoders of a message put its header before what they decode.
abbrev pub most : List ℕ → StreamTransformMode → ℕ → ℕ
most input StreamTransformMode.auto limit = max (length input) (header_of input + limit)
most input StreamTransformMode.url_decode limit = length input
most input StreamTransformMode.gzip limit = limit
most input StreamTransformMode.http_chunked limit = header_of input + limit
most input StreamTransformMode.http_gzip limit = header_of input + limit
most input StreamTransformMode.web_socket_deflate limit = limit

module _ (gz deflate : Reader) where
  gzip_transform-Fits :
      (input : List ℕ) (max_output_bytes : ℕ)
      → Fits max_output_bytes (gzip_transform gz deflate input max_output_bytes)
  unfolding gzip_transform failed_with noop_with
  gzip_transform-Fits input max_output_bytes =
      if_both (Fits max_output_bytes) (is_gzip input)
        (λ _.
          go (read_limited gz max_output_bytes input)
            ((read_limited-le gz max_output_bytes input).1))
        (λ _. omega arith)
    where
      go :
          (result : Option LimitedRead)
          → ((limited : LimitedRead)
              → result ≡ some limited
              → length limited.bytes ≤ max_output_bytes)
          → Fits max_output_bytes (elim result [
            | none ↦ failed_with Note.gzip_failed
            | some limited ↦ record {
              applied = StreamTransformApplied.gzip;
              status = applied;
              bytes = limited.bytes;
              truncated_by_limit = limited.truncated_by_limit;
              notes = if limited.incomplete then Note.gzip_incomplete ∷ [] else [];
            }
          ])
      go none h = omega arith
      go (some limited) h = h limited refl

  gzip_body-Fits :
      (header_end : ℕ) (input : List ℕ) (max_output_bytes : ℕ)
      → Fits
          (min header_end (length input) + max_output_bytes)
          (gzip_body gz deflate header_end input max_output_bytes)
  unfolding gzip_body failed_with
  gzip_body-Fits header_end input max_output_bytes =
      if_both (Fits (min header_end (length input) + max_output_bytes))
        (is_applied (gzip_transform gz deflate (drop header_end input) max_output_bytes).status)
        (λ _. omega (
          arith,
          gzip_transform-Fits (drop header_end input) max_output_bytes,
          length-append (take header_end input)
              (gzip_transform gz deflate (drop header_end input) max_output_bytes).bytes,
          length-take header_end input,
        ))
        (λ _. omega arith)

  http_gzip_transform-Fits :
      (input : List ℕ) (max_output_bytes : ℕ)
      → Fits
          (header_of input + max_output_bytes)
          (http_gzip_transform gz deflate input max_output_bytes)
  unfolding http_gzip_transform
  http_gzip_transform-Fits input max_output_bytes =
      body_Fits (header_of input + max_output_bytes)
        (http_body header_has_gzip_content_encoding Note.not_gzip_encoded input).0
        (http_body header_has_gzip_content_encoding Note.not_gzip_encoded input).1
        (λ header_end. gzip_body gz deflate header_end input max_output_bytes)
        (λ header_end e.
          subst
            (λ n.
              Fits (n + max_output_bytes) (gzip_body gz deflate header_end input max_output_bytes))
            (http_body-header_of header_has_gzip_content_encoding Note.not_gzip_encoded input
              header_end e)
            (gzip_body-Fits header_end input max_output_bytes))

  auto_transform-Fits :
      (input : List ℕ) (max_output_bytes : ℕ)
      → Fits
          (max (length input) (header_of input + max_output_bytes))
          (auto_transform gz deflate input max_output_bytes)
  unfolding auto_transform noop_with
  auto_transform-Fits input max_output_bytes =
      if_both P (is_applied (http_chunked_transform input max_output_bytes).status)
        (λ _. omega (arith, http_chunked_transform-Fits input max_output_bytes))
        (λ _.
          if_both P (is_applied (http_gzip_transform gz deflate input max_output_bytes).status)
            (λ _. omega (arith, http_gzip_transform-Fits input max_output_bytes))
            (λ _.
              if_both P
                (is_gzip input
                  && is_applied (gzip_transform gz deflate input max_output_bytes).status)
                (λ _. omega (arith, gzip_transform-Fits input max_output_bytes))
                (λ _.
                  if_both P
                    (is_applied (websocket_deflate_transform deflate max_output_bytes input).status)
                    (λ _.
                      omega
                        (arith, (websocket_deflate_transform-le deflate max_output_bytes input).1))
                    (λ _.
                      if_both P
                        (looks_like_url_encoded_text input
                          && is_applied (url_decode_transform input).status)
                        (λ _. omega (arith, url_decode_transform-Fits input)) (λ _. omega arith)))))
    where
      P : TransformOutcome Note → Type 0
      P = Fits (max (length input) (header_of input + max_output_bytes))

  -- Whatever the decompressors read, gzip and WebSocket decoding yield at most `max_output_bytes`
  -- bytes, the decoders of HTTP messages at most these besides the message's header, URL decoding no
  -- more than its input has, and the automatic choice no more than one of these.
  pub transform_step-le :
      (input : List ℕ) (mode : StreamTransformMode) (max_output_bytes : ℕ)
      → length (transform_step gz deflate input mode max_output_bytes).bytes
        ≤ most input mode max_output_bytes
  unfolding transform_step
  transform_step-le input StreamTransformMode.auto max_output_bytes =
      auto_transform-Fits input max_output_bytes
  transform_step-le input StreamTransformMode.url_decode max_output_bytes =
      url_decode_transform-Fits input
  transform_step-le input StreamTransformMode.gzip max_output_bytes =
      gzip_transform-Fits input max_output_bytes
  transform_step-le input StreamTransformMode.http_chunked max_output_bytes =
      http_chunked_transform-Fits input max_output_bytes
  transform_step-le input StreamTransformMode.http_gzip max_output_bytes =
      http_gzip_transform-Fits input max_output_bytes
  transform_step-le input StreamTransformMode.web_socket_deflate max_output_bytes =
      (websocket_deflate_transform-le deflate max_output_bytes input).1
