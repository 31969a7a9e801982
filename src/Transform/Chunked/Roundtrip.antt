-- ===== src/Transform/Chunked/Roundtrip.antt =====
-- Decoding undoes the chunked transfer coding.
use rustmate.Base.{
  ℕ, zero, suc, ◌+◌, ◌-◌, ◌≡◌, ◌≢◌, ◌<◌, ◌≤◌, ◌⊎◌, refl, ap, ◌∙◌, true, false, some, List, [], ◌∷◌,
  ◌++◌, arith, ◌==◌, if◌then◌else◌, All, All-mono, All-append, take-append, drop-append_length,
  append_assoc, append-nil, length, length-append, min, u64_max, is_empty, loop, take_of_length-le,
  inl, inr,
}
use rustmate.Bytes.{trim_ascii, is_ascii_whitespace}
use rustmate.Bytes.Lines.Laws.{split_once-append, strip_cr-append, split-none, trim_ascii-none}
use rustmate.Bytes.Utf8.{from_utf8-ascii}
use rustmate.Bytes.Hex.{hex_digit}
use rustmate.Bytes.Hex.Numbers.{to_hex, IsDigit, to_hex-IsDigit, to_hex-ne, from_hex-to_hex}
use rustmate.Transform.Chunked.{
  ChunkedDecode, ok, append_limited, find_line_end, first_piece, size_ok, parse_chunk_size, reading,
  broken, after_payload, read_chunk, read_size, chunk_round, chunk_step, no_chunks, chunked_result,
  decode_chunked_body,
}

-- The specification: how RFC 9112 writes a chunk, its size in hexadecimal digits before it.
unfoldable pub chunk : List ℕ → List ℕ → List ℕ
unfolding to_hex
chunk payload rest = to_hex (length payload) ++ (13 ∷ 10 ∷ (payload ++ 13 ∷ 10 ∷ rest))

-- The chunks, then the last chunk and what follows its line.
unfoldable pub encode_chunks : List (List ℕ) → List ℕ → List ℕ
unfolding chunk
encode_chunks [] trailer = to_hex 0 ++ (13 ∷ 10 ∷ trailer)
encode_chunks (payload ∷ payloads) trailer = chunk payload (encode_chunks payloads trailer)

abbrev pub concat : List (List ℕ) → List ℕ
concat [] = []
concat (xs ∷ xss) = xs ++ concat xss

digit-plain :
    (c : ℕ) → IsDigit c → (c ≢ 10) × (c ≢ b';') × (is_ascii_whitespace c ≡ false) × (c < 0x80)
unfolding hex_digit is_ascii_whitespace
digit-plain c (n, h, e) = ground arith

trim-digits : (n : ℕ) → trim_ascii (to_hex n) ≡ to_hex n
trim-digits n = trim_ascii-none (to_hex n) (
    All-mono IsDigit (λ c. is_ascii_whitespace c ≡ false) (λ c d. (digit-plain c d).2) (to_hex n)
      (to_hex-IsDigit n))

parse_chunk_size-to_hex : (n : ℕ) → n ≤ u64_max → parse_chunk_size (to_hex n) ≡ size_ok n
unfolding parse_chunk_size first_piece
parse_chunk_size-to_hex n h = ground (
  arith,
  split-none b';' (to_hex n)
      (All-mono IsDigit (λ c. c ≢ b';') (λ c d. (digit-plain c d).1) (to_hex n) (to_hex-IsDigit n)),
  trim-digits n,
  from_utf8-ascii (to_hex n)
      (All-mono IsDigit (λ c. c < 0x80) (λ c d. (digit-plain c d).3) (to_hex n) (to_hex-IsDigit n)),
  from_hex-to_hex u64_max n h,
)

find_line_end-to_hex :
    (n : ℕ) (rest : List ℕ) → find_line_end (to_hex n ++ (13 ∷ 10 ∷ rest)) ≡ some (to_hex n, rest)
unfolding find_line_end
find_line_end-to_hex n rest = ground (
  arith,
  append_assoc (to_hex n) (13 ∷ []) (10 ∷ rest),
  split_once-append 10 (to_hex n ++ 13 ∷ []) rest plain,
  strip_cr-append (to_hex n),
)
  where
    plain : All (λ c. c ≢ 10) (to_hex n ++ 13 ∷ [])
    plain =
        All-append (λ c. c ≢ 10) (to_hex n) (13 ∷ [])
          (All-mono IsDigit (λ c. c ≢ 10) (λ c d. (digit-plain c d).0) (to_hex n)
            (to_hex-IsDigit n))
          (omega arith, tt)

-- The line of a size is read.
pub chunk_round-to_hex :
    (max_output_bytes n : ℕ) (rest : List ℕ) (d : ChunkedDecode)
    → n ≤ u64_max
    → chunk_round max_output_bytes (to_hex n ++ (13 ∷ 10 ∷ rest)) d ≡ (
        if n == 0
        then record {
          decode = record d { reached_last_chunk = true; trailing_bytes = length rest };
          rest = rest;
          phase = broken;
        }
        else read_chunk max_output_bytes n rest d)
unfolding chunk_round read_size
chunk_round-to_hex max_output_bytes n rest d h = elim (is_empty-cases (to_hex n)) [
  | inl e ↦ absurd (to_hex-ne n e)
  | inr e ↦
      rw (find_line_end-to_hex n rest, chunk_round, read_size)
        (rw (trim-digits n) (rw (e, parse_chunk_size-to_hex n h) refl))
]
  where
    is_empty-cases : (xs : List ℕ) → (xs ≡ []) ⊎ (is_empty xs ≡ false)
    is_empty-cases [] = inl refl
    is_empty-cases (x ∷ xs) = inr refl

-- Chunks that have been read whole, with nothing lost.
abbrev decoded : List ℕ → ℕ → ChunkedDecode
decoded bytes chunks = record no_chunks { bytes = bytes; chunks = chunks }

append_limited-all :
    (out bytes : List ℕ) (max_output_bytes : ℕ)
    → length out + length bytes ≤ max_output_bytes
    → append_limited out bytes max_output_bytes ≡ out ++ bytes
unfolding append_limited
append_limited-all out bytes max_output_bytes h =
    ap (λ xs. out ++ xs)
      (take_of_length-le (min (length bytes) (max_output_bytes - length out)) bytes (omega arith))

after_payload-reading :
    (max_output_bytes : ℕ) (rest : List ℕ) (d : ChunkedDecode)
    → length d.bytes < max_output_bytes
    → after_payload max_output_bytes (13 ∷ 10 ∷ rest) d
      ≡ record { decode = d; rest = rest; phase = reading }
unfolding after_payload
after_payload-reading max_output_bytes rest d h = ground arith

read_chunk-decoded :
    (max_output_bytes : ℕ) (payload rest bytes : List ℕ) (chunks : ℕ)
    → length bytes + length payload < max_output_bytes
    → read_chunk max_output_bytes
        (length payload)
        (payload ++ 13 ∷ 10 ∷ rest)
        (decoded bytes chunks)
      ≡ record { decode = decoded (bytes ++ payload) (chunks + 1); rest = rest; phase = reading }
unfolding read_chunk
read_chunk-decoded max_output_bytes payload rest bytes chunks h = ground (
  arith,
  all,
  take-append payload (13 ∷ 10 ∷ rest),
  drop-append_length payload (13 ∷ 10 ∷ rest),
  append_limited-all bytes payload max_output_bytes (omega arith),
  length-append bytes payload,
  after_payload-reading max_output_bytes rest (decoded (bytes ++ payload) (chunks + 1)),
)
  where
    all : min (length payload) (length (payload ++ 13 ∷ 10 ∷ rest)) ≡ length payload
    all = omega (arith, length-append payload (13 ∷ 10 ∷ rest))

chunk_step-chunk :
    (max_output_bytes : ℕ) (payload rest bytes : List ℕ) (chunks : ℕ)
    → 0 < length payload
    → length payload ≤ u64_max
    → length bytes + length payload < max_output_bytes
    → chunk_step max_output_bytes
        (record { decode = decoded bytes chunks; rest = chunk payload rest; phase = reading })
      ≡ some (record {
        decode = decoded (bytes ++ payload) (chunks + 1);
        rest = rest;
        phase = reading;
      })
unfolding chunk_step chunk
chunk_step-chunk max_output_bytes payload rest bytes chunks pos fits h = ap some (
    chunk_round-to_hex max_output_bytes (length payload) (payload ++ 13 ∷ 10 ∷ rest)
      (decoded bytes chunks) fits
    ∙ rw not_last (read_chunk-decoded max_output_bytes payload rest bytes chunks h))
  where
    not_last : (length payload == 0) ≡ false
    not_last = ground arith

-- A payload that a chunk can carry.
abbrev pub IsPayload : List ℕ → Type 0
IsPayload payload = (0 < length payload) × (length payload ≤ u64_max)

pub loop-broken :
    (max_output_bytes fuel : ℕ) (rest : List ℕ) (d : ChunkedDecode)
    → loop (chunk_step max_output_bytes) fuel (record { decode = d; rest = rest; phase = broken })
      ≡ record { decode = d; rest = rest; phase = broken }
unfolding loop chunk_step
loop-broken max_output_bytes zero rest d = refl
loop-broken max_output_bytes (suc fuel) rest d = refl

chunk_step-last :
    (max_output_bytes : ℕ) (trailer : List ℕ) (d : ChunkedDecode)
    → chunk_step max_output_bytes
        (record { decode = d; rest = encode_chunks [] trailer; phase = reading })
      ≡ some (record {
        decode = record d { reached_last_chunk = true; trailing_bytes = length trailer };
        rest = trailer;
        phase = broken;
      })
unfolding chunk_step encode_chunks
chunk_step-last max_output_bytes trailer d =
    ap some (chunk_round-to_hex max_output_bytes 0 trailer d (omega arith))

loop-encode_chunks :
    (max_output_bytes fuel : ℕ) (trailer : List ℕ) (payloads : List (List ℕ)) (bytes : List ℕ)
    (chunks : ℕ)
    → All IsPayload payloads
    → length bytes + length (concat payloads) < max_output_bytes
    → length payloads < fuel
    → loop (chunk_step max_output_bytes) fuel (record {
      decode = decoded bytes chunks;
      rest = encode_chunks payloads trailer;
      phase = reading;
    })
      ≡ record {
        decode = record (decoded (bytes ++ concat payloads) (chunks + length payloads)) {
          reached_last_chunk = true;
          trailing_bytes = length trailer;
        };
        rest = trailer;
        phase = broken;
      }
unfolding loop encode_chunks
loop-encode_chunks max_output_bytes zero trailer payloads bytes chunks h b f = absurd (omega arith)
loop-encode_chunks max_output_bytes (suc fuel) trailer [] bytes chunks h b f =
    rw (chunk_step-last max_output_bytes trailer (decoded bytes chunks), loop)
      (loop-broken max_output_bytes fuel trailer _ ∙ ground (arith, append-nil bytes))
loop-encode_chunks max_output_bytes (suc fuel) trailer (payload ∷ payloads) bytes chunks h b f =
    rw
      (
        chunk_step-chunk max_output_bytes payload (encode_chunks payloads trailer) bytes chunks
            h.0.0 h.0.1 (omega (arith, b, length-append payload (concat payloads))),
        loop,
      )
      (loop-encode_chunks max_output_bytes fuel trailer payloads (bytes ++ payload) (chunks + 1) h.1
          (omega (arith, b, length-append bytes payload, length-append payload (concat payloads)))
          (omega arith)
        ∙ ground (arith, append_assoc bytes payload (concat payloads)))

-- Enough fuel for every input that `encode_chunks` makes: a chunk has a byte at least.
length-encode_chunks :
    (payloads : List (List ℕ)) (trailer : List ℕ)
    → length payloads ≤ length (encode_chunks payloads trailer)
unfolding encode_chunks chunk
length-encode_chunks [] trailer = omega arith
length-encode_chunks (payload ∷ payloads) trailer = omega (
  arith,
  length-encode_chunks payloads trailer,
  length-append (to_hex (length payload))
      (13 ∷ 10 ∷ (payload ++ 13 ∷ 10 ∷ encode_chunks payloads trailer)),
  length-append payload (13 ∷ 10 ∷ encode_chunks payloads trailer),
)

-- Decoding undoes the chunked transfer coding: of any chunks that are not empty and together shorter
-- than the limit, the decoder gives back all bytes in order and the number of chunks, with nothing
-- truncated or missing, and counts the bytes behind the last chunk's line.
pub decode_chunked_body-encode_chunks :
    (payloads : List (List ℕ)) (trailer : List ℕ) (max_output_bytes : ℕ)
    → All IsPayload payloads
    → length (concat payloads) < max_output_bytes
    → decode_chunked_body (encode_chunks payloads trailer) max_output_bytes
      ≡ ok (record {
        bytes = concat payloads;
        chunks = length payloads;
        truncated_by_limit = false;
        partial = false;
        reached_last_chunk = true;
        trailing_bytes = length trailer;
      })
unfolding decode_chunked_body chunked_result
decode_chunked_body-encode_chunks payloads trailer max_output_bytes h b =
    ap chunked_result (
      loop-encode_chunks max_output_bytes (suc (suc (length (encode_chunks payloads trailer))))
        trailer payloads [] 0 h (omega (arith, b))
        (omega (arith, length-encode_chunks payloads trailer)))
    ∙ ground arith
