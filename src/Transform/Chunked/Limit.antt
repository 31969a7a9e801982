-- ===== src/Transform/Chunked/Limit.antt =====
-- The limit on the output of the chunked decoder.
use rustmate.Base.{
  ℕ, suc, ◌-◌, ◌≡◌, ◌<◌, ◌≤◌, ap, ◌∙◌, true, false, some, List, [], ◌∷◌, ◌++◌, arith, ltb, ◌==◌,
  if◌then◌else◌, length, length-append, length-take, take, min, u64_max, loop, loop_inv, drop,
  drop-append_length, take-append, if_both, is_empty, Option-cases, inl, inr,
}
use rustmate.Bytes.{trim_ascii}
use rustmate.Transform.Chunked.{
  ChunkedDecode, ok, append_limited, find_line_end, SizeResult, size_ok, size_err, parse_chunk_size,
  reading, broken, failed, Chunking, after_payload, read_chunk, read_size, chunk_round, chunk_step,
  no_chunks, chunked_result, decode_chunked_body,
}
use rustmate.Transform.Chunked.Roundtrip.{chunk, chunk_round-to_hex, loop-broken}

pub append_limited-le :
    (out bytes : List ℕ) (max_output_bytes : ℕ)
    → length out ≤ max_output_bytes
    → length (append_limited out bytes max_output_bytes) ≤ max_output_bytes
unfolding append_limited
append_limited-le out bytes max_output_bytes h = omega (
  arith,
  length-append out (take (min (length bytes) (max_output_bytes - length out)) bytes),
  length-take (min (length bytes) (max_output_bytes - length out)) bytes,
)

module _ (max_output_bytes : ℕ) where
  abbrev Within : Chunking → Type 0
  Within c = length c.decode.bytes ≤ max_output_bytes

  after_payload-Within :
      (rest : List ℕ) (d : ChunkedDecode)
      → length d.bytes ≤ max_output_bytes
      → Within (after_payload max_output_bytes rest d)
  unfolding after_payload
  after_payload-Within rest d h = ground arith

  read_chunk-Within :
      (size : ℕ) (rest : List ℕ) (d : ChunkedDecode)
      → length d.bytes ≤ max_output_bytes
      → Within (read_chunk max_output_bytes size rest d)
  unfolding read_chunk
  read_chunk-Within size rest d h =
      if_both Within (ltb (min size (length rest)) size) (λ _. within)
        (λ _. after_payload-Within (drop (min size (length rest)) rest) _ within)
    where
      within :
          length (append_limited d.bytes (take (min size (length rest)) rest) max_output_bytes)
          ≤ max_output_bytes
      within = append_limited-le d.bytes (take (min size (length rest)) rest) max_output_bytes h

  read_size-Within :
      (line rest : List ℕ) (d : ChunkedDecode)
      → length d.bytes ≤ max_output_bytes
      → Within (read_size max_output_bytes line rest d)
  unfolding read_size
  read_size-Within line rest d h =
      if_both Within (is_empty (trim_ascii line)) (λ _. h)
        (λ _. go (parse_chunk_size (trim_ascii line)))
    where
      go :
          (r : SizeResult)
          → Within (elim r [
            | size_err error ↦ record { decode = d; rest = rest; phase = failed error }
            | size_ok size ↦
                if size == 0
                then record {
                  decode = record d { reached_last_chunk = true; trailing_bytes = length rest };
                  rest = rest;
                  phase = broken;
                }
                else read_chunk max_output_bytes size rest d
          ])
      go (size_err error) = h
      go (size_ok size) = if_both Within (size == 0) (λ _. h) (λ _. read_chunk-Within size rest d h)

  chunk_round-Within :
      (rest : List ℕ) (d : ChunkedDecode)
      → length d.bytes ≤ max_output_bytes
      → Within (chunk_round max_output_bytes rest d)
  unfolding chunk_round
  chunk_round-Within rest d h = elim (Option-cases (find_line_end rest)) [
    | inl e ↦ rw (e, chunk_round) h
    | inr ((line, next), e) ↦ rw (e, chunk_round) (read_size-Within line next d h)
  ]

  chunk_step-Within :
      (c c' : Chunking) → Within c → chunk_step max_output_bytes c ≡ some c' → Within c'
  unfolding chunk_step
  chunk_step-Within c c' h e = ground (arith, chunk_round-Within c.rest c.decode h)

-- Whatever the input, what is decoded is within the limit.
pub decode_chunked_body-le :
    (input : List ℕ) (max_output_bytes : ℕ) (d : ChunkedDecode)
    → decode_chunked_body input max_output_bytes ≡ ok d
    → length d.bytes ≤ max_output_bytes
unfolding decode_chunked_body chunked_result
decode_chunked_body-le input max_output_bytes d e = ground (arith, within)
  where
    start : Chunking
    start = record { decode = no_chunks; rest = input; phase = reading }

    within :
        Within max_output_bytes
          (loop (chunk_step max_output_bytes) (suc (suc (length input))) start)
    within =
        loop_inv (chunk_step max_output_bytes) (Within max_output_bytes)
          (chunk_step-Within max_output_bytes) (suc (suc (length input))) start (omega arith)

read_chunk-cut :
    (payload : List ℕ) (max_output_bytes : ℕ)
    → max_output_bytes < length payload
    → read_chunk max_output_bytes (length payload) (payload ++ 13 ∷ 10 ∷ []) no_chunks ≡ record {
      decode = record no_chunks { bytes = take max_output_bytes payload; chunks = 1 };
      rest = [];
      phase = broken;
    }
unfolding read_chunk append_limited after_payload
read_chunk-cut payload max_output_bytes h = ground (
  arith,
  all,
  cut,
  take-append payload (13 ∷ 10 ∷ []),
  drop-append_length payload (13 ∷ 10 ∷ []),
  length-take max_output_bytes payload,
)
  where
    all : min (length payload) (length (payload ++ 13 ∷ 10 ∷ [])) ≡ length payload
    all = omega (arith, length-append payload (13 ∷ 10 ∷ []))

    cut : min (length payload) (max_output_bytes - 0) ≡ max_output_bytes
    cut = omega arith

-- A chunk that ends the input and is longer than the limit is cut to the limit, and
-- `truncated_by_limit` is false nevertheless: the last test of the loop writes over it.
pub decode_chunked_body-cut :
    (payload : List ℕ) (max_output_bytes : ℕ)
    → max_output_bytes < length payload
    → length payload ≤ u64_max
    → decode_chunked_body (chunk payload []) max_output_bytes
      ≡ ok (record no_chunks { bytes = take max_output_bytes payload; chunks = 1 })
unfolding decode_chunked_body chunked_result loop chunk_step chunk
decode_chunked_body-cut payload max_output_bytes h fits = ap chunked_result (
    ap (loop (chunk_step max_output_bytes) (suc (length (chunk payload [])))) round
    ∙ loop-broken max_output_bytes (suc (length (chunk payload []))) [] _)
  where
    not_last : (length payload == 0) ≡ false
    not_last = ground arith

    round : chunk_round max_output_bytes (chunk payload []) no_chunks ≡ record {
      decode = record no_chunks { bytes = take max_output_bytes payload; chunks = 1 };
      rest = [];
      phase = broken;
    }
    round =
        chunk_round-to_hex max_output_bytes (length payload) (payload ++ 13 ∷ 10 ∷ []) no_chunks
          fits
        ∙ rw not_last (read_chunk-cut payload max_output_bytes h)
