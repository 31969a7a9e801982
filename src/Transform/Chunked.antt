-- ===== src/Transform/Chunked.antt =====
-- src/stream_transform.rs: the decoder of HTTP's chunked transfer coding (`decode_chunked_body`).
pub mod Roundtrip
pub mod Limit
use rustmate.Base.{
  ℕ, suc, ◌+◌, ◌-◌, ◌*◌, Bool, true, false, not, ◌&&◌, ◌||◌, Option, none, some, List, [], ◌∷◌,
  ◌++◌, ltb, leb, ◌==◌, if◌then◌else◌, min, u64_max, length, take, drop, is_empty, loop,
}
use rustmate.Bytes.{split, trim_ascii}
use rustmate.Bytes.Lines.{split_once, strip_cr}
use rustmate.Bytes.Utf8.{from_utf8}
use rustmate.Bytes.Hex.{from_hex}
use rustmate.Transform.Outcome.{
  ChunkedError, empty_size_line, size_not_utf8, invalid_size, missing_line_end,
}

pub record ChunkedDecode : Type 0 where
  pub bytes : List ℕ
  pub chunks : ℕ
  pub truncated_by_limit : Bool
  pub partial : Bool
  pub reached_last_chunk : Bool
  pub trailing_bytes : ℕ

pub data ChunkedResult : Type 0 where
  ok : ChunkedDecode → ChunkedResult
  err : ChunkedError → ChunkedResult

unfoldable pub append_limited : List ℕ → List ℕ → ℕ → List ℕ
append_limited out bytes max_output_bytes =
    out ++ take (min (length bytes) (max_output_bytes - length out)) bytes

-- The line up to the first line feed, without a carriage return before it, and what follows it; the
-- source gives their offsets.
unfoldable pub find_line_end : List ℕ → Option (List ℕ × List ℕ)
unfolding split_once strip_cr
find_line_end input = elim (split_once 10 input) [
  | none ↦ none
  | some (line, rest) ↦ some (strip_cr line, rest)
]

first_piece : List (List ℕ) → List ℕ
first_piece [] = []
first_piece (piece ∷ pieces) = piece

-- `err` has no number: `size_not_utf8` or `invalid_size`.
pub data SizeResult : Type 0 where
  size_ok : ℕ → SizeResult
  size_err : ChunkedError → SizeResult

unfoldable pub parse_chunk_size : List ℕ → SizeResult
unfolding split trim_ascii from_utf8 from_hex first_piece
parse_chunk_size line = elim (from_utf8 (trim_ascii (first_piece (split b';' line)))) [
  | none ↦ size_err size_not_utf8
  | some text ↦ elim (from_hex u64_max text) [
    | none ↦ size_err invalid_size
    | some size ↦ size_ok size
  ]
]

-- Whether the loop goes on, has broken off, or the function has returned an error.
pub data Phase : Type 0 where
  reading broken : Phase
  failed : ChunkedError → Phase

-- The variables of the loop; `rest` is the input from `offset` on.
pub record Chunking : Type 0 where
  pub decode : ChunkedDecode
  pub rest : List ℕ
  pub phase : Phase

-- What follows the payload of a chunk: `none` if it is no line end.
unfoldable pub skip_line_end : List ℕ → Option (List ℕ)
skip_line_end [] = none
skip_line_end (c ∷ []) = if c == 10 then some [] else none
skip_line_end (c ∷ d ∷ rest) =
    if c == 13 && d == 10 then some rest else if c == 10 then some (d ∷ rest) else none

-- The end of a round: the limit may be reached.
unfoldable pub check_limit : ℕ → List ℕ → ChunkedDecode → Chunking
check_limit max_output_bytes rest d =
    if leb max_output_bytes (length d.bytes)
    then record {
      decode = record d { truncated_by_limit = not (is_empty rest) };
      rest = rest;
      phase = broken;
    }
    else record { decode = d; rest = rest; phase = reading }

unfoldable pub after_payload : ℕ → List ℕ → ChunkedDecode → Chunking
unfolding skip_line_end check_limit
after_payload max_output_bytes rest d = elim (skip_line_end rest) [
  | some next ↦ check_limit max_output_bytes next d
  | none ↦
      if is_empty rest
      then record { decode = record d { partial = true }; rest = rest; phase = broken }
      else record { decode = d; rest = rest; phase = failed missing_line_end }
]

-- A chunk of `size` bytes, not 0, of which `rest` has those that have come.
unfoldable pub read_chunk : ℕ → ℕ → List ℕ → ChunkedDecode → Chunking
unfolding append_limited after_payload
read_chunk max_output_bytes size rest d =
    let taken = min size (length rest) in
    let bytes = append_limited d.bytes (take taken rest) max_output_bytes in
    let read : ChunkedDecode = record d {
      bytes = bytes;
      truncated_by_limit = d.truncated_by_limit || ltb (length bytes - length d.bytes) taken;
      chunks = d.chunks + 1;
    } in
    if ltb taken size
    then record { decode = record read { partial = true }; rest = drop taken rest; phase = broken }
    else after_payload max_output_bytes (drop taken rest) read

unfoldable pub read_size : ℕ → List ℕ → List ℕ → ChunkedDecode → Chunking
unfolding trim_ascii parse_chunk_size read_chunk
read_size max_output_bytes line rest d =
    if is_empty (trim_ascii line)
    then record { decode = d; rest = rest; phase = failed empty_size_line }
    else elim (parse_chunk_size (trim_ascii line)) [
      | size_err error ↦ record { decode = d; rest = rest; phase = failed error }
      | size_ok size ↦
          if size == 0
          then record {
            decode = record d { reached_last_chunk = true; trailing_bytes = length rest };
            rest = rest;
            phase = broken;
          }
          else read_chunk max_output_bytes size rest d
    ]

unfoldable pub chunk_round : ℕ → List ℕ → ChunkedDecode → Chunking
unfolding find_line_end read_size
chunk_round max_output_bytes rest d = elim (find_line_end rest) [
  | none ↦ record {
    decode = record d { partial = not (is_empty rest) };
    rest = rest;
    phase = broken;
  }
  | some (line, next) ↦ read_size max_output_bytes line next d
]

unfoldable pub chunk_step : ℕ → Chunking → Option Chunking
unfolding chunk_round
chunk_step max_output_bytes c = elim c.phase [
  | reading ↦ some (chunk_round max_output_bytes c.rest c.decode)
  | broken ↦ none
  | failed error ↦ none
]

abbrev pub no_chunks : ChunkedDecode
no_chunks = record {
  bytes = [];
  chunks = 0;
  truncated_by_limit = false;
  partial = false;
  reached_last_chunk = false;
  trailing_bytes = 0;
}

unfoldable pub chunked_result : Chunking → ChunkedResult
chunked_result c = elim c.phase [
  | reading ↦ ok c.decode
  | broken ↦ ok c.decode
  | failed error ↦ err error
]

-- Each round but the last consumes a line feed.
unfoldable pub decode_chunked_body : List ℕ → ℕ → ChunkedResult
unfolding chunk_step chunked_result loop
decode_chunked_body input max_output_bytes = chunked_result (
    loop (chunk_step max_output_bytes) (suc (suc (length input)))
      (record { decode = no_chunks; rest = input; phase = reading }))
