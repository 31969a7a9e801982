-- ===== src/Transform/Reader.antt =====
-- src/stream_transform.rs: reading from a decompressor up to a limit (`read_limited`). The
-- decompressors are the flate2 crate's: a reader is a parameter.
pub mod Limit
use rustmate.Base.{
  ℕ, suc, ◌+◌, ◌-◌, ◌≤◌, ◌≡◌, Bool, true, false, not, ◌&&◌, Option, none, some, List, [], ◌∷◌, ◌++◌,
  ltb, ◌==◌, if◌then◌else◌, length, take, is_empty, loop,
}

-- What `Read::read` returns: bytes, none of them at the end, or one of two kinds of error.
pub data ReadResult : Type 0 where
  read : List ℕ → ReadResult
  unexpected_eof other_error : ReadResult

-- A reader, and what the documentation of `Read::read` promises: no more bytes than the buffer has.
pub record Reader : Type 1 where
  pub State : Type 0
  pub open_input : List ℕ → State
  pub read_into : ℕ → State → ReadResult × State
  pub read_fits :
      (n : ℕ) (state : State) (bytes : List ℕ) (after : State)
      → read_into n state ≡ (read bytes, after)
      → length bytes ≤ n

pub record LimitedRead : Type 0 where
  pub bytes : List ℕ
  pub truncated_by_limit : Bool
  pub incomplete : Bool

-- Whether the loop goes on, has broken off, or an error is returned.
pub data ReadPhase : Type 0 where
  reading broken failed : ReadPhase

module _ (r : Reader) where
  open r use {State, open_input, read_into}

  pub record Reading : Type 0 where
    pub limited : LimitedRead
    pub state : State
    pub phase : ReadPhase

  probe_result : LimitedRead → ReadResult → State → Reading
  probe_result limited (read bytes) after = record {
    limited = record limited { truncated_by_limit = not (is_empty bytes) };
    state = after;
    phase = broken;
  }
  probe_result limited unexpected_eof after = record {
    limited = record limited { truncated_by_limit = false; incomplete = true };
    state = after;
    phase = broken;
  }
  probe_result limited other_error after = record {
    limited = limited;
    state = after;
    phase = failed;
  }

  -- The probe for a byte behind the limit.
  unfoldable pub probe : LimitedRead → State → Reading
  unfolding probe_result
  probe limited state = let (result, after) = read_into 1 state in probe_result limited result after

  -- A round that has read `chunk`, which is not empty.
  unfoldable pub take_chunk : ℕ → List ℕ → LimitedRead → State → Reading
  unfolding probe
  take_chunk max_output_bytes chunk limited state =
      let remaining = max_output_bytes - length limited.bytes in
      let more : LimitedRead = record limited { bytes = limited.bytes ++ chunk } in
      if ltb remaining (length chunk)
      then record {
        limited = record limited {
          bytes = limited.bytes ++ take remaining chunk;
          truncated_by_limit = true;
        };
        state = state;
        phase = broken;
      }
      else if length more.bytes == max_output_bytes
      then probe more state
      else record { limited = more; state = state; phase = reading }

  round_result : ℕ → LimitedRead → ReadResult → State → Reading
  unfolding take_chunk
  round_result max_output_bytes limited (read chunk) after =
      if is_empty chunk
      then record { limited = limited; state = after; phase = broken }
      else take_chunk max_output_bytes chunk limited after
  round_result max_output_bytes limited unexpected_eof after =
      if is_empty limited.bytes
      then record { limited = limited; state = after; phase = failed }
      else record { limited = record limited { incomplete = true }; state = after; phase = broken }
  round_result max_output_bytes limited other_error after = record {
    limited = limited;
    state = after;
    phase = failed;
  }

  unfoldable pub read_round : ℕ → LimitedRead → State → Reading
  unfolding round_result
  read_round max_output_bytes limited state =
      let (result, after) = read_into 8192 state in
      round_result max_output_bytes limited result after

  unfoldable pub read_step : ℕ → Reading → Option Reading
  unfolding read_round
  read_step max_output_bytes s = elim s.phase [
    | reading ↦ some (read_round max_output_bytes s.limited s.state)
    | broken ↦ none
    | failed ↦ none
  ]

  -- The loop; each round but the last adds a byte at least, and none goes on at the limit.
  unfoldable pub read_loop : ℕ → List ℕ → Reading
  unfolding read_step loop
  read_loop max_output_bytes input =
      loop (read_step max_output_bytes) (suc (suc max_output_bytes)) (record {
        limited = record { bytes = []; truncated_by_limit = false; incomplete = false };
        state = open_input input;
        phase = reading;
      })

  -- `none` for the error that is not at the end.
  unfoldable pub read_return : ReadPhase → LimitedRead → Option LimitedRead
  read_return reading limited = some limited
  read_return broken limited = some limited
  read_return failed limited = none

  unfoldable pub read_limited : ℕ → List ℕ → Option LimitedRead
  unfolding read_loop read_return
  read_limited max_output_bytes input =
      let final = read_loop max_output_bytes input in read_return final.phase final.limited
