-- ===== src/Transform/Reader/Limit.antt =====
-- `read_limited` ends and keeps its limit.
use rustmate.Base.{
  ℕ, suc, ◌-◌, ◌≡◌, ◌≢◌, ◌<◌, ◌≤◌, refl, false, none, some, List, [], ◌∷◌, ◌++◌, arith, ltb, ◌==◌,
  length, length-append, length-take, take, loop_inv, loop_ends, if_both, is_empty, subst,
  eq_of_some,
}
use rustmate.Transform.Reader.{
  Reader, ReadResult, read, unexpected_eof, other_error, LimitedRead, ReadPhase, reading, broken,
  failed, Reading, probe, probe_result, take_chunk, round_result, read_round, read_step, read_loop,
  read_return, read_limited,
}

module _ (r : Reader) (max_output_bytes : ℕ) where
  abbrev phase_size : ReadPhase → ℕ → ℕ
  phase_size reading n = suc (max_output_bytes - n)
  phase_size broken n = 0
  phase_size failed n = 0

  -- How far the loop is from its end.
  abbrev pub to_read : Reading r → ℕ
  to_read s = phase_size s.phase (length s.limited.bytes)

  abbrev Within : Reading r → Type 0
  Within s = length s.limited.bytes ≤ max_output_bytes

  -- What a round from `n` bytes on does.
  record Round (n : ℕ) (s : Reading r) : Type 0 where
    kept : Within s
    closer : to_read s < suc (max_output_bytes - n)

  probe_result-Round :
      (limited : LimitedRead) (result : ReadResult) (after : r.State) (n : ℕ)
      → length limited.bytes ≤ max_output_bytes
      → Round n (probe_result r limited result after)
  unfolding probe_result
  probe_result-Round limited (read bytes) after n h = record { kept = h; closer = omega arith }
  probe_result-Round limited unexpected_eof after n h = record { kept = h; closer = omega arith }
  probe_result-Round limited other_error after n h = record { kept = h; closer = omega arith }

  take_chunk-Round :
      (chunk : List ℕ) (limited : LimitedRead) (state : r.State)
      → is_empty chunk ≡ false
      → length limited.bytes ≤ max_output_bytes
      → Round (length limited.bytes) (take_chunk r max_output_bytes chunk limited state)
  unfolding take_chunk probe
  take_chunk-Round chunk limited state e h =
      if_both (Round (length limited.bytes))
        (ltb (max_output_bytes - length limited.bytes) (length chunk))
        (λ _. record {
          kept = omega (
            arith,
            h,
            length-append limited.bytes (take (max_output_bytes - length limited.bytes) chunk),
            length-take (max_output_bytes - length limited.bytes) chunk,
          );
          closer = omega arith;
        })
        (λ short.
          if_both (Round (length limited.bytes))
            (length (limited.bytes ++ chunk) == max_output_bytes)
            (λ full.
              probe_result-Round _ (r.read_into 1 state).0 (r.read_into 1 state).1
                (length limited.bytes) (ground arith))
            (λ more. record {
              kept = ground (arith, length-append limited.bytes chunk);
              closer = ground (arith, length-append limited.bytes chunk, some_byte chunk e);
            }))
    where
      some_byte : (xs : List ℕ) → is_empty xs ≡ false → 0 < length xs
      some_byte [] h = ground arith
      some_byte (x ∷ xs) h = omega arith

  round_result-Round :
      (limited : LimitedRead) (result : ReadResult) (after : r.State)
      → length limited.bytes ≤ max_output_bytes
      → Round (length limited.bytes) (round_result r max_output_bytes limited result after)
  unfolding round_result
  round_result-Round limited (read chunk) after h =
      if_both (Round (length limited.bytes)) (is_empty chunk)
        (λ _. record { kept = h; closer = omega arith })
        (λ e. take_chunk-Round chunk limited after e h)
  round_result-Round limited unexpected_eof after h =
      if_both (Round (length limited.bytes)) (is_empty limited.bytes)
        (λ _. record { kept = h; closer = omega arith })
        (λ _. record { kept = h; closer = omega arith })
  round_result-Round limited other_error after h = record { kept = h; closer = omega arith }

  -- The result of a round in terms of `to_read`.
  round_of :
      (n : ℕ) (phase : ReadPhase) (limited : LimitedRead) (state : r.State)
      → phase_size phase (length limited.bytes) ≡ n
      → Within (record { limited = limited; state = state; phase = phase })
      → (t : Reading r)
      → read_step r max_output_bytes (record { limited = limited; state = state; phase = phase })
        ≡ some t
      → Within t × (to_read t < n)
  unfolding read_step read_round
  round_of n reading limited state size w t e =
      subst (λ s. Within s × (to_read s < n)) (eq_of_some e)
        (round.kept, omega (arith, size, round.closer))
    where
      round : Round (length limited.bytes) (
          round_result r max_output_bytes limited
            (r.read_into 8192 state).0
            (r.read_into 8192 state).1)
      round = round_result-Round limited (r.read_into 8192 state).0 (r.read_into 8192 state).1 w
  round_of n broken limited state size w t e = ground arith
  round_of n failed limited state size w t e = ground arith

  read_step-Round :
      (s t : Reading r)
      → Within s
      → read_step r max_output_bytes s ≡ some t
      → Within t × (to_read t < to_read s)
  read_step-Round s t w e = round_of (to_read s) s.phase s.limited s.state refl w t e

  read_return-le :
      (phase : ReadPhase) (got limited : LimitedRead)
      → length got.bytes ≤ max_output_bytes
      → read_return r phase got ≡ some limited
      → length limited.bytes ≤ max_output_bytes
  unfolding read_return
  read_return-le reading got limited h e =
      subst (λ (l : LimitedRead). length l.bytes ≤ max_output_bytes) (eq_of_some e) h
  read_return-le broken got limited h e =
      subst (λ (l : LimitedRead). length l.bytes ≤ max_output_bytes) (eq_of_some e) h
  read_return-le failed got limited h e = ground arith

  read_step-not_reading :
      (phase : ReadPhase) (limited : LimitedRead) (state : r.State)
      → read_step r max_output_bytes (record { limited = limited; state = state; phase = phase })
        ≡ none
      → phase ≢ reading
  unfolding read_step
  read_step-not_reading reading limited state e _ = ground arith
  read_step-not_reading broken limited state e h = ground arith
  read_step-not_reading failed limited state e h = ground arith

  module _ (input : List ℕ) where
    start : Reading r
    start = record {
      limited = record { bytes = []; truncated_by_limit = false; incomplete = false };
      state = r.open_input input;
      phase = reading;
    }

    start-Within : Within start
    unfolding start
    start-Within = ground arith

    read_loop-Within : Within (read_loop r max_output_bytes input)
    unfolding read_loop start
    read_loop-Within =
        loop_inv (read_step r max_output_bytes) Within (λ s t w e. (read_step-Round s t w e).0)
          (suc (suc max_output_bytes)) start start-Within

    read_loop-none : read_step r max_output_bytes (read_loop r max_output_bytes input) ≡ none
    unfolding read_loop start
    read_loop-none =
        loop_ends (read_step r max_output_bytes) Within to_read read_step-Round
          (suc (suc max_output_bytes)) start (omega arith) start-Within

    -- The loop of `read_limited` is left by a break or an error of the reader,
    -- and what `read_limited` then returns has at most as many bytes as the limit says.
    pub read_limited-le :
        ((read_loop r max_output_bytes input).phase ≢ reading)
        × ((limited : LimitedRead)
            → read_limited r max_output_bytes input ≡ some limited
            → length limited.bytes ≤ max_output_bytes)
    unfolding read_limited
    read_limited-le = (
      read_step-not_reading (read_loop r max_output_bytes input).phase
          (read_loop r max_output_bytes input).limited (read_loop r max_output_bytes input).state
          read_loop-none,
      λ limited e.
          read_return-le (read_loop r max_output_bytes input).phase
            (read_loop r max_output_bytes input).limited limited read_loop-Within e,
    )
