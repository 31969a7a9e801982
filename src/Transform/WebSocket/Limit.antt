-- ===== src/Transform/WebSocket/Limit.antt =====
-- `websocket_deflate_transform` ends and keeps its limit.
use rustmate.Base.{
  ℕ, suc, ◌+◌, ◌/◌, ◌%◌, ◌≡◌, ◌<◌, ◌≤◌, refl, Bool, true, false, Option, none, some, List, [], ◌∷◌,
  ◌++◌, arith, ltb, leb, ◌==◌, if◌then◌else◌, length, length-drop, is_empty, loop_inv, loop_ends,
  if_both, subst, eq_of_some,
}
use rustmate.Transform.Outcome.{WebSocketError, TransformOutcome, Note, failed_with, noop_with}
use rustmate.Transform.Chunked.{append_limited}
use rustmate.Transform.Chunked.Limit.{append_limited-le}
use rustmate.Transform.Reader.{Reader, LimitedRead, read_limited}
use rustmate.Transform.WebSocket.{
  WebSocketFrame, Parsed, ok, err, read_array, be_value, read_length, read_mask, read_payload,
  read_frame, next_frame,
}
use rustmate.Transform.WebSocket.Messages.{
  WebSocketMessageBuffer, Collecting, Collected, going, returned, deflated, message_of, check_full,
  end_message, collect_frame, end_of_frames, collect_round, collect_step, start_collecting,
  collect_loop, collected_outcome, websocket_deflate_transform,
}

-- What is left of the input is no longer than `n`.
abbrev Leaves : {A : Type 0} → ℕ → Parsed A → Type 0
Leaves n (ok a rest) = length rest ≤ n
Leaves n (err error) = Unit {0}

read_array-Leaves : (n : ℕ) (input : List ℕ) → Leaves (length input) (read_array n input)
unfolding read_array
read_array-Leaves n input =
    if_both (Leaves (length input)) (ltb (length input) n) (λ _. tt)
      (λ _. omega (arith, length-drop n input))

-- What goes on with the rest of the input.
value_Leaves :
    (n : ℕ) (p : Parsed (List ℕ))
    → Leaves n p
    → Leaves n (elim p [ err error ↦ err error | ok bytes rest ↦ ok (be_value 0 bytes) rest ])
value_Leaves n (ok bytes rest) h = h
value_Leaves n (err error) h = tt

read_length-Leaves :
    (length7 : ℕ) (input : List ℕ) → Leaves (length input) (read_length length7 input)
unfolding read_length
read_length-Leaves length7 input =
    if_both (Leaves (length input)) (length7 == 126)
      (λ _. value_Leaves (length input) (read_array 2 input) (read_array-Leaves 2 input))
      (λ _.
        if_both (Leaves (length input)) (length7 == 127)
          (λ _. value_Leaves (length input) (read_array 8 input) (read_array-Leaves 8 input))
          (λ _. omega arith))

mask_Leaves :
    (n : ℕ) (p : Parsed (List ℕ))
    → Leaves n p
    → Leaves n (elim p [ err error ↦ err error | ok bytes rest ↦ ok (some bytes) rest ])
mask_Leaves n (ok bytes rest) h = h
mask_Leaves n (err error) h = tt

read_mask-Leaves : (masked : Bool) (input : List ℕ) → Leaves (length input) (read_mask masked input)
unfolding read_mask
read_mask-Leaves false input = omega arith
read_mask-Leaves true input =
    mask_Leaves (length input) (read_array 4 input) (read_array-Leaves 4 input)

read_payload-Leaves :
    (first payload_len : ℕ) (mask : Option (List ℕ)) (input : List ℕ) (n : ℕ)
    → length input ≤ n
    → Leaves n (read_payload first payload_len mask input)
unfolding read_payload
read_payload-Leaves first payload_len mask input n h =
    if_both (Leaves n) (ltb (length input) payload_len) (λ _. tt)
      (λ _. omega (arith, length-drop payload_len input))

read_frame-Leaves :
    (first second : ℕ) (input : List ℕ) → Leaves (length input) (read_frame first second input)
unfolding read_frame
read_frame-Leaves first second input =
    after_length (read_length (second % 128) input) (read_length-Leaves (second % 128) input)
  where
    after_mask :
        (payload_len : ℕ) (p : Parsed (Option (List ℕ)))
        → Leaves (length input) p
        → Leaves (length input) (elim p [
          | err error ↦ err error
          | ok mask rest ↦ read_payload first payload_len mask rest
        ])
    after_mask payload_len (ok mask rest) h =
        read_payload-Leaves first payload_len mask rest (length input) h
    after_mask payload_len (err error) h = tt

    weaken :
        {A : Type 0} (n : ℕ) (p : Parsed A)
        → n ≤ length input
        → Leaves n p
        → Leaves (length input) p
    weaken n (ok a rest) h k = omega arith
    weaken n (err error) h k = tt

    after_length :
        (p : Parsed ℕ)
        → Leaves (length input) p
        → Leaves (length input) (elim p [
          | err error ↦ err error
          | ok payload_len rest ↦ elim (read_mask (second / 128 % 2 == 1) rest) [
            | err error ↦ err error
            | ok mask after ↦ read_payload first payload_len mask after
          ]
        ])
    after_length (ok payload_len rest) h =
        after_mask payload_len (read_mask (second / 128 % 2 == 1) rest) (
          weaken (length rest) (read_mask (second / 128 % 2 == 1) rest) h
            (read_mask-Leaves (second / 128 % 2 == 1) rest))
    after_length (err error) h = tt

abbrev Taken : ℕ → Parsed (Option WebSocketFrame) → Type 0
Taken n (ok (some frame) rest) = suc (suc (length rest)) ≤ n
Taken n (ok none rest) = Unit {0}
Taken n (err error) = Unit {0}

-- A frame takes the two bytes of its header at least.
next_frame-Taken : (input : List ℕ) → Taken (length input) (next_frame input)
unfolding next_frame
next_frame-Taken [] = tt
next_frame-Taken (first ∷ []) = tt
next_frame-Taken (first ∷ second ∷ input) =
    go (read_frame first second input) (read_frame-Leaves first second input)
  where
    go :
        (p : Parsed WebSocketFrame)
        → Leaves (length input) p
        → Taken
            (suc (suc (length input)))
            (elim p [ err error ↦ err error | ok frame rest ↦ ok (some frame) rest ])
    go (ok frame rest) h = omega arith
    go (err error) h = tt

module _ (deflate : Reader) (max_output_bytes : ℕ) where
  -- The output is within the limit, and where the loop goes on, less than `n` bytes are left.
  abbrev Within : ℕ → Collected → Type 0
  Within n (going c) = (length c.output ≤ max_output_bytes) × (length c.rest < n)
  Within n (returned outcome) = length outcome.bytes ≤ max_output_bytes

  check_full-Within :
      (n : ℕ) (c : Collecting)
      → length c.output ≤ max_output_bytes
      → length c.rest < n
      → Within n (check_full deflate max_output_bytes c)
  unfolding check_full deflated
  check_full-Within n c h k =
      if_both (Within n) (leb max_output_bytes (length c.output)) (λ _. h) (λ _. (h, k))

  separated-le :
      (c : Collecting)
      → length c.output ≤ max_output_bytes
      → length (
          if is_empty c.output
          then c.output
          else append_limited c.output (10 ∷ []) max_output_bytes)
        ≤ max_output_bytes
  separated-le c h =
      if_both (λ xs. length xs ≤ max_output_bytes) (is_empty c.output) (λ _. h)
        (λ _. append_limited-le c.output (10 ∷ []) max_output_bytes h)

  end_message-Within :
      (message : WebSocketMessageBuffer) (n : ℕ) (c : Collecting)
      → length c.output ≤ max_output_bytes
      → length c.rest < n
      → Within n (end_message deflate max_output_bytes message c)
  unfolding end_message failed_with
  end_message-Within message n c h k =
      if_both (Within n) message.compressed
        (λ _. inflated (
          read_limited deflate max_output_bytes
            (message.payload ++ 0x00 ∷ 0x00 ∷ 0xff ∷ 0xff ∷ [])))
        (λ _.
          check_full-Within n _
            (append_limited-le _ message.payload max_output_bytes (separated-le c h)) k)
    where
      inflated :
          (decoded : Option LimitedRead)
          → Within n (elim decoded [
            | none ↦ returned (failed_with (Note.web_socket_failed WebSocketError.deflate_failed))
            | some decoded ↦ check_full deflate max_output_bytes (record c {
              current_message = none;
              output =
                  append_limited
                    (if is_empty c.output
                      then c.output
                      else append_limited c.output (10 ∷ []) max_output_bytes)
                    decoded.bytes
                    max_output_bytes;
              decoded_messages = c.decoded_messages + 1;
            })
          ])
      inflated none = omega arith
      inflated (some decoded) =
          check_full-Within n _
            (append_limited-le _ decoded.bytes max_output_bytes (separated-le c h)) k

  collect_frame-Within :
      (frame : WebSocketFrame) (n : ℕ) (c : Collecting)
      → length c.output ≤ max_output_bytes
      → length c.rest < n
      → Within n (collect_frame deflate max_output_bytes frame c)
  unfolding collect_frame failed_with
  collect_frame-Within frame n c h k =
      if_both (Within n) (ltb 2 frame.opcode) (λ _. (h, k))
        (λ _. go (message_of frame c.current_message).1)
    where
      go :
          (message : Option WebSocketMessageBuffer)
          → Within n (elim message [
            | none ↦
                returned
                  (failed_with (Note.web_socket_failed (message_of frame c.current_message).0))
            | some buffer ↦
                if frame.fin
                then end_message deflate max_output_bytes buffer c
                else going (record c { current_message = some buffer })
          ])
      go none = omega arith
      go (some buffer) =
          if_both (Within n) frame.fin (λ _. end_message-Within buffer n c h k) (λ _. (h, k))

  abbrev Kept : TransformOutcome Note → Type 0
  Kept outcome = length outcome.bytes ≤ max_output_bytes

  end_of_frames-le :
      (c : Collecting)
      → length c.output ≤ max_output_bytes
      → Kept (end_of_frames deflate max_output_bytes c)
  unfolding end_of_frames deflated failed_with noop_with
  end_of_frames-le c h = go c.current_message
    where
      go :
          (message : Option WebSocketMessageBuffer)
          → Kept (elim message [
            | some message ↦ failed_with (Note.web_socket_failed WebSocketError.truncated_message)
            | none ↦
                if c.decoded_messages == 0
                then noop_with Note.no_compressed_messages
                else deflated false c
          ])
      go (some message) = omega arith
      go none = if_both Kept (c.decoded_messages == 0) (λ _. omega arith) (λ _. h)

  collect_round-Within :
      (c : Collecting)
      → length c.output ≤ max_output_bytes
      → Within (length c.rest) (collect_round deflate max_output_bytes c)
  unfolding collect_round failed_with
  collect_round-Within c h = go (next_frame c.rest) (next_frame-Taken c.rest)
    where
      go :
          (p : Parsed (Option WebSocketFrame))
          → Taken (length c.rest) p
          → Within (length c.rest) (elim p [
            | err error ↦ returned (failed_with (Note.web_socket_failed error))
            | ok none rest ↦ returned (end_of_frames deflate max_output_bytes c)
            | ok (some frame) rest ↦
                collect_frame deflate max_output_bytes frame (record c { rest = rest })
          ])
      go (err error) k = omega arith
      go (ok none rest) k = end_of_frames-le c h
      go (ok (some frame) rest) k =
          collect_frame-Within frame (length c.rest) (record c { rest = rest }) h (omega arith)

  abbrev OutcomeFits : Collected → Type 0
  OutcomeFits (going c) = length c.output ≤ max_output_bytes
  OutcomeFits (returned outcome) = length outcome.bytes ≤ max_output_bytes

  abbrev left : Collected → ℕ
  left (going c) = suc (length c.rest)
  left (returned outcome) = 0

  Within-left : (n : ℕ) (d : Collected) → Within n d → OutcomeFits d × (left d < suc n)
  Within-left n (going c) w = (w.0, omega (arith, w.1))
  Within-left n (returned outcome) w = (w, omega arith)

  collect_step-left :
      (s t : Collected)
      → OutcomeFits s
      → collect_step deflate max_output_bytes s ≡ some t
      → OutcomeFits t × (left t < left s)
  unfolding collect_step
  collect_step-left (going c) t h e =
      subst (λ t. OutcomeFits t × (left t < suc (length c.rest))) (eq_of_some e)
        (Within-left (length c.rest) (collect_round deflate max_output_bytes c)
          (collect_round-Within c h))
  collect_step-left (returned outcome) t h e = ground arith

  collected_outcome-le :
      (d : Collected)
      → OutcomeFits d
      → length (collected_outcome deflate max_output_bytes d).bytes ≤ max_output_bytes
  unfolding collected_outcome
  collected_outcome-le (going c) h = end_of_frames-le c h
  collected_outcome-le (returned outcome) h = h

  collect_step-returned :
      (d : Collected)
      → collect_step deflate max_output_bytes d ≡ none
      → d ≡ returned (collected_outcome deflate max_output_bytes d)
  unfolding collect_step collected_outcome
  collect_step-returned (going c) e = ground arith
  collect_step-returned (returned outcome) e = refl

  -- The loop over the frames ends by returning an outcome, which is the transform's, and its bytes are
  -- at most `max_output_bytes`, whatever the input and the decompressor.
  pub websocket_deflate_transform-le :
      (input : List ℕ)
      → (collect_loop deflate max_output_bytes input
          ≡ returned (websocket_deflate_transform deflate max_output_bytes input))
        × (length (websocket_deflate_transform deflate max_output_bytes input).bytes
            ≤ max_output_bytes)
  unfolding websocket_deflate_transform collect_loop
  websocket_deflate_transform-le input = (
    collect_step-returned _ (
        loop_ends (collect_step deflate max_output_bytes) OutcomeFits left collect_step-left
          (suc (suc (length input))) (start_collecting deflate max_output_bytes input) (omega arith)
          (omega arith)),
    collected_outcome-le _ (
        loop_inv (collect_step deflate max_output_bytes) OutcomeFits
          (λ s t h e. (collect_step-left s t h e).0) (suc (suc (length input)))
          (start_collecting deflate max_output_bytes input) (omega arith)),
  )
