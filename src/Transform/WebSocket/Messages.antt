-- ===== src/Transform/WebSocket/Messages.antt =====
-- src/stream_transform.rs: `websocket_deflate_transform`, the messages of a WebSocket stream, inflated.
use rustmate.Base.{
  ℕ, suc, ◌+◌, Bool, true, false, Option, none, some, List, [], ◌∷◌, ◌++◌, ltb, leb, ◌==◌,
  if◌then◌else◌, length, is_empty, loop,
}
use rustmate.Transform.Outcome.{
  StreamTransformApplied, applied, TransformOutcome, Note, WebSocketError,
  continuation_without_message, interrupted_message, truncated_message, deflate_failed,
  web_socket_failed, web_socket_messages, no_compressed_messages, noop_with, failed_with,
}
use rustmate.Transform.Chunked.{append_limited}
use rustmate.Transform.Reader.{Reader, read_limited}
use rustmate.Transform.WebSocket.{WebSocketFrame, ok, err, next_frame}

pub record WebSocketMessageBuffer : Type 0 where
  pub compressed : Bool
  pub payload : List ℕ

-- The variables of the loop; `rest` is the parser's input from its offset on.
pub record Collecting : Type 0 where
  pub rest : List ℕ
  pub output : List ℕ
  pub current_message : Option WebSocketMessageBuffer
  pub decoded_messages : ℕ
  pub copied_messages : ℕ
  pub control_frames : ℕ

pub data Collected : Type 0 where
  going : Collecting → Collected
  returned : TransformOutcome Note → Collected

unfoldable pub deflated : Bool → Collecting → TransformOutcome Note
deflated truncated c = record {
  applied = StreamTransformApplied.web_socket_deflate;
  status = applied;
  bytes = c.output;
  truncated_by_limit = truncated;
  notes = web_socket_messages c.decoded_messages c.copied_messages c.control_frames ∷ [];
}

-- The message that a frame continues or begins.
unfoldable pub message_of :
    WebSocketFrame → Option WebSocketMessageBuffer → WebSocketError × Option WebSocketMessageBuffer
message_of frame none =
    if frame.opcode == 0
    then (continuation_without_message, none)
    else (interrupted_message, some (record { compressed = frame.rsv1; payload = frame.payload }))
message_of frame (some message) =
    if frame.opcode == 0
    then (interrupted_message, some (record message { payload = message.payload ++ frame.payload }))
    else (interrupted_message, none)

module _ (deflate : Reader) (max_output_bytes : ℕ) where
  -- The end of the round that ends a message.
  unfoldable pub check_full : Collecting → Collected
  unfolding deflated
  check_full c =
      if leb max_output_bytes (length c.output) then returned (deflated true c) else going c

  unfoldable pub end_message : WebSocketMessageBuffer → Collecting → Collected
  unfolding append_limited read_limited check_full failed_with
  end_message message c =
      let output =
        if is_empty c.output
        then c.output
        else append_limited c.output (10 ∷ []) max_output_bytes in
      let inflated =
        read_limited deflate max_output_bytes (message.payload ++ 0x00 ∷ 0x00 ∷ 0xff ∷ 0xff ∷ []) in
      let ended : Collecting = record c { current_message = none } in
      if message.compressed
      then (elim inflated [
        | none ↦ returned (failed_with (web_socket_failed deflate_failed))
        | some decoded ↦ check_full (record ended {
          output = append_limited output decoded.bytes max_output_bytes;
          decoded_messages = c.decoded_messages + 1;
        })
      ])
      else check_full (record ended {
        output = append_limited output message.payload max_output_bytes;
        copied_messages = c.copied_messages + 1;
      })

  unfoldable pub collect_frame : WebSocketFrame → Collecting → Collected
  unfolding message_of end_message failed_with
  collect_frame frame c =
      let (error, message) = message_of frame c.current_message in
      if ltb 2 frame.opcode
      then going (record c { control_frames = c.control_frames + 1 })
      else elim message [
        | none ↦ returned (failed_with (web_socket_failed error))
        | some buffer ↦
            if frame.fin
            then end_message buffer c
            else going (record c { current_message = some buffer })
      ]

  -- What stands behind the loop.
  unfoldable pub end_of_frames : Collecting → TransformOutcome Note
  unfolding deflated failed_with noop_with
  end_of_frames c = elim c.current_message [
    | some message ↦ failed_with (web_socket_failed truncated_message)
    | none ↦ if c.decoded_messages == 0 then noop_with no_compressed_messages else deflated false c
  ]

  unfoldable pub collect_round : Collecting → Collected
  unfolding next_frame collect_frame end_of_frames failed_with
  collect_round c = elim (next_frame c.rest) [
    | err error ↦ returned (failed_with (web_socket_failed error))
    | ok none rest ↦ returned (end_of_frames c)
    | ok (some frame) rest ↦ collect_frame frame (record c { rest = rest })
  ]

  unfoldable pub collect_step : Collected → Option Collected
  unfolding collect_round
  collect_step (going c) = some (collect_round c)
  collect_step (returned outcome) = none

  abbrev pub start_collecting : List ℕ → Collected
  start_collecting input = going (record {
    rest = input;
    output = [];
    current_message = none;
    decoded_messages = 0;
    copied_messages = 0;
    control_frames = 0;
  })

  -- Each round but the last consumes the two bytes of a header, so that `going` is never left.
  unfoldable pub collect_loop : List ℕ → Collected
  unfolding collect_step loop
  collect_loop input = loop collect_step (suc (suc (length input))) (start_collecting input)

  unfoldable pub collected_outcome : Collected → TransformOutcome Note
  unfolding end_of_frames
  collected_outcome (going c) = end_of_frames c
  collected_outcome (returned outcome) = outcome

  unfoldable pub websocket_deflate_transform : List ℕ → TransformOutcome Note
  unfolding collect_loop collected_outcome
  websocket_deflate_transform input = collected_outcome (collect_loop input)
