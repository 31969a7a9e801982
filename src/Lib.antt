-- ===== src/Lib.antt =====
-- rustmate: a packet pipeline that groups packets into flows, reassembles TCP streams from them
-- and keeps a bounded amount of what the streams carried.
--
-- The parts, in the order that a packet passes through them:
-- - src/packet/mod.rs makes a decoded packet of raw bytes with the etherparse crate and says what
--   it carries. Packet/Decoded has the packet, its addresses and its transport payload;
--   Packet/Segment the TCP segment and its sequence space, Packet/Fragment the test for IP
--   fragments on the raw bytes, Packet/Status what became of a packet and the counters of it. What
--   etherparse decodes is data: the values of the accessors that the source calls on its slices.
--   The text of a decoding error is left out.
-- - src/flow/mod.rs: `FlowTable::observe` finds the route of a packet (Flow/Route: `FlowKey`,
--   `FlowRoute`, `stable_id`), then the flow's entry (Flow/Table, Flow/Entry), and hands a TCP
--   segment to the state of the connection (Flow/Tcp) and of its direction (Flow/Direction), which
--   emits stream chunks (Flow/Chunk, Flow/Payload) and buffers what comes early (Flow/Buffer).
--   Flow/Seq is the comparison of sequence numbers, Flow/Config and Flow/Stats the limits and
--   counters. Operations have the names of the source. `TcpDirectionState::observe` is cut at its
--   branches (`observe_init`, `observe_in_order`, `observe_overlap`, `observe_retransmission`,
--   `observe_buffered`), `FlowTable::observe_with_route` at its steps (`count_observed`,
--   `observe_known`, `make_room`, `observe_new`). A method that changes `self` returns the new
--   state.
-- - src/stream_content.rs stores the chunks. Content/Config has the limits, Content/Direction the
--   content of one direction (`append`, `try_merge_last`, `trim_oldest`), Content/Record that of a
--   stream (`ContentRecord`: `observe_payload`, `trim_to_limit`), Content/Store the store of all
--   streams (`StreamContent`: `ensure_stream`, the evictions, `enforce_global_limit`,
--   `observe_flow`), Content/Window what is read back of a direction (`windows`,
--   `direction_windows`).
-- - src/pattern.rs searches what is new of a stream for patterns: Pattern/Hex reads a binary pattern
--   (`parse_hex_pattern`), Pattern/Set compiles the definitions (`PatternSet`,
--   `PatternEngineConfig`), Pattern/Engine searches the windows of an update (`scan_update`,
--   `emit_match_if_new`, `reserve_match`). The aho_corasick and regex crates are a parameter,
--   `Matchers`, with the documented promise that a match lies within the bytes searched; the
--   events, the set of the keys of an update and whether an index or slice was out of range are kept
--   in the engine's state; what an event says of the packet is left out.
-- - src/stream_slice.rs reads slices of what is stored: Slice/Reader (`slice_with_context`),
--   Slice/Segment (`segment_from_window`, `concatenated_bytes`, `copy_as`), Slice/Highlight
--   (`highlights`, over the matches of src/stream_view.rs), Slice/Render (text and hex rows). The
--   base64 crate is a parameter with the documented promise that decoding undoes encoding.
-- - src/stream_transform.rs decodes what a slice of the stored content holds: Transform/Url,
--   Transform/Chunked, Transform/Reader (`read_limited`), Transform/WebSocket (the frames, and in
--   Transform/WebSocket/Messages the messages), Transform/Http (the tests of the input, the
--   decoders of a message and `auto_transform`), Transform/Plan (`apply_transform_plan`, a chain of
--   decoders, and the segments of the output, whose views Slice/Render draws). The loop variables of
--   a decoder are a record, and an offset into the input is the rest of the input. The decompressors
--   of the flate2 crate are a parameter, `Reader`, with the documented promise that a call fills no
--   more than the buffer; the base64 crate's encoder is a function. A note is a constructor with the
--   numbers that its text names.
-- - Bytes has what the standard library's functions on bytes and strings do that the source calls:
--   a text is the list of its UTF-8 bytes, but what `from_utf8` has checked (a header, a chunk's size)
--   is the list of its code points. Bytes/Hex is `hex_value` and the parsing of hexadecimal numbers.
--
-- The specifications are Flow/Stream, one sender's byte stream and the segments that may be cut
-- from it; Content/Direction/History, the history whose end a direction's content is; and the
-- encoders of the chunked coding, of WebSocket frames and of percent escapes, in Transform.
--
-- Numbers are natural numbers with the machine's wrap-around or saturation written out; `usize`
-- has 64 bits. `timestamp_us` of src/flow/mod.rs wraps, as in a release build. The loop of
-- `consume_contiguous_buffer` runs on fuel, one round more than there are buffered segments: each
-- round takes one out. The loop of `DirectionContent::append` runs on fuel, one round more than
-- there are bytes: each round consumes at least one, since the segment limit is positive. The loop
-- of `trim_to_limit` trims at least one byte each round but the last, that of
-- `enforce_global_limit` removes a stream each round; their fuel is more than the bytes and the
-- streams there are. A hash map is a list of entries, new ones in front; its order is only seen by
-- the evictions, where several entries were last seen at the same time, and not by the theorems.
--
-- The loop of `decode_chunked_body` consumes a line feed each round but the last, that over the
-- frames of a WebSocket stream the two bytes of a header, that of `read_limited` adds a byte; their
-- fuel is more than the input's length, or than the limit.
--
-- Where the source indexes bytes, which panics out of range, the model answers `none`, and the
-- engine of Pattern notes it. The part of a segment that a window takes is always in range, and is cut
-- by `take` and `drop`.
--
-- Not modelled: message framing, the inventory, the views, service profiles and protocol
-- detection, which work on what the parts above produce; shards and threads; capture, files, the
-- HTTP interface and the command line, which are input and output; the performance harness.
pub mod Base
pub mod Bytes
pub mod Packet
pub mod Flow
pub mod Content
pub mod Slice
pub mod Transform
pub mod Pattern
