-- ===== src/Slice/Tests.antt =====
-- A slice of two bytes of a stream that has seen three and holds the last two.
use native.Mathlib.Decide.{ℕ_discrete}
use rustmate.Base.{◌≡◌, ◌≤◌, refl, false, none, some, [], ◌∷◌, arith, get}
use rustmate.Packet.Segment.{tcp}
use rustmate.Packet.Decoded.{v4}
use rustmate.Flow.Chunk.{a_to_b}
use rustmate.Flow.Route.{FlowKey}
use rustmate.Flow.Table.{FlowKey-discrete}
use rustmate.Content.Config.{disabled}
use rustmate.Content.Direction.{DirectionContent, empty_content, segment_bytes}
use rustmate.Content.Direction.History.{Holds}
use rustmate.Content.Record.{ContentRecord}
use rustmate.Content.Store.{StreamContent}
use rustmate.Content.Store
use rustmate.Slice.Segment.{Base64, StreamSliceMode}
use rustmate.Slice.Reader.{
  StreamSliceConfig, StreamSliceRequest, StreamContentSlice, ok, slice_with_context,
}
use rustmate.Slice.Reader
use rustmate.Slice.Reader.History.{Reads, slice_with_context-Holds}

-- A coding that leaves the bytes as they are.
abbrev plain : Base64
plain = record { encode = λ bytes. bytes; decode = some; decode-encode = λ bytes. refl }

abbrev config : StreamSliceConfig
config = record {
  max_slice_bytes = 8;
  max_highlights = 4;
  hex_row_bytes = 16;
  max_transform_bytes = 1;
}

abbrev request : StreamSliceRequest
request = record {
  stream_id = 5;
  direction = a_to_b;
  logical_start = 0;
  max_bytes = 2;
  mode = StreamSliceMode.text;
}

abbrev key : FlowKey
key = record {
  protocol = tcp;
  a = record { addr = v4 (10 ∷ 0 ∷ 0 ∷ 1 ∷ []); port = 9 };
  b = record { addr = v4 (10 ∷ 0 ∷ 0 ∷ 1 ∷ []); port = 80 };
}

abbrev last_two : DirectionContent
last_two = record {
  next_offset = 3;
  stored_bytes = 2;
  segments =
      record { logical_start = 1; sequence_start = none; observed_us = 0; bytes = 2 ∷ 3 ∷ [] } ∷ [];
}

abbrev stream : ContentRecord
stream = record {
  id = 5;
  last_seen_us = 0;
  directions = record { first = last_two; second = empty_content };
  truncated = false;
}

abbrev content : StreamContent
content = record (Store.new disabled) { streams = (key, stream) ∷ [] }

last_two-Holds : Holds (1 ∷ 2 ∷ 3 ∷ []) last_two
unfolding segment_bytes
last_two-Holds = record {
  first = 1;
  chain = (refl, refl);
  offset = refl;
  stored = refl;
  exact = refl;
}

content-key : get FlowKey-discrete key content.streams ≡ some stream
unfolding get FlowKey-discrete ℕ_discrete
content-key = refl

slice_with_context-Holds_example :
    (slice : StreamContentSlice) × (slice_with_context plain config content request key []
      ≡ ok slice)
    × Reads plain config request [] (2 ∷ []) slice
    × (slice.returned_bytes ≤ 2)
unfolding last_two-Holds Reader.requested_end_of
slice_with_context-Holds_example =
    slice_with_context-Holds plain config request [] content key stream (1 ∷ 2 ∷ 3 ∷ []) content-key
      last_two-Holds (omega arith) (omega arith) (omega arith)
