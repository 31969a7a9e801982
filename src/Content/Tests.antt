-- ===== src/Content/Tests.antt =====
-- A direction that has seen three bytes and holds the last two, and a store of such streams.
use native.Mathlib.Decide.{ℕ_discrete}
use rustmate.Base.{
  ℕ, ◌-◌, ◌≤◌, ◌≡◌, refl, true, false, get, none, some, List, [], ◌∷◌, ◌++◌, arith, min,
}
use rustmate.Flow.Chunk.{a_to_b}
use rustmate.Content.Config.{disabled}
use rustmate.Content.Direction.{DirectionContent, empty_content, append, segment_bytes, trim_oldest}
use rustmate.Content.Direction.History.{Holds}
use rustmate.Content.Direction.History.Append.{append-Holds}
use rustmate.Packet.Segment.{udp}
use rustmate.Packet.Decoded.{v4}
use rustmate.Flow.Route.{Endpoint, FlowKey}
use rustmate.Flow.Table.{FlowKey-discrete}
use rustmate.Content.Record.{ContentRecord, stored_bytes}
use rustmate.Content.Store.{StreamContent, ensure_stream, enforce_global_limit}
use rustmate.Content.Store
use rustmate.Content.Window.{windows}
use rustmate.Content.Window.History.{windows-Holds}
use rustmate.Content.Store.Limit.{Balanced, held, enforce_global_limit-Balanced}
use rustmate.Content.Store.Kept.{Ensured}
use rustmate.Content.Store.Room.{IsValid, ensure_stream-IsValid}
use rustmate.Content.Direction.History.Trim.{trim_oldest-Holds}

abbrev seen : List ℕ
seen = 1 ∷ 2 ∷ 3 ∷ []

abbrev content : DirectionContent
content = record {
  next_offset = 3;
  stored_bytes = 2;
  segments =
      record { logical_start = 1; sequence_start = some 101; observed_us = 7; bytes = 2 ∷ [] }
      ∷ record { logical_start = 2; sequence_start = none; observed_us = 8; bytes = 3 ∷ [] }
      ∷ [];
}

content-Holds : Holds seen content
unfolding segment_bytes
content-Holds = record {
  first = 1;
  chain = (refl, (refl, refl));
  offset = refl;
  stored = refl;
  exact = refl;
}

append-Holds_example :
    Holds (seen ++ 4 ∷ 5 ∷ []) (append 9 a_to_b (4 ∷ 5 ∷ []) (some 103) 11 1 content).content
    × ((append 9 a_to_b (4 ∷ 5 ∷ []) (some 103) 11 1 content).content.stored_bytes ≡ 4)
append-Holds_example =
    append-Holds 9 a_to_b (4 ∷ 5 ∷ []) (some 103) 11 1 (omega arith) seen content (omega arith)
      content-Holds

trim_oldest-Holds_example :
    Holds seen (trim_oldest 1 content).0
    × ((trim_oldest 1 content).1 ≡ min 1 content.stored_bytes)
    × ((trim_oldest 1 content).0.stored_bytes ≡ content.stored_bytes - 1)
trim_oldest-Holds_example = trim_oldest-Holds 1 seen content (omega arith) content-Holds

windows-Holds_example :
    windows 9 a_to_b 0 9 content.segments
    ≡ record { stream_id = 9; direction = a_to_b; logical_start = 1; bytes = 2 ∷ 3 ∷ [] } ∷ []
unfolding content-Holds
windows-Holds_example = windows-Holds 9 a_to_b seen content 0 9 content-Holds (omega arith)

abbrev endpoint : ℕ → Endpoint
endpoint port = record { addr = v4 (10 ∷ 0 ∷ 0 ∷ 1 ∷ []); port = port }

abbrev key : ℕ → FlowKey
key port = record { protocol = udp; a = endpoint 9; b = endpoint port }

-- A stream that holds two bytes.
abbrev two_bytes : ℕ → ContentRecord
two_bytes now_us = record {
  id = 5;
  last_seen_us = now_us;
  directions = record { first = content; second = empty_content };
  truncated = false;
}

-- A store that holds four bytes, where three are allowed, in two streams, the most allowed.
abbrev store : StreamContent
store = record (Store.new disabled) {
  config = record {
    enabled = true;
    max_streams = 2;
    idle_timeout_ms = 1;
    max_total_bytes = 3;
    max_bytes_per_stream = 3;
    max_segment_bytes = 3;
  };
  streams = (key 1, two_bytes 20) ∷ (key 2, two_bytes 10) ∷ [];
  stored_bytes = 4;
}

store-Balanced : Balanced store
unfolding stored_bytes get FlowKey-discrete ℕ_discrete
store-Balanced = record { distinct = (refl, (refl, tt)); counted = refl }

enforce_global_limit-Balanced_example :
    Balanced (enforce_global_limit (key 1) store)
    × ((enforce_global_limit (key 1) store).config ≡ store.config)
    × (held (enforce_global_limit (key 1) store).streams ≤ store.config.max_total_bytes)
enforce_global_limit-Balanced_example = enforce_global_limit-Balanced (key 1) store store-Balanced

store-IsValid : IsValid store
store-IsValid = record { balanced = store-Balanced; positive = omega arith; bounded = omega arith }

ensure_stream-IsValid_example :
    IsValid (ensure_stream (key 3) 30 store).0
    × ((ensure_stream (key 3) 30 store).1 ≡ true)
    × ((r : ContentRecord) × (get FlowKey-discrete
            (key 3)
            (ensure_stream (key 3) 30 store).0.streams
          ≡ some r))
    × Ensured (key 3) 30 store (ensure_stream (key 3) 30 store).0.streams
ensure_stream-IsValid_example = ensure_stream-IsValid (key 3) 30 store store-IsValid
