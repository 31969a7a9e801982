-- ===== src/Content/Window.antt =====
-- src/stream_content.rs: the windows over the stored content of a direction (`windows`,
-- `direction_windows`).
pub mod History
use rustmate.Base.{
  ℕ, ◌-◌, Bool, true, false, Option, none, some, List, [], ◌∷◌, ◌++◌, leb, ◌==◌, if◌then◌else◌, min,
  max, get, take, drop, is_empty,
}
use rustmate.Flow.Chunk.{FlowDirection}
use rustmate.Flow.Table.{FlowKey-discrete}
use rustmate.Flow.Route.{FlowKey}
use rustmate.Content.Direction.{ContentSegment, DirectionContent, StreamContentWindow, logical_end}
use rustmate.Flow.Tcp.{at_direction}
use rustmate.Content.Record.{ContentRecord}
use rustmate.Content.Store.{StreamContent}

-- The variables of the loop.
pub record Gathering : Type 0 where
  pub windows : List StreamContentWindow
  pub current_start : ℕ
  pub current_end : ℕ
  pub current_bytes : List ℕ

module _ (stream_id : ℕ) (direction : FlowDirection) where
  -- The window that is gathered is put behind the others, if it has bytes.
  unfoldable pub flush : Gathering → List StreamContentWindow
  flush g =
      if is_empty g.current_bytes
      then g.windows
      else g.windows
        ++ record {
          stream_id = stream_id;
          direction = direction;
          logical_start = g.current_start;
          bytes = g.current_bytes;
        }
          ∷ []

  -- The part of a segment from `start` to `end`.
  unfoldable pub gather_part : ℕ → ℕ → List ℕ → Gathering → Gathering
  unfolding flush
  gather_part start end bytes g =
      if is_empty g.current_bytes
      then record g { current_start = start; current_end = end; current_bytes = bytes }
      else if start == g.current_end
      then record g { current_end = end; current_bytes = g.current_bytes ++ bytes }
      else record {
        windows = flush g;
        current_start = start;
        current_end = end;
        current_bytes = bytes;
      }

  unfoldable pub gather_segment : ℕ → ℕ → ContentSegment → Gathering → Gathering
  unfolding gather_part logical_end
  gather_segment logical_start range_end segment g =
      let start = max segment.logical_start logical_start in
      let end = min (logical_end segment) range_end in
      if leb end start
      then g
      else gather_part start end
          (take (end - start) (drop (start - segment.logical_start) segment.bytes)) g

  unfoldable pub gather : ℕ → ℕ → List ContentSegment → Gathering → Gathering
  unfolding gather_segment
  gather logical_start range_end [] g = g
  gather logical_start range_end (segment ∷ segments) g =
      gather logical_start range_end segments (gather_segment logical_start range_end segment g)

  unfoldable pub windows : ℕ → ℕ → List ContentSegment → List StreamContentWindow
  unfolding gather
  windows logical_start range_end segments =
      if leb range_end logical_start
      then []
      else flush (
          gather logical_start range_end segments
            (record { windows = []; current_start = 0; current_end = 0; current_bytes = [] }))

-- `none` without a record of the stream.
unfoldable pub direction_windows :
    FlowKey → FlowDirection → ℕ → ℕ → StreamContent → Option (List StreamContentWindow)
unfolding windows get
direction_windows key direction logical_start range_end c =
    elim (get FlowKey-discrete key c.streams) [
      | none ↦ none
      | some r ↦ some (
          windows r.id direction logical_start range_end
            (at_direction direction r.directions).segments)
    ]
