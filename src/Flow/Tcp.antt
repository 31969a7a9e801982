-- ===== src/Flow/Tcp.antt =====
-- src/flow/mod.rs: a TCP connection, its two directions (`TcpFlowState`).
pub mod Buffers
use rustmate.Base.{
  ℕ, ◌+◌, Bool, true, false, ◌&&◌, List, if◌then◌else◌, max, saturating_add, length,
}
use rustmate.Packet.Segment.{TcpSegment}
use rustmate.Flow.Chunk.{FlowDirection, a_to_b, b_to_a, stream_chunk_bytes}
use rustmate.Flow.Config.{FlowTableConfig}
use rustmate.Flow.Stats.{FlowTableStats, observe_stream_chunk_sources}
use rustmate.Flow.Buffer.{TcpDirectionState, default}
use rustmate.Flow.Direction.{TcpObservation, Observed}
use rustmate.Flow.Direction

-- `[T; 2]`, indexed by `FlowDirection::index`.
pub record Directions {ℓ} (A : Type ℓ) : Type ℓ where
  pub first : A
  pub second : A

abbrev pub at_direction {ℓ} : {A : Type ℓ} → FlowDirection → Directions A → A
at_direction a_to_b ds = ds.first
at_direction b_to_a ds = ds.second

abbrev pub set_direction {ℓ} : {A : Type ℓ} → FlowDirection → A → Directions A → Directions A
set_direction a_to_b v ds = record { first = v; second = ds.second }
set_direction b_to_a v ds = record { first = ds.first; second = v }

pub record TcpFlowState : Type 0 where
  pub directions : Directions TcpDirectionState
  pub resets : ℕ
  pub finished : Bool

pub record FlowObserved : Type 0 where
  pub state : TcpFlowState
  pub stats : FlowTableStats
  pub observation : TcpObservation

abbrev pub default_flow : TcpFlowState
default_flow = record {
  directions = record { first = default; second = default };
  resets = 0;
  finished = false;
}

-- The sum of two bounded buffers: it does not overflow.
unfoldable pub buffered_bytes : TcpFlowState → ℕ
buffered_bytes s = s.directions.first.buffered_bytes + s.directions.second.buffered_bytes

unfoldable pub count_flags : TcpSegment → FlowTableStats → FlowTableStats
count_flags segment stats =
    let syns : FlowTableStats =
      if segment.flags.syn
      then record stats { tcp_syns = saturating_add stats.tcp_syns 1 }
      else stats in
    if segment.flags.fin then record syns { tcp_fins = saturating_add syns.tcp_fins 1 } else syns

-- The counters of the chunks, and the peak of the buffered bytes.
unfoldable pub count_chunks : TcpObservation → ℕ → FlowTableStats → FlowTableStats
unfolding observe_stream_chunk_sources stream_chunk_bytes
count_chunks observation buffered stats =
    let counted : FlowTableStats = record stats {
      tcp_stream_chunks = saturating_add stats.tcp_stream_chunks (length observation.stream_chunks);
      tcp_stream_bytes =
          saturating_add stats.tcp_stream_bytes (stream_chunk_bytes observation.stream_chunks);
    } in
    let sourced = observe_stream_chunk_sources observation.stream_chunks counted in
    record sourced {
      tcp_reassembly_buffered_bytes_peak = max sourced.tcp_reassembly_buffered_bytes_peak buffered;
    }

unfoldable pub observe :
    FlowDirection
    → TcpSegment
    → List ℕ
    → FlowTableConfig
    → FlowTableStats
    → TcpFlowState
    → FlowObserved
unfolding buffered_bytes count_flags count_chunks Direction.observe
observe direction segment payload config stats state =
    let o =
      Direction.observe direction segment payload config (buffered_bytes state)
        (count_flags segment stats) (at_direction direction state.directions) in
    let directions = set_direction direction o.state state.directions in
    let seen : TcpFlowState = record state { directions = directions } in
    let counted = count_chunks o.observation (buffered_bytes seen) o.stats in
    if segment.flags.rst
    then record {
      state = record seen { resets = saturating_add state.resets 1; finished = true };
      stats = record counted { tcp_resets = saturating_add counted.tcp_resets 1 };
      observation = o.observation;
    }
    else if directions.first.fin_seen && directions.second.fin_seen
    then record {
      state = record seen { finished = true };
      stats = counted;
      observation = o.observation;
    }
    else record { state = seen; stats = counted; observation = o.observation }
