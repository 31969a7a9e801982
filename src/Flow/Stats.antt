-- ===== src/Flow/Stats.antt =====
-- src/flow/mod.rs: the counters of the flow table.
use rustmate.Base.{ℕ, List, [], ◌∷◌, saturating_add}
use rustmate.Flow.Chunk.{
  StreamChunk, StreamChunkSource, current_segment, buffered_segment, overlap_trimmed, len,
}

pub record FlowTableStats : Type 0 where
  pub active_flows : ℕ
  pub created_flows : ℕ
  pub evicted_flows : ℕ
  pub dropped_new_flows : ℕ
  pub tcp_stream_chunks : ℕ
  pub tcp_stream_bytes : ℕ
  pub tcp_current_stream_chunks : ℕ
  pub tcp_current_stream_bytes : ℕ
  pub tcp_buffered_stream_chunks : ℕ
  pub tcp_buffered_stream_bytes : ℕ
  pub tcp_overlap_trimmed_stream_chunks : ℕ
  pub tcp_overlap_trimmed_stream_bytes : ℕ
  pub tcp_gaps : ℕ
  pub tcp_retransmissions : ℕ
  pub tcp_overlaps : ℕ
  pub tcp_out_of_order_buffered : ℕ
  pub tcp_out_of_order_buffered_bytes : ℕ
  pub tcp_out_of_order_dropped : ℕ
  pub tcp_out_of_order_dropped_bytes : ℕ
  pub tcp_retransmitted_bytes : ℕ
  pub tcp_overlap_trimmed_bytes : ℕ
  pub tcp_reassembly_buffered_bytes_peak : ℕ
  pub tcp_midstream_starts : ℕ
  pub tcp_syns : ℕ
  pub tcp_fins : ℕ
  pub tcp_resets : ℕ

-- One round of the loop over the chunks.
unfoldable pub observe_stream_chunk_source :
    StreamChunk → StreamChunkSource → FlowTableStats → FlowTableStats
observe_stream_chunk_source chunk current_segment stats = record stats {
  tcp_current_stream_chunks = saturating_add stats.tcp_current_stream_chunks 1;
  tcp_current_stream_bytes = saturating_add stats.tcp_current_stream_bytes (len chunk);
}
observe_stream_chunk_source chunk buffered_segment stats = record stats {
  tcp_buffered_stream_chunks = saturating_add stats.tcp_buffered_stream_chunks 1;
  tcp_buffered_stream_bytes = saturating_add stats.tcp_buffered_stream_bytes (len chunk);
}
observe_stream_chunk_source chunk overlap_trimmed stats = record stats {
  tcp_overlap_trimmed_stream_chunks = saturating_add stats.tcp_overlap_trimmed_stream_chunks 1;
  tcp_overlap_trimmed_stream_bytes =
      saturating_add stats.tcp_overlap_trimmed_stream_bytes (len chunk);
}

unfoldable pub observe_stream_chunk_sources : List StreamChunk → FlowTableStats → FlowTableStats
unfolding observe_stream_chunk_source
observe_stream_chunk_sources [] stats = stats
observe_stream_chunk_sources (chunk ∷ chunks) stats =
    observe_stream_chunk_sources chunks (observe_stream_chunk_source chunk chunk.source stats)
