-- ===== src/Flow/Config.antt =====
-- src/flow/mod.rs: the limits of the flow table.
use rustmate.Base.{ℕ, ◌*◌, max, min, u64_max}

pub record FlowTableConfig : Type 0 where
  pub max_flows : ℕ
  pub idle_timeout_us : ℕ
  pub eviction_interval_packets : ℕ
  pub max_tcp_buffered_bytes_per_flow : ℕ
  pub max_tcp_out_of_order_segments_per_direction : ℕ

unfoldable pub new : ℕ → ℕ → ℕ → ℕ → FlowTableConfig
new max_flows idle_timeout_ms bytes segments = record {
  max_flows = max max_flows 1;
  idle_timeout_us = min (idle_timeout_ms * 1000) u64_max;
  eviction_interval_packets = 16384;
  max_tcp_buffered_bytes_per_flow = bytes;
  max_tcp_out_of_order_segments_per_direction = segments;
}
