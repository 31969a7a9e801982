-- ===== src/Content/Config.antt =====
-- src/stream_content.rs: the limits of the content store.
use rustmate.Base.{ℕ, Bool, true, false, not, ◌||◌, ◌==◌, if◌then◌else◌, min, max}

pub record StreamContentConfig : Type 0 where
  pub enabled : Bool
  pub max_streams : ℕ
  pub idle_timeout_ms : ℕ
  pub max_total_bytes : ℕ
  pub max_bytes_per_stream : ℕ
  pub max_segment_bytes : ℕ

abbrev pub disabled : StreamContentConfig
disabled = record {
  enabled = false;
  max_streams = 0;
  idle_timeout_ms = 0;
  max_total_bytes = 0;
  max_bytes_per_stream = 0;
  max_segment_bytes = 0;
}

unfoldable pub normalized : StreamContentConfig → StreamContentConfig
normalized c =
    if not c.enabled || c.max_total_bytes == 0 || c.max_bytes_per_stream == 0
    then disabled
    else (let max_bytes_per_stream = max (min c.max_bytes_per_stream c.max_total_bytes) 1 in
        record {
          enabled = true;
          max_streams = max c.max_streams 1;
          idle_timeout_ms = c.idle_timeout_ms;
          max_total_bytes = c.max_total_bytes;
          max_bytes_per_stream = max_bytes_per_stream;
          max_segment_bytes = max (min c.max_segment_bytes max_bytes_per_stream) 1;
        })
