-- ===== src/Flow/Chunk.antt =====
-- src/flow/mod.rs: stream chunks, the ordered payload that reassembly hands to later stages.
use rustmate.Base.{ℕ, List, [], ◌∷◌, ◌++◌, length, sum_map}

pub data FlowDirection : Type 0 where
  a_to_b b_to_a : FlowDirection

pub data StreamBytes : Type 0 where
  borrowed owned : List ℕ → StreamBytes

unfoldable pub as_slice : StreamBytes → List ℕ
as_slice (borrowed bytes) = bytes
as_slice (owned bytes) = bytes

pub data StreamChunkSource : Type 0 where
  current_segment buffered_segment overlap_trimmed : StreamChunkSource

pub record StreamChunk : Type 0 where
  pub direction : FlowDirection
  pub sequence_start : ℕ
  pub sequence_end : ℕ
  pub bytes : StreamBytes
  pub source : StreamChunkSource

unfoldable pub len : StreamChunk → ℕ
unfolding as_slice
len chunk = length (as_slice chunk.bytes)

-- The sum of at most a packet's and a bounded buffer's lengths: it does not overflow.
unfoldable pub stream_chunk_bytes : List StreamChunk → ℕ
unfolding len
stream_chunk_bytes chunks = sum_map len chunks

-- What the chunks carry, in order: the abstract view of a list of chunks.
unfoldable pub payload_of : List StreamChunk → List ℕ
unfolding as_slice
payload_of [] = []
payload_of (chunk ∷ chunks) = as_slice chunk.bytes ++ payload_of chunks
