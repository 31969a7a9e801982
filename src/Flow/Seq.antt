-- ===== src/Flow/Seq.antt =====
-- src/flow/mod.rs: comparison of TCP sequence numbers, by the sign of their wrapped difference.
pub mod Window
use rustmate.Base.{ℕ, ◌^◌, Bool, ◌==◌, leb, wrapping_sub}

unfoldable pub seq_eq : ℕ → ℕ → Bool
seq_eq a b = a == b

-- `(a.wrapping_sub(b) as i32) < 0`: the top bit of the difference is set.
unfoldable pub seq_before : ℕ → ℕ → Bool
seq_before a b = leb (2 ^ 31) (wrapping_sub a b)

unfoldable pub seq_after : ℕ → ℕ → Bool
unfolding seq_before
seq_after a b = seq_before b a
