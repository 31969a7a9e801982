-- ===== src/Base/Words.antt =====
-- Machine integers as native numbers: `u32` wraps, `u64` and `usize` (64 bits) saturate.
use Prim.Native.Nat.{ℕ, ◌+◌, ◌-◌, ◌%◌, ◌^◌, min}

abbrev pub u32_mod : ℕ
u32_mod = 2 ^ 32

abbrev pub u64_max : ℕ
u64_max = 2 ^ 64 - 1

-- `wrapping_add` and `wrapping_sub` of `u32`, and `as u32` on a `usize`.
abbrev pub wrapping_add : ℕ → ℕ → ℕ
wrapping_add a b = (a + b) % u32_mod

abbrev pub wrapping_sub : ℕ → ℕ → ℕ
wrapping_sub a b = (a + u32_mod - b) % u32_mod

abbrev pub as_u32 : ℕ → ℕ
as_u32 a = a % u32_mod

-- `saturating_add` of `u32`, and of `u64` or `usize`. `saturating_sub` is `-` of ℕ.
abbrev pub saturating_add32 : ℕ → ℕ → ℕ
saturating_add32 a b = min (a + b) (u32_mod - 1)

abbrev pub saturating_add : ℕ → ℕ → ℕ
saturating_add a b = min (a + b) u64_max
