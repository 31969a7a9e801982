-- ===== src/Flow/Seq/Window.antt =====
-- Positions of one stream, counted from its initial sequence number: less than half of the sequence
-- space apart, they are compared as plain numbers.
use rustmate.Base.{
  ℕ, ◌+◌, ◌-◌, ◌^◌, ◌≤◌, ◌<◌, ◌≡◌, true, false, not, ◌⊎◌, ◌≢◌, arith, ltb, ◌==◌, u32_mod,
  wrapping_add, wrapping_sub,
}
use rustmate.Flow.Seq.{seq_eq, seq_before, seq_after}

-- The sequence number of position `p` of a stream that starts at `isn`.
abbrev pub at : ℕ → ℕ → ℕ
at isn p = wrapping_add isn p

pub wrapping_add-at : (isn p k : ℕ) → wrapping_add (at isn p) k ≡ at isn (p + k)
wrapping_add-at isn p k = omega arith

pub wrapping_sub-at :
    (isn p q : ℕ) → q ≤ p → p < u32_mod → wrapping_sub (at isn p) (at isn q) ≡ p - q
wrapping_sub-at isn p q h b = omega arith

-- Two positions less than 2^31 apart are compared as numbers, wherever the counter wraps.
pub seq_before-at :
    (isn p q : ℕ) → p < q + 2 ^ 31 → q < p + 2 ^ 31 → seq_before (at isn p) (at isn q) ≡ ltb p q
unfolding seq_before
seq_before-at isn p q hp hq = ground arith

pub seq_after-at :
    (isn p q : ℕ) → p < q + 2 ^ 31 → q < p + 2 ^ 31 → seq_after (at isn p) (at isn q) ≡ ltb q p
unfolding seq_after
seq_after-at isn p q hp hq = ground arith

pub seq_eq-at :
    (isn p q : ℕ) → p < q + 2 ^ 31 → q < p + 2 ^ 31 → seq_eq (at isn p) (at isn q) ≡ (p == q)
unfolding seq_eq
seq_eq-at isn p q hp hq = ground arith

-- Of two numbers below 2^32: at a difference of exactly half of the sequence space each is before
-- the other; at every other difference exactly one of equal, before and after holds.
pub seq_trichotomy :
    (a b : ℕ)
    → a < u32_mod
    → b < u32_mod
    → ((wrapping_sub a b ≡ 2 ^ 31) × (seq_before a b ≡ true) × (seq_after a b ≡ true))
      ⊎ ((a ≡ b) × (seq_before a b ≡ false) × (seq_after a b ≡ false))
      ⊎ ((a ≢ b) × (wrapping_sub a b ≢ 2 ^ 31) × (seq_after a b ≡ not (seq_before a b)))
unfolding seq_before seq_after
seq_trichotomy a b ha hb = grind arith
