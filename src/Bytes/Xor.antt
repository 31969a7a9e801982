-- ===== src/Bytes/Xor.antt =====
-- Exclusive or on bytes, checked at every pair of them.
use Prim.Native.Nat.{bit_xor}
use rustmate.Base.{ℕ, zero, suc, ◌≡◌, ◌<◌, refl, Bool, true, ◌&&◌, arith, ◌==◌, ==_iff}

all_below : ℕ → (ℕ → Bool) → Bool
all_below zero p = true
all_below (suc n) p = p n && all_below n p

all_below-at : (n : ℕ) (p : ℕ → Bool) (x : ℕ) → all_below n p ≡ true → x < n → p x ≡ true
unfolding all_below
all_below-at zero p x h lt = absurd (omega arith)
all_below-at (suc n) p x h lt = ground (arith, all_below-at n p x)

twice_table : all_below 256 (λ m. all_below 256 (λ x. bit_xor (bit_xor x m) m == x)) ≡ true
unfolding all_below
twice_table = refl

-- The same mask twice gives the byte back.
pub bit_xor_twice : (x m : ℕ) → x < 256 → m < 256 → bit_xor (bit_xor x m) m ≡ x
bit_xor_twice x m hx hm = (==_iff (bit_xor (bit_xor x m) m) x).0 (
    all_below-at 256 (λ x. bit_xor (bit_xor x m) m == x) x
      (all_below-at 256 (λ m. all_below 256 (λ x. bit_xor (bit_xor x m) m == x)) m twice_table hm)
      hx)
