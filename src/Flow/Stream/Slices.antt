-- ===== src/Flow/Stream/Slices.antt =====
-- Slices of a stream: joining two, and cutting the front off one.
use rustmate.Base.{
  ℕ, zero, suc, ◌+◌, ◌-◌, ◌≤◌, ◌≡◌, refl, sym, ap, ◌∙◌, List, [], ◌∷◌, ◌++◌, arith, min, length,
  take, drop, length-take, length-drop, take-split, drop-drop, drop_of_length-le,
}
use native.Mathlib.Decide.{dec_le}
use rustmate.Flow.Stream.{between}

drop-take-append :
    (a b c : ℕ) (xs : List ℕ)
    → a ≤ b
    → b ≤ c
    → drop a (take b xs) ++ drop b (take c xs) ≡ drop a (take c xs)
drop-take-append zero b c xs h k = take-split b c xs k
drop-take-append (suc a) zero c xs h k = absurd (omega arith)
drop-take-append (suc a) (suc b) zero xs h k = absurd (omega arith)
drop-take-append (suc a) (suc b) (suc c) [] h k = refl
drop-take-append (suc a) (suc b) (suc c) (x ∷ xs) h k =
    drop-take-append a b c xs (omega arith) (omega arith)

pub between-append :
    (stream : List ℕ) (x y z : ℕ)
    → x ≤ y
    → y ≤ z
    → between stream x y ++ between stream y z ≡ between stream x z
between-append stream x y z h k =
    drop-take-append (x - 1) (y - 1) (z - 1) stream (omega arith) (omega arith)

pub length-between :
    (stream : List ℕ) (x y : ℕ)
    → length (between stream x y) ≡ min (y - 1) (length stream) - (x - 1)
length-between stream x y =
    length-drop (x - 1) (take (y - 1) stream) ∙ ap (λ k. k - (x - 1)) (length-take (y - 1) stream)

pub drop-between :
    (stream : List ℕ) (k x y z : ℕ)
    → k + (x - 1) ≡ z - 1
    → drop k (between stream x y) ≡ between stream z y
drop-between stream k x y z e = drop-drop k (x - 1) (z - 1) (take (y - 1) stream) e

-- Behind the last byte there is nothing.
pub between_past :
    (stream : List ℕ) (x y : ℕ) → min (y - 1) (length stream) ≤ x - 1 → between stream x y ≡ []
between_past stream x y h =
    drop_of_length-le (x - 1) (take (y - 1) stream) (omega (arith, length-take (y - 1) stream))

pub drop-min : (k : ℕ) (xs : List ℕ) → drop (min k (length xs)) xs ≡ drop k xs
drop-min k xs = elim (dec_le k (length xs)) [
  | yes h ↦ ap (λ j. drop j xs) (short h)
  | no h ↦
      drop_of_length-le (min k (length xs)) xs (omega arith)
      ∙ sym (drop_of_length-le k xs (omega arith))
]
  where
    short : k ≤ length xs → min k (length xs) ≡ k
    short h = omega arith
