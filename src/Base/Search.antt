-- ===== src/Base/Search.antt =====
-- Taking an element out of a list, as `position` and `remove` do, and putting one in.
use Prim.Native.Nat.{ℕ, zero, suc, ◌+◌}
use mathlib.Core.Path.{◌≡◌, refl}
use mathlib.Core.Logic.{inl, inr}
use mathlib.Core.Bool.{Bool, true, false}
use mathlib.Core.List.{List, [], ◌∷◌}
use mathlib.Core.Option.{none, some}
use native.Mathlib.Omega.{arith}
use rustmate.Base.Tests.{Bool-cases, Option-cases}
use rustmate.Base.Lists.{length, sum_map, All, position, remove, insert_at}

-- `Taken x xs ys`: without one `x`, `xs` is `ys`.
pub data Taken {ℓ} {A : Type ℓ} (x : A) : List A → List A → Type ℓ where
  here : (xs : List A) → Taken x (x ∷ xs) xs
  there : {xs ys : List A} (y : A) → Taken x xs ys → Taken x (y ∷ xs) (y ∷ ys)

module _ {ℓ} {A : Type ℓ} where
  pub length-Taken : {x : A} {xs ys : List A} → Taken x xs ys → length xs ≡ suc (length ys)
  length-Taken (here xs) = refl
  length-Taken (there y t) = omega (arith, length-Taken t)

  pub sum_map-Taken :
      {x : A} {xs ys : List A} (f : A → ℕ) → Taken x xs ys → sum_map f xs ≡ f x + sum_map f ys
  sum_map-Taken f (here xs) = refl
  sum_map-Taken f (there y t) = omega (arith, sum_map-Taken f t)

  pub All-Taken {κ} :
      (P : A → Type κ) {x : A} {xs ys : List A} → Taken x xs ys → All P xs → P x × All P ys
  All-Taken P (here xs) h = h
  All-Taken P (there y t) h = let (a, b) = All-Taken P t h.1 in (a, (h.0, b))

  pub All-put {κ} :
      (P : A → Type κ) {x : A} {xs ys : List A} → Taken x xs ys → P x → All P ys → All P xs
  All-put P (here xs) p h = (p, h)
  All-put P (there y t) p h = (h.0, All-put P t p h.1)

  pub insert_at-Taken : (i : ℕ) (x : A) (xs : List A) → Taken x (insert_at i x xs) xs
  unfolding insert_at
  insert_at-Taken zero x xs = here xs
  insert_at-Taken (suc i) x [] = here []
  insert_at-Taken (suc i) x (y ∷ xs) = there y (insert_at-Taken i x xs)

  -- The index that `position` finds is that of an element which passes the test.
  pub position-remove :
      (p : A → Bool) (xs : List A) (i : ℕ)
      → position p xs ≡ some i
      → (x : A) × (rest : List A) × (remove i xs ≡ some (x, rest)) × (p x ≡ true) × Taken x xs rest
  unfolding position remove
  position-remove p [] i e = cc
  position-remove p (y ∷ xs) i e = elim (Bool-cases (p y)) [
    | inl t ↦ let z : i ≡ 0 = ground arith in (y, xs, rw z, t, here xs)
    | inr f ↦ elim (Option-cases (position p xs)) [
      | inl n ↦ cc (found_none f n e)
      | inr (j, s) ↦
          let (x, rest, r, t, k) = position-remove p xs j s in
          let z : i ≡ suc j = ground arith in (x, y ∷ rest, rw (z, r, remove), t, there y k)
    ]
  ]
    where
      found_none : p y ≡ false → position p xs ≡ none → position p (y ∷ xs) ≡ some i → none ≡ some i
      found_none f n e = ground arith

  -- Where `position` finds nothing, nothing passes the test.
  pub position-none :
      (p : A → Bool) (xs : List A) → position p xs ≡ none → All (λ x. p x ≡ false) xs
  unfolding position
  position-none p [] e = tt
  position-none p (y ∷ xs) e = elim (Bool-cases (p y)) [
    | inl t ↦ absurd (ground arith)
    | inr f ↦ (f, position-none p xs (ground arith))
  ]
