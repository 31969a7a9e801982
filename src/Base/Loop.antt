-- ===== src/Base/Loop.antt =====
-- A loop that stops by its own test: `step` gives the next state, or `none` where the code breaks.
use Prim.Native.Nat.{ℕ, zero, suc, ◌<◌}
use mathlib.Core.Path.{◌≡◌}
use mathlib.Core.Logic.{inl, inr}
use mathlib.Core.Option.{Option, none, some}
use native.Mathlib.Omega.{arith}
use rustmate.Base.Tests.{Option-cases}

module _ {ℓ} {S : Type ℓ} (step : S → Option S) where
  unfoldable pub loop : ℕ → S → S
  loop zero s = s
  loop (suc fuel) s = elim (step s) [ none ↦ s | some t ↦ loop fuel t ]

  -- What a round keeps, the loop keeps.
  pub loop_inv {κ} :
      (P : S → Type κ)
      → ((s t : S) → P s → step s ≡ some t → P t)
      → (fuel : ℕ) (s : S) → P s
      → P (loop fuel s)
  unfolding loop
  loop_inv P keep zero s h = h
  loop_inv P keep (suc fuel) s h = elim (Option-cases (step s)) [
    | inl e ↦ rw (e, loop) h
    | inr (t, e) ↦ rw (e, loop) (loop_inv P keep fuel t (keep s t h e))
  ]

  -- With an invariant under which each round lowers a measure, fuel above the measure is enough:
  -- the loop ends because `step` says so.
  pub loop_ends {κ} :
      (P : S → Type κ) (measure : S → ℕ)
      → ((s t : S) → P s → step s ≡ some t → P t × (measure t < measure s))
      → (fuel : ℕ) (s : S) → measure s < fuel
      → P s
      → step (loop fuel s) ≡ none
  unfolding loop
  loop_ends P measure keep zero s m h = absurd (omega arith)
  loop_ends P measure keep (suc fuel) s m h = elim (Option-cases (step s)) [
    | inl e ↦ rw (e, loop) e
    | inr (t, e) ↦
        let (k, d) = keep s t h e in rw (e, loop) (loop_ends P measure keep fuel t (omega arith) k)
  ]
