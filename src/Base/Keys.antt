-- ===== src/Base/Keys.antt =====
-- Removing several keys from a map.
use mathlib.Core.Path.{◌≡◌, refl, ap, ◌∙◌}
use mathlib.Core.Logic.{◌≢◌, inl, inr, if_pos, if_neg}
use mathlib.Core.Bool.{Bool, not}
use mathlib.Core.List.{List, [], ◌∷◌, map}
use mathlib.Core.Option.{none, some}
use native.Mathlib.Omega.{arith}
use Prim.Native.Nat.{ℕ}
use rustmate.Base.Tests.{Bool-cases}
use rustmate.Base.Lists.{All}
use rustmate.Base.Assoc.{retain, min_by_key, get, remove_key, Distinct}

module _ {ℓ} {K V : Type ℓ} (dec : Discrete K) where
  -- In a map of distinct keys, the least entry is the one of its key.
  pub min_by_key-get :
      (f : V → ℕ) (m : List (K × V)) (k : K) (v : V)
      → Distinct dec m
      → min_by_key f m ≡ some (k, v)
      → get dec k m ≡ some v
  unfolding min_by_key get
  min_by_key-get f [] k v d e = absurd (ground arith)
  min_by_key-get f ((j, u) ∷ m) k v d e = ground (arith, min_by_key-get f m k v d.1, d.0)

  pub remove_key-absent : (k : K) (m : List (K × V)) → get dec k m ≡ none → remove_key dec k m ≡ m
  unfolding get remove_key
  remove_key-absent k [] e = refl
  remove_key-absent k ((j, w) ∷ m) e = ground (arith, remove_key-absent k m)

  -- Without these keys, one after the other.
  unfoldable pub remove_keys : List K → List (K × V) → List (K × V)
  unfolding remove_key
  remove_keys [] m = m
  remove_keys (k ∷ ks) m = remove_keys ks (remove_key dec k m)

  remove_keys-past :
      (j : K) (w : V) (ks : List K) (m : List (K × V))
      → All (λ k. j ≢ k) ks
      → remove_keys ks ((j, w) ∷ m) ≡ (j, w) ∷ remove_keys ks m
  unfolding remove_keys remove_key
  remove_keys-past j w [] m h = refl
  remove_keys-past j w (k ∷ ks) m h =
      ap (remove_keys ks) (if_neg (dec j k) h.0 m ((j, w) ∷ remove_key dec k m))
      ∙ remove_keys-past j w ks (remove_key dec k m) h.1

  keys-ne :
      (j : K) (p : K → V → Bool) (m : List (K × V))
      → get dec j m ≡ none
      → All (λ k. j ≢ k) (map (λ (e : K × V). e.0) (retain p m))
  unfolding get retain
  keys-ne j p [] e = tt
  keys-ne j p ((i, w) ∷ m) e = elim (Bool-cases (p i w)) [
    | inl t ↦ rw t (other, keys-ne j p m behind)
    | inr t ↦ rw t (keys-ne j p m behind)
  ]
    where
      other : j ≢ i
      other = ground arith

      behind : get dec j m ≡ none
      behind = ground arith

  -- Removing the keys of the entries with a property leaves the others.
  pub remove_keys-retain :
      (p : K → V → Bool) (m : List (K × V))
      → Distinct dec m
      → remove_keys (map (λ (e : K × V). e.0) (retain p m)) m ≡ retain (λ k v. not (p k v)) m
  unfolding remove_keys remove_key retain
  remove_keys-retain p [] d = refl
  remove_keys-retain p ((j, w) ∷ m) d = elim (Bool-cases (p j w)) [
    | inl t ↦ rw t (
        ap (remove_keys (map (λ (e : K × V). e.0) (retain p m)))
          (if_pos (dec j j) refl m ((j, w) ∷ remove_key dec j m))
        ∙ remove_keys-retain p m d.1)
    | inr t ↦ rw t (
        remove_keys-past j w (map (λ (e : K × V). e.0) (retain p m)) m (keys-ne j p m d.0)
        ∙ ap (λ l. (j, w) ∷ l) (remove_keys-retain p m d.1))
  ]
