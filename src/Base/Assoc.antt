-- ===== src/Base/Assoc.antt =====
-- A hash map as the list of its entries, in the order in which it iterates; the source fixes no order,
-- and a new entry goes to the front. Keys are compared by a decision procedure.
use Prim.Native.Nat.{ℕ, suc, ◌≤◌}
use mathlib.Core.Path.{◌≡◌, refl, ◌∙◌}
use mathlib.Core.Logic.{inl, inr, ite, if_pos, if_neg}
use mathlib.Core.Bool.{Bool}
use mathlib.Core.List.{List, [], ◌∷◌}
use mathlib.Core.Option.{Option, none, some}
use native.Mathlib.Omega.{arith}
use rustmate.Base.Tests.{leb, if◌then◌else◌, Bool-cases, Option-cases}
use rustmate.Base.Lists.{length, All, All-mono}

module _ {ℓ} {K V : Type ℓ} where
  -- `retain`, and `filter`, by a test on the entries.
  unfoldable pub retain : (K → V → Bool) → List (K × V) → List (K × V)
  retain p [] = []
  retain p ((k, v) ∷ m) = if p k v then (k, v) ∷ retain p m else retain p m

  -- `iter().min_by_key(f)`: the first of the entries with the least key.
  unfoldable pub min_by_key : (V → ℕ) → List (K × V) → Option (K × V)
  min_by_key f [] = none
  min_by_key f (x ∷ xs) = elim (min_by_key f xs) [
    | none ↦ some x
    | some y ↦ if leb (f x.1) (f y.1) then some x else some y
  ]

module _ {ℓ} {K V : Type ℓ} (dec : Discrete K) where
  unfoldable pub get : K → List (K × V) → Option V
  get k [] = none
  get k ((j, v) ∷ m) = ite (dec j k) (some v) (get k m)

  -- A write through `get_mut`.
  unfoldable pub set_value : K → V → List (K × V) → List (K × V)
  set_value k v [] = []
  set_value k v ((j, w) ∷ m) = ite (dec j k) ((j, v) ∷ m) ((j, w) ∷ set_value k v m)

  unfoldable pub remove_key : K → List (K × V) → List (K × V)
  remove_key k [] = []
  remove_key k ((j, w) ∷ m) = ite (dec j k) m ((j, w) ∷ remove_key k m)

  -- Every key stands once.
  abbrev pub Distinct : List (K × V) → Type ℓ
  Distinct [] = Unit
  Distinct ((k, v) ∷ m) = (get k m ≡ none) × Distinct m

  pub length-set_value : (k : K) (v : V) (m : List (K × V)) → length (set_value k v m) ≡ length m
  unfolding set_value
  length-set_value k v [] = refl
  length-set_value k v ((j, w) ∷ m) = ground (arith, length-set_value k v m)

  pub get-set_value :
      (k : K) (v w : V) (m : List (K × V)) → get k m ≡ some w → get k (set_value k v m) ≡ some v
  unfolding get set_value
  get-set_value k v w [] e = cc
  get-set_value k v w ((j, u) ∷ m) e = ground (arith, get-set_value k v w m)

  pub get-set_value-none :
      (i k : K) (v : V) (m : List (K × V)) → get i m ≡ none → get i (set_value k v m) ≡ none
  unfolding get set_value
  get-set_value-none i k v [] e = refl
  get-set_value-none i k v ((j, u) ∷ m) e = ground (arith, get-set_value-none i k v m)

  pub Distinct-set_value :
      (k : K) (v : V) (m : List (K × V)) → Distinct m → Distinct (set_value k v m)
  unfolding set_value
  Distinct-set_value k v [] d = tt
  Distinct-set_value k v ((j, w) ∷ m) d = elim (dec j k) [
    | yes e ↦ rw (if_pos _ e) (d.0, d.1)
    | no e ↦ rw (if_neg _ e) (get-set_value-none j k v m d.0, Distinct-set_value k v m d.1)
  ]

  pub length-remove_key :
      (k : K) (v : V) (m : List (K × V))
      → get k m ≡ some v
      → suc (length (remove_key k m)) ≡ length m
  unfolding get remove_key
  length-remove_key k v [] e = cc
  length-remove_key k v ((j, w) ∷ m) e = ground (arith, length-remove_key k v m)

  pub get-remove_key-none :
      (i k : K) (m : List (K × V)) → get i m ≡ none → get i (remove_key k m) ≡ none
  unfolding get remove_key
  get-remove_key-none i k [] e = refl
  get-remove_key-none i k ((j, w) ∷ m) e = ground (arith, get-remove_key-none i k m)

  pub Distinct-remove_key : (k : K) (m : List (K × V)) → Distinct m → Distinct (remove_key k m)
  unfolding remove_key
  Distinct-remove_key k [] d = tt
  Distinct-remove_key k ((j, w) ∷ m) d = elim (dec j k) [
    | yes e ↦ rw (if_pos _ e) d.1
    | no e ↦ rw (if_neg _ e) (get-remove_key-none j k m d.0, Distinct-remove_key k m d.1)
  ]

  pub get-retain-none :
      (i : K) (p : K → V → Bool) (m : List (K × V)) → get i m ≡ none → get i (retain p m) ≡ none
  unfolding get retain
  get-retain-none i p [] e = refl
  get-retain-none i p ((j, w) ∷ m) e = ground (arith, get-retain-none i p m)

  pub Distinct-retain : (p : K → V → Bool) (m : List (K × V)) → Distinct m → Distinct (retain p m)
  unfolding retain
  Distinct-retain p [] d = tt
  Distinct-retain p ((j, w) ∷ m) d = elim (Bool-cases (p j w)) [
    | inl e ↦ rw e (get-retain-none j p m d.0, Distinct-retain p m d.1)
    | inr e ↦ rw e (Distinct-retain p m d.1)
  ]

  pub length-retain-le : (p : K → V → Bool) (m : List (K × V)) → length (retain p m) ≤ length m
  unfolding retain
  length-retain-le p [] = omega arith
  length-retain-le p ((j, w) ∷ m) = ground (arith, length-retain-le p m)

  -- `min_by_key` finds nothing only in the empty map, and what it finds is an entry.
  pub min_by_key-none : (f : V → ℕ) (m : List (K × V)) → min_by_key f m ≡ none → m ≡ []
  unfolding min_by_key
  min_by_key-none f [] e = refl
  min_by_key-none f (x ∷ m) e = absurd (ground arith)

  pub get-min_by_key :
      (f : V → ℕ) (m : List (K × V)) (k : K) (v : V)
      → min_by_key f m ≡ some (k, v)
      → (w : V) × (get k m ≡ some w)
  unfolding min_by_key get
  get-min_by_key f [] k v e = absurd (ground arith)
  get-min_by_key f ((j, u) ∷ m) k v e = elim (dec j k) [
    | yes p ↦ (u, if_pos (dec j k) p (some u) (get k m))
    | no n ↦
        let (w, g) = get-min_by_key f m k v (inner n) in
        (w, if_neg (dec j k) n (some u) (get k m) ∙ g)
  ]
    where
      inner : ¬ (j ≡ k) → min_by_key f m ≡ some (k, v)
      inner n = ground arith

  -- No entry is below it.
  pub min_by_key-le :
      (f : V → ℕ) (m : List (K × V)) (k : K) (v : V)
      → min_by_key f m ≡ some (k, v)
      → All (λ e. f v ≤ f e.1) m
  unfolding min_by_key
  min_by_key-le f [] k v e = tt
  min_by_key-le f ((j, u) ∷ m) k v e = elim (Option-cases (min_by_key f m)) [
    | inl n ↦ (ground arith, rw (min_by_key-none f m n) tt)
    | inr ((i, w), s) ↦ (
      ground arith,
      All-mono (λ e. f w ≤ f e.1) (λ e. f v ≤ f e.1) (λ x h. omega (arith, least i w s)) m
          (min_by_key-le f m i w s),
    )
  ]
    where
      least : (i : K) (w : V) → min_by_key f m ≡ some (i, w) → f v ≤ f w
      least i w s = ground arith

  pub get-front : (k : K) (v : V) (m : List (K × V)) → get k ((k, v) ∷ m) ≡ some v
  unfolding get
  get-front k v m = if_pos (dec k k) refl (some v) (get k m)
