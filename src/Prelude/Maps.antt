-- ===== src/Prelude/Maps.antt =====
-- A `HashMap` as an association list: what `get`, `insert`, `remove` and `retain` do to lookups.
use mathlib.Core.Path.{◌≡◌, refl, subst}
use mathlib.Core.Bool.{Bool, true, false}
use mathlib.Core.Logic.{inl, inr}
use mathlib.Core.Option.{Option, none, some}
use mathlib.Core.List.{List, [], ◌∷◌}
use native.Mathlib.Omega.{arith}
use isabelle_core.Prelude.Tests.{Eq, ◌==◌, if◌then◌else◌, is_some, Bool-cases}

abbrev pub Map {ℓ κ} : Type ℓ → Type κ → Type (ℓ ⊔ κ)
Map K V = List (K × V)

-- `a.or(b)`
abbrev pub or_else {ℓ} : {A : Type ℓ} → Option A → Option A → Option A
or_else none b = b
or_else (some a) b = some a

module _ {ℓ κ} {K : Type ℓ} ⦃e : Eq K⦄ {V : Type κ} where
  unfoldable pub lookup : K → Map K V → Option V
  lookup k [] = none
  lookup k ((j, v) ∷ m) = if j == k then some v else lookup k m

  unfoldable pub insert : K → V → Map K V → Map K V
  insert k v [] = (k, v) ∷ []
  insert k v ((j, w) ∷ m) = if j == k then (k, v) ∷ m else (j, w) ∷ insert k v m

  unfoldable pub remove : K → Map K V → Map K V
  remove k [] = []
  remove k ((j, w) ∷ m) = let rest = remove k m in if j == k then rest else (j, w) ∷ rest

  -- `retain`, on a test of the key and the value
  unfoldable pub retain : (K → V → Bool) → Map K V → Map K V
  retain p [] = []
  retain p ((j, w) ∷ m) = let rest = retain p m in if p j w then (j, w) ∷ rest else rest

  abbrev pub contains_key : K → Map K V → Bool
  contains_key k m = is_some (lookup k m)

  pub lookup-insert :
      (k key : K) (v : V) (m : Map K V)
      → lookup key (insert k v m) ≡ (if k == key then some v else lookup key m)
  unfolding lookup insert
  lookup-insert k key v [] = refl
  lookup-insert k key v ((i, w) ∷ m) =
      ground (arith, e.beq_iff i key, e.beq_iff k key, e.beq_iff i k, lookup-insert k key v m)

  pub lookup-remove :
      (k j : K) (m : Map K V) → lookup j (remove k m) ≡ (if k == j then none else lookup j m)
  unfolding lookup remove
  lookup-remove k j [] = ground arith
  lookup-remove k j ((i, w) ∷ m) =
      ground (arith, e.beq_iff k j, e.beq_iff i k, e.beq_iff i j, lookup-remove k j m)

pub beq_refl {ℓ} : {K : Type ℓ} ⦃e : Eq K⦄ (k : K) → (k == k) ≡ true
beq_refl ⦃e⦄ k = (e.beq_iff k k).1 refl

-- No key stands twice, as in every `HashMap`.
module _ {ℓ κ} {K : Type ℓ} ⦃e : Eq K⦄ {V : Type κ} where
  abbrev pub Distinct : Map K V → Type κ
  Distinct [] = Unit
  Distinct ((k, v) ∷ m) = (lookup k m ≡ none) × Distinct m

  lookup-insert_absent :
      (k j : K) (v : V) (m : Map K V)
      → (j == k) ≡ false
      → lookup j m ≡ none
      → lookup j (insert k v m) ≡ none
  lookup-insert_absent k j v m ne h =
      rw lookup-insert (ground (arith, e.beq_iff j k, e.beq_iff k j))

  lookup-remove_absent : (k j : K) (m : Map K V) → lookup j m ≡ none → lookup j (remove k m) ≡ none
  lookup-remove_absent k j m h = rw lookup-remove (ground arith)

  pub insert-Distinct : (k : K) (v : V) (m : Map K V) → Distinct m → Distinct (insert k v m)
  unfolding insert
  insert-Distinct k v [] d = (unfold lookup in refl, tt)
  insert-Distinct k v ((j, w) ∷ m) (absent, d) = elim (Bool-cases (j == k)) [
    | inl same ↦ rw same (subst (λ x. lookup x m ≡ none) ((e.beq_iff j k).0 same) absent, d)
    | inr other ↦ rw other (lookup-insert_absent k j v m other absent, insert-Distinct k v m d)
  ]

  pub remove-Distinct : (k : K) (m : Map K V) → Distinct m → Distinct (remove k m)
  unfolding remove
  remove-Distinct k [] d = tt
  remove-Distinct k ((j, w) ∷ m) (absent, d) = elim (Bool-cases (j == k)) [
    | inl same ↦ rw same (remove-Distinct k m d)
    | inr other ↦ rw other (lookup-remove_absent k j m absent, remove-Distinct k m d)
  ]
