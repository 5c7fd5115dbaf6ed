-- ===== src/State/Paging.antt =====
-- What every store of src/state promises of a page of a collection, whatever keeps the records.
-- The records of a page are a map: only what it answers to a number counts, not its order.
use isabelle_core.Prelude.{
  nat_eq, if◌then◌else◌, nat_eq_iff, Bool-cases, nat_Eq, string_Eq, any, lookup, length, take, drop,
  All, ℕ, zero, suc, ◌<◌, ◌≡◌, refl, sym, ◌∙◌, inl, inr, Bool, true, Option, none, List, [], ◌∷◌,
  arith,
}
use isabelle_core.Item.{Item}
use isabelle_core.State.Store.{ListResult}

-- Strictly ascending.
abbrev pub Rising : List ℕ → Type 0
Rising [] = Unit
Rising (x ∷ xs) = All (λ y. x < y) xs × Rising xs

abbrev pub holds : ℕ → List ℕ → Bool
holds i ids = any (λ x. nat_eq x i) ids

-- The numbers that are there and within the bounds, in ascending order, are counted; the page
-- answers with what is read under those of them that come after the ones to skip, up to the limit.
pub record IsPageOf (read : ℕ → Option Item) (within : ℕ → Bool) (skip limit : ℕ)
    (result : ListResult) : Type 0 where
  pub ids : List ℕ
  pub rising : Rising ids
  pub complete : (i : ℕ) → holds i ids ≡ within i
  pub total_count : result.total_count ≡ length ids
  pub shown :
      (i : ℕ)
      → lookup i result.map ≡ (if holds i (take limit (drop skip ids)) then read i else none)

pub past_least : (a i : ℕ) (ids : List ℕ) → All (λ y. a < y) ids → holds i ids ≡ true → a < i
past_least a i [] least h = absurd (ground arith)
past_least a i (x ∷ ids) (less, least) h = elim (Bool-cases (nat_eq x i)) [
  | inl here ↦ ground (arith, nat_eq_iff x i)
  | inr there ↦ past_least a i ids least (sym (rw there refl) ∙ h)
]

pub holds-take : (n i : ℕ) (ids : List ℕ) → holds i (take n ids) ≡ true → holds i ids ≡ true
unfolding take
holds-take zero i ids h = absurd (ground arith)
holds-take (suc n) i [] h = h
holds-take (suc n) i (x ∷ ids) h = elim (Bool-cases (nat_eq x i)) [
  | inl here ↦ rw here refl
  | inr there ↦ rw there (holds-take n i ids (sym (rw there refl) ∙ h))
]

pub holds-drop : (n i : ℕ) (ids : List ℕ) → holds i (drop n ids) ≡ true → holds i ids ≡ true
unfolding drop
holds-drop zero i ids h = h
holds-drop (suc n) i [] h = h
holds-drop (suc n) i (x ∷ ids) h = rw (holds-drop n i ids h) (ground arith)

pub All-mono : (a b : ℕ) (ids : List ℕ) → a < b → All (λ y. b < y) ids → All (λ y. a < y) ids
All-mono a b [] less h = tt
All-mono a b (x ∷ ids) less (p, h) = (omega arith, All-mono a b ids less h)
