-- ===== src/State/Secrets/Index.antt =====
-- What holds of a secret store between operations: the names lead to the entries and back, an
-- entry carries its own id, and the next id lies past every entry.
use isabelle_core.Prelude.{
  nat_eq_iff, Bool-cases, ◌==◌, nat_Eq, string_Eq, saturating_add, Map, lookup, lookup-remove,
  beq_refl, is_empty, ℕ, ◌≤◌, String, ◌≡◌, refl, ap, ◌∙◌, ◌≢◌, inl, inr, false, ◌&&◌, not, Option,
  none, some, get_or, arith,
}
use isabelle_core.Item.{Item}
use isabelle_core.State.Secrets.{
  SecretStore, name_of, name_field, previous, drop_name, is_at, unindex,
}

pub record IsValid (s : SecretStore) : Type 0 where
  pub named :
      (n : String) (i : ℕ)
      → lookup n s.name_index ≡ some i
      → previous (lookup i s.entries) name_field ≡ some n
  pub filed :
      (n : String) (i : ℕ)
      → is_empty n ≡ false
      → previous (lookup i s.entries) name_field ≡ some n
      → lookup n s.name_index ≡ some i
  pub own : (i : ℕ) (it : Item) → lookup i s.entries ≡ some it → it.id ≡ i
  pub below : (i : ℕ) (it : Item) → lookup i s.entries ≡ some it → saturating_add i 1 ≤ s.next_id

pub name_of-some :
    (it : Item) → is_empty (name_of it) ≡ false → lookup name_field it.strs ≡ some (name_of it)
name_of-some it h = by_cases (lookup name_field it.strs) refl h
  where
    by_cases :
        (o : Option String)
        → lookup name_field it.strs ≡ o
        → is_empty (get_or o "") ≡ false
        → o ≡ some (get_or o "")
    by_cases none e h = ground arith
    by_cases (some n) e h = refl

-- Leaving the old name only makes an index smaller, and only at that name.
pub drop_name-some :
    (prev : Option String) (name : String) (id : ℕ) (index : Map String ℕ) (n : String) (i : ℕ)
    → lookup n (drop_name prev name id index) ≡ some i
    → lookup n index ≡ some i
unfolding drop_name
drop_name-some none name id index n i h = h
drop_name-some (some p) name id index n i h =
    elim (Bool-cases (not (p == name) && is_at (lookup p index) id)) [
      | inl hit ↦ ground (arith, lookup-remove p n index)
      | inr miss ↦ ground (arith)
    ]

pub drop_name-drops :
    (prev : Option String) (name : String) (id : ℕ) (index : Map String ℕ) (n : String)
    → prev ≡ some n
    → (name == n) ≡ false
    → lookup n (drop_name prev name id index) ≢ some id
unfolding drop_name is_at
drop_name-drops none name id index n e other h = ground arith
drop_name-drops (some p) name id index n e other h =
    elim (Bool-cases (not (p == name) && is_at (lookup p index) id)) [
      | inl hit ↦ ground (arith, string_Eq.beq_iff p n, lookup-remove p n index)
      | inr miss ↦
          let keep : lookup n index ≡ some id = drop_name-some (some p) name id index n id h in
          ground (
            arith,
            beq_refl id,
            string_Eq.beq_iff p n,
            string_Eq.beq_iff p name,
            string_Eq.beq_iff name n,
          )
    ]

pub drop_name-keeps :
    (prev : Option String) (name : String) (id : ℕ) (index : Map String ℕ) (n : String) (i : ℕ)
    → lookup n index ≡ some i
    → i ≢ id
    → lookup n (drop_name prev name id index) ≡ some i
unfolding drop_name is_at
drop_name-keeps none name id index n i h ne = h
drop_name-keeps (some p) name id index n i h ne =
    elim (Bool-cases (not (p == name) && is_at (lookup p index) id)) [
      | inl hit ↦ ground (arith, lookup-remove p n index, string_Eq.beq_iff p n, nat_eq_iff i id)
      | inr miss ↦ ground arith
    ]

-- Taking a name away, as `del` does.
pub unindex-some :
    (name : Option String) (id : ℕ) (index : Map String ℕ) (n : String) (i : ℕ)
    → lookup n (unindex name id index) ≡ some i
    → lookup n index ≡ some i
unfolding unindex
unindex-some none id index n i h = h
unindex-some (some p) id index n i h = elim (Bool-cases (is_at (lookup p index) id)) [
  | inl hit ↦ ground (arith, lookup-remove p n index)
  | inr miss ↦ ground arith
]

pub unindex-drops :
    (name : Option String) (id : ℕ) (index : Map String ℕ) (n : String)
    → name ≡ some n
    → lookup n (unindex name id index) ≢ some id
unfolding unindex is_at
unindex-drops none id index n e h = ground arith
unindex-drops (some p) id index n e h = elim (Bool-cases (is_at (lookup p index) id)) [
  | inl hit ↦ ground (arith, string_Eq.beq_iff p n, lookup-remove p n index)
  | inr miss ↦
      let p_n : p ≡ n = ground (arith, e) in
      let there : lookup p index ≡ some id =
        ap (λ x. lookup x index) p_n ∙ unindex-some (some p) id index n id h in
      ground (arith, beq_refl id)
]

pub unindex-keeps :
    (name : Option String) (id : ℕ) (index : Map String ℕ) (n : String) (i : ℕ)
    → lookup n index ≡ some i
    → i ≢ id
    → lookup n (unindex name id index) ≡ some i
unfolding unindex is_at
unindex-keeps none id index n i h ne = h
unindex-keeps (some p) id index n i h ne = elim (Bool-cases (is_at (lookup p index) id)) [
  | inl hit ↦ ground (arith, lookup-remove p n index, string_Eq.beq_iff p n, nat_eq_iff i id)
  | inr miss ↦ ground arith
]
