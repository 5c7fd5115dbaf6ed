-- ===== src/State/Secrets/Writing.antt =====
-- The part of `SecretStore::set` in src/state/secrets.rs that writes: the entries, the names
-- and the next id.
use isabelle_core.Prelude.{
  nat_eq_iff, Bool-cases, ◌==◌, nat_Eq, string_Eq, saturating_add, lookup, lookup-insert, beq_refl,
  is_empty, ℕ, ◌≤◌, max, String, ◌≡◌, refl, sym, ap, ◌∙◌, subst, ◌≢◌, ◌⊎◌, inl, inr, true, false,
  some, arith,
}
use isabelle_core.Item.{Item}
use isabelle_core.State.Secrets.{
  SecretStore, is_other, name_of, name_field, previous, drop_name, committed, taken_by_other,
  reindex,
}
use isabelle_core.State.Secrets.Index.{
  IsValid, name_of-some, drop_name-some, drop_name-drops, drop_name-keeps,
}

-- The entry at an id, and the id of a name, once `set` has written.
module _ (s : SecretStore) (id : ℕ) (it : Item) where
  pub entry_here :
      (i : ℕ)
      → (id == i) ≡ true
      → lookup i (committed s id it).entries ≡ some (record it { id = id })
  unfolding committed
  entry_here i same = rw (lookup-insert, same) refl

  pub entry_elsewhere :
      (i : ℕ) → (id == i) ≡ false → lookup i (committed s id it).entries ≡ lookup i s.entries
  unfolding committed
  entry_elsewhere i other = rw (lookup-insert, other) refl

  pub index_here :
      (n : String) → (name_of it == n) ≡ true → lookup n (committed s id it).name_index ≡ some id
  unfolding committed reindex
  index_here n same = rw (lookup-insert, same) refl

  index_elsewhere :
      (n : String)
      → (name_of it == n) ≡ false
      → lookup n (committed s id it).name_index
        ≡ lookup n
            (drop_name (previous (lookup id s.entries) name_field) (name_of it) id s.name_index)
  unfolding committed reindex
  index_elsewhere n other = rw (lookup-insert, other) refl

-- What `set` leaves behind keeps the store in order, if the name was not another entry's.
module _ (s : SecretStore) (id : ℕ) (it : Item) where
  pub named_after :
      IsValid s
      → is_empty (name_of it) ≡ false
      → (n : String) (i : ℕ) → lookup n (committed s id it).name_index ≡ some i
      → previous (lookup i (committed s id it).entries) name_field ≡ some n
  named_after v named_it n i h = by_cases (Bool-cases (name_of it == n)) (Bool-cases (id == i))
    where
      by_cases :
          ((name_of it == n) ≡ true) ⊎ ((name_of it == n) ≡ false)
          → ((id == i) ≡ true) ⊎ ((id == i) ≡ false)
          → previous (lookup i (committed s id it).entries) name_field ≡ some n
      by_cases (inl nm) (inl same) =
          rw (entry_here s id it i same)
            (name_of-some it named_it ∙ ap some ((string_Eq.beq_iff (name_of it) n).0 nm))
      by_cases (inl nm) (inr other) = ground (arith, index_here s id it n nm, beq_refl id)
      by_cases (inr nm) (inl same) =
          let i_id : i ≡ id = sym ((nat_eq_iff id i).0 same) in
          let dropped : lookup n
                (drop_name (previous (lookup id s.entries) name_field) (name_of it) id s.name_index)
              ≡ some i =
            sym (index_elsewhere s id it n nm) ∙ h in
          let was : previous (lookup id s.entries) name_field ≡ some n =
            subst (λ j. previous (lookup j s.entries) name_field ≡ some n) i_id
              (v.named n i (
                drop_name-some (previous (lookup id s.entries) name_field) (name_of it) id
                  s.name_index n i dropped)) in
          absurd (
            drop_name-drops (previous (lookup id s.entries) name_field) (name_of it) id s.name_index
              n was nm (dropped ∙ ap some i_id))
      by_cases (inr nm) (inr other) = rw (entry_elsewhere s id it i other) (
          v.named n i (
            drop_name-some (previous (lookup id s.entries) name_field) (name_of it) id s.name_index
              n i (sym (index_elsewhere s id it n nm) ∙ h)))

  pub filed_after :
      IsValid s
      → is_empty (name_of it) ≡ false
      → taken_by_other s (name_of it) id ≡ false
      → (n : String) (i : ℕ) → is_empty n ≡ false
      → previous (lookup i (committed s id it).entries) name_field ≡ some n
      → lookup n (committed s id it).name_index ≡ some i
  unfolding taken_by_other is_other
  filed_after v named_it free n i full h =
      by_cases (Bool-cases (name_of it == n)) (Bool-cases (id == i))
    where
      by_cases :
          ((name_of it == n) ≡ true) ⊎ ((name_of it == n) ≡ false)
          → ((id == i) ≡ true) ⊎ ((id == i) ≡ false)
          → lookup n (committed s id it).name_index ≡ some i
      by_cases (inl nm) (inl same) =
          rw (index_here s id it n nm) (ap some ((nat_eq_iff id i).0 same))
      by_cases (inr nm) (inl same) =
          let now : some n ≡ some (name_of it) =
            sym h
            ∙ ap (λ o. previous o name_field) (entry_here s id it i same)
            ∙ name_of-some it named_it in
          ground (arith, string_Eq.beq_iff (name_of it) n)
      by_cases (inl nm) (inr other) =
          let old : lookup n s.name_index ≡ some i =
            v.filed n i full
              (sym (ap (λ o. previous o name_field) (entry_elsewhere s id it i other)) ∙ h) in
          let name_n : name_of it ≡ n = (string_Eq.beq_iff (name_of it) n).0 nm in
          let still : lookup (name_of it) s.name_index ≡ some i =
            ap (λ m. lookup m s.name_index) name_n ∙ old in
          ground (arith, still, free, other, nat_eq_iff i id, nat_eq_iff id i)
      by_cases (inr nm) (inr other) =
          let old : lookup n s.name_index ≡ some i =
            v.filed n i full
              (sym (ap (λ o. previous o name_field) (entry_elsewhere s id it i other)) ∙ h) in
          let apart : i ≢ id = λ e. ground (arith, nat_eq_iff id i) in
          index_elsewhere s id it n nm
          ∙ drop_name-keeps (previous (lookup id s.entries) name_field) (name_of it) id s.name_index
              n i old apart

  pub own_after :
      IsValid s → (i : ℕ) (jt : Item) → lookup i (committed s id it).entries ≡ some jt → jt.id ≡ i
  own_after v i jt h = elim (Bool-cases (id == i)) [
    | inl same ↦ ground (arith, entry_here s id it i same, nat_eq_iff id i)
    | inr other ↦ v.own i jt (sym (entry_elsewhere s id it i other) ∙ h)
  ]

  pub below_after :
      IsValid s
      → (i : ℕ) (jt : Item) → lookup i (committed s id it).entries ≡ some jt
      → saturating_add i 1 ≤ max s.next_id (saturating_add id 1)
  below_after v i jt h = elim (Bool-cases (id == i)) [
    | inl same ↦ let e : id ≡ i = (nat_eq_iff id i).0 same in omega arith
    | inr other ↦
        let e : saturating_add i 1 ≤ s.next_id =
          v.below i jt (sym (entry_elsewhere s id it i other) ∙ h) in
        omega arith
  ]

pub committed-IsValid :
    (s : SecretStore) (id : ℕ) (it : Item)
    → IsValid s
    → is_empty (name_of it) ≡ false
    → taken_by_other s (name_of it) id ≡ false
    → IsValid (committed s id it)
committed-IsValid s id it v named_it free = record {
  named = named_after s id it v named_it;
  filed = filed_after s id it v named_it free;
  own = own_after s id it v;
  below = unfold committed in below_after s id it v;
}
