-- ===== src/State/Secrets/Operations.antt =====
-- What `set` and `del` of src/state/secrets.rs do to a store that is in order.
use isabelle_core.Prelude.{
  nat_eq_iff, Bool-cases, ◌==◌, nat_Eq, string_Eq, u64_max, saturating_add, lookup, remove,
  lookup-remove, beq_refl, is_empty, Casing, ℕ, ◌≤◌, ◌<◌, String, ◌≡◌, refl, sym, ap, ◌∙◌, ◌≢◌, inl,
  inr, Bool, false, Option, none, some, arith,
}
use isabelle_core.Item.{Item, ItemApi}
use isabelle_core.State.Secrets.{
  written, SecretStore, name_of, name_field, previous, committed, discarded, taken_by_other,
  unindex, commit, flushed, set, del, del_entry, Disk, target_id, Error, ok, err, get_by_name,
  get_at,
}
use isabelle_core.State.Secrets.Index.{IsValid, unindex-some, unindex-drops, unindex-keeps}
use isabelle_core.State.Secrets.Writing.{committed-IsValid, entry_here, entry_elsewhere, index_here}

discarded-IsValid :
    (s : SecretStore) (id : ℕ) (it : Item)
    → IsValid s
    → lookup id s.entries ≡ some it
    → IsValid (discarded s id it)
unfolding discarded
discarded-IsValid s id it v here = record {
  named = named_then;
  filed = filed_then;
  own = λ i jt h. v.own i jt (stays i jt h);
  below = λ i jt h. v.below i jt (stays i jt h);
}
  where
    stays :
        (i : ℕ) (jt : Item)
        → lookup i (remove id s.entries) ≡ some jt
        → lookup i s.entries ≡ some jt
    stays i jt h = ground (arith, lookup-remove id i s.entries)

    named_then :
        (n : String) (i : ℕ)
        → lookup n (unindex (lookup name_field it.strs) id s.name_index) ≡ some i
        → previous (lookup i (remove id s.entries)) name_field ≡ some n
    named_then n i h = elim (Bool-cases (id == i)) [
      | inl same ↦
          let i_id : i ≡ id = sym ((nat_eq_iff id i).0 same) in
          let was : lookup n s.name_index ≡ some i =
            unindex-some (lookup name_field it.strs) id s.name_index n i h in
          let its_name : lookup name_field it.strs ≡ some n =
            sym (ap (λ o. previous o name_field) (ap (λ j. lookup j s.entries) i_id ∙ here))
            ∙ v.named n i was in
          absurd (
            unindex-drops (lookup name_field it.strs) id s.name_index n its_name (h ∙ ap some i_id))
      | inr other ↦
          ap (λ o. previous o name_field) (lookup-remove id i s.entries ∙ rw other refl)
          ∙ v.named n i (unindex-some (lookup name_field it.strs) id s.name_index n i h)
    ]

    filed_then :
        (n : String) (i : ℕ)
        → is_empty n ≡ false
        → previous (lookup i (remove id s.entries)) name_field ≡ some n
        → lookup n (unindex (lookup name_field it.strs) id s.name_index) ≡ some i
    filed_then n i full h = elim (Bool-cases (id == i)) [
      | inl same ↦ ground (arith, lookup-remove id i s.entries)
      | inr other ↦
          unindex-keeps (lookup name_field it.strs) id s.name_index n i
            (v.filed n i full (
              sym (ap (λ o. previous o name_field) (lookup-remove id i s.entries ∙ rw other refl))
              ∙ h))
            (λ e. ground (arith, nat_eq_iff id i))
    ]

pub target-own : (s : SecretStore) (item : Item) → item.id ≢ u64_max → target_id s item ≡ item.id
unfolding target_id
target-own s item other = ground (arith, nat_eq_iff item.id u64_max)

target-fresh : (s : SecretStore) (item : Item) → item.id ≡ u64_max → target_id s item ≡ s.next_id
unfolding target_id
target-fresh s item fresh = ground (arith, beq_refl u64_max)

module _ ⦃api : ItemApi⦄ ⦃c : Casing⦄ ⦃disk : Disk⦄ where
  commit-IsValid : (s : SecretStore) (id : ℕ) (it : Item) → IsValid s → IsValid (commit s id it).0
  unfolding commit flushed
  commit-IsValid s id it v = elim (Bool-cases (is_empty (name_of it))) [
    | inl e ↦ rw e v
    | inr e ↦ elim (Bool-cases (taken_by_other s (name_of it) id)) [
      | inl t ↦ rw (e, t) v
      | inr t ↦
          elim (Bool-cases (disk.flush (committed s id it).entries (committed s id it).next_id)) [
            | inl f ↦ rw (e, t, f) (committed-IsValid s id it v e t)
            | inr f ↦ rw (e, t, f) v
          ]
    ]
  ]

  -- `set` keeps the store in order, whether it succeeds or fails.
  pub set-IsValid :
      (s : SecretStore) (item : Item) (merging : Bool) → IsValid s → IsValid (set s item merging).0
  unfolding set
  set-IsValid s item merging v = commit-IsValid s (target_id s item) (written s item merging) v

  -- `del` keeps the store in order, whether it finds the entry, misses it or fails.
  pub del-IsValid : (s : SecretStore) (id : ℕ) → IsValid s → IsValid (del s id).0
  unfolding del del_entry flushed
  del-IsValid s id v = by_entry (lookup id s.entries) refl
    where
      by_entry : (o : Option Item) → lookup id s.entries ≡ o → IsValid (del_entry s id o).0
      by_entry none e = v
      by_entry (some it) e =
          elim (Bool-cases (disk.flush (discarded s id it).entries (discarded s id it).next_id)) [
            | inl f ↦ rw f (discarded-IsValid s id it v e)
            | inr f ↦ rw f v
          ]

  commit-err :
      (s : SecretStore) (id : ℕ) (it : Item) (e : Error)
      → (commit s id it).1 ≡ err e
      → (commit s id it).0 ≡ s
  unfolding commit flushed
  commit-err s id it e h = ground arith

  -- A `set` that fails changes nothing: the entries, the names and the next id are as before.
  pub set-err :
      (s : SecretStore) (item : Item) (merging : Bool) (e : Error)
      → (set s item merging).1 ≡ err e
      → (set s item merging).0 ≡ s
  unfolding set
  set-err s item merging e h = commit-err s (target_id s item) (written s item merging) e h

  pub commit-ok :
      (s : SecretStore) (id : ℕ) (it : Item) (i : ℕ)
      → (commit s id it).1 ≡ ok i
      → (i ≡ id) × ((commit s id it).0 ≡ committed s id it) × (is_empty (name_of it) ≡ false)
  unfolding commit flushed
  commit-ok s id it i h = (ground arith, ground arith, ground arith)

  -- After a successful `set` the entry is found under the id it answers and under its name, and
  -- carries that id.
  pub set-get_by_name :
      (s : SecretStore) (item : Item) (merging : Bool) (i : ℕ)
      → (set s item merging).1 ≡ ok i
      → get_by_name (set s item merging).0 (name_of (written s item merging))
        ≡ some (record (written s item merging) { id = i })
  unfolding set get_by_name get_at written
  set-get_by_name s item merging i h =
      by_result (commit-ok s (target_id s item) (written s item merging) i h)
    where
      by_result :
          (i ≡ target_id s item)
            × ((set s item merging).0 ≡ committed s (target_id s item) (written s item merging))
            × (is_empty (name_of (written s item merging)) ≡ false)
          → get_at
              (set s item merging).0
              (lookup (name_of (written s item merging)) (set s item merging).0.name_index)
            ≡ some (record (written s item merging) { id = i })
      by_result (same, now, named) =
          rw
            (
              now,
              index_here s (target_id s item) (written s item merging)
                  (name_of (written s item merging)) (beq_refl (name_of (written s item merging))),
              entry_here s (target_id s item) (written s item merging) (target_id s item)
                  (beq_refl (target_id s item)),
              same,
            )
            refl

  commit-elsewhere :
      (s : SecretStore) (id : ℕ) (jt : Item) (i : ℕ)
      → (id == i) ≡ false
      → lookup i (commit s id jt).0.entries ≡ lookup i s.entries
  unfolding commit flushed
  commit-elsewhere s id jt i other = elim (Bool-cases (is_empty (name_of jt))) [
    | inl e ↦ rw e refl
    | inr e ↦ elim (Bool-cases (taken_by_other s (name_of jt) id)) [
      | inl t ↦ rw (e, t) refl
      | inr t ↦
          elim (Bool-cases (disk.flush (committed s id jt).entries (committed s id jt).next_id)) [
            | inl f ↦ rw (e, t, f) (entry_elsewhere s id jt i other)
            | inr f ↦ rw (e, t, f) refl
          ]
    ]
  ]

  -- While ids are left, a `set` without an id writes over no entry: every entry that was there
  -- is still there, unchanged.
  pub set-keeps_others :
      (s : SecretStore) (item : Item) (merging : Bool) (i : ℕ) (it : Item)
      → IsValid s
      → item.id ≡ u64_max
      → s.next_id < u64_max
      → lookup i s.entries ≡ some it
      → lookup i (set s item merging).0.entries ≡ some it
  unfolding set written
  set-keeps_others s item merging i it v fresh room here =
      let bound : saturating_add i 1 ≤ s.next_id = v.below i it here in
      let at : target_id s item ≡ s.next_id = target-fresh s item fresh in
      let apart : (s.next_id == i) ≡ false = ground (arith, nat_eq_iff s.next_id i) in
      commit-elsewhere s (target_id s item) (written s item merging) i (rw (at, apart) refl) ∙ here

  -- Once the next id has saturated, a successful `set` without an id writes over the entry that
  -- has the last id.
  pub set-overwrites_last :
      (s : SecretStore) (item : Item) (merging : Bool) (i : ℕ)
      → item.id ≡ u64_max
      → s.next_id ≡ u64_max
      → (set s item merging).1 ≡ ok i
      → (i ≡ u64_max)
        × (lookup u64_max (set s item merging).0.entries
            ≡ some (record (written s item merging) { id = u64_max }))
  unfolding set written
  set-overwrites_last s item merging i fresh full h =
      let at : target_id s item ≡ u64_max = target-fresh s item fresh ∙ full in
      let done = commit-ok s (target_id s item) (written s item merging) i h in
      (
        done.0 ∙ at,
        rw
            (
              done.1,
              entry_here s (target_id s item) (written s item merging) u64_max
                  (ap (λ x. x == u64_max) at ∙ beq_refl u64_max),
              at,
            )
            refl,
      )

  -- Neither a write nor a deletion touches an entry at another id.
  pub set-elsewhere :
      (s : SecretStore) (item : Item) (merging : Bool) (i : ℕ)
      → item.id ≢ u64_max
      → item.id ≢ i
      → lookup i (set s item merging).0.entries ≡ lookup i s.entries
  unfolding set
  set-elsewhere s item merging i old other =
      let at : target_id s item ≡ item.id = target-own s item old in
      let apart : (target_id s item == i) ≡ false = rw at (ground (arith, nat_eq_iff item.id i)) in
      commit-elsewhere s (target_id s item) (written s item merging) i apart

  pub del-elsewhere :
      (s : SecretStore) (id i : ℕ) → id ≢ i → lookup i (del s id).0.entries ≡ lookup i s.entries
  unfolding del del_entry flushed discarded
  del-elsewhere s id i other = by_entry (lookup id s.entries)
    where
      apart : (id == i) ≡ false
      apart = ground (arith, nat_eq_iff id i)

      by_entry : (o : Option Item) → lookup i (del_entry s id o).0.entries ≡ lookup i s.entries
      by_entry none = refl
      by_entry (some it) =
          elim (Bool-cases (disk.flush (discarded s id it).entries (discarded s id it).next_id)) [
            | inl f ↦ rw f (lookup-remove id i s.entries ∙ rw apart refl)
            | inr f ↦ rw f refl
          ]
