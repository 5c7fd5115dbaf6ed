-- ===== src/State/StoreLocal/Writing.antt =====
-- What the store of src/state/store_local.rs does to its files.
use isabelle_core.Prelude.{
  if◌then◌else◌, Bool-cases, ◌>>=◌, ◌==◌, nat_Eq, string_Eq, u64_max, saturating_add, Map, lookup,
  insert, lookup-insert, ℕ, String, ◌≡◌, refl, sym, ap, ◌∙◌, subst, ◌≢◌, ◌⊎◌, inl, inr, Bool, ◌&&◌,
  Option, none, some, get_or, [], arith,
}
use isabelle_core.Item.{Item, ItemApi}
use isabelle_core.State.Store.{overlay}
use isabelle_core.State.StoreLocal.{
  whole, StoreLocal, LocalDisk, readable, files_of, get_item, preserve_dropped, count_of, allocated,
  filed, counted, written, store_item, set_in, set_item, astray_removed, forget, del_item,
}

-- The record that a write is about, under the id that it gets.
unfoldable pub aimed : StoreLocal → ℕ → Item → Item
unfolding preserve_dropped
aimed s coll_id itm =
    if itm.id == u64_max
    then record (preserve_dropped itm) { id = saturating_add (count_of s coll_id) 1 }
    else preserve_dropped itm

-- What the files hold at an id after one record was filed.
filed-get_item :
    (s : StoreLocal) (collection other : String) (coll_id i : ℕ) (itm : Item)
    → get_item (filed s collection coll_id itm) other i
      ≡ (if (collection == other) && (itm.id == i) then some itm else get_item s other i)
unfolding get_item filed readable
filed-get_item s collection other coll_id i itm = elim (Bool-cases (collection == other)) [
  | inl here ↦
      let same : collection ≡ other = (string_Eq.beq_iff collection other).0 here in
      rw
        (
          lookup-insert collection other (insert itm.id (whole itm) (files_of s collection))
              s.files,
          here,
        )
        (rw (lookup-insert itm.id i (whole itm) (files_of s collection))
          (elim (Bool-cases (itm.id == i)) [
            | inl at ↦ rw at refl
            | inr away ↦ rw away (ap (λ c. readable (lookup i (get_or (lookup c s.files) []))) same)
          ]))
  | inr there ↦
      rw
        (
          lookup-insert collection other (insert itm.id (whole itm) (files_of s collection))
              s.files,
          there,
        )
        refl
]

module _ ⦃disk : LocalDisk⦄ where
  counted-files :
      (s : StoreLocal) (collection : String) (coll_id id : ℕ)
      → (counted s collection coll_id id).files ≡ s.files
  unfolding counted
  counted-files s collection coll_id id = ground arith

  written-get_item :
      (s : StoreLocal) (collection other : String) (coll_id i : ℕ) (itm : Item)
      → (written s collection coll_id itm).1 ≢ u64_max
      → ((written s collection coll_id itm).1 ≡ itm.id)
        × (get_item (written s collection coll_id itm).0 other i
            ≡ (if (collection == other) && (itm.id == i) then some itm else get_item s other i))
  unfolding written get_item
  written-get_item s collection other coll_id i itm h =
      elim (Bool-cases (disk.write_item collection itm.id itm)) [
        | inl done ↦ rw done (
          refl,
          ap (λ f. readable (lookup i (get_or (lookup other f) [])))
                (counted-files (filed s collection coll_id itm) collection coll_id itm.id)
              ∙ filed-get_item s collection other coll_id i itm,
        )
        | inr failed ↦ ground arith
      ]

module _ ⦃api : ItemApi⦄ ⦃disk : LocalDisk⦄ where
  -- The record that a write leaves.
  abbrev pub stored : StoreLocal → String → ℕ → Item → Bool → Item
  stored s collection coll_id itm merging =
      overlay (get_item s collection (aimed s coll_id itm).id) (aimed s coll_id itm) merging

  -- A write files the record in this state, or once a number is allocated.
  pub set_in-written :
      (s : StoreLocal) (collection : String) (coll_id : ℕ) (itm : Item) (merging : Bool)
      → (before : StoreLocal) × ((before.files ≡ s.files)
          × (before.collections ≡ s.collections)
          × ((before ≡ s) ⊎ (before ≡ allocated s coll_id)))
        × (set_in s collection (some coll_id) (preserve_dropped itm) merging
            ≡ written before collection coll_id (stored s collection coll_id itm merging))
  unfolding set_in store_item aimed preserve_dropped get_item allocated
  set_in-written s collection coll_id itm merging = elim (Bool-cases (itm.id == u64_max)) [
    | inl fresh ↦ (allocated s coll_id, (refl, refl, inr refl), rw fresh refl)
    | inr old ↦ (s, (refl, refl, inl refl), rw old refl)
  ]

  set_in-get_item :
      (s : StoreLocal) (collection other : String) (coll_id i : ℕ) (itm : Item) (merging : Bool)
      → (set_in s collection (some coll_id) (preserve_dropped itm) merging).1 ≢ u64_max
      → ((set_in s collection (some coll_id) (preserve_dropped itm) merging).1
          ≡ (stored s collection coll_id itm merging).id)
        × (get_item (set_in s collection (some coll_id) (preserve_dropped itm) merging).0 other i
            ≡ (if (collection == other) && ((stored s collection coll_id itm merging).id == i)
                then some (stored s collection coll_id itm merging)
                else get_item s other i))
  set_in-get_item s collection other coll_id i itm merging h =
      let (before, (files, _, _), same) = set_in-written s collection coll_id itm merging in
      let new_item = stored s collection coll_id itm merging in
      let (id, there) =
        written-get_item before collection other coll_id i new_item
          (λ e. h (ap (λ r. r.1) same ∙ e)) in
      let unchanged : get_item before other i ≡ get_item s other i =
        unfold get_item in ap (λ f. readable (lookup i (get_or (lookup other f) []))) files in
      (
        ap (λ r. r.1) same ∙ id,
        ap (λ r. get_item r.0 other i) same
            ∙ there
            ∙ ap (λ o. if (collection == other) && (new_item.id == i) then some new_item else o)
                unchanged,
      )

  -- A write that succeeds is read back: the record stands under the id that the store answers, and
  -- every other record is as it was.
  pub set_item-get_item :
      (s : StoreLocal) (collection other : String) (coll_id i : ℕ) (itm : Item) (merging : Bool)
      → lookup collection s.collections ≡ some coll_id
      → (set_item s collection itm merging).1 ≢ u64_max
      → ((set_item s collection itm merging).1 ≡ (stored s collection coll_id itm merging).id)
        × (get_item (set_item s collection itm merging).0 other i ≡ (
            if (collection == other) && ((stored s collection coll_id itm merging).id == i)
            then some (stored s collection coll_id itm merging)
            else get_item s other i))
  unfolding set_item
  set_item-get_item s collection other coll_id i itm merging known h =
      subst
        (λ o.
          ((set_in s collection o (preserve_dropped itm) merging).1
            ≡ (stored s collection coll_id itm merging).id)
          × (get_item (set_in s collection o (preserve_dropped itm) merging).0 other i ≡ (
              if (collection == other) && ((stored s collection coll_id itm merging).id == i)
              then some (stored s collection coll_id itm merging)
              else get_item s other i)))
        (sym known)
        (set_in-get_item s collection other coll_id i itm merging
          (λ e. h (ap (λ o. (set_in s collection o (preserve_dropped itm) merging).1) known ∙ e)))

-- Deleting a record leaves its file where it is: the record is still read.
pub del_item-get_item :
    (s after : StoreLocal) (collection other : String) (id i : ℕ) (found : Bool)
    → del_item s collection id ≡ some (after, found)
    → get_item after other i ≡ get_item s other i
unfolding del_item forget get_item astray_removed
del_item-get_item s after collection other id i found h =
    by_collection (lookup collection s.collections) h
  where
    by_ids :
        (coll_id : ℕ) (o : Option (Map ℕ Bool))
        → (forget (astray_removed s collection id) coll_id id o).0.files ≡ s.files
    by_ids coll_id none = refl
    by_ids coll_id (some coll) = ground arith

    by_collection :
        (o : Option ℕ)
        → (o >>= λ coll_id.
            some (forget (astray_removed s collection id) coll_id id (lookup coll_id s.items)))
          ≡ some (after, found)
        → get_item after other i ≡ get_item s other i
    by_collection none e = ground arith
    by_collection (some coll_id) e =
        let same : (forget (astray_removed s collection id) coll_id id (lookup coll_id s.items)).0
            ≡ after =
          ground arith in
        ap (λ t. readable (lookup i (get_or (lookup other t.files) []))) (sym same)
        ∙ ap (λ f. readable (lookup i (get_or (lookup other f) [])))
            (by_ids coll_id (lookup coll_id s.items))
