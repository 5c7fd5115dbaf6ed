-- ===== src/State/StoreLocal/Counted.antt =====
-- The counters of src/state/store_local.rs: no record is filed past its collection's counter, so a
-- new record gets a number that no file has.
use isabelle_core.Prelude.{
  leb, nat_eq_iff, Bool-cases, ◌==◌, nat_Eq, string_Eq, u64_max, saturating_add, lookup, insert,
  lookup-insert, beq_refl, ℕ, ◌+◌, ◌≤◌, ◌<◌, String, ◌≡◌, refl, sym, ap, ◌∙◌, subst, ◌≢◌, ◌⊎◌, inl,
  inr, Bool, Option, none, some, get_or, [], arith,
}
use isabelle_core.Item.{Item, ItemApi}
use isabelle_core.State.Store.{overlay}
use isabelle_core.State.StoreLocal.{
  Content, whole, StoreLocal, LocalDisk, readable, files_of, get_item, preserve_dropped, count_of,
  allocated, filed, counted, written, set_in, set_item,
}
use isabelle_core.State.StoreLocal.Writing.{aimed, stored, set_in-written, set_item-get_item}

-- Every file of a collection has a number up to its counter.
abbrev pub IsCounted : StoreLocal → Type 0
IsCounted s =
    (c : String) (k i : ℕ) (content : Content)
    → lookup c s.collections ≡ some k
    → lookup i (files_of s c) ≡ some content
    → i ≤ count_of s k

-- A counter is kept under 64 bits.
module _ ⦃disk : LocalDisk⦄ where
  count_of-counted :
      (s : StoreLocal) (collection : String) (coll_id id k : ℕ)
      → (count_of s k ≤ count_of (counted s collection coll_id id) k)
        × (id ≤ count_of (counted s collection coll_id id) coll_id)
  unfolding counted
  count_of-counted s collection coll_id id k = elim (Bool-cases (leb (count_of s coll_id) id)) [
    | inl past ↦ rw past (
      ground (arith, lookup-insert coll_id k id s.items_count, nat_eq_iff coll_id k),
      ground (arith, lookup-insert coll_id coll_id id s.items_count, beq_refl coll_id),
    )
    | inr within ↦ rw within (omega arith, ground arith)
  ]

  counted-kept :
      (s : StoreLocal) (collection : String) (coll_id id : ℕ)
      → ((counted s collection coll_id id).files ≡ s.files)
        × ((counted s collection coll_id id).collections ≡ s.collections)
  unfolding counted
  counted-kept s collection coll_id id = (ground arith, ground arith)

  -- A file after one record was filed is that record's or was there.
  filed-file :
      (s : StoreLocal) (collection c : String) (coll_id i : ℕ) (itm : Item) (content : Content)
      → lookup i (files_of (filed s collection coll_id itm) c) ≡ some content
      → ((collection ≡ c) × (itm.id ≡ i)) ⊎ (lookup i (files_of s c) ≡ some content)
  unfolding filed
  filed-file s collection c coll_id i itm content h = elim (Bool-cases (collection == c)) [
    | inl here ↦
        let same : collection ≡ c = (string_Eq.beq_iff collection c).0 here in
        let found : lookup c (filed s collection coll_id itm).files
            ≡ some (insert itm.id (whole itm) (files_of s collection)) =
          rw (lookup-insert, here) refl in
        let inside : lookup i (insert itm.id (whole itm) (files_of s collection)) ≡ some content =
          ap (λ o. lookup i (get_or o [])) (sym found) ∙ h in
        elim (Bool-cases (itm.id == i)) [
          | inl at ↦ inl (same, (nat_eq_iff itm.id i).0 at)
          | inr away ↦
              let other : lookup i (insert itm.id (whole itm) (files_of s collection))
                  ≡ lookup i (files_of s collection) =
                rw (lookup-insert, away) refl in
              inr (ap (λ x. lookup i (files_of s x)) (sym same) ∙ sym other ∙ inside)
        ]
    | inr there ↦
        let found : lookup c (filed s collection coll_id itm).files ≡ lookup c s.files =
          rw (lookup-insert, there) refl in
        inr (ap (λ o. lookup i (get_or o [])) (sym found) ∙ h)
  ]

  written-IsCounted :
      (s : StoreLocal) (collection : String) (coll_id : ℕ) (itm : Item)
      → IsCounted s
      → lookup collection s.collections ≡ some coll_id
      → IsCounted (written s collection coll_id itm).0
  unfolding written
  written-IsCounted s collection coll_id itm v known =
      elim (Bool-cases (disk.write_item collection itm.id itm)) [
        | inr failed ↦ rw failed v
        | inl done ↦ rw done (λ c k i content reg h.
            let after = filed s collection coll_id itm in
            let (files, collections) = counted-kept after collection coll_id itm.id in
            let (grown, reached) = count_of-counted after collection coll_id itm.id k in
            let reg_before : lookup c s.collections ≡ some k =
              ap (λ m. lookup c m) (sym collections) ∙ reg in
            let there : lookup i (files_of after c) ≡ some content =
              ap (λ f. lookup i (get_or (lookup c f) [])) (sym files) ∙ h in
            elim (filed-file s collection c coll_id i itm content there) [
              | inl (same, at) ↦
                  let k_is : coll_id ≡ k =
                    ground
                      (arith, sym known ∙ ap (λ x. lookup x s.collections) same ∙ reg_before) in
                  subst (λ x. i ≤ count_of (counted after collection coll_id itm.id) x) k_is
                    (omega (arith, reached, at))
              | inr old ↦
                  let before : i ≤ count_of s k = v c k i content reg_before old in
                  omega (arith, before, grown)
            ])
      ]

allocated-IsCounted :
    (s : StoreLocal) (coll_id : ℕ)
    → count_of s coll_id ≤ u64_max
    → IsCounted s
    → IsCounted (allocated s coll_id)
unfolding allocated
allocated-IsCounted s coll_id fits v c k i content reg h =
    let before : i ≤ count_of s k = v c k i content reg h in
    ground (
      arith,
      lookup-insert coll_id k (saturating_add (count_of s coll_id) 1) s.items_count,
      nat_eq_iff coll_id k,
    )

readable-some :
    (o : Option Content) (itm : Item)
    → readable o ≡ some itm
    → (content : Content) × (o ≡ some content)
unfolding readable
readable-some none itm h = ground arith
readable-some (some content) itm h = (content, refl)

aimed-fresh :
    (s : StoreLocal) (coll_id : ℕ) (itm : Item)
    → itm.id ≡ u64_max
    → count_of s coll_id < u64_max
    → (aimed s coll_id itm).id ≡ count_of s coll_id + 1
unfolding aimed preserve_dropped
aimed-fresh s coll_id itm fresh room = ground (arith, nat_eq_iff itm.id u64_max)

module _ ⦃api : ItemApi⦄ ⦃disk : LocalDisk⦄ where
  -- A write keeps every file's number within the counter of its collection, whether the write
  -- succeeds or fails, if the counter is a 64-bit number.
  pub set_item-IsCounted :
      (s : StoreLocal) (collection : String) (coll_id : ℕ) (itm : Item) (merging : Bool)
      → lookup collection s.collections ≡ some coll_id
      → count_of s coll_id ≤ u64_max
      → IsCounted s
      → IsCounted (set_item s collection itm merging).0
  unfolding set_item
  set_item-IsCounted s collection coll_id itm merging known fits v =
      let (before, (files, collections, is_either), same) =
        set_in-written s collection coll_id itm merging in
      let counted_before : IsCounted before = elim is_either [
        | inl here ↦ subst IsCounted (sym here) v
        | inr after ↦ subst IsCounted (sym after) (allocated-IsCounted s coll_id fits v)
      ] in
      subst (λ o. IsCounted (set_in s collection o (preserve_dropped itm) merging).0) (sym known)
        (subst (λ r. IsCounted r.0) (sym same)
          (written-IsCounted before collection coll_id (stored s collection coll_id itm merging)
            counted_before (ap (λ m. lookup collection m) collections ∙ known)))

  -- While numbers are left and no file of a collection has a number past the counter, a new record
  -- that is stored takes no other record's place: every record that could be read still is.
  pub set_item-keeps_records :
      (s : StoreLocal) (collection : String) (coll_id i : ℕ) (itm old : Item) (merging : Bool)
      → IsCounted s
      → lookup collection s.collections ≡ some coll_id
      → itm.id ≡ u64_max
      → count_of s coll_id < u64_max
      → (set_item s collection itm merging).1 ≢ u64_max
      → get_item s collection i ≡ some old
      → get_item (set_item s collection itm merging).0 collection i ≡ some old
  unfolding get_item readable
  set_item-keeps_records s collection coll_id i itm old merging v known fresh room took here =
      let (id, there) =
        set_item-get_item s collection collection coll_id i itm merging known took in
      let number : (aimed s coll_id itm).id ≡ count_of s coll_id + 1 =
        aimed-fresh s coll_id itm fresh room in
      let within : i ≤ count_of s coll_id =
        let (content, file) = readable-some (lookup i (files_of s collection)) old here in
        v collection coll_id i content known file in
      let empty_place : get_item s collection (count_of s coll_id + 1) ≡ none =
        unreadable_at (lookup (count_of s coll_id + 1) (files_of s collection)) refl in
      let new_id : (stored s collection coll_id itm merging).id ≡ count_of s coll_id + 1 =
        ap (λ n. (overlay (get_item s collection n) (aimed s coll_id itm) merging).id) number
        ∙ ap (λ o. (overlay o (aimed s coll_id itm) merging).id) empty_place
        ∙ number in
      there ∙ ground (arith, nat_eq_iff (stored s collection coll_id itm merging).id i)
    where
      unreadable_at :
          (o : Option Content)
          → lookup (count_of s coll_id + 1) (files_of s collection) ≡ o
          → readable o ≡ none
      unreadable_at none e = refl
      unreadable_at (some content) e =
          let past : count_of s coll_id + 1 ≤ count_of s coll_id =
            v collection coll_id (count_of s coll_id + 1) content known e in
          absurd (omega (arith, past))
