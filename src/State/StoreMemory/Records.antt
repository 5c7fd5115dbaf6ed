-- ===== src/State/StoreMemory/Records.antt =====
-- src/state/store_memory.rs: what a write, an allocation and a removal do to the records.
use isabelle_core.Prelude.{
  if◌then◌else◌, Bool-cases, ◌==◌, nat_Eq, string_Eq, u64_max, is_some, nat_eq_refl, Map, lookup,
  insert, lookup-insert, lookup-remove, ℕ, ◌+◌, ◌<◌, String, ◌≡◌, refl, sym, ap, ◌∙◌, ◌≢◌, inl, inr,
  Bool, ◌&&◌, Option, none, some, get_or, [], ◌∷◌, arith, eq_iff, eq_refl,
}
use isabelle_core.Item.{Item, ItemApi}
use isabelle_core.State.Store.{overlay, at_id}
use isabelle_core.State.StoreMemory.{
  StoreMemory, or_empty, collection_of, put, max_id, next_id, get_item, set_item, del_item, target,
  del_from,
}

pub collection_of-insert :
    (s : StoreMemory) (c d : String) (m : Map ℕ Item)
    → or_empty (lookup d (insert c m s.collections)) ≡ (if c == d then m else collection_of s d)
collection_of-insert s c d m = rw lookup-insert (ground arith)

get_item-put :
    (s : StoreMemory) (c d : String) (id j : ℕ) (itm : Item)
    → get_item (put s c id itm) d j ≡ (if c == d && id == j then some itm else get_item s d j)
unfolding get_item
get_item-put s c d id j itm =
    rw collection_of-insert (ground (arith, eq_iff c d, lookup-insert id j itm (collection_of s c)))

-- A write is read back under the id that it answers, laid over what was there; every other
-- record of every collection is as before.
pub get_item-set_item :
    ⦃api : ItemApi⦄ (s : StoreMemory) (c d : String) (itm : Item) (merging : Bool) (j : ℕ)
    → get_item (set_item s c itm merging).0 d j ≡ (
        if c == d && (set_item s c itm merging).1 == j
        then some (at_id (overlay (get_item s c (target s itm c)) itm merging) (target s itm c))
        else get_item s d j)
unfolding set_item
get_item-set_item s c d itm merging j =
    unfold get_item in
    get_item-put s c d (target s itm c) j
      (at_id (overlay (get_item s c (target s itm c)) itm merging) (target s itm c))

-- The largest id other than `u64::MAX` bounds every other id.
lookup-above_max_id :
    (c : Map ℕ Item) (id : ℕ) → get_or (max_id c) 0 < id → id ≢ u64_max → lookup id c ≡ none
unfolding lookup max_id
lookup-above_max_id [] id h ne = refl
lookup-above_max_id ((j, itm) ∷ c) id h ne = ground (arith, lookup-above_max_id c id)

target_of_new :
    (s : StoreMemory) (c : String) (itm : Item) → itm.id ≡ u64_max → target s itm c ≡ next_id s c
target_of_new s c itm e = ground arith

get_item-next_id :
    (s : StoreMemory) (c : String) → next_id s c ≢ u64_max → get_item s c (next_id s c) ≡ none
unfolding get_item next_id
get_item-next_id s c room =
    lookup-above_max_id (collection_of s c) (get_or (max_id (collection_of s c)) 0 + 1)
      (omega arith) room

-- A record written without an id of its own gets an id that no record of the collection has, unless
-- the ids are used up, and it is stored as it was sent.
pub set_item_fresh :
    ⦃api : ItemApi⦄ (s : StoreMemory) (c : String) (itm : Item) (merging : Bool)
    → itm.id ≡ u64_max
    → (set_item s c itm merging).1 ≢ u64_max
    → (get_item s c (set_item s c itm merging).1 ≡ none)
      × (get_item (set_item s c itm merging).0 c (set_item s c itm merging).1
          ≡ some (at_id itm (set_item s c itm merging).1))
unfolding set_item
set_item_fresh s c itm merging new_one room =
    let e : target s itm c ≡ next_id s c = target_of_new s c itm new_one in
    let fresh : get_item s c (target s itm c) ≡ none =
      rw e (get_item-next_id s c (λ h. room (e ∙ h))) in
    (
      fresh,
      get_item-set_item s c c itm merging (target s itm c)
          ∙ rw (eq_refl c, fresh, nat_eq_refl (target s itm c)),
    )

get_item-missing :
    (s : StoreMemory) (c : String) (id : ℕ) → lookup c s.collections ≡ none → get_item s c id ≡ none
unfolding get_item lookup
get_item-missing s c id e = rw e

delete_missing :
    (s : StoreMemory) (c d : String) (id j : ℕ)
    → lookup c s.collections ≡ none
    → get_item s d j ≡ (if c == d && id == j then none else get_item s d j)
delete_missing s c d id j e = elim (Bool-cases (c == d)) [
  | inl same ↦
      let gone : get_item s d j ≡ none = rw (← (eq_iff c d).0 same) (get_item-missing s c j e) in
      rw gone (ground arith)
  | inr other ↦ rw other
]

delete_lem :
    (s : StoreMemory) (c d : String) (id j : ℕ) (m : Option (Map ℕ Item))
    → lookup c s.collections ≡ m
    → (get_item (del_from s c id m).0 d j ≡ (if c == d && id == j then none else get_item s d j))
      × ((del_from s c id m).1 ≡ is_some (get_item s c id))
unfolding del_from
delete_lem s c d id j none e =
    (delete_missing s c d id j e, ap is_some (sym (get_item-missing s c id e)))
delete_lem s c d id j (some m) e =
    unfold get_item in
    (rw collection_of-insert (ground (arith, eq_iff c d, lookup-remove id j m)), rw e)

-- Removal: the record is gone, it is reported exactly when it was there, and nothing else changes.
pub get_item-del_item :
    (s : StoreMemory) (c d : String) (id j : ℕ)
    → (get_item (del_item s c id).0 d j ≡ (if c == d && id == j then none else get_item s d j))
      × ((del_item s c id).1 ≡ is_some (get_item s c id))
unfolding del_item
get_item-del_item s c d id j = delete_lem s c d id j (lookup c s.collections) refl
