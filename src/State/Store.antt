-- ===== src/State/Store.antt =====
-- src/state/store.rs: the trait `Store`, as an interface over the type of states.
-- `async` methods that write return the new state; `connect`, `disconnect` and the paths of
-- credential files are left out.
use isabelle_core.Prelude.{
  sym, ◌∙◌, beq_refl, arith, if◌then◌else◌, ◌==◌, nat_Eq, string_Eq, u64_max, Map, lookup, ℕ,
  String, ◌≡◌, ◌≢◌, ◌⊎◌, Bool, ◌&&◌, Option, none, some, List,
}
use isabelle_core.Item.{Item, ItemApi, merge}

-- `ListResult` of `isabelle_dm`: the page, and how many records there are in all. The page is a
-- `HashMap`: the order of the list that stands for it means nothing.
pub record ListResult : Type 0 where
  pub map : Map ℕ Item
  pub total_count : ℕ

-- What a write stores: with `merge` the fields lie over the record that was there.
abbrev pub overlay : ⦃api : ItemApi⦄ → Option Item → Item → Bool → Item
overlay none itm merging = itm
overlay (some old) itm merging = if merging then merge old itm else itm

-- A record under the id that it is filed by.
abbrev pub at_id : Item → ℕ → Item
at_id itm id = record itm { id = id }

pub data UserLookup : Type 0 where
  found : Item → UserLookup
  absent : UserLookup
  unavailable : UserLookup

unfoldable pub into_option : UserLookup → Option Item
into_option (found itm) = some itm
into_option absent = none
into_option unavailable = none

-- The default body of `find_user_checked`.
unfoldable pub checked : Option Item → UserLookup
checked (some itm) = found itm
checked none = absent

pub record Store (S : Type 0) : Type 0 where
  pub get_collections : S → List String
  pub has_collection : S → String → Bool
  pub get_item_ids : S → String → List ℕ
  pub get_all_items : S → String → String → String → ListResult
  pub get_item : S → String → ℕ → Option Item
  pub get_items : S → String → ℕ → ℕ → String → String → ℕ → ℕ → ListResult
  pub set_item : S → String → Item → Bool → S × ℕ
  pub del_item : S → String → ℕ → S × Bool
  pub get_internals : S → Item
  pub get_settings : S → Item
  pub set_settings : S → Item → S × Bool
  pub find_user : S → String → Option Item
  pub find_user_checked : S → String → UserLookup

-- Do two records answer to the same login and e-mail address?
abbrev pub SameNames : Item → Item → Type 0
SameNames a b =
    (lookup "login" a.strs ≡ lookup "login" b.strs)
    × (lookup "email" a.strs ≡ lookup "email" b.strs)

-- What the callers of a store rely on. A write answers `u64::MAX` when it was refused.
-- `Valid` is the store's own invariant.
pub record StoreLaws (S : Type 0) ⦃api : ItemApi⦄ ⦃st : Store S⦄ : Type 1 where
  pub Valid : S → Type 0
  pub set_item-Valid :
      (s : S) (c : String) (itm : Item) (merging : Bool)
      → Valid s
      → Valid (st.set_item s c itm merging).0
  pub get_item-set_item :
      (s : S) (c d : String) (itm : Item) (merging : Bool) (j : ℕ)
      → itm.id ≢ u64_max
      → (st.set_item s c itm merging).1 ≢ u64_max
      → st.get_item (st.set_item s c itm merging).0 d j ≡ (
          if c == d && itm.id == j
          then some (at_id (overlay (st.get_item s c itm.id) itm merging) itm.id)
          else st.get_item s d j)
  pub internals-set_item :
      (s : S) (c : String) (itm : Item) (merging : Bool)
      → st.get_internals (st.set_item s c itm merging).0 ≡ st.get_internals s
  pub get_item-find_user :
      (s : S) (login : String) (u : Item)
      → Valid s
      → st.find_user s login ≡ some u
      → st.get_item s "user" u.id ≡ some u
  pub find_user-set_item :
      (s : S) (login : String) (u itm : Item) (merging : Bool)
      → Valid s
      → st.find_user s login ≡ some u
      → itm.id ≡ u.id
      → itm.id ≢ u64_max
      → (st.set_item s "user" itm merging).1 ≢ u64_max
      → SameNames (overlay (some u) itm merging) u
      → st.find_user (st.set_item s "user" itm merging).0 login
        ≡ some (at_id (overlay (some u) itm merging) u.id)
  pub find_user_checked_lem :
      (s : S) (login : String)
      → (st.find_user_checked s login ≡ unavailable)
        ⊎ (st.find_user_checked s login ≡ checked (st.find_user s login))

module _ {S : Type 0} ⦃api : ItemApi⦄ ⦃st : Store S⦄ ⦃laws : StoreLaws S⦄ where
  -- What is read back under the id that was written, if the store took the write.
  pub get_item-written :
      (s : S) (c : String) (itm : Item) (merging : Bool) (id : ℕ)
      → itm.id ≡ id
      → id ≢ u64_max
      → (st.set_item s c itm merging).1 ≢ u64_max
      → st.get_item (st.set_item s c itm merging).0 c id
        ≡ some (at_id (overlay (st.get_item s c id) itm merging) id)
  get_item-written s c itm merging id same own stored =
      laws.get_item-set_item s c c itm merging id (λ e. own (sym same ∙ e)) stored
      ∙ rw same (ground (arith, beq_refl c, beq_refl id))
