-- ===== src/State/StoreMemory.antt =====
-- src/state/store_memory.rs: the store that keeps its collections in a map.
-- `Arc<Mutex<…>>` handles to one store are one state here.
pub mod Records
pub mod Pages
pub mod Users
use isabelle_core.Prelude.{
  ltb, leb, nat_eq, if◌then◌else◌, nat_eq_iff, Bool-cases, Option-cases, Eq, ◌==◌, nat_Eq,
  string_Eq, u64_max, saturating_add, saturating_mul, is_some, any, all, contains, Map, or_else,
  lookup, insert, remove, retain, contains_key, lookup-insert, lookup-remove, beq_refl, length,
  take, drop, starts_with, Casing, to_lowercase, to_lowercase, ℕ, zero, suc, ◌+◌, ◌-◌, ◌*◌, ◌/◌,
  ◌%◌, ◌^◌, ◌≤◌, ◌<◌, min, max, String, ◌≡◌, refl, sym, ap, ◌∙◌, subst, ◌≢◌, ◌↔◌, ◌⊎◌, inl, inr,
  Bool, true, false, ◌&&◌, ◌||◌, not, Option, none, some, get_or, List, [], ◌∷◌, ◌++◌, map, arith,
  eq_iff, eq_refl,
}
use isabelle_core.Item.{Item, ItemApi, new}
use isabelle_core.State.Store.{ListResult, UserLookup, Store, unavailable, checked, overlay, at_id}

pub record StoreMemory : Type 0 where
  pub collections : Map String (Map ℕ Item)
  pub internals : Item
  pub settings : Item
  pub unreachable : Bool

-- `unwrap_or_default()` of a collection that may be missing
abbrev pub or_empty : Option (Map ℕ Item) → Map ℕ Item
or_empty none = []
or_empty (some c) = c

abbrev pub collection_of : StoreMemory → String → Map ℕ Item
collection_of s collection = or_empty (lookup collection s.collections)

with_collections_from : List String → Map String (Map ℕ Item)
with_collections_from [] = []
with_collections_from (n ∷ ns) = insert n [] (with_collections_from ns)

unfoldable pub with_collections : ⦃api : ItemApi⦄ → List String → StoreMemory
unfolding with_collections_from
with_collections names = record {
  collections = with_collections_from names;
  internals = new;
  settings = new;
  unreachable = false;
}

unfoldable pub set_unreachable : StoreMemory → Bool → StoreMemory
set_unreachable s b = record s { unreachable = b }

-- `collections.entry(collection).or_default().insert(id, item)`
abbrev pub put : StoreMemory → String → ℕ → Item → StoreMemory
put s collection id item = record s {
  collections = insert collection (insert id item (collection_of s collection)) s.collections;
}

unfoldable pub seed : StoreMemory → String → Item → StoreMemory
seed s collection item = put s collection item.id item

unfoldable pub peek : StoreMemory → String → ℕ → Option Item
peek s collection id = lookup id (collection_of s collection)

unfoldable pub count : StoreMemory → String → ℕ
count s collection = length (collection_of s collection)

-- `keys().filter(|id| **id != u64::MAX).max()`
unfoldable pub max_id : Map ℕ Item → Option ℕ
max_id [] = none
max_id ((id, _) ∷ c) =
    let rest = max_id c in
    if id == u64_max then rest else some (elim rest [ none ↦ id | some m ↦ max id m ])

unfoldable pub next_id : StoreMemory → String → ℕ
unfolding max_id
next_id s collection = get_or (max_id (collection_of s collection)) 0 + 1

unfoldable pub get_item : StoreMemory → String → ℕ → Option Item
unfolding peek
get_item = peek

unfoldable pub get_collections : StoreMemory → List String
get_collections s = map (λ e. e.0) s.collections

unfoldable pub has_collection : StoreMemory → String → Bool
has_collection s collection = contains_key collection s.collections

unfoldable pub get_item_ids : StoreMemory → String → List ℕ
get_item_ids s collection = map (λ e. e.0) (collection_of s collection)

unfoldable pub get_all_items : StoreMemory → String → String → String → ListResult
get_all_items s collection sort_key filter = record {
  map = collection_of s collection;
  total_count = length (collection_of s collection);
}

-- The records between the bounds, `u64::MAX` standing for no bound, in the order of their ids.
unfoldable pub in_range : ℕ → ℕ → ℕ → Bool
in_range id_min id_max id =
    (id_min == u64_max || leb id_min id) && (id_max == u64_max || leb id id_max)

unfoldable pub insert_sorted : ℕ × Item → List (ℕ × Item) → List (ℕ × Item)
insert_sorted x [] = x ∷ []
insert_sorted x (y ∷ ys) = if leb x.0 y.0 then x ∷ y ∷ ys else y ∷ insert_sorted x ys

unfoldable pub sort_by_id : List (ℕ × Item) → List (ℕ × Item)
unfolding insert_sorted
sort_by_id [] = []
sort_by_id (x ∷ xs) = insert_sorted x (sort_by_id xs)

-- `if skip == u64::MAX { 0 } else { skip }`
unfoldable pub offset : ℕ → ℕ
offset skip = if skip == u64_max then 0 else skip

unfoldable pub get_items : StoreMemory → String → ℕ → ℕ → String → String → ℕ → ℕ → ListResult
unfolding in_range sort_by_id
get_items s collection id_min id_max sort_key filter skip limit =
    let ids =
      sort_by_id (retain (λ id _. in_range id_min id_max id) (collection_of s collection)) in
    record { map = take limit (drop (offset skip) ids); total_count = length ids }

-- The id that `set_item` files a record under.
abbrev pub target : StoreMemory → Item → String → ℕ
target s itm collection = if itm.id == u64_max then next_id s collection else itm.id

unfoldable pub set_item : ⦃api : ItemApi⦄ → StoreMemory → String → Item → Bool → StoreMemory × ℕ
set_item s collection itm merging =
    let id = target s itm collection in
    let stored = overlay (lookup id (collection_of s collection)) itm merging in
    (put s collection id (at_id stored id), id)

-- `get_mut(collection).map(|c| c.remove(&id).is_some()).unwrap_or(false)`
del_from : StoreMemory → String → ℕ → Option (Map ℕ Item) → StoreMemory × Bool
del_from s collection id none = (s, false)
del_from s collection id (some c) =
    (record s { collections = insert collection (remove id c) s.collections }, contains_key id c)

unfoldable pub del_item : StoreMemory → String → ℕ → StoreMemory × Bool
unfolding del_from
del_item s collection id = del_from s collection id (lookup collection s.collections)

unfoldable pub set_settings : StoreMemory → Item → StoreMemory × Bool
set_settings s itm = (record s { settings = itm }, true)

-- Does the field hold the login that is looked for, in any case?
value_matches : ⦃c : Casing⦄ → String → Option String → Bool
value_matches wanted none = false
value_matches wanted (some v) = to_lowercase v == wanted

unfoldable pub names_user : ⦃c : Casing⦄ → String → Item → Bool
unfolding value_matches
names_user wanted item =
    any (λ field. value_matches wanted (lookup field item.strs)) ("login" ∷ "email" ∷ [])

-- `values().find(p)`: the order of a `HashMap` is not specified, the order of the list is one.
unfoldable pub find_value : (Item → Bool) → Map ℕ Item → Option Item
find_value p [] = none
find_value p ((_, item) ∷ c) = if p item then some item else find_value p c

unfoldable pub find_user : ⦃c : Casing⦄ → StoreMemory → String → Option Item
unfolding names_user find_value
find_user s login = find_value (names_user (to_lowercase login)) (collection_of s "user")

unfoldable pub find_user_checked : ⦃c : Casing⦄ → StoreMemory → String → UserLookup
find_user_checked s login = if s.unreachable then unavailable else checked (find_user s login)

-- The trait, implemented.
instance abbrev pub memory : ⦃api : ItemApi⦄ ⦃c : Casing⦄ → Store StoreMemory
memory = record {
  get_collections = get_collections;
  has_collection = has_collection;
  get_item_ids = get_item_ids;
  get_all_items = get_all_items;
  get_item = get_item;
  get_items = get_items;
  set_item = set_item;
  del_item = del_item;
  get_internals = λ s. s.internals;
  get_settings = λ s. s.settings;
  set_settings = set_settings;
  find_user = find_user;
  find_user_checked = find_user_checked;
}
