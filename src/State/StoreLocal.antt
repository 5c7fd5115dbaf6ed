-- ===== src/State/StoreLocal.antt =====
-- src/state/store_local.rs: the store that keeps every record in a file of its own.
-- The data files of a collection stand under its name; `torn` is a file that does not parse. Does a
-- write succeed? That is an interface. A call that panics answers `none`; the paths of the
-- credentials are left out.
pub mod Connected
pub mod Connecting
pub mod Counted
pub mod Reading
pub mod Writing
use isabelle_core.Prelude.{
  ltb, leb, nat_eq, if◌then◌else◌, nat_eq_iff, Bool-cases, Option-cases, ◌>>=◌, Eq, ◌==◌, nat_Eq,
  string_Eq, u64_max, saturating_add, saturating_mul, is_some, any, all, contains, nat_eq_refl, Map,
  or_else, lookup, insert, remove, retain, contains_key, lookup-insert, lookup-remove, beq_refl,
  Distinct, insert-Distinct, remove-Distinct, is_empty, starts_with, append, contains_text,
  any_char, ends_with_char, first_part, split_on, is_whitespace, is_control, trim_start, trim_end,
  trim, to_ascii_lowercase, eq_ignore_ascii_case, rsplit_once, split_once, split_once-append,
  strip_prefix, trim_end-append, trim_start_matches, trim_end_matches, ends_with, split_when,
  text_leb, text_leb-total, text_leb_trans, utf8, as_bytes, as_bytes_injective, Casing,
  to_lowercase, to_lowercase, length, take, drop, length-take-le, take-append_all, drop-append_all,
  length-append, window-append, All, All-take, All-drop, digit_char, digits_from, to_decimal,
  scan_digits, parse_digits, parse_u64, is_number, to_decimal-is_number, parse_u64-to_decimal, ℕ,
  zero, suc, ◌+◌, ◌-◌, ◌*◌, ◌/◌, ◌%◌, ◌^◌, ◌≤◌, ◌<◌, min, max, String, ◌≡◌, refl, sym, ap, ◌∙◌,
  subst, ◌≢◌, ◌↔◌, ◌⊎◌, inl, inr, Bool, true, false, ◌&&◌, ◌||◌, not, Option, none, some, get_or,
  List, [], ◌∷◌, ◌++◌, map, arith, eq_iff, eq_refl,
}
use isabelle_core.Item.{Item, ItemApi, new}
use isabelle_core.State.Store.{ListResult, overlay}
use isabelle_core.State.StoreMemory.{names_user, find_value}

pub data Content : Type 0 where
  whole : Item → Content
  torn : Content

-- `files` are those under `collection/`, `astray` the directories that stand beside it.
pub record StoreLocal : Type 0 where
  pub collections : Map String ℕ
  pub items : Map ℕ (Map ℕ Bool)
  pub items_count : Map ℕ ℕ
  pub internals_cache : Option Item
  pub files : Map String (Map ℕ Content)
  pub astray : Map String (Map ℕ Bool)
  pub counters : Map String ℕ
  pub settings_file : Option Content
  pub internals_file : Option Content

-- Do the writes of a record, of a counter and of the settings succeed?
pub record LocalDisk : Type 0 where
  pub write_item : String → ℕ → Item → Bool
  pub write_counter : String → ℕ → Bool
  pub write_settings : Item → Bool

-- `StoreLocal::new`
abbrev pub new_local : StoreLocal
new_local = record {
  collections = [];
  items = [];
  items_count = [];
  internals_cache = none;
  files = [];
  astray = [];
  counters = [];
  settings_file = none;
  internals_file = none;
}

unfoldable pub readable : Option Content → Option Item
readable none = none
readable (some torn) = none
readable (some (whole itm)) = some itm

abbrev pub files_of : StoreLocal → String → Map ℕ Content
files_of s collection = get_or (lookup collection s.files) []

unfoldable pub get_collections : StoreLocal → List String
get_collections s = map (λ e. e.0) s.collections

unfoldable pub has_collection : StoreLocal → String → Bool
has_collection s collection = contains_key collection s.collections

unfoldable pub ids_of : StoreLocal → Option ℕ → Map ℕ Bool
ids_of s none = []
ids_of s (some coll_id) = get_or (lookup coll_id s.items) []

unfoldable pub get_item_ids : StoreLocal → String → Map ℕ Bool
unfolding ids_of
get_item_ids s collection = ids_of s (lookup collection s.collections)

unfoldable pub get_item : StoreLocal → String → ℕ → Option Item
unfolding readable
get_item s collection id = readable (lookup id (files_of s collection))

-- `sort_unstable` on the ids that are in range
unfoldable pub insert_id : ℕ → List ℕ → List ℕ
insert_id id [] = id ∷ []
insert_id id (j ∷ js) = let rest = insert_id id js in if leb id j then id ∷ j ∷ js else j ∷ rest

unfoldable pub ids_in_range : ℕ → ℕ → Map ℕ Bool → List ℕ
unfolding insert_id
ids_in_range id_min id_max [] = []
ids_in_range id_min id_max ((id, _) ∷ m) =
    let rest = ids_in_range id_min id_max m in
    if leb id_min id && leb id id_max then insert_id id rest else rest

unfoldable pub listed : ℕ → Option Item → Map ℕ Item → Map ℕ Item
listed id none m = m
listed id (some item) m = insert id item m

-- The loop over the ids: `count` runs on, and the loop breaks at the limit.
unfoldable pub collect : StoreLocal → String → ℕ → ℕ → List ℕ → ℕ → Map ℕ Item → Map ℕ Item
unfolding listed
collect s collection skip limit [] count m = m
collect s collection skip limit (id ∷ ids) count m =
    let taken =
      collect s collection skip limit ids (count + 1) (listed id (get_item s collection id) m) in
    let passed = collect s collection skip limit ids (count + 1) m in
    if ltb count skip then passed else if leb limit (count - skip) then m else taken

unfoldable pub get_items : StoreLocal → String → ℕ → ℕ → String → String → ℕ → ℕ → Option ListResult
unfolding ids_in_range collect
get_items s collection id_min id_max sort_key filter skip limit =
    lookup collection s.collections >>= λ coll_id.
    let ids =
      ids_in_range (if id_min == u64_max then 0 else id_min) id_max
        (get_or (lookup coll_id s.items) []) in
    some (record {
      map = collect s collection (if skip == u64_max then 0 else skip) limit ids 0 [];
      total_count = length ids;
    })

unfoldable pub get_all_items : StoreLocal → String → String → String → Option ListResult
unfolding get_items
get_all_items s collection sort_key filter =
    get_items s collection u64_max u64_max sort_key filter u64_max u64_max

-- `itm.bools.remove("__security_preserve")`
unfoldable pub preserve_dropped : Item → Item
preserve_dropped itm = record itm { bools = remove "__security_preserve" itm.bools }

abbrev pub count_of : StoreLocal → ℕ → ℕ
count_of s coll_id = get_or (lookup coll_id s.items_count) 0

-- The next number, which is taken at once.
unfoldable pub allocated : StoreLocal → ℕ → StoreLocal
allocated s coll_id = record s {
  items_count = insert coll_id (saturating_add (count_of s coll_id) 1) s.items_count;
}

-- `items.get_mut(&coll_id)`, then the id is known or forgotten
unfoldable pub known_in : ℕ → ℕ → Option (Map ℕ Bool) → Map ℕ (Map ℕ Bool) → Map ℕ (Map ℕ Bool)
known_in coll_id id none items = items
known_in coll_id id (some coll) items = insert coll_id (insert id true coll) items

-- The directory and the file, once `write_json` has succeeded.
unfoldable pub filed : StoreLocal → String → ℕ → Item → StoreLocal
unfolding known_in
filed s collection coll_id itm = record s {
  files = insert collection (insert itm.id (whole itm) (files_of s collection)) s.files;
  items = known_in coll_id itm.id (lookup coll_id s.items) s.items;
}

module _ ⦃disk : LocalDisk⦄ where
  -- The counter follows the largest id, and its file, if that can be written.
  unfoldable pub counted : StoreLocal → String → ℕ → ℕ → StoreLocal
  counted s collection coll_id id =
      if leb (count_of s coll_id) id
      then record s {
        items_count = insert coll_id id s.items_count;
        counters =
            if disk.write_counter collection id
            then insert collection id s.counters
            else s.counters;
      }
      else s

  unfoldable pub written : StoreLocal → String → ℕ → Item → StoreLocal × ℕ
  unfolding filed counted
  written s collection coll_id itm =
      if disk.write_item collection itm.id itm
      then (counted (filed s collection coll_id itm) collection coll_id itm.id, itm.id)
      else (s, u64_max)

module _ ⦃api : ItemApi⦄ ⦃disk : LocalDisk⦄ where
  unfoldable pub store_item : StoreLocal → String → ℕ → Item → Bool → StoreLocal × ℕ
  unfolding written
  store_item s collection coll_id itm merging =
      written s collection coll_id (overlay (get_item s collection itm.id) itm merging)

  unfoldable pub set_in : StoreLocal → String → Option ℕ → Item → Bool → StoreLocal × ℕ
  unfolding allocated store_item
  set_in s collection none itm merging = (s, u64_max)
  set_in s collection (some coll_id) itm merging =
      if itm.id == u64_max
      then store_item (allocated s coll_id) collection coll_id
          (record itm { id = saturating_add (count_of s coll_id) 1 }) merging
      else store_item s collection coll_id itm merging

  unfoldable pub set_item : StoreLocal → String → Item → Bool → StoreLocal × ℕ
  unfolding preserve_dropped set_in
  set_item s collection exp_itm merging =
      set_in s collection (lookup collection s.collections) (preserve_dropped exp_itm) merging

-- `del_item` looks for the directory beside `collection/`, not in it; a removal that fails is
-- ignored.
unfoldable pub astray_removed : StoreLocal → String → ℕ → StoreLocal
astray_removed s collection id = record s {
  astray = insert collection (remove id (get_or (lookup collection s.astray) [])) s.astray;
}

unfoldable pub forget : StoreLocal → ℕ → ℕ → Option (Map ℕ Bool) → StoreLocal × Bool
forget s coll_id id none = (s, false)
forget s coll_id id (some coll) =
    if contains_key id coll
    then (record s { items = insert coll_id (remove id coll) s.items }, true)
    else (s, false)

unfoldable pub del_item : StoreLocal → String → ℕ → Option (StoreLocal × Bool)
unfolding astray_removed forget
del_item s collection id = lookup collection s.collections >>= λ coll_id.
    some (forget (astray_removed s collection id) coll_id id (lookup coll_id s.items))

-- `read_config_or_empty`
unfoldable pub read_config_or_empty : ⦃api : ItemApi⦄ → Option Content → Item
unfolding readable
read_config_or_empty file = get_or (readable file) new

unfoldable pub internals_from : ⦃api : ItemApi⦄ → StoreLocal → Option Item → StoreLocal × Item
unfolding read_config_or_empty
internals_from s (some item) = (s, item)
internals_from s none =
    let itm = read_config_or_empty s.internals_file in
    (record s { internals_cache = some itm }, itm)

unfoldable pub get_internals : ⦃api : ItemApi⦄ → StoreLocal → StoreLocal × Item
unfolding internals_from
get_internals s = internals_from s s.internals_cache

unfoldable pub get_settings : ⦃api : ItemApi⦄ → StoreLocal → Item
unfolding read_config_or_empty
get_settings s = read_config_or_empty s.settings_file

unfoldable pub set_settings : ⦃disk : LocalDisk⦄ → StoreLocal → Item → StoreLocal × Bool
set_settings ⦃disk⦄ s itm =
    if disk.write_settings itm
    then (record s { settings_file = some (whole itm) }, true)
    else (s, false)

unfoldable pub find_in : ⦃c : Casing⦄ → String → Option ListResult → Option (Option Item)
find_in wanted none = none
find_in wanted (some users) = some (find_value (names_user wanted) users.map)

unfoldable pub find_user : ⦃c : Casing⦄ → StoreLocal → String → Option (Option Item)
unfolding get_all_items find_in
find_user s login = find_in (to_lowercase login) (get_all_items s "user" "" "")
