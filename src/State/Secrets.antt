-- ===== src/State/Secrets.antt =====
-- src/state/secrets.rs: the encrypted store of secrets.
-- The cipher and the disk are one interface: `flush` is what `flush_state` answers, since the
-- entries are serialised, encrypted and written in one step.
pub mod Adoption
pub mod Index
pub mod Masking
pub mod Opening
pub mod Operations
pub mod Writing
use isabelle_core.Prelude.{
  ltb, leb, nat_eq, if◌then◌else◌, nat_eq_iff, Bool-cases, Option-cases, ◌>>=◌, Eq, ◌==◌, nat_Eq,
  string_Eq, u64_max, saturating_add, saturating_mul, is_some, any, all, contains, nat_eq_refl, Map,
  or_else, lookup, insert, remove, retain, contains_key, lookup-insert, lookup-remove, beq_refl,
  Distinct, insert-Distinct, remove-Distinct, is_empty, starts_with, append, contains_text,
  any_char, ends_with_char, first_part, split_on, is_whitespace, is_control, trim_start, trim_end,
  trim, to_ascii_lowercase, eq_ignore_ascii_case, rsplit_once, trim_start_matches, trim_end_matches,
  ends_with, split_when, text_leb, utf8, as_bytes, as_bytes_injective, Casing, to_lowercase,
  to_lowercase, length, take, drop, length-take-le, take-append_all, drop-append_all, length-append,
  window-append, All, All-take, All-drop, ℕ, zero, suc, ◌+◌, ◌-◌, ◌*◌, ◌/◌, ◌%◌, ◌^◌, ◌≤◌, ◌<◌, min,
  max, String, ◌≡◌, refl, sym, ap, ◌∙◌, subst, ◌≢◌, ◌↔◌, ◌⊎◌, inl, inr, Bool, true, false, ◌&&◌,
  ◌||◌, not, Option, none, some, get_or, List, [], ◌∷◌, ◌++◌, map, arith, eq_iff, eq_refl,
}
use isabelle_core.Item.{Item, ItemApi, merge, set_str}
use mathlib.Core.Option

abbrev pub name_field : String
name_field = "name"

abbrev pub hidden_placeholder : String
hidden_placeholder = "<hidden>"

abbrev pub global_prefix : String
global_prefix = "global."

-- `METADATA_KEYS`
abbrev pub metadata_keys : List String
metadata_keys = "name" ∷ "comment" ∷ "description" ∷ []

unfoldable pub is_secret_key : ⦃c : Casing⦄ → String → Bool
is_secret_key k = not (contains metadata_keys (to_lowercase k))

unfoldable pub is_global_name : ⦃c : Casing⦄ → String → Bool
is_global_name name = starts_with (to_lowercase (trim name)) "global"

unfoldable pub global_name : String → String
global_name name = append global_prefix name

pub record SecretStore : Type 0 where
  pub entries : Map ℕ Item
  pub name_index : Map String ℕ
  pub next_id : ℕ

-- The errors by their `io::ErrorKind`.
pub data Error : Type 0 where
  invalid_input : Error
  already_exists : Error
  flush_failed : Error

pub data Result {ℓ} (A : Type ℓ) : Type ℓ where
  ok : A → Result A
  err : Error → Result A

-- Encrypting and writing the entries and the next id: does it succeed?
pub record Disk : Type 0 where
  pub flush : Map ℕ Item → ℕ → Bool

unfoldable pub get : SecretStore → ℕ → Option Item
get s id = lookup id s.entries

unfoldable pub get_at : SecretStore → Option ℕ → Option Item
get_at s none = none
get_at s (some id) = lookup id s.entries

unfoldable pub get_by_name : SecretStore → String → Option Item
unfolding get_at
get_by_name s name = get_at s (lookup name s.name_index)

-- Every secret value of the entry replaced by the placeholder.
unfoldable pub mask_strs : ⦃c : Casing⦄ → Map String String → Map String String
mask_strs [] = []
mask_strs ((k, v) ∷ m) = (k, if is_secret_key k then hidden_placeholder else v) ∷ mask_strs m

unfoldable pub mask : ⦃c : Casing⦄ → Item → Item
unfolding mask_strs
mask it = record it { strs = mask_strs it.strs }

unfoldable pub get_masked : ⦃c : Casing⦄ → SecretStore → ℕ → Option Item
unfolding mask
get_masked s id = Option.map mask (lookup id s.entries)

-- `existing.as_ref().and_then(|e| e.strs.get(k))`
abbrev pub previous : Option Item → String → Option String
previous none k = none
previous (some e) k = lookup k e.strs

unfoldable pub is_placeholder : Option String → Bool
is_placeholder none = false
is_placeholder (some v) = v == hidden_placeholder

unfoldable pub put_back : String → Option String → Map String String → Map String String
put_back k none m = remove k m
put_back k (some prev) m = insert k prev m

-- One secret key of the item: the placeholder means the value that was there.
unfoldable pub restore_key : Option Item → String → Map String String → Map String String
unfolding is_placeholder put_back
restore_key existing k m =
    if is_placeholder (lookup k m) then put_back k (previous existing k) m else m

-- The loop over the secret keys, which are collected before it.
unfoldable pub restore_keys : Option Item → List String → Map String String → Map String String
restore_keys existing [] m = m
restore_keys existing (k ∷ ks) m = restore_keys existing ks (restore_key existing k m)

unfoldable pub secret_keys : ⦃c : Casing⦄ → Map String String → List String
secret_keys [] = []
secret_keys ((k, v) ∷ m) = let rest = secret_keys m in if is_secret_key k then k ∷ rest else rest

unfoldable pub restore : ⦃c : Casing⦄ → Option Item → Item → Item
unfolding restore_keys secret_keys restore_key
restore existing it = record it { strs = restore_keys existing (secret_keys it.strs) it.strs }

-- The entry that `set` is about to write, before its id is settled.
unfoldable pub merged : ⦃api : ItemApi⦄ → Option Item → Item → Bool → Item
merged none item merging = item
merged (some e) item merging = if merging then merge e item else item

unfoldable pub final_item : ⦃api : ItemApi⦄ ⦃c : Casing⦄ → Option Item → Item → Bool → Item
unfolding merged restore
final_item existing item merging = restore existing (merged existing item merging)

unfoldable pub target_id : SecretStore → Item → ℕ
target_id s item = if item.id == u64_max then s.next_id else item.id

-- `index.get(&p).copied() == Some(id)`
unfoldable pub is_at : Option ℕ → ℕ → Bool
is_at none id = false
is_at (some j) id = j == id

unfoldable pub is_other : Option ℕ → ℕ → Bool
is_other none id = false
is_other (some other) id = not (other == id)

-- Is the name taken by another entry?
unfoldable pub taken_by_other : SecretStore → String → ℕ → Bool
unfolding is_other
taken_by_other s name id = is_other (lookup name s.name_index) id

-- The name index after the entry `id` has taken `name`.
unfoldable pub drop_name : Option String → String → ℕ → Map String ℕ → Map String ℕ
drop_name none name id index = index
drop_name (some p) name id index =
    if not (p == name) && is_at (lookup p index) id then remove p index else index

unfoldable pub reindex : Option String → String → ℕ → Map String ℕ → Map String ℕ
unfolding drop_name
reindex prev name id index = insert name id (drop_name prev name id index)

abbrev pub name_of : Item → String
name_of it = get_or (lookup name_field it.strs) ""

unfoldable pub unindex : Option String → ℕ → Map String ℕ → Map String ℕ
unindex none id index = index
unindex (some name) id index = if is_at (lookup name index) id then remove name index else index

unfoldable pub written : ⦃api : ItemApi⦄ ⦃c : Casing⦄ → SecretStore → Item → Bool → Item
written s item merging = final_item (lookup (target_id s item) s.entries) item merging

-- The store once the entry is written: `item` stands at `id`, under its name.
unfoldable pub committed : SecretStore → ℕ → Item → SecretStore
committed s id it = record {
  entries = insert id (record it { id = id }) s.entries;
  name_index = reindex (previous (lookup id s.entries) name_field) (name_of it) id s.name_index;
  next_id = max s.next_id (saturating_add id 1);
}

-- The store once the entry `removed`, which stood at `id`, is gone.
unfoldable pub discarded : SecretStore → ℕ → Item → SecretStore
unfolding unindex
discarded s id removed = record s {
  entries = remove id s.entries;
  name_index = unindex (lookup name_field removed.strs) id s.name_index;
}

module _ ⦃api : ItemApi⦄ ⦃c : Casing⦄ ⦃disk : Disk⦄ where
  -- Nothing in memory changes before the new state is on disk.
  unfoldable pub flushed : {A : Type 0} → SecretStore → SecretStore → A → SecretStore × Result A
  flushed s next a =
      if disk.flush next.entries next.next_id then (next, ok a) else (s, err flush_failed)

  -- The rest of `set`, once the entry to write is known.
  unfoldable pub commit : SecretStore → ℕ → Item → SecretStore × Result ℕ
  unfolding committed flushed
  commit s id it =
      if is_empty (name_of it)
      then (s, err invalid_input)
      else if taken_by_other s (name_of it) id
      then (s, err already_exists)
      else flushed s (committed s id it) id

  unfoldable pub set : SecretStore → Item → Bool → SecretStore × Result ℕ
  set s item merging = commit s (target_id s item) (written s item merging)

  unfoldable pub del_entry : SecretStore → ℕ → Option Item → SecretStore × Result Bool
  unfolding discarded flushed
  del_entry s id none = (s, ok false)
  del_entry s id (some removed) = flushed s (discarded s id removed) true

  unfoldable pub del : SecretStore → ℕ → SecretStore × Result Bool
  del s id = del_entry s id (lookup id s.entries)

  -- One name of the loop of `adopt_global_names`: the new name where the entry was moved.
  unfoldable pub adopted : String → SecretStore × Result ℕ → SecretStore × Result (Option String)
  adopted target (s, ok _) = (s, ok (some target))
  adopted target (s, err e) = (s, err e)

  unfoldable pub adopt_at :
      SecretStore → String → Option Item → SecretStore × Result (Option String)
  unfolding adopted
  adopt_at s target none = (s, ok none)
  adopt_at s target (some item) = adopted target (set s (set_str item name_field target) false)

  unfoldable pub adopt_one : SecretStore → String → SecretStore × Result (Option String)
  unfolding adopt_at
  adopt_one s name =
      if is_some (lookup (global_name name) s.name_index)
      then (s, ok none)
      else adopt_at s (global_name name) (get_by_name s name)
