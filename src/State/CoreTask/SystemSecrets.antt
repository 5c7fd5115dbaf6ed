-- ===== src/State/CoreTask/SystemSecrets.antt =====
-- src/state/core_task.rs: the secrets that a plugin may write.
use isabelle_core.Prelude.{
  if◌then◌else◌, ◌==◌, nat_Eq, string_Eq, u64_max, lookup, remove, lookup-remove, starts_with, trim,
  as_bytes, Casing, length, ℕ, String, ◌≡◌, refl, sym, subst, Bool, true, false, ◌||◌, not, Option,
  none, some, arith,
}
use isabelle_core.Item.{Item, ItemApi, safe_str, set_str}
use isabelle_core.State.Secrets.{
  SecretStore, Disk, Result, ok, err, global_prefix, get_by_name, set, del, written, name_of,
  target_id, merged, restore, final_item,
}
use isabelle_core.State.Secrets.Operations.{set-get_by_name}
use isabelle_core.Server.Owner.{field_owner}

-- What a plugin is told.
pub data Told (A : Type 0) : Type 0 where
  told : A → Told A
  not_system : Told A
  no_store : Told A
  not_stored : Told A

-- `system_secret_name`
unfoldable pub system_secret_name : String → Option String
system_secret_name name =
    if not (starts_with (trim name) global_prefix)
      || length (as_bytes (trim name)) == length (as_bytes global_prefix)
    then none
    else some (trim name)

unfoldable pub id_of : Option Item → ℕ
id_of none = u64_max
id_of (some it) = it.id

module _ ⦃api : ItemApi⦄ where
  -- The entry that is written: over the one of that name, and without an owner.
  unfoldable pub system_item : SecretStore → Item → String → Item
  unfolding id_of
  system_item store item name =
      let named = set_str (record item { id = id_of (get_by_name store name) }) "name" name in
      record named { ids = remove field_owner named.ids }

unfoldable pub set_told : SecretStore × Result ℕ → Option SecretStore × Told Unit
set_told (s, ok _) = (some s, told tt)
set_told (s, err e) = (some s, not_stored)

unfoldable pub del_told : SecretStore × Result Bool → Option SecretStore × Told Bool
del_told (s, ok found) = (some s, told found)
del_told (s, err e) = (some s, not_stored)

module _ ⦃api : ItemApi⦄ ⦃c : Casing⦄ ⦃disk : Disk⦄ where
  unfoldable pub set_named :
      Option SecretStore → Item → Option String → Option SecretStore × Told Unit
  unfolding system_item set_told
  set_named secrets item none = (secrets, not_system)
  set_named none item (some name) = (none, no_store)
  set_named (some store) item (some name) = set_told (set store (system_item store item name) false)

  unfoldable pub system_secret_set : Option SecretStore → Item → Option SecretStore × Told Unit
  unfolding system_secret_name set_named
  system_secret_set secrets item =
      set_named secrets item (system_secret_name (safe_str item "name" ""))

  unfoldable pub del_found : SecretStore → Option Item → Option SecretStore × Told Bool
  unfolding del_told
  del_found store none = (some store, told false)
  del_found store (some existing) = del_told (del store existing.id)

  unfoldable pub del_named : Option SecretStore → Option String → Option SecretStore × Told Bool
  unfolding del_found
  del_named secrets none = (secrets, not_system)
  del_named none (some name) = (none, no_store)
  del_named (some store) (some name) = del_found store (get_by_name store name)

  unfoldable pub system_secret_del : Option SecretStore → String → Option SecretStore × Told Bool
  unfolding system_secret_name del_named
  system_secret_del secrets name = del_named secrets (system_secret_name name)

  system_secret_name-some :
      (name got : String)
      → system_secret_name name ≡ some got
      → (got ≡ trim name) × (starts_with got global_prefix ≡ true)
  unfolding system_secret_name
  system_secret_name-some name got h =
      let same : got ≡ trim name = ground arith in
      (same, subst (λ n. starts_with n global_prefix ≡ true) (sym same) (ground arith))

  set_told-told :
      (r : SecretStore × Result ℕ)
      → (set_told r).1 ≡ told tt
      → (i : ℕ) × ((r.1 ≡ ok i) × ((set_told r).0 ≡ some r.0))
  unfolding set_told
  set_told-told (s, ok i) h = (i, (refl, refl))
  set_told-told (s, err e) h = ground arith

  unowned :
      (store : SecretStore) (item : Item) (name : String)
      → lookup field_owner (system_item store item name).ids ≡ none
  unfolding system_item
  unowned store item name =
      let named = set_str (record item { id = id_of (get_by_name store name) }) "name" name in
      lookup-remove field_owner field_owner named.ids

  -- Writing keeps the ids of an entry that is not merged.
  no_owner :
      (store : SecretStore) (item : Item)
      → lookup field_owner item.ids ≡ none
      → lookup field_owner (written store item false).ids ≡ none
  unfolding written final_item merged restore
  no_owner store item h = unmerged (lookup (target_id store item) store.entries) h
    where
      unmerged :
          (o : Option Item)
          → lookup field_owner item.ids ≡ none
          → lookup field_owner (merged o item false).ids ≡ none
      unmerged none e = e
      unmerged (some old) e = e

  -- What a plugin has stored stands in the system's space, is found under the name it was written
  -- with, and has no owner.
  pub system_secret_set-told :
      (secrets : Option SecretStore) (item : Item)
      → (system_secret_set secrets item).1 ≡ told tt
      → (starts_with (trim (safe_str item "name" "")) global_prefix ≡ true)
        × ((after : SecretStore) × (it : Item) × ((system_secret_set secrets item).0 ≡ some after)
            × (get_by_name after (name_of it) ≡ some it)
            × (lookup field_owner it.ids ≡ none))
  unfolding system_secret_set set_named
  system_secret_set-told secrets item h =
      by_name secrets (system_secret_name (safe_str item "name" "")) refl h
    where
      by_name :
          (o : Option SecretStore) (n : Option String)
          → system_secret_name (safe_str item "name" "") ≡ n
          → (set_named o item n).1 ≡ told tt
          → (starts_with (trim (safe_str item "name" "")) global_prefix ≡ true)
            × ((after : SecretStore) × (it : Item) × ((set_named o item n).0 ≡ some after)
                × (get_by_name after (name_of it) ≡ some it)
                × (lookup field_owner it.ids ≡ none))
      by_name o none e t = ground arith
      by_name none (some name) e t = ground arith
      by_name (some store) (some name) e t =
          let new_item = system_item store item name in
          let (i, (done, now)) = set_told-told (set store new_item false) t in
          let (same, reserved) = system_secret_name-some (safe_str item "name" "") name e in
          (
            subst (λ n. starts_with n global_prefix ≡ true) same reserved,
            (
              (set store new_item false).0,
              record (written store new_item false) { id = i },
              now,
              set-get_by_name store new_item false i done,
              no_owner store new_item (unowned store item name),
            ),
          )
