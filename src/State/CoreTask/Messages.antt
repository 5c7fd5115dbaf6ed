-- ===== src/State/CoreTask/Messages.antt =====
-- src/state/core_task.rs: the loop over the messages of plugins.
-- The messages about disk space, mail, calendars, features and new salts or hashes only call other
-- parts and are left out.
use isabelle_core.Prelude.{
  nat_Eq, string_Eq, Casing, ℕ, String, Bool, false, Option, none, some, List, [], ◌∷◌,
}
use isabelle_core.Item.{Item, ItemApi, safe_str}
use isabelle_core.Util.Crypto.{PasswordApi, verify_password}
use isabelle_core.State.Store.{Store, ListResult}
use isabelle_core.State.Secrets.{SecretStore, Disk, Result, ok, err, get, get_by_name, set, del}
use isabelle_core.State.Secrets.Index.{IsValid}
use isabelle_core.State.Secrets.Operations.{set-IsValid, del-IsValid}
use isabelle_core.State.Secrets.Adoption.{list}
use isabelle_core.State.CoreTask.{db_set_item}
use isabelle_core.State.CoreTask.SystemSecrets.{
  Told, system_item, set_told, del_told, set_named, del_found, del_named, system_secret_name,
  system_secret_set, system_secret_del,
}
use isabelle_core.Server.UserControl.{check_role}

pub record Core (S : Type 0) : Type 0 where
  pub rw : S
  pub secrets : Option SecretStore
  pub public_url : String
  pub data_path : String

pub data CoreMessage : Type 0 where
  db_get_all_items : String → String → String → CoreMessage
  db_get_items : String → ℕ → ℕ → String → String → ℕ → ℕ → CoreMessage
  db_get_item : String → ℕ → CoreMessage
  db_set : String → Item → Bool → CoreMessage
  db_del_item : String → ℕ → CoreMessage
  globals_get_public_url : CoreMessage
  globals_get_data_path : CoreMessage
  globals_get_settings : CoreMessage
  globals_set_settings : Item → CoreMessage
  auth_check_role : Option Item → String → CoreMessage
  auth_verify_password : String → String → CoreMessage
  auth_not_implemented : CoreMessage
  secret_get : ℕ → CoreMessage
  secret_list : CoreMessage
  system_set : Item → CoreMessage
  system_del : String → CoreMessage

pub data CoreReply : Type 0 where
  items_reply : ListResult → CoreReply
  item_reply : Option Item → CoreReply
  id_reply : ℕ → CoreReply
  flag_reply : Bool → CoreReply
  text_reply : String → CoreReply
  settings_reply : Item → CoreReply
  stub_failure : CoreReply
  names_reply : List (ℕ × String) → CoreReply
  stored_reply : Told Unit → CoreReply
  removed_reply : Told Bool → CoreReply
  no_reply : CoreReply

unfoldable pub secret_at : Option SecretStore → ℕ → Option Item
secret_at none id = none
secret_at (some s) id = get s id

unfoldable pub secret_names : Option SecretStore → List (ℕ × String)
secret_names none = []
secret_names (some s) = list s

-- The secret store, if there is one, is in order.
abbrev pub AreValid : Option SecretStore → Type 0
AreValid none = Unit
AreValid (some s) = IsValid s

set_told-AreValid : (r : SecretStore × Result ℕ) → IsValid r.0 → AreValid (set_told r).0
unfolding set_told
set_told-AreValid (s, ok i) v = v
set_told-AreValid (s, err e) v = v

del_told-AreValid : (r : SecretStore × Result Bool) → IsValid r.0 → AreValid (del_told r).0
unfolding del_told
del_told-AreValid (s, ok i) v = v
del_told-AreValid (s, err e) v = v

module _ ⦃api : ItemApi⦄ ⦃c : Casing⦄ ⦃disk : Disk⦄ where
  set_named-AreValid :
      (o : Option SecretStore) (item : Item) (n : Option String)
      → AreValid o
      → AreValid (set_named o item n).0
  unfolding set_named
  set_named-AreValid o item none v = v
  set_named-AreValid none item (some name) v = v
  set_named-AreValid (some s) item (some name) v =
      set_told-AreValid (set s (system_item s item name) false)
        (set-IsValid s (system_item s item name) false v)

  del_found-AreValid : (s : SecretStore) (o : Option Item) → IsValid s → AreValid (del_found s o).0
  unfolding del_found
  del_found-AreValid s none v = v
  del_found-AreValid s (some existing) v =
      del_told-AreValid (del s existing.id) (del-IsValid s existing.id v)

  del_named-AreValid :
      (o : Option SecretStore) (n : Option String) → AreValid o → AreValid (del_named o n).0
  unfolding del_named
  del_named-AreValid o none v = v
  del_named-AreValid none (some name) v = v
  del_named-AreValid (some s) (some name) v = del_found-AreValid s (get_by_name s name) v

module _ ⦃api : ItemApi⦄ ⦃c : Casing⦄ ⦃disk : Disk⦄ ⦃pw : PasswordApi⦄ {S : Type 0}
    ⦃st : Store S⦄ where
  unfoldable pub handle_message : Core S → CoreMessage → Core S × CoreReply
  handle_message core (db_get_all_items collection sort_key filter) =
      (core, items_reply (st.get_all_items core.rw collection sort_key filter))
  handle_message core (db_get_items collection id_min id_max sort_key filter skip limit) =
      (core, items_reply (st.get_items core.rw collection id_min id_max sort_key filter skip limit))
  handle_message core (db_get_item collection id) =
      (core, item_reply (st.get_item core.rw collection id))
  handle_message core (db_set collection item merge) =
      let (rw', id) = db_set_item core.rw collection item merge in
      (record core { rw = rw' }, id_reply id)
  handle_message core (db_del_item collection id) =
      let (rw', done) = st.del_item core.rw collection id in
      (record core { rw = rw' }, flag_reply done)
  handle_message core globals_get_public_url = (core, text_reply core.public_url)
  handle_message core globals_get_data_path = (core, text_reply core.data_path)
  handle_message core globals_get_settings = (core, settings_reply (st.get_settings core.rw))
  handle_message core (globals_set_settings item) =
      (record core { rw = (st.set_settings core.rw item).0 }, no_reply)
  handle_message core (auth_check_role item role) =
      (core, flag_reply (check_role core.rw item role))
  handle_message core (auth_verify_password password hash) =
      (core, flag_reply (verify_password password hash))
  handle_message core auth_not_implemented = (core, stub_failure)
  handle_message core (secret_get id) = (core, item_reply (secret_at core.secrets id))
  handle_message core secret_list = (core, names_reply (secret_names core.secrets))
  handle_message core (system_set item) =
      let (secrets', answer) = system_secret_set core.secrets item in
      (record core { secrets = secrets' }, stored_reply answer)
  handle_message core (system_del name) =
      let (secrets', answer) = system_secret_del core.secrets name in
      (record core { secrets = secrets' }, removed_reply answer)

  -- `run`: the messages one after the other, in the order in which they come.
  unfoldable pub run : Core S → List CoreMessage → Core S
  unfolding handle_message
  run core [] = core
  run core (msg ∷ msgs) = run (handle_message core msg).0 msgs

  handle_message-AreValid :
      (core : Core S) (msg : CoreMessage)
      → AreValid core.secrets
      → AreValid (handle_message core msg).0.secrets
  unfolding handle_message system_secret_set system_secret_del
  handle_message-AreValid core (db_get_all_items collection sort_key filter) v = v
  handle_message-AreValid core (db_get_items collection id_min id_max sort_key filter skip limit)
        v =
      v
  handle_message-AreValid core (db_get_item collection id) v = v
  handle_message-AreValid core (db_set collection item merge) v = v
  handle_message-AreValid core (db_del_item collection id) v = v
  handle_message-AreValid core globals_get_public_url v = v
  handle_message-AreValid core globals_get_data_path v = v
  handle_message-AreValid core globals_get_settings v = v
  handle_message-AreValid core (globals_set_settings item) v = v
  handle_message-AreValid core (auth_check_role item role) v = v
  handle_message-AreValid core (auth_verify_password password hash) v = v
  handle_message-AreValid core auth_not_implemented v = v
  handle_message-AreValid core (secret_get id) v = v
  handle_message-AreValid core secret_list v = v
  handle_message-AreValid core (system_set item) v =
      set_named-AreValid core.secrets item (system_secret_name (safe_str item "name" "")) v
  handle_message-AreValid core (system_del name) v =
      del_named-AreValid core.secrets (system_secret_name name) v

  -- Whatever plugins ask for about records, settings, accounts and secrets, in whatever order, the
  -- secret store stays in order.
  pub run-AreValid :
      (core : Core S) (msgs : List CoreMessage)
      → AreValid core.secrets
      → AreValid (run core msgs).secrets
  unfolding run
  run-AreValid core [] v = v
  run-AreValid core (msg ∷ msgs) v =
      run-AreValid (handle_message core msg).0 msgs (handle_message-AreValid core msg v)
