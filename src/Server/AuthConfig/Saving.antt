-- ===== src/Server/AuthConfig/Saving.antt =====
-- src/server/auth_config.rs: the endpoints that save a configuration and remove one.
use isabelle_core.Prelude.{
  if◌then◌else◌, ◌==◌, nat_Eq, string_Eq, u64_max, is_some, is_empty, trim, Casing, ℕ, String, Bool,
  true, ◌&&◌, not, Option, none, some, get_or,
}
use isabelle_core.Item.{Item, ItemApi, new, set_str, set_bool}
use isabelle_core.Util.Oidc.{Provider, from_id, secret_name, ProviderConfig, redirect_uri_is_usable}
use isabelle_core.Util.Ldap
use mathlib.Core.Option
use isabelle_core.Util.Ldap.{LdapConfig}
use isabelle_core.Util.Multipart.{ReadResult, read, not_read, status}
use isabelle_core.State.Store.{Store}
use isabelle_core.State.Secrets.{SecretStore, Disk, Result, ok, err, get_by_name, set, del}
use isabelle_core.Server.UserControl.{get_user, check_role}
use isabelle_core.Server.OAuth.Callback.{Server, provider_config}
use isabelle_core.Server.Login.Directory.{ldap_config, ldap_secret}
use isabelle_core.Server.AuthConfig.{
  KeyReader, ConfigUpdate, ConfigReply, config_ok, forbidden, bad_body, no_such_provider, unusable,
  bad_redirect, no_store, not_stored, no_config, no_ldap, apply_update, apply_ldap_update,
  validate_provider, stored_redirect_uri,
}

unfoldable pub id_or_new : Option Item → ℕ
id_or_new none = u64_max
id_or_new (some i) = i.id

module _ ⦃api : ItemApi⦄ where
  -- The entry that is written for a provider.
  unfoldable pub provider_entry : SecretStore → Provider → ProviderConfig → String → Item
  unfolding id_or_new
  provider_entry store provider merged uri =
      set_str
        (set_str
          (set_str
            (set_str
              (set_str
                (set_str
                  (set_str
                    (record new { id = id_or_new (get_by_name store (secret_name provider)) })
                    "name" (secret_name provider))
                  "client_id" (trim merged.client_id))
                "client_secret" (trim merged.client_secret))
              "team_id" (trim merged.team_id))
            "key_id" (trim merged.key_id))
          "private_key" (trim merged.private_key))
        "redirect_uri" uri

  unfoldable pub ldap_entry : SecretStore → LdapConfig → Item
  unfolding id_or_new
  ldap_entry store merged =
      set_bool
        (set_str
          (set_str
            (set_str
              (set_str
                (set_str
                  (set_str
                    (set_str
                      (set_str
                        (set_str (record new { id = id_or_new (get_by_name store ldap_secret) })
                          "name" ldap_secret)
                        "url" (trim merged.url))
                      "bind_dn" (trim merged.bind_dn))
                    "bind_password" (trim merged.bind_password))
                  "base_dn" (trim merged.base_dn))
                "user_filter" (trim merged.user_filter))
              "user_dn_template" (trim merged.user_dn_template))
            "email_attribute" (trim merged.email_attribute))
          "name_attribute" (trim merged.name_attribute))
        "allow_plaintext" merged.allow_plaintext

unfoldable pub name_to_forget : String → Option String
name_to_forget provider =
    if trim provider == "ldap"
    then some ldap_secret
    else Option.map secret_name (from_id (trim provider))

unfoldable pub stored_reply :
    {A S : Type 0} → Server S → SecretStore × Result A → Server S × ConfigReply
stored_reply srv (store, ok _) = (record srv { secrets = some store }, config_ok)
stored_reply srv (store, err _) = (record srv { secrets = some store }, not_stored)

module _ ⦃api : ItemApi⦄ ⦃c : Casing⦄ ⦃disk : Disk⦄ {S : Type 0} where
  unfoldable pub store_provider :
      Server S → Option SecretStore → Provider → ProviderConfig → String → Server S × ConfigReply
  unfolding provider_entry stored_reply
  store_provider srv none provider merged uri = (srv, no_store)
  store_provider srv (some store) provider merged uri =
      stored_reply srv (set store (provider_entry store provider merged uri) true)

  unfoldable pub save_with_uri :
      Server S → Provider → ProviderConfig → String → Server S × ConfigReply
  unfolding store_provider
  save_with_uri srv provider merged uri =
      if not (is_empty uri) && not (redirect_uri_is_usable uri)
      then (srv, bad_redirect)
      else store_provider srv srv.secrets provider merged uri

  unfoldable pub save_provider :
      ⦃k : KeyReader⦄ → Server S → ConfigUpdate → Option Provider → Server S × ConfigReply
  unfolding save_with_uri apply_update validate_provider stored_redirect_uri
  save_provider srv update none = (srv, no_such_provider)
  save_provider srv update (some provider) =
      let merged = apply_update (get_or (provider_config srv provider) no_config) update in
      if is_some (validate_provider provider merged)
      then (srv, unusable)
      else save_with_uri srv provider merged
          (get_or (Option.map trim update.redirect_uri) (stored_redirect_uri srv provider))

  unfoldable pub store_ldap : Server S → Option SecretStore → LdapConfig → Server S × ConfigReply
  unfolding ldap_entry stored_reply
  store_ldap srv none merged = (srv, no_store)
  store_ldap srv (some store) merged = stored_reply srv (set store (ldap_entry store merged) true)

  unfoldable pub save_ldap : Server S → ConfigUpdate → Server S × ConfigReply
  unfolding store_ldap apply_ldap_update
  save_ldap srv update =
      let merged = apply_ldap_update (get_or (ldap_config srv.secrets) no_ldap) update in
      if not (Ldap.validate merged) then (srv, unusable) else store_ldap srv srv.secrets merged

  unfoldable pub save_as : ⦃k : KeyReader⦄ → Server S → ConfigUpdate → Server S × ConfigReply
  unfolding save_ldap save_provider
  save_as srv update =
      if trim update.provider == "ldap"
      then save_ldap srv update
      else save_provider srv update (from_id (trim update.provider))

  unfoldable pub save_read :
      ⦃k : KeyReader⦄ → Server S → ReadResult ConfigUpdate → Server S × ConfigReply
  unfolding save_as
  save_read srv (not_read e) = (srv, bad_body (status e))
  save_read srv (read update) = save_as srv update

  unfoldable pub forget_found : Server S → SecretStore → Option Item → Server S × ConfigReply
  unfolding stored_reply
  forget_found srv store none = (srv, config_ok)
  forget_found srv store (some i) = stored_reply srv (del store i.id)

  unfoldable pub forget_named :
      Server S → Option SecretStore → Option String → Server S × ConfigReply
  unfolding forget_found
  forget_named srv secrets none = (srv, no_such_provider)
  forget_named srv none (some name) = (srv, no_store)
  forget_named srv (some store) (some name) = forget_found srv store (get_by_name store name)

  unfoldable pub forget_read : Server S → ReadResult String → Server S × ConfigReply
  unfolding forget_named name_to_forget
  forget_read srv (not_read e) = (srv, bad_body (status e))
  forget_read srv (read provider) = forget_named srv srv.secrets (name_to_forget provider)

module _ ⦃api : ItemApi⦄ {S : Type 0} ⦃st : Store S⦄ where
  -- `ensure_admin`
  unfoldable pub is_admin : Server S → String → Bool
  is_admin srv who = check_role srv.store (get_user srv.store who) "admin"

  module _ ⦃c : Casing⦄ ⦃disk : Disk⦄ where
    unfoldable pub auth_config_save :
        ⦃k : KeyReader⦄ → Server S → String → ReadResult ConfigUpdate → Server S × ConfigReply
    unfolding is_admin save_read
    auth_config_save srv who body =
        if not (is_admin srv who) then (srv, forbidden) else save_read srv body

    unfoldable pub auth_config_forget :
        Server S → String → ReadResult String → Server S × ConfigReply
    unfolding is_admin forget_read
    auth_config_forget srv who body =
        if not (is_admin srv who) then (srv, forbidden) else forget_read srv body
