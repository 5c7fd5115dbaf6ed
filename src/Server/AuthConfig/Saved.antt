-- ===== src/Server/AuthConfig/Saved.antt =====
-- Who may change how people sign in: the endpoints of src/server/auth_config.rs.
use isabelle_core.Prelude.{
  Bool-cases, Option-cases, ◌==◌, nat_Eq, string_Eq, is_some, is_empty, trim, Casing, ℕ, String,
  ◌≡◌, refl, sym, ap, ◌∙◌, ◌⊎◌, inl, inr, true, false, ◌&&◌, not, Option, none, some, get_or,
}
use isabelle_core.Item.{Item, ItemApi}
use isabelle_core.Util.Oidc.{Provider, ProviderConfig, from_id, redirect_uri_is_usable}
use isabelle_core.Util.Ldap
use isabelle_core.Util.Ldap.{LdapConfig}
use mathlib.Core.Option
use isabelle_core.Util.Multipart.{ReadResult, read, not_read}
use isabelle_core.State.Store.{Store}
use isabelle_core.State.Secrets.{SecretStore, Disk, Result, ok, err, set}
use isabelle_core.State.Secrets.Operations.{set-err}
use isabelle_core.Server.OAuth.Callback.{Server, provider_config}
use isabelle_core.Server.Login.Directory.{ldap_config}
use isabelle_core.Server.AuthConfig.{
  KeyReader, ConfigUpdate, ConfigReply, config_ok, apply_update, apply_ldap_update,
  validate_provider, no_config, no_ldap, stored_redirect_uri,
}
use isabelle_core.Server.AuthConfig.Saving.{
  stored_reply, store_provider, save_with_uri, save_provider, store_ldap, save_ldap, save_as,
  save_read, is_admin, auth_config_save, provider_entry, ldap_entry,
}

-- The form names the directory or a provider, and makes a configuration of it that can be used.
module _ ⦃api : ItemApi⦄ ⦃k : KeyReader⦄ {S : Type 0} where
  abbrev pub IsUsable : Server S → ConfigUpdate → Type 0
  IsUsable srv update =
      ((trim update.provider ≡ "ldap")
        × (Ldap.validate (apply_ldap_update (get_or (ldap_config srv.secrets) no_ldap) update)
            ≡ true))
      ⊎ ((provider : Provider) × (from_id (trim update.provider) ≡ some provider)
          × (validate_provider provider
                (apply_update (get_or (provider_config srv provider) no_config) update)
              ≡ none))

module _ ⦃api : ItemApi⦄ ⦃c : Casing⦄ ⦃disk : Disk⦄ {S : Type 0} where
  -- A write is told as done, or nothing has changed.
  abbrev Settled : Server S → Server S × ConfigReply → Type 0
  Settled srv r = (r.1 ≡ config_ok) ⊎ (r.0 ≡ srv)

  stored_reply-Settled :
      (srv : Server S) (store : SecretStore) (item : Item)
      → srv.secrets ≡ some store
      → Settled srv (stored_reply srv (set store item true))
  unfolding stored_reply
  stored_reply-Settled srv store item there = by_result (set store item true) refl
    where
      by_result :
          (r : SecretStore × Result ℕ) → set store item true ≡ r → Settled srv (stored_reply srv r)
      by_result (after, ok i) e = inl refl
      by_result (after, err x) e =
          let same : after ≡ store =
            sym (ap (λ r. r.0) e) ∙ set-err store item true x (ap (λ r. r.1) e) in
          inr (λ p. record srv { secrets = (ap some same ∙ sym there) p })

  store_provider-Settled :
      (srv : Server S) (o : Option SecretStore) (provider : Provider) (merged : ProviderConfig)
      (uri : String)
      → srv.secrets ≡ o
      → Settled srv (store_provider srv o provider merged uri)
  unfolding store_provider
  store_provider-Settled srv none provider merged uri there = inr refl
  store_provider-Settled srv (some store) provider merged uri there =
      stored_reply-Settled srv store (provider_entry store provider merged uri) there

  store_ldap-Settled :
      (srv : Server S) (o : Option SecretStore) (merged : LdapConfig)
      → srv.secrets ≡ o
      → Settled srv (store_ldap srv o merged)
  unfolding store_ldap
  store_ldap-Settled srv none merged there = inr refl
  store_ldap-Settled srv (some store) merged there =
      stored_reply-Settled srv store (ldap_entry store merged) there

  save_with_uri-Settled :
      (srv : Server S) (provider : Provider) (merged : ProviderConfig) (uri : String)
      → Settled srv (save_with_uri srv provider merged uri)
  unfolding save_with_uri
  save_with_uri-Settled srv provider merged uri =
      elim (Bool-cases (not (is_empty uri) && not (redirect_uri_is_usable uri))) [
        | inl bad ↦ rw bad (inr refl)
        | inr good ↦ rw good (store_provider-Settled srv srv.secrets provider merged uri refl)
      ]

  module _ ⦃k : KeyReader⦄ where
    save_provider-Settled :
        (srv : Server S) (update : ConfigUpdate) (o : Option Provider)
        → from_id (trim update.provider) ≡ o
        → (((save_provider srv update o).0 ≡ srv) ⊎ IsUsable srv update)
          × Settled srv (save_provider srv update o)
    unfolding save_provider
    save_provider-Settled srv update none named = (inl refl, inr refl)
    save_provider-Settled srv update (some provider) named =
        let merged = apply_update (get_or (provider_config srv provider) no_config) update in
        elim (Option-cases (validate_provider provider merged)) [
          | inl fine ↦
              let passes : is_some (validate_provider provider merged) ≡ false = ap is_some fine in
              (
                inr (inr (provider, named, fine)),
                rw passes (
                    save_with_uri-Settled srv provider merged (
                      get_or (Option.map trim update.redirect_uri)
                        (stored_redirect_uri srv provider))),
              )
          | inr (problem, is_problem) ↦
              let fails : is_some (validate_provider provider merged) ≡ true =
                ap is_some is_problem in
              (rw fails (inl refl), rw fails (inr refl))
        ]

    save_as-Settled :
        (srv : Server S) (update : ConfigUpdate)
        → (((save_as srv update).0 ≡ srv) ⊎ IsUsable srv update) × Settled srv (save_as srv update)
    unfolding save_as save_ldap
    save_as-Settled srv update =
        let merged = apply_ldap_update (get_or (ldap_config srv.secrets) no_ldap) update in
        elim (Bool-cases (trim update.provider == "ldap")) [
          | inr other ↦
              rw other (save_provider-Settled srv update (from_id (trim update.provider)) refl)
          | inl directory ↦ elim (Bool-cases (Ldap.validate merged)) [
            | inl fine ↦
                rw (directory, fine)
                  (
                    inr (inl ((string_Eq.beq_iff (trim update.provider) "ldap").0 directory, refl)),
                    store_ldap-Settled srv srv.secrets merged refl,
                  )
            | inr bad ↦ rw (directory, bad) (inl refl, inr refl)
          ]
        ]

module _ ⦃api : ItemApi⦄ ⦃c : Casing⦄ ⦃disk : Disk⦄ ⦃k : KeyReader⦄ {S : Type 0}
    ⦃st : Store S⦄ where
  save_read-Settled :
      (srv : Server S) (body : ReadResult ConfigUpdate)
      → (((save_read srv body).0 ≡ srv)
          ⊎ ((update : ConfigUpdate) × (body ≡ read update) × IsUsable srv update))
        × Settled srv (save_read srv body)
  unfolding save_read
  save_read-Settled srv (not_read e) = (inl refl, inr refl)
  save_read-Settled srv (read update) =
      let (usable, settled) = save_as-Settled srv update in
      (elim usable [ inl same ↦ inl same | inr fine ↦ inr (update, refl, fine) ], settled)

  -- How people sign in is changed by an administrator only, and only by a form that makes a usable
  -- configuration of the directory or of a provider; and if the answer is not that it was done,
  -- nothing has changed.
  pub auth_config_save-Settled :
      (srv : Server S) (who : String) (body : ReadResult ConfigUpdate)
      → (((auth_config_save srv who body).0 ≡ srv)
          ⊎ ((is_admin srv who ≡ true)
              × ((update : ConfigUpdate) × (body ≡ read update) × IsUsable srv update)))
        × (((auth_config_save srv who body).1 ≡ config_ok)
            ⊎ ((auth_config_save srv who body).0 ≡ srv))
  unfolding auth_config_save
  auth_config_save-Settled srv who body = elim (Bool-cases (is_admin srv who)) [
    | inr stranger ↦ rw stranger (inl refl, inr refl)
    | inl admin ↦
        let (usable, settled) = save_read-Settled srv body in
        rw admin (elim usable [ inl same ↦ inl same | inr fine ↦ inr (refl, fine) ], settled)
  ]
