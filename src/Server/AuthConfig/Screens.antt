-- ===== src/Server/AuthConfig/Screens.antt =====
-- What the screens of src/server/auth_config.rs show, and what a saved form changes.
use isabelle_core.Prelude.{
  nat_Eq, string_Eq, is_empty, trim, String, ◌≡◌, refl, true, Option, none, some, get_or,
}
use isabelle_core.Util.Oidc.{Provider, google, apple, ProviderConfig, check, first_blank}
use isabelle_core.Util.Ldap.{LdapConfig}
use isabelle_core.Server.AuthConfig.{
  KeyReader, ConfigUpdate, secret, apply_update, apply_ldap_update, validate_provider, key_problem,
  problem_of, has_secret_of, view_from,
}

-- Two configurations that a screen must not tell apart: they differ in their secrets only, which are
-- both there or both missing, and which can both be used or not.
pub record AreAlike ⦃k : KeyReader⦄ (a b : ProviderConfig) : Type 0 where
  pub client_id : a.client_id ≡ b.client_id
  pub team_id : a.team_id ≡ b.team_id
  pub key_id : a.key_id ≡ b.key_id
  pub client_secret : is_empty (trim a.client_secret) ≡ is_empty (trim b.client_secret)
  pub private_key : is_empty (trim a.private_key) ≡ is_empty (trim b.private_key)
  pub pem : k.from_ec_pem (trim a.private_key) ≡ k.from_ec_pem (trim b.private_key)

-- A screen shows nothing of a secret but whether there is one and what is wrong with it.
pub view_from-AreAlike :
    ⦃k : KeyReader⦄ (provider : Provider) (a b : ProviderConfig) (stored_uri effective_uri : String)
    → AreAlike a b
    → view_from provider (some a) stored_uri effective_uri
      ≡ view_from provider (some b) stored_uri effective_uri
unfolding view_from problem_of has_secret_of validate_provider key_problem check first_blank
view_from-AreAlike google a b stored_uri effective_uri e =
    rw (e.client_id, e.team_id, e.key_id, e.client_secret) refl
view_from-AreAlike apple a b stored_uri effective_uri e =
    rw (e.client_id, e.team_id, e.key_id, e.private_key, e.pem) refl

-- A secret that is left blank in a form or left out of it stays as it is: those of a
-- provider and of the directory.
pub apply_update-blank :
    (current : ProviderConfig) (ldap : LdapConfig) (update : ConfigUpdate)
    → is_empty (trim (get_or update.client_secret "")) ≡ true
    → is_empty (trim (get_or update.private_key "")) ≡ true
    → is_empty (trim (get_or update.bind_password "")) ≡ true
    → ((apply_update current update).client_secret ≡ current.client_secret)
      × ((apply_update current update).private_key ≡ current.private_key)
      × ((apply_ldap_update ldap update).bind_password ≡ ldap.bind_password)
unfolding apply_update apply_ldap_update
apply_update-blank current ldap update a b d = (
  secret-blank update.client_secret current.client_secret a,
  secret-blank update.private_key current.private_key b,
  secret-blank update.bind_password ldap.bind_password d,
)
  where
    secret-blank :
        (o : Option String) (existing : String)
        → is_empty (trim (get_or o "")) ≡ true
        → secret o existing ≡ existing
    secret-blank none existing h = unfold secret in refl
    secret-blank (some v) existing h = unfold secret in rw h refl
