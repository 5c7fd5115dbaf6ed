-- ===== src/Server/Login/Directory.antt =====
-- src/server/login.rs: `directory_login`, and the configuration that src/server/signin.rs reads for
-- it.
use isabelle_core.Prelude.{
  if◌then◌else◌, nat_Eq, string_Eq, String, true, false, not, Option, none, some,
}
use isabelle_core.Item.{Item, ItemApi, safe_str, safe_bool}
use isabelle_core.Util.Ldap.{LdapConfig, LdapIdentity, LdapApi, authenticate}
use isabelle_core.State.Store.{Store}
use isabelle_core.State.RouteCache.{RouteCache}
use isabelle_core.State.Secrets.{SecretStore, get_by_name}
use isabelle_core.Server.Hooks.{PostEditApi}
use isabelle_core.Server.UserControl.{get_user, login_is_acceptable}
use isabelle_core.Server.Login.{LoginUser}
use isabelle_core.Server.SignIn.{
  inactive, Resolution, sign_in, create, refuse, resolve_identity, may_register, record_for,
}

abbrev pub ldap_secret : String
ldap_secret = "global.ldap"

abbrev pub ldap_subject_key : String
ldap_subject_key = "ldap_dn"

-- `Ok(record)`, or the text of a refusal.
pub data DirectoryAnswer : Type 0 where
  answered : Option Item → DirectoryAnswer
  refused_because : String → DirectoryAnswer

module _ ⦃api : ItemApi⦄ where
  unfoldable pub config_of : Option Item → Option LdapConfig
  config_of none = none
  config_of (some item) = some (record {
    url = safe_str item "url" "";
    bind_dn = safe_str item "bind_dn" "";
    bind_password = safe_str item "bind_password" "";
    base_dn = safe_str item "base_dn" "";
    user_filter = safe_str item "user_filter" "";
    user_dn_template = safe_str item "user_dn_template" "";
    email_attribute = safe_str item "email_attribute" "";
    name_attribute = safe_str item "name_attribute" "";
    allow_plaintext = safe_bool item "allow_plaintext" false;
  })

  unfoldable pub ldap_config : Option SecretStore → Option LdapConfig
  unfolding config_of
  ldap_config none = none
  ldap_config (some secrets) = config_of (get_by_name secrets ldap_secret)

module _ ⦃api : ItemApi⦄ {S : Type 0} ⦃st : Store S⦄ ⦃hooks : PostEditApi S⦄ where
  unfoldable pub record_of :
      S → RouteCache → Resolution → Option Item → LdapIdentity → S × DirectoryAnswer
  record_of s cache r existing i =
      let written = record_for s cache r existing i.email i.name i.dn ldap_subject_key in
      (written.0, answered written.1)

  unfoldable pub directory_settled :
      S → RouteCache → Option Item → LdapIdentity → Resolution → S × DirectoryAnswer
  unfolding record_of
  directory_settled s cache existing i (refuse inactive) = (s, refused_because "User is inactive")
  directory_settled s cache existing i (refuse r) = (s, refused_because "Invalid login/password")
  directory_settled s cache existing i create =
      if not (login_is_acceptable i.email)
      then (s, answered none)
      else record_of s cache create existing i
  directory_settled s cache existing i (sign_in id) = record_of s cache (sign_in id) existing i

  unfoldable pub directory_resolved : S → RouteCache → Option LdapIdentity → S × DirectoryAnswer
  unfolding directory_settled
  directory_resolved s cache none = (s, answered none)
  directory_resolved s cache (some i) =
      let existing = get_user s i.email in
      directory_settled s cache existing i
        (resolve_identity existing i.email true i.dn ldap_subject_key (may_register s i.email))

  unfoldable pub directory_asked :
      ⦃ldap : LdapApi⦄ → S → RouteCache → LoginUser → Option LdapConfig → S × DirectoryAnswer
  unfolding directory_resolved
  directory_asked s cache lu none = (s, answered none)
  directory_asked s cache lu (some cfg) =
      directory_resolved s cache (authenticate cfg lu.username lu.password)

  unfoldable pub directory_login :
      ⦃ldap : LdapApi⦄ → S → RouteCache → Option SecretStore → LoginUser → S × DirectoryAnswer
  unfolding directory_asked ldap_config
  directory_login s cache secrets lu = directory_asked s cache lu (ldap_config secrets)
