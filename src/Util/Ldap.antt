-- ===== src/Util/Ldap.antt =====
-- src/util/ldap.rs: what a directory needs to be asked, and the checks before it is. The search and
-- the bind over the network are an interface. The texts of errors are left out.
pub mod Escaping
use isabelle_core.Prelude.{
  if◌then◌else◌, nat_Eq, string_Eq, is_empty, starts_with, contains_text, trim, String, Bool, false,
  ◌&&◌, ◌||◌, not, Option, none,
}

pub record LdapConfig : Type 0 where
  pub url : String
  pub bind_dn : String
  pub bind_password : String
  pub base_dn : String
  pub user_filter : String
  pub user_dn_template : String
  pub email_attribute : String
  pub name_attribute : String
  pub allow_plaintext : Bool

pub record LdapIdentity : Type 0 where
  pub dn : String
  pub email : String
  pub name : String

unfoldable pub searches : LdapConfig → Bool
searches cfg = not (is_empty (trim cfg.base_dn)) && not (is_empty (trim cfg.user_filter))

-- Could the configuration sign anybody in?
unfoldable pub validate : LdapConfig → Bool
unfolding searches
validate cfg =
    let secure = starts_with (trim cfg.url) "ldaps://" in
    if is_empty (trim cfg.url)
    then false
    else if not secure && not (starts_with (trim cfg.url) "ldap://")
    then false
    else if not secure && not cfg.allow_plaintext
    then false
    else if searches cfg
    then contains_text cfg.user_filter "%u"
    else if is_empty (trim cfg.user_dn_template)
    then false
    else contains_text cfg.user_dn_template "%u"

-- The answer of the directory to a bind with a name and a password; `none` is every way to decline.
pub record LdapApi : Type 0 where
  pub bind_as : LdapConfig → String → String → Option LdapIdentity

-- A bind with an empty password is anonymous: it is never tried.
unfoldable pub authenticate : ⦃ldap : LdapApi⦄ → LdapConfig → String → String → Option LdapIdentity
unfolding validate
authenticate ⦃ldap⦄ cfg username password =
    if is_empty password || is_empty (trim username)
    then none
    else if not (validate cfg)
    then none
    else ldap.bind_as cfg username password
