-- ===== src/Server/AuthConfig.antt =====
-- src/server/auth_config.rs: how people sign in, as an administrator sets it up. The texts of
-- answers are left out, except those of the checks. Whether a private key can be read as an EC key
-- is an interface.
pub mod Screens
pub mod Saving
pub mod Saved
use isabelle_core.Prelude.{
  ltb, leb, nat_eq, if◌then◌else◌, nat_eq_iff, Bool-cases, Option-cases, ◌>>=◌, Eq, ◌==◌, nat_Eq,
  string_Eq, u64_max, saturating_add, saturating_mul, is_some, any, all, contains, nat_eq_refl, Map,
  or_else, lookup, insert, remove, retain, contains_key, lookup-insert, lookup-remove, beq_refl,
  Distinct, insert-Distinct, remove-Distinct, is_empty, starts_with, append, contains_text,
  any_char, ends_with_char, first_part, split_on, is_whitespace, is_control, trim_start, trim_end,
  trim, to_ascii_lowercase, eq_ignore_ascii_case, rsplit_once, split_once, split_once-append,
  strip_prefix, trim_end-append, trim_start_matches, trim_end_matches, ends_with, split_when,
  text_leb, text_leb-total, text_leb_trans, utf8, as_bytes, as_bytes_injective, Casing,
  to_lowercase, to_lowercase, length, take, drop, length-take-le, take-append_all, drop-append_all,
  length-append, take-nil, drop-nil, window-append, All, All-take, All-drop, digit_char,
  digits_from, to_decimal, scan_digits, parse_digits, parse_u64, is_number, to_decimal-is_number,
  parse_u64-to_decimal, ℕ, zero, suc, ◌+◌, ◌-◌, ◌*◌, ◌/◌, ◌%◌, ◌^◌, ◌≤◌, ◌<◌, min, max, String, ◌≡◌,
  refl, sym, ap, ◌∙◌, subst, ◌≢◌, ◌↔◌, ◌⊎◌, inl, inr, Bool, true, false, ◌&&◌, ◌||◌, not, Option,
  none, some, get_or, List, [], ◌∷◌, ◌++◌, map, arith, eq_iff, eq_refl,
}
use isabelle_core.Item.{Item, ItemApi, new, safe_str, set_str, set_bool}
use isabelle_core.Util.Oidc.{
  Provider, google, apple, from_id, provider_id, display_name, secret_name, ProviderConfig, check,
  redirect_uri_is_usable,
}
use isabelle_core.Util.Ldap
use mathlib.Core.Option
use isabelle_core.Util.Ldap.{LdapConfig}
use isabelle_core.Util.Multipart.{ReadResult, read, not_read, status}
use isabelle_core.State.Store.{Store}
use isabelle_core.State.Secrets.{SecretStore, Disk, Result, ok, err, get_by_name, set, del}
use isabelle_core.Server.UserControl.{get_user, check_role}
use isabelle_core.Server.OAuth.Callback.{Server, entry_of, provider_config, redirect_uri}
use isabelle_core.Server.Login.Directory.{ldap_config, ldap_secret}

-- `EncodingKey::from_ec_pem`: what is wrong with the key, if something is.
pub record KeyReader : Type 0 where
  pub from_ec_pem : String → Option String

pub record ConfigUpdate : Type 0 where
  pub provider : String
  pub client_id : Option String
  pub client_secret : Option String
  pub team_id : Option String
  pub key_id : Option String
  pub private_key : Option String
  pub redirect_uri : Option String
  pub url : Option String
  pub bind_dn : Option String
  pub bind_password : Option String
  pub base_dn : Option String
  pub user_filter : Option String
  pub user_dn_template : Option String
  pub email_attribute : Option String
  pub name_attribute : Option String
  pub allow_plaintext : Option Bool

pub data ConfigReply : Type 0 where
  config_ok : ConfigReply
  forbidden : ConfigReply
  bad_body : ℕ → ConfigReply
  no_such_provider : ConfigReply
  unusable : ConfigReply
  bad_redirect : ConfigReply
  no_store : ConfigReply
  not_stored : ConfigReply

-- `ProviderConfig::default()` and `LdapConfig::default()`
abbrev pub no_config : ProviderConfig
no_config = record {
  client_id = "";
  client_secret = "";
  team_id = "";
  key_id = "";
  private_key = "";
}

abbrev pub no_ldap : LdapConfig
no_ldap = record {
  url = "";
  bind_dn = "";
  bind_password = "";
  base_dn = "";
  user_filter = "";
  user_dn_template = "";
  email_attribute = "";
  name_attribute = "";
  allow_plaintext = false;
}

-- An absent field is left alone, and so is a blank secret.
unfoldable pub plain : Option String → String → String
plain none existing = existing
plain (some v) existing = trim v

unfoldable pub secret : Option String → String → String
secret none existing = existing
secret (some v) existing = if is_empty (trim v) then existing else trim v

unfoldable pub apply_update : ProviderConfig → ConfigUpdate → ProviderConfig
unfolding plain secret
apply_update current update = record {
  client_id = plain update.client_id current.client_id;
  client_secret = secret update.client_secret current.client_secret;
  team_id = plain update.team_id current.team_id;
  key_id = plain update.key_id current.key_id;
  private_key = secret update.private_key current.private_key;
}

unfoldable pub apply_ldap_update : LdapConfig → ConfigUpdate → LdapConfig
unfolding plain secret
apply_ldap_update current update = record {
  url = plain update.url current.url;
  bind_dn = plain update.bind_dn current.bind_dn;
  bind_password = secret update.bind_password current.bind_password;
  base_dn = plain update.base_dn current.base_dn;
  user_filter = plain update.user_filter current.user_filter;
  user_dn_template = plain update.user_dn_template current.user_dn_template;
  email_attribute = plain update.email_attribute current.email_attribute;
  name_attribute = plain update.name_attribute current.name_attribute;
  allow_plaintext = get_or update.allow_plaintext current.allow_plaintext;
}

-- `oidc::validate`: what is wrong, if something is.
unfoldable pub key_problem : ⦃k : KeyReader⦄ → Provider → ProviderConfig → Option String
key_problem google cfg = none
key_problem ⦃k⦄ apple cfg = k.from_ec_pem (trim cfg.private_key)

unfoldable pub validate_provider : ⦃k : KeyReader⦄ → Provider → ProviderConfig → Option String
unfolding key_problem
validate_provider provider cfg = or_else (check cfg provider) (key_problem provider cfg)

pub record ProviderView : Type 0 where
  pub id : String
  pub name : String
  pub configured : Bool
  pub problem : String
  pub client_id : String
  pub team_id : String
  pub key_id : String
  pub stored_uri : String
  pub effective_uri : String
  pub has_secret : Bool

unfoldable pub problem_of : ⦃k : KeyReader⦄ → Provider → Option ProviderConfig → String
unfolding validate_provider
problem_of provider none = ""
problem_of provider (some cfg) = get_or (validate_provider provider cfg) ""

unfoldable pub has_secret_of : Provider → ProviderConfig → Bool
has_secret_of google cfg = not (is_empty (trim cfg.client_secret))
has_secret_of apple cfg = not (is_empty (trim cfg.private_key))

-- The view from what is stored, the address that was set and the one in use.
unfoldable pub view_from :
    ⦃k : KeyReader⦄ → Provider → Option ProviderConfig → String → String → ProviderView
unfolding problem_of has_secret_of
view_from provider stored stored_uri effective_uri =
    let cfg = get_or stored no_config in
    record {
      id = provider_id provider;
      name = display_name provider;
      configured = is_some stored && is_empty (problem_of provider stored);
      problem = problem_of provider stored;
      client_id = cfg.client_id;
      team_id = cfg.team_id;
      key_id = cfg.key_id;
      stored_uri = stored_uri;
      effective_uri = effective_uri;
      has_secret = has_secret_of provider cfg;
    }

abbrev uri_of : ⦃api : ItemApi⦄ → Option Item → String
uri_of none = ""
uri_of (some i) = safe_str i "redirect_uri" ""

module _ ⦃api : ItemApi⦄ {S : Type 0} where
  unfoldable pub stored_redirect_uri : Server S → Provider → String
  stored_redirect_uri srv provider = uri_of (entry_of srv.secrets provider)

  unfoldable pub admin_view : ⦃k : KeyReader⦄ → Server S → Provider → ProviderView
  unfolding stored_redirect_uri view_from
  admin_view srv provider =
      view_from provider (provider_config srv provider) (stored_redirect_uri srv provider)
        (redirect_uri srv provider)
