-- ===== src/Util/Oidc.antt =====
-- src/util/oidc.rs: the identity providers, and what an operator configures for one.
-- What the crates do is an interface: `WebApi` for `reqwest`, `JwtApi` for `jsonwebtoken`.
-- The texts of errors, which are only logged, are left out.
pub mod Tokens
pub mod Identities
use isabelle_core.Prelude.{
  ltb, leb, nat_eq, if◌then◌else◌, nat_eq_iff, Bool-cases, Option-cases, Eq, ◌==◌, nat_Eq,
  string_Eq, u64_max, saturating_add, saturating_mul, is_some, any, all, contains, nat_eq_refl, Map,
  or_else, lookup, insert, remove, retain, contains_key, lookup-insert, lookup-remove, beq_refl,
  Distinct, insert-Distinct, remove-Distinct, is_empty, starts_with, append, contains_text,
  any_char, ends_with_char, first_part, split_on, is_whitespace, is_control, trim_start, trim_end,
  trim, to_ascii_lowercase, eq_ignore_ascii_case, rsplit_once, trim_start_matches, trim_end_matches,
  ends_with, split_when, utf8, as_bytes, as_bytes_injective, Casing, to_lowercase, to_lowercase,
  length, take, drop, length-take-le, window-append, All, All-take, All-drop, ℕ, zero, suc, ◌+◌,
  ◌-◌, ◌*◌, ◌/◌, ◌%◌, ◌^◌, ◌≤◌, ◌<◌, min, max, String, ◌≡◌, refl, sym, ap, ◌∙◌, subst, ◌≢◌, ◌↔◌,
  ◌⊎◌, inl, inr, Bool, true, false, ◌&&◌, ◌||◌, not, Option, none, some, get_or, List, [], ◌∷◌,
  ◌++◌, map, arith, eq_iff, eq_refl,
}

pub data Provider : Type 0 where
  google : Provider
  apple : Provider

abbrev pub same_provider : Provider → Provider → Bool
same_provider google google = true
same_provider apple apple = true
same_provider _ _ = false

unfoldable pub from_id : String → Option Provider
from_id id = if id == "google" then some google else if id == "apple" then some apple else none

unfoldable pub provider_id : Provider → String
provider_id google = "google"
provider_id apple = "apple"

unfoldable pub display_name : Provider → String
display_name google = "Google"
display_name apple = "Apple"

unfoldable pub secret_name : Provider → String
secret_name google = "global.oauth_google"
secret_name apple = "global.oauth_apple"

unfoldable pub issuer : Provider → String
issuer google = "https://accounts.google.com"
issuer apple = "https://appleid.apple.com"

unfoldable pub authorize_endpoint : Provider → String
authorize_endpoint google = "https://accounts.google.com/o/oauth2/v2/auth"
authorize_endpoint apple = "https://appleid.apple.com/auth/authorize"

unfoldable pub token_endpoint : Provider → String
token_endpoint google = "https://oauth2.googleapis.com/token"
token_endpoint apple = "https://appleid.apple.com/auth/token"

unfoldable pub jwks_uri : Provider → String
jwks_uri google = "https://www.googleapis.com/oauth2/v3/certs"
jwks_uri apple = "https://appleid.apple.com/auth/keys"

unfoldable pub scope : Provider → String
scope google = "openid email profile"
scope apple = "email name"

unfoldable pub uses_pkce : Provider → Bool
uses_pkce google = true
uses_pkce apple = false

unfoldable pub uses_form_post : Provider → Bool
uses_form_post google = false
uses_form_post apple = true

pub record ProviderConfig : Type 0 where
  pub client_id : String
  pub client_secret : String
  pub team_id : String
  pub key_id : String
  pub private_key : String

unfoldable pub first_blank : List (String × String) → Option String
first_blank [] = none
first_blank ((name, value) ∷ rest) =
    if is_empty (trim value) then some (append name " is not set") else first_blank rest

-- What is missing, if something is.
unfoldable pub check : ProviderConfig → Provider → Option String
unfolding first_blank
check cfg provider =
    if is_empty (trim cfg.client_id) then some "client_id is not set" else elim provider [
      | google ↦ if is_empty (trim cfg.client_secret) then some "client_secret is not set" else none
      | apple ↦ first_blank (
          ("team_id", cfg.team_id) ∷ ("key_id", cfg.key_id) ∷ ("private_key", cfg.private_key) ∷ [])
    ]

unfoldable pub redirect_uri_is_usable : String → Bool
redirect_uri_is_usable uri =
    (starts_with (trim uri) "http://" || starts_with (trim uri) "https://")
    && not (any_char is_whitespace (trim uri))
    && ltb (length (as_bytes "https://")) (length (as_bytes (trim uri)))

-- A set of signing keys as a provider publishes it.
pub record Jwk : Type 0 where
  pub kid : String
  pub kty : String
  pub n : String
  pub e : String
  pub x : String
  pub y : String

-- The network: a page with parameters, a form that is posted, and keys that are fetched. A request
-- that fails, or an answer that cannot be read, is `none`.
pub record WebApi : Type 0 where
  pub parse_with_params : String → List (String × String) → Option String
  pub post_form : String → List (String × String) → Option (ℕ × String)
  pub read_token : String → Option String
  pub get_keys : String → Option (List Jwk)

abbrev params_of :
    Provider → ProviderConfig → String → String → String → String → List (String × String)
params_of provider cfg redirect_uri state nonce pkce_challenge =
    ("response_type", "code")
    ∷ ("client_id", trim cfg.client_id)
    ∷ ("redirect_uri", redirect_uri)
    ∷ ("scope", scope provider)
    ∷ ("state", state)
    ∷ ("nonce", nonce)
    ∷ ((if uses_form_post provider then ("response_mode", "form_post") ∷ [] else [])
        ++ (if uses_pkce provider
            then ("code_challenge", pkce_challenge) ∷ ("code_challenge_method", "S256") ∷ []
            else []))

-- Where the browser is sent to authenticate.
unfoldable pub authorize_url :
    ⦃web : WebApi⦄ → Provider → ProviderConfig → String → String → String → String → String
authorize_url ⦃web⦄ provider cfg redirect_uri state nonce pkce_challenge =
    get_or
      (web.parse_with_params (authorize_endpoint provider)
        (params_of provider cfg redirect_uri state nonce pkce_challenge))
      (authorize_endpoint provider)
