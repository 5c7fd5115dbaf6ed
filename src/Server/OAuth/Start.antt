-- ===== src/Server/OAuth/Start.antt =====
-- src/server/oauth.rs: `auth_start`, `auth_providers` and `auth_methods`. The random texts of a
-- sign-in are an argument, and so is the digest that PKCE takes of one of them. The cookie that is
-- set is the binding.
use isabelle_core.Prelude.{
  if◌then◌else◌, nat_Eq, string_Eq, is_some, Map, is_empty, trim, ℕ, String, Bool, not, Option,
  none, some, List, [], ◌∷◌, ◌++◌,
}
use isabelle_core.Item.{Item, ItemApi, safe_str}
use isabelle_core.Util.Oidc.{
  Provider, google, apple, from_id, provider_id, display_name, ProviderConfig, check, WebApi,
  authorize_url,
}
use isabelle_core.State.Store.{Store}
use isabelle_core.Server.UserControl.{get_user}
use isabelle_core.Server.SignIn.{failed, registration_open}
use isabelle_core.Server.Login.Directory.{ldap_subject_key}
use isabelle_core.Server.OAuth.{PendingFlow, insert_flow, safe_next, subject_key}
use isabelle_core.Server.OAuth.Callback.{
  Server, Response, not_found, redirect, refusal_url, provider_config, redirect_uri,
}

-- What `random_token` draws for a sign-in.
pub record Drawn : Type 0 where
  pub state : String
  pub nonce : String
  pub verifier : String
  pub binding : String

abbrev pub with_flows : {S : Type 0} → Server S → Option (Map String PendingFlow) → Server S
with_flows srv none = srv
with_flows srv (some flows) = record srv { flows = flows }

module _ ⦃api : ItemApi⦄ ⦃web : WebApi⦄ {S : Type 0} where
  unfoldable pub start_flow :
      (String → String)
      → Server S
      → Provider
      → String
      → Drawn
      → ℕ
      → ProviderConfig
      → Server S × Response
  unfolding redirect_uri
  start_flow digest srv provider next drawn now cfg =
      let flow : PendingFlow = record {
        provider = provider;
        nonce = drawn.nonce;
        verifier = drawn.verifier;
        next = next;
        binding = drawn.binding;
        started_at = now;
      } in
      let url =
        authorize_url provider cfg (redirect_uri srv provider) drawn.state drawn.nonce
          (digest drawn.verifier) in
      (with_flows srv (insert_flow srv.flows drawn.state flow now), redirect url)

  unfoldable pub start_with :
      (String → String)
      → Server S
      → Provider
      → String
      → Drawn
      → ℕ
      → Option ProviderConfig
      → Server S × Response
  unfolding start_flow refusal_url
  start_with digest srv provider next drawn now none =
      (srv, redirect (refusal_url srv.public_url next failed))
  start_with digest srv provider next drawn now (some cfg) =
      if is_some (check cfg provider)
      then (srv, redirect (refusal_url srv.public_url next failed))
      else start_flow digest srv provider next drawn now cfg

  unfoldable pub start_at :
      (String → String) → Server S → Option Provider → String → Drawn → ℕ → Server S × Response
  unfolding start_with provider_config
  start_at digest srv none next drawn now = (srv, not_found)
  start_at digest srv (some provider) next drawn now =
      start_with digest srv provider (safe_next next) drawn now (provider_config srv provider)

  unfoldable pub auth_start :
      (String → String) → Server S → String → String → Drawn → ℕ → Server S × Response
  unfolding start_at
  auth_start digest srv id next drawn now = start_at digest srv (from_id id) next drawn now

-- The providers that can be signed in with, by their ids and names, and whether registration is open.
unfoldable pub offered : Provider → Option ProviderConfig → List (String × String)
offered provider none = []
offered provider (some cfg) =
    if is_some (check cfg provider) then [] else (provider_id provider, display_name provider) ∷ []

module _ ⦃api : ItemApi⦄ {S : Type 0} where
  unfoldable pub auth_providers : ⦃st : Store S⦄ → Server S → List (String × String) × Bool
  unfolding offered provider_config
  auth_providers srv = (
    offered google (provider_config srv google) ++ offered apple (provider_config srv apple),
    registration_open srv.store,
  )

-- What the account that is signed in can be got into with.
pub record Methods : Type 0 where
  pub password : Bool
  pub google_account : Bool
  pub apple_account : Bool
  pub directory : Bool

module _ ⦃api : ItemApi⦄ where
  abbrev attached : Item → String → Bool
  attached u key = not (is_empty (trim (safe_str u key "")))

  methods_of : Option Item → Option Methods
  methods_of none = none
  methods_of (some u) = some (record {
    password = attached u "password";
    google_account = attached u (subject_key google);
    apple_account = attached u (subject_key apple);
    directory = attached u ldap_subject_key;
  })

  -- `none` is a caller who is not signed in, or is nobody.
  unfoldable pub auth_methods : {S : Type 0} ⦃st : Store S⦄ → S → Option String → Option Methods
  unfolding methods_of
  auth_methods s none = none
  auth_methods s (some principal) = methods_of (get_user s principal)
