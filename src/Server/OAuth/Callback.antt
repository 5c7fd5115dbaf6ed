-- ===== src/Server/OAuth/Callback.antt =====
-- src/server/oauth.rs: what a callback from a provider does (`finish`), step by step, and the start
-- of a sign-in. The random texts and the clock are arguments. A response is its status and address;
-- its cookie, which is the flow's or none, is left out.
use isabelle_core.Prelude.{
  if◌then◌else◌, nat_Eq, string_Eq, is_empty, append, contains_text, trim, trim_end_matches,
  as_bytes, Casing, ℕ, String, Bool, not, Option, none, some, get_or,
}
use isabelle_core.Item.{Item, ItemApi, safe_str}
use isabelle_core.Util.Crypto.{constant_time_eq}
use isabelle_core.Util.Oidc.{
  Provider, from_id, provider_id, secret_name, same_provider, ProviderConfig, WebApi,
}
use isabelle_core.Util.Oidc.Tokens.{JwtApi, Identity, KeyCache, exchange_code, verify_id_token}
use isabelle_core.State.Store.{Store}
use isabelle_core.State.RouteCache.{RouteCache}
use isabelle_core.State.Secrets.{SecretStore, get_by_name}
use isabelle_core.Server.UserControl.{get_user, session_generation, login_is_acceptable}
use isabelle_core.Server.Guards.{Session}
use isabelle_core.Server.Hooks.{PostEditApi}
use isabelle_core.Server.SignIn.{
  Refusal, denied, failed, slug, Resolution, sign_in, create, refuse, resolve_identity,
  may_register, record_for,
}
use isabelle_core.Server.OAuth.{
  PendingFlow, PendingFlows, take_flow, safe_next, subject_key, site_url,
}

-- What the handlers share: the store, and the parts of the server's state that a sign-in uses.
pub record Server (S : Type 0) : Type 0 where
  pub store : S
  pub flows : PendingFlows
  pub keys : KeyCache
  pub secrets : Option SecretStore
  pub routes : RouteCache
  pub public_url : String

pub record Callback : Type 0 where
  pub code : String
  pub state : String
  pub error : String

-- The browser: the cookie of the flow, its session, and whether an identity and a generation can be
-- put into that.
pub record Browser : Type 0 where
  pub cookie : Option String
  pub session : Session
  pub attaches : Bool
  pub stamps : Bool

pub data Response : Type 0 where
  not_found : Response
  redirect : String → Response

-- The server afterwards, the response, and the session if one was made.
pub record Outcome (S : Type 0) : Type 0 where
  pub server : Server S
  pub response : Response
  pub session : Option Session

module _ ⦃api : ItemApi⦄ where
  unfoldable pub config_of : Option Item → Option ProviderConfig
  config_of none = none
  config_of (some item) = some (record {
    client_id = safe_str item "client_id" "";
    client_secret = safe_str item "client_secret" "";
    team_id = safe_str item "team_id" "";
    key_id = safe_str item "key_id" "";
    private_key = safe_str item "private_key" "";
  })

  unfoldable pub entry_of : Option SecretStore → Provider → Option Item
  entry_of none provider = none
  entry_of (some secrets) provider = get_by_name secrets (secret_name provider)

  unfoldable pub provider_config : {S : Type 0} → Server S → Provider → Option ProviderConfig
  unfolding config_of entry_of
  provider_config srv provider = config_of (entry_of srv.secrets provider)

  abbrev explicit_uri : Option Item → String
  explicit_uri none = ""
  explicit_uri (some item) = trim (safe_str item "redirect_uri" "")

  unfoldable pub redirect_uri : {S : Type 0} → Server S → Provider → String
  unfolding entry_of
  redirect_uri srv provider =
      let explicit = explicit_uri (entry_of srv.secrets provider) in
      if not (is_empty explicit)
      then explicit
      else append (trim_end_matches b'/' srv.public_url)
          (append "/api/auth/" (append (provider_id provider) "/callback"))

  unfoldable pub resolve : Option Item → Identity → Provider → Bool → Resolution
  resolve existing identity provider allow =
      resolve_identity existing identity.email identity.email_verified identity.subject
        (subject_key provider) allow

abbrev pub separator : String → String
separator target = if contains_text target "?" then "&" else "?"

unfoldable pub refusal_url : String → String → Refusal → String
refusal_url public_url next why =
    append (site_url public_url (safe_next next))
      (append (separator (safe_next next)) (append "auth_error=" (slug why)))

unfoldable pub refused : {S : Type 0} → Server S → String → Refusal → Outcome S
unfolding refusal_url
refused srv next why = record {
  server = srv;
  response = redirect (refusal_url srv.public_url next why);
  session = none;
}

generation_of : ⦃api : ItemApi⦄ → Option Item → ℕ
generation_of none = 0
generation_of (some u) = session_generation u

unfoldable pub session_of : ⦃api : ItemApi⦄ → Browser → String → Option Item → Session
unfolding generation_of
session_of browser email u = record {
  identity = some email;
  sgen = if browser.stamps then some (generation_of u) else (browser.session).sgen;
}

module _ ⦃api : ItemApi⦄ {S : Type 0} ⦃st : Store S⦄ ⦃hooks : PostEditApi S⦄ where
  -- The session is stamped with the record as it stands after the write.
  unfoldable pub signed_in :
      Server S → Provider → Browser → PendingFlow → Identity → Resolution → Option Item → Outcome S
  unfolding session_of refused
  signed_in srv provider browser flow i resolution existing =
      let written =
        record_for srv.store srv.routes resolution existing i.email i.name i.subject
          (subject_key provider) in
      let after = record srv { store = written.0 } in
      if not browser.attaches then refused after flow.next failed else record {
        server = after;
        response = redirect (site_url srv.public_url flow.next);
        session = some (session_of browser i.email written.1);
      }

  unfoldable pub settled :
      Server S → Provider → Browser → PendingFlow → Identity → Option Item → Resolution → Outcome S
  unfolding signed_in refused
  settled srv provider browser flow i existing (refuse r) = refused srv flow.next r
  settled srv provider browser flow i existing create =
      if not (login_is_acceptable i.email)
      then refused srv flow.next failed
      else signed_in srv provider browser flow i create existing
  settled srv provider browser flow i existing (sign_in id) =
      signed_in srv provider browser flow i (sign_in id) existing

  unfoldable pub identified :
      Server S → Provider → Browser → PendingFlow → Option Identity → Outcome S
  unfolding settled resolve refused
  identified srv provider browser flow none = refused srv flow.next failed
  identified srv provider browser flow (some i) =
      let existing = get_user srv.store i.email in
      settled srv provider browser flow i existing
        (resolve existing i provider (may_register srv.store i.email))

module _ ⦃api : ItemApi⦄ ⦃web : WebApi⦄ ⦃jwt : JwtApi⦄ ⦃c : Casing⦄ {S : Type 0} ⦃st : Store S⦄
    ⦃hooks : PostEditApi S⦄ where
  unfoldable pub exchanged :
      Server S → Provider → Browser → ℕ → PendingFlow → ProviderConfig → Option String → Outcome S
  unfolding identified refused
  exchanged srv provider browser now flow cfg none = refused srv flow.next failed
  exchanged srv provider browser now flow cfg (some token) =
      let verified = verify_id_token srv.keys provider cfg token flow.nonce now in
      identified (record srv { keys = verified.0 }) provider browser flow verified.1

  unfoldable pub configured :
      Server S → Provider → Callback → Browser → ℕ → PendingFlow → Option ProviderConfig → Outcome S
  unfolding exchanged redirect_uri refused
  configured srv provider cb browser now flow none = refused srv flow.next failed
  configured srv provider cb browser now flow (some cfg) =
      exchanged srv provider browser now flow cfg
        (exchange_code provider cfg (redirect_uri srv provider) cb.code flow.verifier now)

  unfoldable pub resumed :
      Server S → Provider → Callback → Browser → ℕ → Option PendingFlow → Outcome S
  unfolding configured provider_config refused
  resumed srv provider cb browser now none = refused srv "/" failed
  resumed srv provider cb browser now (some flow) =
      if not (same_provider flow.provider provider)
      then refused srv "/" failed
      else if not (constant_time_eq (as_bytes (get_or browser.cookie "")) (as_bytes flow.binding))
      then refused srv flow.next failed
      else if not (is_empty cb.error)
      then refused srv flow.next denied
      else if is_empty cb.code
      then refused srv flow.next failed
      else configured srv provider cb browser now flow (provider_config srv provider)

  unfoldable pub finish_at : Server S → Option Provider → Callback → Browser → ℕ → Outcome S
  unfolding resumed
  finish_at srv none cb browser now = record { server = srv; response = not_found; session = none }
  finish_at srv (some provider) cb browser now =
      let taken = take_flow srv.flows cb.state now in
      resumed (record srv { flows = taken.0 }) provider cb browser now taken.1

  unfoldable pub finish : Server S → String → Callback → Browser → ℕ → Outcome S
  unfolding finish_at
  finish srv id cb browser now = finish_at srv (from_id id) cb browser now
