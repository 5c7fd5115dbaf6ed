-- ===== src/Server/OAuth/Redirects.antt =====
-- src/server/oauth.rs: where every callback ends, and that it spends its flow.
use isabelle_core.Prelude.{
  if◌then◌else◌, Bool-cases, nat_Eq, contains_text, ◌⊎◌, inl, inr, string_Eq, is_empty, append,
  trim_end_matches, Casing, ℕ, String, ◌≡◌, refl, sym, subst, Bool, true, false, not, Option, none,
  some,
}
use isabelle_core.Item.{Item, ItemApi}
use isabelle_core.Util.Oidc.{Provider, from_id, same_provider, ProviderConfig, WebApi}
use isabelle_core.Util.Oidc.Tokens.{JwtApi, Identity, verify_id_token}
use isabelle_core.State.Store.{Store}
use isabelle_core.Server.UserControl.{get_user, login_is_acceptable}
use isabelle_core.Server.Hooks.{PostEditApi}
use isabelle_core.Server.SignIn.{Refusal, denied, failed, slug, Resolution, sign_in, create, refuse}
use isabelle_core.Server.OAuth.{PendingFlow, PendingFlows, take_flow, safe_next, site_url}
use isabelle_core.Server.OAuth.Paths.{IsLocal, safe_next-IsLocal}
use isabelle_core.Server.OAuth.Callback.{
  Server, Callback, Browser, Response, not_found, redirect, Outcome, separator, refusal_url,
  refused, signed_in, settled, identified, exchanged, configured, resumed, finish_at, finish,
}

-- What the site adds to a path: nothing, or the reason why nobody was signed in.
abbrev pub IsNote : String → Type 0
IsNote query =
    (query ≡ "")
    ⊎ ((why : Refusal) × ((query ≡ append "?auth_error=" (slug why))
          ⊎ (query ≡ append "&auth_error=" (slug why))))

-- The address is the site's, then a path on it, then at most the query that the site adds.
pub record IsOnSite (base url : String) : Type 0 where
  pub path : String
  pub query : String
  pub is_local : IsLocal path
  pub is_note : IsNote query
  pub is_url : url ≡ append (append base path) query

abbrev pub StaysOn : String → Response → Type 0
StaysOn base not_found = Unit
StaysOn base (redirect url) = IsOnSite base url

-- The flows are these, and the browser stays on the site.
pub record IsProper {S : Type 0} (base : String) (flows : PendingFlows) (o : Outcome S)
    : Type 0 where
  pub has_flows : (o.server).flows ≡ flows
  pub stays : StaysOn base o.response

abbrev base_of : String → String
base_of public_url = trim_end_matches b'/' public_url

append_nil : (s : String) → append s "" ≡ s
unfolding append
append_nil String.[] = refl
append_nil (String.◌∷◌ c s) = rw (append_nil s) refl

site_url-IsOnSite :
    (public_url path : String) → IsOnSite (base_of public_url) (site_url public_url path)
unfolding site_url
site_url-IsOnSite public_url path = record {
  path = safe_next path;
  query = "";
  is_local = safe_next-IsLocal path;
  is_note = inl refl;
  is_url = sym (append_nil (append (base_of public_url) (safe_next path)));
}

reason_after :
    (path : String) (why : Refusal)
    → (append (separator path) (append "auth_error=" (slug why)) ≡ append "?auth_error=" (slug why))
      ⊎ (append (separator path) (append "auth_error=" (slug why))
          ≡ append "&auth_error=" (slug why))
unfolding append
reason_after path why = elim (Bool-cases (contains_text path "?")) [
  | inl queried ↦ inr (rw queried refl)
  | inr plain ↦ inl (rw plain refl)
]

refusal_url-IsOnSite :
    (public_url next : String) (why : Refusal)
    → IsOnSite (base_of public_url) (refusal_url public_url next why)
unfolding refusal_url site_url
refusal_url-IsOnSite public_url next why = record {
  path = safe_next (safe_next next);
  query = append (separator (safe_next next)) (append "auth_error=" (slug why));
  is_local = safe_next-IsLocal (safe_next next);
  is_note = inr (why, reason_after (safe_next next) why);
  is_url = refl;
}

module _ {S : Type 0} where
  abbrev Proper : Server S → Outcome S → Type 0
  Proper srv o = IsProper (base_of srv.public_url) srv.flows o

  if_Proper :
      (srv : Server S) (b : Bool) (x y : Outcome S)
      → Proper srv x
      → Proper srv y
      → Proper srv (if b then x else y)
  if_Proper srv true x y hx hy = hx
  if_Proper srv false x y hx hy = hy

  refused-Proper :
      (srv : Server S) (next : String) (why : Refusal) → Proper srv (refused srv next why)
  unfolding refused
  refused-Proper srv next why = record {
    has_flows = refl;
    stays = refusal_url-IsOnSite srv.public_url next why;
  }

module _ ⦃api : ItemApi⦄ {S : Type 0} ⦃st : Store S⦄ ⦃hooks : PostEditApi S⦄ where
  signed_in-Proper :
      (srv : Server S) (provider : Provider) (browser : Browser) (flow : PendingFlow) (i : Identity)
      (r : Resolution) (existing : Option Item)
      → Proper srv (signed_in srv provider browser flow i r existing)
  unfolding signed_in
  signed_in-Proper srv provider browser flow i r existing =
      if_Proper srv (not browser.attaches) _ _ (refused-Proper _ flow.next failed)
        (record { has_flows = refl; stays = site_url-IsOnSite srv.public_url flow.next })

  settled-Proper :
      (srv : Server S) (provider : Provider) (browser : Browser) (flow : PendingFlow) (i : Identity)
      (existing : Option Item) (r : Resolution)
      → Proper srv (settled srv provider browser flow i existing r)
  unfolding settled
  settled-Proper srv provider browser flow i existing (refuse r) = refused-Proper srv flow.next r
  settled-Proper srv provider browser flow i existing create =
      if_Proper srv (not (login_is_acceptable i.email)) _ _ (refused-Proper srv flow.next failed)
        (signed_in-Proper srv provider browser flow i create existing)
  settled-Proper srv provider browser flow i existing (sign_in id) =
      signed_in-Proper srv provider browser flow i (sign_in id) existing

  identified-Proper :
      (srv : Server S) (provider : Provider) (browser : Browser) (flow : PendingFlow)
      (o : Option Identity)
      → Proper srv (identified srv provider browser flow o)
  unfolding identified
  identified-Proper srv provider browser flow none = refused-Proper srv flow.next failed
  identified-Proper srv provider browser flow (some i) =
      settled-Proper srv provider browser flow i (get_user srv.store i.email) _

module _ ⦃api : ItemApi⦄ ⦃web : WebApi⦄ ⦃jwt : JwtApi⦄ ⦃c : Casing⦄ {S : Type 0} ⦃st : Store S⦄
    ⦃hooks : PostEditApi S⦄ where
  exchanged-Proper :
      (srv : Server S) (provider : Provider) (browser : Browser) (now : ℕ) (flow : PendingFlow)
      (cfg : ProviderConfig) (o : Option String)
      → Proper srv (exchanged srv provider browser now flow cfg o)
  unfolding exchanged
  exchanged-Proper srv provider browser now flow cfg none = refused-Proper srv flow.next failed
  exchanged-Proper srv provider browser now flow cfg (some token) =
      let verified = verify_id_token srv.keys provider cfg token flow.nonce now in
      identified-Proper (record srv { keys = verified.0 }) provider browser flow verified.1

  configured-Proper :
      (srv : Server S) (provider : Provider) (cb : Callback) (browser : Browser) (now : ℕ)
      (flow : PendingFlow) (o : Option ProviderConfig)
      → Proper srv (configured srv provider cb browser now flow o)
  unfolding configured
  configured-Proper srv provider cb browser now flow none = refused-Proper srv flow.next failed
  configured-Proper srv provider cb browser now flow (some cfg) =
      exchanged-Proper srv provider browser now flow cfg _

  resumed-Proper :
      (srv : Server S) (provider : Provider) (cb : Callback) (browser : Browser) (now : ℕ)
      (o : Option PendingFlow)
      → Proper srv (resumed srv provider cb browser now o)
  unfolding resumed
  resumed-Proper srv provider cb browser now none = refused-Proper srv "/" failed
  resumed-Proper srv provider cb browser now (some flow) =
      if_Proper srv (not (same_provider flow.provider provider)) _ _ (refused-Proper srv "/" failed)
        (if_Proper srv _ _ _ (refused-Proper srv flow.next failed) (
          if_Proper srv (not (is_empty cb.error)) _ _ (refused-Proper srv flow.next denied) (
            if_Proper srv (is_empty cb.code) _ _ (refused-Proper srv flow.next failed)
              (configured-Proper srv provider cb browser now flow _))))

  -- A callback that names a provider spends its state, however it ends: the flows afterwards are
  -- those that taking it leaves. And the browser is sent nowhere but to a path on this site, to
  -- which at most the query `auth_error` with a reason is added, whatever the flow and the callback
  -- hold.
  pub finish-IsProper :
      (srv : Server S) (id : String) (provider : Provider) (cb : Callback) (browser : Browser)
      (now : ℕ)
      → from_id id ≡ some provider
      → IsProper
          (base_of srv.public_url)
          (take_flow srv.flows cb.state now).0
          (finish srv id cb browser now)
  unfolding finish finish_at
  finish-IsProper srv id provider cb browser now is =
      let taken = take_flow srv.flows cb.state now in
      subst (λ o. IsProper (base_of srv.public_url) taken.0 (finish_at srv o cb browser now))
        (sym is) (resumed-Proper (record srv { flows = taken.0 }) provider cb browser now taken.1)
