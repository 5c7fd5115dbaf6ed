-- ===== src/Server/OAuth/Admitted.antt =====
-- src/server/oauth.rs: on what a callback makes a session.
use isabelle_core.Prelude.{
  Bool-cases, nat_Eq, string_Eq, is_empty, as_bytes, as_bytes_injective, Casing, ℕ, String, ◌≡◌,
  refl, sym, ap, ◌∙◌, ◌⊎◌, inl, inr, Bool, true, Option, none, some, get_or, arith,
}
use isabelle_core.Item.{Item, ItemApi}
use isabelle_core.Util.Crypto.{constant_time_eq_iff}
use isabelle_core.Util.Oidc.{
  Provider, google, apple, from_id, same_provider, ProviderConfig, WebApi,
}
use isabelle_core.Util.Oidc.Tokens.{JwtApi, Identity, exchange_code, verify_id_token}
use isabelle_core.Util.Oidc.Identities.{IsVouched, verify_id_token-IsVouched}
use isabelle_core.State.Store.{Store}
use isabelle_core.Server.UserControl.{get_user, login_is_acceptable}
use isabelle_core.Server.Guards.{Session}
use isabelle_core.Server.Hooks.{PostEditApi}
use isabelle_core.Server.SignIn.{
  Resolution, sign_in, create, refuse, resolve_identity, resolve_record, resolve_existing,
  may_register, record_for,
}
use isabelle_core.Server.SignIn.Linking.{IsAccountOf, account-resolve_identity}
use isabelle_core.Server.OAuth.{PendingFlow, take_flow, subject_key}
use isabelle_core.Server.OAuth.Callback.{
  Server, Callback, Browser, refused, provider_config, redirect_uri, resolve, session_of, signed_in,
  settled, identified, exchanged, configured, resumed, finish_at, finish,
}

same_provider-eq : (p q : Provider) → same_provider p q ≡ true → p ≡ q
same_provider-eq google google e = refl
same_provider-eq apple apple e = refl
same_provider-eq google apple e = cc e
same_provider-eq apple google e = cc e

-- May the identity have a session: as the account it is tied to, or as a new one?
abbrev pub IsEntitled :
    ⦃api : ItemApi⦄ {S : Type 0} ⦃st : Store S⦄ → S → Provider → Identity → Type 0
IsEntitled s provider i =
    ((u : Item) × (get_user s i.email ≡ some u)
      × IsAccountOf i.email i.subject (subject_key provider) i.email_verified u)
    ⊎ ((get_user s i.email ≡ none)
        × (i.email_verified ≡ true)
        × (may_register s i.email ≡ true)
        × (login_is_acceptable i.email ≡ true))

module _ ⦃api : ItemApi⦄ where
  resolve-create :
      (existing : Option Item) (i : Identity) (provider : Provider) (allow : Bool)
      → resolve existing i provider allow ≡ create
      → (existing ≡ none) × (i.email_verified ≡ true) × (allow ≡ true)
  unfolding resolve resolve_identity resolve_record resolve_existing
  resolve-create none i provider allow e = (refl, ground arith, ground arith)
  resolve-create (some u) i provider allow e = absurd (ground arith)

module _ ⦃api : ItemApi⦄ {S : Type 0} ⦃st : Store S⦄ ⦃hooks : PostEditApi S⦄ where
  signed_in-session :
      (srv : Server S) (provider : Provider) (browser : Browser) (flow : PendingFlow) (i : Identity)
      (r : Resolution) (existing : Option Item) (session : Session)
      → (signed_in srv provider browser flow i r existing).session ≡ some session
      → session.identity ≡ some i.email
  unfolding signed_in refused session_of
  signed_in-session srv provider browser flow i r existing session e =
      let written =
        (record_for srv.store srv.routes r existing i.email i.name i.subject
          (subject_key provider)).1 in
      elim (Bool-cases browser.attaches) [
        | inl attached ↦
            let made : session_of browser i.email written ≡ session = ground arith in
            ap (λ x. x.identity) (sym made)
        | inr failing ↦ absurd (ground arith)
      ]

  settled-session :
      (srv : Server S) (provider : Provider) (browser : Browser) (flow : PendingFlow) (i : Identity)
      (r : Resolution) (session : Session)
      → resolve (get_user srv.store i.email) i provider (may_register srv.store i.email) ≡ r
      → (settled srv provider browser flow i (get_user srv.store i.email) r).session ≡ some session
      → IsEntitled srv.store provider i × (session.identity ≡ some i.email)
  unfolding settled refused resolve
  settled-session srv provider browser flow i (refuse r) session h e = cc e
  settled-session srv provider browser flow i create session h e =
      let new =
        resolve-create (get_user srv.store i.email) i provider (may_register srv.store i.email) h in
      elim (Bool-cases (login_is_acceptable i.email)) [
        | inl fine ↦ (
          inr (new.0, new.1, new.2, fine),
          signed_in-session srv provider browser flow i create (get_user srv.store i.email) session
              (sym (rw fine refl) ∙ e),
        )
        | inr odd ↦ absurd (ground arith)
      ]
  settled-session srv provider browser flow i (sign_in id) session h e =
      let (u, is, same, account) =
        account-resolve_identity (get_user srv.store i.email) i.email i.email_verified i.subject
          (subject_key provider) (may_register srv.store i.email) id h in
      (
        inl (u, is, account),
        signed_in-session srv provider browser flow i (sign_in id) (get_user srv.store i.email)
            session e,
      )

  identified-session :
      (srv : Server S) (provider : Provider) (browser : Browser) (flow : PendingFlow)
      (o : Option Identity) (session : Session)
      → (identified srv provider browser flow o).session ≡ some session
      → (i : Identity) × (o ≡ some i)
        × IsEntitled srv.store provider i
        × (session.identity ≡ some i.email)
  unfolding identified refused
  identified-session srv provider browser flow none session e = cc e
  identified-session srv provider browser flow (some i) session e =
      let facts = settled-session srv provider browser flow i _ session refl e in
      (i, refl, facts.0, facts.1)

-- What a session rests on that a callback made: the flow that it was started with, in this browser,
-- the token that the provider gave for the code, and the identity in that token.
pub record IsEarned ⦃api : ItemApi⦄ ⦃web : WebApi⦄ ⦃jwt : JwtApi⦄ ⦃c : Casing⦄ {S : Type 0}
    ⦃st : Store S⦄ (srv : Server S) (id : String) (cb : Callback) (browser : Browser) (now : ℕ)
    (session : Session) : Type 0 where
  pub provider : Provider
  pub flow : PendingFlow
  pub cfg : ProviderConfig
  pub token : String
  pub identity : Identity
  pub is_provider : from_id id ≡ some provider
  pub is_in_flight : (take_flow srv.flows cb.state now).1 ≡ some flow
  pub is_its_provider : flow.provider ≡ provider
  pub is_its_browser : get_or browser.cookie "" ≡ flow.binding
  pub has_no_error : is_empty cb.error ≡ true
  pub is_exchanged :
      exchange_code provider cfg (redirect_uri srv provider) cb.code flow.verifier now ≡ some token
  pub is_vouched : IsVouched srv.keys provider cfg token flow.nonce now identity
  pub is_entitled : IsEntitled srv.store provider identity
  pub is_session_of : session.identity ≡ some identity.email

module _ ⦃api : ItemApi⦄ ⦃web : WebApi⦄ ⦃jwt : JwtApi⦄ ⦃c : Casing⦄ {S : Type 0} ⦃st : Store S⦄
    ⦃hooks : PostEditApi S⦄ where
  exchanged-session :
      (srv : Server S) (provider : Provider) (browser : Browser) (now : ℕ) (flow : PendingFlow)
      (cfg : ProviderConfig) (o : Option String) (session : Session)
      → (exchanged srv provider browser now flow cfg o).session ≡ some session
      → (token : String) × (i : Identity) × (o ≡ some token)
        × IsVouched srv.keys provider cfg token flow.nonce now i
        × IsEntitled srv.store provider i
        × (session.identity ≡ some i.email)
  unfolding exchanged refused
  exchanged-session srv provider browser now flow cfg none session e = cc e
  exchanged-session srv provider browser now flow cfg (some token) session e =
      let verified = verify_id_token srv.keys provider cfg token flow.nonce now in
      let (i, is, entitled, same) =
        identified-session (record srv { keys = verified.0 }) provider browser flow verified.1
          session e in
      (
        token,
        i,
        refl,
        verify_id_token-IsVouched srv.keys provider cfg token flow.nonce now i is,
        entitled,
        same,
      )

  configured-session :
      (srv : Server S) (provider : Provider) (cb : Callback) (browser : Browser) (now : ℕ)
      (flow : PendingFlow) (o : Option ProviderConfig) (session : Session)
      → (configured srv provider cb browser now flow o).session ≡ some session
      → (cfg : ProviderConfig) × (token : String) × (i : Identity) × (exchange_code provider cfg
            (redirect_uri srv provider)
            cb.code
            flow.verifier
            now
          ≡ some token)
        × IsVouched srv.keys provider cfg token flow.nonce now i
        × IsEntitled srv.store provider i
        × (session.identity ≡ some i.email)
  unfolding configured refused
  configured-session srv provider cb browser now flow none session e = cc e
  configured-session srv provider cb browser now flow (some cfg) session e =
      let (token, i, is, vouched, entitled, same) =
        exchanged-session srv provider browser now flow cfg _ session e in
      (cfg, token, i, is, vouched, entitled, same)

  in_flight :
      (srv : Server S) (provider : Provider) (cb : Callback) (browser : Browser) (now : ℕ)
      (o : Option PendingFlow) (session : Session)
      → (resumed srv provider cb browser now o).session ≡ some session
      → (flow : PendingFlow) × (o ≡ some flow)
        × ((resumed srv provider cb browser now (some flow)).session ≡ some session)
  unfolding resumed refused
  in_flight srv provider cb browser now none session e = cc e
  in_flight srv provider cb browser now (some flow) session e = (flow, refl, e)

  -- The tests that a callback passes before the provider is asked.
  resumed-session :
      (srv : Server S) (provider : Provider) (cb : Callback) (browser : Browser) (now : ℕ)
      (flow : PendingFlow) (session : Session)
      → (resumed srv provider cb browser now (some flow)).session ≡ some session
      → (flow.provider ≡ provider)
        × (get_or browser.cookie "" ≡ flow.binding)
        × (is_empty cb.error ≡ true)
        × ((configured srv provider cb browser now flow (provider_config srv provider)).session
            ≡ some session)
  unfolding resumed refused
  resumed-session srv provider cb browser now flow session e =
      let bound =
        constant_time_eq_iff (as_bytes (get_or browser.cookie "")) (as_bytes flow.binding) in
      (
        same_provider-eq flow.provider provider (ground arith),
        as_bytes_injective _ _ (bound.0 (ground arith)),
        ground arith,
        ground arith,
      )

  finish_at-IsEarned :
      (srv : Server S) (id : String) (cb : Callback) (browser : Browser) (now : ℕ)
      (session : Session) (o : Option Provider)
      → from_id id ≡ o
      → (finish_at srv o cb browser now).session ≡ some session
      → IsEarned srv id cb browser now session
  unfolding finish_at
  finish_at-IsEarned srv id cb browser now session none is e = cc e
  finish_at-IsEarned srv id cb browser now session (some provider) is e =
      let taken = take_flow srv.flows cb.state now in
      let after = record srv { flows = taken.0 } in
      let (flow, found, resumes) = in_flight after provider cb browser now taken.1 session e in
      let (its_provider, its_browser, no_error, more) =
        resumed-session after provider cb browser now flow session resumes in
      let (cfg, token, i, traded, vouched, entitled, same) =
        configured-session after provider cb browser now flow (provider_config after provider)
          session more in
      record {
        provider = provider;
        flow = flow;
        cfg = cfg;
        token = token;
        identity = i;
        is_provider = is;
        is_in_flight = found;
        is_its_provider = its_provider;
        is_its_browser = its_browser;
        has_no_error = no_error;
        is_exchanged = traded;
        is_vouched = vouched;
        is_entitled = entitled;
        is_session_of = same;
      }

  -- A callback makes a session only for an identity that a token names which the provider gave for
  -- the callback's code, which is vouched for, and which carries the nonce of a flow that is in
  -- flight under the callback's state, was started with this provider and in this browser; and only
  -- if the identity's account is active and tied to no other subject, or there is none and its
  -- address may register.
  pub finish-IsEarned :
      (srv : Server S) (id : String) (cb : Callback) (browser : Browser) (now : ℕ)
      (session : Session)
      → (finish srv id cb browser now).session ≡ some session
      → IsEarned srv id cb browser now session
  unfolding finish
  finish-IsEarned srv id cb browser now session e =
      finish_at-IsEarned srv id cb browser now session (from_id id) refl e
