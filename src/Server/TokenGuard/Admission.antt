-- ===== src/Server/TokenGuard/Admission.antt =====
-- src/server/guards.rs: which requests with a token are served.
use isabelle_core.Prelude.{
  Bool-cases, Option-cases, nat_Eq, string_Eq, u64_max, is_some, is_empty, trim, ℕ, ◌≡◌, refl, inl,
  inr, Bool, true, false, Option, none, some, arith,
}
use isabelle_core.Item.{Item, ItemApi, safe_str, safe_bool, safe_id}
use isabelle_core.State.Store.{Store}
use isabelle_core.Server.Guards.{Session}
use isabelle_core.Server.ApiToken.{
  TokenApi, Presented, Outcome, Rejected, accepted, refused, resolve, scopes_of, scope_allows,
}
use isabelle_core.State.RouteCache.{RouteCache}
use isabelle_core.Server.TokenGuard.{
  TokenRequest, stopped, served, declared_scope, session_for, admit, admit_resolved,
  admit_presented, accept_api_token,
}

module _ ⦃api : ItemApi⦄ ⦃t : TokenApi⦄ {S : Type 0} ⦃st : Store S⦄ where
  -- What a request has to bring to be served as an account.
  pub record Admitted (s : S) (cache : RouteCache) (req : TokenRequest) (now : ℕ)
      (session : Session) : Type 0 where
    pub presented : Presented
    pub token : Item
    pub owner : Item
    pub carries : req.presented ≡ some presented
    pub no_session : req.identity ≡ none
    pub valid : resolve s presented now ≡ accepted token
    pub owned : st.get_item s "user" (safe_id token "user" u64_max) ≡ some owner
    pub active : safe_bool owner "role_is_active" false ≡ true
    pub in_scope : scope_allows req.path (scopes_of token) (declared_scope cache req) ≡ true
    pub named : is_empty (trim (safe_str owner "email" "")) ≡ false
    pub as_owner : session ≡ session_for owner

  admit-served :
      (s : S) (cache : RouteCache) (req : TokenRequest) (attached : Bool) (now : ℕ)
      (session : Session) (token : Item) (o : Option Item)
      → (admit s cache req attached now token o).1 ≡ served session
      → (owner : Item) × ((o ≡ some owner)
          × ((safe_bool owner "role_is_active" false ≡ true)
              × ((scope_allows req.path (scopes_of token) (declared_scope cache req) ≡ true)
                  × ((is_empty (trim (safe_str owner "email" "")) ≡ false)
                      × (session ≡ session_for owner)))))
  unfolding admit
  admit-served s cache req attached now session token none h = ground arith
  admit-served s cache req attached now session token (some owner) h =
      (owner, (refl, (ground arith, (ground arith, (ground arith, ground arith)))))

  -- A token serves a request only if the request has no session of its own, the token resolves, its
  -- owner is an active account with an e-mail address, and the request is inside the token's scopes;
  -- the handler then sees the owner's session and no other.
  pub accept_api_token-Admitted :
      (s : S) (cache : RouteCache) (req : TokenRequest) (attached : Bool) (now : ℕ)
      (session : Session)
      → (accept_api_token s cache req attached now).1 ≡ served session
      → Admitted s cache req now session
  unfolding accept_api_token admit_presented admit_resolved
  accept_api_token-Admitted s cache req attached now session h = by_presented req.presented refl h
    where
      by_outcome :
          (p : Presented)
          → req.presented ≡ some p
          → req.identity ≡ none
          → (o : Outcome Item Rejected) → resolve s p now ≡ o
          → (admit_resolved s cache req attached now o).1 ≡ served session
          → Admitted s cache req now session
      by_outcome p carries alone (refused reason) e h = ground arith
      by_outcome p carries alone (accepted token) e h =
          let (owner, (owned, (active, (in_scope, (named, as_owner))))) =
            admit-served s cache req attached now session token
              (st.get_item s "user" (safe_id token "user" u64_max)) h in
          record {
            presented = p;
            token = token;
            owner = owner;
            carries = carries;
            no_session = alone;
            valid = e;
            owned = owned;
            active = active;
            in_scope = in_scope;
            named = named;
            as_owner = as_owner;
          }

      by_presented :
          (o : Option Presented)
          → req.presented ≡ o
          → (admit_presented s cache req attached now o).1 ≡ served session
          → Admitted s cache req now session
      by_presented none e h = ground arith
      by_presented (some p) e h = elim (Option-cases req.identity) [
        | inl alone ↦ by_outcome p e alone (resolve s p now) refl (ground arith)
        | inr (who, known) ↦ ground arith
      ]

  admit-stopped :
      (s : S) (cache : RouteCache) (req : TokenRequest) (attached : Bool) (now status : ℕ)
      (token : Item) (o : Option Item)
      → (admit s cache req attached now token o).1 ≡ stopped status
      → (admit s cache req attached now token o).0 ≡ s
  unfolding admit
  admit-stopped s cache req attached now status token none h = refl
  admit-stopped s cache req attached now status token (some owner) h = ground arith

  admit_resolved-stopped :
      (s : S) (cache : RouteCache) (req : TokenRequest) (attached : Bool) (now status : ℕ)
      (o : Outcome Item Rejected)
      → (admit_resolved s cache req attached now o).1 ≡ stopped status
      → (admit_resolved s cache req attached now o).0 ≡ s
  unfolding admit_resolved
  admit_resolved-stopped s cache req attached now status (refused reason) h = refl
  admit_resolved-stopped s cache req attached now status (accepted token) h =
      admit-stopped s cache req attached now status token
        (st.get_item s "user" (safe_id token "user" u64_max)) h

  -- A request that is refused leaves the store as it was.
  pub accept_api_token-stopped :
      (s : S) (cache : RouteCache) (req : TokenRequest) (attached : Bool) (now status : ℕ)
      → (accept_api_token s cache req attached now).1 ≡ stopped status
      → (accept_api_token s cache req attached now).0 ≡ s
  unfolding accept_api_token admit_presented
  accept_api_token-stopped s cache req attached now status h = by_presented req.presented h
    where
      by_presented :
          (o : Option Presented)
          → (admit_presented s cache req attached now o).1 ≡ stopped status
          → (admit_presented s cache req attached now o).0 ≡ s
      by_presented none h = refl
      by_presented (some p) h = elim (Bool-cases (is_some req.identity)) [
        | inl known ↦ rw known refl
        | inr alone ↦ rw alone (
            admit_resolved-stopped s cache req attached now status (resolve s p now)
              (rw alone at h))
      ]
