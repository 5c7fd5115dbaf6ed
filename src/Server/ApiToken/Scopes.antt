-- ===== src/Server/ApiToken/Scopes.antt =====
-- src/server/api_token.rs: what a token is good for.
use isabelle_core.Prelude.{
  nat_Eq, string_Eq, any, contains, starts_with, All, String, ◌≡◌, refl, ◌↔◌, ◌⊎◌, true, false,
  Option, none, some, List, [], ◌∷◌, arith, eq_iff,
}
use isabelle_core.Server.ApiToken.{scope_allows, is_never, never, is_granted, needed_scope}

-- The scope that the request needs is one of those granted.
abbrev pub Covered : String → List String → Option String → Type 0
Covered path granted declared =
    (s : String) × ((needed_scope path declared ≡ some s) × (contains granted s ≡ true))

none_of-All :
    (path : String) (ps : List String)
    → (any (λ p. starts_with path p) ps ≡ false) ↔ All (λ p. starts_with path p ≡ false) ps
none_of-All path [] = (λ h. tt, λ h. refl)
none_of-All path (p ∷ ps) =
    let rest = none_of-All path ps in
    (λ h. (ground arith, rest.0 (ground arith)), λ h. rw (h.0, rest.1 h.1) refl)

is_granted_iff :
    (granted : List String) (o : Option String)
    → (is_granted granted o ≡ true) ↔ ((s : String) × ((o ≡ some s) × (contains granted s ≡ true)))
unfolding is_granted
is_granted_iff granted none = (λ h. cc h, λ h. cc (h.1.0))
is_granted_iff granted (some n) = (
  λ h. (n, (refl, h)),
  λ h. let (m, (same, has)) = h in let n_m : n ≡ m = ground arith in rw n_m has,
)

-- A token reaches a route exactly when no forbidden prefix fits the path, and the route is the one
-- that every token reaches or the scope that it needs, core's own or the declared one, is among
-- those granted: a route without a scope is out of reach.
pub scope_allows_iff :
    (path : String) (granted : List String) (declared : Option String)
    → (scope_allows path granted declared ≡ true) ↔ (
        All (λ p. starts_with path p ≡ false) never
        × ((path ≡ "/is_logged_in") ⊎ Covered path granted declared))
unfolding scope_allows is_never
scope_allows_iff path granted declared = ground (
  arith,
  none_of-All path never,
  is_granted_iff granted (needed_scope path declared),
  eq_iff "/is_logged_in" path,
)
