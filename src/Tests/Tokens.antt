-- ===== src/Tests/Tokens.antt =====
-- Runs of the tokens.
use isabelle_core.Prelude.{
  nat_Eq, string_Eq, u64_max, lookup, insert, starts_with, append, trim, as_bytes, All, String, ◌≡◌,
  refl, ◌≢◌, ◌↔◌, ◌⊎◌, true, false, none, some, List, [], ◌∷◌, arith,
}
use isabelle_core.Item.{Item, set_bool, new}
use isabelle_core.Item.Merging.{number_patch}
use isabelle_core.Util.Crypto.{constant_time_eq}
use isabelle_core.State.Store.{at_id}
use isabelle_core.State.StoreMemory.{StoreMemory, memory, set_item, get_item, peek, next_id, max_id}
use isabelle_core.State.StoreMemory.Users.{memory_laws}
use isabelle_core.Server.ApiToken.{
  check, is_expired, needed_scope, resolve_record, is_granted, is_never, scopes_of, item_route_verb,
  outcome_of, TokenApi, token_collection, revoked, refused, resolve, touch, revoke, IssueRequest,
  issued, expiry, token_record, issue, scope_allows, never, no_scopes,
}
use isabelle_core.Server.ApiToken.Scopes.{Covered, scope_allows_iff}
use isabelle_core.Server.ApiToken.Lifetime.{resolve-revoke}
use isabelle_core.Server.UserControl.{session_generation}
use isabelle_core.State.RouteCache.{RouteCache}
use isabelle_core.Server.TokenGuard.{
  TokenRequest, stopped, served, declared_scope, session_for, accept_api_token,
}
use isabelle_core.Server.TokenGuard.Admission.{Admitted, accept_api_token-Admitted}
use isabelle_core.Tests.Fixtures.{no_routes, users, alice, items, caseless, empty_store}

-- Scopes are coded as one text, the first of them: enough to see a token through.
first_of : List String → String
first_of [] = ""
first_of (x ∷ xs) = x

instance pub tokens : TokenApi
unfolding first_of append
tokens = record { hash = append "h:"; read_scopes = λ s. s ∷ []; write_scopes = first_of }

scope_allows_iff_example : (scope_allows "/itm/list" ("read" ∷ []) (some "read") ≡ true) ↔ (
    All (λ p. starts_with "/itm/list" p ≡ false) never
    × ((◌≡◌ {A = String} "/itm/list" "/is_logged_in")
        ⊎ Covered "/itm/list" ("read" ∷ []) (some "read")))
scope_allows_iff_example = scope_allows_iff "/itm/list" ("read" ∷ []) (some "read")

abbrev pub request : IssueRequest
request = record { name = "ci"; scopes = "read" ∷ []; expires_days = 1 }

abbrev pub with_token : StoreMemory
with_token = (issue empty_store 3 request "s3cret" 100).0

request_issued : (issue empty_store 3 request "s3cret" 100).1 ≡ issued 1 "s3cret"
unfolding issue no_scopes trim set_item lookup next_id max_id token_record
request_issued = refl

revoke_stored :
    (set_item with_token token_collection (set_bool (record new { id = 1 }) "revoked" true) true).1
    ≢ u64_max
unfolding set_item
revoke_stored = λ e. omega (arith, e)

resolve-revoke_example :
    resolve (revoke with_token 1) (record { id = 1; secret = "s3cret" }) 200 ≡ refused revoked
resolve-revoke_example =
    resolve-revoke memory_laws with_token 1 "s3cret" 200 (λ e. omega (arith, e)) revoke_stored

abbrev the_token : Item
the_token = at_id (token_record 3 request "s3cret" 100) 1

token_known : get_item with_token token_collection 1 ≡ some the_token
unfolding issue no_scopes trim set_item lookup insert next_id max_id token_record get_item peek
token_known = refl

touch_stored :
    (set_item with_token token_collection (number_patch the_token 1 200 "last_used") true).1
    ≢ u64_max
unfolding set_item
touch_stored = λ e. omega (arith, e)

-- Alice's token lets a listing through that it has the scope of, and is refused a settings edit.
abbrev with_both : StoreMemory
with_both = (issue users 3 request "s3cret" 100).0

abbrev routes : RouteCache
routes = record no_routes { collection_scopes = ("task:read", "read") ∷ [] }

abbrev listing : TokenRequest
listing = record {
  path = "/itm/list";
  collection = some "task";
  presented = some (record { id = 1; secret = "s3cret" });
  identity = none;
}

listing_served : (accept_api_token with_both routes listing true 200).1 ≡ served (session_for alice)
unfolding issue no_scopes trim set_item lookup insert next_id max_id token_record get_item peek
    accept_api_token resolve check is_expired expiry constant_time_eq as_bytes scope_allows
    is_granted needed_scope is_never scopes_of declared_scope item_route_verb append outcome_of
    touch session_for session_generation resolve_record tokens
listing_served = refl

accept_api_token-Admitted_example : Admitted with_both routes listing 200 (session_for alice)
accept_api_token-Admitted_example =
    accept_api_token-Admitted with_both routes listing true 200 (session_for alice) listing_served

abbrev editing : TokenRequest
editing = record {
  path = "/setting/edit";
  collection = none;
  presented = some (record { id = 1; secret = "s3cret" });
  identity = none;
}

editing_stopped : (accept_api_token with_both routes editing true 200).1 ≡ stopped 403
unfolding issue no_scopes trim set_item lookup insert next_id max_id token_record get_item peek
    accept_api_token resolve check is_expired expiry constant_time_eq as_bytes scope_allows
    is_granted needed_scope is_never scopes_of declared_scope item_route_verb append outcome_of
    touch resolve_record tokens
editing_stopped = refl
