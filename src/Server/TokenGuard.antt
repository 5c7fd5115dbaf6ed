-- ===== src/Server/TokenGuard.antt =====
-- src/server/guards.rs: `accept_api_token`, which lets a program in by its token.
-- The header and the query have been read: `presented` is the token in the header, if it carries
-- one, and `collection` the collection that the query names, if any. Whether the identity can be
-- attached to the request is an argument. After the handler the session is purged, so that the
-- session made here ends with the request.
pub mod Admission
use isabelle_core.Prelude.{
  ltb, leb, nat_eq, if◌then◌else◌, nat_eq_iff, Bool-cases, Option-cases, Eq, ◌==◌, nat_Eq,
  string_Eq, u64_max, saturating_add, saturating_mul, is_some, any, all, contains, nat_eq_refl, Map,
  or_else, lookup, insert, remove, retain, contains_key, lookup-insert, lookup-remove, beq_refl,
  Distinct, insert-Distinct, remove-Distinct, is_empty, starts_with, append, contains_text,
  any_char, ends_with_char, split_on, is_whitespace, is_control, trim_start, trim_end, trim, utf8,
  as_bytes, as_bytes_injective, Casing, to_lowercase, to_lowercase, length, take, drop,
  length-take-le, window-append, All, All-take, All-drop, ℕ, zero, suc, ◌+◌, ◌-◌, ◌*◌, ◌/◌, ◌%◌,
  ◌^◌, ◌≤◌, ◌<◌, min, max, String, ◌≡◌, refl, sym, ap, ◌∙◌, subst, ◌≢◌, ◌↔◌, ◌⊎◌, inl, inr, Bool,
  true, false, ◌&&◌, ◌||◌, not, Option, none, some, get_or, List, [], ◌∷◌, ◌++◌, map, arith, eq_iff,
  eq_refl,
}
use isabelle_core.Item.{Item, ItemApi, safe_str, safe_bool, safe_id}
use isabelle_core.State.Store.{Store}
use isabelle_core.State.RouteCache.{RouteCache}
use isabelle_core.Server.UserControl.{session_generation}
use isabelle_core.Server.Guards.{Session}
use isabelle_core.Server.ApiToken.{
  TokenApi, Presented, Outcome, Rejected, accepted, refused, resolve, scopes_of, scope_allows,
  item_route_verb, touch,
}

pub record TokenRequest : Type 0 where
  pub path : String
  pub collection : Option String
  pub presented : Option Presented
  pub identity : Option String

-- Handed on as it came, refused with a status, or handed on with a session made for it.
pub data Verdict : Type 0 where
  untouched : Verdict
  stopped : ℕ → Verdict
  served : Session → Verdict

scope_of_collection : RouteCache → String → Option String → Option String
scope_of_collection cache verb none = none
scope_of_collection cache verb (some c) =
    lookup (append c (append ":" verb)) cache.collection_scopes

scope_of_route : RouteCache → TokenRequest → Option String → Option String
unfolding scope_of_collection
scope_of_route cache req (some verb) = scope_of_collection cache verb req.collection
scope_of_route cache req none = lookup req.path cache.route_scopes

unfoldable pub declared_scope : RouteCache → TokenRequest → Option String
unfolding scope_of_route
declared_scope cache req = scope_of_route cache req (item_route_verb req.path)

-- The session that the handler of a token's request sees.
unfoldable pub session_for : ⦃api : ItemApi⦄ → Item → Session
session_for owner = record {
  identity = some (safe_str owner "email" "");
  sgen = some (session_generation owner);
}

module _ ⦃api : ItemApi⦄ ⦃t : TokenApi⦄ {S : Type 0} ⦃st : Store S⦄ where
  unfoldable pub admit : S → RouteCache → TokenRequest → Bool → ℕ → Item → Option Item → S × Verdict
  unfolding session_for
  admit s cache req attached now token none = (s, stopped 401)
  admit s cache req attached now token (some owner) =
      if not (safe_bool owner "role_is_active" false)
      then (s, stopped 401)
      else if not (scope_allows req.path (scopes_of token) (declared_scope cache req))
      then (s, stopped 403)
      else if is_empty (trim (safe_str owner "email" ""))
      then (s, stopped 401)
      else if not attached
      then (s, stopped 401)
      else (touch s token now, served (session_for owner))

  unfoldable pub admit_resolved :
      S → RouteCache → TokenRequest → Bool → ℕ → Outcome Item Rejected → S × Verdict
  unfolding admit
  admit_resolved s cache req attached now (refused reason) = (s, stopped 401)
  admit_resolved s cache req attached now (accepted token) =
      admit s cache req attached now token (st.get_item s "user" (safe_id token "user" u64_max))

  unfoldable pub admit_presented :
      S → RouteCache → TokenRequest → Bool → ℕ → Option Presented → S × Verdict
  unfolding admit_resolved
  admit_presented s cache req attached now none = (s, untouched)
  admit_presented s cache req attached now (some p) =
      if is_some req.identity
      then (s, stopped 400)
      else admit_resolved s cache req attached now (resolve s p now)

  -- Where the state is registered, as it is in the server.
  unfoldable pub accept_api_token : S → RouteCache → TokenRequest → Bool → ℕ → S × Verdict
  unfolding admit_presented
  accept_api_token s cache req attached now = admit_presented s cache req attached now req.presented
