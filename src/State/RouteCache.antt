-- ===== src/State/RouteCache.antt =====
-- src/state/route_cache.rs: the tables that the handlers look routes and hooks up in, parsed once
-- from the internals. A specification is cut at its colons, and one that is too short or has an
-- empty part that matters is passed over. The values of a map are read in the order of its list.
pub mod Hooks
use isabelle_core.Prelude.{
  ltb, leb, nat_eq, if◌then◌else◌, nat_eq_iff, Bool-cases, Option-cases, Eq, ◌==◌, nat_Eq,
  string_Eq, u64_max, saturating_add, saturating_mul, is_some, any, all, contains, nat_eq_refl, Map,
  or_else, lookup, insert, remove, retain, contains_key, lookup-insert, lookup-remove, beq_refl,
  Distinct, insert-Distinct, remove-Distinct, is_empty, starts_with, append, contains_text,
  any_char, ends_with_char, first_part, split_on, is_whitespace, is_control, trim_start, trim_end,
  trim, utf8, as_bytes, as_bytes_injective, Casing, to_lowercase, to_lowercase, length, take, drop,
  length-take-le, window-append, All, All-take, All-drop, ℕ, zero, suc, ◌+◌, ◌-◌, ◌*◌, ◌/◌, ◌%◌,
  ◌^◌, ◌≤◌, ◌<◌, min, max, String, ◌≡◌, refl, sym, ap, ◌∙◌, subst, ◌≢◌, ◌↔◌, ◌⊎◌, inl, inr, Bool,
  true, false, ◌&&◌, ◌||◌, not, Option, none, some, get_or, List, [], ◌∷◌, ◌++◌, map, arith, eq_iff,
  eq_refl,
}
use isabelle_core.Item.{Item}

pub record RouteCache : Type 0 where
  pub url_routes : Map String String
  pub unprotected_url_routes : Map String String
  pub rest_routes : Map String String
  pub item_pre_edit : Map String (List String)
  pub item_pre_edit_wildcard : List String
  pub item_post_edit : Map String (List String)
  pub item_post_edit_wildcard : List String
  pub route_scopes : Map String String
  pub collection_scopes : Map String String

unfoldable pub values_of : Option (Map String String) → List String
values_of none = []
values_of (some m) = map (λ e. e.1) m

-- `internals.strstrs.get(key).unwrap_or(&empty).values()`
unfoldable pub specs_of : Item → String → List String
unfolding values_of
specs_of internals key = values_of (lookup key internals.strstrs)

-- `path:method:handler`
unfoldable pub path_route : List String → Map String String → Map String String
path_route (path ∷ method ∷ handler ∷ more) into =
    if not (is_empty path) && not (is_empty handler) then insert path handler into else into
path_route _ into = into

-- `path:scope`
unfoldable pub route_scope : List String → Map String String → Map String String
route_scope (path ∷ scope ∷ more) into =
    if not (is_empty path) && not (is_empty scope) then insert path scope into else into
route_scope _ into = into

-- `collection:verb:scope`
unfoldable pub collection_scope : List String → Map String String → Map String String
collection_scope (collection ∷ verb ∷ scope ∷ more) into =
    if not (is_empty collection) && not (is_empty scope)
    then insert (append collection (append ":" verb)) scope into
    else into
collection_scope _ into = into

unfoldable pub parse_all :
    (List String → Map String String → Map String String)
    → List String
    → Map String String
    → Map String String
parse_all step [] into = into
parse_all step (spec ∷ specs) into = parse_all step specs (step (split_on b':' spec) into)

-- The hooks of each collection, and those of all of them.
pub record HookTable : Type 0 where
  pub by_coll : Map String (List String)
  pub wildcard : List String

-- `entry(key).or_default().push(v)`
unfoldable pub push_at : String → String → Map String (List String) → Map String (List String)
push_at key v m = insert key (get_or (lookup key m) [] ++ (v ∷ [])) m

-- `collection:handler` or `*:handler`
unfoldable pub parse_collection_hook : List String → HookTable → HookTable
unfolding push_at
parse_collection_hook (collection ∷ handler ∷ more) t =
    if is_empty handler
    then t
    else if collection == "*"
    then record t { wildcard = t.wildcard ++ (handler ∷ []) }
    else if not (is_empty collection)
    then record t { by_coll = push_at collection handler t.by_coll }
    else t
parse_collection_hook _ t = t

unfoldable pub parse_hooks : List String → HookTable → HookTable
unfolding parse_collection_hook
parse_hooks [] t = t
parse_hooks (spec ∷ specs) t = parse_hooks specs (parse_collection_hook (split_on b':' spec) t)

abbrev pub no_hooks : HookTable
no_hooks = record { by_coll = []; wildcard = [] }

unfoldable pub from_internals : Item → RouteCache
unfolding specs_of parse_all path_route route_scope collection_scope parse_hooks
from_internals internals =
    let pre = parse_hooks (specs_of internals "item_pre_edit_hook") no_hooks in
    let post = parse_hooks (specs_of internals "item_post_edit_hook") no_hooks in
    record {
      url_routes = parse_all path_route (specs_of internals "extra_route") [];
      unprotected_url_routes =
          parse_all path_route (specs_of internals "extra_unprotected_route") [];
      rest_routes = parse_all path_route (specs_of internals "extra_rest_route") [];
      item_pre_edit = pre.by_coll;
      item_pre_edit_wildcard = pre.wildcard;
      item_post_edit = post.by_coll;
      item_post_edit_wildcard = post.wildcard;
      route_scopes = parse_all route_scope (specs_of internals "route_scope") [];
      collection_scopes = parse_all collection_scope (specs_of internals "collection_scope") [];
    }

-- The hooks that a handler calls for a collection, in their order: its own, then those of all.
unfoldable pub pre_edit_hooks : RouteCache → String → List String
pre_edit_hooks cache collection =
    get_or (lookup collection cache.item_pre_edit) [] ++ cache.item_pre_edit_wildcard

unfoldable pub post_edit_hooks : RouteCache → String → List String
post_edit_hooks cache collection =
    get_or (lookup collection cache.item_post_edit) [] ++ cache.item_post_edit_wildcard
