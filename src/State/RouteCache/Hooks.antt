-- ===== src/State/RouteCache/Hooks.antt =====
-- src/state/route_cache.rs: the hooks that run for a collection are those that the internals bind.
use isabelle_core.Prelude.{
  Bool-cases, ◌==◌, nat_Eq, string_Eq, any, contains, lookup, lookup-insert, is_empty, split_on,
  String, ◌≡◌, refl, inl, inr, Bool, false, ◌&&◌, ◌||◌, not, get_or, List, [], ◌∷◌, ◌++◌, arith,
  eq_iff,
}
use isabelle_core.Item.{Item}
use isabelle_core.State.RouteCache.{
  HookTable, specs_of, push_at, parse_collection_hook, parse_hooks, no_hooks, from_internals,
  pre_edit_hooks, post_edit_hooks,
}

-- Does a specification bind a handler to a collection?
abbrev binds_parts : String → String → List String → Bool
binds_parts collection handler (c ∷ h ∷ more) =
    not (is_empty h) && (h == handler) && (c == "*" || not (is_empty c) && (c == collection))
binds_parts collection handler _ = false

abbrev pub binds : String → String → String → Bool
binds collection handler spec = binds_parts collection handler (split_on b':' spec)

abbrev hooks_in : HookTable → String → List String
hooks_in t collection = get_or (lookup collection t.by_coll) [] ++ t.wildcard

contains-append :
    (xs ys : List String) (h : String) → contains (xs ++ ys) h ≡ (contains xs h || contains ys h)
contains-append [] ys h = refl
contains-append (x ∷ xs) ys h = ground (arith, contains-append xs ys h)

-- Calling the right hooks: those called already, or the one that is appended.
contains-snoc :
    (xs : List String) (y h : String) → contains (xs ++ (y ∷ [])) h ≡ (contains xs h || (y == h))
contains-snoc xs y h = rw contains-append (ground arith)

hooks_in-push_at :
    (t : HookTable) (x y c h : String)
    → contains (hooks_in (record t { by_coll = push_at x y t.by_coll }) c) h
      ≡ (contains (hooks_in t c) h || (x == c && (y == h)))
unfolding push_at
hooks_in-push_at t x y c h =
    let l = get_or (lookup c t.by_coll) [] in
    let own = lookup-insert x c (get_or (lookup x t.by_coll) [] ++ (y ∷ [])) t.by_coll in
    elim (Bool-cases (x == c)) [
      | inl same ↦
          rw (own, same, (eq_iff x c).0 same, contains-append (l ++ (y ∷ [])) t.wildcard h)
            (rw (contains-snoc l y h, contains-append l t.wildcard h) (ground arith))
      | inr other ↦ rw (own, other) (ground arith)
    ]

hooks_in-wildcard :
    (t : HookTable) (y c h : String)
    → contains (hooks_in (record t { wildcard = t.wildcard ++ (y ∷ []) }) c) h
      ≡ (contains (hooks_in t c) h || (y == h))
hooks_in-wildcard t y c h =
    let l = get_or (lookup c t.by_coll) [] in
    rw (contains-append l (t.wildcard ++ (y ∷ [])) h, contains-snoc t.wildcard y h)
      (rw (contains-append l t.wildcard h) (ground arith))

parse_collection_hook-contains :
    (parts : List String) (t : HookTable) (c h : String)
    → contains (hooks_in (parse_collection_hook parts t) c) h
      ≡ (contains (hooks_in t c) h || binds_parts c h parts)
unfolding parse_collection_hook
parse_collection_hook-contains [] t c h = ground arith
parse_collection_hook-contains (x ∷ []) t c h = ground arith
parse_collection_hook-contains (x ∷ y ∷ more) t c h =
    ground (arith, hooks_in-push_at t x y c h, hooks_in-wildcard t y c h)

parse_hooks-contains :
    (specs : List String) (t : HookTable) (c h : String)
    → contains (hooks_in (parse_hooks specs t) c) h
      ≡ (contains (hooks_in t c) h || any (binds c h) specs)
unfolding parse_hooks
parse_hooks-contains [] t c h = ground arith
parse_hooks-contains (spec ∷ specs) t c h = ground (
  arith,
  parse_hooks-contains specs (parse_collection_hook (split_on b':' spec) t) c h,
  parse_collection_hook-contains (split_on b':' spec) t c h,
)

-- Exactly the handlers that some entry of the internals binds to a collection, by its name or by
-- `*`, are called before and after an edit of it: an entry never displaces another.
pub from_internals-hooks :
    (internals : Item) (c h : String)
    → (contains (pre_edit_hooks (from_internals internals) c) h
        ≡ any (binds c h) (specs_of internals "item_pre_edit_hook"))
      × (contains (post_edit_hooks (from_internals internals) c) h
          ≡ any (binds c h) (specs_of internals "item_post_edit_hook"))
unfolding from_internals pre_edit_hooks post_edit_hooks lookup
from_internals-hooks internals c h = (
  parse_hooks-contains (specs_of internals "item_pre_edit_hook") no_hooks c h,
  parse_hooks-contains (specs_of internals "item_post_edit_hook") no_hooks c h,
)
