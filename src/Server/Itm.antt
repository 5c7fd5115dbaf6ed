-- ===== src/Server/Itm.antt =====
-- src/server/itm.rs: writing and removing items (`itm_edit`, `itm_del`). The listing is in
-- Server/Itm/Listing.antt. A request has been cut into its parts: a part that could not be read is
-- `none`. What a plugin answers to a hook is an interface, and it may change the store.
pub mod Pages
pub mod Listing
pub mod Authorised
pub mod Shown
use isabelle_core.Prelude.{
  ltb, leb, nat_eq, if◌then◌else◌, nat_eq_iff, Bool-cases, Option-cases, ◌>>=◌, Eq, ◌==◌, nat_Eq,
  string_Eq, u64_max, saturating_add, saturating_mul, is_some, any, all, contains, nat_eq_refl, Map,
  or_else, lookup, insert, remove, retain, contains_key, lookup-insert, lookup-remove, beq_refl,
  Distinct, insert-Distinct, remove-Distinct, is_empty, starts_with, append, contains_text,
  any_char, ends_with_char, first_part, split_on, is_whitespace, is_control, trim_start, trim_end,
  trim, to_ascii_lowercase, eq_ignore_ascii_case, rsplit_once, trim_start_matches, trim_end_matches,
  ends_with, split_when, utf8, as_bytes, as_bytes_injective, Casing, to_lowercase, to_lowercase,
  length, take, drop, length-take-le, window-append, All, All-take, All-drop, ℕ, zero, suc, ◌+◌,
  ◌-◌, ◌*◌, ◌/◌, ◌%◌, ◌^◌, ◌≤◌, ◌<◌, min, max, String, ◌≡◌, refl, sym, ap, ◌∙◌, subst, ◌≢◌, ◌↔◌,
  ◌⊎◌, inl, inr, Bool, true, false, ◌&&◌, ◌||◌, not, Option, none, some, get_or, List, [], ◌∷◌,
  ◌++◌, map, arith, eq_iff, eq_refl,
}
use isabelle_core.Item.{Item, ItemApi, new, merge}
use isabelle_core.State.Store.{Store}
use isabelle_core.State.RouteCache.{RouteCache, specs_of, pre_edit_hooks, post_edit_hooks}
use isabelle_core.Server.UserControl.{get_user, apply_session_revocation}
use isabelle_core.Server.Owner.{is_owned, stamp}
use isabelle_core.Server.ApiToken.{hidden_from_item_api}
use isabelle_core.Server.Hooks.{
  DataObjectAction, create, modify, delete, PostEditApi, post_edit_all,
}

pub record MergeColl : Type 0 where
  pub collection : String
  pub merge : Bool

-- The fields of the body: the status where they could not be read, and the `item` among them, which
-- is `none` inside where it is no item.
pub data Fields : Type 0 where
  unreadable : ℕ → Fields
  without_item : Fields
  with_item : Option Item → Fields

pub record EditRequest : Type 0 where
  pub principal : String
  pub query : Option MergeColl
  pub item : Option Item
  pub fields : Fields

pub data Answer : Type 0 where
  refused : ℕ → Answer
  hook_failed : String → Answer
  not_stored : Answer
  stored_as : ℕ → Answer
  removed : Answer

-- The plugins' answers to the hooks before an edit, and `Item::normalize_negated` of `isabelle_dm`.
-- The hook before an edit may change the item; it answers an error or none.
pub record EditApi (S : Type 0) : Type 0 where
  pub normalize_negated : Item → Item
  pub item_auth_hook : S → String → Option Item → String → ℕ → Option Item → Bool → S × Bool
  pub item_pre_edit_hook :
      S
      → String
      → Option Item
      → String
      → Option Item
      → Item
      → DataObjectAction
      → Bool
      → S × Item × Option String

module _ {S : Type 0} ⦃edits : EditApi S⦄ where
  -- Every hook is asked until one refuses.
  unfoldable pub auth_all :
      S → List String → Option Item → String → ℕ → Option Item → Bool → S × Bool
  auth_all s [] usr collection id item del = (s, true)
  auth_all s (h ∷ hs) usr collection id item del =
      let asked = edits.item_auth_hook s h usr collection id item del in
      let rest = auth_all asked.0 hs usr collection id item del in
      if not asked.1 then (asked.0, false) else rest

  unfoldable pub pre_edit_all :
      S
      → List String
      → Option Item
      → String
      → Option Item
      → Item
      → DataObjectAction
      → Bool
      → S × Item × Option String
  pre_edit_all s [] usr collection old item action merging = (s, item, none)
  pre_edit_all s (h ∷ hs) usr collection old item action merging =
      let asked = edits.item_pre_edit_hook s h usr collection old item action merging in
      let rest = pre_edit_all asked.0 hs usr collection old asked.1 action merging in
      elim asked.2 [ some error ↦ asked | none ↦ rest ]

-- The body's item over the one in the query.
unfoldable pub with_fields : ⦃api : ItemApi⦄ → Item → Fields → ℕ ⊎ Item
with_fields item (unreadable status) = inl status
with_fields item without_item = inr item
with_fields item (with_item parsed) = inr (merge item (get_or parsed new))

abbrev pub action_on : Option Item → DataObjectAction
action_on none = create
action_on (some old) = modify

module _ ⦃api : ItemApi⦄ {S : Type 0} ⦃st : Store S⦄ ⦃edits : EditApi S⦄
    ⦃hooks : PostEditApi S⦄ where
  -- The write, with the generation raised where it ends sessions, and the hooks after it.
  unfoldable pub write_edited :
      RouteCache → MergeColl → Option Item → S × Item × Option String → S × Answer
  write_edited cache mc old (s, item, some error) = (s, hook_failed error)
  write_edited cache mc old (s, item, none) =
      let written =
        st.set_item s mc.collection (apply_session_revocation s mc.collection old item mc.merge)
          mc.merge in
      if written.1 == u64_max then (written.0, not_stored) else (
        post_edit_all written.0 (post_edit_hooks cache mc.collection) mc.collection old written.1
            (action_on old),
        stored_as written.1,
      )

  unfoldable pub store_edited : S → RouteCache → Option Item → MergeColl → Item → S × Answer
  unfolding write_edited pre_edit_all
  store_edited s cache usr mc item =
      let old = st.get_item s mc.collection item.id in
      if not (st.has_collection s mc.collection)
      then (s, refused 400)
      else write_edited cache mc old (
          pre_edit_all s (pre_edit_hooks cache mc.collection) usr mc.collection old item
            (action_on old) mc.merge)

  unfoldable pub authorised_edit : S → RouteCache → Option Item → MergeColl → Item → S × Answer
  unfolding auth_all store_edited
  authorised_edit s cache usr mc item =
      let asked =
        auth_all s (specs_of (st.get_internals s) "itm_auth_hook") usr mc.collection item.id
          (some item) false in
      if not asked.1
      then (asked.0, refused 403)
      else store_edited asked.0 cache usr mc (edits.normalize_negated item)

  -- An owned collection's record is stamped with the owner it will have before the hooks see it.
  unfoldable pub stamped_edit : S → RouteCache → Option Item → MergeColl → Item → S × Answer
  unfolding authorised_edit
  stamped_edit s cache none mc item =
      if is_owned (st.get_internals s) mc.collection
      then (s, refused 403)
      else authorised_edit s cache none mc item
  stamped_edit s cache (some u) mc item =
      if is_owned (st.get_internals s) mc.collection
      then authorised_edit s cache (some u) mc
          (stamp item (st.get_item s mc.collection item.id) u.id)
      else authorised_edit s cache (some u) mc item

  unfoldable pub edit_with : S → RouteCache → Option Item → MergeColl → ℕ ⊎ Item → S × Answer
  unfolding stamped_edit
  edit_with s cache usr mc (inl status) = (s, refused status)
  edit_with s cache usr mc (inr item) = stamped_edit s cache usr mc item

  unfoldable pub edit_item : S → RouteCache → EditRequest → MergeColl → Option Item → S × Answer
  unfolding edit_with with_fields
  edit_item s cache req mc none = (s, refused 400)
  edit_item s cache req mc (some item) =
      edit_with s cache (get_user s req.principal) mc (with_fields item req.fields)

  unfoldable pub edit_query : S → RouteCache → EditRequest → Option MergeColl → S × Answer
  unfolding edit_item
  edit_query s cache req none = (s, refused 400)
  edit_query s cache req (some mc) =
      if hidden_from_item_api mc.collection
      then (s, refused 403)
      else edit_item s cache req mc req.item

  unfoldable pub itm_edit : S → RouteCache → EditRequest → S × Answer
  unfolding edit_query
  itm_edit s cache req = edit_query s cache req req.query

  unfoldable pub remove_item :
      RouteCache → MergeColl → ℕ → Option Item → S × Item × Option String → S × Answer
  remove_item cache mc id old (s, item, some error) = (s, hook_failed error)
  remove_item cache mc id old (s, item, none) = (
    post_edit_all (st.del_item s mc.collection id).0 (post_edit_hooks cache mc.collection)
        mc.collection old id delete,
    removed,
  )

  unfoldable pub del_stored : S → RouteCache → Option Item → MergeColl → ℕ → S × Answer
  unfolding remove_item pre_edit_all
  del_stored s cache usr mc id =
      let old = st.get_item s mc.collection id in
      if not (st.has_collection s mc.collection)
      then (s, refused 400)
      else remove_item cache mc id old (
          pre_edit_all s (pre_edit_hooks cache mc.collection) usr mc.collection old new delete
            mc.merge)

  unfoldable pub authorised_del : S → RouteCache → Option Item → MergeColl → ℕ → S × Answer
  unfolding auth_all del_stored
  authorised_del s cache usr mc id =
      let asked =
        auth_all s (specs_of (st.get_internals s) "itm_auth_hook") usr mc.collection id none true in
      if not asked.1 then (asked.0, refused 403) else del_stored asked.0 cache usr mc id

  unfoldable pub del_query : S → RouteCache → EditRequest → Option MergeColl → S × Answer
  unfolding authorised_del
  del_query s cache req none = (s, refused 400)
  del_query s cache req (some mc) =
      if hidden_from_item_api mc.collection then (s, refused 403) else elim req.item [
        | none ↦ (s, refused 400)
        | some item ↦ authorised_del s cache (get_user s req.principal) mc item.id
      ]

  unfoldable pub itm_del : S → RouteCache → EditRequest → S × Answer
  unfolding del_query
  itm_del s cache req = del_query s cache req req.query
