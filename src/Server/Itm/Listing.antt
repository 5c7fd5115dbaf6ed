-- ===== src/Server/Itm/Listing.antt =====
-- src/server/itm.rs: `itm_list`. The reply is a status, or the page as it is sent.
use isabelle_core.Prelude.{
  if◌then◌else◌, ◌==◌, nat_Eq, string_Eq, u64_max, is_some, Map, lookup, is_empty, Casing, length,
  ℕ, ◌+◌, ◌-◌, ◌%◌, ◌^◌, String, ◌&&◌, not, Option, none, some, List, [], ◌∷◌,
}
use isabelle_core.Item.{Item, ItemApi}
use isabelle_core.State.Store.{Store, ListResult}
use isabelle_core.Server.UserControl.{get_user, check_role}
use isabelle_core.Server.ApiToken.{hidden_from_item_api}
use isabelle_core.Server.ListFilter.{JsonApi, validate_client_filter, field_is_allowed}
use isabelle_core.Server.PublicRead.{is_public, anonymous_may_list}
use isabelle_core.Server.Itm.Pages.{
  ListQuery, ListRequest, Reply, refused, listed, ListApi, empty_page, sorted_routes, redact_others,
  page_of,
}

abbrev pub routes_of : Option (Map String String) → List (String × String)
routes_of none = []
routes_of (some m) = sorted_routes m

-- `(before - after) as u64`, which wraps round in a release build
abbrev pub withheld : ℕ → ℕ → ℕ
withheld before after = (before + 2 ^ 64 - after) % 2 ^ 64

-- A page that the hooks have thinned is counted again where it was asked for by id.
unfoldable pub recounted : ListQuery → ListResult → Map ℕ Item → Reply
recounted lq page seen =
    if not (lq.id == u64_max)
    then (if length seen == 0
        then refused 400
        else listed (record { map = seen; total_count = length seen }))
    else if not (length lq.id_list == 0)
    then listed (record {
      map = seen;
      total_count = page.total_count - withheld (length page.map) (length seen);
    })
    else listed (record { map = seen; total_count = page.total_count })

abbrev pub with_context : ListQuery → ListQuery
with_context lq =
    if not (lq.id == u64_max) && is_empty lq.context then record lq { context = "full" } else lq

module _ {S : Type 0} ⦃st : Store S⦄ ⦃lists : ListApi S⦄ where
  unfoldable pub filter_all :
      S → List (String × String) → Option Item → ListQuery → Map ℕ Item → Map ℕ Item
  filter_all s [] usr lq m = m
  filter_all s ((name, h) ∷ hs) usr lq m =
      filter_all s hs usr lq (lists.list_filter_hook s h usr lq.collection lq.context m)

  unfoldable pub filtered : S → Option Item → ListQuery → Map ℕ Item → Map ℕ Item
  unfolding filter_all sorted_routes
  filtered s usr lq m =
      filter_all s (routes_of (lookup "itm_list_filter_hook" (st.get_internals s).strstrs)) usr lq m

module _ ⦃api : ItemApi⦄ ⦃c : Casing⦄ {S : Type 0} ⦃st : Store S⦄ ⦃lists : ListApi S⦄ where
  unfoldable pub redacted : S → Option Item → ListQuery → Map ℕ Item → Map ℕ Item
  unfolding redact_others
  redacted s usr lq m =
      if lq.collection == "user" && not (check_role s usr "admin") then redact_others usr m else m

  unfoldable pub reply_with : S → Option Item → ListQuery → Option ListResult → Reply
  unfolding redacted filtered recounted
  reply_with s usr lq none = refused 400
  reply_with s usr lq (some page) =
      recounted lq page (filtered s usr lq (redacted s usr lq page.map))

  unfoldable pub list_for : ⦃json : JsonApi⦄ → S → Option Item → ListQuery → Reply
  unfolding reply_with page_of
  list_for s usr lq =
      if is_some (validate_client_filter lq.filter_text)
      then refused 400
      else if not (is_empty lq.sort_key) && not (field_is_allowed lq.sort_key)
      then refused 400
      else reply_with s usr (with_context lq) (page_of s usr (with_context lq))

  unfoldable pub list_as : ⦃json : JsonApi⦄ → S → List String → Option String → ListQuery → Reply
  unfolding list_for
  list_as s features (some principal) lq = list_for s (get_user s principal) lq
  list_as s features none lq =
      if not (is_public s features)
      then refused 401
      else if not (anonymous_may_list s features lq.collection)
      then listed empty_page
      else list_for s none lq

  unfoldable pub list_query :
      ⦃json : JsonApi⦄ → S → List String → ListRequest → Option ListQuery → Reply
  unfolding list_as
  list_query s features req none = refused 400
  list_query s features req (some lq) =
      if hidden_from_item_api lq.collection
      then refused 403
      else if not (st.has_collection s lq.collection)
      then refused 400
      else list_as s features req.principal lq

  unfoldable pub itm_list : ⦃json : JsonApi⦄ → S → List String → ListRequest → Reply
  unfolding list_query
  itm_list s features req = list_query s features req req.query
