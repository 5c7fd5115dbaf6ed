-- ===== src/Server/Itm/Pages.antt =====
-- src/server/itm.rs: what `itm_list` reads from the store, before anything is withheld. The plugins' hooks
-- on a listing are an interface; a hook that writes to the store while it answers is left out.
use isabelle_core.Prelude.{
  ltb, if◌then◌else◌, ◌==◌, nat_Eq, string_Eq, u64_max, Map, insert, is_empty, append, Casing,
  length, take, drop, ℕ, String, Bool, true, false, ◌||◌, not, Option, none, some, List, [], ◌∷◌,
  ◌++◌,
}
use Prim.Native.Nat.{Ordering}
use Prim.Native.String.{compare}
use isabelle_core.Item.{Item}
use isabelle_core.State.Store.{Store, ListResult}
use isabelle_core.State.RouteCache.{specs_of}
use isabelle_core.Server.ListFilter.{redact_credentials}

pub record ListQuery : Type 0 where
  pub collection : String
  pub context : String
  pub id : ℕ
  pub id_min : ℕ
  pub id_max : ℕ
  pub id_list : List ℕ
  pub sort_key : String
  pub filter_text : String
  pub skip : ℕ
  pub limit : ℕ

pub record ListRequest : Type 0 where
  pub principal : Option String
  pub query : Option ListQuery

pub data Reply : Type 0 where
  refused : ℕ → Reply
  listed : ListResult → Reply

-- The plugins' answers to the hooks on a listing: filters to add, and the page as it may be seen.
pub record ListApi (S : Type 0) : Type 0 where
  pub db_filter_hook : S → String → Option Item → String → String → List String
  pub list_filter_hook : S → String → Option Item → String → String → Map ℕ Item → Map ℕ Item

abbrev pub empty_page : ListResult
empty_page = record { map = []; total_count = 0 }

-- `{ "$and": [a, b]}` of the filters, from the left
unfoldable pub conjoin : String → List String → String
conjoin acc [] = acc
conjoin acc (f ∷ fs) =
    conjoin
      (if is_empty acc
        then f
        else append "{ \"$and\": [" (append acc (append ", " (append f "]}"))))
      fs

unfoldable pub insert_by_id : ℕ × Item → List (ℕ × Item) → List (ℕ × Item)
insert_by_id e [] = e ∷ []
insert_by_id e (x ∷ xs) =
    let rest = insert_by_id e xs in if ltb x.0 e.0 then x ∷ rest else e ∷ x ∷ xs

-- `found.sort_by_key(|(id, _)| *id)`, which is stable
unfoldable pub sort_by_id : List (ℕ × Item) → List (ℕ × Item)
unfolding insert_by_id
sort_by_id [] = []
sort_by_id (e ∷ es) = insert_by_id e (sort_by_id es)

unfoldable pub insert_all : List (ℕ × Item) → Map ℕ Item → Map ℕ Item
insert_all [] m = m
insert_all ((id, item) ∷ es) m = insert_all es (insert id item m)

abbrev pub window : ℕ → ℕ → List (ℕ × Item) → List (ℕ × Item)
window skip limit found =
    let rest = drop (if skip == u64_max then 0 else skip) found in
    if limit == u64_max then rest else take limit rest

-- `routes.sort_by(|a, b| a.0.cmp(b.0))`
unfoldable pub insert_route : String × String → List (String × String) → List (String × String)
insert_route e [] = e ∷ []
insert_route e (x ∷ xs) =
    let rest = insert_route e xs in
    elim (compare x.0 e.0) [ Ordering.lt ↦ x ∷ rest | _ ↦ e ∷ x ∷ xs ]

unfoldable pub sorted_routes : List (String × String) → List (String × String)
unfolding insert_route
sorted_routes [] = []
sorted_routes (e ∷ es) = insert_route e (sorted_routes es)

abbrev pub is_viewer : Option Item → Item → Bool
is_viewer none item = false
is_viewer (some usr) item = usr.id == item.id

-- Every item but the viewer's own, without its credentials.
unfoldable pub redact_others : ⦃c : Casing⦄ → Option Item → Map ℕ Item → Map ℕ Item
redact_others usr [] = []
redact_others usr ((id, item) ∷ m) =
    (id, if is_viewer usr item then item else redact_credentials item) ∷ redact_others usr m

module _ {S : Type 0} ⦃st : Store S⦄ where
  -- The items of a list of ids that exist.
  unfoldable pub found_items : S → String → List ℕ → List (ℕ × Item)
  found_items s collection [] = []
  found_items s collection (id ∷ ids) =
      let rest = found_items s collection ids in
      elim (st.get_item s collection id) [ some item ↦ (id, item) ∷ rest | none ↦ rest ]

  unfoldable pub by_id_list : S → ListQuery → ListResult
  unfolding found_items sort_by_id insert_all
  by_id_list s lq =
      let found = sort_by_id (found_items s lq.collection lq.id_list) in
      record { map = insert_all (window lq.skip lq.limit found) []; total_count = length found }

module _ {S : Type 0} ⦃st : Store S⦄ ⦃lists : ListApi S⦄ where
  unfoldable pub db_filters : S → List String → Option Item → ListQuery → List String
  db_filters s [] usr lq = []
  db_filters s (h ∷ hs) usr lq =
      lists.db_filter_hook s h usr lq.collection lq.context ++ db_filters s hs usr lq

  unfoldable pub by_range : S → Option Item → ListQuery → ListResult
  unfolding db_filters conjoin
  by_range s usr lq =
      let hooked = db_filters s (specs_of (st.get_internals s) "itm_list_db_filter_hook") usr lq in
      st.get_items s lq.collection lq.id_min lq.id_max lq.sort_key
        (conjoin "" (if is_empty lq.filter_text then hooked else lq.filter_text ∷ hooked)) lq.skip
        lq.limit

  -- What the store answers, before anything is withheld; `none` is a single record that is missing.
  unfoldable pub page_of : S → Option Item → ListQuery → Option ListResult
  unfolding by_range by_id_list
  page_of s usr lq =
      if not (lq.id == u64_max)
      then elim (st.get_item s lq.collection lq.id) [
        | none ↦ none
        | some item ↦ some (record { map = (lq.id, item) ∷ []; total_count = 1 })
      ]
      else if not (lq.id_min == u64_max)
          || not (lq.id_max == u64_max)
          || not (is_empty lq.sort_key)
          || not (is_empty lq.filter_text)
      then some (by_range s usr lq)
      else if is_some_id lq.id_list
      then some (by_id_list s lq)
      else some empty_page
    where
      is_some_id : List ℕ → Bool
      is_some_id [] = false
      is_some_id (id ∷ ids) = true
