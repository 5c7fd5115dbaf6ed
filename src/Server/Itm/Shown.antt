-- ===== src/Server/Itm/Shown.antt =====
-- src/server/itm.rs: what a listing shows of the accounts, and to whom.
use isabelle_core.Prelude.{
  Bool-cases, ◌==◌, nat_Eq, string_Eq, contains, Map, lookup, Casing, All, ℕ, String, ◌≡◌, refl,
  sym, ap, ◌∙◌, subst, ◌≢◌, ◌⊎◌, inl, inr, true, false, ◌&&◌, Option, none, some, List, [], ◌∷◌,
  arith,
}
use isabelle_core.Item.{Item, ItemApi}
use isabelle_core.State.Store.{Store, ListResult}
use isabelle_core.Server.UserControl.{get_user, check_role}
use isabelle_core.Server.ApiToken.{hidden_from_item_api}
use isabelle_core.Server.ListFilter.{JsonApi, is_credential_field, redact_credentials}
use isabelle_core.Server.ListFilter.Redaction.{Redacted, redact_credentials-Redacted}
use isabelle_core.State.RouteCache.{specs_of}
use isabelle_core.Server.PublicRead.{never, is_public, anonymous_may_list}
use isabelle_core.Server.Itm.Pages.{
  ListQuery, ListRequest, listed, ListApi, empty_page, is_viewer, redact_others, page_of,
}
use isabelle_core.Server.Itm.Listing.{
  recounted, filter_all, filtered, redacted, reply_with, list_for, list_as, list_query, itm_list,
  with_context,
}

-- Who is asking, as the handler finds them.
abbrev pub caller_of : ⦃api : ItemApi⦄ {S : Type 0} ⦃st : Store S⦄ → S → Option String → Option Item
caller_of s none = none
caller_of s (some principal) = get_user s principal

-- No field of the record is a credential.
abbrev pub HasNoCredentials : ⦃c : Casing⦄ → Item → Type 0
HasNoCredentials item =
    (k : String)
    → is_credential_field k ≡ true
    → (lookup k item.strs ≡ none)
      × (lookup k item.strstrs ≡ none)
      × (lookup k item.strids ≡ none)
      × (lookup k item.bools ≡ none)
      × (lookup k item.u64s ≡ none)
      × (lookup k item.ids ≡ none)

redacted-none {ℓ} :
    ⦃c : Casing⦄ {V : Type ℓ} (before after : Map String V) (k : String)
    → Redacted before after
    → is_credential_field k ≡ true
    → lookup k after ≡ none
redacted-none before after k h is = h k ∙ rw is refl

redact_credentials-HasNoCredentials :
    ⦃c : Casing⦄ (item : Item) → HasNoCredentials (redact_credentials item)
redact_credentials-HasNoCredentials item k is =
    let gone = redact_credentials-Redacted item in
    let out = redact_credentials item in
    (
      redacted-none item.strs out.strs k gone.1 is,
      redacted-none item.strstrs out.strstrs k gone.2 is,
      redacted-none item.strids out.strids k gone.3 is,
      redacted-none item.bools out.bools k gone.4 is,
      redacted-none item.u64s out.u64s k gone.5 is,
      redacted-none item.ids out.ids k gone.6 is,
    )

-- The viewer's own record, or one without credentials.
abbrev pub IsShowable : ⦃c : Casing⦄ → Option Item → ℕ × Item → Type 0
IsShowable usr e = (is_viewer usr e.1 ≡ true) ⊎ HasNoCredentials e.1

redact_others-IsShowable :
    ⦃c : Casing⦄ (usr : Option Item) (m : Map ℕ Item) → All (IsShowable usr) (redact_others usr m)
unfolding redact_others
redact_others-IsShowable usr [] = tt
redact_others-IsShowable usr ((id, item) ∷ m) =
    let rest = redact_others-IsShowable usr m in
    elim (Bool-cases (is_viewer usr item)) [
      | inl own ↦ (rw own (inl own), rest)
      | inr other ↦ (rw other (inr (redact_credentials-HasNoCredentials item)), rest)
    ]

recounted-map :
    (lq : ListQuery) (page shown : ListResult) (seen : Map ℕ Item)
    → recounted lq page seen ≡ listed shown
    → shown.map ≡ seen
unfolding recounted
recounted-map lq page shown seen e = ground arith

module _ ⦃api : ItemApi⦄ ⦃c : Casing⦄ ⦃json : JsonApi⦄ {S : Type 0} ⦃st : Store S⦄
    ⦃lists : ListApi S⦄ where
  -- A page that is answered is what the hooks leave of a redacted page.
  reply_with-map :
      (s : S) (usr : Option Item) (lq : ListQuery) (o : Option ListResult) (shown : ListResult)
      → reply_with s usr lq o ≡ listed shown
      → (page : ListResult) × (o ≡ some page)
        × (shown.map ≡ filtered s usr lq (redacted s usr lq page.map))
  unfolding reply_with
  reply_with-map s usr lq none shown e = cc e
  reply_with-map s usr lq (some page) shown e = (page, refl, recounted-map lq page shown _ e)

  list_for-map :
      (s : S) (usr : Option Item) (lq : ListQuery) (shown : ListResult)
      → list_for s usr lq ≡ listed shown
      → (page : ListResult) × (shown.map
          ≡ filtered s usr (with_context lq) (redacted s usr (with_context lq) page.map))
  unfolding list_for
  list_for-map s usr lq shown e =
      let lq_full = with_context lq in
      let (page, is, seen) =
        reply_with-map s usr lq_full (page_of s usr lq_full) shown (ground arith) in
      (page, seen)

  filtered-stock :
      (s : S) (usr : Option Item) (lq : ListQuery) (m : Map ℕ Item)
      → lookup "itm_list_filter_hook" (st.get_internals s).strstrs ≡ none
      → filtered s usr lq m ≡ m
  unfolding filtered filter_all
  filtered-stock s usr lq m stock = rw stock refl

  list_for-IsShowable :
      (s : S) (usr : Option Item) (lq : ListQuery) (shown : ListResult)
      → (lq.collection == "user") ≡ true
      → lookup "itm_list_filter_hook" (st.get_internals s).strstrs ≡ none
      → check_role s usr "admin" ≡ false
      → list_for s usr lq ≡ listed shown
      → All (IsShowable usr) shown.map
  unfolding redacted
  list_for-IsShowable s usr lq shown is_user stock ordinary e =
      let (page, seen) = list_for-map s usr lq shown e in
      let full = with_context lq in
      let same : (full.collection == "user") ≡ true = ground arith in
      let what : redacted s usr full page.map ≡ redact_others usr page.map =
        rw (same, ordinary) refl in
      subst (All (IsShowable usr))
        (sym (seen ∙ filtered-stock s usr full (redacted s usr full page.map) stock ∙ what))
        (redact_others-IsShowable usr page.map)

  list_as-IsShowable :
      (s : S) (features : List String) (o : Option String) (lq : ListQuery) (shown : ListResult)
      → (lq.collection == "user") ≡ true
      → lookup "itm_list_filter_hook" (st.get_internals s).strstrs ≡ none
      → check_role s (caller_of s o) "admin" ≡ false
      → list_as s features o lq ≡ listed shown
      → All (IsShowable (caller_of s o)) shown.map
  unfolding list_as
  list_as-IsShowable s features (some principal) lq shown is_user stock ordinary e =
      list_for-IsShowable s (get_user s principal) lq shown is_user stock ordinary e
  list_as-IsShowable s features none lq shown is_user stock ordinary e =
      elim (Bool-cases (is_public s features && anonymous_may_list s features lq.collection)) [
        | inl opened ↦ list_for-IsShowable s none lq shown is_user stock ordinary (ground arith)
        | inr closed ↦
            let nothing : shown ≡ empty_page = ground arith in
            subst (λ page. All (IsShowable none) page.map) (sym nothing) tt
      ]

  list_query-listed :
      (s : S) (features : List String) (req : ListRequest) (o : Option ListQuery)
      (shown : ListResult)
      → list_query s features req o ≡ listed shown
      → (lq : ListQuery) × (o ≡ some lq)
        × (hidden_from_item_api lq.collection ≡ false)
        × (list_as s features req.principal lq ≡ listed shown)
  unfolding list_query
  list_query-listed s features req none shown e = cc e
  list_query-listed s features req (some lq) shown e = (lq, refl, ground arith, ground arith)

  -- Without a hook that filters listings, a caller who is not an administrator is shown no
  -- credential of any account but their own: every record of a page of accounts is the caller's, or
  -- has none of the fields that are withheld.
  pub itm_list-IsShowable :
      (s : S) (features : List String) (req : ListRequest) (lq : ListQuery) (shown : ListResult)
      → req.query ≡ some lq
      → lq.collection ≡ "user"
      → lookup "itm_list_filter_hook" (st.get_internals s).strstrs ≡ none
      → check_role s (caller_of s req.principal) "admin" ≡ false
      → itm_list s features req ≡ listed shown
      → All (IsShowable (caller_of s req.principal)) shown.map
  unfolding itm_list
  itm_list-IsShowable s features req lq shown asked is_user stock ordinary e =
      let (q, found, visible, more) = list_query-listed s features req req.query shown e in
      let same : q ≡ lq = ground (arith, found, asked) in
      list_as-IsShowable s features req.principal q shown (rw (same, is_user) refl) stock ordinary
        more

  list_as-visitor :
      (s : S) (features : List String) (o : Option String) (lq : ListQuery) (shown : ListResult)
      → o ≡ none
      → list_as s features o lq ≡ listed shown
      → shown.map ≢ []
      → anonymous_may_list s features lq.collection ≡ true
  unfolding list_as
  list_as-visitor s features (some principal) lq shown visitor e some_items = cc visitor
  list_as-visitor s features none lq shown visitor e some_items =
      elim (Bool-cases (anonymous_may_list s features lq.collection)) [
        | inl opened ↦ opened
        | inr closed ↦
            let nothing : shown ≡ empty_page = ground arith in
            absurd (some_items (ap (λ page. page.map) nothing))
      ]

  -- A visitor with no session is answered with a record only of a collection that the internals
  -- open, on an instance that is public and not shared, and never of the accounts or the tokens.
  pub itm_list-visitor :
      (s : S) (features : List String) (req : ListRequest) (shown : ListResult)
      → req.principal ≡ none
      → itm_list s features req ≡ listed shown
      → shown.map ≢ []
      → (lq : ListQuery) × (req.query ≡ some lq)
        × (contains never lq.collection ≡ false)
        × (is_public s features ≡ true)
        × (contains (specs_of (st.get_internals s) "public_read_collections") lq.collection ≡ true)
  unfolding itm_list anonymous_may_list
  itm_list-visitor s features req shown visitor e some_items =
      let (lq, found, visible, more) = list_query-listed s features req req.query shown e in
      let opened = list_as-visitor s features req.principal lq shown visitor more some_items in
      (lq, found, ground arith, ground arith, ground arith)
