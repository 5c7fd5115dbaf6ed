-- ===== src/Server/Itm/Authorised.antt =====
-- src/server/itm.rs: the whole way of an edit that is answered as stored, from the request to the
-- hooks after the write.
use isabelle_core.Prelude.{
  nat_eq_iff, Bool-cases, ◌==◌, nat_Eq, string_Eq, u64_max, ℕ, String, ◌≡◌, refl, sym, ap, ◌∙◌,
  subst, ◌≢◌, ◌⊎◌, inl, inr, Bool, true, false, Option, none, some, get_or, List, [], ◌∷◌, arith,
}
use isabelle_core.Item.{Item, ItemApi, new, merge}
use isabelle_core.State.Store.{Store}
use isabelle_core.State.RouteCache.{RouteCache, specs_of, pre_edit_hooks, post_edit_hooks}
use isabelle_core.Server.UserControl.{get_user, apply_session_revocation}
use isabelle_core.Server.Owner.{is_owned, owner_of, stamp, owner_after, owner_of-stamp, id-stamp}
use isabelle_core.Server.ApiToken.{hidden_from_item_api}
use isabelle_core.Server.Hooks.{PostEditApi, post_edit_all, DataObjectAction}
use isabelle_core.Server.Itm.{
  MergeColl, Fields, unreadable, without_item, with_item, EditRequest, stored_as, EditApi, auth_all,
  pre_edit_all, with_fields, action_on, write_edited, store_edited, authorised_edit, stamped_edit,
  edit_with, edit_item, edit_query, itm_edit,
}

-- The item that a request is about: the one in the query, or the body's over it.
abbrev pub IsWhole : ⦃api : ItemApi⦄ → Item → Fields → Item → Type 0
IsWhole in_query (unreadable status) item = ⊥
IsWhole in_query without_item item = item ≡ in_query
IsWhole in_query (with_item parsed) item = item ≡ merge in_query (get_or parsed new)

-- What the plugins are asked about: the item itself, or in an owned collection the item with the
-- owner that the record had before, or the caller where it is new.
abbrev pub IsStamped :
    ⦃api : ItemApi⦄ {S : Type 0} ⦃st : Store S⦄ → S → Option Item → String → Item → Item → Type 0
IsStamped ⦃st = st⦄ s usr collection item sent =
    ((is_owned (st.get_internals s) collection ≡ false) × (sent ≡ item))
    ⊎ ((u : Item) × (is_owned (st.get_internals s) collection ≡ true)
        × (usr ≡ some u)
        × (sent ≡ stamp item (st.get_item s collection item.id) u.id)
        × (owner_of sent ≡ owner_after (st.get_item s collection sent.id) u.id))

with_fields-IsWhole :
    ⦃api : ItemApi⦄ (in_query : Item) (fields : Fields) (item : Item)
    → with_fields in_query fields ≡ inr item
    → IsWhole in_query fields item
unfolding with_fields
with_fields-IsWhole in_query (unreadable status) item e = cc e
with_fields-IsWhole in_query without_item item e = cc e
with_fields-IsWhole in_query (with_item parsed) item e = cc e

module _ {S : Type 0} ⦃edits : EditApi S⦄ where
  -- Every plugin granted it, each in the store that the one before it left.
  abbrev pub Granted : S → List String → Option Item → String → Item → S → Type 0
  Granted s [] usr collection sent after = after ≡ s
  Granted s (h ∷ hs) usr collection sent after =
      ((edits.item_auth_hook s h usr collection sent.id (some sent) false).1 ≡ true)
      × Granted (edits.item_auth_hook s h usr collection sent.id (some sent) false).0 hs usr
          collection sent after

  -- No plugin stopped it, and each saw the item that the one before it left.
  abbrev pub Reworked :
      S
      → List String
      → Option Item
      → String
      → Option Item
      → Item
      → DataObjectAction
      → Bool
      → S
      → Item
      → Type 0
  Reworked s [] usr collection old item action merging after changed =
      (after ≡ s) × (changed ≡ item)
  Reworked s (h ∷ hs) usr collection old item action merging after changed =
      let asked = edits.item_pre_edit_hook s h usr collection old item action merging in
      (asked.2 ≡ none) × Reworked asked.0 hs usr collection old asked.1 action merging after changed

  auth_all-Granted :
      (s : S) (hs : List String) (usr : Option Item) (collection : String) (sent : Item)
      → (auth_all s hs usr collection sent.id (some sent) false).1 ≡ true
      → Granted s hs usr collection sent (auth_all s hs usr collection sent.id (some sent) false).0
  unfolding auth_all
  auth_all-Granted s [] usr collection sent h = refl
  auth_all-Granted s (k ∷ hs) usr collection sent h =
      let asked = edits.item_auth_hook s k usr collection sent.id (some sent) false in
      elim (Bool-cases asked.1) [
        | inl granted ↦ (
          granted,
          rw granted (auth_all-Granted asked.0 hs usr collection sent (sym (rw granted refl) ∙ h)),
        )
        | inr refused ↦ absurd (ground (arith, refused, h))
      ]

  goes_on_from :
      (asked rest : S × Item × Option String)
      → (elim asked.2 as (λ _. S × Item × Option String) [ some error ↦ asked | none ↦ rest ]).2
        ≡ none
      → (asked.2 ≡ none)
        × (elim asked.2 as (λ _. S × Item × Option String) [ some error ↦ asked | none ↦ rest ]
            ≡ rest)
  goes_on_from (s, item, some error) rest h = cc h
  goes_on_from (s, item, none) rest h = (refl, refl)

  pre_edit_all-Reworked :
      (s : S) (hs : List String) (usr : Option Item) (collection : String) (old : Option Item)
      (item : Item) (action : DataObjectAction) (merging : Bool)
      → (pre_edit_all s hs usr collection old item action merging).2 ≡ none
      → Reworked s hs usr collection old item action merging
          (pre_edit_all s hs usr collection old item action merging).0
          (pre_edit_all s hs usr collection old item action merging).1
  unfolding pre_edit_all
  pre_edit_all-Reworked s [] usr collection old item action merging h = (refl, refl)
  pre_edit_all-Reworked s (k ∷ hs) usr collection old item action merging h =
      let asked = edits.item_pre_edit_hook s k usr collection old item action merging in
      let rest = pre_edit_all asked.0 hs usr collection old asked.1 action merging in
      let (goes_on, same) = goes_on_from asked rest h in
      (
        goes_on,
        subst (λ x. Reworked asked.0 hs usr collection old asked.1 action merging x.0 x.1)
            (sym same)
            (pre_edit_all-Reworked asked.0 hs usr collection old asked.1 action merging
              (ap (λ x. x.2) (sym same) ∙ h)),
      )

module _ ⦃api : ItemApi⦄ {S : Type 0} ⦃st : Store S⦄ ⦃edits : EditApi S⦄
    ⦃hooks : PostEditApi S⦄ where
  -- The write after the hooks: the record that they left, with the generation raised where that
  -- ends sessions, is what the store took, and the hooks are told of it.
  pub record IsStored (cache : RouteCache) (mc : MergeColl) (old : Option Item) (s : S)
      (changed : Item) (r : ℕ) (after : S) : Type 0 where
    pub taken :
        (st.set_item s mc.collection
          (apply_session_revocation s mc.collection old changed mc.merge)
          mc.merge).1
        ≡ r
    pub is_id : r ≢ u64_max
    pub told :
        after
        ≡ post_edit_all
            (st.set_item s mc.collection
              (apply_session_revocation s mc.collection old changed mc.merge)
              mc.merge).0
            (post_edit_hooks cache mc.collection)
            mc.collection
            old
            r
            (action_on old)

  -- The way of an edit: what was sent, what the plugins that decide granted, what the plugins before
  -- the edit made of it, and that this is what was written.
  pub record IsAsked (s : S) (cache : RouteCache) (usr : Option Item) (mc : MergeColl) (item : Item)
      (r : ℕ) (after : S) : Type 0 where
    pub sent : Item
    pub granted_in : S
    pub changed_in : S
    pub changed : Item
    pub is_stamped : IsStamped s usr mc.collection item sent
    pub granted :
        Granted s (specs_of (st.get_internals s) "itm_auth_hook") usr mc.collection sent granted_in
    pub is_collection : st.has_collection granted_in mc.collection ≡ true
    pub reworked :
        Reworked granted_in
          (pre_edit_hooks cache mc.collection)
          usr
          mc.collection
          (st.get_item granted_in mc.collection (edits.normalize_negated sent).id)
          (edits.normalize_negated sent)
          (action_on (st.get_item granted_in mc.collection (edits.normalize_negated sent).id))
          mc.merge
          changed_in
          changed
    pub is_stored :
        IsStored cache mc
          (st.get_item granted_in mc.collection (edits.normalize_negated sent).id)
          changed_in
          changed
          r
          after

  write_edited-IsStored :
      (cache : RouteCache) (mc : MergeColl) (old : Option Item) (s : S) (item : Item)
      (o : Option String) (r : ℕ)
      → (write_edited cache mc old (s, item, o)).1 ≡ stored_as r
      → (o ≡ none) × IsStored cache mc old s item r (write_edited cache mc old (s, item, o)).0
  unfolding write_edited
  write_edited-IsStored cache mc old s item (some error) r e = cc e
  write_edited-IsStored cache mc old s item none r e =
      let written =
        st.set_item s mc.collection (apply_session_revocation s mc.collection old item mc.merge)
          mc.merge in
      elim (Bool-cases (written.1 == u64_max)) [
        | inl failed ↦ absurd (ground (arith, failed, e))
        | inr took ↦
            let same : written.1 ≡ r = ground (arith, took, e) in
            (
              refl,
              record {
                taken = same;
                is_id = λ h. ground (arith, nat_eq_iff written.1 u64_max, took, same, h);
                told = rw took (
                    ap
                      (λ i.
                        post_edit_all written.0 (post_edit_hooks cache mc.collection) mc.collection
                          old i (action_on old))
                      same);
              },
            )
      ]

  store_edited-IsAsked :
      (s : S) (cache : RouteCache) (usr : Option Item) (mc : MergeColl) (item : Item) (r : ℕ)
      → (store_edited s cache usr mc item).1 ≡ stored_as r
      → (changed_in : S) × (changed : Item) × (st.has_collection s mc.collection ≡ true)
        × Reworked s
            (pre_edit_hooks cache mc.collection)
            usr
            mc.collection
            (st.get_item s mc.collection item.id)
            item
            (action_on (st.get_item s mc.collection item.id))
            mc.merge
            changed_in
            changed
        × IsStored cache mc
            (st.get_item s mc.collection item.id)
            changed_in
            changed
            r
            (store_edited s cache usr mc item).0
  unfolding store_edited
  store_edited-IsAsked s cache usr mc item r e =
      let old = st.get_item s mc.collection item.id in
      let left =
        pre_edit_all s (pre_edit_hooks cache mc.collection) usr mc.collection old item
          (action_on old) mc.merge in
      elim (Bool-cases (st.has_collection s mc.collection)) [
        | inr unknown ↦ absurd (ground (arith, unknown, e))
        | inl known ↦
            let same : store_edited s cache usr mc item ≡ write_edited cache mc old left =
              rw known refl in
            let (no_error, is_stored) =
              write_edited-IsStored cache mc old left.0 left.1 left.2 r
                (ap (λ x. x.1) (sym same) ∙ e) in
            (
              left.0,
              left.1,
              known,
              pre_edit_all-Reworked s (pre_edit_hooks cache mc.collection) usr mc.collection old
                  item (action_on old) mc.merge no_error,
              subst (λ x. IsStored cache mc old left.0 left.1 r x.0) (sym same) is_stored,
            )
      ]

  authorised_edit-IsAsked :
      (s : S) (cache : RouteCache) (usr : Option Item) (mc : MergeColl) (item sent : Item) (r : ℕ)
      → IsStamped s usr mc.collection item sent
      → (authorised_edit s cache usr mc sent).1 ≡ stored_as r
      → IsAsked s cache usr mc item r (authorised_edit s cache usr mc sent).0
  unfolding authorised_edit
  authorised_edit-IsAsked s cache usr mc item sent r stamped e =
      let asked =
        auth_all s (specs_of (st.get_internals s) "itm_auth_hook") usr mc.collection sent.id
          (some sent) false in
      elim (Bool-cases asked.1) [
        | inr refused ↦ absurd (ground (arith, refused, e))
        | inl granted ↦
            let same : authorised_edit s cache usr mc sent
                ≡ store_edited asked.0 cache usr mc (edits.normalize_negated sent) =
              rw granted refl in
            let (changed_in, changed, known, reworked, is_stored) =
              store_edited-IsAsked asked.0 cache usr mc (edits.normalize_negated sent) r
                (ap (λ x. x.1) (sym same) ∙ e) in
            record {
              sent = sent;
              granted_in = asked.0;
              changed_in = changed_in;
              changed = changed;
              is_stamped = stamped;
              granted =
                  auth_all-Granted s (specs_of (st.get_internals s) "itm_auth_hook") usr
                    mc.collection sent granted;
              is_collection = known;
              reworked = reworked;
              is_stored =
                  subst
                    (λ x.
                      IsStored cache mc
                        (st.get_item asked.0 mc.collection (edits.normalize_negated sent).id)
                        changed_in changed r x.0)
                    (sym same) is_stored;
            }
      ]

  stamped_edit-IsAsked :
      (s : S) (cache : RouteCache) (usr : Option Item) (mc : MergeColl) (item : Item) (r : ℕ)
      → (stamped_edit s cache usr mc item).1 ≡ stored_as r
      → IsAsked s cache usr mc item r (stamped_edit s cache usr mc item).0
  unfolding stamped_edit
  stamped_edit-IsAsked s cache none mc item r e =
      elim (Bool-cases (is_owned (st.get_internals s) mc.collection)) [
        | inl owned ↦ absurd (ground (arith, owned, e))
        | inr free ↦
            let same : stamped_edit s cache none mc item ≡ authorised_edit s cache none mc item =
              rw free refl in
            subst (λ x. IsAsked s cache none mc item r x.0) (sym same)
              (authorised_edit-IsAsked s cache none mc item item r (inl (free, refl))
                (ap (λ x. x.1) (sym same) ∙ e))
      ]
  stamped_edit-IsAsked s cache (some u) mc item r e =
      let old = st.get_item s mc.collection item.id in
      let sent = stamp item old u.id in
      elim (Bool-cases (is_owned (st.get_internals s) mc.collection)) [
        | inl owned ↦
            let same : stamped_edit s cache (some u) mc item
                ≡ authorised_edit s cache (some u) mc sent =
              rw owned refl in
            subst (λ x. IsAsked s cache (some u) mc item r x.0) (sym same)
              (authorised_edit-IsAsked s cache (some u) mc item sent r
                (inr (
                  u,
                  owned,
                  refl,
                  refl,
                  owner_of-stamp item old u.id ∙ rw (id-stamp item old u.id) refl,
                ))
                (ap (λ x. x.1) (sym same) ∙ e))
        | inr free ↦
            let same : stamped_edit s cache (some u) mc item
                ≡ authorised_edit s cache (some u) mc item =
              rw free refl in
            subst (λ x. IsAsked s cache (some u) mc item r x.0) (sym same)
              (authorised_edit-IsAsked s cache (some u) mc item item r (inl (free, refl))
                (ap (λ x. x.1) (sym same) ∙ e))
      ]

  edit_with-IsAsked :
      (s : S) (cache : RouteCache) (usr : Option Item) (mc : MergeColl) (in_query : Item)
      (fields : Fields) (o : ℕ ⊎ Item) (r : ℕ)
      → with_fields in_query fields ≡ o
      → (edit_with s cache usr mc o).1 ≡ stored_as r
      → (item : Item) × IsWhole in_query fields item
        × IsAsked s cache usr mc item r (edit_with s cache usr mc o).0
  unfolding edit_with
  edit_with-IsAsked s cache usr mc in_query fields (inl status) r q e = cc e
  edit_with-IsAsked s cache usr mc in_query fields (inr item) r q e = (
    item,
    with_fields-IsWhole in_query fields item q,
    stamped_edit-IsAsked s cache usr mc item r e,
  )

  edit_item-IsAsked :
      (s : S) (cache : RouteCache) (req : EditRequest) (mc : MergeColl) (o : Option Item) (r : ℕ)
      → (edit_item s cache req mc o).1 ≡ stored_as r
      → (in_query : Item) × (item : Item) × (o ≡ some in_query)
        × IsWhole in_query req.fields item
        × IsAsked s cache (get_user s req.principal) mc item r (edit_item s cache req mc o).0
  unfolding edit_item
  edit_item-IsAsked s cache req mc none r e = cc e
  edit_item-IsAsked s cache req mc (some in_query) r e =
      let (item, whole, asked) =
        edit_with-IsAsked s cache (get_user s req.principal) mc in_query req.fields
          (with_fields in_query req.fields) r refl e in
      (in_query, item, refl, whole, asked)

  edit_query-IsAsked :
      (s : S) (cache : RouteCache) (req : EditRequest) (q : Option MergeColl) (r : ℕ)
      → (edit_query s cache req q).1 ≡ stored_as r
      → (mc : MergeColl) × (in_query : Item) × (item : Item) × (q ≡ some mc)
        × (hidden_from_item_api mc.collection ≡ false)
        × (req.item ≡ some in_query)
        × IsWhole in_query req.fields item
        × IsAsked s cache (get_user s req.principal) mc item r (edit_query s cache req q).0
  unfolding edit_query
  edit_query-IsAsked s cache req none r e = cc e
  edit_query-IsAsked s cache req (some mc) r e =
      elim (Bool-cases (hidden_from_item_api mc.collection)) [
        | inl hidden ↦ absurd (ground (arith, hidden, e))
        | inr usual ↦
            let same : edit_query s cache req (some mc) ≡ edit_item s cache req mc req.item =
              rw usual refl in
            let (in_query, item, is_item, whole, asked) =
              edit_item-IsAsked s cache req mc req.item r (ap (λ x. x.1) (sym same) ∙ e) in
            (
              mc,
              in_query,
              item,
              refl,
              usual,
              is_item,
              whole,
              subst (λ x. IsAsked s cache (get_user s req.principal) mc item r x.0) (sym same)
                  asked,
            )
      ]

  pub itm_edit-IsAsked :
      (s : S) (cache : RouteCache) (req : EditRequest) (r : ℕ)
      → (itm_edit s cache req).1 ≡ stored_as r
      → (mc : MergeColl) × (in_query : Item) × (item : Item) × (req.query ≡ some mc)
        × (hidden_from_item_api mc.collection ≡ false)
        × (req.item ≡ some in_query)
        × IsWhole in_query req.fields item
        × IsAsked s cache (get_user s req.principal) mc item r (itm_edit s cache req).0
  unfolding itm_edit
  itm_edit-IsAsked s cache req r e = edit_query-IsAsked s cache req req.query r e
