-- ===== src/Server/ApiToken/Lifetime.antt =====
-- src/server/api_token.rs: a token from its issue to its end.
use isabelle_core.Prelude.{
  ltb, leb, if◌then◌else◌, Bool-cases, ◌==◌, nat_Eq, string_Eq, u64_max, lookup-insert, beq_refl,
  as_bytes, Casing, ℕ, ◌-◌, String, ◌≡◌, refl, sym, ap, ◌∙◌, ◌≢◌, inl, inr, true, false, ◌&&◌, not,
  Option, none, some, arith,
}
use isabelle_core.Item.{Item, ItemApi, new, safe_str, safe_bool, safe_u64, set_bool, merge}
use isabelle_core.Item.Merging.{
  safe_str-at_id, safe_bool-at_id, safe_u64-at_id, number_patch, id-number_patch,
  safe_str-number_patch, safe_bool-number_patch, safe_u64-number_patch,
}
use isabelle_core.Util.Crypto.{constant_time_eq}
use isabelle_core.State.Store.{Store, StoreLaws, overlay, at_id}
use isabelle_core.State.StoreMemory.{StoreMemory, memory, set_item, get_item}
use isabelle_core.State.StoreMemory.Records.{set_item_fresh}
use isabelle_core.Server.ApiToken.{
  touch_interval_secs, TokenApi, token_collection, Rejected, revoked, expired, wrong_secret,
  Outcome, accepted, refused, is_expired, check, outcome_of, resolve_record, resolve, touch, revoke,
  IssueRequest, issued, expiry, token_record, issue,
}

-- Why a token is refused, if it is.
unfoldable pub refusal : Outcome Item Rejected → Option Rejected
refusal (accepted itm) = none
refusal (refused reason) = some reason

module _ ⦃api : ItemApi⦄ where
  abbrev revocation : ℕ → Item
  revocation id = set_bool (record new { id = id }) "revoked" true

  id-revocation : (id : ℕ) → (revocation id).id ≡ id
  id-revocation id = rw api.set_bool_lem

  revoked_record :
      (o : Option Item) (id : ℕ)
      → safe_bool (at_id (overlay o (revocation id) true) id) "revoked" false ≡ true
  revoked_record none id = rw (api.safe_bool_lem, api.set_bool_lem, lookup-insert) refl
  revoked_record (some old) id =
      rw (api.safe_bool_lem, api.bools-merge, api.set_bool_lem, lookup-insert) refl

module _ ⦃api : ItemApi⦄ ⦃t : TokenApi⦄ where
  -- The check reads three fields of the record.
  check-cong :
      (a b : Item) (secret : String) (now : ℕ)
      → safe_bool a "revoked" false ≡ safe_bool b "revoked" false
      → safe_u64 a "expires" 0 ≡ safe_u64 b "expires" 0
      → safe_str a "hash" "" ≡ safe_str b "hash" ""
      → check a secret now ≡ check b secret now
  unfolding check is_expired
  check-cong a b secret now r e h = rw (r, e, h) refl

refusal-outcome_of : (itm : Item) (o : Option Rejected) → refusal (outcome_of itm o) ≡ o
unfolding refusal outcome_of
refusal-outcome_of itm none = refl
refusal-outcome_of itm (some reason) = refl

module _ ⦃api : ItemApi⦄ ⦃t : TokenApi⦄ {S : Type 0} ⦃st : Store S⦄ (laws : StoreLaws S) where
  -- A token that has been revoked is refused as revoked in the state after that, whatever secret is
  -- presented and whatever the time is, if the store accepts the write.
  pub resolve-revoke :
      (s : S) (id : ℕ) (secret : String) (now : ℕ)
      → id ≢ u64_max
      → (st.set_item s token_collection (set_bool (record new { id = id }) "revoked" true) true).1
        ≢ u64_max
      → resolve (revoke s id) (record { id = id; secret = secret }) now ≡ refused revoked
  unfolding resolve revoke resolve_record outcome_of check
  resolve-revoke s id secret now own stored =
      let old = st.get_item s token_collection id in
      let read : st.get_item (st.set_item s token_collection (revocation id) true).0
            token_collection id
          ≡ some (at_id (overlay old (revocation id) true) id) =
        laws.get_item-set_item s token_collection token_collection (revocation id) true id
          (λ e. own (sym (id-revocation id) ∙ e)) stored
        ∙ rw (id-revocation id) (ground (arith, beq_refl id)) in
      ap (λ o. resolve_record o secret now) read ∙ rw (revoked_record old id) refl

  refusal-known :
      (s : S) (itm : Item) (id : ℕ) (secret : String) (now : ℕ)
      → st.get_item s token_collection id ≡ some itm
      → refusal (resolve s (record { id = id; secret = secret }) now) ≡ check itm secret now
  unfolding resolve resolve_record outcome_of refusal
  refusal-known s itm id secret now known = rw known (refusal-outcome_of itm (check itm secret now))

  abbrev used : Item → ℕ → Item
  used itm now = merge itm (number_patch itm itm.id now "last_used")

  check-used :
      (itm : Item) (now id : ℕ) (secret : String) (later : ℕ)
      → check (at_id (used itm now) id) secret later ≡ check itm secret later
  check-used itm now id secret later =
      check-cong (at_id (used itm now) id) itm secret later
        (safe_bool-at_id (used itm now) id "revoked" false
          ∙ safe_bool-number_patch itm itm.id now "last_used" "revoked" false)
        (safe_u64-at_id (used itm now) id "expires" 0
          ∙ safe_u64-number_patch itm itm.id now "last_used" "expires" 0
          ∙ refl)
        (safe_str-at_id (used itm now) id "hash" ""
          ∙ safe_str-number_patch itm itm.id now "last_used" "hash" "")

  -- Noting that a stored token was used changes nothing of what it is accepted or refused for, if
  -- the store accepts the write.
  pub resolve-touch :
      (s : S) (itm : Item) (now : ℕ) (secret : String) (later : ℕ)
      → st.get_item s token_collection itm.id ≡ some itm
      → itm.id ≢ u64_max
      → (st.set_item s token_collection (number_patch itm itm.id now "last_used") true).1 ≢ u64_max
      → refusal (resolve (touch s itm now) (record { id = itm.id; secret = secret }) later)
        ≡ refusal (resolve s (record { id = itm.id; secret = secret }) later)
  unfolding touch
  resolve-touch s itm now secret later known own stored =
      elim (Bool-cases (ltb (now - safe_u64 itm "last_used" 0) touch_interval_secs)) [
        | inl fresh ↦ rw fresh refl
        | inr stale ↦
            let patch = number_patch itm itm.id now "last_used" in
            let same : patch.id ≡ itm.id = id-number_patch itm itm.id now "last_used" in
            let read : st.get_item (st.set_item s token_collection patch true).0 token_collection
                  itm.id
                ≡ some (at_id (used itm now) itm.id) =
              laws.get_item-set_item s token_collection token_collection patch true itm.id
                (λ e. own (sym same ∙ e)) stored
              ∙ rw (same, known) (ground (arith, beq_refl itm.id)) in
            rw stale (
              refusal-known (st.set_item s token_collection patch true).0
                (at_id (used itm now) itm.id) itm.id secret later read
              ∙ check-used itm now itm.id secret later
              ∙ sym (refusal-known s itm itm.id secret later known))
      ]

module _ ⦃api : ItemApi⦄ ⦃t : TokenApi⦄ ⦃c : Casing⦄ where
  issued-set_item :
      (s : StoreMemory) (owner : ℕ) (req : IssueRequest) (secret : String) (now id : ℕ)
      → (issue s owner req secret now).1 ≡ issued id secret
      → ((issue s owner req secret now).0
          ≡ (set_item s token_collection (token_record owner req secret now) false).0)
        × ((set_item s token_collection (token_record owner req secret now) false).1 ≡ id)
  unfolding issue
  issued-set_item s owner req secret now id h = (ground arith, ground arith)

  id-token_record :
      (owner : ℕ) (req : IssueRequest) (secret : String) (now : ℕ)
      → (token_record owner req secret now).id ≡ u64_max
  unfolding token_record
  id-token_record owner req secret now =
      simp (api.set_bool_lem, api.set_u64_lem, api.set_str_lem, api.set_id_lem) refl

  -- What the check reads of a new token.
  module _ (owner : ℕ) (req : IssueRequest) (secret : String) (now : ℕ) where
    revoked-token_record : safe_bool (token_record owner req secret now) "revoked" false ≡ false
    unfolding token_record
    revoked-token_record = simp (api.safe_bool_lem, api.set_bool_lem, lookup-insert) refl

    expires-token_record :
        safe_u64 (token_record owner req secret now) "expires" 0 ≡ expiry now req.expires_days
    unfolding token_record
    expires-token_record =
        simp (api.safe_u64_lem, api.set_bool_lem, api.set_u64_lem, lookup-insert) refl

    hash-token_record : safe_str (token_record owner req secret now) "hash" "" ≡ t.hash secret
    unfolding token_record
    hash-token_record =
        simp (api.safe_str_lem, api.set_bool_lem, api.set_u64_lem, api.set_str_lem, lookup-insert)
          refl

  check-token_record :
      (owner id : ℕ) (req : IssueRequest) (secret presented : String) (now later : ℕ)
      → check (at_id (token_record owner req secret now) id) presented later ≡ (
          if not (expiry now req.expires_days == 0) && leb (expiry now req.expires_days) later
          then some expired
          else if constant_time_eq (as_bytes (t.hash secret)) (as_bytes (t.hash presented))
          then none
          else some wrong_secret)
  unfolding check is_expired
  check-token_record owner id req secret presented now later =
      rw
        (
          safe_bool-at_id (token_record owner req secret now) id "revoked" false,
          revoked-token_record owner req secret now,
          safe_u64-at_id (token_record owner req secret now) id "expires" 0,
          expires-token_record owner req secret now,
          safe_str-at_id (token_record owner req secret now) id "hash" "",
          hash-token_record owner req secret now,
        )
        (ground arith)

  -- A token that the store in memory has filed under an id is refused once it has expired, if it
  -- expires; before that it is accepted for a secret with the same hash, and refused for any other.
  pub resolve-issue :
      (s : StoreMemory) (owner : ℕ) (req : IssueRequest) (secret presented : String)
      (now later id : ℕ)
      → (issue s owner req secret now).1 ≡ issued id secret
      → id ≢ u64_max
      → resolve (issue s owner req secret now).0 (record { id = id; secret = presented }) later ≡ (
          if not (expiry now req.expires_days == 0) && leb (expiry now req.expires_days) later
          then refused expired
          else if constant_time_eq (as_bytes (t.hash secret)) (as_bytes (t.hash presented))
          then accepted (at_id (token_record owner req secret now) id)
          else refused wrong_secret)
  unfolding resolve resolve_record outcome_of
  resolve-issue s owner req secret presented now later id h room =
      let (after, same) = issued-set_item s owner req secret now id h in
      let new_token = token_record owner req secret now in
      let fresh =
        set_item_fresh s token_collection new_token false (id-token_record owner req secret now)
          (λ e. room (sym same ∙ e)) in
      let read : get_item (issue s owner req secret now).0 token_collection id
          ≡ some (at_id new_token id) =
        rw (after, ← same) fresh.1 in
      ap (λ o. resolve_record o presented later) read
      ∙ ap (outcome_of (at_id new_token id))
          (check-token_record owner id req secret presented now later)
      ∙ ground arith
