-- ===== src/Server/SignIn/Linking.antt =====
-- src/server/signin.rs: an identity signs in as one record only.
use isabelle_core.Prelude.{
  Bool-cases, ◌==◌, nat_Eq, string_Eq, u64_max, lookup, lookup-insert, beq_refl, is_empty, trim,
  eq_ignore_ascii_case, ℕ, String, ◌≡◌, refl, sym, ap, ◌∙◌, subst, ◌≢◌, ◌↔◌, ◌⊎◌, inl, inr, Bool,
  true, false, ◌&&◌, not, Option, none, some, arith, eq_iff, eq_refl,
}
use isabelle_core.Item.{Item, ItemApi, merge, safe_str, safe_bool}
use isabelle_core.State.Store.{Store, StoreLaws, at_id, get_item-written}
use isabelle_core.State.RouteCache.{RouteCache}
use isabelle_core.Server.Hooks.{PostEditApi}
use isabelle_core.Server.SignIn.{
  sign_in, resolve_existing, resolve_record, resolve_identity, linked_item, record_for,
}

-- The record `u` is the account of an identity that somebody vouched for.
pub record IsAccountOf ⦃api : ItemApi⦄ (email subject subject_key : String) (verified : Bool)
    (u : Item) : Type 0 where
  pub has_address : is_empty (trim email) ≡ false
  pub is_vouched : verified ≡ true
  pub same_address : eq_ignore_ascii_case (trim (safe_str u "email" "")) (trim email) ≡ true
  pub is_active : safe_bool u "role_is_active" false ≡ true
  pub same_subject : (safe_str u subject_key "" ≡ "") ⊎ (safe_str u subject_key "" ≡ subject)

empty_text : (s : String) → is_empty s ≡ true → s ≡ ""
empty_text String.[] e = refl
empty_text (String.◌∷◌ c s) e = cc e

same_or_none :
    (known subject : String)
    → (not (is_empty known) && not (known == subject)) ≡ false
    → (known ≡ "") ⊎ (known ≡ subject)
same_or_none known subject h = elim (Bool-cases (is_empty known)) [
  | inl blank ↦ inl (empty_text known blank)
  | inr full ↦ inr (ground (arith, eq_iff known subject))
]

none_or_same :
    (known subject : String)
    → (known ≡ "") ⊎ (known ≡ subject)
    → (not (is_empty known) && not (known == subject)) ≡ false
none_or_same known subject (inl e) = rw e refl
none_or_same known subject (inr e) = rw (e, eq_refl subject) (ground arith)

module _ ⦃api : ItemApi⦄ where
  -- The account of the identity is signed in as.
  resolve_identity-account :
      (u : Item) (email : String) (verified : Bool) (subject key : String) (allow : Bool)
      → IsAccountOf email subject key verified u
      → resolve_identity (some u) email verified subject key allow ≡ sign_in u.id
  unfolding resolve_identity resolve_record resolve_existing
  resolve_identity-account u email verified subject key allow a =
      rw
        (
          a.has_address,
          a.is_vouched,
          a.same_address,
          a.is_active,
          none_or_same (safe_str u key "") subject a.same_subject,
        )
        refl

  -- Only the account of the identity is.
  pub account-resolve_identity :
      (existing : Option Item) (email : String) (verified : Bool) (subject key : String)
      (allow : Bool) (n : ℕ)
      → resolve_identity existing email verified subject key allow ≡ sign_in n
      → (u : Item) × (existing ≡ some u) × (u.id ≡ n) × IsAccountOf email subject key verified u
  unfolding resolve_identity resolve_record resolve_existing
  account-resolve_identity none email verified subject key allow n h = absurd (ground arith)
  account-resolve_identity (some u) email verified subject key allow n h = (
    u,
    refl,
    ground arith,
    record {
      has_address = ground arith;
      is_vouched = ground arith;
      same_address = ground arith;
      is_active = ground arith;
      same_subject = same_or_none (safe_str u key "") subject (ground arith);
    },
  )

  -- Signing in as the record `n` is decided exactly when there is a record with that id for the
  -- address, the address is not blank and is vouched for, the record holds that address, it is
  -- active, and it is tied to no other subject of that source.
  pub resolve_identity-IsAccountOf :
      (existing : Option Item) (email : String) (verified : Bool) (subject key : String)
      (allow : Bool) (n : ℕ)
      → (resolve_identity existing email verified subject key allow ≡ sign_in n)
        ↔ ((u : Item) × (existing ≡ some u) × (u.id ≡ n) × IsAccountOf email subject key verified u)
  resolve_identity-IsAccountOf existing email verified subject key allow n = (
    account-resolve_identity existing email verified subject key allow n,
    λ (u, e, i, a).
        rw (e, resolve_identity-account u email verified subject key allow a) (ap sign_in i),
  )

  id-linked_item : (id : ℕ) (key subject : String) → (linked_item id key subject).id ≡ id
  unfolding linked_item
  id-linked_item id key subject = rw (api.set_bool_lem, api.set_str_lem) refl

  strs-linked_item :
      (id : ℕ) (key subject : String) → lookup key (linked_item id key subject).strs ≡ some subject
  unfolding linked_item
  strs-linked_item id key subject =
      rw (api.set_bool_lem, api.set_str_lem, lookup-insert) (ground (arith, beq_refl key))

module _ ⦃api : ItemApi⦄ {S : Type 0} ⦃st : Store S⦄ ⦃laws : StoreLaws S⦄
    ⦃hooks : PostEditApi S⦄ where
  -- The subject that a sign-in records.
  record_for-subject :
      (s : S) (cache : RouteCache) (u : Item) (email name subject key : String)
      → u.id ≢ u64_max
      → (st.set_item s "user" (linked_item u.id key subject) true).1 ≢ u64_max
      → st.get_item s "user" u.id ≡ some u
      → (w : Item) × (st.get_item
            (record_for s cache (sign_in u.id) (some u) email name subject key).0
            "user"
            u.id
          ≡ some w)
        × (safe_str w key "" ≡ subject)
  unfolding record_for linked_item
  record_for-subject s cache u email name subject key own stored known =
      let patch = linked_item u.id key subject in
      (
        at_id (merge u patch) u.id,
        get_item-written s "user" patch true u.id (id-linked_item u.id key subject) own stored
            ∙ rw known refl,
        rw (api.safe_str_lem, api.strs-merge, strs-linked_item u.id key subject) refl,
      )

  -- Once an identity with a subject has signed in as an account, and the store took the write, no
  -- identity of that source with another subject is signed in as that account.
  pub record_for-one_subject :
      (s : S) (cache : RouteCache) (u : Item) (email name subject key : String)
      → u.id ≢ u64_max
      → (st.set_item s "user" (linked_item u.id key subject) true).1 ≢ u64_max
      → st.get_item s "user" u.id ≡ some u
      → subject ≢ ""
      → (other later : String) (verified allow : Bool) (n : ℕ)
      → resolve_identity
          (st.get_item
            (record_for s cache (sign_in u.id) (some u) email name subject key).0
            "user"
            u.id)
          later
          verified
          other
          key
          allow
        ≡ sign_in n
      → other ≡ subject
  record_for-one_subject s cache u email name subject key own stored known full other later verified
        allow n h =
      let (w, kept, tied) = record_for-subject s cache u email name subject key own stored known in
      let (v, e, i, a) = account-resolve_identity _ later verified other key allow n h in
      let same : w ≡ v = ground (arith, kept, e) in
      let own_subject : safe_str v key "" ≡ subject =
        subst (λ x. safe_str x key "" ≡ subject) same tied in
      elim a.same_subject [
        | inl blank ↦ absurd (full (sym own_subject ∙ blank))
        | inr other_subject ↦ sym other_subject ∙ own_subject
      ]
