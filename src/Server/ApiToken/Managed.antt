-- ===== src/Server/ApiToken/Managed.antt =====
-- What the endpoints of src/server/api_token.rs let people do with tokens.
use isabelle_core.Prelude.{
  leb, nat_eq_iff, ◌==◌, nat_Eq, string_Eq, u64_max, is_empty, append, trim_end, to_ascii_lowercase,
  eq_ignore_ascii_case, split_once, as_bytes, Casing, ℕ, ◌<◌, String, ◌≡◌, refl, sym, ap, ◌∙◌,
  subst, ◌≢◌, ◌↔◌, ◌⊎◌, inl, inr, true, false, ◌&&◌, not, Option, none, some, arith,
}
use isabelle_core.Item.{Item, ItemApi, safe_id}
use isabelle_core.Util.Crypto.{constant_time_eq_iff}
use isabelle_core.Util.Multipart.{read}
use isabelle_core.State.Store.{Store, at_id}
use isabelle_core.State.StoreMemory.{StoreMemory, memory}
use isabelle_core.Server.UserControl.{get_user, check_role}
use isabelle_core.Server.ApiToken.{
  TokenApi, token_collection, Presented, IssueRequest, Issued, issued, needs_name, needs_scopes,
  expiry, token_record, issue, revoke, resolve, accepted,
}
use isabelle_core.Server.ApiToken.Lifetime.{resolve-issue}
use isabelle_core.Server.ApiToken.Wire.{assemble, parse, from_header, bearer_of, parse-assemble}
use isabelle_core.Server.ApiToken.Managing.{
  token_made, token_ended, Subject, account, declined, subject_of, subject, revoke_for,
  revoke_known, api_token_revoke, issue_reply, issue_for, api_token_issue,
}

module _ ⦃api : ItemApi⦄ {S : Type 0} ⦃st : Store S⦄ where
  -- The account is the caller's own, or the caller is an administrator.
  abbrev pub MayManage : S → String → ℕ → Type 0
  MayManage s who owner =
      (me : Item) × (get_user s who ≡ some me)
      × ((owner ≡ me.id) ⊎ (check_role s (some me) "admin" ≡ true))

  subject_of_iff :
      (s : S) (o : Option Item) (owner : ℕ)
      → (subject_of s o (some owner) ≡ account owner) ↔ (
          (me : Item) × (o ≡ some me) × ((owner ≡ me.id) ⊎ (check_role s (some me) "admin" ≡ true)))
  unfolding subject_of
  subject_of_iff s none owner = (λ h. ground arith, λ h. let (me, e, r) = h in ground arith)
  subject_of_iff s (some me) owner = (
    λ h. (me, refl, ground (arith, nat_eq_iff owner me.id)),
    λ h.
        let (other, e, r) = h in
        let same : me ≡ other = ground arith in
        let rights : (owner ≡ me.id) ⊎ (check_role s (some me) "admin" ≡ true) =
          subst (λ u. (owner ≡ u.id) ⊎ (check_role s (some u) "admin" ≡ true)) (sym same) r in
        ground (arith, rights, nat_eq_iff owner me.id),
  )

  -- An account other than the one asked about is never what the request is made for.
  subject_of-asked :
      (s : S) (o : Option Item) (owner other : ℕ)
      → subject_of s o (some owner) ≡ account other
      → other ≡ owner
  unfolding subject_of
  subject_of-asked s none owner other h = ground arith
  subject_of-asked s (some me) owner other h = ground (arith, nat_eq_iff owner me.id)

  revoke_for-ended :
      (s : S) (id : ℕ) (r : Subject)
      → ((revoke_for s id r).1 ≡ token_ended)
      → (r ≡ declined token_ended) ⊎ ((owner : ℕ) × (r ≡ account owner))
  unfolding revoke_for
  revoke_for-ended s id (declined answer) h = inl (ap declined h)
  revoke_for-ended s id (account owner) h = inr (owner, refl)

  subject_of-never_ends :
      (s : S) (o : Option Item) (asked : Option ℕ) → subject_of s o asked ≢ declined token_ended
  unfolding subject_of
  subject_of-never_ends s none asked h = ground arith
  subject_of-never_ends s (some me) none h = ground arith
  subject_of-never_ends s (some me) (some id) h = ground arith

  -- The token is known, and the caller may manage the account that it belongs to.
  abbrev pub MayRevoke : S → String → ℕ → Type 0
  MayRevoke s who id =
      (itm : Item) × (st.get_item s token_collection id ≡ some itm)
      × MayManage s who (safe_id itm "user" u64_max)

  revoke_known_iff :
      (s : S) (who : String) (id : ℕ) (o : Option Item)
      → ((revoke_known s who id o).1 ≡ token_ended)
        ↔ ((itm : Item) × (o ≡ some itm) × MayManage s who (safe_id itm "user" u64_max))
  unfolding revoke_known subject revoke_for
  revoke_known_iff s who id none = (λ h. ground arith, λ h. let (itm, e, r) = h in ground arith)
  revoke_known_iff s who id (some itm) = (
    λ h.
        let owner = safe_id itm "user" u64_max in
        let (other, is_account) =
          ended_for (revoke_for-ended s id (subject s who (some owner)) h) in
        let same : other ≡ owner = subject_of-asked s (get_user s who) owner other is_account in
        (itm, refl, (subject_of_iff s (get_user s who) owner).0 (is_account ∙ ap account same)),
    λ h.
        let (known, same, may) = h in
        let known_itm : itm ≡ known = ground arith in
        let mine =
          (subject_of_iff s (get_user s who) (safe_id itm "user" u64_max)).1
            (subst (λ x. MayManage s who (safe_id x "user" u64_max)) (sym known_itm) may) in
        ap (λ r. (revoke_for s id r).1) mine,
  )
    where
      ended_for :
          (subject s who (some (safe_id itm "user" u64_max)) ≡ declined token_ended)
            ⊎ ((owner : ℕ) × (subject s who (some (safe_id itm "user" u64_max)) ≡ account owner))
          → (owner : ℕ) × (subject s who (some (safe_id itm "user" u64_max)) ≡ account owner)
      ended_for (inl e) =
          absurd (subject_of-never_ends s (get_user s who) (some (safe_id itm "user" u64_max)) e)
      ended_for (inr e) = e

  revoke_known-store :
      (s : S) (who : String) (id : ℕ) (o : Option Item)
      → (((revoke_known s who id o).1 ≡ token_ended) × ((revoke_known s who id o).0 ≡ revoke s id))
        ⊎ (((revoke_known s who id o).1 ≢ token_ended) × ((revoke_known s who id o).0 ≡ s))
  unfolding revoke_known revoke_for subject
  revoke_known-store s who id none = inr (λ h. ground arith, refl)
  revoke_known-store s who id (some itm) =
      by_subject (subject s who (some (safe_id itm "user" u64_max)))
        (subject_of-never_ends s (get_user s who) (some (safe_id itm "user" u64_max)))
    where
      by_subject :
          (r : Subject)
          → r ≢ declined token_ended
          → (((revoke_for s id r).1 ≡ token_ended) × ((revoke_for s id r).0 ≡ revoke s id))
            ⊎ (((revoke_for s id r).1 ≢ token_ended) × ((revoke_for s id r).0 ≡ s))
      by_subject (declined answer) going = inr (λ e. going (ap declined e), refl)
      by_subject (account owner) going = inl (refl, refl)

  -- A request to revoke a token ends it exactly when the token is known and the caller owns it or
  -- is an administrator. If it is answered as ended, the store is as `revoke` leaves it, and if not,
  -- as it was.
  pub api_token_revoke_iff :
      (s : S) (who : String) (id : ℕ)
      → (((api_token_revoke s who (read id)).1 ≡ token_ended) ↔ MayRevoke s who id)
        × ((((api_token_revoke s who (read id)).1 ≡ token_ended)
              × ((api_token_revoke s who (read id)).0 ≡ revoke s id))
            ⊎ (((api_token_revoke s who (read id)).1 ≢ token_ended)
                × ((api_token_revoke s who (read id)).0 ≡ s)))
  unfolding api_token_revoke
  api_token_revoke_iff s who id = (
    revoke_known_iff s who id (st.get_item s token_collection id),
    revoke_known-store s who id (st.get_item s token_collection id),
  )

module _ ⦃api : ItemApi⦄ ⦃c : Casing⦄ ⦃t : TokenApi⦄ where
  issue_reply-made :
      (r : StoreMemory × Issued) (id : ℕ) (whole : String)
      → (issue_reply r).1 ≡ token_made id whole
      → (secret : String) × (r.1 ≡ issued id secret)
        × (whole ≡ assemble id secret)
        × ((issue_reply r).0 ≡ r.0)
  unfolding issue_reply
  issue_reply-made (s, issued i secret) id whole h = (secret, ground arith, ground arith, refl)
  issue_reply-made (s, needs_name) id whole h = ground arith
  issue_reply-made (s, needs_scopes) id whole h = ground arith

  issue-secret :
      (s : StoreMemory) (owner : ℕ) (req : IssueRequest) (secret got : String) (now id : ℕ)
      → (issue s owner req secret now).1 ≡ issued id got
      → got ≡ secret
  unfolding issue
  issue-secret s owner req secret got now id h = ground arith

  made-issued :
      (s : StoreMemory) (o : Option Item) (req : IssueRequest) (secret : String) (now id : ℕ)
      (whole : String)
      → (issue_for s (subject_of s o none) req secret now).1 ≡ token_made id whole
      → (me : Item) × (o ≡ some me)
        × ((issue s me.id req secret now).1 ≡ issued id secret)
        × (whole ≡ assemble id secret)
        × ((issue_for s (subject_of s o none) req secret now).0 ≡ (issue s me.id req secret now).0)
  unfolding issue_for subject_of
  made-issued s none req secret now id whole h = ground arith
  made-issued s (some me) req secret now id whole h =
      let (got, made, written, same) = issue_reply-made (issue s me.id req secret now) id whole h in
      let as_drawn : got ≡ secret = issue-secret s me.id req secret got now id made in
      (me, refl, made ∙ ap (λ x. issued id x) as_drawn, written ∙ ap (assemble id) as_drawn, same)

  -- The token that the endpoint hands out works: presented as a bearer token it is read, and the
  -- store in memory accepts it as its owner's until it expires, if the secret that was drawn is
  -- not empty and does not end in white space, and the id is not `u64::MAX`.
  pub api_token_issue-accepted :
      (s : StoreMemory) (who : String) (req : IssueRequest) (secret : String) (now later id : ℕ)
      (whole : String)
      → is_empty secret ≡ false
      → trim_end secret ≡ secret
      → id < u64_max
      → (not (expiry now req.expires_days == 0) && leb (expiry now req.expires_days) later) ≡ false
      → (api_token_issue s who (read req) secret now).1 ≡ token_made id whole
      → (me : Item) × (presented : Presented) × (get_user s who ≡ some me)
        × (from_header (append "Bearer " whole) ≡ some presented)
        × (resolve (api_token_issue s who (read req) secret now).0 presented later
            ≡ accepted (at_id (token_record me.id req secret now) id))
  unfolding api_token_issue subject from_header bearer_of append split_once eq_ignore_ascii_case
      to_ascii_lowercase
  api_token_issue-accepted s who req secret now later id whole full tidy room alive h =
      let (me, known, made, written, after) =
        made-issued s (get_user s who) req secret now id whole h in
      (
        me,
        record { id = id; secret = secret },
        known,
        ap parse written ∙ parse-assemble id secret (omega arith) full tidy,
        ap (λ x. resolve x (record { id = id; secret = secret }) later) after
            ∙ resolve-issue s me.id req secret secret now later id made (λ e. omega (arith, e))
            ∙ rw
                (
                  alive,
                  (constant_time_eq_iff (as_bytes (t.hash secret)) (as_bytes (t.hash secret))).1
                      refl,
                )
                refl,
      )
