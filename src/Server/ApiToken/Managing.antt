-- ===== src/Server/ApiToken/Managing.antt =====
-- src/server/api_token.rs: the endpoints with which people manage their tokens.
-- A request's body is what the reader of src/util/multipart.rs makes of it; `none` for the account
-- asked about is a request that names none.
use isabelle_core.Prelude.{
  leb, if◌then◌else◌, ◌==◌, nat_Eq, string_Eq, u64_max, Map, ℕ, String, Bool, false, Option, none,
  some, List, [], ◌∷◌,
}
use isabelle_core.Item.{Item, ItemApi, safe_str, safe_bool, safe_u64, safe_id}
use isabelle_core.State.Store.{Store}
use isabelle_core.Util.Multipart.{ReadResult, read, not_read, status}
use isabelle_core.Server.UserControl.{get_user, check_role}
use isabelle_core.Server.ApiToken.{
  TokenApi, token_collection, scopes_of, IssueRequest, Issued, issued, needs_name, needs_scopes,
  issue, revoke,
}
use isabelle_core.Server.ApiToken.Wire.{assemble}

pub record TokenView : Type 0 where
  pub id : ℕ
  pub name : String
  pub shown : String
  pub scopes : List String
  pub created : ℕ
  pub expires : ℕ
  pub last_used : ℕ
  pub revoked : Bool

-- The answers of the endpoints.
pub data Answer : Type 0 where
  token_made : ℕ → String → Answer
  tokens_are : List TokenView → Answer
  token_ended : Answer
  no_name : Answer
  no_scope : Answer
  no_account : Answer
  not_yours : Answer
  no_token : Answer
  bad_body : ℕ → Answer

pub data Subject : Type 0 where
  account : ℕ → Subject
  declined : Answer → Subject

unfoldable pub view_of : ⦃api : ItemApi⦄ ⦃t : TokenApi⦄ → Item → TokenView
view_of record_item = record {
  id = record_item.id;
  name = safe_str record_item "name" "";
  shown = safe_str record_item "shown" "";
  scopes = scopes_of record_item;
  created = safe_u64 record_item "created" 0;
  expires = safe_u64 record_item "expires" 0;
  last_used = safe_u64 record_item "last_used" 0;
  revoked = safe_bool record_item "revoked" false;
}

-- `filter` and `map` of the loop of `list_of`
unfoldable pub views_of : ⦃api : ItemApi⦄ ⦃t : TokenApi⦄ → ℕ → Map ℕ Item → List TokenView
unfolding view_of
views_of owner [] = []
views_of owner ((id, r) ∷ m) =
    let rest = views_of owner m in
    if safe_id r "user" u64_max == owner then view_of r ∷ rest else rest

-- `sort_by`, newest first
unfoldable pub insert_newest : TokenView → List TokenView → List TokenView
insert_newest v [] = v ∷ []
insert_newest v (w ∷ ws) =
    let rest = insert_newest v ws in if leb w.created v.created then v ∷ w ∷ ws else w ∷ rest

unfoldable pub newest_first : List TokenView → List TokenView
unfolding insert_newest
newest_first [] = []
newest_first (v ∷ vs) = insert_newest v (newest_first vs)

-- What the endpoint makes of what issuing came to.
unfoldable pub issue_reply : {S : Type 0} → S × Issued → S × Answer
issue_reply (s, issued id secret) = (s, token_made id (assemble id secret))
issue_reply (s, needs_name) = (s, no_name)
issue_reply (s, needs_scopes) = (s, no_scope)

module _ ⦃api : ItemApi⦄ {S : Type 0} ⦃st : Store S⦄ where
  unfoldable pub subject_of : S → Option Item → Option ℕ → Subject
  subject_of s none asked_for = declined no_account
  subject_of s (some me) none = account me.id
  subject_of s (some me) (some id) =
      if id == me.id
      then account me.id
      else if check_role s (some me) "admin"
      then account id
      else declined not_yours

  -- `subject`: the account that a request of `who` is made for
  unfoldable pub subject : S → String → Option ℕ → Subject
  unfolding subject_of
  subject s who asked_for = subject_of s (get_user s who) asked_for

  unfoldable pub revoke_for : S → ℕ → Subject → S × Answer
  revoke_for s id (declined answer) = (s, answer)
  revoke_for s id (account owner) = (revoke s id, token_ended)

  unfoldable pub revoke_known : S → String → ℕ → Option Item → S × Answer
  unfolding revoke_for
  revoke_known s who id none = (s, no_token)
  revoke_known s who id (some record_item) =
      revoke_for s id (subject s who (some (safe_id record_item "user" u64_max)))

  unfoldable pub api_token_revoke : S → String → ReadResult ℕ → S × Answer
  unfolding revoke_known
  api_token_revoke s who (not_read e) = (s, bad_body (status e))
  api_token_revoke s who (read id) = revoke_known s who id (st.get_item s token_collection id)

module _ ⦃api : ItemApi⦄ ⦃t : TokenApi⦄ {S : Type 0} ⦃st : Store S⦄ where
  unfoldable pub list_of : S → ℕ → List TokenView
  unfolding views_of newest_first
  list_of s owner = newest_first (views_of owner (st.get_all_items s token_collection "id" "").map)

  unfoldable pub list_for : S → Subject → Answer
  list_for s (declined answer) = answer
  list_for s (account owner) = tokens_are (list_of s owner)

  unfoldable pub api_token_list : S → String → Option ℕ → Answer
  unfolding list_for
  api_token_list s who asked_for = list_for s (subject s who asked_for)

  unfoldable pub issue_for : S → Subject → IssueRequest → String → ℕ → S × Answer
  unfolding issue_reply
  issue_for s (declined answer) body secret now = (s, answer)
  issue_for s (account owner) body secret now = issue_reply (issue s owner body secret now)

  unfoldable pub api_token_issue : S → String → ReadResult IssueRequest → String → ℕ → S × Answer
  unfolding issue_for
  api_token_issue s who (not_read e) secret now = (s, bad_body (status e))
  api_token_issue s who (read body) secret now = issue_for s (subject s who none) body secret now
