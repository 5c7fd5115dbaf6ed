-- ===== src/Server/ApiToken.antt =====
-- src/server/api_token.rs: credentials for programs. The hash and the coding of the list of scopes
-- are an interface; the secret that is drawn and the clock are arguments.
pub mod Scopes
pub mod Wire
pub mod Managed
pub mod Managing
pub mod Lifetime
use isabelle_core.Prelude.{
  ltb, leb, nat_eq, if◌then◌else◌, nat_eq_iff, Bool-cases, Option-cases, Eq, ◌==◌, nat_Eq,
  string_Eq, u64_max, saturating_add, saturating_mul, is_some, any, all, contains, nat_eq_refl, Map,
  or_else, lookup, insert, remove, retain, contains_key, lookup-insert, lookup-remove, beq_refl,
  Distinct, insert-Distinct, remove-Distinct, is_empty, starts_with, append, contains_text,
  any_char, ends_with_char, split_on, is_whitespace, is_control, trim_start, trim_end, trim, utf8,
  as_bytes, as_bytes_injective, Casing, to_lowercase, to_lowercase, length, take, drop,
  length-take-le, window-append, All, All-take, All-drop, ℕ, zero, suc, ◌+◌, ◌-◌, ◌*◌, ◌/◌, ◌%◌,
  ◌^◌, ◌≤◌, ◌<◌, min, max, String, ◌≡◌, refl, sym, ap, ◌∙◌, subst, ◌≢◌, ◌↔◌, ◌⊎◌, inl, inr, Bool,
  true, false, ◌&&◌, ◌||◌, not, Option, none, some, get_or, List, [], ◌∷◌, ◌++◌, map, arith, eq_iff,
  eq_refl,
}
use isabelle_core.Item.{
  Item, ItemApi, new, safe_str, safe_bool, safe_u64, safe_id, set_str, set_bool, set_u64, set_id,
}
use isabelle_core.Util.Crypto.{constant_time_eq}
use isabelle_core.State.Store.{Store}

-- `COLLECTION`
abbrev pub token_collection : String
token_collection = "api_token"

-- SHA-256 in hexadecimal digits, and `serde_json` on a list of scopes.
pub record TokenApi : Type 0 where
  pub hash : String → String
  pub read_scopes : String → List String
  pub write_scopes : List String → String

unfoldable pub hidden_from_item_api : String → Bool
hidden_from_item_api collection = collection == token_collection

pub record Presented : Type 0 where
  pub id : ℕ
  pub secret : String

pub data Rejected : Type 0 where
  unknown : Rejected
  wrong_secret : Rejected
  revoked : Rejected
  expired : Rejected
  owner_inactive : Rejected

pub data Outcome {ℓ κ} (A : Type ℓ) (E : Type κ) : Type (ℓ ⊔ κ) where
  accepted : A → Outcome A E
  refused : E → Outcome A E

-- `check(…)?; Ok(record)`
unfoldable pub outcome_of : Item → Option Rejected → Outcome Item Rejected
outcome_of itm none = accepted itm
outcome_of itm (some reason) = refused reason

module _ ⦃api : ItemApi⦄ ⦃t : TokenApi⦄ where
  -- Zero means that the token does not expire.
  unfoldable pub is_expired : Item → ℕ → Bool
  is_expired record_item now =
      not (safe_u64 record_item "expires" 0 == 0) && leb (safe_u64 record_item "expires" 0) now

  -- `check`: `none` where the record accepts the secret.
  unfoldable pub check : Item → String → ℕ → Option Rejected
  unfolding is_expired
  check record_item secret now =
      if safe_bool record_item "revoked" false
      then some revoked
      else if is_expired record_item now
      then some expired
      else if not
          (constant_time_eq (as_bytes (safe_str record_item "hash" "")) (as_bytes (t.hash secret)))
      then some wrong_secret
      else none

  unfoldable pub scopes_of : Item → List String
  scopes_of record_item = t.read_scopes (safe_str record_item "scopes" "[]")

  unfoldable pub resolve_record : Option Item → String → ℕ → Outcome Item Rejected
  unfolding outcome_of
  resolve_record none secret now = refused unknown
  resolve_record (some itm) secret now = outcome_of itm (check itm secret now)

  unfoldable pub resolve : {S : Type 0} ⦃st : Store S⦄ → S → Presented → ℕ → Outcome Item Rejected
  resolve ⦃st⦄ s presented now =
      resolve_record (st.get_item s token_collection presented.id) presented.secret now

-- `NEVER`, `ALWAYS` and `CORE_SCOPES`
abbrev pub never : List String
never =
    "/secret/" ∷ "/setting/edit" ∷ "/setting/gcal_auth" ∷ "/api_token/" ∷ "/system/update"
    ∷ "/user/pwd" ∷ []

abbrev pub always : List String
always = "/is_logged_in" ∷ []

abbrev pub core_scopes : Map String String
core_scopes = ("/setting/list", "read") ∷ ("/feature/list", "read") ∷ []

unfoldable pub item_route_verb : String → Option String
item_route_verb path =
    if path == "/itm/list"
    then some "read"
    else if path == "/itm/edit" || path == "/itm/del"
    then some "write"
    else none

-- The scope that a path needs: core's own, or the one that is declared for it.
unfoldable pub needed_scope : String → Option String → Option String
needed_scope path declared = or_else (lookup path core_scopes) declared

unfoldable pub is_granted : List String → Option String → Bool
is_granted granted none = false
is_granted granted (some needed) = contains granted needed

unfoldable pub is_never : String → Bool
is_never path = any (λ p. starts_with path p) never

-- Whether a request is inside what a token was issued for; the text of a refusal is left out.
unfoldable pub scope_allows : String → List String → Option String → Bool
unfolding is_granted
scope_allows path granted declared =
    if is_never path
    then false
    else if contains always path
    then true
    else is_granted granted (needed_scope path declared)

abbrev pub touch_interval_secs : ℕ
touch_interval_secs = 60

module _ ⦃api : ItemApi⦄ {S : Type 0} ⦃st : Store S⦄ where
  -- The subtraction stops at 0, as `saturating_sub` does.
  unfoldable pub touch : S → Item → ℕ → S
  touch s itm now =
      if ltb (now - safe_u64 itm "last_used" 0) touch_interval_secs
      then s
      else (st.set_item s token_collection (set_u64 (record new { id = itm.id }) "last_used" now)
          true).0

  unfoldable pub revoke : S → ℕ → S
  revoke s id =
      (st.set_item s token_collection (set_bool (record new { id = id }) "revoked" true) true).0

pub record IssueRequest : Type 0 where
  pub name : String
  pub scopes : List String
  pub expires_days : ℕ

-- What issuing answers: the id, and the secret that the token is assembled from.
pub data Issued : Type 0 where
  issued : ℕ → String → Issued
  needs_name : Issued
  needs_scopes : Issued

take_chars : ℕ → String → String
take_chars zero s = String.[]
take_chars (suc n) String.[] = String.[]
take_chars (suc n) (String.◌∷◌ c s) = String.◌∷◌ c (take_chars n s)

-- `secret.chars().take(6).collect()`
unfoldable pub shown_part : String → String
unfolding take_chars
shown_part secret = take_chars 6 secret

unfoldable pub expiry : ℕ → ℕ → ℕ
expiry now days = if days == 0 then 0 else saturating_add now (saturating_mul days 86400)

unfoldable pub no_scopes : List String → Bool
no_scopes [] = true
no_scopes (x ∷ xs) = false

module _ ⦃api : ItemApi⦄ ⦃t : TokenApi⦄ where
  -- The record of a new token.
  unfoldable pub token_record : ℕ → IssueRequest → String → ℕ → Item
  unfolding expiry shown_part
  token_record owner req secret now =
      set_bool
        (set_u64
          (set_u64
            (set_str
              (set_str
                (set_str
                  (set_str (set_id (record new { id = u64_max }) "user" owner) "name"
                    (trim req.name))
                  "hash" (t.hash secret))
                "shown" (shown_part secret))
              "scopes" (t.write_scopes req.scopes))
            "created" now)
          "expires" (expiry now req.expires_days))
        "revoked" false

  unfoldable pub issue :
      {S : Type 0} ⦃st : Store S⦄ → S → ℕ → IssueRequest → String → ℕ → S × Issued
  unfolding no_scopes
  issue ⦃st⦄ s owner req secret now =
      if is_empty (trim req.name)
      then (s, needs_name)
      else if no_scopes req.scopes
      then (s, needs_scopes)
      else let (after, id) =
          st.set_item s token_collection (token_record owner req secret now) false in
        (after, issued id secret)
