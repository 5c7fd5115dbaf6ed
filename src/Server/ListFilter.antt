-- ===== src/Server/ListFilter.antt =====
-- src/server/list_filter.rs: which filters a client may ask a listing for, and what is removed from
-- a record before others see it. Reading a text as JSON (`serde_json`) is an interface; a refusal
-- names its reason, without the text for the log.
pub mod Fields
pub mod Grammar
pub mod Redaction
use isabelle_core.Prelude.{
  ltb, leb, nat_eq, if◌then◌else◌, nat_eq_iff, Bool-cases, Option-cases, Eq, ◌==◌, nat_Eq,
  string_Eq, u64_max, saturating_add, saturating_mul, is_some, any, all, contains, nat_eq_refl, Map,
  or_else, lookup, insert, remove, retain, contains_key, lookup-insert, lookup-remove, beq_refl,
  Distinct, insert-Distinct, remove-Distinct, is_empty, starts_with, append, contains_text,
  any_char, ends_with_char, split_on, is_whitespace, is_control, trim_start, trim_end, trim, utf8,
  as_bytes, as_bytes_injective, Casing, to_lowercase, to_lowercase, length, take, drop,
  length-take-le, window-append, All, All-take, All-drop, ℕ, zero, suc, ◌+◌, ◌-◌, ◌*◌, ◌/◌, ◌%◌,
  ◌^◌, ◌≤◌, ◌<◌, min, max, String, ◌≡◌, refl, sym, ap, ◌∙◌, subst, ◌≢◌, ◌↔◌, ◌⊎◌, inl, inr, Bool,
  true, false, ◌&&◌, ◌||◌, not, Option, none, some, get_or, List, [], ◌∷◌, ◌++◌, map, arith, eq_iff,
  eq_refl,
}
use isabelle_core.Item.{Item}

-- `serde_json::Value`; numbers are not told apart, since the code does not.
mutual
  pub data Json : Type 0 where
    null : Json
    boolean : Bool → Json
    number : Json
    text : String → Json
    array : Elements → Json
    object : Members → Json

  pub data Elements : Type 0 where
    no_more : Elements
    element : Json → Elements → Elements

  pub data Members : Type 0 where
    closed : Members
    member : String → Json → Members → Members

pub record JsonApi : Type 0 where
  pub parse : String → Option Json

abbrev pub allowed_combinators : List String
allowed_combinators = "$and" ∷ "$or" ∷ []

abbrev pub allowed_leaf_ops : List String
allowed_leaf_ops = "$eq" ∷ "$ne" ∷ "$gt" ∷ "$gte" ∷ "$lt" ∷ "$lte" ∷ []

abbrev pub allowed_set_ops : List String
allowed_set_ops = "$in" ∷ "$nin" ∷ []

abbrev pub max_set_operands : ℕ
max_set_operands = 256

abbrev pub credential_markers : List String
credential_markers =
    "password" ∷ "passwd" ∷ "secret" ∷ "token" ∷ "salt" ∷ "otp" ∷ "api_key" ∷ "apikey"
    ∷ "credential" ∷ []

abbrev pub max_depth : ℕ
max_depth = 4

-- `CREDENTIAL_MARKERS.iter().any(|m| s.contains(m))`
unfoldable pub is_marked : String → Bool
is_marked s = any (λ m. contains_text s m) credential_markers

unfoldable pub is_credential_field : ⦃c : Casing⦄ → String → Bool
is_credential_field name = is_marked (to_lowercase name)

unfoldable pub redact_credentials : ⦃c : Casing⦄ → Item → Item
redact_credentials itm = record itm {
  strs = retain (λ k _. not (is_credential_field k)) itm.strs;
  strstrs = retain (λ k _. not (is_credential_field k)) itm.strstrs;
  strids = retain (λ k _. not (is_credential_field k)) itm.strids;
  bools = retain (λ k _. not (is_credential_field k)) itm.bools;
  u64s = retain (λ k _. not (is_credential_field k)) itm.u64s;
  ids = retain (λ k _. not (is_credential_field k)) itm.ids;
}

unfoldable pub segment_is_allowed : String → Bool
segment_is_allowed segment = not (is_empty segment) && not (is_marked segment)

unfoldable pub field_is_allowed : ⦃c : Casing⦄ → String → Bool
field_is_allowed path =
    not (is_empty path || contains_text path "$")
    && all segment_is_allowed (split_on b'.' (to_lowercase path))

-- Why a filter is refused.
pub data Reason : Type 0 where
  not_json : Reason
  too_deep : Reason
  not_an_object : Reason
  operator_not_allowed : Reason
  expects_array : Reason
  expects_non_empty : Reason
  field_not_allowed : Reason
  non_scalar : Reason
  empty_comparison : Reason
  expects_list : Reason
  too_many_values : Reason
  expects_scalar : Reason

abbrev pub is_scalar : Json → Bool
is_scalar (array es) = false
is_scalar (object ms) = false
is_scalar _ = true

unfoldable pub count_elements : Elements → ℕ
count_elements no_more = 0
count_elements (element v es) = suc (count_elements es)

unfoldable pub all_scalar : Elements → Bool
all_scalar no_more = true
all_scalar (element v es) = is_scalar v && all_scalar es

-- The operand of a membership operator.
unfoldable pub validate_list : Json → Option Reason
validate_list (array es) =
    if ltb max_set_operands (count_elements es)
    then some too_many_values
    else if not (all_scalar es)
    then some expects_scalar
    else none
validate_list _ = some expects_list

unfoldable pub validate_operator : String → Json → Option Reason
unfolding validate_list
validate_operator op operand =
    if contains allowed_set_ops op
    then validate_list operand
    else if not (contains allowed_leaf_ops op)
    then some operator_not_allowed
    else if not (is_scalar operand)
    then some expects_scalar
    else none

-- A loop that stops at the first refusal: `none` is `Ok(())`.
unfoldable pub validate_operators : Members → Option Reason
unfolding validate_operator
validate_operators closed = none
validate_operators (member op operand ms) =
    or_else (validate_operator op operand) (validate_operators ms)

unfoldable pub validate_leaf_value : Json → Option Reason
unfolding validate_operators
validate_leaf_value (array es) = some non_scalar
validate_leaf_value (object closed) = some empty_comparison
validate_leaf_value (object (member op operand ms)) = validate_operators (member op operand ms)
validate_leaf_value _ = none

unfoldable mutual
  pub validate_node : ⦃c : Casing⦄ → Json → ℕ → Option Reason
  validate_node (object ms) depth =
      let rest = validate_members ms depth in if ltb max_depth depth then some too_deep else rest
  validate_node _ depth = if ltb max_depth depth then some too_deep else some not_an_object

  pub validate_members : ⦃c : Casing⦄ → Members → ℕ → Option Reason
  validate_members closed depth = none
  validate_members (member key value ms) depth =
      let branches = validate_branches_of value depth in
      let here =
        if starts_with key "$"
        then if not (contains allowed_combinators key) then some operator_not_allowed else branches
        else if not (field_is_allowed key)
        then some field_not_allowed
        else validate_leaf_value value in
      or_else here (validate_members ms depth)

  -- The value of a combinator.
  pub validate_branches_of : ⦃c : Casing⦄ → Json → ℕ → Option Reason
  validate_branches_of (array no_more) depth = some expects_non_empty
  validate_branches_of (array (element v es)) depth =
      or_else (validate_node v (depth + 1)) (validate_branches es depth)
  validate_branches_of _ depth = some expects_array

  pub validate_branches : ⦃c : Casing⦄ → Elements → ℕ → Option Reason
  validate_branches no_more depth = none
  validate_branches (element v es) depth =
      or_else (validate_node v (depth + 1)) (validate_branches es depth)

unfoldable pub validate_parsed : ⦃c : Casing⦄ → Option Json → Option Reason
validate_parsed none = some not_json
validate_parsed (some v) = validate_node v 0

unfoldable pub validate_client_filter : ⦃c : Casing⦄ ⦃json : JsonApi⦄ → String → Option Reason
unfolding validate_parsed
validate_client_filter ⦃json = json⦄ filter =
    if is_empty (trim filter) then none else validate_parsed (json.parse filter)
