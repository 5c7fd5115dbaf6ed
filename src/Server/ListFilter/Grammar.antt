-- ===== src/Server/ListFilter/Grammar.antt =====
-- src/server/list_filter.rs: the filters that pass, as a grammar of their own.
use isabelle_core.Prelude.{
  Bool-cases, nat_Eq, string_Eq, contains, or_else, is_empty, starts_with, trim, Casing, ℕ, ◌+◌,
  ◌≤◌, String, ◌≡◌, refl, ap, ◌≢◌, ◌↔◌, ◌⊎◌, inl, inr, true, false, Option, none, some, arith,
}
use isabelle_core.Server.ListFilter.{
  Json, null, boolean, number, text, array, object, Elements, no_more, element, Members, closed,
  member, JsonApi, allowed_combinators, allowed_leaf_ops, allowed_set_ops, max_set_operands,
  max_depth, field_is_allowed, is_scalar, count_elements, all_scalar, validate_list,
  validate_operator, validate_operators, validate_leaf_value, validate_node, validate_members,
  validate_branches_of, validate_branches, validate_client_filter, validate_parsed,
}

-- One operator of a comparison: a list of at most 256 scalars, or one scalar.
pub data Operator (op : String) : Json → Type 0 where
  membership :
      {es : Elements}
      → contains allowed_set_ops op ≡ true
      → count_elements es ≤ max_set_operands
      → all_scalar es ≡ true
      → Operator op (array es)
  comparison :
      {v : Json}
      → contains allowed_set_ops op ≡ false
      → contains allowed_leaf_ops op ≡ true
      → is_scalar v ≡ true
      → Operator op v

pub data Operators : Members → Type 0 where
  last : Operators closed
  also :
      {op : String} {v : Json} {ms : Members}
      → Operator op v
      → Operators ms
      → Operators (member op v ms)

-- What a field may be compared with.
pub data Comparison : Json → Type 0 where
  scalar : {v : Json} → is_scalar v ≡ true → Comparison v
  operators :
      {op : String} {v : Json} {ms : Members}
      → Operators (member op v ms)
      → Comparison (object (member op v ms))

-- A filter at a depth: combinators over filters one deeper, and comparisons of allowed fields.
mutual
  pub data Filter ⦃c : Casing⦄ : Json → ℕ → Type 0 where
    filter :
        {ms : Members} {depth : ℕ}
        → depth ≤ max_depth
        → Conditions ms depth
        → Filter (object ms) depth

  pub data Conditions ⦃c : Casing⦄ : Members → ℕ → Type 0 where
    done : {depth : ℕ} → Conditions closed depth
    combine :
        {key : String} {v : Json} {es : Elements} {ms : Members} {depth : ℕ}
        → starts_with key "$" ≡ true
        → contains allowed_combinators key ≡ true
        → Branches (element v es) depth
        → Conditions ms depth
        → Conditions (member key (array (element v es)) ms) depth
    compare :
        {key : String} {v : Json} {ms : Members} {depth : ℕ}
        → starts_with key "$" ≡ false
        → field_is_allowed key ≡ true
        → Comparison v
        → Conditions ms depth
        → Conditions (member key v ms) depth

  pub data Branches ⦃c : Casing⦄ : Elements → ℕ → Type 0 where
    end : {depth : ℕ} → Branches no_more depth
    branch :
        {v : Json} {es : Elements} {depth : ℕ}
        → Filter v (depth + 1)
        → Branches es depth
        → Branches (element v es) depth

or_else-none {ℓ} : {A : Type ℓ} (a b : Option A) → or_else a b ≡ none → (a ≡ none) × (b ≡ none)
or_else-none none b h = (refl, h)
or_else-none (some a) b h = cc h

Operator-sound : (op : String) (v : Json) → validate_operator op v ≡ none → Operator op v
unfolding validate_operator
Operator-sound op v h = elim (Bool-cases (contains allowed_set_ops op)) [
  | inl set ↦ membership_sound v (rw set at h) set
  | inr other ↦ comparison other (ground arith) (ground arith)
]
  where
    membership_sound :
        (v : Json) → validate_list v ≡ none → contains allowed_set_ops op ≡ true → Operator op v
    membership_sound (array es) h set =
        membership set (unfold validate_list in ground arith) (unfold validate_list in ground arith)
    membership_sound null h set = unfold validate_list in cc h
    membership_sound (boolean b) h set = unfold validate_list in cc h
    membership_sound number h set = unfold validate_list in cc h
    membership_sound (text t) h set = unfold validate_list in cc h
    membership_sound (object ms) h set = unfold validate_list in cc h

Operator-complete : {op : String} {v : Json} → Operator op v → validate_operator op v ≡ none
unfolding validate_operator validate_list
Operator-complete (membership set few scalars) = rw (set, scalars) (ground arith)
Operator-complete (comparison other op plain) = rw (other, op, plain) refl

Operators-sound : (ms : Members) → validate_operators ms ≡ none → Operators ms
unfolding validate_operators
Operators-sound closed h = last
Operators-sound (member op v ms) h =
    let (here, rest) = or_else-none (validate_operator op v) (validate_operators ms) h in
    also (Operator-sound op v here) (Operators-sound ms rest)

Operators-complete : {ms : Members} → Operators ms → validate_operators ms ≡ none
unfolding validate_operators
Operators-complete last = refl
Operators-complete (also here rest) = rw (Operator-complete here) (Operators-complete rest)

Comparison-sound : (v : Json) → validate_leaf_value v ≡ none → Comparison v
unfolding validate_leaf_value
Comparison-sound null h = scalar refl
Comparison-sound (boolean b) h = scalar refl
Comparison-sound number h = scalar refl
Comparison-sound (text t) h = scalar refl
Comparison-sound (array es) h = cc h
Comparison-sound (object closed) h = cc h
Comparison-sound (object (member op v ms)) h = operators (Operators-sound (member op v ms) h)

scalar_complete : (v : Json) → is_scalar v ≡ true → validate_leaf_value v ≡ none
unfolding validate_leaf_value
scalar_complete null h = refl
scalar_complete (boolean b) h = refl
scalar_complete number h = refl
scalar_complete (text t) h = refl
scalar_complete (array es) h = cc h
scalar_complete (object ms) h = cc h

Comparison-complete : {v : Json} → Comparison v → validate_leaf_value v ≡ none
unfolding validate_leaf_value
Comparison-complete (scalar {v} h) = scalar_complete v h
Comparison-complete (operators h) = Operators-complete h

-- The ways in which a member passes.
abbrev Passes : ⦃c : Casing⦄ → String → Json → ℕ → Type 0
Passes key v depth =
    ((starts_with key "$" ≡ true)
      × (contains allowed_combinators key ≡ true)
      × (validate_branches_of v depth ≡ none))
    ⊎ ((starts_with key "$" ≡ false)
        × (field_is_allowed key ≡ true)
        × (validate_leaf_value v ≡ none))

member_cases :
    ⦃c : Casing⦄ (key : String) (v : Json) (ms : Members) (depth : ℕ)
    → validate_members (member key v ms) depth ≡ none
    → Passes key v depth × (validate_members ms depth ≡ none)
unfolding validate_node
member_cases key v ms depth h = ground arith

condition_sound :
    ⦃c : Casing⦄ {key : String} {v : Json} {ms : Members} {depth : ℕ}
    → Passes key v depth
    → validate_branches_of v depth ≢ none
    → Conditions ms depth
    → Conditions (member key v ms) depth
condition_sound (inl (operator, allowed, e)) wrong rest = absurd (wrong e)
condition_sound {v} (inr (field, allowed, e)) wrong rest =
    compare field allowed (Comparison-sound v e) rest

mutual
  unfolding validate_node

  node_sound : ⦃c : Casing⦄ (v : Json) (depth : ℕ) → validate_node v depth ≡ none → Filter v depth
  node_sound (object ms) depth h = filter (ground arith) (members_sound ms depth (ground arith))
  node_sound null depth h = ground arith
  node_sound (boolean b) depth h = ground arith
  node_sound number depth h = ground arith
  node_sound (text t) depth h = ground arith
  node_sound (array es) depth h = ground arith

  members_sound :
      ⦃c : Casing⦄ (ms : Members) (depth : ℕ)
      → validate_members ms depth ≡ none
      → Conditions ms depth
  members_sound closed depth h = done
  members_sound (member key null ms) depth h =
      let (here, rest) = member_cases key null ms depth h in
      condition_sound here (λ e. cc e) (members_sound ms depth rest)
  members_sound (member key (boolean b) ms) depth h =
      let (here, rest) = member_cases key (boolean b) ms depth h in
      condition_sound here (λ e. cc e) (members_sound ms depth rest)
  members_sound (member key number ms) depth h =
      let (here, rest) = member_cases key number ms depth h in
      condition_sound here (λ e. cc e) (members_sound ms depth rest)
  members_sound (member key (text t) ms) depth h =
      let (here, rest) = member_cases key (text t) ms depth h in
      condition_sound here (λ e. cc e) (members_sound ms depth rest)
  members_sound (member key (array no_more) ms) depth h =
      let (here, rest) = member_cases key (array no_more) ms depth h in
      condition_sound here (λ e. cc e) (members_sound ms depth rest)
  members_sound (member key (object ns) ms) depth h =
      let (here, rest) = member_cases key (object ns) ms depth h in
      condition_sound here (λ e. cc e) (members_sound ms depth rest)
  members_sound (member key (array (element v es)) ms) depth h =
      let (here, rest) = member_cases key (array (element v es)) ms depth h in
      elim here [
        | inl (operator, allowed, e) ↦
            let (first, others) =
              or_else-none (validate_node v (depth + 1)) (validate_branches es depth) e in
            combine operator allowed
              (branch (node_sound v (depth + 1) first) (Branches-sound es depth others))
              (members_sound ms depth rest)
        | inr (field, allowed, e) ↦
            compare field allowed (Comparison-sound (array (element v es)) e)
              (members_sound ms depth rest)
      ]

  Branches-sound :
      ⦃c : Casing⦄ (es : Elements) (depth : ℕ)
      → validate_branches es depth ≡ none
      → Branches es depth
  Branches-sound no_more depth h = end
  Branches-sound (element v es) depth h =
      let (here, rest) =
        or_else-none (validate_node v (depth + 1)) (validate_branches es depth) h in
      branch (node_sound v (depth + 1) here) (Branches-sound es depth rest)

mutual
  unfolding validate_node

  node_complete :
      ⦃c : Casing⦄ {v : Json} {depth : ℕ} → Filter v depth → validate_node v depth ≡ none
  node_complete (filter shallow h) = rw (members_complete h) (ground arith)

  members_complete :
      ⦃c : Casing⦄ {ms : Members} {depth : ℕ}
      → Conditions ms depth
      → validate_members ms depth ≡ none
  members_complete done = refl
  members_complete (combine operator allowed branches rest) =
      rw (operator, allowed, members_complete rest)
        (ap (λ o. or_else o none) (Branches-complete branches))
  members_complete (compare field allowed here rest) =
      rw (field, allowed, Comparison-complete here) (members_complete rest)

  Branches-complete :
      ⦃c : Casing⦄ {es : Elements} {depth : ℕ}
      → Branches es depth
      → validate_branches es depth ≡ none
  Branches-complete end = refl
  Branches-complete (branch here rest) = rw (node_complete here) (Branches-complete rest)

-- What a client may send: nothing, or the text of a filter of the grammar, at depth 0.
pub data Acceptable ⦃c : Casing⦄ ⦃json : JsonApi⦄ (sent : String) : Type 0 where
  blank : is_empty (trim sent) ≡ true → Acceptable sent
  written : {v : Json} → json.parse sent ≡ some v → Filter v 0 → Acceptable sent

parsed_sound :
    ⦃c : Casing⦄ ⦃json : JsonApi⦄ (sent : String) (o : Option Json)
    → json.parse sent ≡ o
    → validate_parsed o ≡ none
    → Acceptable sent
unfolding validate_parsed
parsed_sound sent none e h = cc h
parsed_sound sent (some v) e h = written e (node_sound v 0 h)

acceptable_passes :
    ⦃c : Casing⦄ ⦃json : JsonApi⦄ (sent : String)
    → Acceptable sent
    → validate_client_filter sent ≡ none
unfolding validate_client_filter validate_parsed
acceptable_passes sent (blank e) = rw e refl
acceptable_passes sent (written e h) = rw (e, node_complete h) (ground arith)

-- The filters that pass are those of the grammar and no others: combinators of the two kinds over
-- filters nested at most four levels deep, and allowed fields compared with scalars by the listed
-- operators, or with lists of at most 256 scalars.
pub validate_client_filter-Acceptable :
    ⦃c : Casing⦄ ⦃json : JsonApi⦄ (sent : String)
    → (validate_client_filter sent ≡ none) ↔ Acceptable sent
unfolding validate_client_filter
validate_client_filter-Acceptable ⦃json = json⦄ sent = (
  λ h. elim (Bool-cases (is_empty (trim sent))) [
    | inl e ↦ blank e
    | inr e ↦ parsed_sound sent (json.parse sent) refl (rw e at h)
  ],
  acceptable_passes sent,
)
