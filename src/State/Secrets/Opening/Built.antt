-- ===== src/State/Secrets/Opening/Built.antt =====
-- The index of names that src/state/secrets.rs builds when it opens a store, against the entries.
use isabelle_core.Prelude.{
  nat_eq_iff, Bool-cases, ◌==◌, nat_Eq, string_Eq, Map, lookup, insert, contains_key, lookup-insert,
  beq_refl, Distinct, is_empty, ℕ, String, ◌≡◌, refl, sym, ap, ◌∙◌, ◌⊎◌, inl, inr, false, Option,
  none, some, [], ◌∷◌, arith,
}
use isabelle_core.Item.{Item}
use isabelle_core.State.Secrets.{name_field, previous}
use isabelle_core.State.Secrets.Opening.{add_name, build_from}

build_from-none : (m : Map ℕ Item) → build_from none m ≡ none
unfolding build_from add_name
build_from-none [] = refl
build_from-none ((id, it) ∷ m) = build_from-none m

-- What one entry does to the index, when the building goes on.
add_name-some :
    (idx out : Map String ℕ) (name : Option String) (id : ℕ) (n : String) (i : ℕ)
    → add_name (some idx) name id ≡ some out
    → lookup n out ≡ some i
    → (lookup n idx ≡ some i) ⊎ ((name ≡ some n) × (id ≡ i) × (is_empty n ≡ false))
unfolding add_name
add_name-some idx out none id n i e h = ground arith
add_name-some idx out (some name) id n i e h = elim (Bool-cases (is_empty name)) [
  | inl blank ↦ ground arith
  | inr full ↦ elim (Bool-cases (contains_key name idx)) [
    | inl taken ↦ ground arith
    | inr free ↦ ground (arith, lookup-insert name n id idx, string_Eq.beq_iff name n)
  ]
]

add_name-keeps :
    (idx out : Map String ℕ) (name : Option String) (id : ℕ) (n : String) (i : ℕ)
    → add_name (some idx) name id ≡ some out
    → lookup n idx ≡ some i
    → lookup n out ≡ some i
unfolding add_name
add_name-keeps idx out none id n i e h = ground arith
add_name-keeps idx out (some name) id n i e h = elim (Bool-cases (is_empty name)) [
  | inl blank ↦ ground arith
  | inr full ↦ elim (Bool-cases (contains_key name idx)) [
    | inl taken ↦ ground arith
    | inr free ↦ ground (arith, lookup-insert name n id idx, string_Eq.beq_iff name n)
  ]
]

add_name-filed :
    (idx out : Map String ℕ) (name : String) (id : ℕ)
    → add_name (some idx) (some name) id ≡ some out
    → is_empty name ≡ false
    → lookup name out ≡ some id
unfolding add_name
add_name-filed idx out name id e full =
    ground (arith, lookup-insert name name id idx, beq_refl name)

-- A loop that comes to an end has gone on from every entry.
build_from-goes_on :
    (next : Option (Map String ℕ)) (m : Map ℕ Item) (out : Map String ℕ)
    → build_from next m ≡ some out
    → (idx : Map String ℕ) × (next ≡ some idx) × (build_from (some idx) m ≡ some out)
build_from-goes_on none m out e = ground (arith, build_from-none m)
build_from-goes_on (some idx) m out e = (idx, refl, e)

-- What the whole loop does: nothing that was there is lost, every name that is there at the end
-- was there or is some entry's, and every entry that has a name stands under it.
pub build_from-keeps :
    (m : Map ℕ Item) (idx out : Map String ℕ) (n : String) (i : ℕ)
    → build_from (some idx) m ≡ some out
    → lookup n idx ≡ some i
    → lookup n out ≡ some i
unfolding build_from
build_from-keeps [] idx out n i e h = ground arith
build_from-keeps ((id, it) ∷ m) idx out n i e h =
    let (next, a, b) =
      build_from-goes_on (add_name (some idx) (lookup name_field it.strs) id) m out e in
    build_from-keeps m next out n i b
      (add_name-keeps idx next (lookup name_field it.strs) id n i a h)

-- The name of the entry at an id.
abbrev pub name_at : Map ℕ Item → ℕ → Option String
name_at m i = previous (lookup i m) name_field

pub build_from-named :
    (m : Map ℕ Item) (idx out : Map String ℕ) (n : String) (i : ℕ)
    → Distinct m
    → build_from (some idx) m ≡ some out
    → lookup n out ≡ some i
    → (lookup n idx ≡ some i) ⊎ ((name_at m i ≡ some n) × (is_empty n ≡ false))
unfolding build_from lookup
build_from-named [] idx out n i d e h = ground arith
build_from-named ((id, it) ∷ m) idx out n i (apart, d) e h =
    let (next, a, b) =
      build_from-goes_on (add_name (some idx) (lookup name_field it.strs) id) m out e in
    elim (build_from-named m next out n i d b h) [
      | inl there ↦ elim (add_name-some idx next (lookup name_field it.strs) id n i a there) [
        | inl before ↦ inl before
        | inr (name, same, full) ↦ inr (rw (same, beq_refl i) name, full)
      ]
      | inr (later, full) ↦ inr (ground (arith, nat_eq_iff id i), full)
    ]

pub build_from-filed :
    (m : Map ℕ Item) (idx out : Map String ℕ) (n : String) (i : ℕ)
    → build_from (some idx) m ≡ some out
    → name_at m i ≡ some n
    → is_empty n ≡ false
    → lookup n out ≡ some i
unfolding build_from lookup
build_from-filed [] idx out n i e h full = ground arith
build_from-filed ((id, it) ∷ m) idx out n i e h full =
    let (next, a, b) =
      build_from-goes_on (add_name (some idx) (lookup name_field it.strs) id) m out e in
    elim (Bool-cases (id == i)) [
      | inl same ↦
          let its : lookup name_field it.strs ≡ some n = sym (rw same refl) ∙ h in
          let id_i : id ≡ i = (nat_eq_iff id i).0 same in
          build_from-keeps m next out n i b (
            add_name-filed idx next n id (ap (λ o. add_name (some idx) o id) (sym its) ∙ a) full
            ∙ ap some id_i)
      | inr other ↦ build_from-filed m next out n i b (sym (rw other refl) ∙ h) full
    ]

-- A name further down the list is a name of the list.
pub name_at-tail :
    (id i : ℕ) (it : Item) (m : Map ℕ Item) (n : String)
    → lookup id m ≡ none
    → name_at m i ≡ some n
    → (name_at ((id, it) ∷ m) i ≡ some n) × ((id == i) ≡ false)
unfolding lookup
name_at-tail id i it m n apart h = elim (Bool-cases (id == i)) [
  | inl same ↦ ground (arith, nat_eq_iff id i)
  | inr other ↦ (rw other h, other)
]

add_name-goes_on :
    (id : ℕ) (it : Item) (m : Map ℕ Item) (idx : Map String ℕ)
    → lookup id m ≡ none
    → ((n : String) (i j : ℕ)
        → is_empty n ≡ false
        → name_at ((id, it) ∷ m) i ≡ some n
        → name_at ((id, it) ∷ m) j ≡ some n
        → i ≡ j)
    → ((n : String) (i : ℕ)
        → is_empty n ≡ false
        → name_at ((id, it) ∷ m) i ≡ some n
        → lookup n idx ≡ none)
    → (next : Map String ℕ) × (add_name (some idx) (lookup name_field it.strs) id ≡ some next)
      × ((n : String) (i : ℕ) → is_empty n ≡ false → name_at m i ≡ some n → lookup n next ≡ none)
unfolding add_name lookup
add_name-goes_on id it m idx apart once free =
    by_name (lookup name_field it.strs) (rw (beq_refl id) refl)
  where
    same_index :
        (n : String) (i : ℕ) → is_empty n ≡ false → name_at m i ≡ some n → lookup n idx ≡ none
    same_index n i full h = free n i full (name_at-tail id i it m n apart h).0

    by_name :
        (o : Option String)
        → name_at ((id, it) ∷ m) id ≡ o
        → (next : Map String ℕ) × (add_name (some idx) o id ≡ some next)
          × ((n : String) (i : ℕ)
              → is_empty n ≡ false
              → name_at m i ≡ some n
              → lookup n next ≡ none)
    by_name none e = (idx, refl, same_index)
    by_name (some name) e = elim (Bool-cases (is_empty name)) [
      | inl blank ↦ (idx, rw blank refl, same_index)
      | inr full ↦ (
        insert name id idx,
        rw (full, free name id full e) refl,
        λ n i f h. elim (Bool-cases (name == n)) [
          | inl again ↦
              let (there, other) = name_at-tail id i it m n apart h in
              let one : id ≡ i =
                once name id i full e
                  (there ∙ ap some (sym ((string_Eq.beq_iff name n).0 again))) in
              ground (arith, nat_eq_iff id i)
          | inr new_name ↦ lookup-insert name n id idx ∙ rw new_name (same_index n i f h)
        ],
      )
    ]

-- The building comes to an end where no name stands twice.
pub build_from-succeeds :
    (m : Map ℕ Item) (idx : Map String ℕ)
    → Distinct m
    → ((n : String) (i j : ℕ)
        → is_empty n ≡ false
        → name_at m i ≡ some n
        → name_at m j ≡ some n
        → i ≡ j)
    → ((n : String) (i : ℕ) → is_empty n ≡ false → name_at m i ≡ some n → lookup n idx ≡ none)
    → (out : Map String ℕ) × (build_from (some idx) m ≡ some out)
unfolding build_from
build_from-succeeds [] idx d once free = (idx, refl)
build_from-succeeds ((id, it) ∷ m) idx (apart, d) once free =
    let (next, step, free') = add_name-goes_on id it m idx apart once free in
    let (out, done) =
      build_from-succeeds m next d
        (λ n i j full a b.
          once n i j full (name_at-tail id i it m n apart a).0 (name_at-tail id j it m n apart b).0)
        free' in
    (out, rw step done)
