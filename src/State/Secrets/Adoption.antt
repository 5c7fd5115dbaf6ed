-- ===== src/State/Secrets/Adoption.antt =====
-- `adopt_global_names` and `list` of src/state/secrets.rs.
use isabelle_core.Prelude.{
  if◌then◌else◌, Bool-cases, nat_Eq, string_Eq, is_some, Map, lookup, text_leb, text_leb-total,
  text_leb_trans, Casing, All, ℕ, String, ◌≡◌, refl, sym, subst, inl, inr, true, false, Option,
  none, some, List, [], ◌∷◌, ◌++◌,
}
use isabelle_core.Item.{Item, ItemApi, set_str}
use isabelle_core.State.Secrets.{
  SecretStore, Result, ok, err, Disk, set, name_field, name_of, global_name, get_by_name, adopted,
  adopt_at, adopt_one,
}
use isabelle_core.State.Secrets.Index.{IsValid}
use isabelle_core.State.Secrets.Operations.{set-IsValid}

module _ ⦃api : ItemApi⦄ ⦃c : Casing⦄ ⦃disk : Disk⦄ where
  -- `moved.push(target)`
  unfoldable pub moved_on :
      List String → SecretStore × Result (Option String) → SecretStore × Result (List String)
  moved_on moved (s, err e) = (s, err e)
  moved_on moved (s, ok none) = (s, ok moved)
  moved_on moved (s, ok (some target)) = (s, ok (moved ++ (target ∷ [])))

  -- The loop over the legacy names, which an error ends.
  unfoldable pub adopt_from :
      SecretStore × Result (List String) → List String → SecretStore × Result (List String)
  unfolding moved_on
  adopt_from r [] = r
  adopt_from (s, err e) (name ∷ names) = adopt_from (s, err e) names
  adopt_from (s, ok moved) (name ∷ names) = adopt_from (moved_on moved (adopt_one s name)) names

  unfoldable pub adopt_global_names : SecretStore → List String → SecretStore × Result (List String)
  unfolding adopt_from
  adopt_global_names s legacy = adopt_from (s, ok []) legacy

  adopted-store : (target : String) (r : SecretStore × Result ℕ) → (adopted target r).0 ≡ r.0
  unfolding adopted
  adopted-store target (s, ok i) = refl
  adopted-store target (s, err e) = refl

  adopt_at-IsValid :
      (s : SecretStore) (target : String) (o : Option Item)
      → IsValid s
      → IsValid (adopt_at s target o).0
  unfolding adopt_at
  adopt_at-IsValid s target none v = v
  adopt_at-IsValid s target (some item) v =
      subst IsValid (sym (adopted-store target (set s (set_str item name_field target) false)))
        (set-IsValid s (set_str item name_field target) false v)

  adopt_one-IsValid : (s : SecretStore) (name : String) → IsValid s → IsValid (adopt_one s name).0
  unfolding adopt_one
  adopt_one-IsValid s name v =
      elim (Bool-cases (is_some (lookup (global_name name) s.name_index))) [
        | inl there ↦ rw there v
        | inr free ↦ rw free (adopt_at-IsValid s (global_name name) (get_by_name s name) v)
      ]

  moved_on-store :
      (moved : List String) (r : SecretStore × Result (Option String)) → (moved_on moved r).0 ≡ r.0
  unfolding moved_on
  moved_on-store moved (s, err e) = refl
  moved_on-store moved (s, ok none) = refl
  moved_on-store moved (s, ok (some target)) = refl

  adopt_from-IsValid :
      (names : List String) (r : SecretStore × Result (List String))
      → IsValid r.0
      → IsValid (adopt_from r names).0
  unfolding adopt_from
  adopt_from-IsValid [] r v = v
  adopt_from-IsValid (name ∷ names) (s, err e) v = adopt_from-IsValid names (s, err e) v
  adopt_from-IsValid (name ∷ names) (s, ok moved) v =
      adopt_from-IsValid names (moved_on moved (adopt_one s name))
        (subst IsValid (sym (moved_on-store moved (adopt_one s name))) (adopt_one-IsValid s name v))

  -- Moving the application's entries keeps the store in order, also where an error ends it.
  pub adopt_global_names-IsValid :
      (s : SecretStore) (legacy : List String) → IsValid s → IsValid (adopt_global_names s legacy).0
  unfolding adopt_global_names
  adopt_global_names-IsValid s legacy v = adopt_from-IsValid legacy (s, ok []) v

-- `list`: the ids and the names, in the order of the names.
unfoldable pub insert_by_name : ℕ × String → List (ℕ × String) → List (ℕ × String)
insert_by_name x [] = x ∷ []
insert_by_name x (y ∷ ys) =
    let rest = insert_by_name x ys in if text_leb x.1 y.1 then x ∷ y ∷ ys else y ∷ rest

unfoldable pub list_entries : Map ℕ Item → List (ℕ × String)
unfolding insert_by_name
list_entries [] = []
list_entries ((id, it) ∷ m) = insert_by_name (id, name_of it) (list_entries m)

unfoldable pub list : SecretStore → List (ℕ × String)
unfolding list_entries
list s = list_entries s.entries

-- No pair of the list stands before one with a smaller name.
abbrev pub IsOrdered : List (ℕ × String) → Type 0
IsOrdered [] = Unit
IsOrdered (x ∷ xs) = All (λ y. text_leb x.1 y.1 ≡ true) xs × IsOrdered xs

insert_by_name-All :
    (n : String) (x : ℕ × String) (ys : List (ℕ × String))
    → text_leb n x.1 ≡ true
    → All (λ y. text_leb n y.1 ≡ true) ys
    → All (λ y. text_leb n y.1 ≡ true) (insert_by_name x ys)
unfolding insert_by_name
insert_by_name-All n x [] h a = (h, tt)
insert_by_name-All n x (y ∷ ys) h (b, a) = elim (Bool-cases (text_leb x.1 y.1)) [
  | inl first ↦ rw first (h, (b, a))
  | inr later ↦ rw later (b, insert_by_name-All n x ys h a)
]

All-after :
    (m n : String) (ys : List (ℕ × String))
    → text_leb m n ≡ true
    → All (λ y. text_leb n y.1 ≡ true) ys
    → All (λ y. text_leb m y.1 ≡ true) ys
All-after m n [] h a = tt
All-after m n (y ∷ ys) h (b, a) = (text_leb_trans m n y.1 h b, All-after m n ys h a)

insert_by_name-IsOrdered :
    (x : ℕ × String) (ys : List (ℕ × String)) → IsOrdered ys → IsOrdered (insert_by_name x ys)
unfolding insert_by_name
insert_by_name-IsOrdered x [] o = (tt, tt)
insert_by_name-IsOrdered x (y ∷ ys) (a, o) = elim (Bool-cases (text_leb x.1 y.1)) [
  | inl first ↦ rw first ((first, All-after x.1 y.1 ys first a), (a, o))
  | inr later ↦ rw later (
    insert_by_name-All y.1 x ys (text_leb-total x.1 y.1 later) a,
    insert_by_name-IsOrdered x ys o,
  )
]

-- The list of secrets is in the order of their names.
pub list-IsOrdered : (s : SecretStore) → IsOrdered (list s)
unfolding list list_entries
list-IsOrdered s = in_order s.entries
  where
    in_order : (m : Map ℕ Item) → IsOrdered (list_entries m)
    in_order [] = tt
    in_order ((id, it) ∷ m) =
        insert_by_name-IsOrdered (id, name_of it) (list_entries m) (in_order m)
