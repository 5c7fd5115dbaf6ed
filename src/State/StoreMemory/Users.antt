-- ===== src/State/StoreMemory/Users.antt =====
-- src/state/store_memory.rs: whom `find_user` finds, and that the store keeps what the trait
-- promises its callers.
use isabelle_core.Prelude.{
  if◌then◌else◌, nat_eq_iff, Bool-cases, ◌==◌, nat_Eq, string_Eq, u64_max, Map, lookup, insert,
  remove, Distinct, insert-Distinct, Casing, to_lowercase, to_lowercase, All, ℕ, String, ◌≡◌, refl,
  sym, ap, ◌∙◌, subst, ◌≢◌, ◌⊎◌, inl, inr, Bool, true, ◌&&◌, none, some, [], ◌∷◌, arith,
}
use isabelle_core.Item.{Item, ItemApi}
use isabelle_core.State.Store.{checked, unavailable, overlay, at_id, SameNames, StoreLaws}
use isabelle_core.State.StoreMemory.{
  StoreMemory, collection_of, put, get_item, set_item, target, names_user, find_value, find_user,
  find_user_checked, memory,
}
use isabelle_core.State.StoreMemory.Records.{collection_of-insert, get_item-set_item}

-- Every record is filed under its own id.
abbrev pub Filed : Map ℕ Item → Type 0
Filed c = All (λ e. e.1.id ≡ e.0) c

pub record WellFormed (s : StoreMemory) : Type 0 where
  pub filed : (c : String) → Filed (collection_of s c)
  pub distinct : (c : String) → Distinct (collection_of s c)

insert-Filed :
    (id : ℕ) (itm : Item) (c : Map ℕ Item) → itm.id ≡ id → Filed c → Filed (insert id itm c)
unfolding insert
insert-Filed id itm [] e h = (e, tt)
insert-Filed id itm ((j, old) ∷ c) e (p, h) = elim (Bool-cases (j == id)) [
  | inl same ↦ rw same (e, h)
  | inr other ↦ rw other (p, insert-Filed id itm c e h)
]

remove-Filed : (id : ℕ) (c : Map ℕ Item) → Filed c → Filed (remove id c)
unfolding remove
remove-Filed id [] h = tt
remove-Filed id ((j, old) ∷ c) (p, h) = elim (Bool-cases (j == id)) [
  | inl same ↦ rw same (remove-Filed id c h)
  | inr other ↦ rw other (p, remove-Filed id c h)
]

put-WellFormed :
    (s : StoreMemory) (c : String) (id : ℕ) (itm : Item)
    → itm.id ≡ id
    → WellFormed s
    → WellFormed (put s c id itm)
put-WellFormed s c id itm e h = record {
  filed = λ d. rw collection_of-insert (elim (Bool-cases (c == d)) [
    | inl same ↦ rw same (insert-Filed id itm (collection_of s c) e (h.filed c))
    | inr other ↦ rw other (h.filed d)
  ]);
  distinct = λ d. rw collection_of-insert (elim (Bool-cases (c == d)) [
    | inl same ↦ rw same (insert-Distinct id itm (collection_of s c) (h.distinct c))
    | inr other ↦ rw other (h.distinct d)
  ]);
}

-- A write, merging or not, with an id or without, leaves every record filed under its own id.
pub set_item-WellFormed :
    ⦃api : ItemApi⦄ (s : StoreMemory) (c : String) (itm : Item) (merging : Bool)
    → WellFormed s
    → WellFormed (set_item s c itm merging).0
unfolding set_item
set_item-WellFormed s c itm merging h = put-WellFormed s c _ _ refl h

module _ (p : Item → Bool) where
  find_value-lookup :
      (c : Map ℕ Item) (u : Item)
      → Filed c
      → Distinct c
      → find_value p c ≡ some u
      → lookup u.id c ≡ some u
  unfolding find_value lookup
  find_value-lookup [] u h d e = cc
  find_value-lookup ((j, itm) ∷ c) u (q, h) (absent, d) e = elim (Bool-cases (p itm)) [
    | inl here ↦
        let same : itm ≡ u = ground arith in
        let key : j ≡ u.id = sym q ∙ ap (λ (x : Item). x.id) same in ground arith
    | inr later ↦
        let ih : lookup u.id c ≡ some u = find_value-lookup c u h d (ground arith) in
        elim (Bool-cases (j == u.id)) [
          | inl same ↦
              let key : j ≡ u.id = (nat_eq_iff j u.id).0 same in
              let gone : lookup u.id c ≡ none = subst (λ x. lookup x c ≡ none) key absent in cc
          | inr other ↦ rw other ih
        ]
  ]

  -- Writing another record that `p` holds of over the one that was found: it is found in its place.
  find_value-insert :
      (c : Map ℕ Item) (u v : Item)
      → Filed c
      → p v ≡ true
      → find_value p c ≡ some u
      → find_value p (insert u.id v c) ≡ some v
  unfolding find_value insert
  find_value-insert [] u v h q e = cc
  find_value-insert ((j, itm) ∷ c) u v (f, h) q e = elim (Bool-cases (j == u.id)) [
    | inl same ↦ rw (same, find_value, q)
    | inr other ↦ elim (Bool-cases (p itm)) [
      | inl here ↦
          let same : itm ≡ u = ground arith in
          let key : j ≡ u.id = sym f ∙ ap (λ (x : Item). x.id) same in
          cc ((nat_eq_iff j u.id).1 key)
      | inr later ↦ rw (other, find_value, later) (find_value-insert c u v h q (ground arith))
    ]
  ]

  pub find_value_holds : (c : Map ℕ Item) (u : Item) → find_value p c ≡ some u → p u ≡ true
  unfolding find_value
  find_value_holds [] u e = cc
  find_value_holds ((j, itm) ∷ c) u e = ground (arith, find_value_holds c u)

names_user-SameNames :
    ⦃c : Casing⦄ (wanted : String) (a b : Item)
    → SameNames a b
    → names_user wanted a ≡ names_user wanted b
unfolding names_user
names_user-SameNames wanted a b (login, email) = rw (login, email)

pub get_item-find_user :
    ⦃c : Casing⦄ (s : StoreMemory) (login : String) (u : Item)
    → WellFormed s
    → find_user s login ≡ some u
    → get_item s "user" u.id ≡ some u
unfolding find_user get_item
get_item-find_user s login u h e =
    find_value-lookup _ (collection_of s "user") u (h.filed "user") (h.distinct "user") e

pub find_user-set_item :
    ⦃api : ItemApi⦄ ⦃c : Casing⦄ (s : StoreMemory) (login : String) (u itm : Item) (merging : Bool)
    → WellFormed s
    → find_user s login ≡ some u
    → itm.id ≡ u.id
    → itm.id ≢ u64_max
    → SameNames (overlay (some u) itm merging) u
    → find_user (set_item s "user" itm merging).0 login
      ≡ some (at_id (overlay (some u) itm merging) u.id)
unfolding find_user set_item
find_user-set_item s login u itm merging h e same own names =
    let t : target s itm "user" ≡ u.id = ground arith in
    let old : lookup u.id (collection_of s "user") ≡ some u =
      unfold get_item in get_item-find_user s login u h e in
    let v = at_id (overlay (some u) itm merging) u.id in
    let known : names_user (to_lowercase login) v ≡ true =
      names_user-SameNames _ v u names
      ∙ find_value_holds (names_user (to_lowercase login)) (collection_of s "user") u e in
    rw (t, old, collection_of-insert)
      (find_value-insert _ (collection_of s "user") u v (h.filed "user") known e)

target_of_own :
    (s : StoreMemory) (c : String) (itm : Item) → itm.id ≢ u64_max → target s itm c ≡ itm.id
target_of_own s c itm own = ground arith

pub get_item-set_item_own :
    ⦃api : ItemApi⦄ (s : StoreMemory) (c d : String) (itm : Item) (merging : Bool) (j : ℕ)
    → itm.id ≢ u64_max
    → get_item (set_item s c itm merging).0 d j ≡ (
        if c == d && itm.id == j
        then some (at_id (overlay (get_item s c itm.id) itm merging) itm.id)
        else get_item s d j)
get_item-set_item_own s c d itm merging j own =
    let answer : (set_item s c itm merging).1 ≡ itm.id =
      unfold set_item in target_of_own s c itm own in
    get_item-set_item s c d itm merging j ∙ rw (answer, target_of_own s c itm own)

pub find_user_checked_lem :
    ⦃c : Casing⦄ (s : StoreMemory) (login : String)
    → (find_user_checked s login ≡ unavailable)
      ⊎ (find_user_checked s login ≡ checked (find_user s login))
unfolding find_user_checked
find_user_checked_lem s login = elim (Bool-cases s.unreachable) [
  | inl down ↦ inl (rw down)
  | inr up ↦ inr (rw up)
]

pub internals-set_item :
    ⦃api : ItemApi⦄ (s : StoreMemory) (c : String) (itm : Item) (merging : Bool)
    → (set_item s c itm merging).0.internals ≡ s.internals
unfolding set_item
internals-set_item s c itm merging = refl

-- The store keeps what the trait promises its callers.
unfoldable pub memory_laws : ⦃api : ItemApi⦄ ⦃c : Casing⦄ → StoreLaws StoreMemory
memory_laws = record {
  Valid = WellFormed;
  set_item-Valid = set_item-WellFormed;
  get_item-set_item = λ s c d itm merging j own _. get_item-set_item_own s c d itm merging j own;
  internals-set_item = internals-set_item;
  get_item-find_user = get_item-find_user;
  find_user-set_item = λ s login u itm merging h e same own _ names.
      find_user-set_item s login u itm merging h e same own names;
  find_user_checked_lem = find_user_checked_lem;
}
