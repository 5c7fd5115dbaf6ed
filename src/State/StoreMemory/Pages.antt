-- ===== src/State/StoreMemory/Pages.antt =====
-- src/state/store_memory.rs: the pages that `get_items` cuts out of a collection.
use isabelle_core.Prelude.{
  leb, nat_eq, if◌then◌else◌, nat_eq_iff, Bool-cases, ◌==◌, nat_Eq, string_Eq, u64_max, is_some,
  nat_eq_refl, Map, lookup, retain, contains_key, Distinct, length, take, drop, All, All-drop, ℕ,
  zero, suc, ◌<◌, String, ◌≡◌, refl, sym, ap, ◌∙◌, subst, ◌⊎◌, inl, inr, Bool, true, false, ◌&&◌,
  ◌||◌, Option, none, some, List, [], ◌∷◌, arith,
}
use isabelle_core.Item.{Item}
use isabelle_core.State.Paging.{
  Rising, holds, IsPageOf, past_least, holds-take, holds-drop, All-mono,
}
use isabelle_core.State.StoreMemory.{
  StoreMemory, collection_of, in_range, insert_sorted, sort_by_id, get_items, offset,
}

-- The ids of the records in a list.
unfoldable pub keys : Map ℕ Item → List ℕ
keys [] = []
keys ((id, itm) ∷ m) = id ∷ keys m

module _ (P : ℕ → Type 0) where
  All-insert_sorted :
      (x : ℕ × Item) (m : Map ℕ Item) → P x.0 → All P (keys m) → All P (keys (insert_sorted x m))
  unfolding insert_sorted keys
  All-insert_sorted x [] p h = (p, tt)
  All-insert_sorted x (y ∷ m) p (q, h) = elim (Bool-cases (leb x.0 y.0)) [
    | inl e ↦ rw e (p, (q, h))
    | inr e ↦ rw e (q, All-insert_sorted x m p h)
  ]

holds-keys : (i : ℕ) (m : Map ℕ Item) → holds i (keys m) ≡ contains_key i m
unfolding keys lookup
holds-keys i [] = refl
holds-keys i ((id, itm) ∷ m) = ground (arith, holds-keys i m)

insert_sorted-Rising :
    (x : ℕ × Item) (m : Map ℕ Item)
    → lookup x.0 m ≡ none
    → Rising (keys m)
    → Rising (keys (insert_sorted x m))
unfolding insert_sorted keys lookup
insert_sorted-Rising x [] apart h = (tt, tt)
insert_sorted-Rising x ((id, itm) ∷ m) apart (least, h) = elim (Bool-cases (leb x.0 id)) [
  | inl e ↦
      let less : x.0 < id = ground (arith, nat_eq_iff id x.0) in
      rw e ((less, All-mono x.0 id (keys m) less least), (least, h))
  | inr e ↦
      let less : id < x.0 = ground arith in
      rw e
        (All-insert_sorted (λ y. id < y) x m less least, insert_sorted-Rising x m (ground arith) h)
]

lookup-insert_sorted :
    (i : ℕ) (x : ℕ × Item) (m : Map ℕ Item)
    → lookup i (insert_sorted x m) ≡ (if nat_eq x.0 i then some x.1 else lookup i m)
unfolding insert_sorted lookup
lookup-insert_sorted i x [] = refl
lookup-insert_sorted i x ((id, itm) ∷ m) = elim (Bool-cases (leb x.0 id)) [
  | inl e ↦ rw e refl
  | inr e ↦ rw (e, lookup-insert_sorted i x m) (ground (arith, nat_eq_iff x.0 i, nat_eq_iff id i))
]

lookup-sort_by_id : (i : ℕ) (m : Map ℕ Item) → lookup i (sort_by_id m) ≡ lookup i m
unfolding sort_by_id lookup
lookup-sort_by_id i [] = refl
lookup-sort_by_id i (x ∷ m) =
    lookup-insert_sorted i x (sort_by_id m) ∙ rw (lookup-sort_by_id i m) refl

sort_by_id-Rising : (m : Map ℕ Item) → Distinct m → Rising (keys (sort_by_id m))
unfolding sort_by_id keys
sort_by_id-Rising [] d = tt
sort_by_id-Rising (x ∷ m) (apart, d) =
    insert_sorted-Rising x (sort_by_id m) (lookup-sort_by_id x.0 m ∙ apart) (sort_by_id-Rising m d)

lookup-retain :
    (p : ℕ → Bool) (i : ℕ) (m : Map ℕ Item)
    → lookup i (retain (λ id _. p id) m) ≡ (if p i then lookup i m else none)
unfolding retain lookup
lookup-retain p i [] = ground arith
lookup-retain p i ((id, itm) ∷ m) = elim (Bool-cases (nat_eq id i)) [
  | inl here ↦
      subst
        (λ k.
          lookup k (retain (λ id _. p id) ((id, itm) ∷ m))
          ≡ (if p k then lookup k ((id, itm) ∷ m) else none))
        ((nat_eq_iff id i).0 here) (at_own (lookup-retain p id m) (Bool-cases (p id)))
  | inr away ↦ elim (Bool-cases (p id)) [
    | inl kept ↦ rw (kept, away) (lookup-retain p i m)
    | inr dropped ↦ rw (dropped, away) (lookup-retain p i m)
  ]
]
  where
    at_own :
        (lookup id (retain (λ id _. p id) m) ≡ (if p id then lookup id m else none))
        → (p id ≡ true) ⊎ (p id ≡ false)
        → lookup id (retain (λ id _. p id) ((id, itm) ∷ m))
          ≡ (if p id then lookup id ((id, itm) ∷ m) else none)
    at_own rest (inl kept) = rw (kept, nat_eq_refl id) refl
    at_own rest (inr dropped) = rw dropped (rest ∙ rw dropped refl)

retain-Distinct : (p : ℕ → Bool) (m : Map ℕ Item) → Distinct m → Distinct (retain (λ id _. p id) m)
unfolding retain
retain-Distinct p [] d = tt
retain-Distinct p ((id, itm) ∷ m) (apart, d) = elim (Bool-cases (p id)) [
  | inl kept ↦ rw kept (lookup-retain p id m ∙ rw (kept, apart) refl, retain-Distinct p m d)
  | inr dropped ↦ rw dropped (retain-Distinct p m d)
]

lookup-take :
    (n i : ℕ) (m : Map ℕ Item)
    → lookup i (take n m) ≡ (if holds i (take n (keys m)) then lookup i m else none)
unfolding take keys lookup
lookup-take zero i m = refl
lookup-take (suc n) i [] = refl
lookup-take (suc n) i ((id, itm) ∷ m) = elim (Bool-cases (nat_eq id i)) [
  | inl here ↦ rw here refl
  | inr away ↦ rw away (lookup-take n i m)
]

keys-drop : (n : ℕ) (m : Map ℕ Item) → keys (drop n m) ≡ drop n (keys m)
unfolding drop keys
keys-drop zero m = refl
keys-drop (suc n) [] = refl
keys-drop (suc n) (x ∷ m) = keys-drop n m

-- What comes after the first ones is found as in the whole.
lookup-drop :
    (n i : ℕ) (m : Map ℕ Item)
    → Rising (keys m)
    → holds i (drop n (keys m)) ≡ true
    → lookup i (drop n m) ≡ lookup i m
unfolding drop keys lookup
lookup-drop zero i m h there = refl
lookup-drop (suc n) i [] h there = refl
lookup-drop (suc n) i ((id, itm) ∷ m) (least, h) there =
    let past : id < i = past_least id i (drop n (keys m)) (All-drop _ n (keys m) least) there in
    let away : nat_eq id i ≡ false = ground (arith, nat_eq_iff id i) in
    lookup-drop n i m h there ∙ rw away refl

lookup-window :
    (n k i : ℕ) (m : Map ℕ Item)
    → Rising (keys m)
    → lookup i (take n (drop k m))
      ≡ (if holds i (take n (drop k (keys m))) then lookup i m else none)
lookup-window n k i m h =
    lookup-take n i (drop k m)
    ∙ ap (λ ids. if holds i (take n ids) then lookup i (drop k m) else none) (keys-drop k m)
    ∙ elim (Bool-cases (holds i (take n (drop k (keys m))))) [
      | inl there ↦ rw there (lookup-drop k i m h (holds-take n i (drop k (keys m)) there))
      | inr gone ↦ rw gone refl
    ]

length-keys : (m : Map ℕ Item) → length m ≡ length (keys m)
unfolding keys
length-keys [] = refl
length-keys (x ∷ m) = ap suc (length-keys m)

is_some-if : (b : Bool) (o : Option Item) → is_some (if b then o else none) ≡ is_some o && b
is_some-if true o = ground arith
is_some-if false o = ground arith

-- What is found among the hits is found in the collection.
of_hit :
    {m : Option Item} (o : Option Item) (b : Bool)
    → m ≡ (if b then o else none)
    → is_some m ≡ true
    → m ≡ o
of_hit o true e there = e
of_hit o false e there = absurd (Bool-apart (sym there ∙ ap (λ x. is_some x) e))
  where
    Bool-apart : true ≡ false → ⊥
    Bool-apart h = cc h

-- A page of a collection counts the records within the bounds, each once and in ascending order,
-- skips the first ones and answers with the next ones, up to the limit. A bound of `u64::MAX` is
-- none, and such an offset stands for 0.
pub get_items-IsPage :
    (s : StoreMemory) (collection : String) (id_min id_max : ℕ) (sort_key filter : String)
    (skip limit : ℕ)
    → Distinct (collection_of s collection)
    → IsPageOf
        (λ i. lookup i (collection_of s collection))
        (λ i.
          contains_key i (collection_of s collection)
          && ((id_min == u64_max || leb id_min i) && (id_max == u64_max || leb i id_max)))
        (if skip == u64_max then 0 else skip)
        limit
        (get_items s collection id_min id_max sort_key filter skip limit)
unfolding get_items offset in_range
get_items-IsPage s collection id_min id_max sort_key filter skip limit once =
    let all = collection_of s collection in
    let hits = retain (λ id _. in_range id_min id_max id) all in
    let sorted = sort_by_id hits in
    let start = if skip == u64_max then 0 else skip in
    let found : (i : ℕ)
        → lookup i sorted ≡ (if in_range id_min id_max i then lookup i all else none) =
      λ i. lookup-sort_by_id i hits ∙ lookup-retain (in_range id_min id_max) i all in
    let rising = sort_by_id-Rising hits (retain-Distinct (in_range id_min id_max) all once) in
    record {
      ids = keys sorted;
      rising = rising;
      complete = λ i.
          holds-keys i sorted
          ∙ ap (λ o. is_some o) (found i)
          ∙ is_some-if (in_range id_min id_max i) (lookup i all);
      total_count = length-keys sorted;
      shown = λ i.
          lookup-window limit start i sorted rising
          ∙ elim (Bool-cases (holds i (take limit (drop start (keys sorted))))) [
            | inl there ↦ rw there (
                of_hit (lookup i all) (in_range id_min id_max i) (found i) (
                  sym (holds-keys i sorted)
                  ∙ holds-drop start i (keys sorted)
                      (holds-take limit i (drop start (keys sorted)) there)))
            | inr gone ↦ rw gone refl
          ];
    }
