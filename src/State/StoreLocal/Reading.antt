-- ===== src/State/StoreLocal/Reading.antt =====
-- How the store of src/state/store_local.rs reads: the loop with a count against the window of the
-- sorted numbers that it stands for.
use isabelle_core.Prelude.{
  ltb, leb, nat_eq, if◌then◌else◌, nat_eq_iff, Bool-cases, ◌==◌, nat_Eq, string_Eq, u64_max,
  nat_eq_refl, Map, or_else, lookup, contains_key, lookup-insert, Distinct, length, take, drop,
  take-nil, drop-nil, All, ℕ, suc, ◌+◌, ◌-◌, ◌≤◌, ◌<◌, String, ◌≡◌, refl, sym, ap, ◌∙◌, subst, inl,
  inr, Bool, false, ◌&&◌, ◌||◌, Option, none, some, get_or, List, [], ◌∷◌, arith,
}
use isabelle_core.Item.{Item}
use isabelle_core.State.Store.{ListResult}
use isabelle_core.State.Paging.{Rising, holds, IsPageOf, All-mono}
use isabelle_core.State.StoreLocal.{
  StoreLocal, get_item, insert_id, ids_in_range, listed, collect, get_items,
}

-- Every record of a list of numbers that can be read.
unfoldable pub read_ids : StoreLocal → String → List ℕ → Map ℕ Item → Map ℕ Item
read_ids s collection [] m = m
read_ids s collection (id ∷ ids) m =
    read_ids s collection ids (listed id (get_item s collection id) m)

module _ (s : StoreLocal) (collection : String) (skip limit : ℕ) where
  collect-after :
      (ids : List ℕ) (count : ℕ) (m : Map ℕ Item)
      → skip ≤ count
      → collect s collection skip limit ids count m
        ≡ read_ids s collection (take (limit - (count - skip)) ids) m
  unfolding collect read_ids take
  collect-after [] count m past =
      sym (ap (λ ids. read_ids s collection ids m) (take-nil (limit - (count - skip))))
  collect-after (id ∷ ids) count m past =
      let counting : ltb count skip ≡ false = ground arith in
      elim (Bool-cases (leb limit (count - skip))) [
        | inl done ↦
            let none_left : limit - (count - skip) ≡ 0 = ground arith in
            rw (counting, done, none_left) refl
        | inr more ↦
            let left : limit - (count - skip) ≡ suc (limit - (count + 1 - skip)) = ground arith in
            rw (counting, more, left)
              (collect-after ids (count + 1) (listed id (get_item s collection id) m) (omega arith))
      ]

  collect-before :
      (ids : List ℕ) (count : ℕ) (m : Map ℕ Item)
      → count ≤ skip
      → collect s collection skip limit ids count m
        ≡ read_ids s collection (take limit (drop (skip - count) ids)) m
  unfolding collect read_ids drop
  collect-before [] count m early = sym (
      ap (λ ids. read_ids s collection ids m)
        (ap (λ ids. take limit ids) (drop-nil (skip - count)) ∙ take-nil limit))
  collect-before (id ∷ ids) count m early = elim (Bool-cases (ltb count skip)) [
    | inl skipped ↦
        let left : skip - count ≡ suc (skip - (count + 1)) = ground arith in
        rw (skipped, left) (collect-before ids (count + 1) m (ground arith))
    | inr reached ↦
        let here : skip - count ≡ 0 = ground arith in
        let start : limit - (count - skip) ≡ limit = ground arith in
        collect-after (id ∷ ids) count m (ground arith) ∙ rw (here, start) refl
  ]

lookup-read_ids :
    (s : StoreLocal) (collection : String) (i : ℕ) (ids : List ℕ) (m : Map ℕ Item)
    → lookup i (read_ids s collection ids m)
      ≡ (if holds i ids then or_else (get_item s collection i) (lookup i m) else lookup i m)
unfolding read_ids listed
lookup-read_ids s collection i [] m = refl
lookup-read_ids s collection i (id ∷ ids) m =
    lookup-read_ids s collection i ids (listed id (get_item s collection id) m)
    ∙ elim (Bool-cases (nat_eq id i)) [
      | inl here ↦ rw here (
          subst
            (λ k.
              (if holds i ids
                then or_else (get_item s collection i)
                    (lookup i (listed k (get_item s collection k) m))
                else lookup i (listed k (get_item s collection k) m))
              ≡ or_else (get_item s collection i) (lookup i m))
            (sym ((nat_eq_iff id i).0 here)) (at_own (get_item s collection i) (holds i ids)))
      | inr away ↦ rw (away, at_other (get_item s collection id) away) refl
    ]
  where
    at_other : (o : Option Item) → nat_eq id i ≡ false → lookup i (listed id o m) ≡ lookup i m
    at_other none away = refl
    at_other (some itm) away = rw (lookup-insert, away) refl

    at_own :
        (o : Option Item) (b : Bool)
        → (if b then or_else o (lookup i (listed i o m)) else lookup i (listed i o m))
          ≡ or_else o (lookup i m)
    at_own none b = ground arith
    at_own (some itm) b = rw (lookup-insert, nat_eq_refl i) (ground arith)

All-insert_id :
    (P : ℕ → Type 0) (id : ℕ) (ids : List ℕ) → P id → All P ids → All P (insert_id id ids)
unfolding insert_id
All-insert_id P id [] p h = (p, tt)
All-insert_id P id (j ∷ ids) p (q, h) = elim (Bool-cases (leb id j)) [
  | inl e ↦ rw e (p, (q, h))
  | inr e ↦ rw e (q, All-insert_id P id ids p h)
]

insert_id-Rising :
    (id : ℕ) (ids : List ℕ) → holds id ids ≡ false → Rising ids → Rising (insert_id id ids)
unfolding insert_id
insert_id-Rising id [] new_id h = (tt, tt)
insert_id-Rising id (j ∷ ids) new_id (least, h) = elim (Bool-cases (leb id j)) [
  | inl e ↦
      let less : id < j = ground (arith, nat_eq_iff j id) in
      rw e ((less, All-mono id j ids less least), (least, h))
  | inr e ↦
      let less : j < id = ground arith in
      rw e (All-insert_id (λ y. j < y) id ids less least, insert_id-Rising id ids (ground arith) h)
]

holds-insert_id :
    (i id : ℕ) (ids : List ℕ) → holds i (insert_id id ids) ≡ nat_eq id i || holds i ids
unfolding insert_id
holds-insert_id i id [] = refl
holds-insert_id i id (j ∷ ids) = elim (Bool-cases (leb id j)) [
  | inl e ↦ rw e refl
  | inr e ↦ rw (e, holds-insert_id i id ids) (ground arith)
]

holds-ids_in_range :
    (lo hi i : ℕ) (m : Map ℕ Bool)
    → holds i (ids_in_range lo hi m) ≡ contains_key i m && leb lo i && leb i hi
unfolding ids_in_range lookup
holds-ids_in_range lo hi i [] = refl
holds-ids_in_range lo hi i ((id, b) ∷ m) = elim (Bool-cases (leb lo id && leb id hi)) [
  | inl fits ↦
      rw (fits, holds-insert_id i id (ids_in_range lo hi m), holds-ids_in_range lo hi i m)
        (ground (arith, nat_eq_iff id i))
  | inr out ↦ rw (out, holds-ids_in_range lo hi i m) (ground (arith, nat_eq_iff id i))
]

ids_in_range-Rising : (lo hi : ℕ) (m : Map ℕ Bool) → Distinct m → Rising (ids_in_range lo hi m)
unfolding ids_in_range
ids_in_range-Rising lo hi [] d = tt
ids_in_range-Rising lo hi ((id, b) ∷ m) (apart, d) = elim (Bool-cases (leb lo id && leb id hi)) [
  | inl fits ↦ rw fits (
      insert_id-Rising id (ids_in_range lo hi m) (holds-ids_in_range lo hi id m ∙ rw apart refl)
        (ids_in_range-Rising lo hi m d))
  | inr out ↦ rw out (ids_in_range-Rising lo hi m d)
]

-- The map of the numbers of a known collection.
abbrev pub numbers : StoreLocal → ℕ → Map ℕ Bool
numbers s coll_id = get_or (lookup coll_id s.items) []

-- A page of a known collection counts the numbers of the collection within the bounds, each once
-- and in ascending order, skips the first ones and answers with the records that can be read under
-- the next ones, up to the limit. A lower bound and an offset of `u64::MAX` stand for 0.
pub get_items-window :
    (s : StoreLocal) (collection : String) (coll_id id_min id_max : ℕ) (sort_key filter : String)
    (skip limit : ℕ)
    → lookup collection s.collections ≡ some coll_id
    → Distinct (numbers s coll_id)
    → (result : ListResult) × (get_items s collection id_min id_max sort_key filter skip limit
        ≡ some result)
      × IsPageOf
          (get_item s collection)
          (λ i.
            contains_key i (numbers s coll_id)
            && leb (if id_min == u64_max then 0 else id_min) i
            && leb i id_max)
          (if skip == u64_max then 0 else skip)
          limit
          result
unfolding get_items lookup
get_items-window s collection coll_id id_min id_max sort_key filter skip limit known once =
    let lo = if id_min == u64_max then 0 else id_min in
    let start = if skip == u64_max then 0 else skip in
    let ids = ids_in_range lo id_max (numbers s coll_id) in
    let none_yet : start - 0 ≡ start = omega arith in
    let page : collect s collection start limit ids 0 []
        ≡ read_ids s collection (take limit (drop start ids)) [] =
      collect-before s collection start limit ids 0 [] (omega arith)
      ∙ ap (λ n. read_ids s collection (take limit (drop n ids)) []) none_yet in
    (
      record { map = collect s collection start limit ids 0 []; total_count = length ids },
      rw known refl,
      record {
        ids = ids;
        rising = ids_in_range-Rising lo id_max (numbers s coll_id) once;
        complete = λ i. holds-ids_in_range lo id_max i (numbers s coll_id);
        total_count = refl;
        shown = λ i.
            ap (λ m. lookup i m) page
            ∙ lookup-read_ids s collection i (take limit (drop start ids)) []
            ∙ from_nothing (get_item s collection i) (holds i (take limit (drop start ids)));
      },
    )
  where
    from_nothing :
        (o : Option Item) (b : Bool)
        → (if b then or_else o none else none) ≡ (if b then o else none)
    from_nothing none b = ground arith
    from_nothing (some itm) b = ground arith
