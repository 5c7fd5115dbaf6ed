-- ===== src/State/Secrets/Opening/Migrated.antt =====
-- The older format of the file of src/state/secrets.rs: a map from names to items. Opening it gives
-- every item an id and keeps its name.
use isabelle_core.Prelude.{
  if◌then◌else◌, nat_eq_iff, Bool-cases, ◌==◌, nat_Eq, string_Eq, u64_max, Map, lookup, insert,
  lookup-insert, beq_refl, Distinct, is_empty, text_leb, length, ℕ, ◌+◌, ◌%◌, ◌^◌, ◌≤◌, ◌<◌, String,
  ◌≡◌, refl, sym, ap, ◌∙◌, subst, ◌⊎◌, inl, inr, false, none, some, [], ◌∷◌, arith,
}
use isabelle_core.Item.{Item}
use isabelle_core.State.Secrets.{SecretStore, name_field, previous, get_by_name, get_at}
use isabelle_core.State.Secrets.Opening.{
  opened, migrate, sort_by_key, insert_by_key, legacy_entry, from_legacy, open_indexed, open_parsed,
  build_name_index,
}
use isabelle_core.State.Secrets.Opening.Built.{name_at, build_from-filed, build_from-succeeds}
use isabelle_core.State.Secrets.Opening.Readable.{from_legacy-IsNumbered, length-sort_by_key}

-- Sorting by key changes no answer of the map.
lookup-insert_by_key :
    (k j : String) (it : Item) (m : Map String Item)
    → lookup k m ≡ none
    → lookup j (insert_by_key k it m) ≡ (if k == j then some it else lookup j m)
unfolding insert_by_key lookup
lookup-insert_by_key k j it [] apart = refl
lookup-insert_by_key k j it ((i, jt) ∷ m) apart = elim (Bool-cases (i == k)) [
  | inl same ↦ ground arith
  | inr other ↦
      let rest = lookup-insert_by_key k j it m (sym (rw other refl) ∙ apart) in
      ground (arith, string_Eq.beq_iff i j, string_Eq.beq_iff i k, string_Eq.beq_iff k j)
]

insert_by_key-Distinct :
    (k : String) (it : Item) (m : Map String Item)
    → lookup k m ≡ none
    → Distinct m
    → Distinct (insert_by_key k it m)
unfolding insert_by_key lookup
insert_by_key-Distinct k it [] apart d = (refl, tt)
insert_by_key-Distinct k it ((j, jt) ∷ m) apart (here, d) = elim (Bool-cases (text_leb k j)) [
  | inl first ↦ rw first (apart, (here, d))
  | inr later ↦ rw later (
    lookup-insert_by_key k j it m (ground arith)
        ∙ ground (arith, string_Eq.beq_iff j k, string_Eq.beq_iff k j),
    insert_by_key-Distinct k it m (ground arith) d,
  )
]

sort_by_key-Distinct :
    (m : Map String Item)
    → Distinct m
    → Distinct (sort_by_key m) × ((j : String) → lookup j (sort_by_key m) ≡ lookup j m)
unfolding sort_by_key lookup
sort_by_key-Distinct [] d = (tt, λ j. refl)
sort_by_key-Distinct ((k, it) ∷ m) (apart, d) =
    let (sorted, same) = sort_by_key-Distinct m d in
    let free = same k ∙ apart in
    (
      insert_by_key-Distinct k it (sort_by_key m) free sorted,
      λ j. lookup-insert_by_key k j it (sort_by_key m) free ∙ rw (same j) refl,
    )

-- The number that the loop goes on with.
migrate-step :
    (k : String) (it : Item) (m : Map String Item) (next : ℕ) (entries : Map ℕ Item)
    → next + 1 ≤ u64_max
    → migrate ((k, it) ∷ m) next entries
      ≡ migrate m (next + 1) (insert next (legacy_entry k next it) entries)
unfolding migrate
migrate-step k it m next entries fits =
    let step : (next + 1) % 2 ^ 64 ≡ next + 1 = omega arith in
    ap (λ x. migrate m x (insert next (legacy_entry k next it) entries)) step

-- An entry that was numbered stays where it is.
migrate-keeps :
    (m : Map String Item) (next : ℕ) (entries : Map ℕ Item) (i : ℕ) (x : Item)
    → next + length m ≤ u64_max
    → i < next
    → lookup i entries ≡ some x
    → lookup i (migrate m next entries).0 ≡ some x
migrate-keeps [] next entries i x fits less h = unfold migrate in h
migrate-keeps ((k, it) ∷ m) next entries i x fits less h =
    let there : lookup i (insert next (legacy_entry k next it) entries) ≡ some x =
      ground (arith, lookup-insert next i (legacy_entry k next it) entries, nat_eq_iff next i) in
    ap (λ r. lookup i r.0) (migrate-step k it m next entries (omega arith))
    ∙ migrate-keeps m (next + 1) (insert next (legacy_entry k next it) entries) i x (omega arith)
        (omega arith) there

-- Every item of the older map has an entry.
migrate-finds :
    (m : Map String Item) (next : ℕ) (entries : Map ℕ Item) (k : String) (it : Item)
    → next + length m ≤ u64_max
    → lookup k m ≡ some it
    → (i : ℕ) × (lookup i (migrate m next entries).0 ≡ some (legacy_entry k i it))
unfolding lookup
migrate-finds [] next entries k it fits h = ground arith
migrate-finds ((j, jt) ∷ m) next entries k it fits h =
    let step = migrate-step j jt m next entries (omega arith) in
    elim (Bool-cases (j == k)) [
      | inl same ↦
          let j_k : j ≡ k = (string_Eq.beq_iff j k).0 same in
          let jt_it : jt ≡ it = ground arith in
          (
            next,
            ap (λ r. lookup next r.0) step
                ∙ migrate-keeps m (next + 1) (insert next (legacy_entry j next jt) entries) next
                    (legacy_entry k next it) (omega arith) (omega arith)
                    (lookup-insert next next (legacy_entry j next jt) entries
                      ∙ rw (beq_refl next) (λ p. some (legacy_entry (j_k p) next (jt_it p)))),
          )
      | inr other ↦
          let (i, there) =
            migrate-finds m (next + 1) (insert next (legacy_entry j next jt) entries) k it
              (omega arith) (sym (rw other refl) ∙ h) in
          (i, ap (λ r. lookup i r.0) step ∙ there)
    ]

legacy_entry-named :
    (k n : String) (next i : ℕ) (it : Item) (entries : Map ℕ Item)
    → name_at (insert next (legacy_entry k next it) entries) i ≡ some n
    → ((next ≡ i) × (k ≡ n)) ⊎ (name_at entries i ≡ some n)
legacy_entry-named k n next i it entries h = elim (Bool-cases (next == i)) [
  | inl same ↦ inl (
    (nat_eq_iff next i).0 same,
    ground (
      arith,
      lookup-insert next i (legacy_entry k next it) entries,
      lookup-insert name_field name_field k it.strs,
      beq_refl name_field,
    ),
  )
  | inr other ↦ inr (ground (arith, lookup-insert next i (legacy_entry k next it) entries))
]

-- No name stands twice: the names are the keys.
migrate-once :
    (m : Map String Item) (next : ℕ) (entries : Map ℕ Item)
    → next + length m ≤ u64_max
    → Distinct m
    → ((n : String) (i j : ℕ) → name_at entries i ≡ some n → name_at entries j ≡ some n → i ≡ j)
    → ((n : String) (i : ℕ) → name_at entries i ≡ some n → lookup n m ≡ none)
    → (n : String) (i j : ℕ) → name_at (migrate m next entries).0 i ≡ some n
    → name_at (migrate m next entries).0 j ≡ some n
    → i ≡ j
unfolding lookup
migrate-once [] next entries fits d once free = unfold migrate in once
migrate-once ((k, it) ∷ m) next entries fits (apart, d) once free =
    subst (λ r. (n : String) (i j : ℕ) → name_at r.0 i ≡ some n → name_at r.0 j ≡ some n → i ≡ j)
      (sym (migrate-step k it m next entries (omega arith)))
      (migrate-once m (next + 1) (insert next (legacy_entry k next it) entries) (omega arith) d
        once' free')
  where
    not_old : (n : String) (i : ℕ) → k ≡ n → ¬ (name_at entries i ≡ some n)
    not_old n i is_k old = ground (arith, free n i old, string_Eq.beq_iff k n)

    later_key : (n : String) → lookup n ((k, it) ∷ m) ≡ none → lookup n m ≡ none
    later_key n h = ground arith

    once' :
        (n : String) (i j : ℕ)
        → name_at (insert next (legacy_entry k next it) entries) i ≡ some n
        → name_at (insert next (legacy_entry k next it) entries) j ≡ some n
        → i ≡ j
    once' n i j a b = elim (legacy_entry-named k n next i it entries a) [
      | inl (here, is_k) ↦ elim (legacy_entry-named k n next j it entries b) [
        | inl (there, _) ↦ sym here ∙ there
        | inr old ↦ absurd (not_old n j is_k old)
      ]
      | inr old ↦ elim (legacy_entry-named k n next j it entries b) [
        | inl (there, is_k) ↦ absurd (not_old n i is_k old)
        | inr too ↦ once n i j old too
      ]
    ]

    free' :
        (n : String) (i : ℕ)
        → name_at (insert next (legacy_entry k next it) entries) i ≡ some n
        → lookup n m ≡ none
    free' n i a = elim (legacy_entry-named k n next i it entries a) [
      | inl (here, is_k) ↦ ap (λ x. lookup x m) (sym is_k) ∙ apart
      | inr old ↦ later_key n (free n i old)
    ]

-- A file of the older format opens, if its names differ and it holds at most as many items as
-- there are ids, and every item with a name is found under that name, with all it had.
pub from_legacy-opens :
    (legacy : Map String Item)
    → Distinct legacy
    → length legacy ≤ u64_max
    → (s : SecretStore) × (open_parsed (some (from_legacy legacy)) ≡ opened s)
      × ((k : String) (it : Item)
          → is_empty k ≡ false
          → lookup k legacy ≡ some it
          → (i : ℕ) × (get_by_name s k ≡ some (legacy_entry k i it)))
unfolding open_parsed open_indexed from_legacy build_name_index get_by_name get_at lookup
from_legacy-opens legacy d fits =
    let (sorted, same) = sort_by_key-Distinct legacy d in
    let room : 0 + length (sort_by_key legacy) ≤ u64_max =
      omega (arith, length-sort_by_key legacy) in
    let (idx, built) =
      build_from-succeeds (migrate (sort_by_key legacy) 0 []).0 []
        (from_legacy-IsNumbered legacy fits).distinct
        (λ n i j full a b.
          migrate-once (sort_by_key legacy) 0 [] room sorted (λ n i j a b. ground arith)
            (λ n i a. ground arith) n i j a b)
        (λ n i full a. refl) in
    (
      record {
        entries = (migrate (sort_by_key legacy) 0 []).0;
        name_index = idx;
        next_id = (migrate (sort_by_key legacy) 0 []).1;
      },
      rw built refl,
      λ k it full h.
          let (i, there) = migrate-finds (sort_by_key legacy) 0 [] k it room (same k ∙ h) in
          let name : name_at (migrate (sort_by_key legacy) 0 []).0 i ≡ some k =
            ap (λ o. previous o name_field) there ∙ lookup-insert name_field name_field k it.strs in
          (
            i,
            rw (build_from-filed (migrate (sort_by_key legacy) 0 []).0 [] idx k i built name full)
                there,
          ),
    )
