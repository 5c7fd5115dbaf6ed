-- ===== src/State/Secrets/Opening/Readable.antt =====
-- What src/state/secrets.rs reads from its file is a store in order, in either format.
use isabelle_core.Prelude.{
  ltb, leb, if◌then◌else◌, nat_eq_iff, Bool-cases, Option-cases, ◌==◌, nat_Eq, string_Eq, u64_max,
  saturating_add, Map, lookup, insert, lookup-insert, Distinct, insert-Distinct, length, take, drop,
  ℕ, suc, ◌+◌, ◌%◌, ◌^◌, ◌≤◌, ◌<◌, String, ◌≡◌, refl, sym, ap, ◌∙◌, subst, inl, inr, Option, none,
  some, List, [], ◌∷◌, arith,
}
use isabelle_core.Item.{Item}
use isabelle_core.State.Secrets.{SecretStore}
use isabelle_core.State.Secrets.Index.{IsValid}
use isabelle_core.State.Secrets.Opening.{
  Envelope, Cipher, Format, FileState, absent, unreadable, holds, opened, repaired, max_id,
  from_envelope, from_legacy, migrate, sort_by_key, insert_by_key, legacy_entry, parse_legacy,
  parse_as, parse_plain, decrypt_and_parse, nonce_len, open_indexed, open_parsed, open_file,
  build_name_index,
}
use isabelle_core.State.Secrets.Opening.Built.{build_from-named, build_from-filed}
use mathlib.Core.Option

-- Entries from which an index can be built: every entry carries its own id, below the next one.
pub record IsNumbered (entries : Map ℕ Item) (next_id : ℕ) : Type 0 where
  pub distinct : Distinct entries
  pub own : (i : ℕ) (it : Item) → lookup i entries ≡ some it → it.id ≡ i
  pub below : (i : ℕ) (it : Item) → lookup i entries ≡ some it → saturating_add i 1 ≤ next_id

pub lookup-repaired :
    (i : ℕ) (m : Map ℕ Item)
    → lookup i (repaired m) ≡ Option.map {A = Item} (λ it. record it { id = i }) (lookup i m)
unfolding repaired lookup
lookup-repaired i [] = refl
lookup-repaired i ((id, it) ∷ m) = elim (Bool-cases (id == i)) [
  | inl same ↦ ground (arith, nat_eq_iff id i)
  | inr other ↦ rw other (lookup-repaired i m)
]

pub repaired-Distinct : (m : Map ℕ Item) → Distinct m → Distinct (repaired m)
unfolding repaired
repaired-Distinct [] d = tt
repaired-Distinct ((id, it) ∷ m) (apart, d) =
    (lookup-repaired id m ∙ rw apart refl, repaired-Distinct m d)

pub max_id-reaches :
    (m : Map ℕ Item) (acc : ℕ)
    → (acc ≤ max_id acc m) × ((i : ℕ) (it : Item) → lookup i m ≡ some it → i ≤ max_id acc m)
unfolding max_id lookup
max_id-reaches [] acc = (omega arith, λ i it h. ground arith)
max_id-reaches ((id, it) ∷ m) acc =
    let (past, all_past) = max_id-reaches m (if leb acc id then id else acc) in
    (
      ground arith,
      λ i jt h. elim (Bool-cases (id == i)) [
        | inl same ↦ ground (arith, nat_eq_iff id i)
        | inr other ↦ all_past i jt (sym (rw other refl) ∙ h)
      ],
    )

from_envelope-IsNumbered :
    (env : Envelope) → Distinct env.entries → IsNumbered (from_envelope env).0 (from_envelope env).1
unfolding from_envelope
from_envelope-IsNumbered env d = record {
  distinct = repaired-Distinct env.entries d;
  own = λ i it h. ground (arith, lookup-repaired i env.entries);
  below = λ i it h.
      let (past, all_past) = max_id-reaches env.entries 0 in
      elim (Option-cases (lookup i env.entries)) [
        | inl missing ↦ ground (arith, lookup-repaired i env.entries)
        | inr (jt, there) ↦ omega (arith, all_past i jt there)
      ];
}

-- The migration of the older format numbers the entries one after the other.
abbrev pub IsFilled : Map ℕ Item → ℕ → Type 0
IsFilled entries next =
    Distinct entries × ((i : ℕ) (it : Item) → lookup i entries ≡ some it → (it.id ≡ i) × (i < next))

pub insert-IsFilled :
    (entries : Map ℕ Item) (next : ℕ) (it : Item)
    → IsFilled entries next
    → it.id ≡ next
    → IsFilled (insert next it entries) (next + 1)
insert-IsFilled entries next it (d, f) own = (
  insert-Distinct next it entries d,
  λ i jt h. elim (Bool-cases (next == i)) [
    | inl same ↦ ground (arith, nat_eq_iff next i, lookup-insert next i it entries)
    | inr other ↦
        let there : lookup i entries ≡ some jt = ground (arith, lookup-insert next i it entries) in
        let (same_id, less) = f i jt there in (same_id, omega arith)
  ],
)

migrate-IsNumbered :
    (m : Map String Item) (next : ℕ) (entries : Map ℕ Item)
    → next + length m ≤ u64_max
    → IsFilled entries next
    → IsNumbered (migrate m next entries).0 (migrate m next entries).1
unfolding migrate
migrate-IsNumbered [] next entries fits (d, f) = record {
  distinct = d;
  own = λ i it h. (f i it h).0;
  below = λ i it h. let (_, less) = f i it h in omega arith;
}
migrate-IsNumbered ((k, it) ∷ m) next entries fits filled =
    let step : (next + 1) % 2 ^ 64 ≡ next + 1 = omega arith in
    subst
      (λ x.
        IsNumbered (migrate m x (insert next (legacy_entry k next it) entries)).0
          (migrate m x (insert next (legacy_entry k next it) entries)).1)
      (sym step)
      (migrate-IsNumbered m (next + 1) (insert next (legacy_entry k next it) entries) (omega arith)
        (insert-IsFilled entries next (legacy_entry k next it) filled refl))

length-insert_by_key :
    (k : String) (it : Item) (m : Map String Item) → length (insert_by_key k it m) ≡ suc (length m)
unfolding insert_by_key
length-insert_by_key k it [] = refl
length-insert_by_key k it ((j, jt) ∷ m) = ground (arith, length-insert_by_key k it m)

pub length-sort_by_key : (m : Map String Item) → length (sort_by_key m) ≡ length m
unfolding sort_by_key
length-sort_by_key [] = refl
length-sort_by_key ((k, it) ∷ m) =
    length-insert_by_key k it (sort_by_key m) ∙ ap suc (length-sort_by_key m)

pub from_legacy-IsNumbered :
    (legacy : Map String Item)
    → length legacy ≤ u64_max
    → IsNumbered (from_legacy legacy).0 (from_legacy legacy).1
unfolding from_legacy
from_legacy-IsNumbered legacy fits =
    migrate-IsNumbered (sort_by_key legacy) 0 [] (omega (arith, length-sort_by_key legacy))
      (tt, λ i it h. unfold lookup in ground arith)

-- What stands in the file: at most as many older entries as there are ids.
abbrev pub IsReadable : Option (Map ℕ Item × ℕ) → Type 0
IsReadable none = Unit
IsReadable (some (entries, next_id)) = IsNumbered entries next_id

module _ ⦃c : Cipher⦄ ⦃j : Format⦄ where
  parse_legacy-IsReadable :
      (o : Option (Map String Item))
      → ((legacy : Map String Item) → o ≡ some legacy → length legacy ≤ u64_max)
      → IsReadable (parse_legacy o)
  unfolding parse_legacy
  parse_legacy-IsReadable none fits = tt
  parse_legacy-IsReadable (some legacy) fits = from_legacy-IsNumbered legacy (fits legacy refl)

  parse_as-IsReadable :
      (plaintext : List ℕ) (o : Option Envelope)
      → ((b : List ℕ) (legacy : Map String Item)
          → j.read_legacy b ≡ some legacy
          → length legacy ≤ u64_max)
      → ((env : Envelope) → o ≡ some env → Distinct env.entries)
      → IsReadable (parse_as plaintext o)
  unfolding parse_as
  parse_as-IsReadable plaintext none fits d =
      parse_legacy-IsReadable (j.read_legacy plaintext) (fits plaintext)
  parse_as-IsReadable plaintext (some env) fits d = from_envelope-IsNumbered env (d env refl)

  parse_plain-IsReadable :
      (o : Option (List ℕ))
      → ((b : List ℕ) (legacy : Map String Item)
          → j.read_legacy b ≡ some legacy
          → length legacy ≤ u64_max)
      → IsReadable (parse_plain o)
  unfolding parse_plain
  parse_plain-IsReadable none fits = tt
  parse_plain-IsReadable (some plaintext) fits =
      parse_as-IsReadable plaintext (j.read_envelope plaintext) fits
        (j.read_envelope-Distinct plaintext)

  decrypt_and_parse-IsReadable :
      (key blob : List ℕ)
      → ((b : List ℕ) (legacy : Map String Item)
          → j.read_legacy b ≡ some legacy
          → length legacy ≤ u64_max)
      → IsReadable (decrypt_and_parse key blob)
  unfolding decrypt_and_parse
  decrypt_and_parse-IsReadable key blob fits = elim (Bool-cases (ltb (length blob) nonce_len)) [
    | inl short ↦ rw short tt
    | inr long ↦
        rw long
          (parse_plain-IsReadable (c.decrypt key (take nonce_len blob) (drop nonce_len blob)) fits)
  ]

-- An index that could be built leads from every name to its entry and back.
built-IsValid :
    (entries : Map ℕ Item) (next_id : ℕ) (idx : Map String ℕ)
    → IsNumbered entries next_id
    → build_name_index entries ≡ some idx
    → IsValid (record { entries = entries; name_index = idx; next_id = next_id })
unfolding build_name_index
built-IsValid entries next_id idx v e = record {
  named = λ n i h. elim (build_from-named entries [] idx n i v.distinct e h) [
    | inl before ↦ unfold lookup in ground arith
    | inr (name, full) ↦ name
  ];
  filed = λ n i full h. build_from-filed entries [] idx n i e h full;
  own = v.own;
  below = v.below;
}

open_parsed-IsValid :
    (o : Option (Map ℕ Item × ℕ)) (s : SecretStore)
    → IsReadable o
    → open_parsed o ≡ opened s
    → IsValid s
unfolding open_parsed open_indexed
open_parsed-IsValid none s v e = ground arith
open_parsed-IsValid (some (entries, next_id)) s v e =
    elim (Option-cases (build_name_index entries)) [
      | inl twice ↦ ground arith
      | inr (idx, built) ↦ subst IsValid (ground arith) (built-IsValid entries next_id idx v built)
    ]

-- A store that opens is in order, whichever format its file was in; the older format holds at most
-- as many entries as there are ids.
pub open_file-IsValid :
    ⦃c : Cipher⦄ ⦃j : Format⦄ (key : List ℕ) (file : FileState) (s : SecretStore)
    → ((b : List ℕ) (legacy : Map String Item)
        → j.read_legacy b ≡ some legacy
        → length legacy ≤ u64_max)
    → open_file key file ≡ opened s
    → IsValid s
unfolding open_file lookup
open_file-IsValid key absent s fits e = open_parsed-IsValid (some ([], 0)) s nothing e
  where
    nothing : IsNumbered [] 0
    nothing = record { distinct = tt; own = λ i it h. ground arith; below = λ i it h. ground arith }
open_file-IsValid key unreadable s fits e = ground arith
open_file-IsValid key (holds blob) s fits e =
    open_parsed-IsValid (decrypt_and_parse key blob) s (decrypt_and_parse-IsReadable key blob fits)
      e
