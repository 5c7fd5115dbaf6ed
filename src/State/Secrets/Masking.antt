-- ===== src/State/Secrets/Masking.antt =====
-- What leaves the store of src/state/secrets.rs, and what comes back: the placeholder hides
-- every secret value, and writing a masked entry back loses none.
use isabelle_core.Prelude.{
  if◌then◌else◌, Bool-cases, ◌==◌, nat_Eq, string_Eq, u64_max, is_some, contains, Map, lookup,
  lookup-insert, lookup-remove, beq_refl, Casing, ℕ, String, ◌≡◌, refl, sym, ap, ◌∙◌, ◌≢◌, inl, inr,
  Bool, true, false, ◌&&◌, Option, none, some, List, [], ◌∷◌, arith,
}
use isabelle_core.Item.{Item, ItemApi}
use isabelle_core.State.Secrets.{
  SecretStore, hidden_placeholder, previous, is_secret_key, mask_strs, mask, restore, restore_key,
  restore_keys, secret_keys, is_placeholder, put_back, final_item,
}
use isabelle_core.State.Secrets.{written, merged, set, target_id, Disk, ok}
use isabelle_core.State.Secrets.Index.{IsValid}
use isabelle_core.State.Secrets.Writing.{entry_here}
use isabelle_core.State.Secrets.Operations.{commit-ok, target-own}
use mathlib.Core.Option

-- The value of a key after the restoring: the old one, if the key was visited and has the
-- placeholder.
unfoldable pub kept : Option Item → Bool → Option String → String → Option String
kept existing visited v k = if visited && is_placeholder v then previous existing k else v

-- A key that is not there holds no placeholder.
kept-present :
    (existing : Option Item) (visited : Bool) (v : Option String) (k : String)
    → kept existing (visited && is_some v) v k ≡ kept existing visited v k
unfolding kept is_placeholder
kept-present existing visited none k = ground arith
kept-present existing visited (some v) k = ground arith

map-hidden :
    (o p : Option String)
    → is_some o ≡ is_some p
    → Option.map (λ _. hidden_placeholder) o ≡ Option.map (λ _. hidden_placeholder) p
map-hidden none none h = refl
map-hidden none (some b) h = ground arith
map-hidden (some a) none h = ground arith
map-hidden (some a) (some b) h = refl

lookup-put_back :
    (o : Option String) (j k : String) (m : Map String String)
    → lookup k (put_back j o m) ≡ (if j == k then o else lookup k m)
unfolding put_back
lookup-put_back none j k m = lookup-remove j k m
lookup-put_back (some v) j k m = lookup-insert j k v m

lookup-restore_key :
    (existing : Option Item) (j k : String) (m : Map String String)
    → lookup k (restore_key existing j m) ≡ kept existing (j == k) (lookup k m) k
unfolding restore_key kept
lookup-restore_key existing j k m = elim (Bool-cases (j == k)) [
  | inl same ↦
      rw (sym ((string_Eq.beq_iff j k).0 same))
        (ground (arith, beq_refl j, lookup-put_back (previous existing j) j j m))
  | inr other ↦ ground (arith, lookup-put_back (previous existing j) j k m)
]

lookup-restore_keys :
    (existing : Option Item) (ks : List String) (k : String) (m : Map String String)
    → lookup k (restore_keys existing ks m) ≡ kept existing (contains ks k) (lookup k m) k
unfolding restore_keys kept
lookup-restore_keys existing [] k m = refl
lookup-restore_keys existing (j ∷ ks) k m =
    let here = lookup-restore_key existing j k m in
    let later = lookup-restore_keys existing ks k (restore_key existing j m) in ground arith

module _ ⦃c : Casing⦄ where
  -- What a masked map answers: the placeholder for a secret key, and the value for any other.
  lookup-mask_strs :
      (k : String) (m : Map String String)
      → lookup k (mask_strs m) ≡ (
          if is_secret_key k then Option.map (λ _. hidden_placeholder) (lookup k m) else lookup k m)
  unfolding mask_strs lookup
  lookup-mask_strs k [] = ground arith
  lookup-mask_strs k ((j, v) ∷ m) = elim (Bool-cases (j == k)) [
    | inl same ↦ rw (same, (string_Eq.beq_iff j k).0 same) (ground arith)
    | inr other ↦ rw other (lookup-mask_strs k m)
  ]

  contains-secret_keys :
      (m : Map String String) (k : String)
      → contains (secret_keys m) k ≡ (is_secret_key k && is_some (lookup k m))
  unfolding secret_keys lookup
  contains-secret_keys [] k = ground arith
  contains-secret_keys ((j, v) ∷ m) k =
      let later = contains-secret_keys m k in
      elim (Bool-cases (j == k)) [
        | inl same ↦ ground (
          arith,
          ap is_secret_key ((string_Eq.beq_iff j k).0 same),
          string_Eq.beq_iff k j,
          string_Eq.beq_iff j k,
        )
        | inr other ↦ ground (arith, string_Eq.beq_iff k j, string_Eq.beq_iff j k)
      ]

  lookup-restore :
      (existing : Option Item) (it : Item) (k : String)
      → lookup k (restore existing it).strs ≡ kept existing (is_secret_key k) (lookup k it.strs) k
  unfolding restore kept is_placeholder
  lookup-restore existing it k =
      let at = lookup-restore_keys existing (secret_keys it.strs) k it.strs in
      let visited = contains-secret_keys it.strs k in
      at
      ∙ ap (λ b. kept existing b (lookup k it.strs) k) visited
      ∙ kept-present existing (is_secret_key k) (lookup k it.strs) k

  -- What leaves the store tells nothing of the secret values: two entries with the same keys and
  -- the same values at the keys that are not secret are masked alike.
  pub mask-hides :
      (it jt : Item)
      → ((k : String) → is_some (lookup k it.strs) ≡ is_some (lookup k jt.strs))
      → ((k : String) → is_secret_key k ≡ false → lookup k it.strs ≡ lookup k jt.strs)
      → (k : String) → lookup k (mask it).strs ≡ lookup k (mask jt).strs
  unfolding mask
  mask-hides it jt keys clear k =
      rw (lookup-mask_strs k it.strs, lookup-mask_strs k jt.strs)
        (elim (Bool-cases (is_secret_key k)) [
          | inl secret ↦ rw secret (map-hidden (lookup k it.strs) (lookup k jt.strs) (keys k))
          | inr shown ↦ rw shown (clear k shown)
        ])

  -- Writing an entry back as it was shown, masked, loses no value: every secret stands as before.
  restore-mask :
      (it : Item) (k : String) → lookup k (restore (some it) (mask it)).strs ≡ lookup k it.strs
  unfolding mask kept is_placeholder
  restore-mask it k =
      rw (lookup-restore (some it) (mask it) k, lookup-mask_strs k it.strs)
        (by_key (is_secret_key k) (lookup k it.strs))
    where
      by_key :
          (secret : Bool) (o : Option String)
          → (if secret
                && is_placeholder (if secret then Option.map (λ _. hidden_placeholder) o else o)
              then o
              else if secret
              then Option.map (λ _. hidden_placeholder) o
              else o)
            ≡ o
      by_key true none = refl
      by_key true (some v) = refl
      by_key false o = refl

written-own :
    ⦃api : ItemApi⦄ ⦃c : Casing⦄ (s : SecretStore) (item old : Item) (i : ℕ)
    → target_id s item ≡ i
    → lookup i s.entries ≡ some old
    → written s item false ≡ restore (some old) item
unfolding written final_item merged
written-own s item old i at here = rw (at, here) refl

-- In a store that is in order, an entry that is shown masked and written back whole is the entry
-- that was there, if its id is not `u64::MAX`: a `set` that succeeds answers that id, and every value
-- of it, the secret ones too, stands as before.
pub set-mask :
    ⦃api : ItemApi⦄ ⦃c : Casing⦄ ⦃disk : Disk⦄ (s : SecretStore) (i j : ℕ) (it : Item)
    → IsValid s
    → i ≢ u64_max
    → lookup i s.entries ≡ some it
    → (set s (mask it) false).1 ≡ ok j
    → (j ≡ i)
      × ((k : String) → previous (lookup i (set s (mask it) false).0.entries) k ≡ lookup k it.strs)
unfolding mask set
set-mask s i j it v not_fresh here done =
    let own : it.id ≡ i = v.own i it here in
    let at : target_id s (mask it) ≡ i =
      target-own s (mask it) (λ e. not_fresh (sym own ∙ e)) ∙ own in
    let (same, now, _) = commit-ok s (target_id s (mask it)) (written s (mask it) false) j done in
    (
      same ∙ at,
      λ k.
          ap (λ t. previous (lookup i t.entries) k) now
          ∙ ap (λ o. previous o k)
              (entry_here s (target_id s (mask it)) (written s (mask it) false) i
                (rw at (beq_refl i)))
          ∙ ap (λ t. lookup k t.strs) (written-own s (mask it) it i at here)
          ∙ restore-mask it k,
    )
