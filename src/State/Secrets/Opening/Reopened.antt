-- ===== src/State/Secrets/Opening/Reopened.antt =====
-- Opening again what src/state/secrets.rs wrote: the same entries, names and next id.
use isabelle_core.Prelude.{
  ltb, leb, if◌then◌else◌, nat_eq_iff, Bool-cases, Option-cases, ◌==◌, nat_Eq, string_Eq,
  saturating_add, Map, lookup, Distinct, is_empty, length, take, drop, take-append_all,
  drop-append_all, length-append, ℕ, ◌≤◌, max, String, ◌≡◌, refl, sym, ap, ◌∙◌, ◌⊎◌, inl, inr, true,
  false, Option, none, some, List, [], ◌∷◌, ◌++◌, arith,
}
use isabelle_core.Item.{Item}
use isabelle_core.State.Secrets.{SecretStore, name_field, previous}
use isabelle_core.State.Secrets.Index.{IsValid}
use isabelle_core.State.Secrets.Opening.{
  Envelope, Files, Cipher, Format, FileState, opened, flush_state, flush_plain, flush_blob,
  encrypt_blob, with_nonce, envelope_of, repaired, max_id, from_envelope, parse_as, parse_plain,
  decrypt_and_parse, nonce_len, open_indexed, open_parsed, open_file, build_name_index,
}
use isabelle_core.State.Secrets.Opening.Built.{
  name_at, build_from-named, build_from-filed, build_from-succeeds,
}
use isabelle_core.State.Secrets.Opening.Readable.{lookup-repaired, repaired-Distinct}
use mathlib.Core.Option

-- The same store to everyone who asks by id or by name.
pub record IsSame (s t : SecretStore) : Type 0 where
  pub entries : (i : ℕ) → lookup i s.entries ≡ lookup i t.entries
  pub names : (n : String) → is_empty n ≡ false → lookup n s.name_index ≡ lookup n t.name_index
  pub next_id : s.next_id ≡ t.next_id

-- The largest id is an entry's, or the one the search began with.
max_id-attained :
    (m : Map ℕ Item) (acc : ℕ)
    → (max_id acc m ≡ acc) ⊎ ((it : Item) × (lookup (max_id acc m) m ≡ some it))
unfolding max_id lookup
max_id-attained [] acc = inl refl
max_id-attained ((id, it) ∷ m) acc =
    elim (Bool-cases (id == max_id (if leb acc id then id else acc) m)) [
      | inl same ↦ inr (it, rw same refl)
      | inr other ↦ elim (max_id-attained m (if leb acc id then id else acc)) [
        | inl first ↦
            inl (ground (arith, nat_eq_iff id (max_id (if leb acc id then id else acc) m)))
        | inr (jt, there) ↦ inr (jt, rw other there)
      ]
    ]

module _ (s : SecretStore) (v : IsValid s) where
  own_entries : (i : ℕ) → lookup i (repaired s.entries) ≡ lookup i s.entries
  own_entries i = lookup-repaired i s.entries ∙ by_entry (lookup i s.entries) refl
    where
      by_entry :
          (o : Option Item)
          → lookup i s.entries ≡ o
          → Option.map {A = Item} (λ it. record it { id = i }) o ≡ o
      by_entry none e = refl
      by_entry (some it) e = ap (λ k. some (record it { id = k })) (sym (v.own i it e))

  next_kept : 1 ≤ s.next_id → max s.next_id (saturating_add (max_id 0 s.entries) 1) ≡ s.next_id
  next_kept started = elim (max_id-attained s.entries 0) [
    | inl none_yet ↦ ground arith
    | inr (it, there) ↦ omega (arith, v.below (max_id 0 s.entries) it there)
  ]

  index_rebuilt :
      Distinct s.entries
      → (idx : Map String ℕ) × (build_name_index (repaired s.entries) ≡ some idx)
        × ((n : String) → is_empty n ≡ false → lookup n idx ≡ lookup n s.name_index)
  unfolding build_name_index lookup
  index_rebuilt d =
      let (idx, built) =
        build_from-succeeds (repaired s.entries) [] (repaired-Distinct s.entries d)
          (λ n i j full a b. ground (arith, found n i full a, found n j full b))
          (λ n i full a. refl) in
      (
        idx,
        built,
        λ n full. elim (Option-cases (lookup n s.name_index)) [
          | inl missing ↦ elim (Option-cases (lookup n idx)) [
            | inl too ↦ too ∙ sym missing
            | inr (i, there) ↦
                elim (build_from-named (repaired s.entries) [] idx n i
                  (repaired-Distinct s.entries d) built there) [
                    | inl before ↦ ground arith
                    | inr (name, f) ↦ ground (arith, found n i full name)
                  ]
          ]
          | inr (i, there) ↦
              build_from-filed (repaired s.entries) [] idx n i built
                (ap (λ o. previous o name_field) (own_entries i) ∙ v.named n i there) full
              ∙ sym there
        ],
      )
    where
      found :
          (n : String) (i : ℕ)
          → is_empty n ≡ false
          → name_at (repaired s.entries) i ≡ some n
          → lookup n s.name_index ≡ some i
      found n i full h =
          v.filed n i full (sym (ap (λ o. previous o name_field) (own_entries i)) ∙ h)

  -- What the envelope of a store in order is read as.
  from_envelope-reopens :
      Distinct s.entries
      → 1 ≤ s.next_id
      → (t : SecretStore) × (open_parsed (some (from_envelope (envelope_of s.entries s.next_id)))
          ≡ opened t)
        × IsSame t s
  unfolding open_parsed open_indexed from_envelope envelope_of
  from_envelope-reopens d started =
      let (idx, built, same) = index_rebuilt d in
      (
        record {
          entries = repaired s.entries;
          name_index = idx;
          next_id = max s.next_id (saturating_add (max_id 0 s.entries) 1);
        },
        rw built refl,
        record { entries = own_entries; names = same; next_id = next_kept started },
      )

module _ ⦃f : Files⦄ ⦃c : Cipher⦄ ⦃j : Format⦄ where
  -- What was sealed under a key is read back under it.
  decrypt_and_parse-sealed :
      (key nonce ciphertext plaintext : List ℕ) (env : Envelope)
      → length nonce ≡ nonce_len
      → c.decrypt key nonce ciphertext ≡ some plaintext
      → j.read_envelope plaintext ≡ some env
      → decrypt_and_parse key (nonce ++ ciphertext) ≡ some (from_envelope env)
  unfolding decrypt_and_parse parse_plain parse_as
  decrypt_and_parse-sealed key nonce ciphertext plaintext env len unsealed read =
      let long : ltb (length (nonce ++ ciphertext)) nonce_len ≡ false =
        ground (arith, length-append nonce ciphertext) in
      rw
        (
          long,
          ap (λ n. take n (nonce ++ ciphertext)) (sym len) ∙ take-append_all nonce ciphertext,
          ap (λ n. drop n (nonce ++ ciphertext)) (sym len) ∙ drop-append_all nonce ciphertext,
          unsealed,
          read,
        )
        refl

  -- A store in order that was written to disk opens again as the same store, if the cipher and the
  -- coding give back what they took, the nonce has its length, no id stands twice and an id was
  -- given before.
  pub flush_state-reopens :
      (s : SecretStore) (key nonce plaintext ciphertext : List ℕ) (file : FileState)
      → IsValid s
      → Distinct s.entries
      → 1 ≤ s.next_id
      → length nonce ≡ nonce_len
      → j.write_envelope (envelope_of s.entries s.next_id) ≡ some plaintext
      → j.read_envelope plaintext ≡ some (envelope_of s.entries s.next_id)
      → c.encrypt key nonce plaintext ≡ some ciphertext
      → c.decrypt key nonce ciphertext ≡ some plaintext
      → (flush_state key nonce file s.entries s.next_id).1 ≡ opened tt
      → (t : SecretStore) × (open_file key (flush_state key nonce file s.entries s.next_id).0
          ≡ opened t)
        × IsSame t s
  unfolding flush_state flush_plain flush_blob encrypt_blob with_nonce open_file
  flush_state-reopens s key nonce plaintext ciphertext file v d started len w r e u done =
      let (t, opens, same) = from_envelope-reopens s v d started in
      let wrote : f.atomic_write (nonce ++ ciphertext) ≡ true = ground (arith, w, e, done) in
      (
        t,
        rw (w, e, wrote)
            (ap open_parsed (
                decrypt_and_parse-sealed key nonce ciphertext plaintext
                  (envelope_of s.entries s.next_id) len u r)
              ∙ opens),
        same,
      )
