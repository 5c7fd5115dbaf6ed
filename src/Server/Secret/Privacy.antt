-- ===== src/Server/Secret/Privacy.antt =====
-- src/server/secret.rs: what a caller can do to the secrets of others.
use isabelle_core.Prelude.{
  nat_eq_iff, Bool-cases, ◌==◌, nat_Eq, string_Eq, u64_max, lookup, Casing, ℕ, ◌<◌, ◌≡◌, refl, ap,
  ◌∙◌, ◌⊎◌, inl, inr, true, false, Option, none, some, arith,
}
use isabelle_core.Item.{Item, ItemApi, safe_str}
use isabelle_core.State.Secrets.{SecretStore, Disk, is_global_name, set, del, get}
use isabelle_core.State.Secrets.Index.{IsValid}
use isabelle_core.State.Secrets.Operations.{set-keeps_others, set-elsewhere, del-elsewhere}
use isabelle_core.Server.Owner.{stamp, id-stamp}
use isabelle_core.Server.Secret.{
  Caller, Reply, no_such_secret, touches, barred, edit_unless, del_unless, existing_of, secret_edit,
  secret_del,
}

module _ ⦃api : ItemApi⦄ ⦃c : Casing⦄ ⦃disk : Disk⦄ where
  barred_foreign :
      (me : Caller) (it : Item) → touches me it ≡ false → barred me (some it) ≡ some no_such_secret
  unfolding barred
  barred_foreign me it foreign = rw foreign refl

  existing_at :
      (s : SecretStore) (body : Item) (i : ℕ) (it : Item)
      → (body.id == u64_max) ≡ false
      → (body.id == i) ≡ true
      → lookup i s.entries ≡ some it
      → existing_of s body ≡ some it
  unfolding existing_of get
  existing_at s body i it old same here = rw (old, (nat_eq_iff body.id i).0 same) here

  barred_edit :
      (s : SecretStore) (me : Caller) (body : Item) (existing : Option Item) (i : ℕ) (it : Item)
      → lookup i s.entries ≡ some it
      → lookup i (edit_unless (some no_such_secret) s me body existing).0.entries ≡ some it
  unfolding edit_unless
  barred_edit s me body existing i it here = here

  edit_unless-keeps :
      (r : Option Reply) (s : SecretStore) (me : Caller) (body : Item) (existing : Option Item)
      (i : ℕ) (it : Item)
      → lookup i s.entries ≡ some it
      → lookup i (set s (stamp body existing me.id) true).0.entries ≡ some it
      → lookup i (edit_unless r s me body existing).0.entries ≡ some it
  unfolding edit_unless
  edit_unless-keeps none s me body existing i it here after = after
  edit_unless-keeps (some reply) s me body existing i it here after = here

  del_unless-keeps :
      (r : Option Reply) (s : SecretStore) (id i : ℕ) (it : Item)
      → lookup i s.entries ≡ some it
      → lookup i (del s id).0.entries ≡ some it
      → lookup i (del_unless r s id).0.entries ≡ some it
  unfolding del_unless
  del_unless-keeps none s id i it here after = after
  del_unless-keeps (some reply) s id i it here after = here

  edited-keeps_foreign :
      (s : SecretStore) (me : Caller) (body : Item) (i : ℕ) (it : Item)
      → IsValid s
      → s.next_id < u64_max
      → lookup i s.entries ≡ some it
      → touches me it ≡ false
      → lookup i
          (edit_unless (barred me (existing_of s body)) s me body (existing_of s body)).0.entries
        ≡ some it
  edited-keeps_foreign s me body i it v room here foreign =
      by_id (Bool-cases (body.id == u64_max)) (Bool-cases (body.id == i))
    where
      sent : Item
      sent = stamp body (existing_of s body) me.id

      sent_id : sent.id ≡ body.id
      sent_id = id-stamp body (existing_of s body) me.id

      kept :
          lookup i (set s sent true).0.entries ≡ some it
          → lookup i
              (edit_unless
                (barred me (existing_of s body))
                s
                me
                body
                (existing_of s body)).0.entries
            ≡ some it
      kept =
          edit_unless-keeps (barred me (existing_of s body)) s me body (existing_of s body) i it
            here

      by_id :
          ((body.id == u64_max) ≡ true) ⊎ ((body.id == u64_max) ≡ false)
          → ((body.id == i) ≡ true) ⊎ ((body.id == i) ≡ false)
          → lookup i
              (edit_unless
                (barred me (existing_of s body))
                s
                me
                body
                (existing_of s body)).0.entries
            ≡ some it
      by_id (inl fresh) at = kept (
          set-keeps_others s sent true i it v (sent_id ∙ (nat_eq_iff body.id u64_max).0 fresh) room
            here)
      by_id (inr old) (inr other) = kept (
          set-elsewhere s sent true i (λ e. ground (arith, sent_id, nat_eq_iff body.id u64_max))
            (λ e. ground (arith, sent_id, nat_eq_iff body.id i))
          ∙ here)
      by_id (inr old) (inl same) =
          ap (λ r. lookup i (edit_unless r s me body (existing_of s body)).0.entries)
            (ap (barred me) (existing_at s body i it old same here) ∙ barred_foreign me it foreign)
          ∙ barred_edit s me body (existing_of s body) i it here

  -- Whatever a caller sends, an entry that the caller may not touch is the same afterwards, while
  -- ids are left in the store, which is in order.
  pub secret_edit-keeps_foreign :
      (s : SecretStore) (me : Caller) (body : Item) (i : ℕ) (it : Item)
      → IsValid s
      → s.next_id < u64_max
      → lookup i s.entries ≡ some it
      → touches me it ≡ false
      → lookup i (secret_edit s me body).0.entries ≡ some it
  unfolding secret_edit
  secret_edit-keeps_foreign s me body i it v room here foreign =
      elim (Bool-cases (is_global_name (safe_str body "name" ""))) [
        | inl closed ↦ rw closed here
        | inr free ↦ rw free (edited-keeps_foreign s me body i it v room here foreign)
      ]

  -- A deletion by a caller who may not touch an entry leaves the entry as it was, whatever id is
  -- sent.
  pub secret_del-keeps_foreign :
      (s : SecretStore) (me : Caller) (id i : ℕ) (it : Item)
      → lookup i s.entries ≡ some it
      → touches me it ≡ false
      → lookup i (secret_del s me id).0.entries ≡ some it
  unfolding secret_del get
  secret_del-keeps_foreign s me id i it here foreign = elim (Bool-cases (id == i)) [
    | inl same ↦
        let at : lookup id s.entries ≡ some it =
          ap (λ j. lookup j s.entries) ((nat_eq_iff id i).0 same) ∙ here in
        ap (λ r. lookup i (del_unless r s id).0.entries)
          (ap (barred me) at ∙ barred_foreign me it foreign)
        ∙ here
    | inr other ↦
        del_unless-keeps (barred me (lookup id s.entries)) s id i it here
          (del-elsewhere s id i (λ e. ground (arith, nat_eq_iff id i)) ∙ here)
  ]
