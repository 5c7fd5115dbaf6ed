-- ===== src/Tests/Secrecy.antt =====
-- Runs of the store of secrets and of ownership.
use isabelle_core.Prelude.{
  Bool-cases, ◌==◌, nat_Eq, string_Eq, u64_max, is_some, lookup, insert, ℕ, String, ◌≡◌, refl, sym,
  ap, ◌∙◌, subst, inl, inr, true, false, some, [], ◌∷◌, arith, eq_iff,
}
use isabelle_core.Item.{Item}
use isabelle_core.State.Secrets.{
  SecretStore, invalid_input, ok, err, previous, mask, mask_strs, is_secret_key, written,
  final_item, restore, restore_key, restore_keys, secret_keys, merged, target_id, commit, committed,
  flushed, taken_by_other, is_other, set, reindex, drop_name, is_at, is_placeholder, put_back,
}
use isabelle_core.State.Secrets.Index.{IsValid}
use isabelle_core.State.Secrets.Operations.{set-IsValid}
use isabelle_core.State.Secrets.Masking.{mask-hides, set-mask}
use isabelle_core.Server.Secret.{Caller, touches, secret_edit}
use isabelle_core.Server.Secret.Privacy.{secret_edit-keeps_foreign}
use isabelle_core.Server.Owner.{may_touch, owner_of}
use isabelle_core.Tests.Fixtures.{items, caseless, disk, blank}

abbrev no_secrets : SecretStore
no_secrets = record { entries = []; name_index = []; next_id = 1 }

no_secrets-IsValid : IsValid no_secrets
unfolding lookup
no_secrets-IsValid = record {
  named = λ n i h. ground arith;
  filed = λ n i full h. ground arith;
  own = λ i it h. ground arith;
  below = λ i it h. ground arith;
}

abbrev smtp : Item
smtp = record blank { strs = ("name", "smtp") ∷ ("password", "hunter2") ∷ [] }

abbrev pub kept_smtp : Item
kept_smtp = record smtp { id = 1 }

abbrev one_secret : SecretStore
one_secret = (set no_secrets smtp false).0

abbrev pub one_secret_written : SecretStore
one_secret_written = record {
  entries = (1, kept_smtp) ∷ [];
  name_index = ("smtp", 1) ∷ [];
  next_id = 2;
}

one_secret-run : set no_secrets smtp false ≡ (one_secret_written, ok 1)
unfolding set commit flushed committed written final_item merged restore restore_keys restore_key
    secret_keys is_secret_key is_placeholder put_back target_id taken_by_other is_other reindex
    drop_name is_at lookup insert
one_secret-run = refl

set-IsValid_example : IsValid (set no_secrets smtp false).0
set-IsValid_example = set-IsValid no_secrets smtp false no_secrets-IsValid

pub one_secret-IsValid : IsValid one_secret_written
one_secret-IsValid =
    subst IsValid (ap (λ r. r.0) one_secret-run)
      (set-IsValid no_secrets smtp false no_secrets-IsValid)

nameless : (set one_secret_written blank false).1 ≡ err invalid_input
unfolding set commit flushed written final_item merged restore restore_keys restore_key secret_keys
    target_id lookup
nameless = refl

abbrev ldap : Item
ldap = record blank { strs = ("name", "ldap") ∷ [] }

has_smtp : lookup 1 one_secret_written.entries ≡ some kept_smtp
unfolding lookup
has_smtp = refl

-- A store whose next id has saturated.
abbrev full_store : SecretStore
full_store = record {
  entries = (u64_max, smtp) ∷ [];
  name_index = ("smtp", u64_max) ∷ [];
  next_id = u64_max;
}

full_store-ok : (set full_store ldap false).1 ≡ ok u64_max
unfolding set commit flushed committed written final_item merged restore restore_keys restore_key
    secret_keys is_secret_key is_placeholder put_back target_id taken_by_other is_other lookup
full_store-ok = refl

abbrev other_smtp : Item
other_smtp = record blank { strs = ("name", "smtp") ∷ ("password", "swordfish") ∷ [] }

same_keys : (k : String) → is_some (lookup k smtp.strs) ≡ is_some (lookup k other_smtp.strs)
unfolding lookup
same_keys k = ground arith

same_metadata :
    (k : String) → is_secret_key k ≡ false → lookup k smtp.strs ≡ lookup k other_smtp.strs
unfolding lookup
same_metadata k h = elim (Bool-cases ("password" == k)) [
  | inl same ↦
      let at : "password" ≡ k = (eq_iff "password" k).0 same in
      let secret : is_secret_key k ≡ true =
        ap is_secret_key (sym at) ∙ (unfold is_secret_key in refl) in
      cc (secret, h)
  | inr other ↦ rw other refl
]

mask-hides_example : lookup "password" (mask smtp).strs ≡ lookup "password" (mask other_smtp).strs
mask-hides_example = mask-hides smtp other_smtp same_keys same_metadata "password"

masked_again : (set one_secret_written (mask kept_smtp) false).1 ≡ ok 1
unfolding set commit flushed committed written final_item merged restore restore_keys restore_key
    secret_keys is_secret_key is_placeholder put_back target_id taken_by_other is_other lookup
    insert mask mask_strs
masked_again = refl

set-mask_example :
    (◌≡◌ {A = ℕ} 1 1)
    × ((k : String)
        → previous (lookup 1 (set one_secret_written (mask kept_smtp) false).0.entries) k
          ≡ lookup k kept_smtp.strs)
set-mask_example =
    set-mask one_secret_written 1 1 kept_smtp one_secret-IsValid (λ e. omega (arith, e)) has_smtp
      masked_again

-- A caller who is no administrator and does not own the entry.
abbrev stranger : Caller
stranger = record { id = 7; admin = false }

foreign : touches stranger kept_smtp ≡ false
unfolding may_touch owner_of lookup
foreign = refl

secret_edit-keeps_foreign_example :
    lookup 1 (secret_edit one_secret_written stranger kept_smtp).0.entries ≡ some kept_smtp
secret_edit-keeps_foreign_example =
    secret_edit-keeps_foreign one_secret_written stranger kept_smtp 1 kept_smtp one_secret-IsValid
      (omega arith) has_smtp foreign
