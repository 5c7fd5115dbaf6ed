-- ===== src/Server/Secret.antt =====
-- src/server/secret.rs: who may change a secret, where the store of secrets is initialised and the
-- body of the request has been read. `caller` has been asked for an active account.
pub mod Privacy
use isabelle_core.Prelude.{
  ltb, leb, nat_eq, if◌then◌else◌, nat_eq_iff, Bool-cases, Option-cases, Eq, ◌==◌, nat_Eq,
  string_Eq, u64_max, saturating_add, saturating_mul, is_some, any, all, contains, nat_eq_refl, Map,
  or_else, lookup, insert, remove, retain, contains_key, lookup-insert, lookup-remove, beq_refl,
  Distinct, insert-Distinct, remove-Distinct, is_empty, starts_with, append, contains_text,
  any_char, ends_with_char, split_on, is_whitespace, is_control, trim_start, trim_end, trim, utf8,
  as_bytes, as_bytes_injective, Casing, to_lowercase, to_lowercase, length, take, drop,
  length-take-le, window-append, All, All-take, All-drop, ℕ, zero, suc, ◌+◌, ◌-◌, ◌*◌, ◌/◌, ◌%◌,
  ◌^◌, ◌≤◌, ◌<◌, min, max, String, ◌≡◌, refl, sym, ap, ◌∙◌, subst, ◌≢◌, ◌↔◌, ◌⊎◌, inl, inr, Bool,
  true, false, ◌&&◌, ◌||◌, not, Option, none, some, get_or, List, [], ◌∷◌, ◌++◌, map, arith, eq_iff,
  eq_refl,
}
use isabelle_core.Item.{Item, ItemApi, safe_str}
use isabelle_core.State.Secrets.{
  SecretStore, Disk, Error, already_exists, Result, ok, err, is_global_name, get, set, del,
  get_masked,
}
use isabelle_core.Server.Owner.{stamp, may_touch}

pub record Caller : Type 0 where
  pub id : ℕ
  pub admin : Bool

pub data Reply : Type 0 where
  done : Reply
  done_with_id : ℕ → Reply
  shown : Item → Reply
  reserved : Reply
  no_such_secret : Reply
  name_taken : Reply
  failed : Error → Reply

abbrev pub touches : Caller → Item → Bool
touches me it = may_touch it me.id me.admin

-- Somebody else's entry may have the name: only an administrator is told more.
failure_reply : Caller → Error → Reply
failure_reply me already_exists = if not me.admin then name_taken else failed already_exists
failure_reply me e = failed e

edit_reply : Caller → Result ℕ → Reply
unfolding failure_reply
edit_reply me (ok id) = done_with_id id
edit_reply me (err e) = failure_reply me e

del_reply : Result Bool → Reply
del_reply (ok true) = done
del_reply (ok false) = no_such_secret
del_reply (err e) = failed e

module _ ⦃api : ItemApi⦄ ⦃c : Casing⦄ ⦃disk : Disk⦄ where
  -- Why the entry that is there may not be changed, if so.
  unfoldable pub barred : Caller → Option Item → Option Reply
  barred me none = none
  barred me (some it) =
      if not (touches me it)
      then some no_such_secret
      else if is_global_name (safe_str it "name" "")
      then some reserved
      else none

  edit_unless : Option Reply → SecretStore → Caller → Item → Option Item → SecretStore × Reply
  unfolding edit_reply
  edit_unless (some reply) s me body existing = (s, reply)
  edit_unless none s me body existing =
      let (after, result) = set s (stamp body existing me.id) true in (after, edit_reply me result)

  -- `if body.id != u64::MAX { store.get(body.id) } else { None }`
  unfoldable pub existing_of : SecretStore → Item → Option Item
  existing_of s body = if not (body.id == u64_max) then get s body.id else none

  unfoldable pub secret_edit : SecretStore → Caller → Item → SecretStore × Reply
  unfolding edit_unless
  secret_edit s me body =
      if is_global_name (safe_str body "name" "")
      then (s, reserved)
      else edit_unless (barred me (existing_of s body)) s me body (existing_of s body)

  del_unless : Option Reply → SecretStore → ℕ → SecretStore × Reply
  unfolding del_reply
  del_unless (some reply) s id = (s, reply)
  del_unless none s id = let (after, result) = del s id in (after, del_reply result)

  unfoldable pub secret_del : SecretStore → Caller → ℕ → SecretStore × Reply
  unfolding del_unless
  secret_del s me id = del_unless (barred me (get s id)) s id

shown_to : Caller → Option Item → Reply
shown_to me none = no_such_secret
shown_to me (some it) = if touches me it then shown it else no_such_secret

unfoldable pub secret_get : ⦃c : Casing⦄ → SecretStore → Caller → ℕ → Reply
unfolding shown_to
secret_get s me id = shown_to me (get_masked s id)
