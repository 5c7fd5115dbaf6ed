-- ===== src/Server/SignIn.antt =====
-- src/server/signin.rs: what every sign-in that is not a local password shares. Who may have an
-- account, which record an authenticated identity is, and the write that goes with it.
-- A plugin's answer to a hook is what `Hooks` says of it.
pub mod Linking
use Prim.Native.Char.{code}
use isabelle_core.Prelude.{
  ltb, leb, nat_eq, if◌then◌else◌, nat_eq_iff, Bool-cases, Option-cases, Eq, ◌==◌, nat_Eq,
  string_Eq, u64_max, saturating_add, saturating_mul, is_some, any, all, contains, nat_eq_refl, Map,
  or_else, lookup, insert, remove, retain, contains_key, lookup-insert, lookup-remove, beq_refl,
  Distinct, insert-Distinct, remove-Distinct, is_empty, starts_with, append, contains_text,
  any_char, ends_with_char, first_part, split_on, is_whitespace, is_control, trim_start, trim_end,
  trim, to_ascii_lowercase, eq_ignore_ascii_case, rsplit_once, trim_start_matches, trim_end_matches,
  ends_with, split_when, utf8, as_bytes, as_bytes_injective, Casing, to_lowercase, to_lowercase,
  length, take, drop, length-take-le, window-append, All, All-take, All-drop, ℕ, zero, suc, ◌+◌,
  ◌-◌, ◌*◌, ◌/◌, ◌%◌, ◌^◌, ◌≤◌, ◌<◌, min, max, String, ◌≡◌, refl, sym, ap, ◌∙◌, subst, ◌≢◌, ◌↔◌,
  ◌⊎◌, inl, inr, Bool, true, false, ◌&&◌, ◌||◌, not, Option, none, some, get_or, List, [], ◌∷◌,
  ◌++◌, map, arith, eq_iff, eq_refl,
}
use isabelle_core.Item.{Item, ItemApi, new, safe_str, safe_bool, set_str, set_bool}
use isabelle_core.State.Store.{Store}
use isabelle_core.Server.Hooks.{create as create_action, PostEditApi, post_edit_all}
use isabelle_core.State.RouteCache.{RouteCache, post_edit_hooks}

pub data Refusal : Type 0 where
  denied : Refusal
  unverified : Refusal
  registration_closed : Refusal
  inactive : Refusal
  mismatched : Refusal
  failed : Refusal

unfoldable pub slug : Refusal → String
slug denied = "denied"
slug unverified = "unverified"
slug registration_closed = "registration_closed"
slug inactive = "inactive"
slug mismatched = "mismatched"
slug failed = "failed"

-- `d.trim_start_matches("*.")`
unfoldable pub trim_stars : String → String
trim_stars (String.◌∷◌ c (String.◌∷◌ d s)) =
    let rest = trim_stars s in
    if code c == b'*' && code d == b'.' then rest else String.◌∷◌ c (String.◌∷◌ d s)
trim_stars s = s

unfoldable pub listed_domain : String → String
unfolding trim_stars
listed_domain d =
    to_ascii_lowercase (trim_end_matches b'.' (trim_stars (trim_start_matches b'@' (trim d))))

unfoldable pub separates_domains : ℕ → Bool
separates_domains c = c == b',' || c == b';' || is_whitespace c

-- Does an entry of the list cover the domain?
unfoldable pub covers : String → String → Bool
covers domain d = not (is_empty d) && (domain == d || ends_with domain (append "." d))

unfoldable pub domain_of_is_listed : Option (String × String) → String → Bool
unfolding listed_domain separates_domains covers
domain_of_is_listed none list = false
domain_of_is_listed (some (local, domain)) list =
    any (λ d. covers (to_ascii_lowercase (trim_end_matches b'.' domain)) (listed_domain d))
      (split_when separates_domains list)

unfoldable pub domain_listed : String → String → Bool
unfolding domain_of_is_listed
domain_listed email list = domain_of_is_listed (rsplit_once b'@' (trim email)) list

pub data Resolution : Type 0 where
  sign_in : ℕ → Resolution
  create : Resolution
  refuse : Refusal → Resolution

module _ ⦃api : ItemApi⦄ where
  unfoldable pub resolve_existing : Item → String → String → String → Resolution
  resolve_existing existing email subject subject_key =
      if not (eq_ignore_ascii_case (trim (safe_str existing "email" "")) (trim email))
      then refuse mismatched
      else if not (safe_bool existing "role_is_active" false)
      then refuse inactive
      else if not (is_empty (safe_str existing subject_key ""))
          && not (safe_str existing subject_key "" == subject)
      then refuse mismatched
      else sign_in existing.id

  unfoldable pub resolve_record : Option Item → String → String → String → Bool → Resolution
  unfolding resolve_existing
  resolve_record none email subject subject_key allow =
      if allow then create else refuse registration_closed
  resolve_record (some existing) email subject subject_key allow =
      resolve_existing existing email subject subject_key

  unfoldable pub resolve_identity :
      Option Item → String → Bool → String → String → Bool → Resolution
  unfolding resolve_record
  resolve_identity existing email verified subject subject_key allow_self_registration =
      if is_empty (trim email)
      then refuse unverified
      else if not verified
      then refuse unverified
      else resolve_record existing email subject subject_key allow_self_registration

unfoldable pub announce_new_user : {S : Type 0} ⦃hooks : PostEditApi S⦄ → S → RouteCache → ℕ → S
unfolding post_edit_all
announce_new_user s cache id =
    if id == u64_max
    then s
    else post_edit_all s (post_edit_hooks cache "user") "user" none id create_action

module _ ⦃api : ItemApi⦄ {S : Type 0} ⦃st : Store S⦄ where
  unfoldable pub registration_open : S → Bool
  registration_open s = elim (lookup "allow_self_registration" (st.get_settings s).bools) [
    | some v ↦ v
    | none ↦ safe_bool (st.get_internals s) "allow_self_registration" true
  ]

  unfoldable pub email_domain_blocked : S → String → Bool
  email_domain_blocked s email =
      domain_listed email (safe_str (st.get_settings s) "blocked_email_domains" "")

  unfoldable pub may_register : S → String → Bool
  unfolding registration_open email_domain_blocked
  may_register s email = registration_open s && not (email_domain_blocked s email)

module _ ⦃api : ItemApi⦄ where
  -- The write of a sign-in: which identity it was, and that the account has been used.
  unfoldable pub linked_item : ℕ → String → String → Item
  linked_item id subject_key subject =
      set_bool (set_str (record new { id = id }) subject_key subject) "logged_once" true

  unfoldable pub registered_item : String → String → String → String → Item
  registered_item email name subject_key subject =
      set_bool
        (set_bool
          (set_bool
            (set_str
              (set_str (set_str (set_str new "login" email) "email" email) "name"
                (if is_empty (trim name) then email else trim name))
              subject_key subject)
            "self_registered" true)
          "role_is_active" true)
        "logged_once" true

module _ ⦃api : ItemApi⦄ {S : Type 0} ⦃st : Store S⦄ ⦃hooks : PostEditApi S⦄ where
  unfoldable pub record_for :
      S
      → RouteCache
      → Resolution
      → Option Item
      → String
      → String
      → String
      → String
      → S × Option Item
  unfolding linked_item registered_item
  record_for s cache (refuse r) existing email name subject subject_key = (s, none)
  record_for s cache (sign_in id) existing email name subject subject_key =
      ((st.set_item s "user" (linked_item id subject_key subject) true).0, existing)
  record_for s cache create existing email name subject subject_key =
      let stored = st.set_item s "user" (registered_item email name subject_key subject) false in
      let told = announce_new_user stored.0 cache stored.1 in
      (told, st.get_item told "user" stored.1)
