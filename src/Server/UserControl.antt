-- ===== src/Server/UserControl.antt =====
-- src/server/user_control.rs: accounts, roles, one-time codes and the generation of sessions.
-- The build is the default one, without the feature `full_file_database`. The clock is an argument.
pub mod Sessions
use Prim.Native.Char.{code}
use isabelle_core.Prelude.{
  ltb, leb, nat_eq, if◌then◌else◌, nat_eq_iff, Bool-cases, Option-cases, Eq, ◌==◌, nat_Eq,
  string_Eq, u64_max, saturating_add, saturating_mul, is_some, any, all, contains, nat_eq_refl, Map,
  or_else, lookup, insert, remove, retain, contains_key, lookup-insert, lookup-remove, beq_refl,
  is_empty, starts_with, append, contains_text, any_char, ends_with_char, split_on, is_whitespace,
  is_control, trim_start, trim_end, trim, utf8, as_bytes, as_bytes_injective, Casing, to_lowercase,
  to_lowercase, length, take, drop, length-take-le, window-append, All, All-take, All-drop, ℕ, zero,
  suc, ◌+◌, ◌-◌, ◌*◌, ◌/◌, ◌%◌, ◌^◌, ◌≤◌, ◌<◌, min, max, String, ◌≡◌, refl, sym, ap, ◌∙◌, subst,
  ◌≢◌, ◌↔◌, ◌⊎◌, inl, inr, Bool, true, false, ◌&&◌, ◌||◌, not, Option, none, some, get_or, List, [],
  ◌∷◌, ◌++◌, map, arith, eq_iff, eq_refl,
}
use isabelle_core.Item.{Item, ItemApi, new, safe_str, safe_bool, safe_u64, set_u64}
use isabelle_core.State.Store.{ListResult, Store, UserLookup, absent}

abbrev pub otp_ttl_secs : ℕ
otp_ttl_secs = 600

abbrev pub otp_max_attempts : ℕ
otp_max_attempts = 5

abbrev pub otp_resend_interval_secs : ℕ
otp_resend_interval_secs = 60

is_bad_symbol : ℕ → Bool
is_bad_symbol c =
    c == b'"' || c == b'\\' || c == b'{' || c == b'}' || c == b'[' || c == b']' || c == b'$'

unfoldable pub login_has_bad_symbols : String → Bool
unfolding is_bad_symbol
login_has_bad_symbols login = any_char is_bad_symbol login

unfoldable pub login_is_acceptable : String → Bool
login_is_acceptable login =
    not (is_empty login) && leb (length (as_bytes login)) 254 && not (login_has_bad_symbols login)

is_blank : ℕ → Bool
is_blank c = is_whitespace c || is_control c

unfoldable pub login_is_registrable : String → Bool
unfolding is_blank
login_is_registrable login = login_is_acceptable login && not (any_char is_blank login)

-- The parts of an address between its `@` signs.
address_parts_ok : List String → Bool
address_parts_ok (local ∷ domain ∷ []) =
    not (is_empty local)
    && contains_text domain "."
    && not (starts_with domain ".")
    && not (ends_with_char domain b'.')
    && not (contains_text domain "..")
address_parts_ok _ = false

unfoldable pub email_is_registrable : String → Bool
unfolding is_blank address_parts_ok
email_is_registrable email =
    login_is_acceptable email
    && not (any_char is_blank email)
    && address_parts_ok (split_on b'@' email)

-- A regular expression that matches exactly this text.
is_special : ℕ → Bool
is_special c =
    c == b'\\'
    || c == b'.'
    || c == b'^'
    || c == b'$'
    || c == b'|'
    || c == b'?'
    || c == b'*'
    || c == b'+'
    || c == b'('
    || c == b')'
    || c == b'['
    || c == b']'
    || c == b'{'
    || c == b'}'
    || c == b'/'

escaped : String → String
unfolding is_special
escaped String.[] = "$"
escaped (String.◌∷◌ c s) =
    let rest = String.◌∷◌ c (escaped s) in if is_special (code c) then append "\\\\" rest else rest

unfoldable pub exact_ignoring_case : String → String
unfolding escaped
exact_ignoring_case value = append "^" (escaped value)

pub data RegistrationTarget : Type 0 where
  create : RegistrationTarget
  resume : ℕ → RegistrationTarget
  taken : RegistrationTarget

module _ ⦃api : ItemApi⦄ where
  unfoldable pub registration_target : Option Item → Option Item → RegistrationTarget
  registration_target none none = create
  registration_target (some by_login) (some by_email) =
      if by_login.id == by_email.id
        && safe_bool by_login "self_registered" false
        && not (safe_bool by_login "logged_once" false)
      then resume by_login.id
      else taken
  registration_target _ _ = taken

  unfoldable pub otp_is_live : Item → ℕ → Bool
  otp_is_live itm now =
      not (is_empty (safe_str itm "otp" ""))
      && ltb now (safe_u64 itm "otp_expires_at" 0)
      && ltb (safe_u64 itm "otp_attempts" 0) otp_max_attempts

  -- The sum is a plain `+` on `u64`: it is exact for every time stamp that the code writes.
  unfoldable pub otp_may_be_issued : Item → ℕ → Bool
  otp_may_be_issued itm now =
      safe_bool itm "role_is_active" false
      && leb (safe_u64 itm "otp_issued_at" 0 + otp_resend_interval_secs) now

  unfoldable pub role_is_granted : Item → String → String → Bool
  role_is_granted user role_prefix role =
      if not (safe_bool user "role_is_active" false)
      then false
      else safe_bool user (append role_prefix role) false

  unfoldable pub session_generation : Item → ℕ
  session_generation usr = safe_u64 usr "session_gen" 0

-- `old.strs.get(k) == Some(v)`, and the like for flags
abbrev pub is_value {ℓ} : {A : Type ℓ} ⦃e : Eq A⦄ → Option A → A → Bool
is_value none v = false
is_value (some w) v = w == v

abbrev pub bool_eq : Bool → Bool → Bool
bool_eq true b = b
bool_eq false b = not b

abbrev is_flag : Option Bool → Bool → Bool
is_flag none v = false
is_flag (some w) v = bool_eq w v

unfoldable pub is_role_key : String → String → Bool
is_role_key role_prefix k = starts_with k role_prefix || k == "role_is_active"

-- Does the write carry another password?
unfoldable pub password_changes : Option String → Option String → Bool
password_changes old none = false
password_changes old (some pw) = not (is_value old pw)

-- Does the write set a role to another value?
unfoldable pub role_changes : String → Map String Bool → Map String Bool → Bool
role_changes role_prefix old written =
    any (λ e. is_role_key role_prefix e.0 && not (is_flag (lookup e.0 old) e.1)) written

-- Does a write that replaces the record leave out a role that was granted?
unfoldable pub role_dropped : String → Map String Bool → Map String Bool → Bool
role_dropped role_prefix old written =
    any (λ e. e.1 && is_role_key role_prefix e.0 && not (contains_key e.0 written)) old

unfoldable pub write_invalidates_sessions : Option Item → Item → Bool → String → Bool
unfolding password_changes role_changes role_dropped
write_invalidates_sessions none new_itm merge role_prefix = false
write_invalidates_sessions (some old) new_itm merge role_prefix =
    if password_changes (lookup "password" old.strs) (lookup "password" new_itm.strs)
    then true
    else if role_changes role_prefix old.bools new_itm.bools
    then true
    else not merge && role_dropped role_prefix old.bools new_itm.bools

-- `old_itm.map(session_generation).unwrap_or(0)`
generation_of : ⦃api : ItemApi⦄ → Option Item → ℕ
generation_of none = 0
generation_of (some old) = session_generation old

module _ ⦃api : ItemApi⦄ {S : Type 0} ⦃st : Store S⦄ where
  unfoldable pub role_prefix_of : S → String
  role_prefix_of s = safe_str (st.get_internals s) "user_role_prefix" "role_is_"

  unfoldable pub lookup_user : S → String → UserLookup
  lookup_user s login = if login_has_bad_symbols login then absent else st.find_user_checked s login

  unfoldable pub get_user : S → String → Option Item
  get_user s login = if login_has_bad_symbols login then none else st.find_user s login

  unfoldable pub check_role : S → Option Item → String → Bool
  check_role s none role = false
  check_role s (some user) role = role_is_granted user (role_prefix_of s) role

  unfoldable pub bump_session_generation : S → Item → S
  bump_session_generation s usr =
      (st.set_item s "user"
        (set_u64 (record new { id = usr.id }) "session_gen"
          (saturating_add (session_generation usr) 1))
        true).0

  -- The item as it is to be written, its generation raised if the write ends sessions.
  unfoldable pub apply_session_revocation : S → String → Option Item → Item → Bool → Item
  unfolding generation_of
  apply_session_revocation s collection old_itm itm merge =
      if not (collection == "user")
      then itm
      else if write_invalidates_sessions old_itm itm merge (role_prefix_of s)
      then set_u64 itm "session_gen" (saturating_add (generation_of old_itm) 1)
      else itm

  unfoldable pub bump_otp_attempts : S → ℕ → ℕ → S
  bump_otp_attempts s id attempts =
      (st.set_item s "user"
        (set_u64 (record new { id = id }) "otp_attempts" (saturating_add attempts 1)) true).0
