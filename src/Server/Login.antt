-- ===== src/Server/Login.antt =====
-- src/server/login.rs: signing in with a password or a one-time code, and out again.
-- The body of a request has been read (`read_fields`); the clock is an argument.
pub mod Decision
pub mod Codes
pub mod Guesses
pub mod Logout
pub mod Register
pub mod Directory
use isabelle_core.Prelude.{
  ltb, leb, nat_eq, if◌then◌else◌, nat_eq_iff, Bool-cases, Option-cases, Eq, ◌==◌, nat_Eq,
  string_Eq, u64_max, saturating_add, saturating_mul, is_some, any, all, contains, nat_eq_refl, Map,
  or_else, lookup, insert, remove, retain, contains_key, lookup-insert, lookup-remove, beq_refl,
  Distinct, insert-Distinct, remove-Distinct, is_empty, starts_with, append, contains_text,
  any_char, ends_with_char, split_on, is_whitespace, is_control, trim_start, trim_end, trim, utf8,
  as_bytes, as_bytes_injective, Casing, to_lowercase, to_lowercase, length, take, drop,
  length-take-le, window-append, All, All-take, All-drop, ℕ, zero, suc, ◌+◌, ◌-◌, ◌*◌, ◌/◌, ◌%◌,
  ◌^◌, ◌≤◌, ◌<◌, min, max, String, ◌≡◌, refl, sym, ap, ◌∙◌, subst, ◌≢◌, ◌↔◌, ◌⊎◌, inl, inr, Bool,
  true, false, ◌&&◌, ◌||◌, not, Option, none, some, get_or, List, [], ◌∷◌, ◌++◌, map, arith, eq_iff,
  eq_refl,
}
use isabelle_core.Item.{
  Item, ItemApi, new, safe_str, safe_bool, safe_u64, set_str, set_bool, set_u64,
}
use isabelle_core.Util.Crypto.{PasswordApi, verify_password, constant_time_eq}
use isabelle_core.State.Store.{Store}
use isabelle_core.Server.Guards.{Session, cleared}
use isabelle_core.Server.UserControl.{
  get_user, otp_is_live, otp_may_be_issued, otp_ttl_secs, bump_otp_attempts,
  bump_session_generation, session_generation,
}

pub record LoginUser : Type 0 where
  pub username : String
  pub password : String

pub data Local : Type 0 where
  authenticated : Item → Local
  inactive : Local
  not_authenticated : Local

module _ ⦃api : ItemApi⦄ where
  unfoldable pub otp_ok : Item → String → ℕ → Bool
  otp_ok u password now =
      otp_is_live u now && constant_time_eq (as_bytes (safe_str u "otp" "")) (as_bytes password)

  unfoldable pub pw_ok : ⦃a : PasswordApi⦄ → Item → String → Bool
  pw_ok u password =
      not (safe_str u "password" "" == "") && verify_password password (safe_str u "password" "")

  -- The record of a successful sign-in: the code that was used is blanked.
  unfoldable pub logged_in_item : ℕ → Item
  logged_in_item id =
      set_u64
        (set_u64 (set_str (set_bool (record new { id = id }) "logged_once" true) "otp" "")
          "otp_expires_at" 0)
        "otp_attempts" 0

module _ ⦃api : ItemApi⦄ ⦃a : PasswordApi⦄ {S : Type 0} ⦃st : Store S⦄ where
  -- A wrong answer to a live code counts against it.
  unfoldable pub count_attempt : S → Item → ℕ → S
  count_attempt s u now =
      if otp_is_live u now then bump_otp_attempts s u.id (safe_u64 u "otp_attempts" 0) else s

  unfoldable pub try_account : S → LoginUser → ℕ → Option Item → S × Local
  try_account s lu now none = (s, not_authenticated)
  try_account s lu now (some u) =
      if not (safe_bool u "role_is_active" false)
      then (s, inactive)
      else if pw_ok u lu.password || otp_ok u lu.password now
      then (s, authenticated u)
      else (count_attempt s u now, not_authenticated)

  unfoldable pub local_login : S → LoginUser → ℕ → S × Local
  unfolding try_account
  local_login s lu now = try_account s lu now (get_user s lu.username)

module _ ⦃api : ItemApi⦄ {S : Type 0} ⦃st : Store S⦄ where
  -- What `login` does once an account is settled: the identity and the generation go into the
  -- session, and the code is blanked. `attached` is whether the identity could be stored; if not,
  -- the answer is an error and nothing is written. `stamped` is whether the generation could be
  -- stored; if not, the session keeps the one it had.
  unfoldable pub establish : S → Item → Session → Bool → Bool → S × Option Session
  unfolding logged_in_item
  establish s u session attached stamped = if not attached then (s, none) else (
    (st.set_item s "user" (logged_in_item u.id) true).0,
    some (record {
      identity = some (safe_str u "email" "");
      sgen = if stamped then some (session_generation u) else session.sgen;
    }),
  )

  end_sessions_of : S → Option Item → S
  end_sessions_of s none = s
  end_sessions_of s (some usr) = bump_session_generation s usr

  end_sessions : S → Option String → S
  unfolding end_sessions_of
  end_sessions s none = s
  end_sessions s (some principal) = end_sessions_of s (get_user s principal)

  unfoldable pub logout : S → Session → S × Session
  unfolding end_sessions
  logout s session = (end_sessions s session.identity, cleared)

  -- A new code: `code` is what `get_otp_code` drew. Hooks are told of it afterwards.
  unfoldable pub issue_otp : S → Option Item → String → ℕ → S
  issue_otp s none code now = s
  issue_otp s (some usr) code now =
      if not (otp_may_be_issued usr now) then s else elim (st.get_item s "user" usr.id) [
        | none ↦ s
        | some itm ↦
            (st.set_item s "user"
              (set_u64
                (set_u64 (set_u64 (set_str itm "otp" code) "otp_issued_at" now) "otp_expires_at"
                  (now + otp_ttl_secs))
                "otp_attempts" 0)
              false).0
      ]

  unfoldable pub gen_otp : S → String → String → ℕ → S
  unfolding issue_otp
  gen_otp s username code now = issue_otp s (get_user s username) code now
