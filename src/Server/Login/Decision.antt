-- ===== src/Server/Login/Decision.antt =====
-- src/server/login.rs: whom `local_login` lets in.
use isabelle_core.Prelude.{
  nat_Eq, string_Eq, as_bytes, as_bytes_injective, ℕ, String, ◌≡◌, refl, ap, subst, ◌≢◌, ◌↔◌, ◌⊎◌,
  true, false, ◌||◌, Option, none, some, arith, eq_iff,
}
use isabelle_core.Item.{Item, ItemApi, safe_str, safe_bool}
use isabelle_core.Util.Crypto.{PasswordApi, verify_password, constant_time_eq_iff}
use isabelle_core.State.Store.{Store}
use isabelle_core.Server.UserControl.{get_user, otp_is_live}
use isabelle_core.Server.Login.{LoginUser, authenticated, otp_ok, pw_ok, try_account, local_login}

-- The password given fits the hash that the account has, or is the account's live one-time code.
abbrev pub Proves : ⦃api : ItemApi⦄ ⦃a : PasswordApi⦄ → Item → String → ℕ → Type 0
Proves u password now =
    ((safe_str u "password" "" ≢ "") × (verify_password password (safe_str u "password" "") ≡ true))
    ⊎ ((otp_is_live u now ≡ true) × (safe_str u "otp" "" ≡ password))

module _ ⦃api : ItemApi⦄ ⦃a : PasswordApi⦄ where
  otp_ok_iff :
      (u : Item) (password : String) (now : ℕ)
      → (otp_ok u password now ≡ true)
        ↔ ((otp_is_live u now ≡ true) × (safe_str u "otp" "" ≡ password))
  unfolding otp_ok
  otp_ok_iff u password now =
      let both = constant_time_eq_iff (as_bytes (safe_str u "otp" "")) (as_bytes password) in
      (
        λ h. (ground arith, as_bytes_injective _ _ (both.0 (ground arith))),
        λ h. rw (h.0, both.1 (ap as_bytes h.1)),
      )

  pw_ok_iff :
      (u : Item) (password : String)
      → (pw_ok u password ≡ true) ↔ (
          (safe_str u "password" "" ≢ "")
          × (verify_password password (safe_str u "password" "") ≡ true))
  unfolding pw_ok
  pw_ok_iff u password = ground (arith, eq_iff (safe_str u "password" "") "")

  accepts_iff :
      (u : Item) (password : String) (now : ℕ)
      → ((pw_ok u password || otp_ok u password now) ≡ true) ↔ Proves u password now
  accepts_iff u password now = ground (arith, pw_ok_iff u password, otp_ok_iff u password now)

  module _ {S : Type 0} ⦃st : Store S⦄ (s : S) (lu : LoginUser) (now : ℕ) (u : Item) where
    try_account_sound :
        (found : Option Item)
        → (try_account s lu now found).1 ≡ authenticated u
        → (found ≡ some u) × (safe_bool u "role_is_active" false ≡ true) × Proves u lu.password now
    unfolding try_account
    try_account_sound none e = cc
    try_account_sound (some v) e =
        let same : v ≡ u = ground arith in
        subst
          (λ x.
            (some v ≡ some x)
            × (safe_bool x "role_is_active" false ≡ true)
            × Proves x lu.password now)
          same (refl, ground arith, (accepts_iff v lu.password now).0 (ground arith))

    try_account_complete :
        safe_bool u "role_is_active" false ≡ true
        → Proves u lu.password now
        → (try_account s lu now (some u)).1 ≡ authenticated u
    unfolding try_account
    try_account_complete active proof = rw (active, (accepts_iff u lu.password now).1 proof)

    -- A sign-in succeeds as an account exactly when the store has the account under the name
    -- given, it is active, and the password given proves it: it fits the stored hash, which is not
    -- empty, or it is the live one-time code.
    pub local_login-authenticated_iff : ((local_login s lu now).1 ≡ authenticated u) ↔ (
        (get_user s lu.username ≡ some u)
        × (safe_bool u "role_is_active" false ≡ true)
        × Proves u lu.password now)
    unfolding local_login
    local_login-authenticated_iff =
        (try_account_sound (get_user s lu.username), λ h. rw h.0 (try_account_complete h.1 h.2))
