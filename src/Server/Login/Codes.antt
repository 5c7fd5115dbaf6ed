-- ===== src/Server/Login/Codes.antt =====
-- src/server/login.rs: what a wrong answer does to an account and to its one-time code.
use isabelle_core.Prelude.{
  Bool-cases, nat_Eq, string_Eq, saturating_add, is_empty, as_bytes, as_bytes_injective, All, ℕ,
  suc, ◌+◌, ◌≤◌, ◌<◌, min, String, ◌≡◌, refl, sym, ◌∙◌, ◌≢◌, ◌⊎◌, inl, inr, true, false, List, [],
  ◌∷◌, arith,
}
use isabelle_core.Item.{Item, ItemApi, safe_str, safe_bool, safe_u64, merge}
use isabelle_core.Item.Merging.{
  number_patch, safe_str-number_patch, safe_bool-number_patch, safe_u64-number_patch,
  safe_str-at_id, safe_bool-at_id, safe_u64-at_id,
}
use isabelle_core.Util.Crypto.{PasswordApi, constant_time_eq_iff}
use isabelle_core.State.Store.{at_id}
use isabelle_core.Server.UserControl.{otp_is_live, otp_max_attempts}
use isabelle_core.Server.Login.{otp_ok, pw_ok}

-- A guess and the time at which it is made.
abbrev pub Guess : Type 0
Guess = String × ℕ

module _ ⦃api : ItemApi⦄ ⦃a : PasswordApi⦄ where
  -- The guess is neither the code nor the password, and the code has not run out.
  pub record IsWrong (u : Item) (g : Guess) : Type 0 where
    pub not_code : safe_str u "otp" "" ≢ g.0
    pub not_password : pw_ok u g.0 ≡ false
    pub in_time : g.1 < safe_u64 u "otp_expires_at" 0

  -- What failed guesses leave alone.
  pub record SameCode (v u : Item) : Type 0 where
    pub id : v.id ≡ u.id
    pub active : safe_bool v "role_is_active" false ≡ safe_bool u "role_is_active" false
    pub password : safe_str v "password" "" ≡ safe_str u "password" ""
    pub otp : safe_str v "otp" "" ≡ safe_str u "otp" ""
    pub expires : safe_u64 v "otp_expires_at" 0 ≡ safe_u64 u "otp_expires_at" 0

  -- The code is blank, or at least `n` failures are on record, up to the limit.
  abbrev pub Counted : Item → ℕ → Type 0
  Counted v n = (safe_str v "otp" "" ≡ "") ⊎ (min otp_max_attempts n ≤ safe_u64 v "otp_attempts" 0)

  pub SameCode-refl : (u : Item) → SameCode u u
  SameCode-refl u = record { id = refl; active = refl; password = refl; otp = refl; expires = refl }

  pub SameCode-trans : (w v u : Item) → SameCode w v → SameCode v u → SameCode w u
  SameCode-trans w v u p q = record {
    id = p.id ∙ q.id;
    active = p.active ∙ q.active;
    password = p.password ∙ q.password;
    otp = p.otp ∙ q.otp;
    expires = p.expires ∙ q.expires;
  }

  pub IsWrong-SameCode : (v u : Item) (g : Guess) → SameCode v u → IsWrong u g → IsWrong v g
  IsWrong-SameCode v u g same wrong = record {
    not_code = λ e. wrong.not_code (sym same.otp ∙ e);
    not_password = unfold pw_ok in rw same.password wrong.not_password;
    in_time = rw same.expires wrong.in_time;
  }

  pub otp_ok-wrong : (u : Item) (g : Guess) → IsWrong u g → otp_ok u g.0 g.1 ≡ false
  unfolding otp_ok
  otp_ok-wrong u g wrong = elim (Bool-cases (otp_ok u g.0 g.1)) [
    | inl e ↦ absurd (
        wrong.not_code (
          as_bytes_injective _ _ (
            (constant_time_eq_iff (as_bytes (safe_str u "otp" "")) (as_bytes g.0)).0
              (ground arith))))
    | inr e ↦ e
  ]

  pub All-IsWrong :
      (v u : Item) (gs : List Guess) → SameCode v u → All (IsWrong u) gs → All (IsWrong v) gs
  All-IsWrong v u [] same h = tt
  All-IsWrong v u (g ∷ gs) same (w, h) = (IsWrong-SameCode v u g same w, All-IsWrong v u gs same h)

  pub is_empty-eq : (s : String) → is_empty s ≡ true → s ≡ ""
  is_empty-eq String.[] e = refl
  is_empty-eq (String.◌∷◌ c s) e = cc

  -- A code that is not live although it has not run out is blank or has been guessed at too often.
  pub dead-Counted :
      (u : Item) (g : Guess)
      → IsWrong u g
      → otp_is_live u g.1 ≡ false
      → Counted u (safe_u64 u "otp_attempts" 0 + 1)
  unfolding otp_is_live
  dead-Counted u g wrong dead = elim (Bool-cases (is_empty (safe_str u "otp" ""))) [
    | inl blank ↦ inl (is_empty-eq _ blank)
    | inr code ↦
        let in_time = wrong.in_time in
        let many : otp_max_attempts ≤ safe_u64 u "otp_attempts" 0 = ground arith in
        inr (omega arith)
  ]

  pub Counted-trans :
      (v w u : Item) (n : ℕ)
      → SameCode w v
      → Counted v (safe_u64 u "otp_attempts" 0 + 1)
      → Counted w (safe_u64 v "otp_attempts" 0 + n)
      → Counted w (safe_u64 u "otp_attempts" 0 + suc n)
  Counted-trans v w u n same (inl blank) later = inl (same.otp ∙ blank)
  Counted-trans v w u n same (inr few) (inl blank) = inl blank
  Counted-trans v w u n same (inr few) (inr more) = inr (omega arith)

  -- A code with too many failures is not live, whatever the time.
  pub Counted-not_live :
      (v : Item) (n t : ℕ) → otp_max_attempts ≤ n → Counted v n → otp_is_live v t ≡ false
  unfolding otp_is_live
  Counted-not_live v n t h (inl blank) = rw blank
  Counted-not_live v n t h (inr many) = ground arith

  -- One failure more is on record after a wrong guess, if the code was live.
  unfoldable pub patched : Item → Item
  patched u =
      at_id
        (merge u
          (number_patch u u.id (saturating_add (safe_u64 u "otp_attempts" 0) 1) "otp_attempts"))
        u.id

  pub SameCode-patched : (u : Item) → SameCode (patched u) u
  unfolding patched
  SameCode-patched u =
      let n = saturating_add (safe_u64 u "otp_attempts" 0) 1 in
      record {
        id = refl;
        active =
            safe_bool-at_id _ u.id "role_is_active" false
            ∙ safe_bool-number_patch u u.id n "otp_attempts" "role_is_active" false;
        password =
            safe_str-at_id _ u.id "password" ""
            ∙ safe_str-number_patch u u.id n "otp_attempts" "password" "";
        otp =
            safe_str-at_id _ u.id "otp" "" ∙ safe_str-number_patch u u.id n "otp_attempts" "otp" "";
        expires =
            safe_u64-at_id _ u.id "otp_expires_at" 0
            ∙ safe_u64-number_patch u u.id n "otp_attempts" "otp_expires_at" 0;
      }

  pub attempts-patched :
      (u : Item)
      → safe_u64 (patched u) "otp_attempts" 0 ≡ saturating_add (safe_u64 u "otp_attempts" 0) 1
  unfolding patched
  attempts-patched u =
      safe_u64-at_id _ u.id "otp_attempts" 0
      ∙ safe_u64-number_patch u u.id (saturating_add (safe_u64 u "otp_attempts" 0) 1) "otp_attempts"
          "otp_attempts" 0
