-- ===== src/Server/Login/Guesses.antt =====
-- src/server/login.rs: how often a one-time code can be guessed.
use isabelle_core.Prelude.{
  Bool-cases, nat_Eq, string_Eq, u64_max, saturating_add, length, All, ℕ, ◌+◌, ◌≤◌, String, ◌≡◌,
  sym, ◌∙◌, ◌≢◌, inl, inr, true, false, some, List, [], ◌∷◌, arith,
}
use isabelle_core.Item.{Item, ItemApi, safe_bool, safe_u64}
use isabelle_core.Item.Merging.{number_patch, id-number_patch, strs-number_patch}
use isabelle_core.Util.Crypto.{PasswordApi}
use isabelle_core.State.Store.{Store, StoreLaws}
use isabelle_core.Server.UserControl.{
  get_user, otp_is_live, otp_max_attempts, bump_otp_attempts, login_has_bad_symbols,
}
use isabelle_core.Server.Login.{count_attempt, local_login}
use isabelle_core.Server.Login.Codes.{
  Guess, IsWrong, SameCode, Counted, SameCode-refl, SameCode-trans, otp_ok-wrong, All-IsWrong,
  dead-Counted, Counted-trans, Counted-not_live, patched, SameCode-patched, attempts-patched,
}

module _ ⦃api : ItemApi⦄ ⦃a : PasswordApi⦄ {S : Type 0} ⦃st : Store S⦄ (laws : StoreLaws S)
    (accepting : (s : S) (itm : Item)
      → itm.id ≢ u64_max
      → (st.set_item s "user" itm true).1 ≢ u64_max)
    (name : String) (plain : login_has_bad_symbols name ≡ false) where
  bumped :
      (s : S) (u : Item)
      → laws.Valid s
      → st.find_user s name ≡ some u
      → u.id ≢ u64_max
      → st.find_user (bump_otp_attempts s u.id (safe_u64 u "otp_attempts" 0)) name
        ≡ some (patched u)
  unfolding bump_otp_attempts patched
  bumped s u valid known own =
      let n = saturating_add (safe_u64 u "otp_attempts" 0) 1 in
      let e = id-number_patch u u.id n "otp_attempts" in
      laws.find_user-set_item s name u (number_patch u u.id n "otp_attempts") true valid known e
        (λ h. own (sym e ∙ h))
        (accepting s (number_patch u u.id n "otp_attempts") (λ h. own (sym e ∙ h)))
        (
          strs-number_patch u u.id n "otp_attempts" "login",
          strs-number_patch u u.id n "otp_attempts" "email",
        )

  -- One wrong guess.
  wrong_guess :
      (s : S) (u : Item) (g : Guess)
      → laws.Valid s
      → st.find_user s name ≡ some u
      → u.id ≢ u64_max
      → safe_bool u "role_is_active" false ≡ true
      → IsWrong u g
      → (local_login s (record { username = name; password = g.0 }) g.1).0 ≡ count_attempt s u g.1
  unfolding local_login get_user
  wrong_guess s u g valid known own active wrong =
      rw (plain, known, active, wrong.not_password, otp_ok-wrong u g wrong)

  -- The account after a wrong guess.
  record After (s : S) (u : Item) (n : ℕ) : Type 0 where
    now_is : Item
    known : st.find_user s name ≡ some now_is
    same : SameCode now_is u
    counted : Counted now_is n

  count_attempt-After :
      (s : S) (u : Item) (g : Guess)
      → laws.Valid s
      → st.find_user s name ≡ some u
      → u.id ≢ u64_max
      → IsWrong u g
      → After (count_attempt s u g.1) u (safe_u64 u "otp_attempts" 0 + 1)
  unfolding count_attempt
  count_attempt-After s u g valid known own wrong = elim (Bool-cases (otp_is_live u g.1)) [
    | inl live ↦ rw live (record {
      now_is = patched u;
      known = bumped s u valid known own;
      same = SameCode-patched u;
      counted = inr (omega (arith, attempts-patched u));
    })
    | inr dead ↦ rw dead (record {
      now_is = u;
      known = known;
      same = SameCode-refl u;
      counted = dead-Counted u g wrong dead;
    })
  ]

  count_attempt-Valid : (s : S) (u : Item) (t : ℕ) → laws.Valid s → laws.Valid (count_attempt s u t)
  unfolding count_attempt bump_otp_attempts
  count_attempt-Valid s u t valid = elim (Bool-cases (otp_is_live u t)) [
    | inl live ↦ rw live (laws.set_item-Valid s "user" _ true valid)
    | inr dead ↦ rw dead valid
  ]

  -- The store after a run of sign-ins under the same name.
  unfoldable pub guess_all : S → List Guess → S
  guess_all s [] = s
  guess_all s (g ∷ gs) =
      guess_all (local_login s (record { username = name; password = g.0 }) g.1).0 gs

  run_guesses :
      (s : S) (u : Item) (gs : List Guess)
      → laws.Valid s
      → st.find_user s name ≡ some u
      → u.id ≢ u64_max
      → safe_bool u "role_is_active" false ≡ true
      → All (IsWrong u) gs
      → After (guess_all s gs) u (safe_u64 u "otp_attempts" 0 + length gs)
  unfolding guess_all
  run_guesses s u [] valid known own active wrong = record {
    now_is = u;
    known = known;
    same = SameCode-refl u;
    counted = inr (omega arith);
  }
  run_guesses s u (g ∷ gs) valid known own active (wrong, wrongs) =
      let step = wrong_guess s u g valid known own active wrong in
      let here = count_attempt-After s u g valid known own wrong in
      let there =
        run_guesses (count_attempt s u g.1) here.now_is gs (count_attempt-Valid s u g.1 valid)
          here.known (λ e. own (sym here.same.id ∙ e)) (here.same.active ∙ active)
          (All-IsWrong here.now_is u gs here.same wrongs) in
      rw step (record {
        now_is = there.now_is;
        known = there.known;
        same = SameCode-trans there.now_is here.now_is u there.same here.same;
        counted =
            Counted-trans here.now_is there.now_is u (length gs) there.same here.counted
              there.counted;
      })

  -- Guessing at a one-time code is bounded, if the store accepts every merging write of a user:
  -- after five wrong guesses in a row under the name of an active account that is stored under an id
  -- of its own, made before the code runs out, the code is not live at any time, so that even the
  -- right code is refused from then on.
  pub otp_guesses_bounded :
      (s : S) (u v : Item) (gs : List Guess) (t : ℕ)
      → laws.Valid s
      → st.find_user s name ≡ some u
      → u.id ≢ u64_max
      → safe_bool u "role_is_active" false ≡ true
      → All (IsWrong u) gs
      → otp_max_attempts ≤ length gs
      → st.find_user (guess_all s gs) name ≡ some v
      → otp_is_live v t ≡ false
  otp_guesses_bounded s u v gs t valid known own active wrongs enough found_v =
      let after = run_guesses s u gs valid known own active wrongs in
      let e : after.now_is ≡ v = (let k = after.known in cc (k, found_v)) in
      rw (← e) (
        Counted-not_live after.now_is (safe_u64 u "otp_attempts" 0 + length gs) t (omega arith)
          after.counted)
