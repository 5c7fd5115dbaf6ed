-- ===== src/Server/Login/Register.antt =====
-- src/server/login.rs: `register`, once the body is read, and `taken_ignoring_case` of
-- src/server/user_control.rs.
pub mod Free
use isabelle_core.Prelude.{
  if◌then◌else◌, Bool-cases, ◌==◌, nat_Eq, string_Eq, any, is_empty, append, Casing, to_lowercase,
  to_lowercase, String, ◌≡◌, refl, ap, ◌∙◌, ◌⊎◌, inl, inr, Bool, true, false, ◌&&◌, ◌||◌, not,
  Option, none, some, [], ◌∷◌, arith,
}
use isabelle_core.Item.{Item, ItemApi, new, safe_str, set_str, set_bool}
use isabelle_core.State.Store.{Store}
use isabelle_core.State.RouteCache.{RouteCache}
use isabelle_core.Server.Hooks.{PostEditApi}
use isabelle_core.Server.UserControl.{
  login_is_acceptable, login_is_registrable, email_is_registrable, exact_ignoring_case,
  RegistrationTarget, create, resume, taken, registration_target, get_user,
}
use isabelle_core.Server.SignIn.{registration_open, email_domain_blocked, announce_new_user}

pub record Registration : Type 0 where
  pub login : String
  pub email : String
  pub dry : String

-- `{ "strs.login": { "$regex": "...", "$options": "i" } }`
abbrev regex_on : String → String → String
regex_on field pattern =
    append "{ \"strs."
      (append field (append "\": { \"$regex\": \"" (append pattern "\", \"$options\": \"i\" } }")))

abbrev pub taken_filter : String → String → String
taken_filter l e = append "{ \"$or\": [ " (
    append (regex_on "login" l) (
      append ", " (
        append (regex_on "email" l) (
          append ", "
            (append (regex_on "login" e) (append ", " (append (regex_on "email" e) " ] }")))))))

-- Is one of the account's names one of these, in any case?
unfoldable pub answers_to : ⦃api : ItemApi⦄ ⦃c : Casing⦄ → String → String → Item → Bool
answers_to login email u =
    any (λ t. not (is_empty t) && (t == to_lowercase login || t == to_lowercase email))
      (to_lowercase (safe_str u "login" "") ∷ to_lowercase (safe_str u "email" "") ∷ [])

module _ ⦃api : ItemApi⦄ ⦃c : Casing⦄ {S : Type 0} ⦃st : Store S⦄ where
  unfoldable pub taken_ignoring_case : S → String → String → Bool
  unfolding answers_to
  taken_ignoring_case s login email =
      any (λ e. answers_to login email e.1)
        (st.get_all_items s "user" "id"
          (taken_filter (exact_ignoring_case login) (exact_ignoring_case email))).map

-- The record that a registration makes.
abbrev pub account_of : ⦃api : ItemApi⦄ → Registration → Item
account_of r =
    set_bool
      (set_bool (set_str (set_str (set_str new "name" r.login) "login" r.login) "email" r.email)
        "self_registered" true)
      "role_is_active" true

module _ ⦃api : ItemApi⦄ ⦃c : Casing⦄ {S : Type 0} ⦃st : Store S⦄ ⦃hooks : PostEditApi S⦄ where
  unfoldable pub create_account : S → RouteCache → Registration → S
  create_account s cache r =
      let stored = st.set_item s "user" (account_of r) false in
      announce_new_user stored.0 cache stored.1

  -- What is left once the names are in order and registration is open. The answer is whether it
  -- succeeded.
  unfoldable pub register_as : S → RouteCache → Registration → RegistrationTarget → S × Bool
  unfolding create_account
  register_as s cache r taken = (s, false)
  register_as s cache r (resume id) = (s, true)
  register_as s cache r create =
      if taken_ignoring_case s r.login r.email
      then (s, false)
      else if r.dry == "true"
      then (s, true)
      else (create_account s cache r, true)

  unfoldable pub register : S → RouteCache → Registration → S × Bool
  unfolding register_as
  register s cache r =
      if not (login_is_acceptable r.login) || not (login_is_acceptable r.email)
      then (s, false)
      else if not (login_is_registrable r.login)
      then (s, false)
      else if not (email_is_registrable r.email)
      then (s, false)
      else if not (registration_open s)
      then (s, false)
      else if email_domain_blocked s r.email
      then (s, false)
      else register_as s cache r (registration_target (get_user s r.login) (get_user s r.email))
