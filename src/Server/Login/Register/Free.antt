-- ===== src/Server/Login/Register/Free.antt =====
-- src/server/login.rs: what a registration comes to, said without its own helpers.
use isabelle_core.Prelude.{
  if◌then◌else◌, Bool-cases, ◌==◌, nat_Eq, string_Eq, u64_max, any, Map, insert, is_empty, Casing,
  to_lowercase, to_lowercase, All, ℕ, String, ◌≡◌, refl, sym, ap, ◌∙◌, subst, ◌≢◌, ◌↔◌, ◌⊎◌, inl,
  inr, Bool, true, false, ◌&&◌, ◌||◌, not, Option, none, some, [], ◌∷◌, arith,
}
use isabelle_core.Item.{Item, ItemApi, safe_str, set_str, set_bool}
use isabelle_core.State.Store.{Store}
use isabelle_core.State.RouteCache.{RouteCache, post_edit_hooks}
use isabelle_core.Server.Hooks.{PostEditApi, post_edit_all, create as create_action}
use isabelle_core.Server.UserControl.{
  login_is_acceptable, login_is_registrable, email_is_registrable, exact_ignoring_case,
  RegistrationTarget, create, resume, taken, registration_target, get_user,
}
use isabelle_core.Server.SignIn.{registration_open, email_domain_blocked, announce_new_user}
use isabelle_core.Server.Login.Register.{
  Registration, taken_filter, answers_to, taken_ignoring_case, account_of, create_account,
  register_as, register,
}

-- The name is neither of those asked for, in any case. Nobody answers to an empty name.
abbrev pub IsOther : ⦃c : Casing⦄ → Registration → String → Type 0
IsOther r name =
    (is_empty (to_lowercase name) ≡ true)
    ⊎ ((to_lowercase name ≢ to_lowercase r.login) × (to_lowercase name ≢ to_lowercase r.email))

abbrev pub IsSomebodyElse : ⦃api : ItemApi⦄ ⦃c : Casing⦄ → Registration → Item → Type 0
IsSomebodyElse r u = IsOther r (safe_str u "login" "") × IsOther r (safe_str u "email" "")

-- May somebody have the account that they ask for? The accounts that count are those that the store
-- answers when it is asked for these names in any case.
pub record IsFree ⦃api : ItemApi⦄ ⦃c : Casing⦄ {S : Type 0} ⦃st : Store S⦄ (s : S)
    (r : Registration) : Type 0 where
  pub is_login : login_is_acceptable r.login ≡ true
  pub is_email : login_is_acceptable r.email ≡ true
  pub is_new_login : login_is_registrable r.login ≡ true
  pub is_new_email : email_is_registrable r.email ≡ true
  pub is_open : registration_open s ≡ true
  pub is_not_blocked : email_domain_blocked s r.email ≡ false
  pub has_no_login : get_user s r.login ≡ none
  pub has_no_email : get_user s r.email ≡ none
  pub others :
      All
        (λ e. IsSomebodyElse r e.1)
        (st.get_all_items s "user" "id"
          (taken_filter (exact_ignoring_case r.login) (exact_ignoring_case r.email))).map

-- The account: an active one, without a role or a password.
abbrev pub asked_for : Registration → Item
asked_for r = record {
  id = u64_max;
  strs = ("name", r.login) ∷ ("login", r.login) ∷ ("email", r.email) ∷ [];
  strstrs = [];
  strids = [];
  bools = ("self_registered", true) ∷ ("role_is_active", true) ∷ [];
  u64s = [];
  ids = [];
}

-- The store once a record was written, with the hooks told of it, unless the write was refused.
abbrev pub announced : {S : Type 0} ⦃hooks : PostEditApi S⦄ → RouteCache → S × ℕ → S
announced cache stored =
    if stored.1 == u64_max
    then stored.0
    else post_edit_all stored.0 (post_edit_hooks cache "user") "user" none stored.1 create_action

str_step :
    ⦃api : ItemApi⦄ {i : Item} (j : Item) (k v : String)
    → i ≡ j
    → set_str i k v ≡ record j { strs = insert k v j.strs }
str_step ⦃api⦄ j k v e = ap (λ x. set_str x k v) e ∙ api.set_str_lem j k v

bool_step :
    ⦃api : ItemApi⦄ {i : Item} (j : Item) (k : String) (v : Bool)
    → i ≡ j
    → set_bool i k v ≡ record j { bools = insert k v j.bools }
bool_step ⦃api⦄ j k v e = ap (λ x. set_bool x k v) e ∙ api.set_bool_lem j k v

account_of-asked_for : ⦃api : ItemApi⦄ (r : Registration) → account_of r ≡ asked_for r
unfolding insert
account_of-asked_for ⦃api⦄ r = bool_step _ "role_is_active" true (
    bool_step _ "self_registered" true (
      str_step _ "email" r.email
        (str_step _ "login" r.login (str_step _ "name" r.login api.new_lem))))

registration_target-create :
    ⦃api : ItemApi⦄ (a b : Option Item) → registration_target a b ≡ create → (a ≡ none) × (b ≡ none)
unfolding registration_target
registration_target-create none none e = (refl, refl)
registration_target-create none (some v) e = cc e
registration_target-create (some u) none e = cc e
registration_target-create (some u) (some v) e = absurd (ground arith)

is_other_iff :
    ⦃c : Casing⦄ (r : Registration) (t : String)
    → ((not (is_empty t) && (t == to_lowercase r.login || t == to_lowercase r.email)) ≡ false)
      ↔ ((is_empty t ≡ true) ⊎ ((t ≢ to_lowercase r.login) × (t ≢ to_lowercase r.email)))
is_other_iff r t = elim (Bool-cases (is_empty t)) [
  | inl nothing ↦ (λ h. inl nothing, λ h. rw nothing refl)
  | inr full ↦ (
    λ h. inr (
      λ e. absurd (ground (arith, (string_Eq.beq_iff t (to_lowercase r.login)).1 e)),
      λ e. absurd (ground (arith, (string_Eq.beq_iff t (to_lowercase r.email)).1 e)),
    ),
    λ h. elim h [
      | inl nothing ↦ absurd (ground arith)
      | inr (a, b) ↦ elim (Bool-cases (t == to_lowercase r.login)) [
        | inl same ↦ absurd (a ((string_Eq.beq_iff t (to_lowercase r.login)).0 same))
        | inr x ↦ elim (Bool-cases (t == to_lowercase r.email)) [
          | inl same ↦ absurd (b ((string_Eq.beq_iff t (to_lowercase r.email)).0 same))
          | inr y ↦ rw (full, x, y) refl
        ]
      ]
    ],
  )
]

module _ ⦃api : ItemApi⦄ ⦃c : Casing⦄ where
  answers_to_iff :
      (r : Registration) (u : Item) → (answers_to r.login r.email u ≡ false) ↔ IsSomebodyElse r u
  unfolding answers_to
  answers_to_iff r u =
      let by_login = is_other_iff r (to_lowercase (safe_str u "login" "")) in
      let by_email = is_other_iff r (to_lowercase (safe_str u "email" "")) in
      (
        λ h. (by_login.0 (ground arith), by_email.0 (ground arith)),
        λ h. rw (by_login.1 h.0, by_email.1 h.1) refl,
      )

  nobody_iff :
      (r : Registration) (m : Map ℕ Item)
      → (any (λ e. answers_to r.login r.email e.1) m ≡ false) ↔ All (λ e. IsSomebodyElse r e.1) m
  nobody_iff r [] = (λ h. tt, λ h. refl)
  nobody_iff r ((id, u) ∷ m) =
      let here = answers_to_iff r u in
      let there = nobody_iff r m in
      (λ h. (here.0 (ground arith), there.0 (ground arith)), λ h. rw (here.1 h.0, there.1 h.1) refl)

module _ ⦃api : ItemApi⦄ ⦃c : Casing⦄ {S : Type 0} ⦃st : Store S⦄ ⦃hooks : PostEditApi S⦄ where
  abbrev passes : S → Registration → Bool
  passes s r =
      not (not (login_is_acceptable r.login) || not (login_is_acceptable r.email))
      && login_is_registrable r.login
      && email_is_registrable r.email
      && registration_open s
      && not (email_domain_blocked s r.email)

  register-passes :
      (s : S) (cache : RouteCache) (r : Registration)
      → register s cache r ≡ (
          if passes s r
          then register_as s cache r (registration_target (get_user s r.login) (get_user s r.email))
          else (s, false))
  unfolding register
  register-passes s cache r = ground arith

  -- What registering comes to: the account that was asked for is written and announced; a dry run
  -- of the same is answered as done; or the names are not free and nothing is written.
  abbrev pub Outcome : S → RouteCache → Registration → S × Bool → Type 0
  Outcome s cache r after =
      (IsFree s r
        × ((r.dry == "true") ≡ false)
        × (after ≡ (announced cache (st.set_item s "user" (asked_for r) false), true)))
      ⊎ ((IsFree s r × ((r.dry == "true") ≡ true) × (after ≡ (s, true)))
          ⊎ ((¬ IsFree s r) × (after.0 ≡ s)))

  create_account-announced :
      (s : S) (cache : RouteCache) (r : Registration)
      → create_account s cache r ≡ announced cache (st.set_item s "user" (asked_for r) false)
  unfolding create_account announce_new_user
  create_account-announced s cache r =
      ap (λ u. announced cache (st.set_item s "user" u false)) (account_of-asked_for r)

  -- Of the targets, only the one to create is for free names.
  registration_target-free :
      (s : S) (r : Registration)
      → IsFree s r
      → registration_target (get_user s r.login) (get_user s r.email) ≡ create
  unfolding registration_target
  registration_target-free s r free = rw (free.has_no_login, free.has_no_email) refl

  register_as-Outcome :
      (s : S) (cache : RouteCache) (r : Registration) (t : RegistrationTarget)
      → passes s r ≡ true
      → registration_target (get_user s r.login) (get_user s r.email) ≡ t
      → Outcome s cache r (register_as s cache r t)
  unfolding register_as taken_ignoring_case
  register_as-Outcome s cache r taken ok e =
      inr (inr (λ free. cc (registration_target-free s r free, e), refl))
  register_as-Outcome s cache r (resume id) ok e =
      inr (inr (λ free. cc (registration_target-free s r free, e), refl))
  register_as-Outcome s cache r create ok e =
      let found =
        (st.get_all_items s "user" "id"
          (taken_filter (exact_ignoring_case r.login) (exact_ignoring_case r.email))).map in
      elim (Bool-cases (any (λ e. answers_to r.login r.email e.1) found)) [
        | inl used ↦
            inr (inr (λ free. absurd (cc (used, (nobody_iff r found).1 free.others)), rw used refl))
        | inr nobody ↦
            let (no_login, no_email) =
              registration_target-create (get_user s r.login) (get_user s r.email) e in
            let free : IsFree s r = record {
              is_login = ground arith;
              is_email = ground arith;
              is_new_login = ground arith;
              is_new_email = ground arith;
              is_open = ground arith;
              is_not_blocked = ground arith;
              has_no_login = no_login;
              has_no_email = no_email;
              others = (nobody_iff r found).0 nobody;
            } in
            elim (Bool-cases (r.dry == "true")) [
              | inl dry ↦ inr (inl (free, dry, rw (nobody, dry) refl))
              | inr wet ↦ inl (
                free,
                wet,
                rw (nobody, wet) (ap (λ x. (x, true)) (create_account-announced s cache r)),
              )
            ]
      ]

  pub register-Outcome :
      (s : S) (cache : RouteCache) (r : Registration) → Outcome s cache r (register s cache r)
  register-Outcome s cache r =
      let target = registration_target (get_user s r.login) (get_user s r.email) in
      elim (Bool-cases (passes s r)) [
        | inl ok ↦
            subst (λ x. Outcome s cache r x) (sym (register-passes s cache r ∙ rw ok refl))
              (register_as-Outcome s cache r target ok refl)
        | inr fails ↦
            let nothing : register s cache r ≡ (s, false) =
              register-passes s cache r ∙ rw fails refl in
            inr (
              inr (
                λ free. absurd (
                    ground (
                      arith, free.is_login, free.is_email, free.is_new_login, free.is_new_email,
                      free.is_open, free.is_not_blocked,
                    )),
                ap (λ x. x.0) nothing,
              ))
      ]
