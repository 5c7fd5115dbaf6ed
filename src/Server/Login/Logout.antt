-- ===== src/Server/Login/Logout.antt =====
-- src/server/login.rs: signing out ends every session of the account.
use isabelle_core.Prelude.{
  nat_Eq, string_Eq, u64_max, saturating_add, ℕ, ◌≤◌, ◌<◌, String, ◌≡◌, sym, ◌∙◌, ◌≢◌, true, false,
  Option, some, get_or, arith,
}
use isabelle_core.Item.{Item, ItemApi, new}
use isabelle_core.Item.Merging.{number_patch, id-number_patch, strs-number_patch}
use isabelle_core.State.Store.{Store, StoreLaws, overlay, at_id, unavailable}
use isabelle_core.Server.Guards.{cleared, enforce_session_generation}
use isabelle_core.Server.UserControl.{
  get_user, bump_session_generation, session_generation, login_has_bad_symbols,
}
use isabelle_core.Server.UserControl.Sessions.{enforce_found, generation-stored}
use isabelle_core.Server.Login.{logout}

module _ ⦃api : ItemApi⦄ {S : Type 0} ⦃st : Store S⦄ (laws : StoreLaws S) where
  bumped_user :
      (s : S) (principal : String) (u : Item)
      → laws.Valid s
      → st.find_user s principal ≡ some u
      → u.id ≢ u64_max
      → ((itm : Item) → itm.id ≢ u64_max → (st.set_item s "user" itm true).1 ≢ u64_max)
      → st.find_user (bump_session_generation s u) principal
        ≡ some (
            at_id
              (overlay
                (some u)
                (number_patch u u.id (saturating_add (session_generation u) 1) "session_gen")
                true)
              u.id)
  unfolding bump_session_generation
  bumped_user s principal u valid known own accepting =
      let n = saturating_add (session_generation u) 1 in
      let e = id-number_patch u u.id n "session_gen" in
      laws.find_user-set_item s principal u (number_patch u u.id n "session_gen") true valid known e
        (λ h. own (sym e ∙ h))
        (accepting (number_patch u u.id n "session_gen") (λ h. own (sym e ∙ h)))
        (
          strs-number_patch u u.id n "session_gen" "login",
          strs-number_patch u u.id n "session_gen" "email",
        )

  logout_known :
      (s : S) (principal : String) (u : Item) (stamp : Option ℕ)
      → get_user s principal ≡ some u
      → (logout s (record { identity = some principal; sgen = stamp })).0
        ≡ bump_session_generation s u
  unfolding logout
  logout_known s principal u stamp known = rw known

  -- Signing out of one session ends every session of the account, copies of the cookie included: the
  -- guard empties each that carries a stamp up to the generation at the time, or none.
  pub logout_ends_sessions :
      (s : S) (principal : String) (u : Item) (mine theirs : Option ℕ)
      → laws.Valid s
      → login_has_bad_symbols principal ≡ false
      → st.find_user s principal ≡ some u
      → u.id ≢ u64_max
      → ((itm : Item) → itm.id ≢ u64_max → (st.set_item s "user" itm true).1 ≢ u64_max)
      → session_generation u < u64_max
      → get_or theirs 0 ≤ session_generation u
      → st.find_user_checked
          (logout s (record { identity = some principal; sgen = mine })).0
          principal
        ≢ unavailable
      → enforce_session_generation
          (some (logout s (record { identity = some principal; sgen = mine })).0)
          (record { identity = some principal; sgen = theirs })
        ≡ cleared
  logout_ends_sessions s principal u mine theirs valid plain known own accepting room old up =
      let n = saturating_add (session_generation u) 1 in
      let found : get_user s principal ≡ some u = unfold get_user in rw (plain, known) in
      let out = logout_known s principal u mine found in
      let after = (logout s (record { identity = some principal; sgen = mine })).0 in
      enforce_found laws after principal
        (at_id (overlay (some u) (number_patch u u.id n "session_gen") true) u.id) theirs plain
        (rw out (bumped_user s principal u valid known own accepting)) up
      ∙ rw (generation-stored u (record new { id = u.id }) true n u.id) (ground arith)
