-- ===== src/Server/UserControl/Sessions.antt =====
-- src/server/user_control.rs: a change of password or of roles ends the sessions of an account.
use isabelle_core.Prelude.{
  if◌then◌else◌, nat_eq_iff, ◌==◌, nat_Eq, string_Eq, u64_max, saturating_add, lookup,
  lookup-insert, ℕ, ◌≤◌, ◌<◌, String, ◌≡◌, sym, ap, ◌∙◌, ◌≢◌, inl, inr, Bool, true, false, Option,
  none, some, get_or, arith,
}
use isabelle_core.Item.{Item, ItemApi, set_u64, merge}
use isabelle_core.State.Store.{
  Store, StoreLaws, SameNames, found, unavailable, checked, overlay, at_id,
}
use isabelle_core.State.CoreTask.{db_set_item, revocable}
use isabelle_core.Server.Guards.{cleared, is_stale, enforce_session_generation}
use isabelle_core.Server.UserControl.{
  apply_session_revocation, write_invalidates_sessions, session_generation, role_prefix_of,
  login_has_bad_symbols, lookup_user,
}

module _ ⦃api : ItemApi⦄ where
  pub generation-stored :
      (u itm : Item) (merging : Bool) (g id : ℕ)
      → session_generation (at_id (overlay (some u) (set_u64 itm "session_gen" g) merging) id) ≡ g
  unfolding session_generation
  generation-stored u itm true g id =
      rw (api.safe_u64_lem, api.u64s-merge, api.set_u64_lem, lookup-insert)
  generation-stored u itm false g id = rw (api.safe_u64_lem, api.set_u64_lem, lookup-insert)

  SameNames-set_u64 :
      (u itm : Item) (merging : Bool) (k : String) (n : ℕ)
      → SameNames (overlay (some u) itm merging) u
      → SameNames (overlay (some u) (set_u64 itm k n) merging) u
  SameNames-set_u64 u itm true k n (login, email) = (
    simp (api.strs-merge, api.set_u64_lem) (rw api.strs-merge at login),
    simp (api.strs-merge, api.set_u64_lem) (rw api.strs-merge at email),
  )
  SameNames-set_u64 u itm false k n h = rw api.set_u64_lem h

module _ ⦃api : ItemApi⦄ where
  generation-merge :
      (u itm : Item) (id : ℕ)
      → lookup "session_gen" itm.u64s ≡ none
      → session_generation (at_id (merge u itm) id) ≡ session_generation u
  unfolding session_generation
  generation-merge u itm id silent = simp (api.safe_u64_lem, api.u64s-merge, silent)

  generation_absent :
      (itm : Item) → lookup "session_gen" itm.u64s ≡ none → session_generation itm ≡ 0
  unfolding session_generation
  generation_absent itm silent = rw (api.safe_u64_lem, silent)

module _ ⦃api : ItemApi⦄ {S : Type 0} ⦃st : Store S⦄ (laws : StoreLaws S) where
  answered :
      (s : S) (login : String) (u : Item)
      → st.find_user s login ≡ some u
      → st.find_user_checked s login ≢ unavailable
      → st.find_user_checked s login ≡ found u
  answered s login u known up = elim (laws.find_user_checked_lem s login) [
    | inl down ↦ absurd (up down)
    | inr e ↦ e ∙ (unfold checked in rw known)
  ]

  -- What the guard decides once the store has answered with the account's record.
  pub enforce_found :
      (s : S) (login : String) (u : Item) (stamp : Option ℕ)
      → login_has_bad_symbols login ≡ false
      → st.find_user s login ≡ some u
      → st.find_user_checked s login ≢ unavailable
      → enforce_session_generation (some s) (record { identity = some login; sgen = stamp }) ≡ (
          if get_or stamp 0 == session_generation u
          then record { identity = some login; sgen = stamp }
          else cleared)
  unfolding enforce_session_generation lookup_user is_stale
  enforce_found s login u stamp plain known up =
      rw (plain, answered s login u known up)
        (ground (arith, nat_eq_iff (get_or stamp 0) (session_generation u)))

  own_record :
      (s : S) (login : String) (u itm : Item)
      → laws.Valid s
      → st.find_user s login ≡ some u
      → itm.id ≡ u.id
      → itm.id ≢ u64_max
      → revocable s "user" itm.id ≡ some u
  unfolding revocable
  own_record s login u itm valid known same own =
      let there : st.get_item s "user" itm.id ≡ some u =
        rw same (laws.get_item-find_user s login u valid known) in
      ground arith

  revoking_write :
      (s : S) (login : String) (u itm : Item) (merging : Bool)
      → laws.Valid s
      → st.find_user s login ≡ some u
      → itm.id ≡ u.id
      → itm.id ≢ u64_max
      → write_invalidates_sessions (some u) itm merging (role_prefix_of s) ≡ true
      → db_set_item s "user" itm merging
        ≡ st.set_item s "user"
            (set_u64 itm "session_gen" (saturating_add (session_generation u) 1))
            merging
  unfolding apply_session_revocation db_set_item
  revoking_write s login u itm merging valid known same own revoked =
      let old : revocable s "user" itm.id ≡ some u =
        own_record s login u itm valid known same own in
      rw (db_set_item, old, revoked)

  id-set_u64 : (itm : Item) (k : String) (n : ℕ) → (set_u64 itm k n).id ≡ itm.id
  id-set_u64 itm k n = rw api.set_u64_lem

  -- The account's record after a write that ends its sessions.
  stored_user :
      (s : S) (login : String) (u itm : Item) (merging : Bool)
      → laws.Valid s
      → st.find_user s login ≡ some u
      → itm.id ≡ u.id
      → itm.id ≢ u64_max
      → (db_set_item s "user" itm merging).1 ≢ u64_max
      → write_invalidates_sessions (some u) itm merging (role_prefix_of s) ≡ true
      → SameNames (overlay (some u) itm merging) u
      → st.find_user (db_set_item s "user" itm merging).0 login
        ≡ some (
            at_id
              (overlay
                (some u)
                (set_u64 itm "session_gen" (saturating_add (session_generation u) 1))
                merging)
              u.id)
  stored_user s login u itm merging valid known same own accepted revoked names =
      let g = saturating_add (session_generation u) 1 in
      let step = revoking_write s login u itm merging valid known same own revoked in
      rw step (
        laws.find_user-set_item s login u (set_u64 itm "session_gen" g) merging valid known
          (id-set_u64 itm "session_gen" g ∙ same)
          (λ e. own (sym (id-set_u64 itm "session_gen" g) ∙ e))
          (λ e. accepted (ap (λ (r : S × ℕ). r.1) step ∙ e))
          (SameNames-set_u64 u itm merging "session_gen" g names))

  -- A write that changes the password or a role of an account ends its sessions: once the store has
  -- accepted it, the guard empties every session of the account that carries a stamp up to the
  -- generation before the write, or none. The write keeps the login and the e-mail address, the
  -- generation is below its maximum, and the store can be asked.
  pub revoking_write_ends_sessions :
      (s : S) (login : String) (u itm : Item) (merging : Bool) (stamp : Option ℕ)
      → laws.Valid s
      → login_has_bad_symbols login ≡ false
      → st.find_user s login ≡ some u
      → itm.id ≡ u.id
      → itm.id ≢ u64_max
      → (db_set_item s "user" itm merging).1 ≢ u64_max
      → write_invalidates_sessions (some u) itm merging (role_prefix_of s) ≡ true
      → SameNames (overlay (some u) itm merging) u
      → session_generation u < u64_max
      → get_or stamp 0 ≤ session_generation u
      → st.find_user_checked (db_set_item s "user" itm merging).0 login ≢ unavailable
      → enforce_session_generation
          (some (db_set_item s "user" itm merging).0)
          (record { identity = some login; sgen = stamp })
        ≡ cleared
  revoking_write_ends_sessions s login u itm merging stamp valid plain known same own accepted
        revoked names room old up =
      let g = saturating_add (session_generation u) 1 in
      enforce_found (db_set_item s "user" itm merging).0 login
        (at_id (overlay (some u) (set_u64 itm "session_gen" g) merging) u.id) stamp plain
        (stored_user s login u itm merging valid known same own accepted revoked names) up
      ∙ rw generation-stored (ground arith)

  -- A write that ends no session is stored as it was sent.
  plain_write :
      (s : S) (login : String) (u itm : Item) (merging : Bool)
      → laws.Valid s
      → st.find_user s login ≡ some u
      → itm.id ≡ u.id
      → itm.id ≢ u64_max
      → write_invalidates_sessions (some u) itm merging (role_prefix_of s) ≡ false
      → db_set_item s "user" itm merging ≡ st.set_item s "user" itm merging
  unfolding apply_session_revocation db_set_item
  plain_write s login u itm merging valid known same own kept =
      let old : revocable s "user" itm.id ≡ some u =
        own_record s login u itm valid known same own in
      rw (db_set_item, old, kept)

  stored_plainly :
      (s : S) (login : String) (u itm : Item) (merging : Bool)
      → laws.Valid s
      → st.find_user s login ≡ some u
      → itm.id ≡ u.id
      → itm.id ≢ u64_max
      → (db_set_item s "user" itm merging).1 ≢ u64_max
      → write_invalidates_sessions (some u) itm merging (role_prefix_of s) ≡ false
      → SameNames (overlay (some u) itm merging) u
      → st.find_user (db_set_item s "user" itm merging).0 login
        ≡ some (at_id (overlay (some u) itm merging) u.id)
  stored_plainly s login u itm merging valid known same own accepted kept names =
      let step = plain_write s login u itm merging valid known same own kept in
      rw step (
        laws.find_user-set_item s login u itm merging valid known same own
          (λ e. accepted (ap (λ (r : S × ℕ). r.1) step ∙ e)) names)

  -- A merging write that changes neither the password nor a role, and carries no generation, leaves
  -- the account's sessions as they are: the guard decides of each what it decided before.
  pub merging_write_keeps_sessions :
      (s : S) (login : String) (u itm : Item) (stamp : Option ℕ)
      → laws.Valid s
      → login_has_bad_symbols login ≡ false
      → st.find_user s login ≡ some u
      → itm.id ≡ u.id
      → itm.id ≢ u64_max
      → (db_set_item s "user" itm true).1 ≢ u64_max
      → write_invalidates_sessions (some u) itm true (role_prefix_of s) ≡ false
      → SameNames (overlay (some u) itm true) u
      → lookup "session_gen" itm.u64s ≡ none
      → st.find_user_checked s login ≢ unavailable
      → st.find_user_checked (db_set_item s "user" itm true).0 login ≢ unavailable
      → enforce_session_generation
          (some (db_set_item s "user" itm true).0)
          (record { identity = some login; sgen = stamp })
        ≡ enforce_session_generation (some s) (record { identity = some login; sgen = stamp })
  merging_write_keeps_sessions s login u itm stamp valid plain known same own accepted kept names
        silent up up' =
      enforce_found (db_set_item s "user" itm true).0 login (at_id (merge u itm) u.id) stamp plain
        (stored_plainly s login u itm true valid known same own accepted kept names) up'
      ∙ rw (generation-merge u itm u.id silent) (sym (enforce_found s login u stamp plain known up))

  -- A write that replaces the record, changes neither the password nor a role and carries no
  -- generation sets the generation back to 0: the guard lets a session stamped 0, or not at all,
  -- pass again, though before the write, at a generation above 0, it emptied that session.
  pub replacing_write_revives_sessions :
      (s : S) (login : String) (u itm : Item) (stamp : Option ℕ)
      → laws.Valid s
      → login_has_bad_symbols login ≡ false
      → st.find_user s login ≡ some u
      → itm.id ≡ u.id
      → itm.id ≢ u64_max
      → (db_set_item s "user" itm false).1 ≢ u64_max
      → write_invalidates_sessions (some u) itm false (role_prefix_of s) ≡ false
      → SameNames itm u
      → lookup "session_gen" itm.u64s ≡ none
      → 0 < session_generation u
      → get_or stamp 0 ≡ 0
      → st.find_user_checked s login ≢ unavailable
      → st.find_user_checked (db_set_item s "user" itm false).0 login ≢ unavailable
      → (enforce_session_generation (some s) (record { identity = some login; sgen = stamp })
          ≡ cleared)
        × (enforce_session_generation
              (some (db_set_item s "user" itm false).0)
              (record { identity = some login; sgen = stamp })
            ≡ record { identity = some login; sgen = stamp })
  replacing_write_revives_sessions s login u itm stamp valid plain known same own accepted kept
        names silent moved old up up' =
      (
        enforce_found s login u stamp plain known up ∙ ground arith,
        enforce_found (db_set_item s "user" itm false).0 login (at_id itm u.id) stamp plain
              (stored_plainly s login u itm false valid known same own accepted kept names) up'
            ∙ rw (generation_absent (at_id itm u.id) silent, old),
      )
