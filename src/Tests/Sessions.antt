-- ===== src/Tests/Sessions.antt =====
-- Runs of signing out and of writes that end sessions.
use isabelle_core.Prelude.{
  nat_Eq, string_Eq, u64_max, lookup, insert, any_char, ◌≡◌, refl, ◌≢◌, true, false, none, some, [],
  ◌∷◌, arith,
}
use isabelle_core.Item.{Item}
use isabelle_core.State.Store.{unavailable, overlay, SameNames}
use isabelle_core.State.CoreTask.{db_set_item, revocable}
use isabelle_core.State.StoreMemory.{peek, get_item, set_item, find_user, find_user_checked, memory}
use isabelle_core.State.StoreMemory.Users.{memory_laws}
use isabelle_core.Server.UserControl.{
  role_changes, password_changes, role_dropped, is_role_key, bump_session_generation,
  login_has_bad_symbols, get_user, write_invalidates_sessions, role_prefix_of, session_generation,
  apply_session_revocation,
}
use isabelle_core.Server.UserControl.Sessions.{
  revoking_write_ends_sessions, replacing_write_revives_sessions,
}
use isabelle_core.Server.Guards.{cleared, enforce_session_generation}
use isabelle_core.Server.Login.{logout}
use isabelle_core.Server.Login.Logout.{logout_ends_sessions}
use isabelle_core.Tests.Fixtures.{
  items, caseless, hashes, users, users-WellFormed, users-alice, reachable, accepting, alice, blank,
}
use isabelle_core.Tests.Accounts.{plain, alice_generation}

own_id : alice.id ≢ u64_max
own_id = λ e. omega (arith, e)

logout_reachable :
    find_user_checked (logout users (record { identity = some "alice"; sgen = some 1 })).0 "alice"
    ≢ unavailable
unfolding logout get_user login_has_bad_symbols any_char find_user lookup set_item insert
    bump_session_generation
logout_reachable =
    reachable (logout users (record { identity = some "alice"; sgen = some 1 })).0 "alice" refl

logout_ends_sessions_example :
    enforce_session_generation
      (some (logout users (record { identity = some "alice"; sgen = some 1 })).0)
      (record { identity = some "alice"; sgen = some 2 })
    ≡ cleared
unfolding memory_laws
logout_ends_sessions_example =
    logout_ends_sessions memory_laws users "alice" alice (some 1) (some 2) users-WellFormed plain
      users-alice own_id (λ itm. accepting users itm true) (rw alice_generation (omega arith))
      (rw alice_generation (omega arith)) logout_reachable

-- A write of another password ends Alice's sessions.
abbrev new_password : Item
new_password = record blank { id = 3; strs = ("password", "h:new") ∷ [] }

new_password_revokes :
    write_invalidates_sessions (some alice) new_password true (role_prefix_of users) ≡ true
unfolding write_invalidates_sessions lookup
new_password_revokes = refl

same_names : SameNames (overlay (some alice) new_password true) alice
unfolding lookup insert
same_names = (refl, refl)

new_password_id : (db_set_item users "user" new_password true).1 ≡ 3
unfolding db_set_item set_item insert lookup apply_session_revocation write_invalidates_sessions
    revocable get_item peek role_changes password_changes role_dropped is_role_key role_prefix_of
    session_generation
new_password_id = refl

new_password_stored : (db_set_item users "user" new_password true).1 ≢ u64_max
new_password_stored e = omega (arith, new_password_id)

new_password_reachable :
    find_user_checked (db_set_item users "user" new_password true).0 "alice" ≢ unavailable
unfolding db_set_item set_item
new_password_reachable = reachable (db_set_item users "user" new_password true).0 "alice" refl

revoking_write_ends_sessions_example :
    enforce_session_generation
      (some (db_set_item users "user" new_password true).0)
      (record { identity = some "alice"; sgen = some 2 })
    ≡ cleared
unfolding memory_laws
revoking_write_ends_sessions_example =
    revoking_write_ends_sessions memory_laws users "alice" alice new_password true (some 2)
      users-WellFormed plain users-alice refl own_id new_password_stored new_password_revokes
      same_names (rw alice_generation (omega arith)) (rw alice_generation (omega arith))
      new_password_reachable

-- A merging write of a note, and a replacing write of the account without its generation.
abbrev note : Item
note = record blank { id = 3; strs = ("note", "hello") ∷ [] }

note_keeps : write_invalidates_sessions (some alice) note true (role_prefix_of users) ≡ false
unfolding write_invalidates_sessions lookup role_changes password_changes
note_keeps = refl

note_names : SameNames (overlay (some alice) note true) alice
unfolding lookup insert
note_names = (refl, refl)

note_id : (db_set_item users "user" note true).1 ≡ 3
unfolding db_set_item set_item insert lookup apply_session_revocation write_invalidates_sessions
    revocable get_item peek role_changes password_changes role_dropped is_role_key role_prefix_of
    session_generation
note_id = refl

note_stored : (db_set_item users "user" note true).1 ≢ u64_max
note_stored e = omega (arith, note_id)

note_reachable : find_user_checked (db_set_item users "user" note true).0 "alice" ≢ unavailable
unfolding db_set_item set_item
note_reachable = reachable (db_set_item users "user" note true).0 "alice" refl

users_reachable : find_user_checked users "alice" ≢ unavailable
unfolding set_item
users_reachable = reachable users "alice" refl

abbrev replacement : Item
replacement = record alice { u64s = [] }

replacement_keeps :
    write_invalidates_sessions (some alice) replacement false (role_prefix_of users) ≡ false
unfolding write_invalidates_sessions lookup role_changes password_changes role_dropped is_role_key
    role_prefix_of set_item
replacement_keeps = refl

replacement_id : (db_set_item users "user" replacement false).1 ≡ 3
unfolding db_set_item set_item insert lookup apply_session_revocation write_invalidates_sessions
    revocable get_item peek role_changes password_changes role_dropped is_role_key role_prefix_of
    session_generation
replacement_id = refl

replacement_stored : (db_set_item users "user" replacement false).1 ≢ u64_max
replacement_stored e = omega (arith, replacement_id)

replacement_reachable :
    find_user_checked (db_set_item users "user" replacement false).0 "alice" ≢ unavailable
unfolding db_set_item set_item
replacement_reachable = reachable (db_set_item users "user" replacement false).0 "alice" refl

replacing_write_revives_sessions_example :
    (enforce_session_generation (some users) (record { identity = some "alice"; sgen = none })
      ≡ cleared)
    × (enforce_session_generation
          (some (db_set_item users "user" replacement false).0)
          (record { identity = some "alice"; sgen = none })
        ≡ record { identity = some "alice"; sgen = none })
unfolding memory_laws
replacing_write_revives_sessions_example =
    replacing_write_revives_sessions memory_laws users "alice" alice replacement none
      users-WellFormed plain users-alice refl own_id replacement_stored replacement_keeps
      (refl, refl) (unfold lookup in refl) (rw alice_generation (omega arith)) refl users_reachable
      replacement_reachable
