-- ===== src/Server/Guards.antt =====
-- src/server/guards.rs: what is decided about a request before its handler runs.
use isabelle_core.Prelude.{
  if◌then◌else◌, ◌==◌, nat_Eq, string_Eq, is_some, ℕ, String, Bool, false, ◌&&◌, not, Option, none,
  some, get_or,
}
use isabelle_core.Item.{ItemApi}
use isabelle_core.State.Store.{Store, UserLookup, found, absent, unavailable}
use isabelle_core.Server.UserControl.{lookup_user, session_generation}

-- The session cookie as the guards see it: who it names, and the stamp under `sgen`.
pub record Session : Type 0 where
  pub identity : Option String
  pub sgen : Option ℕ

-- `get_session().clear()`
abbrev pub cleared : Session
cleared = record { identity = none; sgen = none }

-- Refused with 400, or handed on.
unfoldable pub reject_ambiguous_framing : Bool → Bool → Bool
reject_ambiguous_framing content_length transfer_encoding = content_length && transfer_encoding

unfoldable pub is_stale : ⦃api : ItemApi⦄ → Option ℕ → UserLookup → Bool
is_stale presented (found usr) = not (get_or presented 0 == session_generation usr)
is_stale presented absent = is_some presented
is_stale presented unavailable = false

-- The session that the handler sees. `state` is missing where no state is registered.
enforce : ⦃api : ItemApi⦄ {S : Type 0} ⦃st : Store S⦄ → Option S → Option String → Session → Session
enforce (some s) (some principal) session =
    if is_stale session.sgen (lookup_user s principal) then cleared else session
enforce _ _ session = session

unfoldable pub enforce_session_generation :
    ⦃api : ItemApi⦄ {S : Type 0} ⦃st : Store S⦄ → Option S → Session → Session
unfolding enforce
enforce_session_generation state session = enforce state session.identity session
