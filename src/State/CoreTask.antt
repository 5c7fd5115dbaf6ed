-- ===== src/State/CoreTask.antt =====
-- src/state/core_task.rs: what the core does for a plugin's message about the database.
pub mod Messages
pub mod SystemSecrets
use isabelle_core.Prelude.{
  if◌then◌else◌, ◌==◌, nat_Eq, string_Eq, u64_max, ℕ, String, Bool, ◌&&◌, not, Option, none,
}
use isabelle_core.Item.{Item, ItemApi}
use isabelle_core.State.Store.{Store}
use isabelle_core.Server.UserControl.{apply_session_revocation}

module _ ⦃api : ItemApi⦄ {S : Type 0} ⦃st : Store S⦄ where
  -- The record that a write may end the sessions of.
  unfoldable pub revocable : S → String → ℕ → Option Item
  revocable s collection id =
      if collection == "user" && not (id == u64_max) then st.get_item s collection id else none

  -- `CoreMessage::DbSetItem`
  unfoldable pub db_set_item : S → String → Item → Bool → S × ℕ
  db_set_item s collection item merge =
      st.set_item s collection
        (apply_session_revocation s collection (revocable s collection item.id) item merge) merge
