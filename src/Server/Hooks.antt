-- ===== src/Server/Hooks.antt =====
-- src/server/itm.rs and src/server/signin.rs: the hooks that both call after an edit. What a plugin
-- answers is an interface, and it may change the store.
use isabelle_core.Prelude.{nat_Eq, string_Eq, ℕ, String, Option, List, [], ◌∷◌}
use isabelle_core.Item.{Item}

-- What an edit does to a record, as the hooks are told.
pub data DataObjectAction : Type 0 where
  create : DataObjectAction
  modify : DataObjectAction
  delete : DataObjectAction

-- The plugins' answers to the hook that follows an edit.
pub record PostEditApi (S : Type 0) : Type 0 where
  pub item_post_edit_hook : S → String → String → Option Item → ℕ → DataObjectAction → S

unfoldable pub post_edit_all :
    {S : Type 0} ⦃hooks : PostEditApi S⦄
    → S
    → List String
    → String
    → Option Item
    → ℕ
    → DataObjectAction
    → S
post_edit_all s [] collection old id action = s
post_edit_all ⦃hooks⦄ s (h ∷ hs) collection old id action =
    post_edit_all (hooks.item_post_edit_hook s h collection old id action) hs collection old id
      action
