-- ===== src/Tests/Filters.antt =====
-- Runs of the filters on listings, of the public settings and of the table of hooks.
use isabelle_core.Prelude.{
  if◌then◌else◌, ◌==◌, nat_Eq, string_Eq, contains_text, first_part, split_on, ◌≡◌, refl, ◌↔◌, true,
  none, some, [], ◌∷◌,
}
use isabelle_core.Item.{Item}
use isabelle_core.State.StoreMemory.{StoreMemory, memory}
use isabelle_core.Server.ListFilter.{
  object, text, member, closed, JsonApi, field_is_allowed, is_marked, segment_is_allowed,
  validate_client_filter,
}
use isabelle_core.Server.ListFilter.Grammar.{Acceptable, validate_client_filter-Acceptable}
use isabelle_core.Tests.Fixtures.{items, caseless, empty_store, blank}

-- One filter that can be read.
instance abbrev pub one_filter : JsonApi
one_filter = record {
  parse = λ s. if s == "f" then some (object (member "name" (text "x") closed)) else none;
}

validate_client_filter-Acceptable_example : (validate_client_filter "f" ≡ none) ↔ Acceptable "f"
validate_client_filter-Acceptable_example = validate_client_filter-Acceptable "f"

name_allowed : field_is_allowed "name" ≡ true
unfolding field_is_allowed segment_is_allowed is_marked contains_text split_on first_part
name_allowed = refl

abbrev hooked : Item
hooked = record blank {
  strstrs =
      ("item_pre_edit_hook", ("1", "task:check") ∷ ("2", "*:log") ∷ [])
      ∷ ("public_settings", ("1", "site_name") ∷ [])
      ∷ [];
}

abbrev site : Item
site = record blank { strs = ("site_name", "Lab") ∷ ("smtp_password", "x") ∷ [] }

abbrev opened : StoreMemory
opened = record empty_store { internals = hooked; settings = site }
