-- ===== src/Tests/Items.antt =====
-- Runs of the item handlers.
use isabelle_core.Prelude.{
  nat_Eq, string_Eq, u64_max, contains, lookup, insert, retain, append, contains_text, any_char,
  first_part, split_on, is_whitespace, trim_start, trim_end, trim, take, drop, All, String, ◌≡◌,
  refl, true, false, none, some, [], ◌∷◌,
}
use isabelle_core.Item.{Item}
use isabelle_core.State.StoreMemory.{
  StoreMemory, memory, has_collection, get_item, peek, set_item, find_user, find_value, max_id,
  names_user, next_id,
}
use isabelle_core.State.Store.{ListResult}
use isabelle_core.State.RouteCache.{specs_of, pre_edit_hooks, values_of}
use isabelle_core.Server.UserControl.{
  get_user, check_role, login_has_bad_symbols, apply_session_revocation, role_is_granted,
  role_prefix_of,
}
use isabelle_core.Server.ApiToken.{hidden_from_item_api}
use isabelle_core.Server.PublicRead.{never, is_public, anonymous_may_list, has}
use isabelle_core.Server.Hooks.{PostEditApi}
use isabelle_core.Server.Itm.{MergeColl, EditRequest, without_item, stored_as, EditApi, itm_edit}
use isabelle_core.Server.Itm.Authorised.{IsWhole, IsAsked, itm_edit-IsAsked}
use isabelle_core.Server.Itm.Pages.{
  ListQuery, ListRequest, listed, ListApi, by_id_list, by_range, conjoin, db_filters, found_items,
  insert_all, insert_by_id, insert_route, page_of, redact_others, sort_by_id, sorted_routes,
}
use isabelle_core.Server.Itm.Listing.{
  itm_list, filter_all, filtered, list_as, list_for, list_query, recounted, redacted, reply_with,
}
use isabelle_core.Server.Itm.Shown.{caller_of, IsShowable, itm_list-IsShowable, itm_list-visitor}
use isabelle_core.Server.Owner.{is_owned, stamp}
use isabelle_core.Server.ListFilter.{
  validate_client_filter, redact_credentials, all_scalar, count_elements, field_is_allowed,
  is_credential_field, is_marked, segment_is_allowed, validate_leaf_value, validate_list,
  validate_node, validate_operator, validate_operators, validate_parsed,
}
use isabelle_core.Tests.Fixtures.{items, caseless, users, no_routes, alice, bob, blank}
use isabelle_core.Tests.Filters.{one_filter}

-- Plugins that grant every edit and leave everything as it is.
instance abbrev pub quiet_hooks : PostEditApi StoreMemory
quiet_hooks = record { item_post_edit_hook = λ s h collection old id action. s }

instance abbrev granting : EditApi StoreMemory
granting = record {
  normalize_negated = λ item. item;
  item_auth_hook = λ s h usr collection id item del. (s, true);
  item_pre_edit_hook = λ s h usr collection old item action merging. (s, item, none);
}

instance abbrev unfiltered : ListApi StoreMemory
unfiltered = record {
  db_filter_hook = λ s h usr collection context. [];
  list_filter_hook = λ s h usr collection context m. m;
}

-- Alice writes a task in an owned collection.
abbrev office : StoreMemory
office = record users {
  collections = ("task", []) ∷ users.collections;
  internals = record blank {
    strstrs =
        ("owned_collections", ("1", "task") ∷ [])
        ∷ ("itm_auth_hook", ("1", "may") ∷ [])
        ∷ ("public_read_collections", ("1", "task") ∷ [])
        ∷ [];
  };
}

abbrev task : MergeColl
task = record { collection = "task"; merge = false }

abbrev write_task : EditRequest
write_task = record {
  principal = "alice";
  query = some task;
  item = some (record blank { id = 7; strs = ("name", "x") ∷ [] });
  fields = without_item;
}

task_written : (itm_edit office no_routes write_task).1 ≡ stored_as 7
unfolding itm_edit hidden_from_item_api get_user login_has_bad_symbols any_char find_user lookup
    set_item insert is_owned specs_of has_collection pre_edit_hooks apply_session_revocation stamp
    get_item
task_written = refl

itm_edit-IsAsked_example :
    (mc : MergeColl) × (in_query : Item) × (item : Item) × (some task ≡ some mc)
    × (hidden_from_item_api mc.collection ≡ false)
    × (write_task.item ≡ some in_query)
    × IsWhole in_query write_task.fields item
    × IsAsked office no_routes
        (get_user office "alice")
        mc
        item
        7
        (itm_edit office no_routes write_task).0
itm_edit-IsAsked_example = itm_edit-IsAsked office no_routes write_task 7 task_written

-- Bob reads Alice's account.
abbrev all_of : String → ListQuery
all_of collection = record {
  collection = collection;
  context = "";
  id = u64_max;
  id_min = u64_max;
  id_max = u64_max;
  id_list = 3 ∷ 4 ∷ [];
  sort_key = "";
  filter_text = "";
  skip = u64_max;
  limit = u64_max;
}

abbrev by_bob : ListRequest
by_bob = record { principal = some "bob"; query = some (all_of "user") }

abbrev seen_by_bob : ListResult
seen_by_bob = record {
  map =
      (
        3,
        record alice {
          strs = ("login", "alice") ∷ ("email", "a@b.c") ∷ [];
          u64s = ("session_gen", 2) ∷ [];
        },
      )
      ∷ (4, bob)
      ∷ [];
  total_count = 2;
}

bob_sees : itm_list users [] by_bob ≡ listed seen_by_bob
unfolding itm_list hidden_from_item_api has_collection lookup set_item insert validate_client_filter
    trim check_role get_user login_has_bad_symbols any_char find_user role_is_granted drop get_item
    redact_credentials retain take append contains_text first_part is_whitespace split_on trim_end
    trim_start filter_all filtered list_as list_for list_query recounted redacted reply_with
    by_id_list by_range conjoin db_filters found_items insert_all insert_by_id insert_route page_of
    redact_others sort_by_id sorted_routes all_scalar count_elements field_is_allowed
    is_credential_field is_marked segment_is_allowed validate_leaf_value validate_list validate_node
    validate_operator validate_operators validate_parsed anonymous_may_list has is_public
    role_prefix_of specs_of values_of find_value max_id names_user next_id peek
bob_sees = refl

bob_is_ordinary : check_role users (caller_of users (some "bob")) "admin" ≡ false
unfolding check_role get_user login_has_bad_symbols any_char find_user lookup set_item insert
    role_is_granted
bob_is_ordinary = refl

itm_list-IsShowable_example : All (IsShowable (caller_of users (some "bob"))) seen_by_bob.map
unfolding set_item
itm_list-IsShowable_example =
    itm_list-IsShowable users [] by_bob (all_of "user") seen_by_bob refl refl
      (unfold lookup in refl) bob_is_ordinary bob_sees

-- A visitor reads the tasks of an instance that shows them.
abbrev shop : StoreMemory
shop = record office {
  collections = ("task", (3, bob) ∷ []) ∷ [];
  settings = record blank { bools = ("instance_public", true) ∷ [] };
}

abbrev by_visitor : ListRequest
by_visitor = record { principal = none; query = some (all_of "task") }

abbrev seen_by_visitor : ListResult
seen_by_visitor = record { map = (3, bob) ∷ []; total_count = 1 }

visitor_sees : itm_list shop [] by_visitor ≡ listed seen_by_visitor
unfolding itm_list hidden_from_item_api has_collection lookup is_public anonymous_may_list
    validate_client_filter trim drop get_item insert
visitor_sees = refl

itm_list-visitor_example :
    (lq : ListQuery) × (some (all_of "task") ≡ some lq)
    × (contains never lq.collection ≡ false)
    × (is_public shop [] ≡ true)
    × (contains (specs_of shop.internals "public_read_collections") lq.collection ≡ true)
itm_list-visitor_example =
    itm_list-visitor shop [] by_visitor seen_by_visitor refl visitor_sees (λ e. cc e)
