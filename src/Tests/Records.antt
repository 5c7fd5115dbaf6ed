-- ===== src/Tests/Records.antt =====
-- Runs of the store in memory and of the comparison of bytes.
use isabelle_core.Prelude.{
  leb, if◌then◌else◌, ◌==◌, nat_Eq, string_Eq, u64_max, lookup, insert, contains_key, Distinct, ℕ,
  refl, ◌≢◌, false, ◌&&◌, ◌||◌, arith,
}
use isabelle_core.State.Paging.{IsPageOf}
use isabelle_core.State.StoreMemory.{collection_of, get_items, next_id, max_id, set_item, memory}
use isabelle_core.State.StoreMemory.Pages.{get_items-IsPage}
use isabelle_core.Tests.Fixtures.{items, caseless, users, blank}

fresh_id : (set_item users "user" blank false).1 ≢ u64_max
unfolding set_item insert lookup next_id max_id
fresh_id = λ e. omega (arith, e)

users-Distinct : Distinct (collection_of users "user")
unfolding lookup insert set_item
users-Distinct = (refl, (refl, tt))

get_items-IsPage_example :
    IsPageOf
      (λ i. lookup i (collection_of users "user"))
      (λ i.
        contains_key i (collection_of users "user")
        && (((◌==◌ {A = ℕ} 0 u64_max) || leb 0 i)
            && ((◌==◌ {A = ℕ} u64_max u64_max) || leb i u64_max)))
      (if (◌==◌ {A = ℕ} 0 u64_max) then 0 else 0)
      1
      (get_items users "user" 0 u64_max "" "" 0 1)
get_items-IsPage_example = get_items-IsPage users "user" 0 u64_max "" "" 0 1 users-Distinct
