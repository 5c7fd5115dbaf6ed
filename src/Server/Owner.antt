-- ===== src/Server/Owner.antt =====
-- src/server/owner.rs: whose record it is.
use isabelle_core.Prelude.{
  ◌==◌, nat_Eq, string_Eq, any, Map, lookup, insert, remove, lookup-insert, lookup-remove, ℕ,
  String, ◌≡◌, refl, Bool, false, ◌||◌, Option, none, some,
}
use isabelle_core.Item.{Item}

-- `INTERNALS_OWNED` and `FIELD_OWNER`
abbrev pub internals_owned : String
internals_owned = "owned_collections"

abbrev pub field_owner : String
field_owner = "owner"

-- `m.values().any(|c| c == s)`
abbrev pub any_value : Map String String → String → Bool
any_value m s = any (λ e. e.1 == s) m

unfoldable pub is_owned : Item → String → Bool
is_owned internals collection = elim (lookup internals_owned internals.strstrs) [
  | none ↦ false
  | some m ↦ any_value m collection
]

unfoldable pub owner_of : Item → Option ℕ
owner_of item = lookup field_owner item.ids

with_owner : Item → Option ℕ → Item
with_owner item none = record item { ids = remove field_owner item.ids }
with_owner item (some owner) = record item { ids = insert field_owner owner item.ids }

unfoldable pub stamp : Item → Option Item → ℕ → Item
unfolding with_owner
stamp item none caller = with_owner item (some caller)
stamp item (some old) caller = with_owner item (owner_of old)

same_id : Option ℕ → ℕ → Bool
same_id none user = false
same_id (some o) user = o == user

unfoldable pub may_touch : Item → ℕ → Bool → Bool
unfolding same_id
may_touch item user admin = admin || same_id (owner_of item) user

abbrev pub owner_after : Option Item → ℕ → Option ℕ
owner_after none caller = some caller
owner_after (some old) caller = owner_of old

owner_of-with_owner : (item : Item) (o : Option ℕ) → owner_of (with_owner item o) ≡ o
unfolding owner_of with_owner
owner_of-with_owner item none = lookup-remove field_owner field_owner item.ids
owner_of-with_owner item (some x) = lookup-insert field_owner field_owner x item.ids

-- What the client writes as owner does not count: a new record is its creator's, and an edited
-- one keeps the owner it had, or stays without one.
pub owner_of-stamp :
    (item : Item) (old : Option Item) (caller : ℕ)
    → owner_of (stamp item old caller) ≡ owner_after old caller
unfolding stamp
owner_of-stamp item none caller = owner_of-with_owner item (some caller)
owner_of-stamp item (some old) caller = owner_of-with_owner item (owner_of old)

id-with_owner : (item : Item) (o : Option ℕ) → (with_owner item o).id ≡ item.id
unfolding with_owner
id-with_owner item none = refl
id-with_owner item (some owner) = refl

pub id-stamp : (item : Item) (old : Option Item) (caller : ℕ) → (stamp item old caller).id ≡ item.id
unfolding stamp
id-stamp item none caller = id-with_owner item (some caller)
id-stamp item (some old) caller = id-with_owner item (owner_of old)
