-- ===== src/Item.antt =====
-- The record that every part of the program stores and passes round.
-- `Item` is declared by the crate `isabelle_dm`; its fields are those that
-- src/util/bson_wrapper.rs copies one by one. `root_node` is left out: no code modelled here
-- reads or writes it apart from copying a whole item.
-- The crate's methods are an interface, with the behaviour that this program relies on.
pub mod Merging
use isabelle_core.Prelude.{
  ℕ, String, ◌≡◌, Bool, get_or, List, [], Map, lookup, insert, or_else, u64_max, string_Eq,
}

pub record Item : Type 0 where
  pub id : ℕ
  pub strs : Map String String
  pub strstrs : Map String (Map String String)
  pub strids : Map String (List ℕ)
  pub bools : Map String Bool
  pub u64s : Map String ℕ
  pub ids : Map String ℕ

-- The methods of `Item` and their documented behaviour: `safe_…` reads a field or gives the
-- default, `set_…` writes one field, `merge` lays the second item's fields over the first's.
pub record ItemApi : Type 0 where
  pub new : Item
  pub safe_str : Item → String → String → String
  pub safe_bool : Item → String → Bool → Bool
  pub safe_u64 : Item → String → ℕ → ℕ
  pub safe_id : Item → String → ℕ → ℕ
  pub set_str : Item → String → String → Item
  pub set_bool : Item → String → Bool → Item
  pub set_u64 : Item → String → ℕ → Item
  pub set_id : Item → String → ℕ → Item
  pub merge : Item → Item → Item
  pub new_lem : new ≡ record {
    id = u64_max;
    strs = [];
    strstrs = [];
    strids = [];
    bools = [];
    u64s = [];
    ids = [];
  }
  pub safe_str_lem : (i : Item) (k d : String) → safe_str i k d ≡ get_or (lookup k i.strs) d
  pub safe_bool_lem :
      (i : Item) (k : String) (d : Bool) → safe_bool i k d ≡ get_or (lookup k i.bools) d
  pub safe_u64_lem : (i : Item) (k : String) (d : ℕ) → safe_u64 i k d ≡ get_or (lookup k i.u64s) d
  pub safe_id_lem : (i : Item) (k : String) (d : ℕ) → safe_id i k d ≡ get_or (lookup k i.ids) d
  pub set_str_lem :
      (i : Item) (k v : String) → set_str i k v ≡ record i { strs = insert k v i.strs }
  pub set_bool_lem :
      (i : Item) (k : String) (v : Bool) → set_bool i k v ≡ record i { bools = insert k v i.bools }
  pub set_u64_lem :
      (i : Item) (k : String) (v : ℕ) → set_u64 i k v ≡ record i { u64s = insert k v i.u64s }
  pub set_id_lem :
      (i : Item) (k : String) (v : ℕ) → set_id i k v ≡ record i { ids = insert k v i.ids }
  pub id-merge : (a b : Item) → a.id ≡ b.id → (merge a b).id ≡ a.id
  pub strs-merge :
      (a b : Item) (k : String)
      → lookup k (merge a b).strs ≡ or_else (lookup k b.strs) (lookup k a.strs)
  pub bools-merge :
      (a b : Item) (k : String)
      → lookup k (merge a b).bools ≡ or_else (lookup k b.bools) (lookup k a.bools)
  pub u64s-merge :
      (a b : Item) (k : String)
      → lookup k (merge a b).u64s ≡ or_else (lookup k b.u64s) (lookup k a.u64s)
  pub ids-merge :
      (a b : Item) (k : String)
      → lookup k (merge a b).ids ≡ or_else (lookup k b.ids) (lookup k a.ids)

module _ ⦃api : ItemApi⦄ where
  abbrev pub new : Item
  new = api.new

  abbrev pub safe_str : Item → String → String → String
  safe_str = api.safe_str

  abbrev pub safe_bool : Item → String → Bool → Bool
  safe_bool = api.safe_bool

  abbrev pub safe_u64 : Item → String → ℕ → ℕ
  safe_u64 = api.safe_u64

  abbrev pub safe_id : Item → String → ℕ → ℕ
  safe_id = api.safe_id

  abbrev pub set_str : Item → String → String → Item
  set_str = api.set_str

  abbrev pub set_bool : Item → String → Bool → Item
  set_bool = api.set_bool

  abbrev pub set_u64 : Item → String → ℕ → Item
  set_u64 = api.set_u64

  abbrev pub set_id : Item → String → ℕ → Item
  set_id = api.set_id

  abbrev pub merge : Item → Item → Item
  merge = api.merge
