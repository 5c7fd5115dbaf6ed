-- ===== src/Tests/Fixtures.antt =====
-- Small implementations of the interfaces, and the data that the runs share.
use isabelle_core.Prelude.{
  nat_eq_iff, ◌==◌, nat_Eq, string_Eq, u64_max, Map, or_else, lookup, insert, lookup-insert,
  starts_with, append, Casing, String, ◌≡◌, refl, sym, ◌∙◌, ◌≢◌, Bool, true, false, Option, none,
  some, get_or, [], ◌∷◌, arith,
}
use isabelle_core.Item.{Item, ItemApi}
use isabelle_core.Util.Crypto.{PasswordApi}
use isabelle_core.State.StoreMemory.{StoreMemory, set_item, find_user, find_user_checked}
use isabelle_core.State.Store.{unavailable, checked}
use isabelle_core.State.StoreMemory.Users.{WellFormed, set_item-WellFormed}
use isabelle_core.State.Secrets.{Disk}
use isabelle_core.State.RouteCache.{RouteCache}

-- The second map's entries over the first's.
abbrev pub lay {ℓ} : {V : Type ℓ} → Map String V → Map String V → Map String V
lay a [] = a
lay a ((k, v) ∷ b) = insert k v (lay a b)

pub lookup-lay {ℓ} :
    {V : Type ℓ} (a b : Map String V) (k : String)
    → lookup k (lay a b) ≡ or_else (lookup k b) (lookup k a)
unfolding lookup
lookup-lay a [] k = refl
lookup-lay a ((j, v) ∷ b) k = ground (arith, lookup-insert j k v (lay a b), lookup-lay a b k)

abbrev pub blank : Item
blank = record {
  id = u64_max;
  strs = [];
  strstrs = [];
  strids = [];
  bools = [];
  u64s = [];
  ids = [];
}

instance abbrev pub items : ItemApi
items = record {
  new = blank;
  safe_str = λ i k d. get_or (lookup k i.strs) d;
  safe_bool = λ i k d. get_or (lookup k i.bools) d;
  safe_u64 = λ i k d. get_or (lookup k i.u64s) d;
  safe_id = λ i k d. get_or (lookup k i.ids) d;
  set_str = λ i k v. record i { strs = insert k v i.strs };
  set_bool = λ i k v. record i { bools = insert k v i.bools };
  set_u64 = λ i k v. record i { u64s = insert k v i.u64s };
  set_id = λ i k v. record i { ids = insert k v i.ids };
  merge = λ a b. record {
    id = b.id;
    strs = lay a.strs b.strs;
    strstrs = lay a.strstrs b.strstrs;
    strids = lay a.strids b.strids;
    bools = lay a.bools b.bools;
    u64s = lay a.u64s b.u64s;
    ids = lay a.ids b.ids;
  };
  new_lem = refl;
  safe_str_lem = λ i k d. refl;
  safe_bool_lem = λ i k d. refl;
  safe_u64_lem = λ i k d. refl;
  safe_id_lem = λ i k d. refl;
  set_str_lem = λ i k v. refl;
  set_bool_lem = λ i k v. refl;
  set_u64_lem = λ i k v. refl;
  set_id_lem = λ i k v. refl;
  id-merge = λ a b e. sym e;
  strs-merge = λ a b k. lookup-lay a.strs b.strs k;
  bools-merge = λ a b k. lookup-lay a.bools b.bools k;
  u64s-merge = λ a b k. lookup-lay a.u64s b.u64s k;
  ids-merge = λ a b k. lookup-lay a.ids b.ids k;
}

-- A script without case.
instance abbrev pub caseless : Casing
caseless = record { to_lowercase = λ s. s }

instance abbrev pub hashes : PasswordApi
hashes = record { parses = λ h. starts_with h "h:"; fits = λ p h. append "h:" p == h }

instance abbrev pub disk : Disk
disk = record { flush = λ entries next_id. true }

abbrev pub no_routes : RouteCache
no_routes = record {
  url_routes = [];
  unprotected_url_routes = [];
  rest_routes = [];
  item_pre_edit = [];
  item_pre_edit_wildcard = [];
  item_post_edit = [];
  item_post_edit_wildcard = [];
  route_scopes = [];
  collection_scopes = [];
}

-- An account with a password and a live one-time code.
abbrev pub alice : Item
alice = record blank {
  id = 3;
  strs = ("login", "alice") ∷ ("email", "a@b.c") ∷ ("password", "h:pw") ∷ ("otp", "123456") ∷ [];
  bools = ("role_is_active", true) ∷ [];
  u64s = ("session_gen", 2) ∷ ("otp_expires_at", 1000) ∷ [];
}

abbrev pub bob : Item
bob = record blank { id = 4; strs = ("login", "bob") ∷ []; bools = [] }

abbrev pub empty_store : StoreMemory
empty_store = record { collections = []; internals = blank; settings = blank; unreachable = false }

empty_store-WellFormed : WellFormed empty_store
unfolding lookup
empty_store-WellFormed = record { filed = λ c. tt; distinct = λ c. tt }

abbrev pub users : StoreMemory
users = (set_item (set_item empty_store "user" alice false).0 "user" bob false).0

pub users-WellFormed : WellFormed users
users-WellFormed =
    set_item-WellFormed (set_item empty_store "user" alice false).0 "user" bob false
      (set_item-WellFormed empty_store "user" alice false empty_store-WellFormed)

pub users-alice : find_user users "alice" ≡ some alice
unfolding find_user set_item insert lookup
users-alice = refl

checked-answers : (o : Option Item) → checked o ≢ unavailable
unfolding checked
checked-answers none e = cc e
checked-answers (some u) e = cc e

pub reachable :
    (s : StoreMemory) (login : String)
    → s.unreachable ≡ false
    → find_user_checked s login ≢ unavailable
unfolding find_user_checked
reachable s login up e = checked-answers (find_user s login) (sym (rw up refl) ∙ e)

pub accepting :
    (s : StoreMemory) (itm : Item) (merging : Bool)
    → itm.id ≢ u64_max
    → (set_item s "user" itm merging).1 ≢ u64_max
unfolding set_item
accepting s itm merging own = ground (arith, nat_eq_iff itm.id u64_max)
