-- ===== src/State/StoreLocal/Connecting.antt =====
-- src/state/store_local.rs: `connect`, which finds the collections in the directories on disk. A
-- directory of a collection has a name, what its file `cnt` holds if that can be read, and the names
-- of the directories in it. A name that is no number panics, which answers `none`.
use isabelle_core.Prelude.{
  ◌>>=◌, nat_Eq, string_Eq, Map, insert, trim, length, parse_u64, ℕ, String, Bool, true, Option,
  none, some, List, [], ◌∷◌,
}
use isabelle_core.State.StoreLocal.{StoreLocal}

pub record Directory : Type 0 where
  pub name : String
  pub cnt : Option String
  pub entries : List String

-- `data_file_idx.parse::<u64>().unwrap()` for every directory
unfoldable pub known_from : List String → Map ℕ Bool → Option (Map ℕ Bool)
known_from [] m = some m
known_from (name ∷ names) m = parse_u64 name >>= λ id. known_from names (insert id true m)

-- `cnt_str.trim().parse::<u64>()`
unfoldable pub counter_of : Option String → Option ℕ
counter_of none = none
counter_of (some text) = parse_u64 (trim text)

unfoldable pub registered : StoreLocal → String → StoreLocal
registered s name = record s {
  items = insert (length s.items) [] s.items;
  collections = insert name (length s.items) s.collections;
}

-- Without a counter the loop goes on with the next directory.
unfoldable pub filled : StoreLocal → ℕ → List String → Option ℕ → Option StoreLocal
unfolding known_from
filled s coll_index entries none = some s
filled s coll_index entries (some count) = known_from entries [] >>= λ m. some (record s {
  items_count = insert coll_index count s.items_count;
  items = insert coll_index m s.items;
})

unfoldable pub connect : StoreLocal → List Directory → Option StoreLocal
unfolding registered counter_of filled
connect s [] = some s
connect s (dir ∷ dirs) =
    filled (registered s dir.name) (length s.items) dir.entries (counter_of dir.cnt) >>= λ loaded.
    connect loaded dirs
