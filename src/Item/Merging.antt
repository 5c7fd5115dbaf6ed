-- ===== src/Item/Merging.antt =====
-- Merging a record that carries one number, as the code does to change one field of a stored record.
use isabelle_core.Prelude.{
  if◌then◌else◌, ◌==◌, nat_Eq, string_Eq, lookup, insert, ℕ, String, ◌≡◌, refl, Bool, some, arith,
}
use isabelle_core.Item.{Item, ItemApi, new, safe_str, safe_bool, safe_u64, set_u64, merge}

module _ ⦃api : ItemApi⦄ (u : Item) (id n : ℕ) (k : String) where
  -- `Item::new()` under an id, with one number
  abbrev pub number_patch : Item
  number_patch = set_u64 (record new { id = id }) k n

  pub id-number_patch : number_patch.id ≡ id
  id-number_patch = rw api.set_u64_lem

  pub strs-number_patch : (j : String) → lookup j (merge u number_patch).strs ≡ lookup j u.strs
  strs-number_patch j = simp (api.strs-merge, api.set_u64_lem, api.new_lem) (unfold lookup in refl)

  pub safe_str-number_patch : (j d : String) → safe_str (merge u number_patch) j d ≡ safe_str u j d
  safe_str-number_patch j d = simp (api.safe_str_lem, strs-number_patch)

  pub safe_bool-number_patch :
      (j : String) (d : Bool) → safe_bool (merge u number_patch) j d ≡ safe_bool u j d
  safe_bool-number_patch j d =
      simp (api.safe_bool_lem, api.bools-merge, api.set_u64_lem, api.new_lem)
        (unfold lookup in refl)

  u64s-number_patch :
      (j : String)
      → lookup j (merge u number_patch).u64s ≡ (if k == j then some n else lookup j u.u64s)
  u64s-number_patch j =
      simp (api.u64s-merge, api.set_u64_lem, api.new_lem) (unfold insert lookup in ground arith)

  pub safe_u64-number_patch :
      (j : String) (d : ℕ)
      → safe_u64 (merge u number_patch) j d ≡ (if k == j then n else safe_u64 u j d)
  safe_u64-number_patch j d = simp (api.safe_u64_lem, u64s-number_patch) (ground arith)

-- The id under which a record is filed is no field that is read from it.
module _ ⦃api : ItemApi⦄ (v : Item) (id : ℕ) where
  pub safe_str-at_id : (k d : String) → safe_str (record v { id = id }) k d ≡ safe_str v k d
  safe_str-at_id k d = simp api.safe_str_lem

  pub safe_bool-at_id :
      (k : String) (d : Bool) → safe_bool (record v { id = id }) k d ≡ safe_bool v k d
  safe_bool-at_id k d = simp api.safe_bool_lem

  pub safe_u64-at_id : (k : String) (d : ℕ) → safe_u64 (record v { id = id }) k d ≡ safe_u64 v k d
  safe_u64-at_id k d = simp api.safe_u64_lem
