-- ===== src/Server/PublicRead.antt =====
-- src/server/public_read.rs: what a visitor with no session may read.
-- `features` are the names of the features that the instance declares.
pub mod Opened
use isabelle_core.Prelude.{
  ltb, leb, nat_eq, if◌then◌else◌, nat_eq_iff, Bool-cases, Option-cases, ◌>>=◌, Eq, ◌==◌, nat_Eq,
  string_Eq, u64_max, saturating_add, saturating_mul, is_some, any, all, contains, nat_eq_refl, Map,
  or_else, lookup, insert, remove, retain, contains_key, lookup-insert, lookup-remove, beq_refl,
  Distinct, insert-Distinct, remove-Distinct, is_empty, starts_with, append, contains_text,
  any_char, ends_with_char, first_part, split_on, is_whitespace, is_control, trim_start, trim_end,
  trim, to_ascii_lowercase, eq_ignore_ascii_case, rsplit_once, trim_start_matches, trim_end_matches,
  ends_with, split_when, utf8, as_bytes, as_bytes_injective, Casing, to_lowercase, to_lowercase,
  length, take, drop, length-take-le, window-append, All, All-take, All-drop, ℕ, zero, suc, ◌+◌,
  ◌-◌, ◌*◌, ◌/◌, ◌%◌, ◌^◌, ◌≤◌, ◌<◌, min, max, String, ◌≡◌, refl, sym, ap, ◌∙◌, subst, ◌≢◌, ◌↔◌,
  ◌⊎◌, inl, inr, Bool, true, false, ◌&&◌, ◌||◌, not, Option, none, some, get_or, List, [], ◌∷◌,
  ◌++◌, map, arith, eq_iff, eq_refl,
}
use isabelle_core.Item.{Item, ItemApi, new, safe_bool}
use isabelle_core.State.Store.{Store}
use isabelle_core.State.RouteCache.{values_of, specs_of}

-- `Features::has`
unfoldable pub has : List String → String → Bool
has features name = contains features name

-- The collections that no configuration opens to an anonymous caller.
abbrev pub never : List String
never = "user" ∷ "api_token" ∷ []

unfoldable pub copy_key {ℓ} : {V : Type ℓ} → String → Option V → Map String V → Map String V
copy_key key none into = into
copy_key key (some v) into = insert key v into

unfoldable pub copy_setting : Item → Item → String → Item
unfolding copy_key
copy_setting all out key = record out {
  strs = copy_key key (lookup key all.strs) out.strs;
  bools = copy_key key (lookup key all.bools) out.bools;
  u64s = copy_key key (lookup key all.u64s) out.u64s;
}

unfoldable pub copy_settings : Item → List String → Item → Item
unfolding copy_setting
copy_settings all [] out = out
copy_settings all (key ∷ keys) out = copy_settings all keys (copy_setting all out key)

module _ ⦃api : ItemApi⦄ {S : Type 0} ⦃st : Store S⦄ where
  unfoldable pub is_public : S → List String → Bool
  unfolding has
  is_public s features =
      not (has features "shared_instance") && safe_bool (st.get_settings s) "instance_public" false

  unfoldable pub public_settings : S → Item
  unfolding copy_settings specs_of
  public_settings s =
      let all = st.get_settings s in
      copy_settings all (specs_of (st.get_internals s) "public_settings")
        (record new { id = all.id })

  unfoldable pub anonymous_may_list : S → List String → String → Bool
  unfolding is_public specs_of
  anonymous_may_list s features collection =
      if contains never collection || not (is_public s features)
      then false
      else contains (specs_of (st.get_internals s) "public_read_collections") collection
