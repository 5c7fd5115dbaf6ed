-- ===== src/Server/PublicRead/Opened.antt =====
-- src/server/public_read.rs: a reader is shown the settings that are named, and no others.
use isabelle_core.Prelude.{
  if◌then◌else◌, Bool-cases, ◌==◌, nat_Eq, string_Eq, all, contains, Map, or_else, lookup,
  lookup-insert, String, ◌≡◌, refl, ◌∙◌, inl, inr, ◌||◌, Option, none, some, List, [], ◌∷◌, arith,
  eq_iff,
}
use isabelle_core.Item.{Item, ItemApi, new}
use isabelle_core.State.Store.{Store}
use isabelle_core.State.RouteCache.{specs_of}
use isabelle_core.Server.PublicRead.{copy_key, copy_setting, copy_settings, public_settings}

-- What is shown of a map of settings: the entries under the keys that are named.
abbrev pub shown {ℓ} : {V : Type ℓ} → List String → String → Map String V → Option V
shown keys k m = if contains keys k then lookup k m else none

lookup-copied {ℓ} :
    {V : Type ℓ} (key k : String) (o : Option V) (into : Map String V)
    → lookup k (copy_key key o into)
      ≡ (if key == k then or_else o (lookup k into) else lookup k into)
unfolding copy_key
lookup-copied key k none into = ground arith
lookup-copied key k (some v) into = rw lookup-insert (ground arith)

lookup-copy_key {ℓ} :
    {V : Type ℓ} (key k : String) (from into : Map String V)
    → lookup k (copy_key key (lookup key from) into)
      ≡ (if key == k then or_else (lookup k from) (lookup k into) else lookup k into)
lookup-copy_key key k from into = elim (Bool-cases (key == k)) [
  | inl same ↦ rw (lookup-copied key k (lookup key from) into, same, (eq_iff key k).0 same) refl
  | inr other ↦ rw (lookup-copied key k (lookup key from) into, other) refl
]

or_else_twice {ℓ} : {V : Type ℓ} (a b : Option V) → or_else a (or_else a b) ≡ or_else a b
or_else_twice none b = refl
or_else_twice (some v) b = refl

-- One step of the copy of a map, and then the rest of the keys.
shown-step {ℓ} :
    {V : Type ℓ} (keys : List String) (key k : String) (all out : Map String V)
    → (if contains keys k
        then or_else (lookup k all) (lookup k (copy_key key (lookup key all) out))
        else lookup k (copy_key key (lookup key all) out))
      ≡ (if key == k || contains keys k
          then or_else (lookup k all) (lookup k out)
          else lookup k out)
shown-step keys key k all out =
    rw lookup-copy_key (ground (arith, or_else_twice (lookup k all) (lookup k out)))

or_else-none {ℓ} : {V : Type ℓ} (a : Option V) → or_else a none ≡ a
or_else-none none = refl
or_else-none (some v) = refl

-- What is shown where nothing was there before.
shown-only {ℓ} :
    {V : Type ℓ} (keys : List String) (k : String) (all : Map String V) (o : Option V)
    → o ≡ none
    → (if contains keys k then or_else (lookup k all) o else o) ≡ shown keys k all
shown-only keys k all o e = rw e (ground (arith, or_else-none (lookup k all)))

module _ (all : Item) (k : String) where
  strs-copy_settings :
      (keys : List String) (out : Item)
      → lookup k (copy_settings all keys out).strs ≡ (
          if contains keys k
          then or_else (lookup k all.strs) (lookup k out.strs)
          else lookup k out.strs)
  unfolding copy_settings copy_setting
  strs-copy_settings [] out = refl
  strs-copy_settings (key ∷ keys) out =
      strs-copy_settings keys (copy_setting all out key) ∙ shown-step keys key k all.strs out.strs

  bools-copy_settings :
      (keys : List String) (out : Item)
      → lookup k (copy_settings all keys out).bools ≡ (
          if contains keys k
          then or_else (lookup k all.bools) (lookup k out.bools)
          else lookup k out.bools)
  unfolding copy_settings copy_setting
  bools-copy_settings [] out = refl
  bools-copy_settings (key ∷ keys) out =
      bools-copy_settings keys (copy_setting all out key)
      ∙ shown-step keys key k all.bools out.bools

  u64s-copy_settings :
      (keys : List String) (out : Item)
      → lookup k (copy_settings all keys out).u64s ≡ (
          if contains keys k
          then or_else (lookup k all.u64s) (lookup k out.u64s)
          else lookup k out.u64s)
  unfolding copy_settings copy_setting
  u64s-copy_settings [] out = refl
  u64s-copy_settings (key ∷ keys) out =
      u64s-copy_settings keys (copy_setting all out key) ∙ shown-step keys key k all.u64s out.u64s

-- Of the texts, the flags and the numbers in the settings, a reader is shown exactly those whose
-- keys the internals name.
pub public_settings-shown :
    ⦃api : ItemApi⦄ {S : Type 0} ⦃st : Store S⦄ (s : S) (k : String)
    → let keys = specs_of (st.get_internals s) "public_settings" in
      (lookup k (public_settings s).strs ≡ shown keys k (st.get_settings s).strs)
      × (lookup k (public_settings s).bools ≡ shown keys k (st.get_settings s).bools)
      × (lookup k (public_settings s).u64s ≡ shown keys k (st.get_settings s).u64s)
unfolding public_settings
public_settings-shown ⦃api⦄ ⦃st⦄ s k =
    let all = st.get_settings s in
    let keys = specs_of (st.get_internals s) "public_settings" in
    let out = record new { id = all.id } in
    (
      strs-copy_settings all k keys out
          ∙ shown-only keys k all.strs (lookup k new.strs) (rw api.new_lem (unfold lookup in refl)),
      bools-copy_settings all k keys out
          ∙ shown-only keys k all.bools (lookup k new.bools)
              (rw api.new_lem (unfold lookup in refl)),
      u64s-copy_settings all k keys out
          ∙ shown-only keys k all.u64s (lookup k new.u64s) (rw api.new_lem (unfold lookup in refl)),
    )
