-- ===== src/State/StoreLocal/Connected.antt =====
-- src/state/store_local.rs: what `connect` makes of the directories on disk.
use isabelle_core.Prelude.{
  nat_eq, nat_eq_iff, Bool-cases, Option-cases, ◌==◌, nat_Eq, string_Eq, nat_eq_refl, Map, lookup,
  insert, lookup-insert, length, All, ℕ, suc, ◌+◌, ◌≤◌, ◌<◌, String, ◌≡◌, refl, sym, ap, ◌∙◌, subst,
  inl, inr, Bool, Option, none, some, List, [], ◌∷◌, arith,
}
use isabelle_core.State.StoreLocal.{StoreLocal, Content, files_of, count_of}
use isabelle_core.State.StoreLocal.Counted.{IsCounted}
use isabelle_core.State.StoreLocal.Connecting.{
  Directory, known_from, counter_of, registered, filled, connect,
}

-- The indices that are given out are the numbers below how many there are.
record IsIndexed (s : StoreLocal) : Type 0 where
  given : (c : String) (k : ℕ) → lookup c s.collections ≡ some k → k < length s.items
  free : (k : ℕ) (m : Map ℕ Bool) → lookup k s.items ≡ some m → k < length s.items

-- The file `cnt` is there and covers every file of its collection.
abbrev pub IsCovered : StoreLocal → Directory → Type 0
IsCovered s dir =
    (n : ℕ) × (counter_of dir.cnt ≡ some n)
    × ((i : ℕ) (content : Content) → lookup i (files_of s dir.name) ≡ some content → i ≤ n)

length-insert_absent :
    (k : ℕ) (v : Map ℕ Bool) (m : Map ℕ (Map ℕ Bool))
    → lookup k m ≡ none
    → length (insert k v m) ≡ length m + 1
unfolding lookup insert
length-insert_absent k v [] h = refl
length-insert_absent k v ((j, w) ∷ m) h = elim (Bool-cases (nat_eq j k)) [
  | inl here ↦ absurd (ground (arith, here, h))
  | inr away ↦
      let rest : length (insert k v m) ≡ length m + 1 =
        length-insert_absent k v m (sym (rw away refl) ∙ h) in
      rw away (omega (arith, rest))
]

length-insert_there :
    (k : ℕ) (v w : Map ℕ Bool) (m : Map ℕ (Map ℕ Bool))
    → length (insert k v (insert k w m)) ≡ length (insert k w m)
unfolding insert
length-insert_there k v w [] = rw (nat_eq_refl k) refl
length-insert_there k v w ((j, x) ∷ m) = elim (Bool-cases (nat_eq j k)) [
  | inl here ↦ rw (here, nat_eq_refl k) refl
  | inr away ↦ rw (away, away) (ap suc (length-insert_there k v w m))
]

-- One directory that is covered: the store after it.
abbrev added : StoreLocal → Directory → ℕ → Map ℕ Bool → StoreLocal
added s dir n m = record s {
  items = insert (length s.items) m (insert (length s.items) [] s.items);
  collections = insert dir.name (length s.items) s.collections;
  items_count = insert (length s.items) n s.items_count;
}

length-added :
    (s : StoreLocal) (dir : Directory) (n : ℕ) (m : Map ℕ Bool)
    → IsIndexed s
    → length (added s dir n m).items ≡ length s.items + 1
length-added s dir n m v =
    length-insert_there (length s.items) m [] s.items
    ∙ length-insert_absent (length s.items) [] s.items
        (by_index (lookup (length s.items) s.items) refl)
  where
    by_index :
        (o : Option (Map ℕ Bool))
        → lookup (length s.items) s.items ≡ o
        → lookup (length s.items) s.items ≡ none
    by_index none e = e
    by_index (some x) e = absurd (omega (arith, v.free (length s.items) x e))

added-IsIndexed :
    (s : StoreLocal) (dir : Directory) (n : ℕ) (m : Map ℕ Bool)
    → IsIndexed s
    → IsIndexed (added s dir n m)
added-IsIndexed s dir n m v =
    let longer = length-added s dir n m v in
    record {
      given = λ c k h. elim (Bool-cases (dir.name == c)) [
        | inl here ↦
            let this : some (length s.items) ≡ some k = sym (rw (lookup-insert, here) refl) ∙ h in
            ground (arith, this, longer)
        | inr there ↦
            let before : k < length s.items =
              v.given c k (sym (rw (lookup-insert, there) refl) ∙ h) in
            omega (arith, before, longer)
      ];
      free = λ k x h. elim (Bool-cases (nat_eq (length s.items) k)) [
        | inl here ↦ ground (arith, nat_eq_iff (length s.items) k, longer)
        | inr there ↦
            let before : k < length s.items =
              v.free k x (sym (rw (lookup-insert, there) (rw (lookup-insert, there) refl)) ∙ h) in
            omega (arith, before, longer)
      ];
    }

added-IsCounted :
    (s : StoreLocal) (dir : Directory) (n : ℕ) (m : Map ℕ Bool)
    → ((i : ℕ) (content : Content) → lookup i (files_of s dir.name) ≡ some content → i ≤ n)
    → IsIndexed s
    → IsCounted s
    → IsCounted (added s dir n m)
added-IsCounted s dir n m covers v counted c k i content reg h = elim (Bool-cases (dir.name == c)) [
  | inl here ↦
      let this : some (length s.items) ≡ some k = sym (rw (lookup-insert, here) refl) ∙ reg in
      let within : i ≤ n = covers i content (
        subst (λ x. lookup i (files_of s x) ≡ some content)
          (sym ((string_Eq.beq_iff dir.name c).0 here)) h) in
      ground (
        arith,
        this,
        within,
        lookup-insert (length s.items) k n s.items_count,
        nat_eq_iff (length s.items) k,
      )
  | inr there ↦
      let reg_before : lookup c s.collections ≡ some k =
        sym (rw (lookup-insert, there) refl) ∙ reg in
      let below : k < length s.items = v.given c k reg_before in
      let before : i ≤ count_of s k = counted c k i content reg_before h in
      ground (
        arith,
        below,
        before,
        lookup-insert (length s.items) k n s.items_count,
        nat_eq_iff (length s.items) k,
      )
]

connect-keeps :
    (s t : StoreLocal) (dirs : List Directory)
    → IsIndexed s
    → IsCounted s
    → All (IsCovered s) dirs
    → connect s dirs ≡ some t
    → IsCounted t
unfolding connect filled registered
connect-keeps s t [] v counted covered e = subst IsCounted (some-same e) counted
  where
    some-same : some s ≡ some t → s ≡ t
    some-same e = cc e
connect-keeps s t (dir ∷ dirs) v counted ((n, is_count, covers), covered) e =
    elim (Option-cases (known_from dir.entries [])) [
      | inl unknown ↦ absurd (nothing-some (sym (rw (is_count, unknown) refl) ∙ e))
      | inr (m, known) ↦
          let rest : connect (added s dir n m) dirs ≡ some t =
            sym (rw (is_count, known) refl) ∙ e in
          connect-keeps (added s dir n m) t dirs (added-IsIndexed s dir n m v)
            (added-IsCounted s dir n m covers v counted) covered rest
    ]
  where
    nothing-some : none ≡ some t → ⊥
    nothing-some h = cc h

-- What `connect` opens is counted, if every collection on disk has a file `cnt` that covers the
-- numbers of its files.
pub connect-IsCounted :
    (s t : StoreLocal) (dirs : List Directory)
    → s.collections ≡ []
    → s.items ≡ []
    → All (IsCovered s) dirs
    → connect s dirs ≡ some t
    → IsCounted t
unfolding lookup
connect-IsCounted s t dirs no_collections no_items covered e =
    connect-keeps s t dirs
      (record {
        given = λ c k h. absurd (nothing-some (sym (ap (λ m. lookup c m) no_collections) ∙ h));
        free = λ k m h. absurd (nothing-some (sym (ap (λ m. lookup k m) no_items) ∙ h));
      })
      (λ c k i content h _. absurd (nothing-some (sym (ap (λ m. lookup c m) no_collections) ∙ h)))
      covered e
  where
    nothing-some : {A : Type 0} {a : A} → none ≡ some a → ⊥
    nothing-some h = cc h
