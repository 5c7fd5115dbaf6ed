-- ===== src/Util/Fs/Atomic.antt =====
-- What src/util/fs.rs promises: no reader meets half a file.
use isabelle_core.Prelude.{
  if◌then◌else◌, Bool-cases, ◌==◌, nat_Eq, string_Eq, lookup, insert, remove, lookup-insert,
  lookup-remove, beq_refl, append, take, All, ℕ, suc, ◌+◌, String, ◌≡◌, refl, sym, ap, ◌∙◌, ◌≢◌,
  ◌⊎◌, inl, inr, true, false, ◌&&◌, Option, none, some, get_or, List, [], arith,
}
use isabelle_core.Util.Fs.{
  Files, System, Replaced, tmp_sibling, removed, give_up, renamed, finish, stage, atomic_write,
  write_encoded, write_json, read_json,
}

text_length : String → ℕ
text_length String.[] = 0
text_length (String.◌∷◌ c s) = suc (text_length s)

text_length-append : (s t : String) → text_length (append s t) ≡ text_length s + text_length t
unfolding append text_length
text_length-append String.[] t = omega arith
text_length-append (String.◌∷◌ c s) t = omega (arith, text_length-append s t)

-- The staging file is never the file itself.
tmp_sibling-apart : (path : String) → (tmp_sibling path == path) ≡ false
unfolding tmp_sibling text_length
tmp_sibling-apart path = elim (Bool-cases (tmp_sibling path == path)) [
  | inl same ↦ absurd (longer ((string_Eq.beq_iff (append path ".tmp") path).0 same))
  | inr apart ↦ apart
]
  where
    longer : append path ".tmp" ≢ path
    longer e =
        let as_long : text_length (append path ".tmp") ≡ text_length path = ap text_length e in
        omega (arith, text_length-append path ".tmp", as_long)

-- The file at the path is the old one or the whole new one.
abbrev pub OldOrNew : Files → String → List ℕ → Files → Type 0
OldOrNew fs path bytes now = (lookup path now ≡ lookup path fs) ⊎ (lookup path now ≡ some bytes)

module _ (sys : System) (tmp path : String) (fs : Files) (apart : (tmp == path) ≡ false) where
  lookup-staged :
      (k : String) (bytes : List ℕ)
      → (tmp == k) ≡ false
      → lookup k (insert tmp bytes fs) ≡ lookup k fs
  lookup-staged k bytes other = lookup-insert tmp k bytes fs ∙ rw other refl

  lookup-removed :
      (k : String) (now : Files)
      → (tmp == k) ≡ false
      → lookup k (removed sys tmp now) ≡ lookup k now
  unfolding removed
  lookup-removed k now other = elim (Bool-cases sys.remove_file) [
    | inl gone ↦ rw gone (lookup-remove tmp k now ∙ rw other refl)
    | inr kept ↦ rw kept refl
  ]

  lookup-renamed :
      (bytes : List ℕ) (k : String)
      → lookup k (renamed tmp path (insert tmp bytes fs))
        ≡ (if path == k then some bytes else if tmp == k then none else lookup k fs)
  unfolding renamed
  lookup-renamed bytes k =
      let there : lookup tmp (insert tmp bytes fs) ≡ some bytes =
        rw (lookup-insert, beq_refl tmp) refl in
      let moved : get_or (lookup tmp (insert tmp bytes fs)) [] ≡ bytes =
        ap (λ o. get_or o []) there in
      rw
        (
          moved,
          lookup-insert path k bytes (remove tmp (insert tmp bytes fs)),
          lookup-remove tmp k (insert tmp bytes fs),
          lookup-insert tmp k bytes fs,
        )
        (ground arith)

  -- What a write that is given up leaves at any other path.
  give_up-elsewhere :
      (k : String) (bytes : List ℕ)
      → (tmp == k) ≡ false
      → lookup k (removed sys tmp (insert tmp bytes fs)) ≡ lookup k fs
  give_up-elsewhere k bytes other =
      lookup-removed k (insert tmp bytes fs) other ∙ lookup-staged k bytes other

  -- The states up to the full staging file have the file as it was.
  staged-old : (new bytes : List ℕ) → OldOrNew fs path new (insert tmp bytes fs)
  staged-old new bytes = inl (lookup-staged path bytes apart)

  removed-old : (new bytes : List ℕ) → OldOrNew fs path new (removed sys tmp (insert tmp bytes fs))
  removed-old new bytes =
      inl (lookup-removed path (insert tmp bytes fs) apart ∙ lookup-staged path bytes apart)

  -- What holds of a replacement: nobody sees half a file, and of all files but the staging file
  -- only the one at the path changes, and only if the caller is told so.
  abbrev Holds : List ℕ → String → Replaced → Type 0
  Holds bytes k r =
      All (OldOrNew fs path bytes) r.seen
      × (lookup k r.files ≡ (if (path == k) && r.success then some bytes else lookup k fs))

  stage-Holds :
      (bytes : List ℕ) (k : String)
      → (tmp == k) ≡ false
      → Holds bytes k (stage sys tmp path fs bytes)
  unfolding stage finish give_up
  stage-Holds bytes k other = elim (Bool-cases sys.opens) [
    | inr shut ↦ rw shut (
      (inl (lookup-removed path fs apart), (inl refl, tt)),
      lookup-removed k fs other ∙ ground arith,
    )
    | inl opened ↦ elim (Bool-cases sys.write_all) [
      | inr short ↦
          rw (opened, short)
            (
              (
                removed-old bytes (take sys.written bytes),
                (staged-old bytes (take sys.written bytes), (staged-old bytes [], (inl refl, tt))),
              ),
              give_up-elsewhere k (take sys.written bytes) other ∙ ground arith,
            )
      | inl whole ↦ elim (Bool-cases sys.sync_all) [
        | inr lost ↦
            rw (opened, whole, lost)
              (
                (
                  removed-old bytes bytes,
                  (staged-old bytes bytes, (staged-old bytes [], (inl refl, tt))),
                ),
                give_up-elsewhere k bytes other ∙ ground arith,
              )
        | inl flushed ↦ elim (Bool-cases sys.rename) [
          | inr stays ↦
              rw (opened, whole, flushed, stays)
                (
                  (
                    removed-old bytes bytes,
                    (staged-old bytes bytes, (staged-old bytes [], (inl refl, tt))),
                  ),
                  give_up-elsewhere k bytes other ∙ ground arith,
                )
          | inl moved ↦
              rw (opened, whole, flushed, moved)
                (
                  (
                    inr (lookup-renamed bytes path ∙ rw (beq_refl path) refl),
                    (staged-old bytes bytes, (staged-old bytes [], (inl refl, tt))),
                  ),
                  lookup-renamed bytes k ∙ ground (arith, other),
                )
        ]
      ]
    ]
  ]

-- Whatever fails on the way, every state of the files has the old contents at the path or the whole
-- new ones; afterwards every file but the staging file is as it was, except that the one at the
-- path has the new contents if the caller is told of success.
pub atomic_write-untorn :
    (sys : System) (fs : Files) (path : String) (bytes : List ℕ) (k : String)
    → (tmp_sibling path == k) ≡ false
    → All (OldOrNew fs path bytes) (atomic_write sys fs path bytes).seen
      × (lookup k (atomic_write sys fs path bytes).files ≡ (
          if (path == k) && (atomic_write sys fs path bytes).success
          then some bytes
          else lookup k fs))
unfolding atomic_write
atomic_write-untorn sys fs path bytes k other =
    stage-Holds sys (tmp_sibling path) path fs (tmp_sibling-apart path) bytes k other

-- A value that was written is read back, if the coding gives back what it took.
pub write_json-read_json {ℓ} :
    {A : Type ℓ} (to_vec : A → Option (List ℕ)) (from_str : List ℕ → Option A) (sys : System)
    (fs : Files) (path : String) (value : A) (encoded : List ℕ)
    → to_vec value ≡ some encoded
    → from_str encoded ≡ some value
    → (write_json to_vec sys fs path value).success ≡ true
    → read_json from_str (write_json to_vec sys fs path value).files path ≡ some value
unfolding write_json write_encoded read_json
write_json-read_json to_vec from_str sys fs path value encoded e d done =
    let plain : (atomic_write sys fs path encoded).success ≡ true =
      ap (λ o. (write_encoded sys fs path o).success) (sym e) ∙ done in
    let (_, there) = atomic_write-untorn sys fs path encoded path (tmp_sibling-apart path) in
    let now : lookup path (atomic_write sys fs path encoded).files ≡ some encoded =
      there ∙ rw (beq_refl path, plain) refl in
    rw (e, now) d
