-- ===== src/Util/Multipart/Fields.antt =====
-- The fields of a form that src/util/multipart.rs reads stay within the limit.
use isabelle_core.Prelude.{
  ltb, Bool-cases, ◌==◌, nat_Eq, string_Eq, u64_max, saturating_add, all, Map, lookup, insert,
  lookup-insert, length, length-append, ℕ, ◌+◌, ◌≤◌, ◌<◌, String, ◌≡◌, refl, sym, ap, ◌∙◌, inl, inr,
  some, List, [], ◌∷◌, ◌++◌, arith,
}
use isabelle_core.Util.Multipart.{
  Limits, read, not_read, Event, chunk, broken, stuck, Timed, finished, never, with_deadline, Part,
  field, broken_part, stuck_part, FieldEnd, field_read, field_failed, field_stuck, read_field,
  read_parts, read_all, read_fields,
}

-- What a field comes to is within the total, and the total within the limit.
FieldBounded : ℕ → FieldEnd → Type 0
FieldBounded max_bytes (field_read at total data_read) =
    (total ≤ max_bytes) × (length data_read ≤ total)
FieldBounded max_bytes (field_failed at e) = Unit
FieldBounded max_bytes field_stuck = Unit

read_field-FieldBounded :
    (max_bytes : ℕ) (es : List Event) (at total : ℕ) (data_read : List ℕ)
    → max_bytes < u64_max
    → total ≤ max_bytes
    → length data_read ≤ total
    → FieldBounded max_bytes (read_field max_bytes es at total data_read)
unfolding read_field FieldBounded
read_field-FieldBounded max_bytes [] at total data_read room fits held = (fits, held)
read_field-FieldBounded max_bytes (stuck ∷ es) at total data_read room fits held = tt
read_field-FieldBounded max_bytes (broken wait ∷ es) at total data_read room fits held = tt
read_field-FieldBounded max_bytes (chunk wait bytes ∷ es) at total data_read room fits held =
    let sum : length (data_read ++ bytes) ≡ length data_read + length bytes =
      length-append data_read bytes in
    elim (Bool-cases (ltb max_bytes (saturating_add total (length bytes)))) [
      | inl over ↦ rw over tt
      | inr small ↦ rw small (
          read_field-FieldBounded max_bytes es (at + wait) (saturating_add total (length bytes))
            (data_read ++ bytes) room (ground arith) (ground (arith, sum)))
    ]

AllBounded : ℕ → Map String (List ℕ) → Type 0
AllBounded max_bytes m = (k : String) (d : List ℕ) → lookup k m ≡ some d → length d ≤ max_bytes

insert-AllBounded :
    (max_bytes : ℕ) (name : String) (d : List ℕ) (m : Map String (List ℕ))
    → length d ≤ max_bytes
    → AllBounded max_bytes m
    → AllBounded max_bytes (insert name d m)
unfolding AllBounded
insert-AllBounded max_bytes name d m small all k got h = elim (Bool-cases (name == k)) [
  | inl same ↦ ground (arith, lookup-insert name k d m)
  | inr other ↦ all k got (sym (lookup-insert name k d m ∙ rw other refl) ∙ h)
]

TimedBounded : ℕ → Timed (Map String (List ℕ)) → Type 0
TimedBounded max_bytes never = Unit
TimedBounded max_bytes (finished at (not_read e)) = Unit
TimedBounded max_bytes (finished at (read m)) = AllBounded max_bytes m

read_parts-TimedBounded :
    (max_bytes : ℕ) (ps : List Part) (name : String) (e : FieldEnd) (m : Map String (List ℕ))
    → max_bytes < u64_max
    → FieldBounded max_bytes e
    → AllBounded max_bytes m
    → TimedBounded max_bytes (read_parts max_bytes ps name e m)
unfolding read_parts TimedBounded FieldBounded
read_parts-TimedBounded max_bytes ps name field_stuck m room f all = tt
read_parts-TimedBounded max_bytes ps name (field_failed at e) m room f all = tt
read_parts-TimedBounded max_bytes [] name (field_read at total d) m room f all =
    insert-AllBounded max_bytes name d m (omega (arith, f.0, f.1)) all
read_parts-TimedBounded max_bytes (stuck_part ∷ ps) name (field_read at total d) m room f all = tt
read_parts-TimedBounded max_bytes (broken_part wait ∷ ps) name (field_read at total d) m room f
      all =
    tt
read_parts-TimedBounded max_bytes (field wait next es ∷ ps) name (field_read at total d) m room f
      all =
    read_parts-TimedBounded max_bytes ps next (read_field max_bytes es (at + wait) total [])
      (insert name d m) room
      (read_field-FieldBounded max_bytes es (at + wait) total [] room f.0 (omega arith))
      (insert-AllBounded max_bytes name d m (omega (arith, f.0, f.1)) all)

read_all-TimedBounded :
    (max_bytes : ℕ) (ps : List Part)
    → max_bytes < u64_max
    → TimedBounded max_bytes (read_all max_bytes ps)
unfolding read_all TimedBounded
read_all-TimedBounded max_bytes [] room = unfold AllBounded lookup in (λ k d h. ground arith)
read_all-TimedBounded max_bytes (stuck_part ∷ ps) room = tt
read_all-TimedBounded max_bytes (broken_part wait ∷ ps) room = tt
read_all-TimedBounded max_bytes (field wait name es ∷ ps) room =
    read_parts-TimedBounded max_bytes ps name (read_field max_bytes es wait 0 []) [] room
      (read_field-FieldBounded max_bytes es wait 0 [] room (omega arith) (omega arith))
      (unfold AllBounded lookup in (λ k d h. ground arith))

-- No field of a form that was read is larger than the limit for the whole body.
pub read_fields-bounded :
    (payload : List Part) (limits : Limits) (m : Map String (List ℕ)) (k : String) (d : List ℕ)
    → limits.max_bytes < u64_max
    → read_fields payload limits ≡ read m
    → lookup k m ≡ some d
    → length d ≤ limits.max_bytes
unfolding read_fields with_deadline TimedBounded AllBounded
read_fields-bounded payload limits m k d room h there =
    by_end (read_all limits.max_bytes payload) (read_all-TimedBounded limits.max_bytes payload room)
      h
  where
    by_end :
        (t : Timed (Map String (List ℕ)))
        → TimedBounded limits.max_bytes t
        → with_deadline limits t ≡ read m
        → length d ≤ limits.max_bytes
    by_end never b e = ground arith
    by_end (finished at (not_read r)) b e = ground arith
    by_end (finished at (read got)) b e =
        let same : got ≡ m = ground arith in b k d (ap (λ x. lookup k x) same ∙ there)
