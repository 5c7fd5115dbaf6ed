-- ===== src/Util/Multipart.antt =====
-- src/util/multipart.rs: request bodies, read under a limit of time and a limit of size.
-- A payload is the list of what it yields, each with the time that is waited for it; a payload that
-- never yields again ends in `stuck`. The sums of lengths are those of buffers that stand in
-- memory, which do not reach 2 ^ 64. Texts of errors are left out.
pub mod Bounded
pub mod Fields
use isabelle_core.Prelude.{
  ltb, leb, nat_eq, if◌then◌else◌, nat_eq_iff, Bool-cases, Option-cases, ◌>>=◌, Eq, ◌==◌, nat_Eq,
  string_Eq, u64_max, saturating_add, saturating_mul, is_some, any, all, contains, nat_eq_refl, Map,
  or_else, lookup, insert, remove, retain, contains_key, lookup-insert, lookup-remove, beq_refl,
  Distinct, insert-Distinct, remove-Distinct, is_empty, starts_with, append, contains_text,
  any_char, ends_with_char, first_part, split_on, is_whitespace, is_control, trim_start, trim_end,
  trim, to_ascii_lowercase, eq_ignore_ascii_case, rsplit_once, split_once, split_once-append,
  strip_prefix, trim_end-append, trim_start_matches, trim_end_matches, ends_with, split_when,
  text_leb, text_leb-total, text_leb_trans, utf8, as_bytes, as_bytes_injective, Casing,
  to_lowercase, to_lowercase, length, take, drop, length-take-le, take-append_all, drop-append_all,
  length-append, window-append, All, All-take, All-drop, digit_char, digits_from, to_decimal,
  scan_digits, parse_digits, parse_u64, is_number, to_decimal-is_number, parse_u64-to_decimal, ℕ,
  zero, suc, ◌+◌, ◌-◌, ◌*◌, ◌/◌, ◌%◌, ◌^◌, ◌≤◌, ◌<◌, min, max, String, ◌≡◌, refl, sym, ap, ◌∙◌,
  subst, ◌≢◌, ◌↔◌, ◌⊎◌, inl, inr, Bool, true, false, ◌&&◌, ◌||◌, not, Option, none, some, get_or,
  List, [], ◌∷◌, ◌++◌, map, arith, eq_iff, eq_refl,
}

pub data ReadError : Type 0 where
  timeout : ReadError
  too_large : ℕ → ReadError
  malformed : ReadError
  no_space : ReadError

-- The status that the client is told.
unfoldable pub status : ReadError → ℕ
status (too_large n) = 413
status no_space = 507
status timeout = 400
status malformed = 400

pub record Limits : Type 0 where
  pub deadline : ℕ
  pub max_bytes : ℕ
  pub disk_low : Bool

pub data ReadResult {ℓ} (A : Type ℓ) : Type ℓ where
  read : A → ReadResult A
  not_read : ReadError → ReadResult A

-- What a stream yields next, and how long that takes.
pub data Event : Type 0 where
  chunk : ℕ → List ℕ → Event
  broken : ℕ → Event
  stuck : Event

-- What a reader comes to, and when; `never` if it waits for ever.
pub data Timed {ℓ} (A : Type ℓ) : Type ℓ where
  finished : ℕ → ReadResult A → Timed A
  never : Timed A

unfoldable pub with_deadline {ℓ} : {A : Type ℓ} → Limits → Timed A → ReadResult A
with_deadline limits never = not_read timeout
with_deadline limits (finished at result) =
    if leb at limits.deadline then result else not_read timeout

-- The loop of `read_body`.
unfoldable pub read_chunks : ℕ → List Event → ℕ → List ℕ → Timed (List ℕ)
read_chunks max_bytes [] at body = finished at (read body)
read_chunks max_bytes (stuck ∷ es) at body = never
read_chunks max_bytes (broken wait ∷ es) at body = finished (at + wait) (not_read malformed)
read_chunks max_bytes (chunk wait bytes ∷ es) at body =
    let rest = read_chunks max_bytes es (at + wait) (body ++ bytes) in
    if ltb max_bytes (length body + length bytes)
    then finished (at + wait) (not_read (too_large (length body + length bytes)))
    else rest

unfoldable pub read_body : List Event → Limits → ReadResult (List ℕ)
unfolding with_deadline read_chunks
read_body payload limits = with_deadline limits (read_chunks limits.max_bytes payload 0 [])

-- `read_json_body`, on what the JSON reader makes of the bytes
unfoldable pub parsed {ℓ} : {A : Type ℓ} → Option A → ReadResult A
parsed none = not_read malformed
parsed (some a) = read a

unfoldable pub parse_body {ℓ} :
    {A : Type ℓ} → (List ℕ → Option A) → ReadResult (List ℕ) → ReadResult A
unfolding parsed
parse_body from_slice (not_read e) = not_read e
parse_body from_slice (read body) = parsed (from_slice body)

unfoldable pub read_json_body {ℓ} :
    {A : Type ℓ} → (List ℕ → Option A) → List Event → Limits → ReadResult A
unfolding read_body parse_body
read_json_body from_slice payload limits = parse_body from_slice (read_body payload limits)

-- A multipart stream: the fields, each with its name and what it yields.
pub data Part : Type 0 where
  field : ℕ → String → List Event → Part
  broken_part : ℕ → Part
  stuck_part : Part

-- One field: the data, the total so far, and the time.
pub data FieldEnd : Type 0 where
  field_read : ℕ → ℕ → List ℕ → FieldEnd
  field_failed : ℕ → ReadError → FieldEnd
  field_stuck : FieldEnd

unfoldable pub read_field : ℕ → List Event → ℕ → ℕ → List ℕ → FieldEnd
read_field max_bytes [] at total data_read = field_read at total data_read
read_field max_bytes (stuck ∷ es) at total data_read = field_stuck
read_field max_bytes (broken wait ∷ es) at total data_read = field_failed (at + wait) malformed
read_field max_bytes (chunk wait bytes ∷ es) at total data_read =
    let rest =
      read_field max_bytes es (at + wait) (saturating_add total (length bytes))
        (data_read ++ bytes) in
    if ltb max_bytes (saturating_add total (length bytes))
    then field_failed (at + wait) (too_large (saturating_add total (length bytes)))
    else rest

-- The loop over the fields, on the time, the total and the fields so far.
unfoldable pub read_parts :
    ℕ → List Part → String → FieldEnd → Map String (List ℕ) → Timed (Map String (List ℕ))
unfolding read_field
read_parts max_bytes parts name field_stuck fields = never
read_parts max_bytes parts name (field_failed at e) fields = finished at (not_read e)
read_parts max_bytes [] name (field_read at total data_read) fields =
    finished at (read (insert name data_read fields))
read_parts max_bytes (stuck_part ∷ ps) name (field_read at total data_read) fields = never
read_parts max_bytes (broken_part wait ∷ ps) name (field_read at total data_read) fields =
    finished (at + wait) (not_read malformed)
read_parts max_bytes (field wait next es ∷ ps) name (field_read at total data_read) fields =
    read_parts max_bytes ps next (read_field max_bytes es (at + wait) total [])
      (insert name data_read fields)

unfoldable pub read_all : ℕ → List Part → Timed (Map String (List ℕ))
unfolding read_parts read_field
read_all max_bytes [] = finished 0 (read [])
read_all max_bytes (stuck_part ∷ ps) = never
read_all max_bytes (broken_part wait ∷ ps) = finished wait (not_read malformed)
read_all max_bytes (field wait name es ∷ ps) =
    read_parts max_bytes ps name (read_field max_bytes es wait 0 []) []

unfoldable pub read_fields : List Part → Limits → ReadResult (Map String (List ℕ))
unfolding read_all with_deadline
read_fields payload limits = with_deadline limits (read_all limits.max_bytes payload)
