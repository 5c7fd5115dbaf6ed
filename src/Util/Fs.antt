-- ===== src/Util/Fs.antt =====
-- src/util/fs.rs: replacing a file in one step.
-- The files are a map from paths to bytes. What the system does is an interface; every state that a
-- reader, or a crash, could meet is kept in a list. The permissions are left out, and the flush of
-- the directory, which changes no file.
pub mod Atomic
use isabelle_core.Prelude.{
  ltb, leb, nat_eq, if◌then◌else◌, nat_eq_iff, Bool-cases, Option-cases, ◌>>=◌, Eq, ◌==◌, nat_Eq,
  string_Eq, u64_max, saturating_add, saturating_mul, is_some, any, all, contains, nat_eq_refl, Map,
  or_else, lookup, insert, remove, retain, contains_key, lookup-insert, lookup-remove, beq_refl,
  Distinct, insert-Distinct, remove-Distinct, is_empty, starts_with, append, contains_text,
  any_char, ends_with_char, first_part, split_on, is_whitespace, is_control, trim_start, trim_end,
  trim, to_ascii_lowercase, eq_ignore_ascii_case, rsplit_once, split_once, split_once-append,
  strip_prefix, trim_end-append, trim_start_matches, trim_end_matches, ends_with, split_when,
  text_leb, text_leb-total, text_leb_trans, utf8, as_bytes, as_bytes_injective, Casing,
  to_lowercase, to_lowercase, length, take, drop, length-take-le, take-append_all, drop-append_all,
  length-append, window-append, All, All-take, All-drop, digit_char, digits_from, to_decimal,
  scan_digits, parse_digits, parse_u64, is_number, to_decimal-is_number, parse_u64-to_decimal, ℕ,
  zero, suc, ◌+◌, ◌-◌, ◌*◌, ◌/◌, ◌%◌, ◌^◌, ◌≤◌, ◌<◌, min, max, String, ◌≡◌, refl, sym, ap, ◌∙◌,
  subst, ◌≢◌, ◌↔◌, ◌⊎◌, inl, inr, Bool, true, false, ◌&&◌, ◌||◌, not, Option, none, some, get_or,
  List, [], ◌∷◌, ◌++◌, map, arith, eq_iff, eq_refl,
}

abbrev pub Files : Type 0
Files = Map String (List ℕ)

-- Which of the calls succeed, and how many bytes a write that fails has written.
pub record System : Type 0 where
  pub opens : Bool
  pub write_all : Bool
  pub written : ℕ
  pub sync_all : Bool
  pub rename : Bool
  pub remove_file : Bool

-- What is left behind, what the caller is told, and the states on the way.
pub record Replaced : Type 0 where
  pub files : Files
  pub success : Bool
  pub seen : List Files

unfoldable pub tmp_sibling : String → String
tmp_sibling path = append path ".tmp"

-- `let _ = fs::remove_file(tmp)`
unfoldable pub removed : System → String → Files → Files
removed sys tmp fs = if sys.remove_file then remove tmp fs else fs

unfoldable pub give_up : System → String → Files → List Files → Replaced
unfolding removed
give_up sys tmp fs seen = record {
  files = removed sys tmp fs;
  success = false;
  seen = removed sys tmp fs ∷ seen;
}

-- `fs::rename(tmp, path)`: the contents move in one step.
unfoldable pub renamed : String → String → Files → Files
renamed tmp path fs = insert path (get_or (lookup tmp fs) []) (remove tmp fs)

-- `finish`, once the staging file is complete
unfoldable pub finish : System → String → String → Files → List Files → Replaced
unfolding give_up renamed
finish sys tmp path fs seen =
    if sys.rename
    then record { files = renamed tmp path fs; success = true; seen = renamed tmp path fs ∷ seen }
    else give_up sys tmp fs seen

-- The staging: the file is opened empty, written and flushed.
unfoldable pub stage : System → String → String → Files → List ℕ → Replaced
unfolding finish give_up
stage sys tmp path fs bytes =
    let empty_file = insert tmp [] fs in
    let part = insert tmp (take sys.written bytes) fs in
    let full = insert tmp bytes fs in
    if not sys.opens
    then give_up sys tmp fs (fs ∷ [])
    else if not sys.write_all
    then give_up sys tmp part (part ∷ empty_file ∷ fs ∷ [])
    else if not sys.sync_all
    then give_up sys tmp full (full ∷ empty_file ∷ fs ∷ [])
    else finish sys tmp path full (full ∷ empty_file ∷ fs ∷ [])

unfoldable pub atomic_write : System → Files → String → List ℕ → Replaced
unfolding stage tmp_sibling
atomic_write sys fs path bytes = stage sys (tmp_sibling path) path fs bytes

-- `write_json` and `read_json`, on what the coding makes of the value
unfoldable pub write_encoded : System → Files → String → Option (List ℕ) → Replaced
unfolding atomic_write
write_encoded sys fs path none = record { files = fs; success = false; seen = fs ∷ [] }
write_encoded sys fs path (some encoded) = atomic_write sys fs path encoded

unfoldable pub write_json {ℓ} :
    {A : Type ℓ} → (A → Option (List ℕ)) → System → Files → String → A → Replaced
unfolding write_encoded
write_json to_vec sys fs path value = write_encoded sys fs path (to_vec value)

unfoldable pub read_json {ℓ} : {A : Type ℓ} → (List ℕ → Option A) → Files → String → Option A
read_json from_str fs path = lookup path fs >>= from_str
