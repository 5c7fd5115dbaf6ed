-- ===== src/State/Secrets/Opening.antt =====
-- Opening the store of src/state/secrets.rs: the key file, the sealed file in its two formats, and
-- the index of names that is built from the entries.
-- AES-GCM, the JSON coding and the file system are interfaces; the random bytes are arguments.
pub mod Built
pub mod Migrated
pub mod Readable
pub mod Reopened
use isabelle_core.Prelude.{
  ltb, leb, nat_eq, if◌then◌else◌, nat_eq_iff, Bool-cases, Option-cases, ◌>>=◌, Eq, ◌==◌, nat_Eq,
  string_Eq, u64_max, saturating_add, saturating_mul, is_some, any, all, contains, nat_eq_refl, Map,
  or_else, lookup, insert, remove, retain, contains_key, lookup-insert, lookup-remove, beq_refl,
  Distinct, insert-Distinct, remove-Distinct, is_empty, starts_with, append, contains_text,
  any_char, ends_with_char, first_part, split_on, is_whitespace, is_control, trim_start, trim_end,
  trim, to_ascii_lowercase, eq_ignore_ascii_case, rsplit_once, trim_start_matches, trim_end_matches,
  ends_with, split_when, text_leb, utf8, as_bytes, as_bytes_injective, Casing, to_lowercase,
  to_lowercase, length, take, drop, length-take-le, window-append, All, All-take, All-drop, ℕ, zero,
  suc, ◌+◌, ◌-◌, ◌*◌, ◌/◌, ◌%◌, ◌^◌, ◌≤◌, ◌<◌, min, max, String, ◌≡◌, refl, sym, ap, ◌∙◌, subst,
  ◌≢◌, ◌↔◌, ◌⊎◌, inl, inr, Bool, true, false, ◌&&◌, ◌||◌, not, Option, none, some, get_or, List, [],
  ◌∷◌, ◌++◌, map, arith, eq_iff, eq_refl,
}
use isabelle_core.Item.{Item}
use isabelle_core.State.Secrets.{SecretStore, name_field}

-- `KEY_LEN`, `SESSION_KEY_LEN`, `NONCE_LEN` and `FORMAT_VERSION`
abbrev pub key_len : ℕ
key_len = 32

abbrev pub session_key_len : ℕ
session_key_len = 64

abbrev pub nonce_len : ℕ
nonce_len = 12

abbrev pub format_version : ℕ
format_version = 1

pub record Envelope : Type 0 where
  pub v : ℕ
  pub next_id : ℕ
  pub entries : Map ℕ Item

-- The errors by their `io::ErrorKind`: `InvalidData`, or what the file system answers.
pub data OpenError : Type 0 where
  invalid_data : OpenError
  not_encrypted : OpenError
  io_failed : OpenError

pub data Opened (A : Type 0) : Type 0 where
  opened : A → Opened A
  failed : OpenError → Opened A

-- What stands at a path.
pub data FileState : Type 0 where
  absent : FileState
  unreadable : FileState
  holds : List ℕ → FileState

-- Do `create_dir_all` on the parent and `atomic_write` succeed?
pub record Files : Type 0 where
  pub create_parent : Bool
  pub atomic_write : List ℕ → Bool

-- `Aes256Gcm` under a key: a nonce and a text to the sealed text, and back.
pub record Cipher : Type 0 where
  pub encrypt : List ℕ → List ℕ → List ℕ → Option (List ℕ)
  pub decrypt : List ℕ → List ℕ → List ℕ → Option (List ℕ)

-- `serde_json`; what it reads into a `HashMap` has no key twice.
pub record Format : Type 0 where
  pub write_envelope : Envelope → Option (List ℕ)
  pub read_envelope : List ℕ → Option Envelope
  pub read_legacy : List ℕ → Option (Map String Item)
  pub read_envelope-Distinct :
      (b : List ℕ) (env : Envelope) → read_envelope b ≡ some env → Distinct env.entries

-- Writing the file: what it answers, and what stands at the path then.
unfoldable pub written_file : ⦃f : Files⦄ → FileState → List ℕ → FileState × Bool
written_file ⦃f⦄ file bytes = if f.atomic_write bytes then (holds bytes, true) else (file, false)

unfoldable pub answer_key : List ℕ → FileState × Bool → FileState × Opened (List ℕ)
answer_key key (file, true) = (file, opened key)
answer_key key (file, false) = (file, failed io_failed)

-- `load_or_create_key` and `load_or_create_session_key` for keys of `len` bytes.
unfoldable pub load_or_create : ⦃f : Files⦄ → ℕ → FileState → List ℕ → FileState × Opened (List ℕ)
unfolding written_file answer_key
load_or_create len unreadable key = (unreadable, failed io_failed)
load_or_create len (holds bytes) key =
    if length bytes == len then (holds bytes, opened bytes) else (holds bytes, failed invalid_data)
load_or_create ⦃f⦄ len absent key =
    if f.create_parent then answer_key key (written_file absent key) else (absent, failed io_failed)

unfoldable pub load_or_create_key : ⦃f : Files⦄ → FileState → List ℕ → FileState × Opened (List ℕ)
unfolding load_or_create
load_or_create_key file key = load_or_create key_len file key

unfoldable pub load_or_create_session_key :
    ⦃f : Files⦄ → FileState → List ℕ → FileState × Opened (List ℕ)
unfolding load_or_create
load_or_create_session_key file key = load_or_create session_key_len file key

-- `encrypt_blob`: the nonce that was drawn, then the sealed text.
unfoldable pub with_nonce : List ℕ → Option (List ℕ) → Option (List ℕ)
with_nonce nonce none = none
with_nonce nonce (some ciphertext) = some (nonce ++ ciphertext)

unfoldable pub encrypt_blob : ⦃c : Cipher⦄ → List ℕ → List ℕ → List ℕ → Option (List ℕ)
unfolding with_nonce
encrypt_blob ⦃c⦄ key nonce plaintext = with_nonce nonce (c.encrypt key nonce plaintext)

unfoldable pub flush_blob : ⦃f : Files⦄ → FileState → Option (List ℕ) → FileState × Opened Unit
unfolding written_file
flush_blob file none = (file, failed not_encrypted)
flush_blob ⦃f⦄ file (some blob) =
    if f.atomic_write blob then (holds blob, opened tt) else (file, failed io_failed)

unfoldable pub flush_plain :
    ⦃f : Files⦄ ⦃c : Cipher⦄
    → List ℕ
    → List ℕ
    → FileState
    → Option (List ℕ)
    → FileState × Opened Unit
unfolding encrypt_blob flush_blob
flush_plain key nonce file none = (file, failed invalid_data)
flush_plain key nonce file (some plaintext) = flush_blob file (encrypt_blob key nonce plaintext)

unfoldable pub envelope_of : Map ℕ Item → ℕ → Envelope
envelope_of entries next_id = record { v = format_version; next_id = next_id; entries = entries }

-- `flush_state`
unfoldable pub flush_state :
    ⦃f : Files⦄ ⦃c : Cipher⦄ ⦃j : Format⦄
    → List ℕ
    → List ℕ
    → FileState
    → Map ℕ Item
    → ℕ
    → FileState × Opened Unit
unfolding flush_plain envelope_of
flush_state ⦃j = j⦄ key nonce file entries next_id =
    flush_plain key nonce file (j.write_envelope (envelope_of entries next_id))

-- The loop that puts every entry's id right.
unfoldable pub repaired : Map ℕ Item → Map ℕ Item
repaired [] = []
repaired ((id, it) ∷ m) = (id, record it { id = id }) ∷ repaired m

unfoldable pub max_id : ℕ → Map ℕ Item → ℕ
max_id acc [] = acc
max_id acc ((id, it) ∷ m) = max_id (if leb acc id then id else acc) m

unfoldable pub from_envelope : Envelope → Map ℕ Item × ℕ
unfolding repaired max_id
from_envelope env =
    (repaired env.entries, max env.next_id (saturating_add (max_id 0 env.entries) 1))

-- The older format: the entries in the order of their names.
unfoldable pub insert_by_key : String → Item → Map String Item → Map String Item
insert_by_key k it [] = (k, it) ∷ []
insert_by_key k it ((j, jt) ∷ m) =
    let rest = insert_by_key k it m in
    if text_leb k j then (k, it) ∷ (j, jt) ∷ m else (j, jt) ∷ rest

unfoldable pub sort_by_key : Map String Item → Map String Item
unfolding insert_by_key
sort_by_key [] = []
sort_by_key ((k, it) ∷ m) = insert_by_key k it (sort_by_key m)

abbrev pub legacy_entry : String → ℕ → Item → Item
legacy_entry k id it = record it { id = id; strs = insert name_field k it.strs }

-- The loop over the sorted keys, from the next id on.
unfoldable pub migrate : Map String Item → ℕ → Map ℕ Item → Map ℕ Item × ℕ
migrate [] next entries = (entries, next)
migrate ((k, it) ∷ m) next entries =
    migrate m ((next + 1) % 2 ^ 64) (insert next (legacy_entry k next it) entries)

unfoldable pub from_legacy : Map String Item → Map ℕ Item × ℕ
unfolding sort_by_key migrate
from_legacy legacy = migrate (sort_by_key legacy) 0 []

-- `decrypt_and_parse`: the envelope first, and the older format where that fails.
unfoldable pub parse_legacy : Option (Map String Item) → Option (Map ℕ Item × ℕ)
unfolding from_legacy
parse_legacy none = none
parse_legacy (some legacy) = some (from_legacy legacy)

unfoldable pub parse_as : ⦃j : Format⦄ → List ℕ → Option Envelope → Option (Map ℕ Item × ℕ)
unfolding from_envelope parse_legacy
parse_as ⦃j⦄ plaintext (some env) = some (from_envelope env)
parse_as ⦃j⦄ plaintext none = parse_legacy (j.read_legacy plaintext)

unfoldable pub parse_plain : ⦃j : Format⦄ → Option (List ℕ) → Option (Map ℕ Item × ℕ)
unfolding parse_as
parse_plain none = none
parse_plain ⦃j⦄ (some plaintext) = parse_as plaintext (j.read_envelope plaintext)

unfoldable pub decrypt_and_parse :
    ⦃c : Cipher⦄ ⦃j : Format⦄ → List ℕ → List ℕ → Option (Map ℕ Item × ℕ)
unfolding parse_plain
decrypt_and_parse ⦃c⦄ key blob =
    if ltb (length blob) nonce_len
    then none
    else parse_plain (c.decrypt key (take nonce_len blob) (drop nonce_len blob))

-- `build_name_index`: `none` where two entries have the same name.
unfoldable pub add_name : Option (Map String ℕ) → Option String → ℕ → Option (Map String ℕ)
add_name none name id = none
add_name (some idx) none id = some idx
add_name (some idx) (some name) id =
    if is_empty name
    then some idx
    else if contains_key name idx
    then none
    else some (insert name id idx)

unfoldable pub build_from : Option (Map String ℕ) → Map ℕ Item → Option (Map String ℕ)
unfolding add_name
build_from idx [] = idx
build_from idx ((id, it) ∷ m) = build_from (add_name idx (lookup name_field it.strs) id) m

unfoldable pub build_name_index : Map ℕ Item → Option (Map String ℕ)
unfolding build_from
build_name_index entries = build_from (some []) entries

-- `SecretStore::open`
unfoldable pub open_indexed : Map ℕ Item → ℕ → Option (Map String ℕ) → Opened SecretStore
open_indexed entries next_id none = failed invalid_data
open_indexed entries next_id (some idx) =
    opened (record { entries = entries; name_index = idx; next_id = next_id })

unfoldable pub open_parsed : Option (Map ℕ Item × ℕ) → Opened SecretStore
unfolding open_indexed build_name_index
open_parsed none = failed invalid_data
open_parsed (some (entries, next_id)) = open_indexed entries next_id (build_name_index entries)

unfoldable pub open_file : ⦃c : Cipher⦄ ⦃j : Format⦄ → List ℕ → FileState → Opened SecretStore
unfolding open_parsed decrypt_and_parse
open_file key absent = open_parsed (some ([], 0))
open_file key unreadable = failed io_failed
open_file key (holds blob) = open_parsed (decrypt_and_parse key blob)

unfoldable pub open_keyed :
    ⦃c : Cipher⦄ ⦃j : Format⦄
    → FileState
    → FileState × Opened (List ℕ)
    → FileState × Opened SecretStore
unfolding open_file
open_keyed store_file (key_file, failed e) = (key_file, failed e)
open_keyed store_file (key_file, opened key) = (key_file, open_file key store_file)

unfoldable pub open_store :
    ⦃f : Files⦄ ⦃c : Cipher⦄ ⦃j : Format⦄
    → FileState
    → List ℕ
    → FileState
    → FileState × Opened SecretStore
unfolding open_keyed load_or_create_key
open_store key_file fresh_key store_file =
    open_keyed store_file (load_or_create_key key_file fresh_key)
