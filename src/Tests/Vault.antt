-- ===== src/Tests/Vault.antt =====
-- Runs of the sealed store of secrets, of the messages of plugins, and of the set-up of sign-in.
use isabelle_core.Prelude.{
  nat_Eq, string_Eq, u64_max, Map, lookup, insert, Distinct, is_empty, trim, text_leb, length, drop,
  ℕ, ◌≤◌, String, ◌≡◌, refl, subst, ◌⊎◌, true, false, Option, none, some, List, [], ◌∷◌, ◌++◌,
  arith,
}
use isabelle_core.Item.{Item}
use isabelle_core.Util.Oidc.{google, ProviderConfig}
use isabelle_core.Util.Multipart.{read}
use isabelle_core.State.StoreMemory.{StoreMemory, memory}
use isabelle_core.State.Secrets.{SecretStore, get_by_name}
use isabelle_core.State.Secrets.Index.{IsValid}
use isabelle_core.State.Secrets.Opening.{
  Envelope, Files, Cipher, Format, absent, holds, opened, envelope_of, flush_state, from_legacy,
  open_parsed, open_file, legacy_entry,
}
use isabelle_core.State.Secrets.Opening.Readable.{open_file-IsValid}
use isabelle_core.State.Secrets.Opening.Reopened.{IsSame, flush_state-reopens}
use isabelle_core.State.Secrets.Opening.Migrated.{from_legacy-opens}
use isabelle_core.State.CoreTask.Messages.{
  Core, CoreMessage, system_set, system_del, secret_list, run, AreValid, run-AreValid,
}
use isabelle_core.Server.AuthConfig.{KeyReader, ConfigUpdate, config_ok, view_from}
use isabelle_core.Server.AuthConfig.Screens.{AreAlike, view_from-AreAlike}
use isabelle_core.Server.AuthConfig.Saving.{is_admin, auth_config_save}
use isabelle_core.Server.AuthConfig.Saved.{IsUsable, auth_config_save-Settled}
use isabelle_core.Tests.Fixtures.{items, caseless, disk, hashes, blank, users}
use isabelle_core.Tests.Secrecy.{one_secret_written, one_secret-IsValid}
use isabelle_core.Tests.SignIn.{server, app}

-- A cipher that changes nothing, and a coding that knows one store and one older map.
instance abbrev clear : Cipher
clear = record { encrypt = λ key nonce p. some p; decrypt = λ key nonce c. some c }

instance abbrev writable : Files
writable = record { create_parent = true; atomic_write = λ bytes. true }

abbrev older : Map String Item
older = ("b", blank) ∷ ("a", blank) ∷ []

abbrev sealed : Envelope
sealed = record { v = 1; next_id = 2; entries = one_secret_written.entries }

read_one : List ℕ → Option Envelope
read_one [] = some sealed
read_one (b ∷ bs) = none

read_one-Distinct : (b : List ℕ) (env : Envelope) → read_one b ≡ some env → Distinct env.entries
unfolding read_one lookup
read_one-Distinct [] env e = subst (λ x. Distinct x.entries) (sealed_is env e) (refl, tt)
  where
    sealed_is : (env : Envelope) → some sealed ≡ some env → sealed ≡ env
    sealed_is env e = ground arith
read_one-Distinct (b ∷ bs) env e = ground arith

instance json : Format
unfolding read_one
json = record {
  write_envelope = λ env. some [];
  read_envelope = read_one;
  read_legacy = λ b. some older;
  read_envelope-Distinct = read_one-Distinct;
}

abbrev nonce : List ℕ
nonce = 0 ∷ 1 ∷ 2 ∷ 3 ∷ 4 ∷ 5 ∷ 6 ∷ 7 ∷ 8 ∷ 9 ∷ 10 ∷ 11 ∷ []

older_fits :
    (b : List ℕ) (legacy : Map String Item)
    → json.read_legacy b ≡ some legacy
    → length legacy ≤ u64_max
unfolding json
older_fits b legacy e = subst (λ m. length m ≤ u64_max) (same legacy e) (omega arith)
  where
    same : (legacy : Map String Item) → some older ≡ some legacy → older ≡ legacy
    same legacy e = ground arith

-- What the older map opens as.
abbrev migrated : SecretStore
migrated = record {
  entries = (0, legacy_entry "a" 0 blank) ∷ (1, legacy_entry "b" 1 blank) ∷ [];
  name_index = ("a", 0) ∷ ("b", 1) ∷ [];
  next_id = 2;
}

older_opens : open_file [] (holds (nonce ++ (7 ∷ []))) ≡ opened migrated
unfolding open_file json drop text_leb insert lookup
older_opens = refl

open_file-IsValid_example : IsValid migrated
open_file-IsValid_example =
    open_file-IsValid [] (holds (nonce ++ (7 ∷ []))) migrated older_fits older_opens

one_secret-Distinct : Distinct one_secret_written.entries
unfolding lookup
one_secret-Distinct = (refl, tt)

one_secret_read : json.read_envelope [] ≡ some (envelope_of one_secret_written.entries 2)
unfolding json envelope_of
one_secret_read = refl

one_secret_sealed : json.write_envelope (envelope_of one_secret_written.entries 2) ≡ some []
unfolding json
one_secret_sealed = refl

one_secret_flushed : (flush_state [] nonce absent one_secret_written.entries 2).1 ≡ opened tt
unfolding flush_state json
one_secret_flushed = refl

flush_state-reopens_example :
    (t : SecretStore) × (open_file [] (flush_state [] nonce absent one_secret_written.entries 2).0
      ≡ opened t)
    × IsSame t one_secret_written
flush_state-reopens_example =
    flush_state-reopens one_secret_written [] nonce [] [] absent one_secret-IsValid
      one_secret-Distinct (omega arith) refl one_secret_sealed one_secret_read refl refl
      one_secret_flushed

older-Distinct : Distinct older
unfolding lookup
older-Distinct = (refl, (refl, tt))

from_legacy-opens_example :
    (s : SecretStore) × (open_parsed (some (from_legacy older)) ≡ opened s)
    × ((k : String) (it : Item)
        → is_empty k ≡ false
        → lookup k older ≡ some it
        → (i : ℕ) × (get_by_name s k ≡ some (legacy_entry k i it)))
from_legacy-opens_example = from_legacy-opens older older-Distinct (omega arith)

-- A plugin writes a secret of the system and one that is not its own, and asks for the names.
abbrev core : Core StoreMemory
core = record { rw = users; secrets = some one_secret_written; public_url = ""; data_path = "" }

abbrev asked : List CoreMessage
asked =
    system_set (record blank { strs = ("name", "global.mail") ∷ [] })
    ∷ system_del "smtp"
    ∷ secret_list
    ∷ []

run-AreValid_example : AreValid (run core asked).secrets
run-AreValid_example = run-AreValid core asked one_secret-IsValid

-- No key is an EC key.
instance abbrev no_keys : KeyReader
no_keys = record { from_ec_pem = λ pem. some "unreadable" }

abbrev other_app : ProviderConfig
other_app = record app { client_secret = "another" }

alike : AreAlike app other_app
unfolding trim
alike = record {
  client_id = refl;
  team_id = refl;
  key_id = refl;
  client_secret = refl;
  private_key = refl;
  pem = refl;
}

view_from-AreAlike_example :
    view_from google (some app) "" "https://a.b/api/auth/google/callback"
    ≡ view_from google (some other_app) "" "https://a.b/api/auth/google/callback"
view_from-AreAlike_example =
    view_from-AreAlike google app other_app "" "https://a.b/api/auth/google/callback" alike

abbrev form : ConfigUpdate
form = record {
  provider = "google";
  client_id = some "new";
  client_secret = some "";
  team_id = none;
  key_id = none;
  private_key = none;
  redirect_uri = none;
  url = none;
  bind_dn = none;
  bind_password = none;
  base_dn = none;
  user_filter = none;
  user_dn_template = none;
  email_attribute = none;
  name_attribute = none;
  allow_plaintext = none;
}

auth_config_save-Settled_example :
    (((auth_config_save server "alice" (read form)).0 ≡ server)
      ⊎ ((is_admin server "alice" ≡ true)
          × ((update : ConfigUpdate) × (read form ≡ read update) × IsUsable server update)))
    × (((auth_config_save server "alice" (read form)).1 ≡ config_ok)
        ⊎ ((auth_config_save server "alice" (read form)).0 ≡ server))
auth_config_save-Settled_example = auth_config_save-Settled server "alice" (read form)
