-- ===== src/Tests/Storage.antt =====
-- Runs of the files, the bodies of requests, the store of files, and the endpoints of the tokens.
use isabelle_core.Prelude.{
  leb, if◌then◌else◌, ◌==◌, nat_Eq, string_Eq, u64_max, lookup, insert, remove, contains_key,
  Distinct, append, All, ℕ, ◌≤◌, String, ◌≡◌, refl, ◌↔◌, true, false, ◌&&◌, some, List, [], ◌∷◌,
  arith,
}
use isabelle_core.Util.Fs.{Files, System, tmp_sibling, atomic_write}
use isabelle_core.Util.Fs.Atomic.{OldOrNew, atomic_write-untorn}
use isabelle_core.Util.Ldap.Escaping.Readers.{
  codes, read_assertion, read_attribute, escape_values-read_back,
}
use isabelle_core.Util.Ldap.Escaping.{escape_filter_value, escape_dn_value}
use isabelle_core.Util.Multipart.{Event, chunk, Limits, read, read_body}
use isabelle_core.Util.Multipart.Bounded.{Fits, read_body_iff}
use isabelle_core.State.Store.{at_id}
use isabelle_core.State.StoreLocal.{
  StoreLocal, LocalDisk, new_local, count_of, get_item, get_items, set_item, del_item,
}
use isabelle_core.State.StoreLocal.Writing.{del_item-get_item}
use isabelle_core.State.StoreLocal.Counted.{IsCounted, set_item-IsCounted, set_item-keeps_records}
use isabelle_core.State.StoreLocal.Reading.{numbers, get_items-window}
use isabelle_core.State.Paging.{IsPageOf}
use isabelle_core.State.Store.{ListResult}
use isabelle_core.Tests.Fixtures.{items, caseless, blank}
use isabelle_core.Tests.Tokens.{tokens}

-- A disk that is full before the new contents are written out.
abbrev full_disk : System
full_disk = record {
  opens = true;
  write_all = false;
  written = 1;
  sync_all = true;
  rename = true;
  remove_file = true;
}

abbrev settings : Files
settings = ("settings.js", 1 ∷ 2 ∷ []) ∷ []

not_staging : (tmp_sibling "settings.js" == "settings.js") ≡ false
unfolding tmp_sibling append
not_staging = refl

atomic_write-untorn_example :
    All
      (OldOrNew settings "settings.js" (3 ∷ 4 ∷ []))
      (atomic_write full_disk settings "settings.js" (3 ∷ 4 ∷ [])).seen
    × (lookup "settings.js" (atomic_write full_disk settings "settings.js" (3 ∷ 4 ∷ [])).files ≡ (
        if (◌==◌ {A = String} "settings.js" "settings.js")
          && (atomic_write full_disk settings "settings.js" (3 ∷ 4 ∷ [])).success
        then some (3 ∷ 4 ∷ [])
        else lookup "settings.js" settings))
atomic_write-untorn_example =
    atomic_write-untorn full_disk settings "settings.js" (3 ∷ 4 ∷ []) "settings.js" not_staging

abbrev limits : Limits
limits = record { deadline = 30; max_bytes = 3; disk_low = false }

abbrev body : List Event
body = chunk 1 (7 ∷ 8 ∷ []) ∷ chunk 2 (9 ∷ []) ∷ []

read_body_iff_example :
    (read_body body limits ≡ read (7 ∷ 8 ∷ 9 ∷ [])) ↔ Fits limits body (7 ∷ 8 ∷ 9 ∷ [])
read_body_iff_example = read_body_iff body limits (7 ∷ 8 ∷ 9 ∷ [])

escape_values-read_back_example :
    (read_assertion (escape_filter_value " *)(uid=admin ") ≡ some (codes " *)(uid=admin "))
    × (read_attribute true (escape_dn_value " *)(uid=admin ") ≡ some (codes " *)(uid=admin "))
escape_values-read_back_example = escape_values-read_back " *)(uid=admin "

-- A store of files with one collection, into which two records are written.
instance abbrev roomy : LocalDisk
roomy = record {
  write_item = λ collection id itm. true;
  write_counter = λ collection id. true;
  write_settings = λ itm. true;
}

abbrev empty_files : StoreLocal
empty_files = record new_local { collections = ("task", 0) ∷ []; items = (0, []) ∷ [] }

abbrev one_file : StoreLocal
one_file = (set_item empty_files "task" blank false).0

task_known : lookup "task" empty_files.collections ≡ some 0
unfolding lookup
task_known = refl

nothing-IsCounted : IsCounted empty_files
unfolding lookup
nothing-IsCounted = λ c k i content reg h. ground arith

no_count : count_of empty_files 0 ≤ u64_max
unfolding lookup
no_count = omega arith

one_file-IsCounted : IsCounted one_file
one_file-IsCounted =
    set_item-IsCounted empty_files "task" 0 blank false task_known no_count nothing-IsCounted

task_still_known : lookup "task" one_file.collections ≡ some 0
unfolding lookup set_item insert get_item
task_still_known = refl

one_counted : count_of one_file 0 ≡ 1
unfolding lookup set_item insert get_item
one_counted = refl

second_stored : (set_item one_file "task" blank false).1 ≡ 2
unfolding set_item lookup insert get_item
second_stored = refl

first_there : get_item one_file "task" 1 ≡ some (at_id blank 1)
unfolding get_item lookup set_item insert remove
first_there = refl

set_item-keeps_records_example :
    get_item (set_item one_file "task" blank false).0 "task" 1 ≡ some (at_id blank 1)
set_item-keeps_records_example =
    set_item-keeps_records one_file "task" 0 1 blank (at_id blank 1) false one_file-IsCounted
      task_still_known refl (omega (arith, one_counted)) (λ e. omega (arith, second_stored, e))
      first_there

numbers-Distinct : Distinct (numbers one_file 0)
unfolding lookup set_item insert get_item
numbers-Distinct = (refl, tt)

get_items-window_example :
    (result : ListResult) × (get_items one_file "task" u64_max 5 "" "" 0 10 ≡ some result)
    × IsPageOf
        (get_item one_file "task")
        (λ i.
          contains_key i (numbers one_file 0)
          && leb (if (◌==◌ {A = ℕ} u64_max u64_max) then 0 else u64_max) i
          && leb i 5)
        (if (◌==◌ {A = ℕ} 0 u64_max) then 0 else 0)
        10
        result
get_items-window_example =
    get_items-window one_file "task" 0 u64_max 5 "" "" 0 10 task_still_known numbers-Distinct

abbrev after_deletion : StoreLocal
after_deletion = record one_file { items = (0, []) ∷ []; astray = ("task", []) ∷ [] }

first_deleted : del_item one_file "task" 1 ≡ some (after_deletion, true)
unfolding del_item lookup set_item insert get_item remove
first_deleted = refl

del_item-get_item_example : get_item after_deletion "task" 1 ≡ get_item one_file "task" 1
del_item-get_item_example =
    del_item-get_item one_file after_deletion "task" "task" 1 1 true first_deleted
