-- ===== src/Store.antt =====
-- KSCrashReportStoreC.c: the directory of reports. The directory is the list of its entries' names,
-- in the order in which `readdir` gives them; `none` is one that cannot be opened or made.
pub mod Ids
pub mod Counts
pub mod Deletes
pub mod Prune
mod Tests
use kscrash.Prelude.{
  true, false, ℕ, zero, suc, ◌-◌, ◌+◌, ◌%◌, ◌/◌, Bool, not, ◌&&◌, Option, none, some, List, [], ◌∷◌,
  ◌++◌, Bytes, codes, int64_max, ℤ, pos, negsuc, length, take, drop, ltb, leb, ◌==◌, if◌then◌else◌,
}
use kscrash.Dwarf.Reader.{word_mod}
use kscrash.File.Path.{is_same}
use kscrash.Json.Encode.Element.{hex_nybble}
use kscrash.Store.Ids.{Time, UniqueIds, initialize_ids, get_next_unique_id}

-- `KSCRS_MAX_PATH_LENGTH`.
abbrev pub max_path_length : ℕ
max_path_length = 500

-- `KSCrashReportStoreCConfiguration`. A count below 0 is not told from 0 by the code.
pub record Configuration : Type 0 where
  pub app_name : Bytes
  pub reports_path : Bytes
  pub max_report_count : ℕ

-- `compareInt64`, of the patterns of two numbers.
unfoldable pub compare_int64 : ℕ → ℕ → ℤ
compare_int64 a b =
    let diff = (a + (word_mod - b)) % word_mod in
    if ltb int64_max diff then negsuc 0 else if ltb 0 diff then pos 1 else pos 0

-- What is used of the C library: `sscanf` of a file name by the format that
-- `getReportIDFromFilename` makes of the application's name, with 0 for no number; `qsort`; and
-- whether `remove` of a path succeeds.
pub record Library : Type 0 where
  pub scan_report_id : Bytes → Bytes → ℕ
  pub qsort : (ℕ → ℕ → ℤ) → List ℕ → List ℕ
  pub removes : Bytes → Bool

-- `%016llx`.
unfoldable pub hex_digits : ℕ → ℕ → Bytes
hex_digits zero n = []
hex_digits (suc k) n = hex_digits k (n / 16) ++ lower_nybble (n % 16) ∷ []
  where
    lower_nybble : ℕ → ℕ
    lower_nybble d = if ltb d 10 then b'0' + d else b'a' + (d - 10)

abbrev pub report_name : Configuration → ℕ → Bytes
report_name config id = config.app_name ++ (codes "-report-" ++ (hex_digits 16 id ++ codes ".json"))

abbrev pub entry_path : Configuration → Bytes → Bytes
entry_path config name = config.reports_path ++ (b'/' ∷ name)

-- `getCrashReportPathByID`: what the buffer has room for.
unfoldable pub get_crash_report_path_by_id : Configuration → ℕ → Bytes
get_crash_report_path_by_id config id =
    take (max_path_length - 1) (entry_path config (report_name config id))

-- What a call of `remove(path)` that succeeds leaves of the directory's entries.
unfoldable pub unlinked : Configuration → Bytes → List Bytes → List Bytes
unlinked config path [] = []
unlinked config path (name ∷ names) =
    let rest = unlinked config path names in
    if is_same (entry_path config name) path then rest else name ∷ rest

-- `ksfu_removeFile`; `mustExist` only bears on the log.
unfoldable pub remove_file : Library → Configuration → Bytes → List Bytes → Bool × List Bytes
remove_file library config path names =
    if library.removes path then (true, unlinked config path names) else (false, names)

-- `deleteReportWithID`, which does not look at the result.
unfoldable pub delete_report_with_id : Library → Configuration → ℕ → List Bytes → List Bytes
delete_report_with_id library config id names =
    (remove_file library config (get_crash_report_path_by_id config id) names).1

-- The loop of `pruneReports` over the first `n` IDs.
unfoldable pub delete_first : Library → Configuration → ℕ → List ℕ → List Bytes → List Bytes
delete_first library config zero ids names = names
delete_first library config (suc n) [] names = names
delete_first library config (suc n) (id ∷ ids) names =
    delete_first library config n ids (delete_report_with_id library config id names)

module _ (library : Library) (config : Configuration) where
  -- `getReportIDFromFilename`.
  abbrev pub report_id : Bytes → ℕ
  report_id name = library.scan_report_id (config.app_name) name

  -- `reportID > 0`, of an `int64_t`.
  abbrev pub is_report_id : ℕ → Bool
  is_report_id id = ltb 0 id && leb id int64_max

  -- The loop of `getReportIDs`, which stops at `count` IDs.
  unfoldable pub collect_ids : ℕ → List Bytes → List ℕ
  collect_ids count [] = []
  collect_ids zero (name ∷ names) = []
  collect_ids (suc count) (name ∷ names) =
      let id = report_id name in
      let found = collect_ids count names in
      let others = collect_ids (suc count) names in if is_report_id id then id ∷ found else others

  -- `getReportCount`.
  unfoldable pub count_reports : List Bytes → ℕ
  count_reports [] = 0
  count_reports (name ∷ names) =
      let rest = count_reports names in if is_report_id (report_id name) then suc rest else rest

  abbrev pub get_report_count : Option (List Bytes) → ℕ
  get_report_count none = 0
  get_report_count (some names) = count_reports names

  -- `getReportIDs`: the number of IDs, and the caller's array after it. The sort goes over all of
  -- the array, what it held before included.
  unfoldable pub get_report_ids : List ℕ → Option (List Bytes) → ℕ × List ℕ
  get_report_ids array none = (0, array)
  get_report_ids array (some names) =
      let ids = collect_ids (length array) names in
      (length ids, library.qsort compare_int64 (ids ++ drop (length ids) array))

  -- `pruneReports`; `array` is what is in the array of `reportCount` IDs before they are read.
  abbrev pub prune_names : List ℕ → List Bytes → List Bytes
  prune_names array names =
      let (report_count, ids) = get_report_ids array (some names) in
      delete_first library config (report_count - config.max_report_count) ids names

  unfoldable pub prune_reports : (ℕ → List ℕ) → List Bytes → List Bytes
  prune_reports array names =
      let report_count = count_reports names in
      if config.max_report_count == 0
      then names
      else if ltb (config.max_report_count) report_count
      then prune_names (array report_count) names
      else names

  -- `kscrs_initialize`, behind `ksfu_makePath`: the store and the IDs.
  unfoldable pub initialize :
      (ℕ → List ℕ) → Time → Option (List Bytes) → Option (List Bytes × UniqueIds)
  initialize array time none = none
  initialize array time (some names) = some (prune_reports array names, initialize_ids time)

  -- `kscrs_getNextCrashReport`.
  unfoldable pub get_next_crash_report : UniqueIds → ℕ × Bytes × UniqueIds
  get_next_crash_report ids =
      let (id, ids') = get_next_unique_id ids in (id, get_crash_report_path_by_id config id, ids')
