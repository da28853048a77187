-- ===== src/Store/Deletes.antt =====
-- The IDs of the reports in a directory, and what deletions leave of them.
use kscrash.Prelude.{
  ℕ, zero, suc, ◌+◌, ◌≤◌, ◌≡◌, refl, sym, ap, ◌∙◌, Bool, Bool-cases, inl, inr, true, false, List,
  [], ◌∷◌, ◌++◌, Bytes, All, length, length-append, take, take_all, arith, ◌==◌, ==-eq_false, ltb,
  if◌then◌else◌, if-cases, if-both, codes, ◌/◌,
}
use kscrash.File.Path.{is_same}
use kscrash.Store.{
  Configuration, Library, hex_digits, report_name, entry_path, get_crash_report_path_by_id,
  remove_file, delete_report_with_id, unlinked, delete_first, report_id, is_report_id, collect_ids,
  count_reports,
}
use kscrash.Store.Counts.{count, is_same-eq, is_same_refl, is_same-append}

module _ (library : Library) (config : Configuration) where
  -- The IDs of the reports in a directory.
  unfoldable pub report_ids : List Bytes → List ℕ
  report_ids [] = []
  report_ids (name ∷ names) =
      let rest = report_ids names in
      let id = report_id library config name in
      if is_report_id library config id then id ∷ rest else rest

  pub length-report_ids :
      (names : List Bytes) → length (report_ids names) ≡ count_reports library config names
  unfolding report_ids count_reports
  length-report_ids [] = refl
  length-report_ids (name ∷ names) = ground (arith, length-report_ids names)

  collect_ids-zero : (names : List Bytes) → collect_ids library config 0 names ≡ []
  unfolding collect_ids
  collect_ids-zero [] = refl
  collect_ids-zero (name ∷ names) = refl

  pub collect_ids-all :
      (k : ℕ) (names : List Bytes)
      → count_reports library config names ≤ k
      → collect_ids library config k names ≡ report_ids names
  unfolding report_ids count_reports collect_ids
  collect_ids-all k [] h = refl
  collect_ids-all zero (name ∷ names) h =
      none_left (is_report_id library config (report_id library config name))
        (report_id library config name) h
        (λ h'. sym (collect_ids-zero names) ∙ collect_ids-all zero names h')
    where
      none_left :
          (b : Bool) (id : ℕ) {c : ℕ} {rest : List ℕ}
          → (if b then suc c else c) ≤ 0
          → (c ≤ 0 → [] ≡ rest)
          → [] ≡ (if b then id ∷ rest else rest)
      none_left true id h again = absurd (omega (arith, h))
      none_left false id h again = again h
  collect_ids-all (suc k) (name ∷ names) h =
      one_more (is_report_id library config (report_id library config name))
        (report_id library config name) h (collect_ids-all k names) (collect_ids-all (suc k) names)
    where
      one_more :
          (b : Bool) (id : ℕ) {c : ℕ} {found others rest : List ℕ}
          → (if b then suc c else c) ≤ suc k
          → (c ≤ k → found ≡ rest)
          → (c ≤ suc k → others ≡ rest)
          → (if b then id ∷ found else others) ≡ (if b then id ∷ rest else rest)
      one_more true id h taken other = ap (λ ids. id ∷ ids) (taken (omega (arith, h)))
      one_more false id h taken other = other h

  -- The names of the reports are those that the store gives them.
  abbrev pub AreNamed : List Bytes → Type 0
  AreNamed names = All Named names
    where
      Named : Bytes → Type 0
      Named name =
          is_report_id library config (report_id library config name) ≡ true
          → name ≡ report_name config (report_id library config name)

  -- An ID that is read from the name that it gives.
  abbrev pub IsRead : ℕ → Type 0
  IsRead id =
      (report_id library config (report_name config id) ≡ id)
      × (is_report_id library config id ≡ true)

  -- The IDs that are read from the names are of that kind.
  pub report_ids-AreRead : (names : List Bytes) → AreNamed names → All IsRead (report_ids names)
  unfolding report_ids
  report_ids-AreRead [] h = tt
  report_ids-AreRead (name ∷ names) (h, hs) =
      if-cases (All IsRead) (is_report_id library config (report_id library config name))
        (λ report.
          ((ap (report_id library config) (sym (h report)), report), report_ids-AreRead names hs))
        (λ other. report_ids-AreRead names hs)

  length-hex_digits : (k n : ℕ) → length (hex_digits k n) ≡ k
  unfolding hex_digits
  length-hex_digits zero n = refl
  length-hex_digits (suc k) n =
      length-append (hex_digits k (n / 16)) _ ∙ omega (arith, length-hex_digits k (n / 16))

  -- The paths of the reports fit the buffer.
  abbrev pub FitsPath : Type 0
  FitsPath = length (config.reports_path) + length (config.app_name) ≤ 469

  path-whole :
      (id : ℕ)
      → FitsPath
      → get_crash_report_path_by_id config id ≡ entry_path config (report_name config id)
  unfolding get_crash_report_path_by_id
  path-whole id h = take_all 499 (entry_path config (report_name config id)) (
      omega (
        arith,
        h,
        length-append (config.reports_path) (b'/' ∷ report_name config id),
        length-append (config.app_name) (codes "-report-" ++ (hex_digits 16 id ++ codes ".json")),
        length-append (hex_digits 16 id) (codes ".json"),
        length-hex_digits 16 id,
      ))

  same_entry :
      (id : ℕ) (name : Bytes)
      → FitsPath
      → is_same (entry_path config name) (get_crash_report_path_by_id config id)
        ≡ is_same name (report_name config id)
  same_entry id name h =
      ap (is_same (entry_path config name)) (path-whole id h)
      ∙ is_same-append (config.reports_path) (b'/' ∷ name) (b'/' ∷ report_name config id)

  -- What a removal that succeeds leaves.
  unlinked-AreNamed :
      (path : Bytes) (names : List Bytes) → AreNamed names → AreNamed (unlinked config path names)
  unfolding unlinked
  unlinked-AreNamed path [] h = tt
  unlinked-AreNamed path (name ∷ names) (h, hs) =
      if-both AreNamed (is_same (entry_path config name) path) (unlinked-AreNamed path names hs)
        (h, unlinked-AreNamed path names hs)

  -- It takes the one ID out.
  count-unlinked :
      (x id : ℕ) (names : List Bytes)
      → FitsPath
      → AreNamed names
      → IsRead id
      → count x (report_ids (unlinked config (get_crash_report_path_by_id config id) names))
        ≡ (if x == id then 0 else count x (report_ids names))
  unfolding unlinked report_ids
  count-unlinked x id [] fits h r = ground arith
  count-unlinked x id (name ∷ names) fits (h, hs) r =
      let again = count-unlinked x id names fits hs r in
      elim (Bool-cases (is_same name (report_name config id))) [
        | inl same ↦
            let read =
              ap (report_id library config) (is_same-eq name (report_name config id) same) ∙ r.0 in
            rw (same_entry id name fits ∙ same, read, r.1) (ground (arith, again))
        | inr other ↦
            rw (same_entry id name fits ∙ other)
              (elim (Bool-cases (is_report_id library config (report_id library config name))) [
                | inl report ↦ rw report (ground (arith, again, kept other report))
                | inr other_file ↦ rw other_file (ground (arith, again))
              ])
      ]
    where
      kept :
          is_same name (report_name config id) ≡ false
          → is_report_id library config (report_id library config name) ≡ true
          → (report_id library config name == id) ≡ false
      kept other report = ==-eq_false (report_id library config name) id λ equal. absurd (
          ground (
            arith,
            other,
            ap (is_same name) (ap (report_name config) (sym equal) ∙ sym (h report))
                ∙ is_same_refl name,
          ))

  -- Every removal succeeds.
  abbrev pub Removes : Type 0
  Removes = (path : Bytes) → library.removes path ≡ true

  module _ (removes : Removes) where
    delete-unlinked :
        (id : ℕ) (names : List Bytes)
        → delete_report_with_id library config id names
          ≡ unlinked config (get_crash_report_path_by_id config id) names
    unfolding delete_report_with_id remove_file
    delete-unlinked id names =
        let path = get_crash_report_path_by_id config id in
        if-cases (λ (r : Bool × List Bytes). r.1 ≡ unlinked config path names)
          (library.removes path) (λ gone. refl)
          (λ failed. absurd (ground (arith, failed, removes path)))

    pub count-delete_first :
        (x n : ℕ) (ids : List ℕ) (names : List Bytes)
        → FitsPath
        → AreNamed names
        → All IsRead ids
        → count x (report_ids (delete_first library config n ids names))
          ≡ (if ltb 0 (count x (take n ids)) then 0 else count x (report_ids names))
    unfolding delete_first
    count-delete_first x zero ids names fits h r = refl
    count-delete_first x (suc n) [] names fits h r = refl
    count-delete_first x (suc n) (id ∷ ids) names fits h (r, rs) =
        let path = get_crash_report_path_by_id config id in
        let again =
          count-delete_first x n ids (unlinked config path names) fits
            (unlinked-AreNamed path names h) rs in
        rw (delete-unlinked id names) (ground (arith, again, count-unlinked x id names fits h r))
