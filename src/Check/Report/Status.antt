-- ===== src/Check/Report/Status.antt =====
-- What the exit status of check_build.py says.
use lighttpd_fuzz.Base.{
  Result, ok, err, is_empty, ℕ, List, [], ◌∷◌, ◌≡◌, refl, ap, ◌↔◌, Bool, true, false, not, ◌||◌,
  length, map, All, arith,
}
use lighttpd_fuzz.Base.Text.{Text}
use lighttpd_fuzz.Check.Checks.{Check, checks}
use lighttpd_fuzz.Check.Config.{Policy}
use lighttpd_fuzz.Check.Elf.{Item}
use lighttpd_fuzz.Check.Columns.{Artifact, Tools}
use lighttpd_fuzz.Check.Tally.{inspect, tally_artifacts, new_tally, new_column, bit}
use lighttpd_fuzz.Check.Tally.Failures.{
  item_fails, any_item_fails, count_errors, file_fails, column_checks,
}
use lighttpd_fuzz.Check.Tally.Growth.{count_failing, count_all_errors, tally_artifacts-Grows}
use lighttpd_fuzz.Check.Report.{make_report, exit_status, or_two, report_status}

or-eq-false : (a b : Bool) → (a || b) ≡ false → (a ≡ false) × (b ≡ false)
or-eq-false a b e = (ground arith, ground arith)

bit-not : (a : Bool) → bit (not a) ≡ 0 → a ≡ true
bit-not true e = refl
bit-not false e = absurd (omega arith)

bit-eq-zero : (a : Bool) → bit a ≡ 0 → a ≡ false
bit-eq-zero true e = absurd (omega arith)
bit-eq-zero false e = refl

no_length : (xs : List Text) → length xs ≡ 0 → xs ≡ []
no_length [] e = refl
no_length (x ∷ xs) e = absurd (omega arith)

module _ (tools : Tools) (policy : Policy) where
  -- An item that was read without an error, and none of whose checks breaks the policy.
  abbrev pub IsGood : Artifact → Item → Type 0
  IsGood artifact unit =
      (is_empty unit.error ≡ true)
      × (item_fails tools policy checks (tools.relative artifact.path) unit ≡ false)

  abbrev pub IsGoodFile : Artifact → Type 0
  IsGoodFile artifact = All (IsGood artifact) (inspect tools policy artifact)

  IsGood-items :
      (artifact : Artifact) (units : List Item)
      → ((any_item_fails tools policy checks (tools.relative artifact.path) units ≡ false)
          × (count_errors tools policy units ≡ 0))
        ↔ All (IsGood artifact) units
  IsGood-items artifact [] = (λ h. tt, λ h. (refl, refl))
  IsGood-items artifact (unit ∷ units) =
      let (to, from) = IsGood-items artifact units in
      (
        λ h.
            let (fails, e) = h in
            let (a, b) =
              or-eq-false (item_fails tools policy checks (tools.relative artifact.path) unit) _
                fails in
            ((bit-not (is_empty unit.error) (omega arith), a), to (b, omega arith)),
        λ h.
            let ((a, b), hs) = h in
            let (c, d) = from hs in (rw (b, c) refl, rw a (omega (arith, d))),
      )

  IsGoodFile-files :
      (artifacts : List Artifact)
      → ((count_failing tools policy checks artifacts ≡ 0)
          × (count_all_errors tools policy artifacts ≡ 0))
        ↔ All IsGoodFile artifacts
  IsGoodFile-files [] = (λ h. tt, λ h. (refl, refl))
  IsGoodFile-files (artifact ∷ artifacts) =
      let (to, from) = IsGoodFile-files artifacts in
      let (to_one, from_one) = IsGood-items artifact (inspect tools policy artifact) in
      (
        λ h.
            let (e, f) = h in
            (
              to_one (
                bit-eq-zero (file_fails tools policy checks artifact) (omega arith),
                omega arith,
              ),
              to (omega arith, omega arith),
            ),
        λ h.
            let (a, b) = from_one h.0 in
            let (c, d) = from h.1 in (rw a (omega (arith, c)), omega (arith, b, d)),
      )

  exit_status-eq-zero :
      (errors : List Text) (failures : ℕ)
      → (exit_status errors failures ≡ 0) ↔ ((length errors ≡ 0) × (failures ≡ 0))
  unfolding exit_status
  exit_status-eq-zero [] failures = (λ e. (refl, ground arith), λ h. let e = h.1 in ground arith)
  exit_status-eq-zero (error ∷ errors) failures =
      (λ e. absurd (omega arith), λ h. let e = h.0 in absurd (omega arith))

  columns_of : (cs : List Check) → column_checks (map new_column cs) ≡ cs
  columns_of [] = refl
  columns_of (c ∷ cs) = ap (λ t. c ∷ t) (columns_of cs)

  or_two-eq-zero : (r : Result (Unit {0})) (n : ℕ) → (or_two r n ≡ 0) ↔ ((r ≡ ok tt) × (n ≡ 0))
  or_two-eq-zero (ok u) n = (λ e. (refl, e), λ h. h.1)
  or_two-eq-zero (err x) n = (λ e. absurd (omega arith), λ h. cc (h.0))

  -- The exit status is 0 exactly when no error was found before, every file and every member of an archive
  -- was inspected without an error, none of their checks breaks the mode that the policy expects, and the
  -- report was written.
  pub report_status-eq-zero :
      (config folder : Text) (artifacts : List Artifact) (errors : List Text)
      → (report_status tools policy config folder artifacts errors ≡ 0) ↔ (
          (errors ≡ [])
          × All IsGoodFile artifacts
          × (tools.write_report (make_report tools policy config folder artifacts errors).0
              ≡ ok tt))
  unfolding report_status make_report new_tally
  report_status-eq-zero config folder artifacts errors =
      let t = tally_artifacts tools policy artifacts (new_tally checks errors) in
      let g =
        tally_artifacts-Grows tools policy checks artifacts (new_tally checks errors)
          (columns_of checks) in
      let (to, from) = exit_status-eq-zero t.errors t.failures in
      let (good, bad) = IsGoodFile-files artifacts in
      let text = (make_report tools policy config folder artifacts errors).0 in
      let (kept, keeps) =
        or_two-eq-zero (tools.write_report text) (exit_status t.errors t.failures) in
      (
        λ e.
            let (saved, zero_status) = kept e in
            let (a, b) = to zero_status in
            (
              no_length errors (omega (arith, g.adds_errors)),
              good (omega (arith, g.adds_failures), omega (arith, g.adds_errors)),
              saved,
            ),
        λ h.
            let (a, b) = bad h.1 in
            let n = ap (λ (t : List Text). length t) h.0 in
            keeps (h.2, from (omega (arith, g.adds_errors), omega (arith, g.adds_failures))),
      )
