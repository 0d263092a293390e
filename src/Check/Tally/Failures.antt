-- ===== src/Check/Tally/Failures.antt =====
-- The failures and errors that the loops of `make_report` count.
use lighttpd_fuzz.Base.{
  is_empty, ℕ, ◌+◌, List, [], ◌∷◌, map, ◌≡◌, refl, ap, ◌∙◌, inl, inr, Bool, false, not, ◌||◌,
  Bool-cases, if◌then◌else◌, Option, none, some, length, length-append, arith,
}
use lighttpd_fuzz.Base.Text.{Text, get}
use lighttpd_fuzz.Base.Bytes.{codes}
use lighttpd_fuzz.Check.Checks.{Check}
use lighttpd_fuzz.Check.Config.{Policy}
use lighttpd_fuzz.Check.Policy.{effective_modes, policy_failed}
use lighttpd_fuzz.Check.Detect.{Evidence, detect}
use lighttpd_fuzz.Check.Elf.{Item}
use lighttpd_fuzz.Check.Tally.{
  FileState, Named, bit, tally_checked, tally_error, tally_skipped, tally_evidence, tally_read,
  tally_named, tally_items, name_item, name_member, add_details, inspect,
}
use lighttpd_fuzz.Check.Columns.{Artifact, Tools, Column, get_mode, tally_check, tally_checks}

abbrev pub column_checks : List Column → List Check
column_checks = map (λ column. column.check)

module _ (tools : Tools) (policy : Policy) where
  -- Whether the evidence of an item breaks the mode that the policy expects for a check.
  unfoldable pub check_fails : Text → Item → Evidence → Check → Bool
  check_fails name unit evidence check =
      policy_failed
        (get_mode (
          get check.name
            (effective_modes tools.matches name unit.member policy.modes policy.overrides)))
        (detect tools.fullmatch check evidence).0

  unfoldable pub any_check_fails : Text → Item → Evidence → List Check → Bool
  any_check_fails name unit evidence [] = false
  any_check_fails name unit evidence (check ∷ checks) =
      check_fails name unit evidence check || any_check_fails name unit evidence checks

  abbrev pub evidence_fails : List Check → Text → Item → Option Evidence → Bool
  evidence_fails checks name unit none = false
  evidence_fails checks name unit (some evidence) = any_check_fails name unit evidence checks

  -- An item with an error, or one that is skipped, does not fail.
  unfoldable pub item_fails : List Check → Text → Item → Bool
  item_fails checks name unit =
      if not (is_empty unit.error)
      then false
      else if not (is_empty unit.skipped)
      then false
      else evidence_fails checks name unit unit.evidence

  abbrev pub any_item_fails : List Check → Text → List Item → Bool
  any_item_fails checks name [] = false
  any_item_fails checks name (unit ∷ units) =
      item_fails checks name unit || any_item_fails checks name units

  abbrev pub count_errors : List Item → ℕ
  count_errors [] = 0
  count_errors (unit ∷ units) = bit (not (is_empty unit.error)) + count_errors units

  abbrev pub file_fails : List Check → Artifact → Bool
  file_fails checks artifact =
      any_item_fails checks (tools.relative artifact.path) (inspect tools policy artifact)

  tally_checks-failed :
      (name item : Text) (unit : Item) (evidence : Evidence) (columns : List Column)
      → let all =
          tally_checks tools.fullmatch name item
            (effective_modes tools.matches name unit.member policy.modes policy.overrides)
            evidence
            columns in
        (all.failed ≡ any_check_fails name unit evidence (column_checks columns))
        × (column_checks all.columns ≡ column_checks columns)
  unfolding tally_checks tally_check any_check_fails check_fails
  tally_checks-failed name item unit evidence [] = (refl, refl)
  tally_checks-failed name item unit evidence (column ∷ columns) =
      let (failed, checks) = tally_checks-failed name item unit evidence columns in
      (
        ap (λ t. check_fails name unit evidence column.check || t) failed,
        ap (λ t. column.check ∷ t) checks,
      )

  -- What an item does to the variables: nothing to the checks and to the count of files that fail, its
  -- error to the errors, and its failure to that of the file.
  pub record Passes (checks : List Check) (before after : FileState) (fails : Bool) (errors : ℕ)
      : Type 0 where
    pub same_checks : column_checks after.tally.columns ≡ checks
    pub same_failures : after.tally.failures ≡ before.tally.failures
    pub adds_failure : after.file_failed ≡ (before.file_failed || fails)
    pub adds_errors : length after.tally.errors ≡ length before.tally.errors + errors

  same-Passes :
      (checks : List Check) (s : FileState)
      → column_checks s.tally.columns ≡ checks
      → Passes checks s s false 0
  same-Passes checks s same = record {
    same_checks = same;
    same_failures = refl;
    adds_failure = ground arith;
    adds_errors = omega arith;
  }

  tally_read-Passes :
      (checks : List Check) (name item : Text) (unit : Item) (evidence : Option Evidence)
      (s : FileState)
      → column_checks s.tally.columns ≡ checks
      → Passes checks s
          (tally_read tools policy name item unit evidence s)
          (evidence_fails checks name unit evidence)
          0
  unfolding tally_evidence tally_checked add_details
  tally_read-Passes checks name item unit none s same = same-Passes checks s same
  tally_read-Passes checks name item unit (some evidence) s same =
      let (failed, kept) = tally_checks-failed name item unit evidence s.tally.columns in
      record {
        same_checks = kept ∙ same;
        same_failures = refl;
        adds_failure =
            ap (λ t. s.file_failed || t) (failed ∙ ap (any_check_fails name unit evidence) same);
        adds_errors = omega arith;
      }

  tally_named-Passes :
      (checks : List Check) (name : Text) (unit : Item) (named : Named)
      → column_checks named.state.tally.columns ≡ checks
      → Passes checks named.state
          (tally_named tools policy name unit named)
          (item_fails checks name unit)
          (bit (not (is_empty unit.error)))
  unfolding tally_named tally_error tally_skipped item_fails add_details
  tally_named-Passes checks name unit named same = elim (Bool-cases (not (is_empty unit.error))) [
    | inl bad ↦ rw bad (record {
      same_checks = same;
      same_failures = refl;
      adds_failure = ground arith;
      adds_errors = length-append named.state.tally.errors _;
    })
    | inr good ↦ elim (Bool-cases (not (is_empty unit.skipped))) [
      | inl skips ↦
          rw (good, skips)
            (record {
              same_checks = same;
              same_failures = refl;
              adds_failure = ground arith;
              adds_errors = omega arith;
            })
      | inr reads ↦
          let p =
            tally_read-Passes checks name named.item unit unit.evidence
              (record named.state {
                tally = add_details ([] ∷ codes "```text" ∷ []) named.state.tally;
              })
              same in
          rw (good, reads)
            (record {
              same_checks = p.same_checks;
              same_failures = p.same_failures;
              adds_failure = p.adds_failure;
              adds_errors = p.adds_errors;
            })
    ]
  ]

  name_item-Passes :
      (checks : List Check) (name : Text) (unit : Item) (s : FileState)
      → column_checks s.tally.columns ≡ checks
      → Passes checks s (name_item name unit s).state false 0
  unfolding name_item name_member
  name_item-Passes checks name unit s same = elim (Bool-cases (is_empty unit.member)) [
    | inl whole ↦ rw whole (same-Passes checks s same)
    | inr member ↦ rw member (record {
      same_checks = same;
      same_failures = refl;
      adds_failure = ground arith;
      adds_errors = omega arith;
    })
  ]

  Passes-Passes :
      (checks : List Check) {s t u : FileState} {a b : Bool} {m n : ℕ}
      → Passes checks s t a m
      → Passes checks t u b n
      → Passes checks s u (a || b) (m + n)
  Passes-Passes checks p q = record {
    same_checks = q.same_checks;
    same_failures = q.same_failures ∙ p.same_failures;
    adds_failure = (let e = p.adds_failure in let f = q.adds_failure in ground arith);
    adds_errors = omega (arith, p.adds_errors, q.adds_errors);
  }

  pub tally_items-Passes :
      (checks : List Check) (name : Text) (units : List Item) (s : FileState)
      → column_checks s.tally.columns ≡ checks
      → Passes checks s
          (tally_items tools policy name units s)
          (any_item_fails checks name units)
          (count_errors units)
  unfolding tally_items
  tally_items-Passes checks name [] s same = same-Passes checks s same
  tally_items-Passes checks name (unit ∷ units) s same =
      let named = name_item-Passes checks name unit s same in
      let one = tally_named-Passes checks name unit (name_item name unit s) named.same_checks in
      let rest =
        tally_items-Passes checks name units
          (tally_named tools policy name unit (name_item name unit s)) one.same_checks in
      let all = Passes-Passes checks (Passes-Passes checks named one) rest in
      record {
        same_checks = all.same_checks;
        same_failures = all.same_failures;
        adds_failure = all.adds_failure ∙ ground arith;
        adds_errors = omega (arith, all.adds_errors);
      }
