-- ===== src/Check/Tally/Growth.antt =====
-- What the loop of `make_report` over the artifacts adds to its counts.
use lighttpd_fuzz.Base.{ℕ, ◌+◌, List, [], ◌∷◌, ◌≡◌, ap, Bool, false, not, length, arith}
use lighttpd_fuzz.Base.Text.{Text}
use lighttpd_fuzz.Check.Checks.{Check}
use lighttpd_fuzz.Check.Config.{Policy}
use lighttpd_fuzz.Check.Tally.{
  Tally, bit, tally_artifact, tally_artifacts, add_details, add_file, any_error, inspect,
}
use lighttpd_fuzz.Check.Columns.{Kind, object, binary, archive, Artifact, Tools}
use lighttpd_fuzz.Check.Tally.Failures.{column_checks, file_fails, count_errors, tally_items-Passes}

module _ (tools : Tools) (policy : Policy) where
  -- The files of which an item fails, and the items with an error.
  abbrev pub count_failing : List Check → List Artifact → ℕ
  count_failing checks [] = 0
  count_failing checks (artifact ∷ artifacts) =
      bit (file_fails tools policy checks artifact) + count_failing checks artifacts

  abbrev pub count_all_errors : List Artifact → ℕ
  count_all_errors [] = 0
  count_all_errors (artifact ∷ artifacts) =
      count_errors tools policy (inspect tools policy artifact) + count_all_errors artifacts

  pub record Grows (checks : List Check) (before after : Tally) (failures errors : ℕ) : Type 0 where
    pub same_checks : column_checks after.columns ≡ checks
    pub adds_failures : after.failures ≡ before.failures + failures
    pub adds_errors : length after.errors ≡ length before.errors + errors

  add_file-Grows :
      (checks : List Check) (kind : Kind) (path : Text) (inspected : Bool) (t : Tally)
      → column_checks t.columns ≡ checks
      → Grows checks t (add_file tools policy kind path inspected t) 0 0
  unfolding add_file
  add_file-Grows checks object path inspected t same = record {
    same_checks = same;
    adds_failures = omega arith;
    adds_errors = omega arith;
  }
  add_file-Grows checks binary path inspected t same = record {
    same_checks = same;
    adds_failures = omega arith;
    adds_errors = omega arith;
  }
  add_file-Grows checks archive path inspected t same = record {
    same_checks = same;
    adds_failures = omega arith;
    adds_errors = omega arith;
  }

  tally_artifact-Grows :
      (checks : List Check) (artifact : Artifact) (t : Tally)
      → column_checks t.columns ≡ checks
      → Grows checks t
          (tally_artifact tools policy artifact t)
          (bit (file_fails tools policy checks artifact))
          (count_errors tools policy (inspect tools policy artifact))
  unfolding tally_artifact add_details
  tally_artifact-Grows checks artifact t same =
      let added =
        add_file-Grows checks artifact.kind (tools.resolved artifact.path)
          (not (any_error tools policy (inspect tools policy artifact))) t same in
      let p =
        tally_items-Passes tools policy checks (tools.relative artifact.path)
          (inspect tools policy artifact)
          (record {
            tally = add_details _ (add_file tools policy artifact.kind _ _ t);
            occurrences = [];
            file_failed = false;
          })
          added.same_checks in
      record {
        same_checks = p.same_checks;
        adds_failures = omega (arith, p.same_failures, added.adds_failures, ap bit p.adds_failure);
        adds_errors = omega (arith, p.adds_errors, added.adds_errors);
      }

  pub tally_artifacts-Grows :
      (checks : List Check) (artifacts : List Artifact) (t : Tally)
      → column_checks t.columns ≡ checks
      → Grows checks t
          (tally_artifacts tools policy artifacts t)
          (count_failing checks artifacts)
          (count_all_errors artifacts)
  unfolding tally_artifacts
  tally_artifacts-Grows checks [] t same = record {
    same_checks = same;
    adds_failures = omega arith;
    adds_errors = omega arith;
  }
  tally_artifacts-Grows checks (artifact ∷ artifacts) t same =
      let one = tally_artifact-Grows checks artifact t same in
      let rest =
        tally_artifacts-Grows checks artifacts (tally_artifact tools policy artifact t)
          one.same_checks in
      record {
        same_checks = rest.same_checks;
        adds_failures = omega (arith, one.adds_failures, rest.adds_failures);
        adds_errors = omega (arith, one.adds_errors, rest.adds_errors);
      }
