-- ===== src/Check/Report.antt =====
-- The text of `make_report` of check_build.py, and the end of `main`.
pub mod Status
use lighttpd_fuzz.Base.{
  Result, ok, err, is_empty, ℕ, ◌+◌, ◌-◌, List, [], ◌∷◌, ◌++◌, map, concat, Bool, true, false, not,
  ◌&&◌, ◌==◌, if◌then◌else◌, length, replicate,
}
use lighttpd_fuzz.Base.Bytes.{codes}
use lighttpd_fuzz.Base.Text.{Text, get, decimal}
use lighttpd_fuzz.Check.Checks.{
  Check, Mode, ignore, mode_text, State, states, found, symbol_only, not_seen, unknown, state_text,
  checks,
}
use lighttpd_fuzz.Check.Config.{Policy}
use lighttpd_fuzz.Check.Tally.{Inventory, Tally, tally_artifacts, new_tally}
use lighttpd_fuzz.Check.Columns.{Artifact, Tools, StateCounts, Column, get_mode, pad_right}
use lighttpd_fuzz.Check.Rows.{
  pad_left, values, expectation, is_enforced, sum_failures, join_lines, block_or_none, count_row,
  file_row, inventory_row, entry_line, failure_section, inventory_section, count_of, totals,
  summary_line,
}

abbrev pub any_enforced : Policy → List Column → Bool
any_enforced policy [] = false
any_enforced policy (column ∷ columns) =
    if is_enforced (values policy column) then true else any_enforced policy columns

unfoldable pub head_lines : Text → Text → ℕ → Tally → List Text
head_lines config folder files t =
    codes "# Build artifact report"
    ∷ []
    ∷ (codes "Config: " ++ config)
    ∷ (codes "Paths relative to: " ++ folder)
    ∷ (codes "Files checked: "
        ++ (decimal files
            ++ (codes "; inspected: "
                ++ (decimal t.checked
                    ++ (codes "; files failing expectations: "
                        ++ (decimal t.failures
                            ++ (codes "; errors: " ++ decimal (length t.errors))))))))
    ∷ (codes "Check items: "
        ++ (decimal t.code_items
            ++ (codes "; failing expectations: "
                ++ (decimal t.failed_items
                    ++ (codes "; metadata items skipped: " ++ decimal t.skipped)))))
    ∷ codes "Evidence checks only; inconclusive results fail either expectation."
    ∷ codes
        "Archive members are checked separately; Rust metadata-only items are listed as skipped."
    ∷ codes "Inventory paths are absolute."
    ∷ []
    ∷ codes "## Failure counts"
    ∷ []
    ∷ codes "| Check              | Expected | Failed files                     | Failed items |"
    ∷ codes "| ------------------ | -------- | -------------------------------- | ------------ |"
    ∷ []

unfoldable pub count_lines : Policy → Tally → List Text
count_lines policy t =
    map (count_row policy) t.columns
    ++ ([]
        ∷ codes
            "An item is an object, binary, or individual archive member, excluding Rust metadata-only items."
        ∷ codes
            "Archives with multiple failures have one summary line; every member result appears under File details."
        ∷ codes
            "Ignored checks have no failure count. 'varies' means path rules set different expectations."
        ∷ []
        ∷ codes "## File counts"
        ∷ []
        ∷ codes "| Type           | Checked | Inspected | Errors |"
        ∷ codes "| -------------- | ------- | --------- | ------ |"
        ∷ inventory_row (codes "object") t.objects
        ∷ inventory_row (codes "binary") t.binaries
        ∷ inventory_row (codes "archive") t.archives
        ∷ file_row (codes "archive member") t.members_checked t.members_inspected t.members_errors
        ∷ []
        ∷ codes
            "The archive member row counts members read within archives; it is not an additional file total."
        ∷ [])

unfoldable pub failure_lines : Policy → Tally → List Text
failure_lines policy t =
    []
    ∷ codes "## Failures"
    ∷ []
    ∷ ((if any_enforced policy t.columns
          then []
          else codes "No expectations configured for the checked items." ∷ [])
        ++ (concat (map (failure_section policy) t.columns)
            ++ ([]
                ∷ (codes "## Inspection errors (" ++ (decimal (length t.errors) ++ codes ")"))
                ∷ []
                ∷ block_or_none t.errors)))

unfoldable pub key_lines : Policy → Tally → List Text
key_lines policy t =
    []
    ∷ codes "## Evidence key"
    ∷ []
    ∷ codes "```text"
    ∷ codes
        "FOUND = strong reference or nonempty instrumentation section (libfuzzer: driver symbol)."
    ∷ codes "SYMBOL-ONLY = definition or optional weak reference; instrumentation use is unproven."
    ∷ codes
        "NOT-SEEN = no evidence in available tables; compiler options and symbol completeness are unproven."
    ∷ codes "UNKNOWN = symbol table unavailable, usually due to stripping."
    ∷ codes "SKIPPED = identified Rust metadata with no runtime code or data."
    ∷ codes "```"
    ∷ []
    ∷ codes "## Check summary"
    ∷ []
    ∷ codes "```text"
    ∷ (map (summary_line policy) t.columns
        ++ (codes "```" ∷ [] ∷ codes "## File details" ∷ t.details))

-- The report on a finished tally; `config` and `folder` are the path of the configuration and its parent.
unfoldable pub report_text : Text → Text → Policy → ℕ → Tally → Text
unfolding count_row failure_section inventory_section summary_line head_lines count_lines
    failure_lines key_lines join_lines
report_text config folder policy files t =
    join_lines (
      head_lines config folder files t
      ++ (count_lines policy t
          ++ (failure_lines policy t
              ++ (inventory_section (codes "Objects") t.objects.paths
                  ++ (inventory_section (codes "Binaries") t.binaries.paths
                      ++ (inventory_section (codes "Archives") t.archives.paths
                          ++ key_lines policy t))))))
    ++ 10 ∷ []

-- `make_report`: the text, the number of files that fail, and the errors, which it adds to.
unfoldable pub make_report :
    Tools → Policy → Text → Text → List Artifact → List Text → Text × (ℕ × List Text)
make_report tools policy config folder artifacts errors =
    let t = tally_artifacts tools policy artifacts (new_tally checks errors) in
    (report_text config folder policy (length artifacts) t, (t.failures, t.errors))

-- `2 if errors else 1 if failures else 0`
unfoldable pub exit_status : List Text → ℕ → ℕ
exit_status errors failures = if not (is_empty errors) then 2 else if failures == 0 then 0 else 1

-- The `except` of `main`, around the writing of the report.
abbrev pub or_two : Result (Unit {0}) → ℕ → ℕ
or_two (ok u) status = status
or_two (err e) status = 2

-- What `main` returns after the artifacts have been found: it makes the report, writes it, and counts.
unfoldable pub report_status : Tools → Policy → Text → Text → List Artifact → List Text → ℕ
report_status tools policy config folder artifacts errors =
    let (text, (failures, errors')) = make_report tools policy config folder artifacts errors in
    or_two (tools.write_report text) (exit_status errors' failures)
