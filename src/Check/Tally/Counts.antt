-- ===== src/Check/Tally/Counts.antt =====
-- The states that `make_report` counts for each check.
use lighttpd_fuzz.Base.{
  is_empty, ℕ, ◌+◌, List, [], ◌∷◌, map, ◌≡◌, refl, inl, inr, Bool, not, Bool-cases, Option, none,
  some, All, arith,
}
use lighttpd_fuzz.Base.Text.{Text}
use lighttpd_fuzz.Base.Bytes.{codes}
use lighttpd_fuzz.Check.Checks.{Check, Mode, State, found, symbol_only, not_seen, unknown}
use lighttpd_fuzz.Check.Config.{Policy}
use lighttpd_fuzz.Check.Detect.{Evidence, detect}
use lighttpd_fuzz.Check.Elf.{Item}
use lighttpd_fuzz.Check.Columns.{
  Kind, object, binary, archive, Artifact, Tools, StateCounts, Column, count_state, tally_check,
  tally_checks,
}
use lighttpd_fuzz.Check.Tally.{
  Tally, FileState, Named, tally_checked, tally_error, tally_skipped, tally_evidence, tally_read,
  tally_named, tally_items, tally_artifact, tally_artifacts, name_item, name_member, add_details,
  add_file, inspect, new_tally, new_column,
}

abbrev pub total : StateCounts → ℕ
total c = c.found_count + c.symbol_only_count + c.not_seen_count + c.unknown_count

-- Every check has a state for each item whose evidence was checked.
abbrev pub IsCounted : Tally → Type 0
IsCounted t = All (λ column. total column.counts ≡ t.code_items) t.columns

total-count_state : (state : State) (c : StateCounts) → total (count_state state c) ≡ total c + 1
total-count_state found c = omega arith
total-count_state symbol_only c = omega arith
total-count_state not_seen c = omega arith
total-count_state unknown c = omega arith

tally_checks-total :
    (fullmatch : Text → Text → Bool) (name item : Text) (modes : List (Text × Mode))
    (evidence : Evidence) (n : ℕ) (columns : List Column)
    → All (λ column. total column.counts ≡ n) columns
    → All
        (λ column. total column.counts ≡ n + 1)
        (tally_checks fullmatch name item modes evidence columns).columns
unfolding tally_checks tally_check
tally_checks-total fullmatch name item modes evidence n [] h = tt
tally_checks-total fullmatch name item modes evidence n (column ∷ columns) (h, hs) = (
  omega (arith, total-count_state (detect fullmatch column.check evidence).0 column.counts),
  tally_checks-total fullmatch name item modes evidence n columns hs,
)

module _ (tools : Tools) (policy : Policy) where
  tally_read-IsCounted :
      (name item : Text) (unit : Item) (evidence : Option Evidence) (s : FileState)
      → IsCounted s.tally
      → IsCounted (tally_read tools policy name item unit evidence s).tally
  unfolding tally_evidence tally_checked add_details
  tally_read-IsCounted name item unit none s h = h
  tally_read-IsCounted name item unit (some evidence) s h =
      tally_checks-total tools.fullmatch name item _ evidence s.tally.code_items s.tally.columns h

  tally_named-IsCounted :
      (name : Text) (unit : Item) (named : Named)
      → IsCounted named.state.tally
      → IsCounted (tally_named tools policy name unit named).tally
  unfolding tally_named tally_error tally_skipped add_details
  tally_named-IsCounted name unit named h = elim (Bool-cases (not (is_empty unit.error))) [
    | inl bad ↦ rw bad h
    | inr good ↦ elim (Bool-cases (not (is_empty unit.skipped))) [
      | inl skips ↦ rw (good, skips) h
      | inr reads ↦
          rw (good, reads)
            (tally_read-IsCounted name named.item unit unit.evidence
              (record named.state {
                tally = add_details ([] ∷ codes "```text" ∷ []) named.state.tally;
              })
              h)
    ]
  ]

  name_item-IsCounted :
      (name : Text) (unit : Item) (s : FileState)
      → IsCounted s.tally
      → IsCounted (name_item name unit s).state.tally
  unfolding name_item name_member
  name_item-IsCounted name unit s h = elim (Bool-cases (is_empty unit.member)) [
    | inl whole ↦ rw whole h
    | inr member ↦ rw member h
  ]

  tally_items-IsCounted :
      (name : Text) (units : List Item) (s : FileState)
      → IsCounted s.tally
      → IsCounted (tally_items tools policy name units s).tally
  unfolding tally_items
  tally_items-IsCounted name [] s h = h
  tally_items-IsCounted name (unit ∷ units) s h =
      tally_items-IsCounted name units (tally_named tools policy name unit (name_item name unit s))
        (tally_named-IsCounted name unit (name_item name unit s)
          (name_item-IsCounted name unit s h))

  add_file-IsCounted :
      (kind : Kind) (path : Text) (inspected : Bool) (t : Tally)
      → IsCounted t
      → IsCounted (add_file tools policy kind path inspected t)
  unfolding add_file
  add_file-IsCounted object path inspected t h = h
  add_file-IsCounted binary path inspected t h = h
  add_file-IsCounted archive path inspected t h = h

  -- If every check has as many states as there are items, it has so after a further file, whatever kind
  -- it is of and whether its items are checked, skipped or cannot be read.
  pub tally_artifact-IsCounted :
      (artifact : Artifact) (t : Tally)
      → IsCounted t
      → IsCounted (tally_artifact tools policy artifact t)
  unfolding tally_artifact add_details
  tally_artifact-IsCounted artifact t h =
      tally_items-IsCounted (tools.relative artifact.path) (inspect tools policy artifact) _
        (add_file-IsCounted artifact.kind (tools.resolved artifact.path) _ t h)

  new_columns_counted :
      (checks : List Check) → All (λ column. total column.counts ≡ 0) (map new_column checks)
  new_columns_counted [] = tt
  new_columns_counted (check ∷ checks) = (refl, new_columns_counted checks)

  tally_artifacts-keeps :
      (artifacts : List Artifact) (t : Tally)
      → IsCounted t
      → IsCounted (tally_artifacts tools policy artifacts t)
  unfolding tally_artifacts
  tally_artifacts-keeps [] t h = h
  tally_artifacts-keeps (artifact ∷ artifacts) t h =
      tally_artifacts-keeps artifacts (tally_artifact tools policy artifact t)
        (tally_artifact-IsCounted artifact t h)

  -- In a report each check has exactly one state for each item whose evidence was checked: its four counts
  -- add up to the number of these items.
  pub tally_artifacts-IsCounted :
      (checks : List Check) (artifacts : List Artifact) (errors : List Text)
      → IsCounted (tally_artifacts tools policy artifacts (new_tally checks errors))
  unfolding new_tally
  tally_artifacts-IsCounted checks artifacts errors =
      tally_artifacts-keeps artifacts (new_tally checks errors) (new_columns_counted checks)
