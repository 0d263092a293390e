-- ===== src/Check/Tally.antt =====
-- The loops of `make_report` of check_build.py over the artifacts and their items.
pub mod Failures
pub mod Growth
pub mod Counts
use lighttpd_fuzz.Base.{
  is_empty, ℕ, ◌+◌, List, [], ◌∷◌, ◌++◌, map, ◌⊎◌, inl, inr, Bool, true, false, not, ◌||◌, ltb,
  ◌==◌, if◌then◌else◌, Option, none, some, length, replicate, ◌-◌,
}
use lighttpd_fuzz.Base.Bytes.{codes, bytes_eq}
use lighttpd_fuzz.Base.Text.{Text, get, put, decimal}
use lighttpd_fuzz.Check.Checks.{
  Check, Mode, present, absent, ignore, State, found, symbol_only, not_seen, unknown, mode_text,
  state_text,
}
use lighttpd_fuzz.Check.Config.{Policy}
use lighttpd_fuzz.Check.Policy.{effective_modes, policy_failed, member_name}
use lighttpd_fuzz.Check.Detect.{Evidence, detect}
use lighttpd_fuzz.Check.Elf.{ReadElf, Heading, Item, error_item, inspect_file, inspect_archive}
use lighttpd_fuzz.Check.Symbols.{Patterns}
use lighttpd_fuzz.Check.Columns.{
  Kind, kind_text, Artifact, Tools, StateCounts, no_states, count_state, mode_eq, has_mode,
  add_mode, Column, get_mode, pad_right, failure_detail, add_entry, Checked, tally_check,
  CheckedAll, tally_checks, object, binary, archive,
}

pub record Inventory : Type 0 where
  pub paths : List Text
  pub inspected : ℕ

pub record Tally : Type 0 where
  pub objects : Inventory
  pub binaries : Inventory
  pub archives : Inventory
  pub members_checked : ℕ
  pub members_inspected : ℕ
  pub members_errors : ℕ
  pub details : List Text
  pub errors : List Text
  pub columns : List Column
  pub failures : ℕ
  pub checked : ℕ
  pub code_items : ℕ
  pub failed_items : ℕ
  pub skipped : ℕ

abbrev pub bit : Bool → ℕ
bit true = 1
bit false = 0

-- The variables of the loop over the items of a file.
pub record FileState : Type 0 where
  pub tally : Tally
  pub occurrences : List (Text × ℕ)
  pub file_failed : Bool

abbrev pub or_zero : Option ℕ → ℕ
or_zero none = 0
or_zero (some n) = n

-- The name of an item, and its heading in the details.
pub record Named : Type 0 where
  pub state : FileState
  pub item : Text

-- `if unit.member:`
unfoldable pub name_member : Text → Item → FileState → Named
name_member name unit s =
    let occurrence = or_zero (get unit.member s.occurrences) + 1 in
    let suffix =
      if ltb 1 occurrence then codes " [occurrence " ++ (decimal occurrence ++ codes "]") else [] in
    record {
      state = record s {
        tally = record s.tally {
          members_checked = s.tally.members_checked + 1;
          members_errors = s.tally.members_errors + bit (not (is_empty unit.error));
          members_inspected = s.tally.members_inspected + bit (is_empty unit.error);
          details =
              s.tally.details
              ++ ([] ∷ (codes "#### `" ++ (unit.member ++ (codes "`" ++ suffix))) ∷ []);
        };
        occurrences = put unit.member occurrence s.occurrences;
      };
      item = member_name name unit.member ++ suffix;
    }

unfoldable pub name_item : Text → Item → FileState → Named
name_item name unit s =
    if is_empty unit.member then record { state = s; item = name } else name_member name unit s

unfoldable pub add_details : List Text → Tally → Tally
add_details lines t = record t { details = t.details ++ lines }

-- An item with an error, one that is skipped, and one whose evidence is checked.
unfoldable pub tally_error : Text → Text → Tally → Tally
unfolding add_details
tally_error item error t =
    add_details ((codes "  ERROR: " ++ error) ∷ codes "```" ∷ [])
      (record t { errors = t.errors ++ (item ++ (codes ": " ++ error)) ∷ [] })

unfoldable pub tally_skipped : Text → Tally → Tally
unfolding add_details
tally_skipped reason t =
    add_details ((codes "  SKIPPED: " ++ reason) ∷ codes "```" ∷ [])
      (record t { skipped = t.skipped + 1 })

unfoldable pub tally_checked : CheckedAll → Tally → Tally
unfolding add_details
tally_checked all t = add_details (all.lines ++ codes "```" ∷ []) (record t {
  columns = all.columns;
  code_items = t.code_items + 1;
  failed_items = t.failed_items + bit all.failed;
})

module _ (tools : Tools) (policy : Policy) where
  unfoldable pub tally_evidence : Text → Text → Item → Evidence → FileState → FileState
  tally_evidence name item unit evidence s =
      let modes = effective_modes tools.matches name unit.member policy.modes policy.overrides in
      let all = tally_checks tools.fullmatch name item modes evidence s.tally.columns in
      record s { tally = tally_checked all s.tally; file_failed = s.file_failed || all.failed }

  -- An item without an error and without a reason to skip it has evidence.
  abbrev pub tally_read : Text → Text → Item → Option Evidence → FileState → FileState
  tally_read name item unit (some evidence) s = tally_evidence name item unit evidence s
  tally_read name item unit none s = s

  unfoldable pub tally_named : Text → Item → Named → FileState
  unfolding add_details
  tally_named name unit named =
      let s = record named.state {
        tally = add_details ([] ∷ codes "```text" ∷ []) named.state.tally;
      } in
      if not (is_empty unit.error)
      then record s { tally = tally_error named.item unit.error s.tally }
      else if not (is_empty unit.skipped)
      then record s { tally = tally_skipped unit.skipped s.tally }
      else tally_read name named.item unit unit.evidence s

  unfoldable pub tally_items : Text → List Item → FileState → FileState
  tally_items name [] s = s
  tally_items name (unit ∷ units) s =
      tally_items name units (tally_named name unit (name_item name unit s))

  abbrev pub inspected_items : Artifact → Text ⊎ ReadElf → List Item
  inspected_items artifact (inl error) = error_item [] error ∷ []
  inspected_items artifact (inr result) = elim artifact.kind [
    | archive ↦ inspect_archive tools.patterns (tools.headings artifact.path) result
    | _ ↦ inspect_file tools.patterns result
  ]

  -- `inspect`, and the item that stands for its exception.
  unfoldable pub inspect : Artifact → List Item
  inspect artifact = inspected_items artifact (tools.readelf artifact.path)

  abbrev pub any_error : List Item → Bool
  any_error [] = false
  any_error (unit ∷ units) = not (is_empty unit.error) || any_error units

  abbrev pub add_path : Text → Bool → Inventory → Inventory
  add_path path inspected i = record {
    paths = i.paths ++ path ∷ [];
    inspected = i.inspected + bit inspected;
  }

  unfoldable pub add_file : Kind → Text → Bool → Tally → Tally
  add_file object path inspected t = record t {
    objects = add_path path inspected t.objects;
    checked = t.checked + bit inspected;
  }
  add_file binary path inspected t = record t {
    binaries = add_path path inspected t.binaries;
    checked = t.checked + bit inspected;
  }
  add_file archive path inspected t = record t {
    archives = add_path path inspected t.archives;
    checked = t.checked + bit inspected;
  }

  unfoldable pub tally_artifact : Artifact → Tally → Tally
  unfolding add_details
  tally_artifact artifact t =
      let name = tools.relative artifact.path in
      let units = inspect artifact in
      let t' =
        add_details
          ([]
            ∷ (codes "### `" ++ (name ++ (codes "` [" ++ (kind_text artifact.kind ++ codes "]"))))
            ∷ [])
          (add_file artifact.kind (tools.resolved artifact.path) (not (any_error units)) t) in
      let s =
        tally_items name units (record { tally = t'; occurrences = []; file_failed = false }) in
      record s.tally { failures = s.tally.failures + bit s.file_failed }

  unfoldable pub tally_artifacts : List Artifact → Tally → Tally
  tally_artifacts [] t = t
  tally_artifacts (artifact ∷ artifacts) t = tally_artifacts artifacts (tally_artifact artifact t)

abbrev pub no_files : Inventory
no_files = record { paths = []; inspected = 0 }

abbrev pub new_column : Check → Column
new_column check = record { check = check; counts = no_states; used = []; entries = [] }

-- The variables of `make_report` before the loop.
unfoldable pub new_tally : List Check → List Text → Tally
new_tally checks errors = record {
  objects = no_files;
  binaries = no_files;
  archives = no_files;
  members_checked = 0;
  members_inspected = 0;
  members_errors = 0;
  details = [];
  errors = errors;
  columns = map new_column checks;
  failures = 0;
  checked = 0;
  code_items = 0;
  failed_items = 0;
  skipped = 0;
}
