-- ===== src/Check/Columns.antt =====
-- The checks of one item in `make_report` of check_build.py. What is kept for each check in three dictionaries is one column here.
use lighttpd_fuzz.Base.{
  ℕ, ◌+◌, List, [], ◌∷◌, ◌++◌, ◌⊎◌, Bool, true, false, ◌||◌, if◌then◌else◌, Option, none, some,
  length, replicate, ◌-◌, Result,
}
use lighttpd_fuzz.Base.Bytes.{codes}
use lighttpd_fuzz.Base.Text.{Text, get, put}
use lighttpd_fuzz.Check.Checks.{
  Check, Mode, present, absent, ignore, State, found, symbol_only, not_seen, unknown, mode_text,
  state_text,
}
use lighttpd_fuzz.Check.Policy.{policy_failed}
use lighttpd_fuzz.Check.Detect.{Evidence, detect}
use lighttpd_fuzz.Check.Elf.{ReadElf, Heading}
use lighttpd_fuzz.Check.Symbols.{Patterns}

pub data Kind : Type 0 where
  object binary archive : Kind

abbrev pub kind_text : Kind → Text
kind_text object = codes "object"
kind_text binary = codes "binary"
kind_text archive = codes "archive"

pub record Artifact : Type 0 where
  pub path : Text
  pub kind : Kind

-- What is not this program: regular expressions, globs, readelf (a run, or the text of an `OSError` or a
-- timeout), the names of paths, and the writing of the report, which raises an `OSError` or a `ValueError`.
pub record Tools : Type 0 where
  pub patterns : Patterns
  pub headings : Text → Text → List Heading
  pub readelf : Text → Text ⊎ ReadElf
  pub matches : Text → Text → Bool
  pub fullmatch : Text → Text → Bool
  pub relative : Text → Text
  pub resolved : Text → Text
  pub write_report : Text → Result (Unit {0})

-- `dict.fromkeys(STATES, 0)`
pub record StateCounts : Type 0 where
  pub found_count : ℕ
  pub symbol_only_count : ℕ
  pub not_seen_count : ℕ
  pub unknown_count : ℕ

abbrev pub no_states : StateCounts
no_states = record { found_count = 0; symbol_only_count = 0; not_seen_count = 0; unknown_count = 0 }

-- `counts[check][state] += 1`
abbrev pub count_state : State → StateCounts → StateCounts
count_state found c = record c { found_count = c.found_count + 1 }
count_state symbol_only c = record c { symbol_only_count = c.symbol_only_count + 1 }
count_state not_seen c = record c { not_seen_count = c.not_seen_count + 1 }
count_state unknown c = record c { unknown_count = c.unknown_count + 1 }

abbrev pub mode_eq : Mode → Mode → Bool
mode_eq present present = true
mode_eq absent absent = true
mode_eq ignore ignore = true
mode_eq _ _ = false

abbrev pub has_mode : Mode → List Mode → Bool
has_mode mode [] = false
has_mode mode (m ∷ ms) = mode_eq mode m || has_mode mode ms

abbrev pub add_mode : Mode → List Mode → List Mode
add_mode mode modes = if has_mode mode modes then modes else modes ++ mode ∷ []

-- `counts[check]`, `used_modes[check]`, and `failures_by_check[check]`: for each file how often it fails
-- and the line for its first failure.
pub record Column : Type 0 where
  pub check : Check
  pub counts : StateCounts
  pub used : List Mode
  pub entries : List (Text × (ℕ × Text))

abbrev pub get_mode : Option Mode → Mode
get_mode none = ignore
get_mode (some mode) = mode

abbrev pub pad_right : ℕ → Text → Text
pad_right width text = text ++ replicate (width - length text) b' '

abbrev pub failure_detail : State → Text → Text
failure_detail not_seen reason = codes "not seen"
failure_detail found reason = codes "found: " ++ reason
failure_detail _ reason = codes "inconclusive: " ++ reason

-- A further failure of a file is counted, and its first line is kept.
unfoldable pub add_entry : Text → Text → List (Text × (ℕ × Text)) → List (Text × (ℕ × Text))
add_entry name line entries = elim (get name entries) [
  | some (count, first) ↦ put name (count + 1, first) entries
  | none ↦ put name (1, line) entries
]

-- A check of an item: the column, the line of the details, and whether it fails.
pub record Checked : Type 0 where
  pub column : Column
  pub line : Text
  pub failed : Bool

unfoldable pub tally_check :
    (Text → Text → Bool) → Text → Text → List (Text × Mode) → Evidence → Column → Checked
tally_check fullmatch name item modes evidence column =
    let mode = get_mode (get column.check.name modes) in
    let detected = detect fullmatch column.check evidence in
    let mismatch = policy_failed mode detected.0 in
    let suffix =
      if mismatch then codes "; FAIL (expected " ++ (mode_text mode ++ codes ")") else [] in
    let line =
      item
      ++ (codes ": "
          ++ (failure_detail detected.0 detected.1 ++ (codes "; expected " ++ mode_text mode))) in
    record {
      column = record column {
        counts = count_state detected.0 column.counts;
        used = add_mode mode column.used;
        entries = if mismatch then add_entry name line column.entries else column.entries;
      };
      line =
          codes "  "
          ++ (pad_right 18 column.check.name
              ++ (b' '
                  ∷ (pad_right 11 (state_text detected.0) ++ (b' ' ∷ (detected.1 ++ suffix)))));
      failed = mismatch;
    }

-- All checks of an item.
pub record CheckedAll : Type 0 where
  pub columns : List Column
  pub lines : List Text
  pub failed : Bool

unfoldable pub tally_checks :
    (Text → Text → Bool) → Text → Text → List (Text × Mode) → Evidence → List Column → CheckedAll
tally_checks fullmatch name item modes evidence [] = record {
  columns = [];
  lines = [];
  failed = false;
}
tally_checks fullmatch name item modes evidence (column ∷ columns) =
    let one = tally_check fullmatch name item modes evidence column in
    let rest = tally_checks fullmatch name item modes evidence columns in
    record {
      columns = one.column ∷ rest.columns;
      lines = one.line ∷ rest.lines;
      failed = one.failed || rest.failed;
    }
