-- ===== src/Check/Rows.antt =====
-- The lines of `make_report` of check_build.py that are made for each check or each kind of file.
use lighttpd_fuzz.Base.{
  ℕ, ◌+◌, ◌-◌, List, [], ◌∷◌, ◌++◌, map, Bool, true, false, ◌==◌, if◌then◌else◌, length, replicate,
}
use lighttpd_fuzz.Base.Bytes.{codes}
use lighttpd_fuzz.Base.Text.{Text, get, decimal}
use lighttpd_fuzz.Check.Checks.{
  Mode, ignore, mode_text, State, states, found, symbol_only, not_seen, unknown, state_text,
}
use lighttpd_fuzz.Check.Config.{Policy}
use lighttpd_fuzz.Check.Tally.{Inventory}
use lighttpd_fuzz.Check.Columns.{StateCounts, Column, get_mode, pad_right}

unfoldable pub pad_left : ℕ → Text → Text
pad_left width text = replicate (width - length text) b' ' ++ text

-- `used_modes[check] or {modes.get(check, "ignore")}`
abbrev pub values : Policy → Column → List Mode
values policy column = elim column.used [
  | [] ↦ get_mode (get column.check.name policy.modes) ∷ []
  | mode ∷ modes ↦ mode ∷ modes
]

unfoldable pub expectation : List Mode → Text
expectation (mode ∷ []) = mode_text mode
expectation _ = codes "varies"

-- `values != {"ignore"}`
unfoldable pub is_enforced : List Mode → Bool
is_enforced (ignore ∷ []) = false
is_enforced _ = true

abbrev pub sum_failures : List (Text × (ℕ × Text)) → ℕ
sum_failures [] = 0
sum_failures ((name, (count, first)) ∷ entries) = count + sum_failures entries

unfoldable pub join_lines : List Text → Text
join_lines [] = []
join_lines (line ∷ []) = line
join_lines (line ∷ next ∷ rest) = line ++ (10 ∷ join_lines (next ∷ rest))

-- A block of text, or `None`.
abbrev pub block_or_none : List Text → List Text
block_or_none [] = codes "None" ∷ []
block_or_none (line ∷ rest) = codes "```text" ∷ ((line ∷ rest) ++ codes "```" ∷ [])

unfoldable pub count_row : Policy → Column → Text
unfolding pad_left expectation is_enforced
count_row policy column =
    let name = column.check.name in
    let enforced = is_enforced (values policy column) in
    let total =
      if enforced
      then b'[' ∷ (decimal (length column.entries) ++ (codes "](#" ++ (name ++ codes ")")))
      else codes "-" in
    let items = if enforced then decimal (sum_failures column.entries) else codes "-" in
    codes "| "
    ++ (pad_right 18 name
        ++ (codes " | "
            ++ (pad_right 8 (expectation (values policy column))
                ++ (codes " | "
                    ++ (pad_right 32 total
                        ++ (codes " | " ++ (pad_left 12 items ++ codes " |")))))))

unfoldable pub file_row : Text → ℕ → ℕ → ℕ → Text
unfolding pad_left
file_row kind checked inspected errors =
    codes "| "
    ++ (pad_right 14 kind
        ++ (codes " | "
            ++ (pad_left 7 (decimal checked)
                ++ (codes " | "
                    ++ (pad_left 9 (decimal inspected)
                        ++ (codes " | " ++ (pad_left 6 (decimal errors) ++ codes " |")))))))

abbrev pub inventory_row : Text → Inventory → Text
inventory_row kind i = file_row kind (length i.paths) i.inspected (length i.paths - i.inspected)

-- The line for a file that fails once, or more than once.
abbrev pub entry_line : Text × (ℕ × Text) → Text
entry_line (name, (count, first)) =
    if count == 1
    then first
    else name ++ (codes ": " ++ (decimal count ++ codes " member failures; see File details"))

unfoldable pub failure_section : Policy → Column → List Text
unfolding expectation is_enforced
failure_section policy column =
    if is_enforced (values policy column)
    then []
      ∷ (codes "### " ++ column.check.name)
      ∷ []
      ∷ (codes "Expected "
          ++ (expectation (values policy column)
              ++ (codes ": "
                  ++ (decimal (sum_failures column.entries)
                      ++ (if sum_failures column.entries == 1
                          then codes " failure"
                          else codes " failures")))))
      ∷ []
      ∷ block_or_none (map entry_line column.entries)
    else []

unfoldable pub inventory_section : Text → List Text → List Text
inventory_section title paths =
    []
    ∷ (codes "## " ++ (title ++ (codes " (" ++ (decimal (length paths) ++ codes ")"))))
    ∷ []
    ∷ codes "```text"
    ∷ (paths ++ codes "```" ∷ [])

abbrev pub count_of : State → StateCounts → ℕ
count_of found c = c.found_count
count_of symbol_only c = c.symbol_only_count
count_of not_seen c = c.not_seen_count
count_of unknown c = c.unknown_count

-- `", ".join(f"{state}={counts[check][state]}" for state in STATES)`
abbrev pub totals : StateCounts → List State → Text
totals c [] = []
totals c (state ∷ []) = state_text state ++ (b'=' ∷ decimal (count_of state c))
totals c (state ∷ next ∷ rest) =
    state_text state
    ++ (b'=' ∷ (decimal (count_of state c) ++ (codes ", " ++ totals c (next ∷ rest))))

unfoldable pub summary_line : Policy → Column → Text
unfolding expectation
summary_line policy column =
    codes "  "
    ++ (column.check.name
        ++ (codes " (expectation: "
            ++ (expectation (values policy column)
                ++ (codes "): " ++ totals column.counts states))))
