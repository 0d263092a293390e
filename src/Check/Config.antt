-- ===== src/Check/Config.antt =====
-- `lines` and `load_config` of check_build.py. A file that `configparser` has read is its sections, in
-- order, each with its options; reading it and joining paths are parameters.
pub mod Loaded
use lighttpd_fuzz.Base.{
  is_empty, ℕ, List, [], ◌∷◌, ◌++◌, Bool, true, false, not, ◌&&◌, ◌||◌, leb, ◌==◌, if◌then◌else◌,
  map, drop, Option, none, some, Result, ok, err, value_error, raise_if, ◌>>=◌, ◌>>◌,
}
use lighttpd_fuzz.Base.Bytes.{codes, bytes_eq}
use lighttpd_fuzz.Base.Text.{Text, is_space, strip, elem, get, put, starts_with}
use lighttpd_fuzz.Check.Checks.{Mode, ignore, modes, legacy_modes, check_names}

pub record ConfigFile : Type 0 where
  pub defaults : List (Text × Text)
  pub sections : List (Text × List (Text × Text))

-- What `str.splitlines` splits at.
unfoldable pub is_break : ℕ → Bool
is_break c =
    (leb 10 c && leb c 13)
    || (leb 28 c && leb c 30)
    || (c == 0x85)
    || (c == 0x2028)
    || (c == 0x2029)

-- Nothing, if a piece is empty.
abbrev pub add_piece : Text → List Text → List Text
add_piece [] rest = rest
add_piece (c ∷ cs) rest = (c ∷ cs) ∷ rest

-- `splitlines`, over what the line holds so far; a "\n" right after a "\r" ends no line of its own.
unfoldable pub split_lines : Bool → Text → Text → List Text
split_lines after_cr line [] = add_piece line []
split_lines after_cr line (c ∷ cs) =
    let skipped = split_lines false [] cs in
    let ended = line ∷ split_lines (c == 13) [] cs in
    let longer = split_lines false (line ++ c ∷ []) cs in
    if after_cr && c == 10 then skipped else if is_break c then ended else longer

-- `[line.strip() for line in … if line.strip()]`
-- `[line.strip() for line in … if line.strip()]`
unfoldable pub strip_lines : List Text → List Text
strip_lines [] = []
strip_lines (line ∷ rest) = add_piece (strip is_space line) (strip_lines rest)

unfoldable pub lines : Text → List Text
unfolding strip_lines split_lines
lines value = strip_lines (split_lines false [] value)

abbrev pub checks_prefix : Text
checks_prefix = codes "checks:"

-- The options that `section` may have, or the error on its name.
unfoldable pub allowed_keys : Text → Result (List Text)
allowed_keys section =
    if starts_with section checks_prefix
    then (if bytes_eq (strip is_space (drop 7 section)) []
        then err (value_error "[checks:PATH_GLOB] requires a nonempty path pattern")
        else ok check_names)
    else if bytes_eq section (codes "scan")
    then ok (codes "object_dirs" ∷ codes "binary_paths" ∷ codes "exclude" ∷ [])
    else if bytes_eq section (codes "checks")
    then ok check_names
    else if bytes_eq section (codes "output")
    then ok (codes "report" ∷ [])
    else err (value_error "unknown config section")

unfoldable pub check_keys : List Text → List (Text × Text) → Result (Unit {0})
check_keys keys [] = ok tt
check_keys keys ((key, value) ∷ options) = do
  raise_if (not (elem key keys)) (value_error "unknown config option")
  check_keys keys options

unfoldable pub check_sections : List (Text × List (Text × Text)) → Result (Unit {0})
check_sections [] = ok tt
check_sections ((section, options) ∷ sections) = do
  keys ← allowed_keys section
  check_keys keys options
  check_sections sections

-- `config.get(section, option, fallback=…)`
unfoldable pub get_option : Text → Text → Text → List (Text × List (Text × Text)) → Text
get_option section option fallback [] = fallback
get_option section option fallback ((name, options) ∷ sections) =
    if bytes_eq name section
    then (elim (get option options) [ some value ↦ value | none ↦ fallback ])
    else get_option section option fallback sections

abbrev pub get_text : Option Text → Text
get_text none = []
get_text (some value) = value

abbrev pub get_or_err : Option Mode → Result Mode
get_or_err (some mode) = ok mode
get_or_err none = err (value_error "invalid mode")

-- `LEGACY_MODES.get(value.strip(), value.strip())`, and the test that the mode is in `MODES`.
unfoldable pub read_mode : Text → Result Mode
read_mode value =
    let v = strip is_space value in
    get_or_err (get (elim (get v legacy_modes) [ some mode ↦ mode | none ↦ v ]) modes)

-- `mode != "ignore" or section != "checks"`
abbrev pub is_kept : Bool → Mode → Bool
is_kept true ignore = false
is_kept true _ = true
is_kept false _ = true

-- The inner loop: `plain` says that the section is `checks`.
unfoldable pub section_modes :
    Bool → List (Text × Text) → List (Text × Mode) → Result (List (Text × Mode))
section_modes plain [] result = ok result
section_modes plain ((check, value) ∷ options) result = do
  mode ← read_mode value
  section_modes plain options (if is_kept plain mode then put check mode result else result)

-- The modes of all checks, and the changes to them for the paths that match a pattern.
pub record Policy : Type 0 where
  pub modes : List (Text × Mode)
  pub overrides : List (Text × List (Text × Mode))

unfoldable pub load_modes : List (Text × List (Text × Text)) → Policy → Result Policy
load_modes [] policy = ok policy
load_modes ((section, options) ∷ sections) policy =
    if bytes_eq section (codes "checks")
    then (do
      changes ← section_modes true options []
      load_modes sections (record policy { modes = changes }))
    else if starts_with section checks_prefix
    then (do
      changes ← section_modes false options []
      load_modes sections (record policy {
        overrides = policy.overrides ++ (strip is_space (drop 7 section), changes) ∷ [];
      }))
    else load_modes sections policy

pub record Config : Type 0 where
  pub objects : List Text
  pub binaries : List Text
  pub exclude : List Text
  pub policy : Policy
  pub report : Text

-- `under` is `base / name` for the folder of the configuration.
unfoldable pub load_config : (Text → Text) → ConfigFile → Result Config
load_config under config = do
  raise_if (not (is_empty config.defaults)) (value_error "[DEFAULT] is not supported")
  check_sections config.sections
  let objects = lines (get_option (codes "scan") (codes "object_dirs") [] config.sections)
  let binaries = lines (get_option (codes "scan") (codes "binary_paths") [] config.sections)
  raise_if (is_empty objects && is_empty binaries)
      (value_error "configure at least one object_dirs or binary_paths entry")
  policy ← load_modes config.sections (record { modes = []; overrides = [] })
  let report =
      strip is_space
        (get_option (codes "output") (codes "report") (codes "build-report.md") config.sections)
  raise_if (is_empty report) (value_error "[output] report must not be empty")
  ok (record {
    objects = map under objects;
    binaries = map under binaries;
    exclude = lines (get_option (codes "scan") (codes "exclude") [] config.sections);
    policy = policy;
    report = under report;
  })
