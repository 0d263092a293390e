-- ===== src/Tests/Check.antt =====
-- The theorems on check_build.py applied to a small configuration and to the output of readelf.
use lighttpd_fuzz.Base.{
  List, [], ◌∷◌, ◌++◌, ◌≡◌, refl, ◌↔◌, inr, Bool, true, false, none, some, All, ok,
}
use lighttpd_fuzz.Base.Bytes.{codes, bytes_eq}
use lighttpd_fuzz.Base.Text.{Text, elem, get, put, strip, is_space, left_strip, starts_with}
use lighttpd_fuzz.Backend.Modes.{before_first}
use lighttpd_fuzz.Check.Checks.{Check, present, absent}
use lighttpd_fuzz.Check.Config.{
  ConfigFile, Config, Policy, load_config, check_sections, check_keys, allowed_keys, lines,
  strip_lines, split_lines, is_break, get_option, read_mode, section_modes, load_modes,
}
use lighttpd_fuzz.Check.Config.Loaded.{IsLoaded, load_config-IsLoaded}
use lighttpd_fuzz.Check.Policy.{effective_modes, policy_failed}
use lighttpd_fuzz.Check.Policy.Latest.{or_earlier, ruled, get-effective_modes}
use lighttpd_fuzz.Check.Detect.{Evidence, detect}
use lighttpd_fuzz.Check.Detect.Sound.{IsClean, policy_failed-absent_iff}
use lighttpd_fuzz.Check.Symbols.{
  Patterns, split_spaces, read_line, read_lines, read_fields, read_symbol, read_section,
}
use lighttpd_fuzz.Check.Elf.{Item, parse_elf, read_item}
use lighttpd_fuzz.Check.Elf.Read.{any_refers, parse_elf-references}
use lighttpd_fuzz.Check.Columns.{Artifact, Tools, object}
use lighttpd_fuzz.Check.Tally.{tally_artifacts, new_tally}
use lighttpd_fuzz.Check.Tally.Counts.{IsCounted, tally_artifacts-IsCounted}
use lighttpd_fuzz.Check.Report.{make_report, report_status}
use lighttpd_fuzz.Check.Report.Status.{IsGoodFile, report_status-eq-zero}

-- One folder, the check `asan` required, and forbidden below `lib/`.
abbrev small_file : ConfigFile
small_file = record {
  defaults = [];
  sections =
      (codes "scan", (codes "object_dirs", codes "\n build \n") ∷ [])
      ∷ (codes "checks", (codes "asan", codes "require") ∷ [])
      ∷ (codes "checks: lib/*", (codes "asan", codes " absent") ∷ [])
      ∷ [];
}

abbrev small_policy : Policy
small_policy = record {
  modes = (codes "asan", present) ∷ [];
  overrides = (codes "lib/*", (codes "asan", absent) ∷ []) ∷ [];
}

abbrev small_config : Config
small_config = record {
  objects = codes "/src/build" ∷ [];
  binaries = [];
  exclude = [];
  policy = small_policy;
  report = codes "/src/build-report.md";
}

abbrev in_src : Text → Text
in_src name = codes "/src/" ++ name

small_loads : load_config in_src small_file ≡ ok small_config
unfolding load_config check_sections check_keys allowed_keys lines strip_lines split_lines is_break
    get_option read_mode section_modes load_modes starts_with strip left_strip is_space elem get put
small_loads = refl

load_config-IsLoaded_example : IsLoaded small_config
load_config-IsLoaded_example = load_config-IsLoaded in_src small_file small_config small_loads

-- A pattern that ends in "*" and is the beginning of a name matches it.
abbrev below : Text → Text → Bool
below name [] = false
below name (c ∷ cs) = starts_with name (c ∷ cs)

get-effective_modes_example :
    get
      (codes "asan")
      (effective_modes below (codes "lib/a.o") [] small_policy.modes small_policy.overrides)
    ≡ or_earlier
        (ruled below (codes "asan") (codes "lib/a.o") [] small_policy.overrides)
        (get (codes "asan") small_policy.modes)
get-effective_modes_example =
    get-effective_modes below (codes "asan") (codes "lib/a.o") [] small_policy.modes
      small_policy.overrides

abbrev asan_check : Check
asan_check = record {
  name = codes "asan";
  symbol_pattern = some (codes "__asan_init");
  section_pattern = some (codes "asan_globals");
}

abbrev clean_evidence : Evidence
clean_evidence = record {
  references = codes "printf" ∷ [];
  other_symbols = (codes "main", codes "definition") ∷ [];
  sections = codes ".text" ∷ [];
  symbols_present = true;
}

policy_failed-absent_iff_example :
    (policy_failed absent (detect bytes_eq asan_check clean_evidence).0 ≡ false)
    ↔ IsClean bytes_eq asan_check clean_evidence
policy_failed-absent_iff_example = policy_failed-absent_iff bytes_eq asan_check clean_evidence

-- Rows are found by how they begin.
abbrev simple_patterns : Patterns
simple_patterns = record {
  is_relocatable = λ line. false;
  section_row = λ line. none;
  is_index = λ field. bytes_eq field (codes "1:");
}

abbrev one_reference : Text
one_reference = codes "ELF Header:\n 1: 0 0 NOTYPE GLOBAL DEFAULT UND __asan_init@V1\n"

abbrev read_evidence : Evidence
read_evidence = record {
  references = codes "__asan_init" ∷ [];
  other_symbols = [];
  sections = [];
  symbols_present = false;
}

abbrev evidence_item : Item
evidence_item = record { member = []; evidence = some read_evidence; error = []; skipped = [] }

reference_read : parse_elf simple_patterns one_reference [] ≡ inr evidence_item
unfolding parse_elf read_item read_lines read_line read_fields read_symbol read_section split_lines
    is_break split_spaces is_space elem before_first
reference_read = refl

parse_elf-references_example :
    elem (codes "__asan_init") read_evidence.references
    ≡ any_refers simple_patterns (codes "__asan_init") (split_lines false [] one_reference)
parse_elf-references_example =
    parse_elf-references simple_patterns one_reference [] (codes "__asan_init") evidence_item
      read_evidence reference_read refl

abbrev small_tools : Tools
small_tools = record {
  patterns = simple_patterns;
  headings = λ path stdout. [];
  readelf = λ path. inr (record { status = codes "0"; stdout = one_reference; stderr = [] });
  matches = below;
  fullmatch = bytes_eq;
  relative = λ path. path;
  resolved = in_src;
  write_report = λ text. ok tt;
}

abbrev one_artifact : List Artifact
one_artifact = record { path = codes "a.o"; kind = object } ∷ []

tally_artifacts-IsCounted_example :
    IsCounted
      (tally_artifacts small_tools small_policy one_artifact (new_tally (asan_check ∷ []) []))
tally_artifacts-IsCounted_example =
    tally_artifacts-IsCounted small_tools small_policy (asan_check ∷ []) one_artifact []

abbrev no_errors : List Text
no_errors = []

report_status-eq-zero_example :
    (report_status small_tools small_policy (codes "c.ini") (codes "/src") one_artifact no_errors
      ≡ 0)
    ↔ ((no_errors ≡ [])
        × All (IsGoodFile small_tools small_policy) one_artifact
        × (small_tools.write_report
              (make_report small_tools small_policy
                (codes "c.ini")
                (codes "/src")
                one_artifact
                no_errors).0
            ≡ ok tt))
report_status-eq-zero_example =
    report_status-eq-zero small_tools small_policy (codes "c.ini") (codes "/src") one_artifact
      no_errors
