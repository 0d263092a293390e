-- ===== src/Check/Checks.antt =====
-- The tables of check_build.py: the checks with their patterns, and the names of modes and states.
use lighttpd_fuzz.Base.{List, [], ◌∷◌, ◌++◌, map, concat, Option, none, some}
use lighttpd_fuzz.Base.Bytes.{codes}
use lighttpd_fuzz.Base.Text.{Text}

abbrev pub fortify_functions : Text
fortify_functions = concat (
    codes "asprintf|confstr|dprintf|explicit_bzero|fdelt|fgets|fgets_unlocked|"
    ∷ codes "fgetws|fgetws_unlocked|fprintf|fread|fread_unlocked|fwprintf|getcwd|"
    ∷ codes "getdomainname|getgroups|gethostname|getlogin_r|gets|getwd|longjmp|"
    ∷ codes "mbsnrtowcs|mbsrtowcs|mbstowcs|memcpy|memmove|mempcpy|memset|obstack_printf|"
    ∷ codes "obstack_vprintf|poll|ppoll|pread|pread64|printf|read|readlink|readlinkat|"
    ∷ codes "realpath|recv|recvfrom|snprintf|sprintf|stpcpy|stpncpy|strcat|strcpy|"
    ∷ codes "strncat|strncpy|swprintf|syslog|ttyname_r|vasprintf|vdprintf|vfprintf|"
    ∷ codes "vfwprintf|vprintf|vsnprintf|vsprintf|vswprintf|vsyslog|vwprintf|wcrtomb|"
    ∷ codes "wcpcpy|wcpncpy|wcsnrtombs|wcsrtombs|wcstombs|wcscat|wcscpy|wcsncat|"
    ∷ codes "wcsncpy|wctomb|wmemcpy|wmemmove|wmempcpy|wmemset|wprintf"
    ∷ [])

-- A pattern for the names of symbols and one for the names of sections.
pub record Check : Type 0 where
  pub name : Text
  pub symbol_pattern : Option Text
  pub section_pattern : Option Text

abbrev symbols : Text → Text → Check
symbols name pattern = record { name = name; symbol_pattern = some pattern; section_pattern = none }

abbrev sections : Text → Text → Check
sections name pattern = record {
  name = name;
  symbol_pattern = none;
  section_pattern = some pattern;
}

abbrev both : Text → Text → Text → Check
both name symbols sections = record {
  name = name;
  symbol_pattern = some symbols;
  section_pattern = some sections;
}

-- `CHECKS`, in the order of the dictionary.
abbrev pub checks : List Check
checks =
    symbols (codes "stack_protector") (codes "__stack_chk_(?:fail(?:_local)?|guard)")
    ∷ symbols (codes "fortify") (
        codes "(?:__(?:nldbl___)?(?:"
        ++ (fortify_functions ++ codes ")_chk(?:ieee128)?|__open(?:64|at|at64)?_2)"))
    ∷ both (codes "asan")
        (codes "__asan_(?:init|report_.*|load.*|store.*|stack_.*|register_.*|unregister_.*|mem"
          ++ (codes "cpy|memmove|memset)"))
        (codes "asan_globals")
    ∷ symbols (codes "ubsan") (codes "__ubsan_handle_.*")
    ∷ symbols (codes "tsan")
        (codes "__tsan_(?:init|read.*|write.*|atomic.*|func_entry|func_exit|vptr_.*)")
    ∷ symbols (codes "msan") (codes "__msan_.*")
    ∷ both (codes "sancov")
        (codes "__sanitizer_cov_(?:trace_pc(?:_guard)?|trace_pc_guard_init|8bit_counters_init|"
          ++ (codes "bool_flag_init)"))
        (codes "__sancov_(?:cntrs|guards|bools)")
    ∷ symbols (codes "sancov_cmp") (codes "__sanitizer_cov_trace_(?:(?:const_)?cmp[1248]|switch)")
    ∷ both (codes "sancov_pc_table") (codes "__sanitizer_cov_pcs_init") (codes "__sancov_pcs")
    ∷ sections (codes "llvm_profile") (codes "__llvm_prf_(?:cnts|bits)")
    ∷ sections (codes "source_coverage") (codes "__llvm_covmap")
    ∷ symbols (codes "libfuzzer") (codes "LLVMFuzzerRunDriver")
    ∷ []

abbrev pub check_names : List Text
check_names = map (λ check. check.name) checks

-- `MODES`
pub data Mode : Type 0 where
  present absent ignore : Mode

-- `STATES`
pub data State : Type 0 where
  found symbol_only not_seen unknown : State

abbrev pub mode_text : Mode → Text
mode_text present = codes "present"
mode_text absent = codes "absent"
mode_text ignore = codes "ignore"

abbrev pub state_text : State → Text
state_text found = codes "FOUND"
state_text symbol_only = codes "SYMBOL-ONLY"
state_text not_seen = codes "NOT-SEEN"
state_text unknown = codes "UNKNOWN"

-- A value that is in `MODES`.
abbrev pub modes : List (Text × Mode)
modes = (codes "present", present) ∷ (codes "absent", absent) ∷ (codes "ignore", ignore) ∷ []

abbrev pub legacy_modes : List (Text × Text)
legacy_modes =
    (codes "require", codes "present")
    ∷ (codes "forbid", codes "absent")
    ∷ (codes "report", codes "ignore")
    ∷ []

abbrev pub states : List State
states = found ∷ symbol_only ∷ not_seen ∷ unknown ∷ []
