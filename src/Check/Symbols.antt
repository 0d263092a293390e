-- ===== src/Check/Symbols.antt =====
-- The loop of `parse_elf` of check_build.py over the lines that readelf prints. The regular expressions are parameters.
use lighttpd_fuzz.Base.{
  ℕ, ◌+◌, ◌-◌, ◌*◌, List, [], ◌∷◌, ◌++◌, Bool, false, not, ◌||◌, leb, ◌==◌, if◌then◌else◌, Option,
  none, some,
}
use lighttpd_fuzz.Base.Bytes.{codes, bytes_eq}
use lighttpd_fuzz.Base.Text.{Text, is_space, elem, get, put}
use lighttpd_fuzz.Backend.Modes.{before_first}
use lighttpd_fuzz.Check.Config.{add_piece}

-- The three groups of the row of a section: its name, its size in hexadecimal and its flags.
pub record SectionRow : Type 0 where
  pub name : Text
  pub size : Text
  pub flags : Text

-- What `re.match` and `re.fullmatch` find in a line, or in its first field.
pub record Patterns : Type 0 where
  pub is_relocatable : Text → Bool
  pub section_row : Text → Option SectionRow
  pub is_index : Text → Bool

-- A set is the list of its elements, each once.
abbrev pub set_add : Text → List Text → List Text
set_add name names = if elem name names then names else names ++ name ∷ []

-- The fields of a line, over what the field holds so far.
unfoldable pub split_spaces : Text → Text → List Text
split_spaces field [] = add_piece field []
split_spaces field (c ∷ cs) =
    let ended = add_piece field (split_spaces [] cs) in
    let longer = split_spaces (field ++ c ∷ []) cs in if is_space c then ended else longer

-- A digit of base 16, of either case.
unfoldable pub hex_digit : ℕ → ℕ
hex_digit c = if leb c b'9' then c - b'0' else if leb c b'F' then c - 55 else c - 87

-- `int(size, 16)`
unfoldable pub from_hex : ℕ → Text → ℕ
from_hex acc [] = acc
from_hex acc (c ∷ cs) = from_hex (acc * 16 + hex_digit c) cs

-- The variables of the loop over the lines.
pub record Reading : Type 0 where
  pub references : List Text
  pub other_symbols : List (Text × Text)
  pub sections : List Text
  pub headers : ℕ
  pub symtabs : ℕ
  pub has_runtime_sections : Bool
  pub relocatable : Bool

abbrev pub no_lines : Reading
no_lines = record {
  references = [];
  other_symbols = [];
  sections = [];
  headers = 0;
  symtabs = 0;
  has_runtime_sections = false;
  relocatable = false;
}

abbrev pub has_char : ℕ → Text → Bool
has_char c [] = false
has_char c (d ∷ ds) = c == d || has_char c ds

unfoldable pub read_section : Option SectionRow → Reading → Reading
read_section none r = r
read_section (some row) r =
    let counted = record r {
      symtabs = if bytes_eq row.name (codes ".symtab") then r.symtabs + 1 else r.symtabs;
    } in
    if from_hex 0 row.size == 0 then counted else record counted {
      sections = set_add row.name r.sections;
      has_runtime_sections =
          r.has_runtime_sections || (has_char b'A' row.flags || has_char b'X' row.flags);
    }

-- `setdefault`
abbrev pub set_default : Text → Text → List (Text × Text) → List (Text × Text)
set_default name reason symbols = elim (get name symbols) [
  | some old ↦ symbols
  | none ↦ put name reason symbols
]

-- A row of the symbol table, from the fields for type, binding, section and name.
unfoldable pub read_symbol : Text → Text → Text → Text → Reading → Reading
read_symbol type binding section field r =
    let name = before_first b'@' field in
    if bytes_eq type (codes "FILE") || bytes_eq type (codes "SECTION")
    then r
    else if not (bytes_eq section (codes "UND"))
    then record r { other_symbols = put name (codes "definition") r.other_symbols }
    else if bytes_eq binding (codes "WEAK")
    then record r { other_symbols = set_default name (codes "weak reference") r.other_symbols }
    else record r { references = set_add name r.references }

module _ (patterns : Patterns) where
  unfoldable pub read_fields : List Text → Reading → Reading
  read_fields (index ∷ f₁ ∷ f₂ ∷ type ∷ binding ∷ f₅ ∷ section ∷ name ∷ rest) r =
      if patterns.is_index index then read_symbol type binding section name r else r
  read_fields _ r = r

  unfoldable pub read_line : Text → Reading → Reading
  read_line line r =
      let headed = record r {
        headers = if bytes_eq line (codes "ELF Header:") then r.headers + 1 else r.headers;
        relocatable = r.relocatable || patterns.is_relocatable line;
      } in
      read_fields (split_spaces [] line) (read_section (patterns.section_row line) headed)

  unfoldable pub read_lines : List Text → Reading → Reading
  read_lines [] r = r
  read_lines (line ∷ lines) r = read_lines lines (read_line line r)
