-- ===== src/Check/Elf.antt =====
-- `parse_elf` and `inspect` of check_build.py, on what readelf prints; the run of readelf is a parameter.
pub mod Read
use lighttpd_fuzz.Base.{
  is_empty, ℕ, zero, suc, ◌+◌, ◌-◌, ◌*◌, List, [], ◌∷◌, ◌++◌, ◌⊎◌, inl, inr, Bool, true, false, not,
  ◌&&◌, ◌||◌, ltb, leb, ◌==◌, if◌then◌else◌, length, take, drop, get_elem?, Option, none, some,
  Result, ok, err, Error, value_error, raise_if, ◌>>=◌, ◌>>◌,
}
use lighttpd_fuzz.Base.Bytes.{codes, bytes_eq}
use lighttpd_fuzz.Base.Text.{Text, is_space, strip, lower, elem, get, put, starts_with}
use lighttpd_fuzz.Backend.Modes.{before_first}
use lighttpd_fuzz.Check.Config.{split_lines, add_piece}
use lighttpd_fuzz.Check.Detect.{Evidence}
use lighttpd_fuzz.Check.Symbols.{
  SectionRow, Patterns, set_add, split_spaces, hex_digit, from_hex, Reading, no_lines, has_char,
  read_section, set_default, read_symbol, read_fields, read_line, read_lines,
}

-- `Unit`: a file or a member of an archive, with its evidence, an error, or the reason to skip it.
pub record Item : Type 0 where
  pub member : Text
  pub evidence : Option Evidence
  pub error : Text
  pub skipped : Text

abbrev pub error_item : Text → Text → Item
error_item member error = record { member = member; evidence = none; error = error; skipped = [] }

abbrev pub any_starts_with : Text → List Text → Bool
any_starts_with start [] = false
any_starts_with start (name ∷ names) = starts_with name start || any_starts_with start names

-- The skipping of metadata, and the evidence of all else.
unfoldable pub read_item : Text → Reading → Item
read_item member r =
    if r.relocatable
      && (not r.has_runtime_sections
          && (elem (codes ".rmeta") r.sections || elem (codes ".rmeta-link") r.sections))
    then record {
      member = member;
      evidence = none;
      error = [];
      skipped = codes "Rust metadata (no runtime code or data)";
    }
    else record {
      member = member;
      evidence = some (record {
        references = r.references;
        other_symbols = r.other_symbols;
        sections = r.sections;
        symbols_present = not (r.symtabs == 0);
      });
      error = [];
      skipped = [];
    }

-- The text of a `ValueError`, or the item.
unfoldable pub parse_elf : Patterns → Text → Text → Text ⊎ Item
parse_elf patterns output member =
    let r = read_lines patterns (split_lines false [] output) no_lines in
    if not (r.headers == 1)
    then inl (codes "expected one ELF file (non-ELF members and LLVM bitcode are unsupported)")
    else if any_starts_with (codes ".gnu.lto_") r.sections
    then inl (codes "GCC LTO objects are unsupported; inspect the final linked binary")
    else inr (read_item member r)

-- A finished run of readelf, with the exit status as `str` writes it.
pub record ReadElf : Type 0 where
  pub status : Text
  pub stdout : Text
  pub stderr : Text

-- `" ".join(fields)`
unfoldable pub join_spaces : List Text → Text
join_spaces [] = []
join_spaces (field ∷ []) = field
join_spaces (field ∷ next ∷ rest) = field ++ (b' ' ∷ join_spaces (next ∷ rest))

abbrev pub or_text : Text → Text → Text
or_text [] other = other
or_text (c ∷ cs) other = c ∷ cs

unfoldable pub diagnostic : ReadElf → Text
diagnostic result =
    if not (bytes_eq result.status (codes "0")) || not (is_empty (strip is_space result.stderr))
    then codes "readelf: "
      ++ take 500 (
          or_text (join_spaces (split_spaces [] result.stderr))
            (codes "exit status " ++ result.status))
    else []

abbrev pub as_item : Text → Text ⊎ Item → Item
as_item member (inl error) = error_item member error
as_item member (inr item) = item

-- A heading that `re.finditer` finds: the member it names, where it starts and where it ends.
pub record Heading : Type 0 where
  pub member : Text
  pub start : ℕ
  pub end : ℕ

-- Where the chunk behind a heading ends.
abbrev pub next_start : List Heading → Text → ℕ
next_start [] stdout = length stdout
next_start (heading ∷ headings) stdout = heading.start

unfoldable pub member_items : Patterns → Text → List Heading → List Item
member_items patterns stdout [] = []
member_items patterns stdout (heading ∷ headings) =
    let chunk = drop heading.end (take (next_start headings stdout) stdout) in
    as_item heading.member (parse_elf patterns chunk heading.member)
    ∷ member_items patterns stdout headings

-- The errors of the archive itself.
abbrev pub archive_error : Text → List Item → List Item
archive_error (c ∷ cs) items =
    error_item [] (codes "archive inspection incomplete: " ++ (c ∷ cs)) ∷ []
archive_error [] [] = error_item [] (codes "no archive members found (empty archive)") ∷ []
archive_error [] (item ∷ items) = []

unfoldable pub inspect_file : Patterns → ReadElf → List Item
inspect_file patterns result =
    if not (is_empty (diagnostic result))
    then error_item [] (diagnostic result) ∷ []
    else as_item [] (parse_elf patterns result.stdout []) ∷ []

unfoldable pub inspect_archive : Patterns → (Text → List Heading) → ReadElf → List Item
inspect_archive patterns headings result =
    let items = member_items patterns result.stdout (headings result.stdout) in
    items ++ archive_error (diagnostic result) items
