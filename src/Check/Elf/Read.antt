-- ===== src/Check/Elf/Read.antt =====
-- Which names `parse_elf` takes for strong references.
use lighttpd_fuzz.Base.{
  List, [], ◌∷◌, ◌++◌, ◌≡◌, refl, sym, ap, ◌∙◌, inl, inr, Bool, true, false, not, ◌&&◌, ◌||◌,
  Bool-cases, ◌==◌, Option, none, some, arith,
}
use lighttpd_fuzz.Base.Bytes.{codes, bytes_eq, bytes_eq→eq}
use lighttpd_fuzz.Base.Text.{Text, elem}
use lighttpd_fuzz.Backend.Modes.{before_first}
use lighttpd_fuzz.Check.Config.{split_lines}
use lighttpd_fuzz.Check.Detect.{Evidence}
use lighttpd_fuzz.Check.Elf.{Item, read_item, parse_elf, any_starts_with}
use lighttpd_fuzz.Check.Symbols.{
  Patterns, SectionRow, Reading, no_lines, set_add, split_spaces, read_section, read_symbol,
  read_fields, read_line, read_lines, from_hex,
}
use mathlib.Core.Path.{subst}

elem-append : (n : Text) (xs ys : List Text) → elem n (xs ++ ys) ≡ (elem n xs || elem n ys)
unfolding elem
elem-append n [] ys = refl
elem-append n (x ∷ xs) ys = ground (arith, elem-append n xs ys)

elem-set_add :
    (n m : Text) (names : List Text) → elem n (set_add m names) ≡ (bytes_eq n m || elem n names)
elem-set_add n m names = elim (Bool-cases (elem m names)) [
  | inl old ↦ rw old (elim (Bool-cases (bytes_eq n m)) [
    | inl same ↦ rw same (subst (λ t. elem t names ≡ true) (sym (bytes_eq→eq n m same)) old)
    | inr other ↦ rw other
  ])
  | inr fresh ↦ rw fresh (elem-append n names (m ∷ []) ∙ unfold elem in ground arith)
]

-- A row of the symbol table that refers to a name: it is undefined and not weak, and no row of a file or a
-- section; the version behind "@" is no part of the name.
unfoldable pub row_refers : Patterns → Text → List Text → Bool
row_refers patterns n (index ∷ f₁ ∷ f₂ ∷ type ∷ binding ∷ f₅ ∷ section ∷ name ∷ rest) =
    patterns.is_index index
    && (not (bytes_eq type (codes "FILE") || bytes_eq type (codes "SECTION"))
        && (bytes_eq section (codes "UND")
            && (not (bytes_eq binding (codes "WEAK")) && bytes_eq n (before_first b'@' name))))
row_refers patterns n _ = false

unfoldable pub any_refers : Patterns → Text → List Text → Bool
any_refers patterns n [] = false
any_refers patterns n (line ∷ lines) =
    row_refers patterns n (split_spaces [] line) || any_refers patterns n lines

read_symbol-references :
    (n type binding section field : Text) (r : Reading)
    → elem n (read_symbol type binding section field r).references ≡ (
        (not (bytes_eq type (codes "FILE") || bytes_eq type (codes "SECTION"))
          && (bytes_eq section (codes "UND")
              && (not (bytes_eq binding (codes "WEAK")) && bytes_eq n (before_first b'@' field))))
        || elem n r.references)
unfolding read_symbol
read_symbol-references n type binding section field r =
    elim (Bool-cases (bytes_eq type (codes "FILE") || bytes_eq type (codes "SECTION"))) [
      | inl skipped ↦ rw skipped
      | inr kept ↦ elim (Bool-cases (bytes_eq section (codes "UND"))) [
        | inr defined ↦ rw (kept, defined)
        | inl undefined ↦ elim (Bool-cases (bytes_eq binding (codes "WEAK"))) [
          | inl weak ↦ rw (kept, undefined, weak)
          | inr strong ↦
              rw (kept, undefined, strong) (elem-set_add n (before_first b'@' field) r.references)
        ]
      ]
    ]

or_swap : (a b c : Bool) → (a || (b || c)) ≡ ((b || a) || c)
or_swap a b c = ground arith

module _ (patterns : Patterns) where
  read_fields-references :
      (n : Text) (fields : List Text) (r : Reading)
      → elem n (read_fields patterns fields r).references
        ≡ (row_refers patterns n fields || elem n r.references)
  unfolding read_fields row_refers
  read_fields-references n (index ∷ f₁ ∷ f₂ ∷ type ∷ binding ∷ f₅ ∷ section ∷ name ∷ rest) r =
      elim (Bool-cases (patterns.is_index index)) [
        | inl row ↦ rw row (read_symbol-references n type binding section name r)
        | inr other ↦ rw other
      ]
  read_fields-references n _ r = refl

  read_section-references :
      (row : Option SectionRow) (r : Reading) → (read_section row r).references ≡ r.references
  unfolding read_section
  read_section-references none r = refl
  read_section-references (some row) r = elim (Bool-cases (from_hex 0 row.size == 0)) [
    | inl empty ↦ rw empty
    | inr full ↦ rw full
  ]

  read_lines-references :
      (n : Text) (lines : List Text) (r : Reading)
      → elem n (read_lines patterns lines r).references
        ≡ (any_refers patterns n lines || elem n r.references)
  unfolding read_lines any_refers read_line
  read_lines-references n [] r = refl
  read_lines-references n (line ∷ lines) r =
      read_lines-references n lines (read_line patterns line r)
      ∙ ap (λ t. any_refers patterns n lines || t)
          (read_fields-references n (split_spaces [] line) _
            ∙ ap (λ t. row_refers patterns n (split_spaces [] line) || elem n t)
                (read_section-references (patterns.section_row line) _))
      ∙ or_swap (any_refers patterns n lines) (row_refers patterns n (split_spaces [] line))
          (elem n r.references)

abbrev reading : Patterns → Text → Reading
reading patterns output = read_lines patterns (split_lines false [] output) no_lines

parse_elf-read_item :
    (patterns : Patterns) (output member : Text) {item : Item}
    → parse_elf patterns output member ≡ inr item
    → read_item member (reading patterns output) ≡ item
unfolding parse_elf
parse_elf-read_item patterns output member e =
    elim (Bool-cases (not ((reading patterns output).headers == 1))) [
      | inl no_file ↦ cc (rw no_file at e)
      | inr one ↦
          elim (Bool-cases
            (any_starts_with (codes ".gnu.lto_") (reading patterns output).sections)) [
              | inl lto ↦ cc (rw (one, lto) at e)
              | inr plain ↦ cc (rw (one, plain) at e)
            ]
    ]

some_references : {a b : Evidence} → some a ≡ some b → a.references ≡ b.references
some_references e = cc

read_item-references :
    (member : Text) (r : Reading) {evidence : Evidence}
    → (read_item member r).evidence ≡ some evidence
    → r.references ≡ evidence.references
unfolding read_item
read_item-references member r e = elim (Bool-cases metadata) [
  | inl skipped ↦ cc (rw skipped at e)
  | inr read ↦ some_references (rw read at e)
]
  where
    metadata : Bool
    metadata =
        r.relocatable
        && (not r.has_runtime_sections
            && (elem (codes ".rmeta") r.sections || elem (codes ".rmeta-link") r.sections))

-- A name is a strong reference in the evidence that `parse_elf` returns exactly when a row of the symbol
-- table in the output refers to it.
pub parse_elf-references :
    (patterns : Patterns) (output member n : Text) (item : Item) (evidence : Evidence)
    → parse_elf patterns output member ≡ inr item
    → item.evidence ≡ some evidence
    → elem n evidence.references ≡ any_refers patterns n (split_lines false [] output)
unfolding elem
parse_elf-references patterns output member n item evidence e q =
    let made : (read_item member (reading patterns output)).evidence ≡ some evidence =
      subst (λ t. t.evidence ≡ some evidence) (sym (parse_elf-read_item patterns output member e))
        q in
    ap (elem n) (sym (read_item-references member (reading patterns output) made))
    ∙ read_lines-references patterns n (split_lines false [] output) no_lines
    ∙ ground arith
