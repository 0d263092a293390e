-- ===== src/Check/Detect.antt =====
-- `detect` of check_build.py. `fullmatch pattern name` says whether `re.fullmatch` finds a match.
pub mod Sound
use lighttpd_fuzz.Base.{
  ℕ, List, [], ◌∷◌, ◌++◌, Bool, true, false, ◌&&◌, ◌||◌, ltb, ◌==◌, if◌then◌else◌, map, Option,
  none, some,
}
use lighttpd_fuzz.Base.Bytes.{codes, bytes_eq}
use lighttpd_fuzz.Base.Text.{Text, get}
use lighttpd_fuzz.Check.Checks.{Check, State, found, symbol_only, not_seen, unknown}
use lighttpd_fuzz.Check.Config.{get_text}

-- What `parse_elf` has read: the symbols that are only referred to, the others with the reason, the
-- sections that are not empty, and whether there is a symbol table.
pub record Evidence : Type 0 where
  pub references : List Text
  pub other_symbols : List (Text × Text)
  pub sections : List Text
  pub symbols_present : Bool

-- `<=` on texts.
unfoldable pub text_le : Text → Text → Bool
text_le [] ys = true
text_le (x ∷ xs) [] = false
text_le (x ∷ xs) (y ∷ ys) = ltb x y || (x == y && text_le xs ys)

unfoldable pub insert_sorted : Text → List Text → List Text
insert_sorted x [] = x ∷ []
insert_sorted x (y ∷ ys) = if text_le x y then x ∷ y ∷ ys else y ∷ insert_sorted x ys

unfoldable pub sorted : List Text → List Text
unfolding insert_sorted text_le
sorted [] = []
sorted (x ∷ xs) = insert_sorted x (sorted xs)

-- The first of the names in order, described.
abbrev pub describe : List Text → Text → Option (State × Text)
describe [] description = none
describe (name ∷ names) description = some (found, name ++ description)

abbrev pub or_next {ℓ} : {A : Type ℓ} → Option A → A → A
or_next none next = next
or_next (some a) next = a

module _ (fullmatch : Text → Text → Bool) where
  -- `pattern and re.fullmatch(pattern, name)`
  unfoldable pub is_match : Option Text → Text → Bool
  is_match none name = false
  is_match (some pattern) name = fullmatch pattern name

  unfoldable pub select : Option Text → List Text → List Text
  select pattern [] = []
  select pattern (name ∷ names) =
      let rest = select pattern names in if is_match pattern name then name ∷ rest else rest

  unfoldable pub matches : Option Text → List Text → List Text
  matches pattern names = sorted (select pattern names)

  -- What a definition or a weak reference says, or nothing that matches.
  abbrev pub other_state : Check → Evidence → List Text → State × Text
  other_state check evidence (name ∷ names) =
      let reason = get_text (get name evidence.other_symbols) in
      (
        if bytes_eq check.name (codes "libfuzzer") && bytes_eq reason (codes "definition")
            then found
            else symbol_only,
        name ++ (codes " (" ++ (reason ++ codes ")")),
      )
  other_state check evidence [] =
      if evidence.symbols_present
      then (not_seen, codes "no matching evidence")
      else (unknown, codes "symbol table unavailable")

  unfoldable pub detect : Check → Evidence → State × Text
  detect check evidence =
      or_next (describe (matches check.section_pattern evidence.sections) (codes " (section)")) (
        or_next (describe (matches check.symbol_pattern evidence.references) (codes " (reference)"))
          (other_state check evidence
            (matches check.symbol_pattern (map (λ entry. entry.0) evidence.other_symbols))))
