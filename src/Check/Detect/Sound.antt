-- ===== src/Check/Detect/Sound.antt =====
-- What it takes to meet a policy.
use lighttpd_fuzz.Base.{
  List, [], ◌∷◌, ◌≡◌, ◌≢◌, refl, ◌↔◌, inl, inr, Bool, true, false, ◌&&◌, Bool-cases, map, Option,
  All,
}
use lighttpd_fuzz.Base.Bytes.{codes, bytes_eq}
use lighttpd_fuzz.Base.Text.{Text, get}
use lighttpd_fuzz.Check.Checks.{Check, State, present, absent}
use lighttpd_fuzz.Check.Policy.{policy_failed}
use lighttpd_fuzz.Check.Config.{get_text}
use lighttpd_fuzz.Check.Detect.{
  Evidence, text_le, insert_sorted, sorted, is_match, select, matches, describe, or_next,
  other_state, detect,
}

insert_sorted-ne-nil : (x : Text) (xs : List Text) → insert_sorted x xs ≢ []
unfolding insert_sorted
insert_sorted-ne-nil x [] = λ e. cc
insert_sorted-ne-nil x (y ∷ ys) =
    λ e. elim (Bool-cases (text_le x y)) [ inl le ↦ cc (rw le at e) | inr gt ↦ cc (rw gt at e) ]

sorted-eq-nil : (xs : List Text) → sorted xs ≡ [] → xs ≡ []
unfolding sorted
sorted-eq-nil [] e = refl
sorted-eq-nil (x ∷ xs) e = absurd (insert_sorted-ne-nil x (sorted xs) e)

module _ (fullmatch : Text → Text → Bool) where
  -- No name matches.
  abbrev pub NoMatch : Option Text → List Text → Type 0
  NoMatch pattern = All (λ name. is_match fullmatch pattern name ≡ false)

  select-eq-nil :
      (pattern : Option Text) (names : List Text)
      → (select fullmatch pattern names ≡ []) ↔ NoMatch pattern names
  unfolding select
  select-eq-nil pattern [] = (λ e. tt, λ h. refl)
  select-eq-nil pattern (name ∷ names) =
      let (to, from) = select-eq-nil pattern names in
      elim (Bool-cases (is_match fullmatch pattern name)) [
        | inl hit ↦ rw hit (λ e. cc, λ h. cc)
        | inr miss ↦ rw miss (λ e. (refl, to e), λ h. from h.1)
      ]

  matches-eq-nil :
      (pattern : Option Text) (names : List Text)
      → (matches fullmatch pattern names ≡ []) ↔ NoMatch pattern names
  unfolding matches sorted
  matches-eq-nil pattern names =
      let (to, from) = select-eq-nil pattern names in
      (λ e. to (sorted-eq-nil (select fullmatch pattern names) e), λ h. rw (from h) refl)

  -- No evidence of a check, in a file whose symbols are known.
  pub record IsClean (check : Check) (evidence : Evidence) : Type 0 where
    pub clean_sections : NoMatch check.section_pattern evidence.sections
    pub clean_references : NoMatch check.symbol_pattern evidence.references
    pub clean_others : NoMatch check.symbol_pattern (map (λ entry. entry.0) evidence.other_symbols)
    pub symbols_known : evidence.symbols_present ≡ true

  module _ (check : Check) (evidence : Evidence) where
    -- The state, when the three lists of names that match are known.
    abbrev state_of : List Text → List Text → List Text → State × Text
    state_of in_sections in_references in_others =
        or_next (describe in_sections (codes " (section)")) (
          or_next (describe in_references (codes " (reference)"))
            (other_state fullmatch check evidence in_others))

    absent_lists :
        (a b c : List Text)
        → policy_failed absent (state_of a b c).0 ≡ false
        → (a ≡ []) × (b ≡ []) × (c ≡ []) × (evidence.symbols_present ≡ true)
    unfolding policy_failed
    absent_lists (x ∷ a) b c e = cc
    absent_lists [] (x ∷ b) c e = cc
    absent_lists [] [] (x ∷ c) e =
        let fuzzer : Bool =
          bytes_eq check.name (codes "libfuzzer")
          && bytes_eq (get_text (get x evidence.other_symbols)) (codes "definition") in
        elim (Bool-cases fuzzer) [ inl t ↦ cc (rw t at e) | inr f ↦ cc (rw f at e) ]
    absent_lists [] [] [] e = elim (Bool-cases evidence.symbols_present) [
      | inl t ↦ (refl, refl, refl, t)
      | inr f ↦ cc (rw f at e)
    ]

    present_lists :
        (a b c : List Text)
        → a ≡ []
        → b ≡ []
        → policy_failed present (state_of a b c).0 ≡ false
        → bytes_eq check.name (codes "libfuzzer") ≡ true
    unfolding policy_failed
    present_lists (x ∷ a) b c p q e = cc
    present_lists [] (x ∷ b) c p q e = cc
    present_lists [] [] (x ∷ c) p q e =
        elim (Bool-cases (bytes_eq check.name (codes "libfuzzer"))) [
          | inl t ↦ t
          | inr f ↦ cc (rw f at e)
        ]
    present_lists [] [] [] p q e = elim (Bool-cases evidence.symbols_present) [
      | inl t ↦ cc (rw t at e)
      | inr f ↦ cc (rw f at e)
    ]

    -- The expectation "absent" is met exactly when the file has a symbol table, and no section, no
    -- reference and no other symbol matches the patterns of the check.
    pub policy_failed-absent_iff :
        (policy_failed absent (detect fullmatch check evidence).0 ≡ false) ↔ IsClean check evidence
    unfolding detect
    policy_failed-absent_iff =
        let sections = matches-eq-nil check.section_pattern evidence.sections in
        let references = matches-eq-nil check.symbol_pattern evidence.references in
        let others =
          matches-eq-nil check.symbol_pattern (map (λ entry. entry.0) evidence.other_symbols) in
        (
          λ e.
              let (a, b, c, t) = absent_lists _ _ _ e in
              record {
                clean_sections = sections.0 a;
                clean_references = references.0 b;
                clean_others = others.0 c;
                symbols_known = t;
              },
          λ h.
              rw
                (
                  sections.1 h.clean_sections,
                  references.1 h.clean_references,
                  others.1 h.clean_others,
                  h.symbols_known,
                )
                (unfold policy_failed in refl),
        )

    -- The expectation "present" is met by a section or a strong reference that matches, and by no other
    -- symbol unless the check is that of the driver of libFuzzer.
    pub policy_failed-present_only :
        NoMatch check.section_pattern evidence.sections
        → NoMatch check.symbol_pattern evidence.references
        → policy_failed present (detect fullmatch check evidence).0 ≡ false
        → bytes_eq check.name (codes "libfuzzer") ≡ true
    unfolding detect
    policy_failed-present_only h k e =
        present_lists _ _ _ ((matches-eq-nil check.section_pattern evidence.sections).1 h)
          ((matches-eq-nil check.symbol_pattern evidence.references).1 k) e
