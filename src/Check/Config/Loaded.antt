-- ===== src/Check/Config/Loaded.antt =====
-- What a configuration that `load_config` accepts holds.
use lighttpd_fuzz.Base.{
  is_empty, String, List, [], ◌∷◌, ◌++◌, ◌≡◌, ◌≢◌, refl, sym, Bool, true, false, not, ◌&&◌,
  Bool-cases, inl, inr, if◌then◌else◌, All, All-append, ok, value_error, raise_if, >>=-eq-ok, drop,
  map,
}
use lighttpd_fuzz.Base.Bytes.{codes, bytes_eq, bytes_eq→eq}
use lighttpd_fuzz.Base.Text.{Text, elem, put, starts_with, strip, is_space}
use lighttpd_fuzz.Base.Text.Dict.{put-All}
use lighttpd_fuzz.Check.Checks.{Mode, check_names}
use lighttpd_fuzz.Check.Config.{
  ConfigFile, Policy, Config, allowed_keys, check_keys, check_sections, section_modes, load_modes,
  load_config, is_kept, read_mode, checks_prefix, lines, get_option,
}
use mathlib.Core.Path.{subst}

abbrev pub IsCheck : Text → Type 0
IsCheck check = elem check check_names ≡ true

abbrev pub IsChange : Text × Mode → Type 0
IsChange (check, mode) = IsCheck check

ok_injective : {A : Type 0} {a b : A} → ok a ≡ ok b → a ≡ b
ok_injective e = cc

-- A section whose options all have names that it may have.
IsAllowed : Text × List (Text × Text) → Type 0
IsAllowed (section, options) =
    (keys : List Text) × (allowed_keys section ≡ ok keys)
    × All (λ option. elem option.0 keys ≡ true) options

check_keys-All :
    (keys : List Text) (options : List (Text × Text)) {u : Unit {0}}
    → check_keys keys options ≡ ok u
    → All (λ option. elem option.0 keys ≡ true) options
unfolding check_keys
check_keys-All keys [] e = tt
check_keys-All keys ((key, value) ∷ options) e = elim (Bool-cases (elem key keys)) [
  | inl known ↦ (known, check_keys-All keys options (rw known at e))
  | inr other ↦ cc (rw other at e)
]

check_sections-All :
    (sections : List (Text × List (Text × Text))) {u : Unit {0}}
    → check_sections sections ≡ ok u
    → All IsAllowed sections
unfolding check_sections IsAllowed
check_sections-All [] e = tt
check_sections-All ((section, options) ∷ sections) e =
    let (keys, allowed, e₁) = >>=-eq-ok (allowed_keys section) _ e in
    let (u, checked, e₂) = >>=-eq-ok (check_keys keys options) _ e₁ in
    ((keys, allowed, check_keys-All keys options checked), check_sections-All sections e₂)

section_modes-All :
    (plain : Bool) (options : List (Text × Text)) (result : List (Text × Mode))
    {out : List (Text × Mode)}
    → section_modes plain options result ≡ ok out
    → All (λ option. IsCheck option.0) options
    → All IsChange result
    → All IsChange out
unfolding section_modes
section_modes-All plain [] result e h k = subst (All IsChange) (ok_injective e) k
section_modes-All plain ((check, value) ∷ options) result e (h, hs) k =
    let (mode, read, e₁) = >>=-eq-ok (read_mode value) _ e in
    let kept : All IsChange (put check mode result) =
      put-All (λ c m. IsCheck c) check mode result h k in
    section_modes-All plain options (if is_kept plain mode then put check mode result else result)
      e₁ hs (elim (Bool-cases (is_kept plain mode)) [ inl e ↦ rw e kept | inr e ↦ rw e k ])

checks_keys :
    (section : Text) (keys : List Text)
    → bytes_eq section (codes "checks") ≡ true
    → allowed_keys section ≡ ok keys
    → keys ≡ check_names
unfolding allowed_keys starts_with
checks_keys section keys e h =
    let known : allowed_keys (codes "checks") ≡ ok keys =
      subst (λ t. allowed_keys t ≡ ok keys) (bytes_eq→eq section (codes "checks") e) h in
    sym (ok_injective known)

prefix_keys :
    (section : Text) (keys : List Text)
    → starts_with section checks_prefix ≡ true
    → allowed_keys section ≡ ok keys
    → keys ≡ check_names
unfolding allowed_keys
prefix_keys section keys e h = elim (Bool-cases (bytes_eq (strip is_space (drop 7 section)) [])) [
  | inl empty ↦ cc (rw (e, empty) at h)
  | inr some_pattern ↦ sym (ok_injective (rw (e, some_pattern) at h))
]

prefix_pattern :
    (section : Text) (keys : List Text)
    → starts_with section checks_prefix ≡ true
    → allowed_keys section ≡ ok keys
    → strip is_space (drop 7 section) ≢ []
unfolding allowed_keys
prefix_pattern section keys e h = λ q. cc (rw (e, q) at h)

-- The rules have the names of checks alone, and every pattern has a character.
pub record IsPolicy (policy : Policy) : Type 0 where
  pub modes_name_checks : All IsChange policy.modes
  pub overrides_name_checks : All (λ rule. All IsChange rule.1) policy.overrides
  pub patterns : All (λ rule. rule.0 ≢ []) policy.overrides

load_modes-IsPolicy :
    (sections : List (Text × List (Text × Text))) (policy : Policy) {out : Policy}
    → load_modes sections policy ≡ ok out
    → All IsAllowed sections
    → IsPolicy policy
    → IsPolicy out
unfolding load_modes IsAllowed
load_modes-IsPolicy [] policy e h k = subst IsPolicy (ok_injective e) k
load_modes-IsPolicy ((section, options) ∷ sections) policy e ((keys, allowed, named), hs) k =
    elim (Bool-cases (bytes_eq section (codes "checks"))) [
      | inl plain ↦
          let (changes, made, e') = >>=-eq-ok (section_modes true options []) _ (rw plain at e) in
          let h =
            subst (λ t. All (λ o. elem o.0 t ≡ true) options)
              (checks_keys section keys plain allowed) named in
          load_modes-IsPolicy sections (record policy { modes = changes }) e' hs
            (record {
              modes_name_checks = section_modes-All true options [] made h tt;
              overrides_name_checks = k.overrides_name_checks;
              patterns = k.patterns;
            })
      | inr other ↦ elim (Bool-cases (starts_with section checks_prefix)) [
        | inl prefixed ↦
            let (changes, made, e') =
              >>=-eq-ok (section_modes false options []) _ (rw (other, prefixed) at e) in
            let h =
              subst (λ t. All (λ o. elem o.0 t ≡ true) options)
                (prefix_keys section keys prefixed allowed) named in
            let pattern : Text = strip is_space (drop 7 section) in
            load_modes-IsPolicy sections
              (record policy { overrides = policy.overrides ++ (pattern, changes) ∷ [] }) e' hs
              (record {
                modes_name_checks = k.modes_name_checks;
                overrides_name_checks =
                    All-append _ policy.overrides _ k.overrides_name_checks
                      (section_modes-All false options [] made h tt, tt);
                patterns =
                    All-append _ policy.overrides _ k.patterns
                      (prefix_pattern section keys prefixed allowed, tt);
              })
        | inr neither ↦ load_modes-IsPolicy sections policy (rw (other, neither) at e) hs k
      ]
    ]

-- What `load_config` promises of a configuration that it returns.
pub record IsLoaded (config : Config) : Type 0 where
  pub policy_lem : IsPolicy config.policy
  pub some_roots : (is_empty config.objects && is_empty config.binaries) ≡ false

map-is_empty : {A B : Type 0} (f : A → B) (xs : List A) → is_empty (map f xs) ≡ is_empty xs
map-is_empty f [] = refl
map-is_empty f (x ∷ xs) = refl

refused :
    (b : Bool) (text : String) {u : Unit {0}} → raise_if b (value_error text) ≡ ok u → b ≡ false
refused true text e = cc
refused false text e = refl

-- A configuration that `load_config` returns names an object folder or a binary at least; its rules name
-- checks that exist and no others, and no pattern of a rule is empty.
pub load_config-IsLoaded :
    (under : Text → Text) (file : ConfigFile) (config : Config)
    → load_config under file ≡ ok config
    → IsLoaded config
unfolding load_config
load_config-IsLoaded under file config e =
    let objects : List Text =
      lines (get_option (codes "scan") (codes "object_dirs") [] file.sections) in
    let binaries : List Text =
      lines (get_option (codes "scan") (codes "binary_paths") [] file.sections) in
    let report : Text =
      strip is_space
        (get_option (codes "output") (codes "report") (codes "build-report.md") file.sections) in
    let (u₁, _, e₁) = >>=-eq-ok (raise_if (not (is_empty file.defaults)) _) _ e in
    let (u₂, checked, e₂) = >>=-eq-ok (check_sections file.sections) _ e₁ in
    let (u₃, roots, e₃) = >>=-eq-ok (raise_if (is_empty objects && is_empty binaries) _) _ e₂ in
    let (policy, loaded, e₄) =
      >>=-eq-ok (load_modes file.sections (record { modes = []; overrides = [] })) _ e₃ in
    let (u₅, _, e₅) = >>=-eq-ok (raise_if (is_empty report) _) _ e₄ in
    subst IsLoaded (ok_injective e₅) (record {
      policy_lem =
          load_modes-IsPolicy file.sections (record { modes = []; overrides = [] }) loaded
            (check_sections-All file.sections checked)
            (record { modes_name_checks = tt; overrides_name_checks = tt; patterns = tt });
      some_roots = rw (map-is_empty under objects, map-is_empty under binaries) (refused _ _ roots);
    })
