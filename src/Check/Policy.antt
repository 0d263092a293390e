-- ===== src/Check/Policy.antt =====
-- `effective_modes` and `policy_failed` of check_build.py. `matches name pattern` is
-- `fnmatch.fnmatchcase(name, pattern)`.
pub mod Latest
use lighttpd_fuzz.Base.{
  is_empty, List, [], ◌∷◌, ◌++◌, Bool, true, false, not, ◌&&◌, ◌||◌, if◌then◌else◌,
}
use lighttpd_fuzz.Base.Bytes.{codes}
use lighttpd_fuzz.Base.Text.{Text, put}
use lighttpd_fuzz.Check.Checks.{
  Mode, present, absent, ignore, State, found, symbol_only, not_seen, unknown,
}

-- `effective.update(changes)`
unfoldable pub update : List (Text × Mode) → List (Text × Mode) → List (Text × Mode)
update modes [] = modes
update modes ((check, mode) ∷ changes) = update (put check mode modes) changes

-- `f"{name}({member})"`
abbrev pub member_name : Text → Text → Text
member_name name member = name ++ (b'(' ∷ (member ++ b')' ∷ []))

module _ (matches : Text → Text → Bool) where
  unfoldable pub rule_applies : Text → Text → Text → Bool
  rule_applies name member pattern =
      matches name pattern || (not (is_empty member) && matches (member_name name member) pattern)

  unfoldable pub effective_modes :
      Text → Text → List (Text × Mode) → List (Text × List (Text × Mode)) → List (Text × Mode)
  effective_modes name member modes [] = modes
  effective_modes name member modes ((pattern, changes) ∷ overrides) =
      effective_modes name member
        (if rule_applies name member pattern then update modes changes else modes) overrides

-- Whether the state of a check breaks the mode that is expected.
unfoldable pub policy_failed : Mode → State → Bool
policy_failed present found = false
policy_failed present _ = true
policy_failed absent not_seen = false
policy_failed absent _ = true
policy_failed ignore _ = false
