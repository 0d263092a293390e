-- ===== src/Check/Policy/Latest.antt =====
-- The mode of a check is what the last rule that applies says of it.
use lighttpd_fuzz.Base.{
  List, [], ◌∷◌, ◌≡◌, refl, ap, ◌∙◌, Bool, true, false, if◌then◌else◌, Option, none, some,
}
use lighttpd_fuzz.Base.Bytes.{bytes_eq}
use lighttpd_fuzz.Base.Text.{Text, get, put}
use lighttpd_fuzz.Base.Text.Dict.{get-put}
use lighttpd_fuzz.Check.Checks.{Mode}
use lighttpd_fuzz.Check.Policy.{update, rule_applies, effective_modes}

-- What a later rule says, or else what was said before it.
abbrev pub or_earlier : Option Mode → Option Mode → Option Mode
or_earlier none earlier = earlier
or_earlier (some mode) earlier = some mode

or_earlier_assoc :
    (a b c : Option Mode) → or_earlier a (or_earlier b c) ≡ or_earlier (or_earlier a b) c
or_earlier_assoc none b c = refl
or_earlier_assoc (some m) b c = refl

-- What the changes of a rule say of a check.
unfoldable pub said : Text → List (Text × Mode) → Option Mode
said check [] = none
said check ((c, mode) ∷ changes) =
    or_earlier (said check changes) (if bytes_eq c check then some mode else none)

-- What the rules that apply to an item say of a check, the last one first.
unfoldable pub ruled :
    (Text → Text → Bool) → Text → Text → Text → List (Text × List (Text × Mode)) → Option Mode
ruled matches check name member [] = none
ruled matches check name member ((pattern, changes) ∷ overrides) =
    or_earlier (ruled matches check name member overrides)
      (if rule_applies matches name member pattern then said check changes else none)

or_earlier-if :
    (b : Bool) (mode : Mode) (earlier : Option Mode)
    → (if b then some mode else earlier) ≡ or_earlier (if b then some mode else none) earlier
or_earlier-if true mode earlier = refl
or_earlier-if false mode earlier = refl

get-update :
    (check : Text) (modes changes : List (Text × Mode))
    → get check (update modes changes) ≡ or_earlier (said check changes) (get check modes)
unfolding update said
get-update check modes [] = refl
get-update check modes ((c, mode) ∷ changes) =
    get-update check (put c mode modes) changes
    ∙ ap (or_earlier (said check changes))
        (get-put c check mode modes ∙ or_earlier-if (bytes_eq c check) mode (get check modes))
    ∙ or_earlier_assoc (said check changes) _ (get check modes)

get-if :
    (check : Text) (b : Bool) (modes changes : List (Text × Mode))
    → get check (if b then update modes changes else modes)
      ≡ or_earlier (if b then said check changes else none) (get check modes)
get-if check true modes changes = get-update check modes changes
get-if check false modes changes = refl

-- Of the rules whose pattern matches the file or the member, the last one that names a check decides its
-- mode; if there is none, the mode is the configured one.
pub get-effective_modes :
    (matches : Text → Text → Bool) (check name member : Text) (modes : List (Text × Mode))
    (overrides : List (Text × List (Text × Mode)))
    → get check (effective_modes matches name member modes overrides)
      ≡ or_earlier (ruled matches check name member overrides) (get check modes)
unfolding effective_modes ruled
get-effective_modes matches check name member modes [] = refl
get-effective_modes matches check name member modes ((pattern, changes) ∷ overrides) =
    let applies : Bool = rule_applies matches name member pattern in
    get-effective_modes matches check name member (if applies then update modes changes else modes)
      overrides
    ∙ ap (or_earlier (ruled matches check name member overrides))
        (get-if check applies modes changes)
    ∙ or_earlier_assoc (ruled matches check name member overrides) _ (get check modes)
