-- ===== src/Backend/Modes/Selected.antt =====
-- Which mode a request selects.
use lighttpd_fuzz.Base.{
  List, [], ◌∷◌, ◌≡◌, refl, true, Bool-cases, inl, inr, All, Option, none, some, sym,
}
use lighttpd_fuzz.Base.Bytes.{codes, bytes_eq, bytes_eq→eq}
use lighttpd_fuzz.Base.Text.{Text, elem, get, strip, is_space, lower, dash}
use lighttpd_fuzz.Backend.Modes.{
  mode_names, known_or_normal, or_else, before_first, mode_value, canonical_mode, path_mode,
  query_mode, uri_mode, select_mode, Url,
}
use mathlib.Core.Path.{subst}

abbrev pub IsMode : Text → Type 0
IsMode mode = elem mode mode_names ≡ true

-- What holds of all names holds of a text that is one of them.
pub elem-All : (P : Text → Type 0) (v : Text) (ns : List Text) → elem v ns ≡ true → All P ns → P v
unfolding elem
elem-All P v [] e h = cc
elem-All P v (n ∷ ns) e (h, hs) = elim (Bool-cases (bytes_eq v n)) [
  | inl same ↦ subst P (sym (bytes_eq→eq v n same)) h
  | inr other ↦ elem-All P v ns (rw other at e) hs
]

normal-IsMode : IsMode (codes "normal")
unfolding elem
normal-IsMode = refl

known_or_normal-IsMode : (value : Text) → IsMode (known_or_normal value)
unfolding known_or_normal
known_or_normal-IsMode value = elim (Bool-cases (elem value mode_names)) [
  | inl known ↦ rw known known
  | inr unknown ↦ rw unknown normal-IsMode
]

pub canonical_mode-IsMode : (value : Text) → IsMode (canonical_mode value)
unfolding canonical_mode
canonical_mode-IsMode value = known_or_normal-IsMode (mode_value value)

path_mode-IsMode : (path : Text) → IsMode (path_mode path)
unfolding path_mode
path_mode-IsMode path = known_or_normal-IsMode _

or_else-IsMode : (values : List Text) (mode : Text) → IsMode mode → IsMode (or_else values mode)
or_else-IsMode [] mode h = h
or_else-IsMode (v ∷ vs) mode h = canonical_mode-IsMode v

query_mode-IsMode : (keys : List Text) (url : Url) → IsMode (query_mode keys url)
unfolding query_mode
query_mode-IsMode [] url = path_mode-IsMode url.path
query_mode-IsMode (key ∷ keys) url =
    or_else-IsMode (url.query key) (query_mode keys url) (query_mode-IsMode keys url)

module _ (parse : Text → Option Url) (uri : Text) where
  found-IsMode :
      (found : Option Url)
      → IsMode (elim found [
        | none ↦ path_mode (before_first b'?' uri)
        | some url ↦ query_mode (codes "backend-mode" ∷ codes "mode" ∷ []) url
      ])
  found-IsMode none = path_mode-IsMode _
  found-IsMode (some url) = query_mode-IsMode _ url

  uri_mode-IsMode : IsMode (uri_mode parse uri)
  unfolding uri_mode
  uri_mode-IsMode = found-IsMode (parse uri)

  header-IsMode :
      (given : Option Text)
      → IsMode (elim given [ some value ↦ canonical_mode value | none ↦ uri_mode parse uri ])
  header-IsMode none = uri_mode-IsMode
  header-IsMode (some value) = canonical_mode-IsMode value

  -- Whatever the URI and the headers are, and however the URI is parsed, the mode is one of
  -- `MODE_NAMES`.
  pub select_mode-IsMode : (headers : List (Text × Text)) → IsMode (select_mode parse uri headers)
  unfolding select_mode
  select_mode-IsMode headers = header-IsMode (get (codes "x-backend-mode") headers)

canonical_names : All (λ name. canonical_mode name ≡ name) mode_names
unfolding canonical_mode known_or_normal mode_value strip is_space lower dash elem get
canonical_names = (
  refl,
  (
    refl,
    (refl, (refl, (refl, (refl, (refl, (refl, (refl, (refl, (refl, (refl, (refl, tt))))))))))),
  ),
)

-- The name of a mode is its own canonical form.
pub canonical_mode-of_mode : (mode : Text) → IsMode mode → canonical_mode mode ≡ mode
canonical_mode-of_mode mode h =
    elem-All (λ name. canonical_mode name ≡ name) mode mode_names h canonical_names
