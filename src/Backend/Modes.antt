-- ===== src/Backend/Modes.antt =====
-- `_mode_value`, `_canonical_mode` and `select_mode` of backend-responder.py.
pub mod Selected
pub mod Paths
use lighttpd_fuzz.Base.{
  ℕ, List, [], ◌∷◌, Bool, true, false, take, map, if◌then◌else◌, ◌==◌, Option, none, some, ◌++◌,
}
use lighttpd_fuzz.Base.Bytes.{codes}
use lighttpd_fuzz.Base.Text.{Text, is_space, strip, lower, dash, elem, get}

abbrev pub mode_path_prefix : Text
mode_path_prefix = codes "/__backend__/"

abbrev pub mode_names : List Text
mode_names =
    codes "normal"
    ∷ codes "chunked-trailers"
    ∷ codes "100"
    ∷ codes "103"
    ∷ codes "interim"
    ∷ codes "early-close"
    ∷ codes "malformed-headers"
    ∷ codes "truncated-headers"
    ∷ codes "malformed-chunk"
    ∷ codes "truncated-chunk"
    ∷ codes "redirect-cookie"
    ∷ codes "upgrade"
    ∷ codes "partial"
    ∷ []

abbrev pub mode_aliases : List (Text × Text)
mode_aliases =
    (codes "100-103", codes "interim")
    ∷ (codes "content-length-mismatch", codes "early-close")
    ∷ (codes "length-mismatch", codes "early-close")
    ∷ (codes "set-cookie-location", codes "redirect-cookie")
    ∷ (codes "short-writes", codes "partial")
    ∷ []

abbrev pub get_default : Option Text → Text → Text
get_default none d = d
get_default (some v) d = v

unfoldable pub mode_value : Text → Text
mode_value value =
    let v = take 64 (map dash (map lower (strip is_space value))) in
    get_default (get v mode_aliases) v

-- `value if value in MODE_NAMES else "normal"`
unfoldable pub known_or_normal : Text → Text
known_or_normal value = if elem value mode_names then value else codes "normal"

unfoldable pub canonical_mode : Text → Text
canonical_mode value = known_or_normal (mode_value value)

-- Of the URI `urllib.parse` finds the path, and in the query the values of each key; `none` is a
-- `TypeError` or a `ValueError`.
pub record Url : Type 0 where
  pub path : Text
  pub query : Text → List Text

-- `value.split(separator, 1)[0]`
unfoldable pub before_first : ℕ → Text → Text
before_first separator [] = []
before_first separator (c ∷ cs) = if c == separator then [] else c ∷ before_first separator cs

-- `value.rsplit(separator, 1)[-1]`: the piece read so far is thrown away at each separator.
unfoldable pub after_last : ℕ → Text → Text → Text
after_last separator piece [] = piece
after_last separator piece (c ∷ cs) =
    after_last separator (if c == separator then [] else piece ++ c ∷ []) cs

-- A character in front of what is left of the text behind it.
abbrev pub keep : ℕ → ℕ → Text → Text
keep separator c [] = if c == separator then [] else c ∷ []
keep separator c (d ∷ ds) = c ∷ d ∷ ds

-- `value.rstrip(separator)`
unfoldable pub right_strip : ℕ → Text → Text
right_strip separator [] = []
right_strip separator (c ∷ cs) = keep separator c (right_strip separator cs)

-- The last component of a path, if it names a mode.
unfoldable pub path_mode : Text → Text
path_mode path = known_or_normal (mode_value (after_last b'/' [] (right_strip b'/' path)))

-- The first value of the first key that has one; without one, the path.
abbrev pub or_else : List Text → Text → Text
or_else [] mode = mode
or_else (v ∷ vs) mode = canonical_mode v

-- The first value of the first key that has one; without one, the path.
unfoldable pub query_mode : List Text → Url → Text
query_mode [] url = path_mode url.path
query_mode (key ∷ keys) url = or_else (url.query key) (query_mode keys url)

module _ (parse : Text → Option Url) where
  unfoldable pub uri_mode : Text → Text
  uri_mode uri = elim (parse uri) [
    | none ↦ path_mode (before_first b'?' uri)
    | some url ↦ query_mode (codes "backend-mode" ∷ codes "mode" ∷ []) url
  ]

  unfoldable pub select_mode : Text → List (Text × Text) → Text
  select_mode uri headers = elim (get (codes "x-backend-mode") headers) [
    | some header_mode ↦ canonical_mode header_mode
    | none ↦ uri_mode uri
  ]
