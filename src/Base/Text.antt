-- ===== src/Base/Text.antt =====
-- The methods of Python's `str` and `bytes` that the programs call. A text is the list of its code points;
-- one that is decoded from latin-1 is the list of its bytes.
pub mod Dict
pub mod Int
pub mod Decimal
use lighttpd_fuzz.Base.{
  ℕ, zero, suc, ◌+◌, ◌-◌, ◌*◌, ◌/◌, ◌%◌, List, [], ◌∷◌, ◌++◌, Bool, true, false, not, ◌&&◌, ◌||◌,
  ltb, leb, ◌==◌, if◌then◌else◌, Option, none, some,
}
use lighttpd_fuzz.Base.Bytes.{bytes_eq}
use mathlib.Core.List.{reverse}

abbrev pub Text : Type 0
Text = List ℕ

-- `str.isspace` on a character.
unfoldable pub is_space : ℕ → Bool
is_space c =
    (leb 9 c && leb c 13)
    || (leb 28 c && leb c 32)
    || (c == 0x85)
    || (c == 0xa0)
    || (c == 0x1680)
    || (leb 0x2000 c && leb c 0x200a)
    || (c == 0x2028)
    || (c == 0x2029)
    || (c == 0x202f)
    || (c == 0x205f)
    || (c == 0x3000)

-- The white space of `bytes.strip`.
unfoldable pub is_ascii_space : ℕ → Bool
is_ascii_space c = (leb 9 c && leb c 13) || (c == 32)

unfoldable pub left_strip : (ℕ → Bool) → Text → Text
left_strip space [] = []
left_strip space (c ∷ cs) = let rest = left_strip space cs in if space c then rest else c ∷ cs

unfoldable pub strip : (ℕ → Bool) → Text → Text
unfolding left_strip
strip space s = reverse (left_strip space (reverse (left_strip space s)))

-- `str.lower` on a character of latin-1; 0xd7 is the multiplication sign.
unfoldable pub lower : ℕ → ℕ
lower c =
    if (leb b'A' c && leb c b'Z') || (leb 0xc0 c && (leb c 0xde && not (c == 0xd7)))
    then c + 32
    else c

-- `replace("_", "-")` on a character.
unfoldable pub dash : ℕ → ℕ
dash c = if c == b'_' then b'-' else c

unfoldable pub elem : Text → List Text → Bool
elem v [] = false
elem v (n ∷ ns) = bytes_eq v n || elem v ns

-- A dictionary in the order of insertion; writing a key again keeps its place.
module _ {ℓ} {V : Type ℓ} where
  unfoldable pub get : Text → List (Text × V) → Option V
  get k [] = none
  get k ((j, v) ∷ d) = if bytes_eq j k then some v else get k d

  unfoldable pub put : Text → V → List (Text × V) → List (Text × V)
  put k v [] = (k, v) ∷ []
  put k v ((j, w) ∷ d) = if bytes_eq j k then (j, v) ∷ d else (j, w) ∷ put k v d

  unfoldable pub remove : Text → List (Text × V) → List (Text × V)
  remove k [] = []
  remove k ((j, w) ∷ d) = let rest = remove k d in if bytes_eq j k then rest else (j, w) ∷ rest

unfoldable pub starts_with : Text → Text → Bool
starts_with s [] = true
starts_with [] (p ∷ ps) = false
starts_with (c ∷ cs) (p ∷ ps) = c == p && starts_with cs ps

decimal_loop : ℕ → ℕ → Text
decimal_loop zero n = []
decimal_loop (suc fuel) n =
    let rest = decimal_loop fuel (n / 10) in
    if ltb n 10 then (b'0' + n) ∷ [] else rest ++ (b'0' + n % 10) ∷ []

-- `str` of a number.
unfoldable pub decimal : ℕ → Text
unfolding decimal_loop
decimal n = decimal_loop (suc n) n

unfoldable pub is_digit : ℕ → Bool
is_digit c = leb b'0' c && leb c b'9'

-- The number that digits write, over what they have written so far.
unfoldable pub from_digits : ℕ → Text → ℕ
from_digits acc [] = acc
from_digits acc (c ∷ cs) = from_digits (acc * 10 + (c - b'0')) cs
