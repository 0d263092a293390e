-- ===== src/Base/Text/Int.antt =====
-- `int` on bytes.
use lighttpd_fuzz.Base.{
  ℕ, [], ◌∷◌, Bool, true, false, ◌&&◌, ltb, ◌==◌, if◌then◌else◌, length, Option, none, some,
}
use lighttpd_fuzz.Base.Text.{Text, is_ascii_space, is_digit, strip, from_digits}

-- The digits without the underscores that may stand between two of them; `after` says that the character
-- before was a digit.
unfoldable pub int_digits : Bool → Text → Option Text
int_digits after [] = if after then some [] else none
int_digits after (c ∷ cs) =
    if is_digit c
    then (elim (int_digits true cs) [ some digits ↦ some (c ∷ digits) | none ↦ none ])
    else if c == b'_' && after
    then int_digits false cs
    else none

-- An integer: whether it has a minus sign, and its absolute value.
abbrev pub Signed : Type 0
Signed = Bool × ℕ

-- Python refuses more than 4300 digits.
abbrev pub signed : Bool → Option Text → Option Signed
signed negative none = none
signed negative (some digits) =
    if ltb 4300 (length digits) then none else some (negative, from_digits 0 digits)

abbrev pub int_unsigned : Bool → Text → Option Signed
int_unsigned negative text = signed negative (int_digits false text)

abbrev pub int_stripped : Text → Option Signed
int_stripped [] = none
int_stripped (c ∷ cs) =
    if c == b'-'
    then int_unsigned true cs
    else if c == b'+'
    then int_unsigned false cs
    else int_unsigned false (c ∷ cs)

-- `int(value)`; `none` is a `ValueError`.
unfoldable pub int : Text → Option Signed
int value = int_stripped (strip is_ascii_space value)
