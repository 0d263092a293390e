-- ===== src/Base/Bytes.antt =====
-- Python's `bytes`: lists of numbers below 256, `int.to_bytes(…, "big")` and `int.from_bytes(…, "big")`.
use Prim.Native.Nat.{ℕ, zero, suc, ◌+◌, ◌*◌, ◌/◌, ◌%◌, ◌^◌, ◌<◌}
use Prim.Native.Char.{code}
use Prim.Native.String.{String}
use mathlib.Core.Bool.{Bool, true, false, ◌&&◌}
use mathlib.Core.Path.{◌≡◌, refl}
use mathlib.Core.List.{List, [], ◌∷◌, ◌++◌}
use native.Mathlib.Omega.{arith}
use lighttpd_fuzz.Base.Tests.{ltb, ◌==◌, if◌then◌else◌}
use lighttpd_fuzz.Base.Lists.{length, length-append, All, All-append}
use lighttpd_fuzz.Base.Errors.{Result, ok, err, overflow_error, value_error}

abbrev pub Bytes : Type 0
Bytes = List ℕ

abbrev pub IsByte : ℕ → Type 0
IsByte b = b < 256

abbrev pub IsBytes : Bytes → Type 0
IsBytes = All IsByte

-- The bytes of an ASCII literal.
abbrev pub codes : String → Bytes
codes String.[] = []
codes (String.◌∷◌ c s) = code c ∷ codes s

-- The `width` low bytes of `n`, the highest first.
abbrev pub to_be : ℕ → ℕ → Bytes
to_be zero n = []
to_be (suc width) n = to_be width (n / 256) ++ (n % 256) ∷ []

-- `n.to_bytes(width, "big")`
unfoldable pub to_bytes : ℕ → ℕ → Result Bytes
to_bytes n width = if ltb n (256 ^ width) then ok (to_be width n) else err overflow_error

abbrev pub from_be_onto : ℕ → Bytes → ℕ
from_be_onto acc [] = acc
from_be_onto acc (b ∷ bs) = from_be_onto (acc * 256 + b) bs

-- `int.from_bytes(b, "big")`
abbrev pub from_bytes : Bytes → ℕ
from_bytes b = from_be_onto 0 b

pub from_be_onto-append :
    (acc : ℕ) (xs ys : Bytes) → from_be_onto acc (xs ++ ys) ≡ from_be_onto (from_be_onto acc xs) ys
from_be_onto-append acc [] ys = refl
from_be_onto-append acc (x ∷ xs) ys = from_be_onto-append (acc * 256 + x) xs ys

pub length-to_be : (width n : ℕ) → length (to_be width n) ≡ width
length-to_be zero n = refl
length-to_be (suc width) n =
    omega
      (arith, length-append (to_be width (n / 256)) ((n % 256) ∷ []), length-to_be width (n / 256))

pub to_be-IsBytes : (width n : ℕ) → IsBytes (to_be width n)
to_be-IsBytes zero n = tt
to_be-IsBytes (suc width) n =
    All-append IsByte (to_be width (n / 256)) _ (to_be-IsBytes width (n / 256)) (omega arith)

abbrev pub all_bytes : Bytes → Bool
all_bytes [] = true
all_bytes (b ∷ bs) = ltb b 256 && all_bytes bs

pub all_bytes_lem : (bs : Bytes) → IsBytes bs → all_bytes bs ≡ true
all_bytes_lem [] h = refl
all_bytes_lem (b ∷ bs) (h, hs) = ground (arith, all_bytes_lem bs hs)

-- `bytes((…))`, which refuses a number that is no byte.
unfoldable pub byte_string : Bytes → Result Bytes
byte_string bs = if all_bytes bs then ok bs else err (value_error "bytes must be in range(0, 256)")

-- `==` on bytes.
abbrev pub bytes_eq : Bytes → Bytes → Bool
bytes_eq [] [] = true
bytes_eq [] (y ∷ ys) = false
bytes_eq (x ∷ xs) [] = false
bytes_eq (x ∷ xs) (y ∷ ys) = x == y && bytes_eq xs ys

pub bytes_eq→eq : (xs ys : Bytes) → bytes_eq xs ys ≡ true → xs ≡ ys
bytes_eq→eq [] [] h = refl
bytes_eq→eq [] (y ∷ ys) h = cc
bytes_eq→eq (x ∷ xs) [] h = cc
bytes_eq→eq (x ∷ xs) (y ∷ ys) h = ground (arith, bytes_eq→eq xs ys)

pub bytes_eq_refl : (xs : Bytes) → bytes_eq xs xs ≡ true
bytes_eq_refl [] = refl
bytes_eq_refl (x ∷ xs) = ground (arith, bytes_eq_refl xs)
