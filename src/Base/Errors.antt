-- ===== src/Base/Errors.antt =====
-- Python's exceptions as values: a fallible function returns a `Result`.
use Prim.Native.String.{String}
use mathlib.Core.Path.{◌≡◌, refl}
use mathlib.Core.Bool.{Bool, true, false}

-- The exceptions that the programs raise, or let pass from the calls they make.
pub data Error : Type 0 where
  value_error : String → Error
  overflow_error : Error
  index_error : Error
  eof_error : Error
  connection_error : Error
  timeout_error : Error
  assertion_error : Error
  os_error : Error
  system_exit : String → Error
  -- No exception: a loop of the model ran out of fuel.
  diverged : Error

-- What a call comes to: an exception, or the value that it returns.
pub data Result {ℓ} (A : Type ℓ) : Type ℓ where
  err : Error → Result A
  ok : A → Result A

module _ {ℓ κ} {A : Type ℓ} {B : Type κ} where
  infixl 5 ◌>>=◌
  -- The statements after a call run on what it returns; an exception leaves them out.
  abbrev pub ◌>>=◌ : Result A → (A → Result B) → Result B
  err e >>= after = err e
  ok value >>= after = after value

  pub >>=-eq-ok :
      (call : Result A) (after : A → Result B) {result : B}
      → (call >>= after) ≡ ok result
      → (value : A) × (call ≡ ok value) × (after value ≡ ok result)
  >>=-eq-ok (err e) after returns = cc
  >>=-eq-ok (ok value) after returns = (value, refl, returns)

infixl 5 ◌>>◌
abbrev pub ◌>>◌ {κ} : {B : Type κ} → Result (Unit {0}) → Result B → Result B
◌>>◌ check after = check >>= (λ _. after)

-- `if condition: raise e`
abbrev pub raise_if : Bool → Error → Result (Unit {0})
raise_if true e = err e
raise_if false e = ok tt

abbrev pub is_ok {ℓ} : {A : Type ℓ} → Result A → Bool
is_ok (ok a) = true
is_ok (err e) = false
