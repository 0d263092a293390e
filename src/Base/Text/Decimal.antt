-- ===== src/Base/Text/Decimal.antt =====
-- The digits that `decimal` writes.
use lighttpd_fuzz.Base.{
  ℕ, zero, suc, ◌+◌, ◌-◌, ◌*◌, ◌/◌, ◌%◌, ◌^◌, ◌≤◌, ◌<◌, [], ◌∷◌, ◌++◌, ◌≡◌, refl, ◌∙◌, true, ltb,
  Bool-cases, inl, inr, length, length-append, All, All-append, arith,
}
use native.Mathlib.Nat.{pow-succ'}
use lighttpd_fuzz.Base.Text.{Text, decimal, decimal_loop, is_digit, from_digits}

from_digits-append :
    (acc : ℕ) (xs : Text) (d : ℕ)
    → from_digits acc (xs ++ d ∷ []) ≡ from_digits acc xs * 10 + (d - b'0')
unfolding from_digits
from_digits-append acc [] d = refl
from_digits-append acc (x ∷ xs) d = from_digits-append (acc * 10 + (x - b'0')) xs d

decimal_loop-value : (fuel n : ℕ) → n < fuel → from_digits 0 (decimal_loop fuel n) ≡ n
unfolding decimal_loop from_digits
decimal_loop-value zero n h = absurd (omega arith)
decimal_loop-value (suc fuel) n h = elim (Bool-cases (ltb n 10)) [
  | inl small ↦ rw small (omega arith)
  | inr large ↦
      let big : 10 ≤ n = ground arith in
      rw large (
        from_digits-append 0 (decimal_loop fuel (n / 10)) (b'0' + n % 10)
        ∙ omega (arith, decimal_loop-value fuel (n / 10) (omega arith)))
]

decimal_loop-digits : (fuel n : ℕ) → All (λ d. is_digit d ≡ true) (decimal_loop fuel n)
unfolding decimal_loop is_digit
decimal_loop-digits zero n = tt
decimal_loop-digits (suc fuel) n = elim (Bool-cases (ltb n 10)) [
  | inl small ↦ rw small (ground arith, tt)
  | inr large ↦ rw large (
      All-append _ (decimal_loop fuel (n / 10)) _ (decimal_loop-digits fuel (n / 10))
        (ground arith, tt))
]

decimal_loop-length : (fuel n k : ℕ) → n < 10 ^ suc k → length (decimal_loop fuel n) ≤ suc k
unfolding decimal_loop
decimal_loop-length zero n k h = omega arith
decimal_loop-length (suc fuel) n zero h =
    let small : ltb n 10 ≡ true = ground arith in rw small (omega arith)
decimal_loop-length (suc fuel) n (suc k) h = elim (Bool-cases (ltb n 10)) [
  | inl small ↦ rw small (omega arith)
  | inr large ↦
      let less : n / 10 < 10 ^ suc k = omega (arith, pow-succ' 10 (suc k)) in
      rw large (
        omega (
          arith,
          length-append (decimal_loop fuel (n / 10)) ((b'0' + n % 10) ∷ []),
          decimal_loop-length fuel (n / 10) k less,
        ))
]

pub from_digits-decimal : (n : ℕ) → from_digits 0 (decimal n) ≡ n
unfolding decimal
from_digits-decimal n = decimal_loop-value (suc n) n (omega arith)

pub decimal-digits : (n : ℕ) → All (λ d. is_digit d ≡ true) (decimal n)
unfolding decimal
decimal-digits n = decimal_loop-digits (suc n) n

pub length-decimal : (n k : ℕ) → n < 10 ^ suc k → length (decimal n) ≤ suc k
unfolding decimal
length-decimal n k h = decimal_loop-length (suc n) n k h

pub decimal_nonempty : (n : ℕ) → 1 ≤ length (decimal n)
unfolding decimal decimal_loop
decimal_nonempty n = elim (Bool-cases (ltb n 10)) [
  | inl small ↦ rw small (omega arith)
  | inr large ↦
      rw large (omega (arith, length-append (decimal_loop n (n / 10)) ((b'0' + n % 10) ∷ [])))
]
