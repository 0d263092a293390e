-- ===== src/Base/Bits.antt =====
-- Masks on small numbers as arithmetic, each a table that is checked by evaluation.
use Prim.Native.Nat.{
  ℕ, zero, suc, ◌+◌, ◌-◌, ◌*◌, ◌/◌, ◌%◌, ◌^◌, ◌≤◌, ◌<◌, min, bit_and, bit_or, digits,
  bit_and-bitwise, bit_or-bitwise, max,
}
use mathlib.Core.Path.{◌≡◌, refl, sym, ap, ◌∙◌}
use native.Mathlib.Nat.{mod-eq_of_lt, mod-lt, pow-succ', div-add-mod, mul-add-mod_self_left}
use mathlib.Core.Bool.{Bool, true, ◌&&◌}
use native.Mathlib.Omega.{arith}
use lighttpd_fuzz.Base.Tests.{◌==◌, ==_iff}

-- A test that is tried on every number below a bound.
unfoldable pub passes_below : (ℕ → Bool) → ℕ → Bool
passes_below test zero = true
passes_below test (suc bound) = passes_below test bound && test bound

pub passes_below-at :
    (test : ℕ → Bool) (bound : ℕ)
    → passes_below test bound ≡ true
    → (k : ℕ) → k < bound
    → test k ≡ true
unfolding passes_below
passes_below-at test zero passed k small = absurd (omega arith)
passes_below-at test (suc bound) passed k small =
    let below = λ (front : passes_below test bound ≡ true) (l : k < bound).
      passes_below-at test bound front k l in
    ground arith

pub eq_below :
    (bound : ℕ) (f g : ℕ → ℕ)
    → passes_below (λ k. f k == g k) bound ≡ true
    → (k : ℕ) → k < bound
    → f k ≡ g k
eq_below bound f g passed k small =
    (==_iff (f k) (g k)).0 (passes_below-at (λ k. f k == g k) bound passed k small)

pub bit_and_127 : (b : ℕ) → b < 256 → bit_and b 0x7f ≡ b % 128
unfolding passes_below
bit_and_127 = eq_below 256 _ _ refl

pub bit_and_128 : (b : ℕ) → b < 256 → bit_and b 0x80 ≡ b / 128 * 128
unfolding passes_below
bit_and_128 = eq_below 256 _ _ refl

pub bit_or_128 : (b : ℕ) → b < 128 → bit_or b 0x80 ≡ b + 128
unfolding passes_below
bit_or_128 = eq_below 128 _ _ refl

pub bit_and_7 : (b : ℕ) → b < 256 → bit_and b 0x07 ≡ b % 8
unfolding passes_below
bit_and_7 = eq_below 256 _ _ refl

pub bit_and_2 : (b : ℕ) → b < 256 → bit_and b 0x02 ≡ b / 2 % 2 * 2
unfolding passes_below
bit_and_2 = eq_below 256 _ _ refl

mod_double : (a m : ℕ) → 0 < m → a / 2 % m * 2 + a % 2 ≡ a % (2 * m)
mod_double a m pos =
    let r : ℕ = a / 2 % m * 2 + a % 2 in
    let small : a / 2 % m < m = mod-lt (a / 2) pos in
    let whole : a ≡ 2 * m * (a / 2 / m) + r =
      omega (arith, ap (λ (t : ℕ). 2 * t) (div-add-mod (a / 2) m)) in
    sym (mod-eq_of_lt {m = 2 * m} (omega arith))
    ∙ sym (mul-add-mod_self_left (2 * m) (a / 2 / m) r)
    ∙ ap (λ t. t % (2 * m)) (sym whole)

pub pos-pow : (k : ℕ) → 0 < 2 ^ k
pos-pow zero = omega arith
pos-pow (suc k) = omega (arith, pow-succ' 2 k, pos-pow k)

-- The digit recursion of `bit_and`, against a mask of `k` ones.
and_ones : (fuel a k : ℕ) → a ≤ fuel → digits (λ b. zero) min fuel a (2 ^ k - 1) ≡ a % 2 ^ k
and_ones zero zero k h = omega arith
and_ones zero (suc a) k h = absurd (omega arith)
and_ones (suc fuel) zero k h = omega arith
and_ones (suc fuel) (suc a) zero h = omega (arith, and_ones fuel (suc a / 2) zero (omega arith))
and_ones (suc fuel) (suc a) (suc k) h =
    let pos : 0 < 2 ^ k = pos-pow k in
    let twice : 2 ^ suc k ≡ 2 * 2 ^ k = pow-succ' 2 k in
    let half : (2 ^ suc k - 1) / 2 ≡ 2 ^ k - 1 = omega arith in
    let odd : (2 ^ suc k - 1) % 2 ≡ 1 = omega arith in
    ap (λ t. digits (λ b. zero) min fuel (suc a / 2) t * 2 + min (suc a % 2) ((2 ^ suc k - 1) % 2))
      half
    ∙ ap (λ t. t * 2 + min (suc a % 2) ((2 ^ suc k - 1) % 2))
        (and_ones fuel (suc a / 2) k (omega arith))
    ∙ rw (odd, twice) (omega (arith, mod_double (suc a) (2 ^ k) pos))

pub bit_and_ones : (a k : ℕ) → bit_and a (2 ^ k - 1) ≡ a % 2 ^ k
bit_and_ones a k = bit_and-bitwise a (2 ^ k - 1) ∙ and_ones a a k (omega arith)

-- Bits above the lowest `p` of a byte, joined to a number of `p` bits.
pub bit_or_high :
    (p k v : ℕ) → p < 9 → k < 2 ^ (8 - p) → v < 2 ^ p → bit_or (k * 2 ^ p) v ≡ k * 2 ^ p + v
unfolding passes_below
bit_or_high p k v hp hk hv =
    let joins : ℕ → ℕ → ℕ → Bool = λ p k v. bit_or (k * 2 ^ p) v == k * 2 ^ p + v in
    let row : ℕ → ℕ → Bool = λ p k. passes_below (joins p k) (2 ^ p) in
    let table : ℕ → Bool = λ p. passes_below (row p) (2 ^ (8 - p)) in
    (==_iff (bit_or (k * 2 ^ p) v) (k * 2 ^ p + v)).0 (
      passes_below-at (joins p k) (2 ^ p)
        (passes_below-at (row p) (2 ^ (8 - p)) (passes_below-at table 9 refl p hp) k hk) v hv)

or_power : (fuel a k : ℕ) → a ≤ fuel → a < 2 ^ k → digits (λ b. b) max fuel a (2 ^ k) ≡ a + 2 ^ k
or_power zero zero k h l = omega arith
or_power zero (suc a) k h l = absurd (omega arith)
or_power (suc fuel) zero k h l = omega arith
or_power (suc fuel) (suc a) zero h l = absurd (omega arith)
or_power (suc fuel) (suc a) (suc k) h l =
    let twice : 2 ^ suc k ≡ 2 * 2 ^ k = pow-succ' 2 k in
    let half : 2 ^ suc k / 2 ≡ 2 ^ k = omega arith in
    let even : 2 ^ suc k % 2 ≡ 0 = omega arith in
    ap (λ t. digits (λ b. b) max fuel (suc a / 2) t * 2 + max (suc a % 2) (2 ^ suc k % 2)) half
    ∙ ap (λ t. t * 2 + max (suc a % 2) (2 ^ suc k % 2))
        (or_power fuel (suc a / 2) k (omega arith) (omega arith))
    ∙ rw (even, twice) (omega arith)

-- A bit above all others.
pub bit_or_power : (a k : ℕ) → a < 2 ^ k → bit_or a (2 ^ k) ≡ a + 2 ^ k
bit_or_power a k h = bit_or-bitwise a (2 ^ k) ∙ or_power a a k (omega arith) h
