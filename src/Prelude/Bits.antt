-- ===== src/Prelude/Bits.antt =====
-- Laws of the bitwise operations of Go on unsigned words, from the digit recursion that the native
-- operations stand for.
use Prim.Native.Nat.{
  ℕ, zero, suc, ◌+◌, ◌-◌, ◌*◌, ◌/◌, ◌%◌, ◌≤◌, ◌<◌, min, max, bit_and, bit_or, digits,
  bit_and-bitwise, bit_or-bitwise,
}
use mathlib.Core.Path.{◌≡◌, refl, ap}
use mathlib.Core.Bool.{Bool, true, ◌&&◌}
use native.Mathlib.Omega.{arith}

-- The digits of an operation do not depend on the fuel, once it reaches the first number.
module _ (base : ℕ → ℕ) (op : ℕ → ℕ → ℕ) where
  abbrev by_digits : ℕ → ℕ → ℕ → ℕ
  by_digits fuel x y = digits base op fuel x y

  enough_fuel : (x y k l : ℕ) → x ≤ k → x ≤ l → by_digits k x y ≡ by_digits l x y
  enough_fuel zero y zero zero hk hl = refl
  enough_fuel zero y zero (suc l) hk hl = refl
  enough_fuel zero y (suc k) zero hk hl = refl
  enough_fuel zero y (suc k) (suc l) hk hl = refl
  enough_fuel (suc x) y zero l hk hl = absurd (omega arith)
  enough_fuel (suc x) y (suc k) zero hk hl = absurd (omega arith)
  enough_fuel (suc x) y (suc k) (suc l) hk hl =
      let half = enough_fuel (suc x / 2) (y / 2) k l (omega arith) (omega arith) in
      ap (λ d. d * 2 + op (suc x % 2) (y % 2)) half

-- Both operations by their lowest digit.
pub bit_and_step : (x y : ℕ) → bit_and x y ≡ bit_and (x / 2) (y / 2) * 2 + min (x % 2) (y % 2)
bit_and_step zero y = omega (arith, bit_and-bitwise 0 y, bit_and-bitwise 0 (y / 2))
bit_and_step (suc x) y =
    let half =
      enough_fuel (λ _. zero) min (suc x / 2) (y / 2) x (suc x / 2) (omega arith) (omega arith) in
    omega (arith, half, bit_and-bitwise (suc x) y, bit_and-bitwise (suc x / 2) (y / 2))

pub bit_or_step : (x y : ℕ) → bit_or x y ≡ bit_or (x / 2) (y / 2) * 2 + max (x % 2) (y % 2)
bit_or_step zero y = omega (arith, bit_or-bitwise 0 y, bit_or-bitwise 0 (y / 2))
bit_or_step (suc x) y =
    let half =
      enough_fuel (λ z. z) max (suc x / 2) (y / 2) x (suc x / 2) (omega arith) (omega arith) in
    omega (arith, half, bit_or-bitwise (suc x) y, bit_or-bitwise (suc x / 2) (y / 2))

-- What zero does on the right of both, by recursion on a bound of the left.
zero_right : (bound x : ℕ) → x ≤ bound → (bit_and x 0 ≡ 0) × (bit_or x 0 ≡ x)
zero_right bound zero h = (refl, refl)
zero_right zero (suc x) h = absurd (omega arith)
zero_right (suc bound) (suc x) h =
    let (nothing, same) = zero_right bound (suc x / 2) (omega arith) in
    (omega (arith, nothing, bit_and_step (suc x) 0), omega (arith, same, bit_or_step (suc x) 0))

-- The lowest bit, and the other bits.
pub bit_and-one : (x : ℕ) → bit_and x 1 ≡ x % 2
bit_and-one x =
    let (nothing, _) = zero_right (x / 2) (x / 2) (omega arith) in
    omega (arith, nothing, bit_and_step x 1)

pub bit_and-even : (x k : ℕ) → bit_and x (2 * k) ≡ bit_and (x / 2) k * 2
bit_and-even x k =
    let halved : 2 * k / 2 ≡ k = omega arith in
    omega (arith, ap (bit_and (x / 2)) halved, bit_and_step x (2 * k))

-- Setting the lowest bit.
pub bit_or-one : (x : ℕ) → bit_or x 1 ≡ x / 2 * 2 + 1
bit_or-one x =
    let (_, same) = zero_right (x / 2) (x / 2) (omega arith) in omega (arith, same, bit_or_step x 1)

-- Go's `a &^ b`, the bits of `a` that are not in `b`.
unfoldable pub and_not : ℕ → ℕ → ℕ
and_not a b = a - bit_and a b

-- Clearing the lowest bit.
pub and_not-one : (x : ℕ) → and_not x 1 ≡ x / 2 * 2
unfolding and_not
and_not-one x = omega (arith, bit_and-one x)

-- A test that holds at each number below a bound, found by evaluation.
unfoldable pub holds_below : (ℕ → Bool) → ℕ → Bool
holds_below test zero = true
holds_below test (suc bound) = holds_below test bound && test bound

pub holds_below_at :
    (test : ℕ → Bool) (bound x : ℕ) → x < bound → holds_below test bound ≡ true → test x ≡ true
unfolding holds_below
holds_below_at test zero x small holds = absurd (omega arith)
holds_below_at test (suc bound) x small holds = ground (arith, holds_below_at test bound x)
