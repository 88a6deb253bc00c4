-- ===== src/Common/Bits/Step.antt =====
-- `|` and `&` by their lowest binary digit. The native operations stand for a recursion on digits
-- with fuel; any fuel that covers the first argument gives the same result.
use Prim.Native.Nat.{
  ℕ, zero, suc, ◌+◌, ◌-◌, ◌*◌, ◌/◌, ◌%◌, ◌≤◌, min, max, digits, bit_and, bit_or, bit_and-bitwise,
  bit_or-bitwise,
}
use mathlib.Core.Path.{◌≡◌, refl, ap}
use native.Mathlib.Omega.{arith}

-- `past` is the value once the first number has no digits left, `on` combines two digits.
enough_fuel :
    (past : ℕ → ℕ) (on : ℕ → ℕ → ℕ) (fuel extra a b : ℕ)
    → a ≤ fuel
    → digits past on (fuel + extra) a b ≡ digits past on a a b
enough_fuel past on fuel extra a b h = go (fuel + extra) a a b (omega arith) (omega arith)
  where
    go : (n m a b : ℕ) → a ≤ n → a ≤ m → digits past on n a b ≡ digits past on m a b
    go (suc n) (suc m) zero b p q = refl
    go (suc n) zero zero b p q = refl
    go zero (suc m) zero b p q = refl
    go zero zero a b p q = refl
    go (suc n) zero (suc a) b p q = absurd (omega arith)
    go zero (suc m) (suc a) b p q = absurd (omega arith)
    go (suc n) (suc m) (suc a) b p q =
        ap (λ t. t * 2 + on (suc a % 2) (b % 2))
          (go n m (suc a / 2) (b / 2) (omega arith) (omega arith))

lowest_digit :
    (past : ℕ → ℕ) (on : ℕ → ℕ → ℕ) (a b : ℕ)
    → digits past on (suc a) (suc a) b
      ≡ digits past on (suc a / 2) (suc a / 2) (b / 2) * 2 + on (suc a % 2) (b % 2)
lowest_digit past on a b =
    let spare : suc a / 2 + (a - suc a / 2) ≡ a = omega arith in
    ap (λ t. t * 2 + on (suc a % 2) (b % 2))
      (rw spare at
        (enough_fuel past on (suc a / 2) (a - suc a / 2) (suc a / 2) (b / 2) (omega arith)))

pub bit_and_step : (a b : ℕ) → bit_and a b ≡ min (a % 2) (b % 2) + 2 * bit_and (a / 2) (b / 2)
bit_and_step zero other = simp bit_and-bitwise (omega arith)
bit_and_step (suc half) other =
    simp bit_and-bitwise (omega (arith, lowest_digit (λ _. 0) min half other))

pub bit_or_step : (a b : ℕ) → bit_or a b ≡ max (a % 2) (b % 2) + 2 * bit_or (a / 2) (b / 2)
bit_or_step zero other = simp bit_or-bitwise (omega arith)
bit_or_step (suc half) other =
    simp bit_or-bitwise (omega (arith, lowest_digit (λ rest. rest) max half other))
