-- ===== src/Common/Bits.antt =====
-- Masks, shifts and `|` of disjoint fields, as arithmetic.
mod Step
pub mod Ones
use Step.{bit_or_step, bit_and_step}
use Prim.Native.Nat.{
  ℕ, zero, suc, ◌+◌, ◌-◌, ◌*◌, ◌/◌, ◌%◌, ◌^◌, ◌<◌, bit_and, bit_or, bit_or-bitwise,
}
use mathlib.Core.Path.{◌≡◌, refl, ap}
use mathlib.Core.Bool.{Bool, true, ◌&&◌}
use native.Mathlib.Nat.{pow-suc, one-le-pow}
use native.Mathlib.Omega.{arith}
use bw_watermyplants.Common.Tests.{◌==◌, ==_iff}

-- A test that every number below a bound passes, by evaluation.
unfoldable pub passes_below : (ℕ → Bool) → ℕ → Bool
passes_below test zero = true
passes_below test (suc bound) = passes_below test bound && test bound

pub passes_below-at :
    (test : ℕ → Bool) (bound i : ℕ) → i < bound → passes_below test bound ≡ true → test i ≡ true
unfolding passes_below
passes_below-at test zero i lt passes = absurd (omega arith)
passes_below-at test (suc bound) i lt passes = ground (arith, passes_below-at test bound i)

pub bit_and-0x80 : (b : ℕ) → b < 256 → bit_and b 0x80 ≡ b / 128 * 128
unfolding passes_below
bit_and-0x80 b h =
    (==_iff _ _).0 (passes_below-at (λ x. bit_and x 0x80 == x / 128 * 128) 256 b h refl)

pub bit_or-0x80 : (b : ℕ) → b < 128 → bit_or b 0x80 ≡ b + 128
unfolding passes_below
bit_or-0x80 b h = (==_iff _ _).0 (passes_below-at (λ x. bit_or x 0x80 == x + 128) 128 b h refl)

pub bit_and-0x70 : (b : ℕ) → b < 16 → bit_and b 0x70 ≡ 0
unfolding passes_below
bit_and-0x70 b h = (==_iff _ _).0 (passes_below-at (λ x. bit_and x 0x70 == 0) 16 b h refl)

pub two_pow-suc : (b k : ℕ) → b * 2 ^ suc k ≡ 2 * (b * 2 ^ k)
two_pow-suc b k = omega (arith, ap (λ (t : ℕ). b * t) (pow-suc 2 k))

pub zero-bit_or : (b : ℕ) → bit_or 0 b ≡ b
zero-bit_or b = bit_or-bitwise 0 b

-- `a | (b << k)` is a sum where `a` fits in `k` bits.
pub bit_or-shifted : (k a b : ℕ) → a < 2 ^ k → bit_or a (b * 2 ^ k) ≡ a + b * 2 ^ k
bit_or-shifted zero zero b h = omega (arith, zero-bit_or (b * 2 ^ 0))
bit_or-shifted zero (suc a) b h = absurd (omega arith)
bit_or-shifted (suc k) a b h = ground (
  arith,
  bit_or_step a (b * 2 ^ suc k),
  two_pow-suc b k,
  bit_or-shifted k (a / 2) b (omega arith),
)

bit_or-zero_fuel : (n a : ℕ) → a < n → bit_or a 0 ≡ a
bit_or-zero_fuel zero a h = absurd (omega arith)
bit_or-zero_fuel (suc n) zero h = refl
bit_or-zero_fuel (suc n) (suc a) h =
    omega (arith, bit_or_step (suc a) 0, bit_or-zero_fuel n (suc a / 2) (omega arith))

-- `(q << k) | r`, the same with the fields the other way round
pub shifted-bit_or : (k q r : ℕ) → r < 2 ^ k → bit_or (q * 2 ^ k) r ≡ q * 2 ^ k + r
shifted-bit_or zero q zero h =
    omega (arith, bit_or-zero_fuel (suc (q * 2 ^ 0)) (q * 2 ^ 0) (omega arith))
shifted-bit_or zero q (suc r) h = absurd (omega arith)
shifted-bit_or (suc k) q r h = ground (
  arith,
  bit_or_step (q * 2 ^ suc k) r,
  two_pow-suc q k,
  shifted-bit_or k q (r / 2) (omega arith),
)

bit_and-zero_below : (bound x : ℕ) → x < bound → bit_and x 0 ≡ 0
bit_and-zero_below zero x lt = absurd (omega arith)
bit_and-zero_below (suc bound) zero lt = refl
bit_and-zero_below (suc bound) (suc x) lt =
    let half = bit_and-zero_below bound (suc x / 2) (omega arith) in
    omega (arith, half, bit_and_step (suc x) 0)

pub bit_and-zero : (a : ℕ) → bit_and a 0 ≡ 0
bit_and-zero a = bit_and-zero_below (suc a) a (omega arith)

-- `a & (2 ^ k - 1)` is the remainder by `2 ^ k`; the number is split as `q << k` and `r`.
bit_and-mask_split : (k q r : ℕ) → r < 2 ^ k → bit_and (r + q * 2 ^ k) (2 ^ k - 1) ≡ r
bit_and-mask_split zero q r h = rw bit_and-zero (omega arith)
bit_and-mask_split (suc k) q r h = ground (
  arith,
  bit_and_step (r + q * 2 ^ suc k) (2 ^ suc k - 1),
  two_pow-suc q k,
  pow-suc 2 k,
  one-le-pow k 2,
  bit_and-mask_split k q (r / 2) (omega arith),
)

pub bit_and-mask : (k a : ℕ) → bit_and a (2 ^ k - 1) ≡ a % 2 ^ k
bit_and-mask k a = ground (arith, one-le-pow k 2, bit_and-mask_split k (a / 2 ^ k) (a % 2 ^ k))

pub bit_and-0x7f : (a : ℕ) → bit_and a 0x7f ≡ a % 128
bit_and-0x7f a = bit_and-mask 7 a

pub bit_and-seven : (a : ℕ) → bit_and a 7 ≡ a % 8
bit_and-seven a = bit_and-mask 3 a

pub bit_and-0xff : (a : ℕ) → bit_and a 0xff ≡ a % 256
bit_and-0xff a = bit_and-mask 8 a
