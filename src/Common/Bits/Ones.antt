-- ===== src/Common/Bits/Ones.antt =====
-- The binary digits of a number, those of `|` and of a power of two, and a number that has only ones.
use Prim.Native.Nat.{ℕ, zero, suc, ◌+◌, ◌-◌, ◌*◌, ◌/◌, ◌%◌, ◌^◌, ◌<◌, max, bit_or}
use mathlib.Core.Path.{◌≡◌, refl, ◌∙◌, ap}
use native.Mathlib.Nat.{pow-suc, one-le-pow}
use native.Mathlib.Omega.{arith}
use bw_watermyplants.Common.Tests.{◌==◌, if◌then◌else◌}
use bw_watermyplants.Common.Bits.Step.{bit_or_step}

-- Digit `j`, the lowest first
unfoldable pub digit : ℕ → ℕ → ℕ
digit zero a = a % 2
digit (suc j) a = digit j (a / 2)

pub digit-bit_or : (j a b : ℕ) → digit j (bit_or a b) ≡ max (digit j a) (digit j b)
unfolding digit
digit-bit_or zero a b = ground (arith, bit_or_step a b)
digit-bit_or (suc j) a b = ap (digit j) (half (bit_or_step a b)) ∙ digit-bit_or j (a / 2) (b / 2)
  where
    half :
        bit_or a b ≡ max (a % 2) (b % 2) + 2 * bit_or (a / 2) (b / 2)
        → bit_or a b / 2 ≡ bit_or (a / 2) (b / 2)
    half e = ground arith

pub digit-zero : (j : ℕ) → digit j 0 ≡ 0
unfolding digit
digit-zero zero = refl
digit-zero (suc j) = digit-zero j

pub digit-two_pow : (j k : ℕ) → digit j (2 ^ k) ≡ (if j == k then 1 else 0)
unfolding digit
digit-two_pow zero zero = refl
digit-two_pow zero (suc k) = ground (arith, pow-suc 2 k)
digit-two_pow (suc j) zero = ground (arith, digit-zero j)
digit-two_pow (suc j) (suc k) = ap (digit j) half ∙ ground (arith, digit-two_pow j k)
  where
    half : 2 ^ suc k / 2 ≡ 2 ^ k
    half = omega (arith, pow-suc 2 k)

pub bit_or-below : (n a b : ℕ) → a < 2 ^ n → b < 2 ^ n → bit_or a b < 2 ^ n
bit_or-below zero zero zero ha hb = omega arith
bit_or-below zero (suc a) b ha hb = absurd (omega arith)
bit_or-below zero zero (suc b) ha hb = absurd (omega arith)
bit_or-below (suc n) a b ha hb =
    let twice = pow-suc 2 n in
    let rest = bit_or-below n (a / 2) (b / 2) (omega (arith, twice)) (omega (arith, twice)) in
    ground (arith, twice, rest, bit_or_step a b)

-- A number of `n` digits is the largest just where all of them are one.
pub digit-all_ones : (n a : ℕ) → a ≡ 2 ^ n - 1 → (j : ℕ) → j < n → digit j a ≡ 1
unfolding digit
digit-all_ones zero a h j lt = absurd (omega arith)
digit-all_ones (suc n) a h zero lt = ground (arith, pow-suc 2 n, one-le-pow n 2)
digit-all_ones (suc n) a h (suc j) lt =
    digit-all_ones n (a / 2) (omega (arith, pow-suc 2 n, one-le-pow n 2)) j (omega arith)

pub all_ones-digit : (n a : ℕ) → a < 2 ^ n → ((j : ℕ) → j < n → digit j a ≡ 1) → a ≡ 2 ^ n - 1
unfolding digit
all_ones-digit zero a h ones = omega arith
all_ones-digit (suc n) a h ones =
    let rest =
      all_ones-digit n (a / 2) (omega (arith, pow-suc 2 n)) (λ j lt. ones (suc j) (omega arith)) in
    omega (arith, pow-suc 2 n, one-le-pow n 2, rest, ones 0 (omega arith))

pub digit-below_two : (j a : ℕ) → digit j a < 2
unfolding digit
digit-below_two zero a = omega arith
digit-below_two (suc j) a = digit-below_two j (a / 2)
