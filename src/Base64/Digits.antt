-- ===== src/Base64/Digits.antt =====
-- The alphabet, checked over its 64 characters.
use bw_watermyplants.Common.{
  ℕ, ◌<◌, ◌≡◌, refl, Bool, true, false, Option, none, some, ◌==◌, arith, if◌then◌else◌,
}
use bw_watermyplants.Common.Bits.{passes_below, passes_below-at}
use bw_watermyplants.Base64.{digit, position, isspace, pad64}

abbrev is_some_of : ℕ → Option ℕ → Bool
is_some_of v none = false
is_some_of v (some w) = w == v

is_some_of_lem : (v : ℕ) (o : Option ℕ) → is_some_of v o ≡ true → o ≡ some v
is_some_of_lem v none h = cc
is_some_of_lem v (some w) h = ground arith

module _ (v : ℕ) (h : v < 64) where
  pub position-digit : position (digit v) ≡ some v
  unfolding passes_below position digit
  position-digit =
      is_some_of_lem v _ (passes_below-at (λ x. is_some_of x (position (digit x))) 64 v h refl)

  pub digit-ne-nul : (digit v == 0) ≡ false
  unfolding passes_below digit
  digit-ne-nul =
      ground (arith, passes_below-at (λ x. if digit x == 0 then false else true) 64 v h refl)

  pub digit-ne-pad64 : (digit v == pad64) ≡ false
  unfolding passes_below digit
  digit-ne-pad64 =
      ground (arith, passes_below-at (λ x. if digit x == pad64 then false else true) 64 v h refl)

  pub isspace-digit : isspace (digit v) ≡ false
  unfolding passes_below isspace digit
  isspace-digit =
      ground (arith, passes_below-at (λ x. if isspace (digit x) then false else true) 64 v h refl)
