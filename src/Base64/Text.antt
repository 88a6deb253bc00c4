-- ===== src/Base64/Text.antt =====
-- What `f_b64_ntop` writes, and when it has room for it.
use bw_watermyplants.Common.{
  ℕ, ◌+◌, ◌-◌, ◌*◌, ◌/◌, ◌%◌, ◌^◌, ◌≤◌, ◌<◌, ◌≡◌, refl, ap, ◌∙◌, List, [], ◌∷◌, arith, All, ltb,
  ◌==◌, if◌then◌else◌, length, IsByte,
}
use bw_watermyplants.Common.Bits.{passes_below, passes_below-at}
use bw_watermyplants.Common.Tests.{==_iff}
use bw_watermyplants.Base64.{digit}
use bw_watermyplants.Base64.Ntop.{
  failed, encoded, output0, output1, output2, output3, quad, quad_one, quad_two, ntop,
}
use bw_watermyplants.Base64.Groups.{output1_lem, output2_lem, output3_lem, outputs_small}
use bw_watermyplants.Base64.Loop.{groups, length-groups, ntop_loop-groups, ntop_loop-Fails}

-- The character of a digit below 64: the capital letters, the small letters, the ciphers, `+` and `/`
unfoldable pub character : ℕ → ℕ
character d =
    if ltb d 26
    then 65 + d
    else if ltb d 52
    then 97 + (d - 26)
    else if ltb d 62
    then 48 + (d - 52)
    else if d == 62
    then 43
    else 47

-- Three bytes as a number of 24 bits
abbrev pub number : ℕ → ℕ → ℕ → ℕ
number a b c = a * 2 ^ 16 + b * 2 ^ 8 + c

-- The character of the digit of `n` in base 64 that has `k` digits behind it
abbrev pub place : ℕ → ℕ → ℕ
place n k = character (n / 2 ^ (6 * k) % 64)

-- The base-64 text of a list of bytes: three bytes are a number of 24 bits, which is written with four
-- digits. Bytes that are missing in the last group count as 0, and `=` (61) stands for the digits that
-- none of its bytes reaches.
unfoldable pub text : List ℕ → List ℕ
text [] = []
text (a ∷ []) = let n = number a 0 0 in place n 3 ∷ place n 2 ∷ 61 ∷ 61 ∷ []
text (a ∷ b ∷ []) = let n = number a b 0 in place n 3 ∷ place n 2 ∷ place n 1 ∷ 61 ∷ []
text (a ∷ b ∷ c ∷ src) =
    let n = number a b c in place n 3 ∷ place n 2 ∷ place n 1 ∷ place n 0 ∷ text src

digit-character : (v : ℕ) → v < 64 → digit v ≡ character v
unfolding passes_below digit character
digit-character v h = (==_iff _ _).0 (passes_below-at (λ x. digit x == character x) 64 v h refl)

-- The digits of three bytes are those of their number.
module _ (a b c : ℕ) (ha : IsByte a) (hb : IsByte b) (hc : IsByte c) where
  digit0 : digit (output0 a) ≡ place (number a b c) 3
  digit0 =
      let (small, _, _, _) = outputs_small a b c ha hb hc in
      digit-character (output0 a) small ∙ ap character (omega arith)

  digit1 : digit (output1 a b) ≡ place (number a b c) 2
  digit1 =
      let (_, small, _, _) = outputs_small a b c ha hb hc in
      digit-character (output1 a b) small ∙ ap character (omega (arith, output1_lem a b c ha hb hc))

  digit2 : digit (output2 b c) ≡ place (number a b c) 1
  digit2 =
      let (_, _, small, _) = outputs_small a b c ha hb hc in
      digit-character (output2 b c) small ∙ ap character (omega (arith, output2_lem a b c ha hb hc))

  digit3 : digit (output3 c) ≡ place (number a b c) 0
  digit3 =
      let (_, _, _, small) = outputs_small a b c ha hb hc in
      digit-character (output3 c) small ∙ ap character (omega (arith, output3_lem a b c ha hb hc))

groups-text : (src : List ℕ) → All IsByte src → groups src ≡ text src
unfolding groups text quad quad_one quad_two
groups-text [] _ = refl
groups-text (a ∷ []) (ha, _) =
    rw (digit0 a 0 0 ha (omega arith) (omega arith), digit1 a 0 0 ha (omega arith) (omega arith))
      refl
groups-text (a ∷ b ∷ []) (ha, (hb, _)) =
    rw
      (
        digit0 a b 0 ha hb (omega arith),
        digit1 a b 0 ha hb (omega arith),
        digit2 a b 0 ha hb (omega arith),
      )
      refl
groups-text (a ∷ b ∷ c ∷ src) (ha, (hb, (hc, bytes))) =
    rw
      (
        digit0 a b c ha hb hc,
        digit1 a b c ha hb hc,
        digit2 a b c ha hb hc,
        digit3 a b c ha hb hc,
        groups-text src bytes,
      )
      refl

module _ (src : List ℕ) (targsize : ℕ) (wide : targsize + 4 < 2 ^ 64) where
  -- On any list of numbers `f_b64_ntop` writes the groups of its loop.
  pub ntop-groups : (length src + 2) / 3 * 4 < targsize → ntop src targsize ≡ encoded (groups src)
  unfolding ntop
  ntop-groups h = ntop_loop-groups targsize wide src [] (omega (arith, length-groups src))

  -- With room for four characters for each three bytes or part of three, and for the NUL, in a target of
  -- fewer than 2^64 - 4 bytes, `f_b64_ntop` writes the base-64 text of the bytes: four digits for the 24
  -- bits of three bytes, the most significant one first, in the alphabet of the standard, and `=` behind
  -- the digits of one or two last bytes.
  pub ntop-text :
      All IsByte src → (length src + 2) / 3 * 4 < targsize → ntop src targsize ≡ encoded (text src)
  ntop-text bytes h = ntop-groups h ∙ ap encoded (groups-text src bytes)

  -- With room for no more than four characters for each three bytes or part of three, in a target of
  -- fewer than 2^64 - 4 bytes, `f_b64_ntop` returns -1, and what it wrote before lies inside the target.
  pub ntop_fails :
      targsize ≤ (length src + 2) / 3 * 4
      → (w : List ℕ) × (ntop src targsize ≡ failed w) × (length w ≤ targsize)
  unfolding ntop
  ntop_fails h =
      ntop_loop-Fails targsize wide src [] (omega arith) (omega (arith, length-groups src))
