-- ===== src/Base64/Groups.antt =====
-- One group of four characters gives back its three bytes.
use bw_watermyplants.Common.{
  ℕ, ◌+◌, ◌*◌, ◌/◌, ◌%◌, ◌^◌, ◌<◌, ◌≡◌, ap, ◌∙◌, List, ◌∷◌, ◌++◌, arith, length, bit_and, bit_or,
  u8, IsByte, IsU32,
}
use bw_watermyplants.Common.Bits.{bit_and-mask, shifted-bit_or}
use bw_watermyplants.Base64.{digit}
use bw_watermyplants.Base64.Ntop.{output0, output1, output2, output3}
use bw_watermyplants.Base64.Pton.{
  Cursor, phase0, phase1, phase2, phase3, converted, ◌>>=◌, take_digit, pton_loop,
}
use bw_watermyplants.Base64.Decode.{
  cursor, pton_loop-digit, take_digit0, take_digit1, take_digit2, take_digit3,
}

module _ (a b c : ℕ) (ha : IsByte a) (hb : IsByte b) (hc : IsByte c) where
  pub output1_lem : output1 a b ≡ a % 4 * 16 + b / 16
  output1_lem = omega (arith, bit_and-mask 2 a)

  pub output2_lem : output2 b c ≡ b % 16 * 4 + c / 64
  output2_lem = omega (arith, bit_and-mask 4 b)

  pub output3_lem : output3 c ≡ c % 64
  output3_lem = bit_and-mask 6 c

  pub outputs_small : (output0 a < 64) × (output1 a b < 64) × (output2 b c < 64) × (output3 c < 64)
  outputs_small = (
    omega arith,
    omega (arith, output1_lem),
    omega (arith, output2_lem),
    omega (arith, output3_lem),
  )

  byte0 : u8 (output0 a * 2 ^ 2) ≡ a / 4 * 4
  byte0 = omega arith

  byte1 :
      (u8 (bit_or (a / 4 * 4) (output1 a b / 2 ^ 4)) ≡ a)
      × (u8 (bit_and (output1 a b) 0x0f * 2 ^ 4) ≡ b / 16 * 16)
  byte1 =
      let e : output1 a b / 2 ^ 4 ≡ a % 4 = omega (arith, output1_lem) in
      (
        rw e (omega (arith, shifted-bit_or 2 (a / 4) (a % 4) (omega arith))),
        omega (arith, output1_lem, bit_and-mask 4 (output1 a b)),
      )

  byte2 :
      (u8 (bit_or (b / 16 * 16) (output2 b c / 2 ^ 2)) ≡ b)
      × (u8 (bit_and (output2 b c) 0x03 * 2 ^ 6) ≡ c / 64 * 64)
  byte2 =
      let e : output2 b c / 2 ^ 2 ≡ b % 16 = omega (arith, output2_lem) in
      (
        rw e (omega (arith, shifted-bit_or 4 (b / 16) (b % 16) (omega arith))),
        omega (arith, output2_lem, bit_and-mask 2 (output2 b c)),
      )

  byte3 : u8 (bit_or (c / 64 * 64) (output3 c)) ≡ c
  byte3 = rw output3_lem (omega (arith, shifted-bit_or 6 (c / 64) (c % 64) (omega arith)))

  module _ (targsize : ℕ) (small : IsU32 targsize) (before : List ℕ) (i : ℕ)
      (place : i ≡ length before) (rest : List ℕ) where
    pub round0 :
        (x : ℕ)
        → i < targsize
        → take_digit (output0 a) targsize (cursor phase0 i (before ++ x ∷ rest))
          ≡ converted (cursor phase1 i (before ++ a / 4 * 4 ∷ rest))
    round0 x h = rw byte0 at (take_digit0 targsize small before i place (output0 a) x rest h)

    pub round1 :
        (y : ℕ)
        → i + 1 < targsize
        → take_digit (output1 a b) targsize (cursor phase1 i (before ++ a / 4 * 4 ∷ y ∷ rest))
          ≡ converted (cursor phase2 (i + 1) (before ++ a ∷ b / 16 * 16 ∷ rest))
    round1 y h =
        let (p, q) = byte1 in
        rw (p, q) at (take_digit1 targsize small before i place (output1 a b) (a / 4 * 4) y rest h)

    pub round2 :
        (y : ℕ)
        → i + 1 < targsize
        → take_digit (output2 b c) targsize (cursor phase2 i (before ++ b / 16 * 16 ∷ y ∷ rest))
          ≡ converted (cursor phase3 (i + 1) (before ++ b ∷ c / 64 * 64 ∷ rest))
    round2 y h =
        let (p, q) = byte2 in
        rw (p, q) at
          (take_digit2 targsize small before i place (output2 b c) (b / 16 * 16) y rest h)

    pub round3 :
        i < targsize
        → take_digit (output3 c) targsize (cursor phase3 i (before ++ c / 64 * 64 ∷ rest))
          ≡ converted (cursor phase0 (i + 1) (before ++ c ∷ rest))
    round3 h =
        rw byte3 at (take_digit3 targsize small before i place (output3 c) (c / 64 * 64) rest h)

-- One character of the alphabet that the `switch` takes.
pub digit_step :
    (v : ℕ) (src : List ℕ) (targsize : ℕ) (c : Cursor) {c' : Cursor}
    → v < 64
    → take_digit v targsize c ≡ converted c'
    → pton_loop (digit v ∷ src) targsize c ≡ pton_loop src targsize c'
digit_step v src targsize c h e =
    pton_loop-digit v src targsize c h ∙ ap (λ r. r >>= pton_loop src targsize) e
