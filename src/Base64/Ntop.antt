-- ===== src/Base64/Ntop.antt =====
-- `f_b64_ntop`: bytes to text.
use bw_watermyplants.Common.{
  ℕ, ◌+◌, ◌*◌, ◌/◌, ◌^◌, List, [], ◌∷◌, ◌++◌, if◌then◌else◌, ltb, leb, length, bit_and, u8, u64,
}
use bw_watermyplants.Base64.{pad64, digit}

-- What the function leaves: -1 with what was written before, or the text in front of the NUL, whose
-- length, converted to `int`, is returned.
pub data Written : Type 0 where
  failed : List ℕ → Written
  encoded : List ℕ → Written

-- `output[0]` to `output[3]` for three bytes of input
abbrev pub output0 : ℕ → ℕ
output0 a = u8 (a / 2 ^ 2)

abbrev pub output1 : ℕ → ℕ → ℕ
output1 a b = u8 (bit_and a 0x03 * 2 ^ 4 + b / 2 ^ 4)

abbrev pub output2 : ℕ → ℕ → ℕ
output2 b c = u8 (bit_and b 0x0f * 2 ^ 2 + c / 2 ^ 6)

abbrev pub output3 : ℕ → ℕ
output3 c = bit_and c 0x3f

-- The four characters of a whole group, and those of a last group of one and of two bytes.
unfoldable pub quad : ℕ → ℕ → ℕ → List ℕ
quad a b c = digit (output0 a) ∷ digit (output1 a b) ∷ digit (output2 b c) ∷ digit (output3 c) ∷ []

unfoldable pub quad_one : ℕ → List ℕ
quad_one a = digit (output0 a) ∷ digit (output1 a 0) ∷ pad64 ∷ pad64 ∷ []

unfoldable pub quad_two : ℕ → ℕ → List ℕ
quad_two a b = digit (output0 a) ∷ digit (output1 a b) ∷ digit (output2 b 0) ∷ pad64 ∷ []

-- `if (datalength >= targsize) return (-1);` and the NUL
unfoldable pub terminate : List ℕ → ℕ → Written
terminate target targsize = if leb targsize (length target) then failed target else encoded target

-- A last group, if there is room for its four characters.
unfoldable pub pad : List ℕ → List ℕ → ℕ → Written
unfolding terminate
pad group target targsize =
    if ltb targsize (u64 (length target + 4))
    then failed target
    else terminate (target ++ group) targsize

-- The rest of the input, with `target` written so far; `datalength` is its length.
unfoldable pub ntop_loop : List ℕ → List ℕ → ℕ → Written
ntop_loop [] target targsize = terminate target targsize
ntop_loop (a ∷ []) target targsize = pad (quad_one a) target targsize
ntop_loop (a ∷ b ∷ []) target targsize = pad (quad_two a b) target targsize
ntop_loop (a ∷ b ∷ c ∷ src) target targsize =
    let rest = ntop_loop src (target ++ quad a b c) targsize in
    if ltb targsize (u64 (length target + 4)) then failed target else rest

-- `f_b64_ntop(src, srclength, target, targsize)`: `src` is the `srclength` bytes at the pointer
unfoldable pub ntop : List ℕ → ℕ → Written
ntop src targsize = ntop_loop src [] targsize
