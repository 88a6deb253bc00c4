-- ===== src/Tests/Texts.antt =====
-- A word of five letters in base 64.
use bw_watermyplants.Common.{
  ℕ, ◌≤◌, ◌≡◌, refl, List, [], ◌∷◌, ◌++◌, some, arith, length, replicate, All, IsByte,
}
use bw_watermyplants.Common.Int.{pos}
use bw_watermyplants.Base64.{digit}
use bw_watermyplants.Base64.Ntop.{ntop_loop, pad, quad, quad_two, ntop, encoded, failed}
use bw_watermyplants.Base64.Pton.{pton, converted}
use bw_watermyplants.Base64.Text.{text, ntop-text, ntop_fails}
use bw_watermyplants.Base64.RoundTrip.{pton-ntop}

abbrev word : List ℕ
word = 112 ∷ 108 ∷ 97 ∷ 110 ∷ 116 ∷ []

word-IsBytes : All IsByte word
word-IsBytes = (omega arith, (omega arith, (omega arith, (omega arith, (omega arith, tt)))))

abbrev target : List ℕ
target = replicate 8 0

-- `cGxhbnQ=`
ntop-word : ntop word 9 ≡ encoded (99 ∷ 71 ∷ 120 ∷ 104 ∷ 98 ∷ 110 ∷ 81 ∷ 61 ∷ [])
unfolding ntop ntop_loop pad quad quad_two digit
ntop-word = refl

ntop-text_example : ntop word 9 ≡ encoded (text word)
ntop-text_example = ntop-text word 9 (omega arith) word-IsBytes (omega arith)

ntop_fails_example : (w : List ℕ) × (ntop word 8 ≡ failed w) × (length w ≤ 8)
ntop_fails_example = ntop_fails word 8 (omega arith) (omega arith)

pton-ntop_example :
    (t tail : List ℕ) × (ntop word 9 ≡ encoded t)
    × (pton t (some target) 6 ≡ converted (pos (length word), some (word ++ tail)))
    × (length (word ++ tail) ≡ length target)
pton-ntop_example =
    pton-ntop word target 9 6 word-IsBytes (omega arith) (omega arith) (omega arith) (omega arith)
      (omega arith) (omega arith)
