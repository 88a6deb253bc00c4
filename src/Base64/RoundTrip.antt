-- ===== src/Base64/RoundTrip.antt =====
-- `f_b64_pton` on the text of `f_b64_ntop`.
use bw_watermyplants.Common.{
  ℕ, zero, suc, ◌+◌, ◌*◌, ◌/◌, ◌≤◌, ◌<◌, ◌≡◌, refl, sym, ap, ◌∙◌, List, [], ◌∷◌, ◌++◌, Option, some,
  arith, All, length, length-append, append_assoc, append-nil, ◌^◌, IsByte, IsU32, ltb, true,
}
use bw_watermyplants.Common.Int.{ℤ, pos, signed32}
use bw_watermyplants.Base64.{digit, pad64, isspace}
use bw_watermyplants.Base64.Ntop.{
  output0, output1, output2, output3, quad, quad_one, quad_two, ntop, encoded,
}
use bw_watermyplants.Base64.Pton.{
  Phase, phase0, phase2, phase3, Cursor, Converted, converted, ◌>>=◌, at_pad, second_pad,
  behind_pads, no_extra_bits, byte_in, at_end, pton_loop, pton,
}
use bw_watermyplants.Base64.Decode.{cursor}
use bw_watermyplants.Base64.Loop.{groups}
use bw_watermyplants.Base64.Text.{ntop-groups}
use bw_watermyplants.Base64.Groups.{outputs_small, round0, round1, round2, round3, digit_step}

byte_in_at :
    (before : List ℕ) (x i : ℕ) (after : List ℕ)
    → i ≡ length before
    → byte_in (before ++ x ∷ after) i ≡ some x
unfolding byte_in
byte_in_at [] x zero after h = refl
byte_in_at [] x (suc i) after h = absurd (omega arith)
byte_in_at (b ∷ bs) x zero after h = absurd (omega arith)
byte_in_at (b ∷ bs) x (suc i) after h = byte_in_at bs x i after (omega arith)

-- The padding behind a byte that is zero.
pad_step :
    (src : List ℕ) (targsize : ℕ) (c : Cursor) → pton_loop (pad64 ∷ src) targsize c ≡ at_pad src c
unfolding pton_loop isspace
pad_step src targsize c = refl

module _ (before : List ℕ) (i : ℕ) (place : i ≡ length before) (after : List ℕ) (targsize : ℕ) where
  no_bits :
      (p : Phase)
      → no_extra_bits (cursor p i (before ++ 0 ∷ after))
        ≡ converted (cursor p i (before ++ 0 ∷ after))
  unfolding no_extra_bits
  no_bits p = rw (no_extra_bits, byte_in_at before 0 i after place)

  one_pad :
      pton_loop (pad64 ∷ []) targsize (cursor phase3 i (before ++ 0 ∷ after))
      ≡ converted (cursor phase3 i (before ++ 0 ∷ after))
  unfolding at_pad behind_pads
  one_pad = pad_step [] targsize (cursor phase3 i (before ++ 0 ∷ after)) ∙ no_bits phase3

  two_pads :
      pton_loop (pad64 ∷ pad64 ∷ []) targsize (cursor phase2 i (before ++ 0 ∷ after))
      ≡ converted (cursor phase2 i (before ++ 0 ∷ after))
  unfolding at_pad second_pad behind_pads isspace
  two_pads = pad_step (pad64 ∷ []) targsize (cursor phase2 i (before ++ 0 ∷ after)) ∙ no_bits phase2

module _ (targsize : ℕ) (small : IsU32 targsize) (a b c : ℕ) (ha : IsByte a) (hb : IsByte b)
    (hc : IsByte c) (before : List ℕ) (i : ℕ) (place : i ≡ length before) (x y : ℕ) where
  place_next : i + 1 ≡ length (before ++ a ∷ [])
  place_next = omega (arith, length-append before (a ∷ []))

  next_cell : (tail : List ℕ) → before ++ a ∷ tail ≡ (before ++ a ∷ []) ++ tail
  next_cell tail = rw append_assoc

  two_digits :
      (src rest : List ℕ)
      → i + 1 < targsize
      → pton_loop
          (digit (output0 a) ∷ digit (output1 a b) ∷ src)
          targsize
          (cursor phase0 i (before ++ x ∷ y ∷ rest))
        ≡ pton_loop src targsize (cursor phase2 (i + 1) ((before ++ a ∷ []) ++ b / 16 * 16 ∷ rest))
  two_digits src rest h =
      let (s0, s1, s2, s3) = outputs_small a b c ha hb hc in
      digit_step (output0 a) (digit (output1 a b) ∷ src) targsize _ s0
        (round0 a b c ha hb hc targsize small before i place (y ∷ rest) x (omega arith))
      ∙ digit_step (output1 a b) src targsize _ s1
          (round1 a b c ha hb hc targsize small before i place rest y h)
      ∙ ap (λ m. pton_loop src targsize (cursor phase2 (i + 1) m)) (next_cell (b / 16 * 16 ∷ rest))

  three_digits :
      (z : ℕ) (src rest : List ℕ)
      → i + 2 < targsize
      → pton_loop
          (digit (output0 a) ∷ digit (output1 a b) ∷ digit (output2 b c) ∷ src)
          targsize
          (cursor phase0 i (before ++ x ∷ y ∷ z ∷ rest))
        ≡ pton_loop src targsize
            (cursor phase3 (i + 1 + 1) ((before ++ a ∷ []) ++ b ∷ c / 64 * 64 ∷ rest))
  three_digits z src rest h =
      let (s0, s1, s2, s3) = outputs_small a b c ha hb hc in
      two_digits (digit (output2 b c) ∷ src) (z ∷ rest) (omega arith)
      ∙ digit_step (output2 b c) src targsize _ s2 (
          round2 a b c ha hb hc targsize small (before ++ a ∷ []) (i + 1) place_next rest z
            (omega arith))

  four_digits :
      (z : ℕ) (src rest : List ℕ)
      → i + 2 < targsize
      → pton_loop (quad a b c ++ src) targsize (cursor phase0 i (before ++ x ∷ y ∷ z ∷ rest))
        ≡ pton_loop src targsize (cursor phase0 (i + 3) ((before ++ a ∷ b ∷ c ∷ []) ++ rest))
  unfolding quad
  four_digits z src rest h =
      let (s0, s1, s2, s3) = outputs_small a b c ha hb hc in
      let e : i + 1 + 1 + 1 ≡ i + 3 = omega arith in
      let cells : ((before ++ a ∷ []) ++ b ∷ []) ++ c ∷ rest ≡ (before ++ a ∷ b ∷ c ∷ []) ++ rest =
        append_assoc (before ++ a ∷ []) (b ∷ []) (c ∷ rest)
        ∙ append_assoc before (a ∷ []) (b ∷ c ∷ rest)
        ∙ sym (append_assoc before (a ∷ b ∷ c ∷ []) rest) in
      three_digits z (digit (output3 c) ∷ src) rest h
      ∙ ap (λ m. pton_loop (digit (output3 c) ∷ src) targsize (cursor phase3 (i + 1 + 1) m))
          (sym (append_assoc (before ++ a ∷ []) (b ∷ []) (c / 64 * 64 ∷ rest)))
      ∙ digit_step (output3 c) src targsize _ s3 (
          round3 a b c ha hb hc targsize small ((before ++ a ∷ []) ++ b ∷ []) (i + 1 + 1)
            (omega (arith, place_next, length-append (before ++ a ∷ []) (b ∷ []))) rest
            (omega arith))
      ∙ rw (e, cells)

-- The loop ends with all of `src` in the target, behind `before`.
record Ends (before src rest : List ℕ) (i : ℕ) (o : Converted Cursor) : Type 0 where
  last : Cursor
  tail : List ℕ
  returns : o ≡ converted last
  index : last.tarindex ≡ i + length src
  memory : last.target ≡ some ((before ++ src) ++ tail)
  size : length tail + length src ≡ length rest

module _ (targsize : ℕ) (small : IsU32 targsize) where
  pton_loop-groups :
      (src before : List ℕ) (i : ℕ) (rest : List ℕ)
      → i ≡ length before
      → All IsByte src
      → length src + 1 ≤ length rest
      → i + length src + 1 ≤ targsize
      → Ends before src rest i (pton_loop (groups src) targsize (cursor phase0 i (before ++ rest)))
  unfolding groups quad_one quad_two pton_loop at_end
  pton_loop-groups [] before i rest place bytes room fits = record {
    last = cursor phase0 i (before ++ rest);
    tail = rest;
    returns = refl;
    index = omega arith;
    memory = rw append-nil;
    size = omega arith;
  }
  pton_loop-groups (a ∷ []) before i (x ∷ y ∷ rest) place (ha, _) room fits = record {
    last = cursor phase2 (i + 1) ((before ++ a ∷ []) ++ 0 ∷ rest);
    tail = 0 ∷ rest;
    returns =
        two_digits targsize small a 0 0 ha (omega arith) (omega arith) before i place x y
          (pad64 ∷ pad64 ∷ []) rest (omega arith)
        ∙ two_pads (before ++ a ∷ []) (i + 1) (omega (arith, length-append before (a ∷ []))) rest
            targsize;
    index = omega arith;
    memory = refl;
    size = omega arith;
  }
  pton_loop-groups (a ∷ b ∷ []) before i (x ∷ y ∷ z ∷ rest) place (ha, (hb, _)) room fits = record {
    last = cursor phase3 (i + 1 + 1) ((before ++ a ∷ b ∷ []) ++ 0 ∷ rest);
    tail = 0 ∷ rest;
    returns =
        let cells : (before ++ a ∷ []) ++ b ∷ 0 ∷ rest ≡ (before ++ a ∷ b ∷ []) ++ 0 ∷ rest =
          append_assoc before (a ∷ []) (b ∷ 0 ∷ rest)
          ∙ sym (append_assoc before (a ∷ b ∷ []) (0 ∷ rest)) in
        three_digits targsize small a b 0 ha hb (omega arith) before i place x y z (pad64 ∷ []) rest
          (omega arith)
        ∙ ap (λ m. pton_loop (pad64 ∷ []) targsize (cursor phase3 (i + 1 + 1) m)) cells
        ∙ one_pad (before ++ a ∷ b ∷ []) (i + 1 + 1)
            (omega (arith, length-append before (a ∷ b ∷ []))) rest targsize;
    index = omega arith;
    memory = refl;
    size = omega arith;
  }
  pton_loop-groups (a ∷ b ∷ c ∷ src) before i (x ∷ y ∷ z ∷ rest) place (ha, (hb, (hc, bytes))) room
        fits =
      let more =
        pton_loop-groups src (before ++ a ∷ b ∷ c ∷ []) (i + 3) rest
          (omega (arith, length-append before (a ∷ b ∷ c ∷ []))) bytes (omega arith)
          (omega arith) in
      record {
        last = more.last;
        tail = more.tail;
        returns =
            four_digits targsize small a b c ha hb hc before i place x y z (groups src) rest
              (omega arith)
            ∙ more.returns;
        index = omega (arith, more.index);
        memory = more.memory ∙ rw (append_assoc before (a ∷ b ∷ c ∷ []) src);
        size = omega (arith, more.size);
      }
  pton_loop-groups (a ∷ _) before i [] place bytes room fits = absurd (omega arith)
  pton_loop-groups (a ∷ _) before i (x ∷ []) place bytes room fits = absurd (omega arith)
  pton_loop-groups (a ∷ b ∷ _) before i (x ∷ y ∷ []) place bytes room fits = absurd (omega arith)

abbrev result : Cursor → Converted (ℤ × Option (List ℕ))
result c = converted (signed32 c.tarindex, c.target)

result_at_start :
    {src memory : List ℕ} {o : Converted Cursor} (e : Ends [] src memory 0 o)
    → length src < 2 ^ 31
    → result e.last ≡ converted (pos (length src), some (src ++ e.tail))
result_at_start {src} e few =
    let i : e.last.tarindex ≡ length src = omega (arith, e.index) in
    let sign : ltb (length src) (2 ^ 31) ≡ true = ground arith in rw (i, e.memory, sign)

-- What `f_b64_ntop` makes of fewer than 2^31 bytes, with room for the text and its NUL in a target of
-- fewer than 2^64 - 4 bytes, `f_b64_pton` turns back: with a `targsize` of 32 bits and one byte more than
-- there are, all of them memory, it returns their number as an `int`, they stand at the start of the
-- target, and the target keeps its length.
pub pton-ntop :
    (src memory : List ℕ) (n targsize : ℕ)
    → All IsByte src
    → length src < 2 ^ 31
    → n + 4 < 2 ^ 64
    → (length src + 2) / 3 * 4 < n
    → IsU32 targsize
    → length src + 1 ≤ targsize
    → targsize ≤ length memory
    → (t tail : List ℕ) × (ntop src n ≡ encoded t)
      × (pton t (some memory) targsize ≡ converted (pos (length src), some (src ++ tail)))
      × (length (src ++ tail) ≡ length memory)
unfolding pton
pton-ntop src memory n targsize bytes few wide fits small room inside =
    let e =
      pton_loop-groups targsize small src [] 0 memory refl bytes (omega arith) (omega arith) in
    (
      groups src,
      e.tail,
      ntop-groups src n wide fits,
      ap (λ o. o >>= result) e.returns ∙ result_at_start e few,
      omega (arith, length-append src e.tail, e.size),
    )
