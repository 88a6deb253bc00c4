-- ===== src/Base64/Decode.antt =====
-- `f_b64_pton` on the characters that `f_b64_ntop` writes, one round of its loop after the other.
use bw_watermyplants.Common.{
  ℕ, zero, suc, ◌+◌, ◌*◌, ◌/◌, ◌^◌, ◌<◌, ◌≡◌, refl, List, [], ◌∷◌, ◌++◌, some, arith, leb, false,
  length, length-append, append_assoc, bit_and, bit_or, u8, u32, IsU32,
}
use bw_watermyplants.Base64.{digit}
use bw_watermyplants.Base64.Digits.{position-digit, digit-ne-nul, digit-ne-pad64, isspace-digit}
use bw_watermyplants.Base64.Pton.{
  Phase, phase0, phase1, phase2, phase3, Cursor, converted, ◌>>=◌, assign, or_into, take_digit,
  pton_loop,
}

assign_at :
    (before : List ℕ) (i x v : ℕ) (after : List ℕ)
    → i ≡ length before
    → assign (before ++ x ∷ after) i v ≡ converted (before ++ u8 v ∷ after)
unfolding assign
assign_at [] zero x v after h = refl
assign_at [] (suc i) x v after h = absurd (omega arith)
assign_at (b ∷ bs) zero x v after h = absurd (omega arith)
assign_at (b ∷ bs) (suc i) x v after h = rw (assign_at bs i x v after (omega arith))

or_into_at :
    (before : List ℕ) (i x v : ℕ) (after : List ℕ)
    → i ≡ length before
    → or_into (before ++ x ∷ after) i v ≡ converted (before ++ u8 (bit_or x v) ∷ after)
unfolding or_into
or_into_at [] zero x v after h = refl
or_into_at [] (suc i) x v after h = absurd (omega arith)
or_into_at (b ∷ bs) zero x v after h = absurd (omega arith)
or_into_at (b ∷ bs) (suc i) x v after h = rw (or_into_at bs i x v after (omega arith))

-- One cell further on
assign_behind :
    (before : List ℕ) (i x y v : ℕ) (after : List ℕ)
    → i ≡ length before + 1
    → assign (before ++ x ∷ y ∷ after) i v ≡ converted (before ++ x ∷ u8 v ∷ after)
assign_behind before i x y v after h =
    rw (append_assoc before (x ∷ []) (y ∷ after), append_assoc before (x ∷ []) (u8 v ∷ after)) at
      (assign_at (before ++ x ∷ []) i y v after (omega (arith, length-append before (x ∷ []))))

abbrev pub cursor : Phase → ℕ → List ℕ → Cursor
cursor p i memory = record { state = p; tarindex = i; target = some memory }

-- A character of the alphabet goes to the `switch`.
pub pton_loop-digit :
    (v : ℕ) (src : List ℕ) (targsize : ℕ) (c : Cursor)
    → v < 64
    → pton_loop (digit v ∷ src) targsize c ≡ (take_digit v targsize c >>= pton_loop src targsize)
unfolding pton_loop
pton_loop-digit v src targsize c h =
    rw (digit-ne-nul v h, isspace-digit v h, digit-ne-pad64 v h, position-digit v h)

module _ (targsize : ℕ) (small : IsU32 targsize) (before : List ℕ) (i : ℕ)
    (place : i ≡ length before) (v : ℕ) where
  pub take_digit0 :
      (x : ℕ) (after : List ℕ)
      → i < targsize
      → take_digit v targsize (cursor phase0 i (before ++ x ∷ after))
        ≡ converted (cursor phase1 i (before ++ u8 (v * 2 ^ 2) ∷ after))
  unfolding take_digit
  take_digit0 x after h =
      let t : leb targsize i ≡ false = ground arith in
      rw (t, assign_at before i x (v * 2 ^ 2) after place)

  pub take_digit1 :
      (x y : ℕ) (after : List ℕ)
      → i + 1 < targsize
      → take_digit v targsize (cursor phase1 i (before ++ x ∷ y ∷ after))
        ≡ converted (
            cursor phase2
              (i + 1)
              (before ++ u8 (bit_or x (v / 2 ^ 4)) ∷ u8 (bit_and v 0x0f * 2 ^ 4) ∷ after))
  unfolding take_digit
  take_digit1 x y after h =
      let t : leb targsize (i + 1) ≡ false = ground arith in
      let e : u32 (i + 1) ≡ i + 1 = omega arith in
      rw (
        e,
        t,
        or_into_at before i x (v / 2 ^ 4) (y ∷ after) place,
        assign_behind before (i + 1) (u8 (bit_or x (v / 2 ^ 4))) y (bit_and v 0x0f * 2 ^ 4) after
            (omega arith),
      )

  pub take_digit2 :
      (x y : ℕ) (after : List ℕ)
      → i + 1 < targsize
      → take_digit v targsize (cursor phase2 i (before ++ x ∷ y ∷ after))
        ≡ converted (
            cursor phase3
              (i + 1)
              (before ++ u8 (bit_or x (v / 2 ^ 2)) ∷ u8 (bit_and v 0x03 * 2 ^ 6) ∷ after))
  unfolding take_digit
  take_digit2 x y after h =
      let t : leb targsize (i + 1) ≡ false = ground arith in
      let e : u32 (i + 1) ≡ i + 1 = omega arith in
      rw (
        e,
        t,
        or_into_at before i x (v / 2 ^ 2) (y ∷ after) place,
        assign_behind before (i + 1) (u8 (bit_or x (v / 2 ^ 2))) y (bit_and v 0x03 * 2 ^ 6) after
            (omega arith),
      )

  pub take_digit3 :
      (x : ℕ) (after : List ℕ)
      → i < targsize
      → take_digit v targsize (cursor phase3 i (before ++ x ∷ after))
        ≡ converted (cursor phase0 (i + 1) (before ++ u8 (bit_or x v) ∷ after))
  unfolding take_digit
  take_digit3 x after h =
      let t : leb targsize i ≡ false = ground arith in
      let e : u32 (i + 1) ≡ i + 1 = omega arith in rw (e, t, or_into_at before i x v after place)
