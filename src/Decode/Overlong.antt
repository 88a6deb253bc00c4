-- ===== src/Decode/Overlong.antt =====
-- Over-long varints: where `pb_decode_varint32` and `pb_decode_varint` part.
use bw_watermyplants.Common.{
  ℕ, zero, suc, ◌+◌, ◌*◌, ◌^◌, ◌≤◌, ◌<◌, ◌≡◌, refl, ◌∙◌, List, [], ◌∷◌, ◌++◌, Option, arith,
  replicate, length, All, u64, u8, leb, true, bit_and, bit_or,
}
use bw_watermyplants.Common.Bits.{bit_and-0x7f, bit_and-0x80, zero-bit_or}
use bw_watermyplants.Outcome.{done, fail, Errmsg, varint_overflow, set_error, bind_done, return}
use bw_watermyplants.Istream.Buffers.{stream, readbyte_cons}
use bw_watermyplants.Decode.{
  varint_loop, varint_round, decode_varint, received, varint32_loop, varint32_round, varint32_add,
  varint32_end, is_bad_extension, varint32_rest, decode_varint32_eof, no_eof, decode_varint32,
}
use bw_watermyplants.Decode.Varint32.{eof_first}

-- `bitpos` after so many more groups, in eight bits
abbrev bitpos_after : ℕ → ℕ → ℕ
bitpos_after zero bitpos = bitpos
bitpos_after (suc n) bitpos = bitpos_after n (u8 (bitpos + 7))

zero_round :
    (fuel bitpos : ℕ) (rest : List ℕ) (left : ℕ) (err : Option Errmsg)
    → varint32_loop (suc fuel) bitpos 0 (stream (0x80 ∷ rest) (suc left) err)
      ≡ varint32_loop fuel (u8 (bitpos + 7)) 0 (stream rest left err)
unfolding varint32_loop varint32_round varint32_add is_bad_extension
zero_round fuel bitpos rest left err = ground (arith, readbyte_cons 0x80 rest left err)

zero_rounds :
    (n fuel bitpos : ℕ) (rest : List ℕ) (left : ℕ) (err : Option Errmsg)
    → varint32_loop (n + fuel) bitpos 0 (stream (replicate n 0x80 ++ rest) (n + left) err)
      ≡ varint32_loop fuel (bitpos_after n bitpos) 0 (stream rest left err)
zero_rounds zero fuel bitpos rest left err =
    let e : 0 + fuel ≡ fuel = omega arith in let l : 0 + left ≡ left = omega arith in rw (e, l)
zero_rounds (suc n) fuel bitpos rest left err =
    let e : suc n + fuel ≡ suc (n + fuel) = omega arith in
    let l : suc n + left ≡ suc (n + left) = omega arith in
    rw (e, l)
      (zero_round (n + fuel) bitpos (replicate n 0x80 ++ rest) (n + left) err
        ∙ zero_rounds n fuel (u8 (bitpos + 7)) rest left err)

last_round :
    (fuel x : ℕ) (rest : List ℕ) (left : ℕ) (err : Option Errmsg)
    → x < 128
    → varint32_loop (suc fuel) 3 0 (stream (x ∷ rest) (suc left) err)
      ≡ done (x * 8) (stream rest left err)
unfolding varint32_loop varint32_round varint32_add varint32_end
last_round fuel x rest left err h =
    ground (
      arith,
      readbyte_cons x rest left err,
      bit_and-0x80 x,
      bit_and-0x7f x,
      zero-bit_or (x * 2 ^ 3),
    )

module _ (x : ℕ) (rest : List ℕ) (left : ℕ) (err : Option Errmsg) (small : x < 128) where
  -- On 37 bytes 0x80 and one byte below 128 `pb_decode_varint32` returns true with eight times the last
  -- byte: `bitpos` has come round to 3. All the bytes stand for zero, and the last one for bit 259.
  pub decode_varint32_comes_round :
      decode_varint32 (stream (replicate 37 0x80 ++ x ∷ rest) (38 + left) err)
      ≡ done (x * 8) (stream rest left err)
  unfolding decode_varint32 no_eof varint32_rest
  decode_varint32_comes_round =
      let e : 38 + left ≡ suc (36 + suc left) = omega arith in
      let f : 36 + suc left + 1 ≡ 36 + suc (left + 1) = omega arith in
      rw e (
        bind_done decode_varint32_eof no_eof (
          eof_first 0x80 (replicate 36 0x80 ++ x ∷ rest) (36 + suc left) err
          ∙ bind_done (varint32_rest 0x80) (λ result. return (received result))
              (rw f (
                zero_rounds 36 (suc (left + 1)) 7 (x ∷ rest) (suc left) err
                ∙ last_round (left + 1) x rest left err small))))

continued_round :
    (fuel bitpos acc byte : ℕ) (rest : List ℕ) (left : ℕ) (err : Option Errmsg)
    → bitpos < 64
    → 128 ≤ byte
    → byte < 256
    → varint_loop (suc fuel) bitpos acc (stream (byte ∷ rest) (suc left) err)
      ≡ varint_loop fuel
          (bitpos + 7)
          (bit_or acc (u64 (bit_and byte 0x7f * 2 ^ bitpos)))
          (stream rest left err)
unfolding varint_loop varint_round
continued_round fuel bitpos acc byte rest left err hb lo hw =
    ground (arith, readbyte_cons byte rest left err, bit_and-0x80 byte)

continued_rounds :
    (n bitpos acc : ℕ) (bytes rest : List ℕ) (left : ℕ) (err : Option Errmsg)
    → length bytes ≡ n
    → bitpos + 7 * n ≡ 70
    → All (λ b. 128 ≤ b × b < 256) bytes
    → varint_loop (suc n) bitpos acc (stream (bytes ++ rest) (n + left) err)
      ≡ fail (stream rest left (set_error err varint_overflow))
unfolding varint_loop
continued_rounds zero bitpos acc [] rest left err hn hb large =
    let l : 0 + left ≡ left = omega arith in
    let t : leb 64 bitpos ≡ true = ground arith in rw (l, t)
continued_rounds zero bitpos acc (b ∷ bytes) rest left err hn hb large = absurd (omega arith)
continued_rounds (suc n) bitpos acc [] rest left err hn hb large = absurd (omega arith)
continued_rounds (suc n) bitpos acc (b ∷ bytes) rest left err hn hb (large, others) =
    let l : suc n + left ≡ suc (n + left) = omega arith in
    rw l (
      continued_round (suc n) bitpos acc b (bytes ++ rest) (n + left) err (omega arith) large.0
        large.1
      ∙ continued_rounds n (bitpos + 7) (bit_or acc (u64 (bit_and b 0x7f * 2 ^ bitpos))) bytes rest
          left err (omega arith) (omega arith) others)

-- On ten bytes that each have the top bit set `pb_decode_varint` returns false with "varint overflow",
-- whatever follows, and has read just the ten.
pub decode_varint_overflows :
    (bytes rest : List ℕ) (left : ℕ) (err : Option Errmsg)
    → length bytes ≡ 10
    → All (λ b. 128 ≤ b × b < 256) bytes
    → decode_varint (stream (bytes ++ rest) (10 + left) err)
      ≡ fail (stream rest left (set_error err varint_overflow))
unfolding decode_varint
decode_varint_overflows bytes rest left err ten large =
    continued_rounds 10 0 0 bytes rest left err ten refl large
