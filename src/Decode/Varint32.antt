-- ===== src/Decode/Varint32.antt =====
-- `pb_decode_varint32` on what `pb_encode_varint` writes.
use bw_watermyplants.Common.{
  ℕ, zero, suc, ◌+◌, ◌-◌, ◌*◌, ◌/◌, ◌%◌, ◌^◌, ◌≤◌, ◌<◌, ◌≡◌, refl, ◌∙◌, inl, inr, List, ◌∷◌, ◌++◌,
  true, false, Option, arith, ltb, leb, Bool-cases, length, u32, IsU32,
}
use bw_watermyplants.Common.Bits.{bit_and-0x7f, bit_and-0x80, bit_and-0x70, bit_or-shifted}
use bw_watermyplants.Outcome.{done, bind_done, return, ◌>>=◌, Errmsg, set_error, end_of_stream}
use bw_watermyplants.Istream.{Istream}
use bw_watermyplants.Istream.Buffers.{stream, readbyte_cons, readbyte_end, Reads}
use bw_watermyplants.Encode.Varint.{
  base128, varint_bytes, length-base128, base128_small, base128_large,
}
use bw_watermyplants.Decode.{
  received, at_eof, varint32_add, varint32_end, varint32_round, varint32_loop, varint32_rest,
  decode_varint32_eof, no_eof, decode_varint32,
}
use bw_watermyplants.Decode.Varint.{top_bit_mod, suc-sub-suc, split_group, room_above}

varint32_add_lem :
    (bitpos byte acc : ℕ)
    → bitpos < 32
    → acc < 2 ^ bitpos
    → IsU32 (acc + byte % 128 * 2 ^ bitpos)
    → varint32_add bitpos byte acc ≡ acc + byte % 128 * 2 ^ bitpos
unfolding varint32_add
varint32_add_lem bitpos byte acc hb low fits =
    let e : u32 (byte % 128 * 2 ^ bitpos) ≡ byte % 128 * 2 ^ bitpos = omega arith in
    let t : leb 32 bitpos ≡ false = ground arith in
    rw (t, bit_and-0x7f, e) (bit_or-shifted bitpos acc (byte % 128) low)

module _ (fuel bitpos acc byte : ℕ) (rest : List ℕ) (left : ℕ) (err : Option Errmsg) where
  last_round :
      bitpos ≤ 28
      → (bitpos ≡ 28 → byte < 16)
      → byte < 128
      → acc < 2 ^ bitpos
      → IsU32 (acc + byte * 2 ^ bitpos)
      → varint32_loop (suc fuel) bitpos acc (stream (byte ∷ rest) (suc left) err)
        ≡ done (acc + byte * 2 ^ bitpos) (stream rest left err)
  unfolding varint32_loop varint32_round varint32_end
  last_round hb top hw low fits =
      let e : byte % 128 ≡ byte = omega arith in
      ground (
        arith,
        readbyte_cons byte rest left err,
        rw e at (varint32_add_lem bitpos byte acc (omega arith) low (rw e fits)),
        bit_and-0x80 byte,
        bit_and-0x70 byte,
      )

  inner_round :
      bitpos ≤ 28
      → 128 ≤ byte
      → byte < 256
      → acc < 2 ^ bitpos
      → IsU32 (acc + byte % 128 * 2 ^ bitpos)
      → varint32_loop (suc fuel) bitpos acc (stream (byte ∷ rest) (suc left) err)
        ≡ varint32_loop fuel (bitpos + 7) (acc + byte % 128 * 2 ^ bitpos) (stream rest left err)
  unfolding varint32_loop varint32_round
  inner_round hb lo hw low fits = ground (
    arith,
    readbyte_cons byte rest left err,
    varint32_add_lem bitpos byte acc (omega arith) low fits,
    bit_and-0x80 byte,
  )

-- `w` is what is still to be read. At bit 28 it has four bits at most, and seven more for each group
-- that may come before.
varint32_loop-base128 :
    (k m fuel w acc bitpos : ℕ) (rest : List ℕ) (left : ℕ) (err : Option Errmsg)
    → k ≤ m
    → length (base128 m w) ≤ fuel
    → bitpos + 7 * k ≡ 28
    → w < 16 * 128 ^ k
    → acc < 2 ^ bitpos
    → IsU32 (acc + w * 2 ^ bitpos)
    → length (base128 m w) ≤ left
    → varint32_loop fuel bitpos acc (stream (base128 m w ++ rest) left err)
      ≡ done (acc + w * 2 ^ bitpos) (stream rest (left - length (base128 m w)) err)
unfolding base128
varint32_loop-base128 k m zero w acc bitpos rest left err hk hf hb hw low fits room =
    absurd (omega (arith, length-base128 m w))
varint32_loop-base128 k m (suc fuel) w acc bitpos rest zero err hk hf hb hw low fits room =
    absurd (omega (arith, length-base128 m w))
varint32_loop-base128 zero zero (suc fuel) w acc bitpos rest (suc left) err hk hf hb hw low fits
      room =
    let e : suc left - 1 ≡ left = omega arith in
    rw e (
      last_round fuel bitpos acc w rest left err (omega arith) (λ _. omega arith) (omega arith) low
        fits)
varint32_loop-base128 (suc k) zero (suc fuel) w acc bitpos rest (suc left) err hk hf hb hw low fits
      room =
    absurd (omega arith)
varint32_loop-base128 zero (suc m) (suc fuel) w acc bitpos rest (suc left) err hk hf hb hw low fits
      room =
    let e : suc left - 1 ≡ left = omega arith in
    let small : ltb w 128 ≡ true = ground arith in
    rw (small, e)
      (last_round fuel bitpos acc w rest left err (omega arith) (λ _. omega arith) (omega arith) low
        fits)
varint32_loop-base128 (suc k) (suc m) (suc fuel) w acc bitpos rest (suc left) err hk hf hb hw low
      fits room =
    elim (Bool-cases (ltb w 128)) [
      | inl small ↦
          let e : suc left - 1 ≡ left = omega arith in
          rw (small, e)
            (last_round fuel bitpos acc w rest left err (omega arith) (λ h. absurd (omega arith))
              (ground arith) low fits)
      | inr large ↦
          let fits' = rw (split_group w acc bitpos) at fits in
          rw large (
            inner_round fuel bitpos acc (128 + w % 128) (base128 m (w / 128) ++ rest) left err
              (omega arith) (omega arith) (omega arith) low (rw (top_bit_mod w) (omega arith))
            ∙ rw (top_bit_mod w) (
                varint32_loop-base128 k m fuel (w / 128) (acc + w % 128 * 2 ^ bitpos) (bitpos + 7)
                  rest left err (omega arith) (ground arith) (omega arith) (omega arith)
                  (room_above w acc bitpos low) fits' (ground arith)
                ∙ rw (← split_group w acc bitpos, suc-sub-suc left (length (base128 m (w / 128))))))
    ]

pub eof_end :
    (memory : List ℕ) (err : Option Errmsg)
    → decode_varint32_eof (stream memory 0 err)
      ≡ done at_eof (stream memory 0 (set_error err end_of_stream))
unfolding decode_varint32_eof
eof_end memory err = rw (decode_varint32_eof, readbyte_end memory err)

pub eof_first :
    (b : ℕ) (rest : List ℕ) (left : ℕ) (err : Option Errmsg)
    → decode_varint32_eof (stream (b ∷ rest) (suc left) err)
      ≡ (varint32_rest b >>= λ result. return (received result)) (stream rest left err)
unfolding decode_varint32_eof
eof_first b rest left err = rw (decode_varint32_eof, readbyte_cons b rest left err)

rest_small : (b : ℕ) (s : Istream (List ℕ)) → b < 128 → varint32_rest b s ≡ done b s
unfolding varint32_rest
rest_small b s h = ground (arith, bit_and-0x80 b)

rest_large :
    (b : ℕ) (s : Istream (List ℕ))
    → 128 ≤ b
    → b < 256
    → varint32_rest b s ≡ varint32_loop (s.bytes_left + 1) 7 (b % 128) s
unfolding varint32_rest
rest_large b s lo hi = rw bit_and-0x7f (ground (arith, bit_and-0x80 b))

module _ (v : ℕ) (h : IsU32 v) (rest : List ℕ) (err : Option Errmsg) where
  eof_small :
      (left : ℕ)
      → v < 128
      → decode_varint32_eof (stream (v ∷ rest) (suc left) err)
        ≡ done (received v) (stream rest left err)
  eof_small left small =
      eof_first v rest left err
      ∙ bind_done (varint32_rest v) (λ result. return (received result))
          (rest_small v (stream rest left err) small)

  eof_large :
      (k left : ℕ)
      → 3 ≤ k
      → 128 ≤ v
      → length (base128 k (v / 128)) ≤ left
      → decode_varint32_eof (stream ((128 + v % 128) ∷ base128 k (v / 128) ++ rest) (suc left) err)
        ≡ done (received v) (stream rest (left - length (base128 k (v / 128))) err)
  eof_large k left hk large room =
      let e : 128 + v % 128 - 128 ≡ v % 128 = omega arith in
      let e' : v % 128 + v / 128 * 2 ^ 7 ≡ v = omega arith in
      eof_first (128 + v % 128) (base128 k (v / 128) ++ rest) left err
      ∙ bind_done (varint32_rest (128 + v % 128)) (λ result. return (received result))
          (rest_large (128 + v % 128) (stream (base128 k (v / 128) ++ rest) left err) (omega arith)
              (omega arith)
            ∙ rw (top_bit_mod v) (
                varint32_loop-base128 3 k (left + 1) (v / 128) (v % 128) 7 rest left err hk
                  (omega arith) refl (omega arith) (omega arith) (rw e' h) room
                ∙ rw e'))

  pub eof_lem :
      (left : ℕ)
      → length (varint_bytes v) ≤ left
      → decode_varint32_eof (stream (varint_bytes v ++ rest) left err)
        ≡ done (received v) (stream rest (left - length (varint_bytes v)) err)
  eof_lem zero room = absurd (omega (arith, length-base128 9 v))
  eof_lem (suc left) room = elim (Bool-cases (ltb v 128)) [
    | inl small ↦
        let e : suc left - 1 ≡ left = omega arith in
        rw (base128_small 9 v (ground arith), e) (eof_small left (ground arith))
    | inr large ↦
        let more = base128_large 8 v (ground arith) in
        let fits = rw more at room in
        rw (more, suc-sub-suc left (length (base128 8 (v / 128))))
          (eof_large 8 left (omega arith) (ground arith) (omega arith))
  ]

pub decode_varint32_eof-Reads :
    (v : ℕ) → IsU32 v → Reads decode_varint32_eof (varint_bytes v) (received v)
decode_varint32_eof-Reads v h = record { at = λ rest left err room. eof_lem v h rest err left room }

pub decode_varint32-Reads : (v : ℕ) → IsU32 v → Reads decode_varint32 (varint_bytes v) v
unfolding decode_varint32 no_eof
decode_varint32-Reads v h = record {
  at = λ rest left err room. bind_done decode_varint32_eof no_eof (eof_lem v h rest err left room);
}
