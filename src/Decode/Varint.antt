-- ===== src/Decode/Varint.antt =====
-- `pb_decode_varint` reads back what `pb_encode_varint` writes.
use bw_watermyplants.Common.{
  ℕ, zero, suc, ◌+◌, ◌-◌, ◌*◌, ◌/◌, ◌%◌, ◌^◌, ◌≤◌, ◌<◌, ◌≡◌, ap, ◌∙◌, inl, inr, List, ◌∷◌, ◌++◌,
  Option, arith, ltb, Bool-cases, length, bit_and, bit_or, u64, IsU64,
}
use bw_watermyplants.Common.Bits.{bit_and-0x7f, bit_and-0x80, bit_or-shifted}
use bw_watermyplants.Outcome.{done, Errmsg}
use bw_watermyplants.Istream.Buffers.{stream, readbyte_cons, Reads}
use bw_watermyplants.Encode.Varint.{base128, varint_bytes, length-base128}
use bw_watermyplants.Decode.{varint_round, varint_loop, decode_varint}
use native.Mathlib.Nat.{div-add-mod}
use native.Mathlib.Numerals.{towards_suc}

pub two_pow_seven : (s : ℕ) → 2 ^ (s + 7) ≡ 128 * 2 ^ s
two_pow_seven s = simp towards_suc (omega arith)

-- `result |= (uint64_t)(byte & 0x7F) << bitpos` adds a group that fits above the bits so far.
add_group :
    (acc byte bitpos : ℕ)
    → acc < 2 ^ bitpos
    → IsU64 (acc + byte % 128 * 2 ^ bitpos)
    → bit_or acc (u64 (bit_and byte 0x7f * 2 ^ bitpos)) ≡ acc + byte % 128 * 2 ^ bitpos
add_group acc byte bitpos low fits =
    let e : u64 (byte % 128 * 2 ^ bitpos) ≡ byte % 128 * 2 ^ bitpos = omega arith in
    rw (bit_and-0x7f, e) (bit_or-shifted bitpos acc (byte % 128) low)

module _ (fuel bitpos acc byte : ℕ) (rest : List ℕ) (left : ℕ) (err : Option Errmsg) where
  last_round :
      bitpos < 64
      → byte < 128
      → acc < 2 ^ bitpos
      → IsU64 (acc + byte * 2 ^ bitpos)
      → varint_loop (suc fuel) bitpos acc (stream (byte ∷ rest) (suc left) err)
        ≡ done (acc + byte * 2 ^ bitpos) (stream rest left err)
  unfolding varint_loop varint_round
  last_round hb hw low fits =
      let e : byte % 128 ≡ byte = omega arith in
      ground (
        arith,
        readbyte_cons byte rest left err,
        rw e at (add_group acc byte bitpos low (rw e fits)),
        bit_and-0x80 byte,
      )

  inner_round :
      bitpos < 64
      → 128 ≤ byte
      → byte < 256
      → acc < 2 ^ bitpos
      → IsU64 (acc + byte % 128 * 2 ^ bitpos)
      → varint_loop (suc fuel) bitpos acc (stream (byte ∷ rest) (suc left) err)
        ≡ varint_loop fuel (bitpos + 7) (acc + byte % 128 * 2 ^ bitpos) (stream rest left err)
  unfolding varint_loop varint_round
  inner_round hb lo hw low fits = ground (
    arith,
    readbyte_cons byte rest left err,
    add_group acc byte bitpos low fits,
    bit_and-0x80 byte,
  )

pub top_bit_mod : (w : ℕ) → (128 + w % 128) % 128 ≡ w % 128
top_bit_mod w = omega arith

pub suc-sub-suc : (a b : ℕ) → suc a - suc b ≡ a - b
suc-sub-suc a b = omega arith

-- The lowest group of `w` and the others, both shifted.
pub split_group : (w acc s : ℕ) → acc + w * 2 ^ s ≡ acc + w % 128 * 2 ^ s + w / 128 * 2 ^ (s + 7)
split_group w acc s = omega (
  arith,
  ap (λ (t : ℕ). t * 2 ^ s) (div-add-mod w 128),
  ap (λ (t : ℕ). w / 128 * t) (two_pow_seven s),
)

pub room_above : (w acc s : ℕ) → acc < 2 ^ s → acc + w % 128 * 2 ^ s < 2 ^ (s + 7)
room_above w acc s h =
    let b : w % 128 ≤ 127 = omega arith in
    let m : w % 128 * 2 ^ s ≤ 127 * 2 ^ s = grind arith in rw two_pow_seven (omega arith)

-- `w` is what is still to be read, from bit `bitpos` on; `k + 1` groups are left, and `bitpos` is 7 for
-- each group that was read.
varint_loop-base128 :
    (k w acc bitpos : ℕ) (rest : List ℕ) (left : ℕ) (err : Option Errmsg)
    → bitpos + 7 * k < 64
    → w < 128 ^ suc k
    → acc < 2 ^ bitpos
    → IsU64 (acc + w * 2 ^ bitpos)
    → length (base128 k w) ≤ left
    → varint_loop (suc (suc k)) bitpos acc (stream (base128 k w ++ rest) left err)
      ≡ done (acc + w * 2 ^ bitpos) (stream rest (left - length (base128 k w)) err)
unfolding base128
varint_loop-base128 k w acc bitpos rest zero err hb hw low fits room =
    absurd (omega (arith, length-base128 k w))
varint_loop-base128 zero w acc bitpos rest (suc left) err hb hw low fits room =
    let e : suc left - 1 ≡ left = omega arith in
    rw e (last_round 1 bitpos acc w rest left err (omega arith) (omega arith) low fits)
varint_loop-base128 (suc k) w acc bitpos rest (suc left) err hb hw low fits room =
    elim (Bool-cases (ltb w 128)) [
      | inl small ↦
          let e : suc left - 1 ≡ left = omega arith in
          rw (small, e)
            (last_round (suc (suc k)) bitpos acc w rest left err (omega arith) (ground arith) low
              fits)
      | inr large ↦
          let fits' = rw (split_group w acc bitpos) at fits in
          rw large (
            inner_round (suc (suc k)) bitpos acc (128 + w % 128) (base128 k (w / 128) ++ rest) left
              err (omega arith) (omega arith) (omega arith) low (rw (top_bit_mod w) (omega arith))
            ∙ rw (top_bit_mod w) (
                varint_loop-base128 k (w / 128) (acc + w % 128 * 2 ^ bitpos) (bitpos + 7) rest left
                  err (omega arith) (omega arith) (room_above w acc bitpos low) fits' (ground arith)
                ∙ rw (← split_group w acc bitpos, suc-sub-suc left (length (base128 k (w / 128))))))
    ]

pub decode_varint-Reads : (v : ℕ) → IsU64 v → Reads decode_varint (varint_bytes v) v
unfolding decode_varint
decode_varint-Reads v h = record {
  at = λ rest left err room.
      let e : 0 + v * 2 ^ 0 ≡ v = omega arith in
      rw e at (
        varint_loop-base128 9 v 0 0 rest left err (omega arith) (omega arith) (omega arith) (rw e h)
          room);
}
