-- ===== src/Encode/Varint.antt =====
-- `pb_encode_varint` against the definition of a varint.
use bw_watermyplants.Common.{
  ℕ, zero, suc, ◌+◌, ◌/◌, ◌%◌, ◌^◌, ◌≤◌, ◌<◌, ◌≡◌, refl, ◌∙◌, inl, inr, List, [], ◌∷◌, ◌++◌, some,
  arith, if◌then◌else◌, ltb, leb, Bool-cases, length, All, append_assoc, bit_and, bit_or, u8,
  IsByte, IsU64,
}
use mathlib.Core.Path.{fun_ext}
use bw_watermyplants.Outcome.{Call}
use bw_watermyplants.Common.Bits.{bit_and-0x7f, bit_or-0x80}
use bw_watermyplants.Ostream.{Ostream, Buffer}
use bw_watermyplants.Ostream.Write.{emit}
use bw_watermyplants.Ostream.Emits.{Emits, emit-Emits}
use bw_watermyplants.Encode.{varint_loop, clear_last, clear_filled, varint_buffer, encode_varint}

-- The groups of seven bits of `v`, lowest first, each but the last with its top bit set: `k + 1` of them
-- at most.
unfoldable pub base128 : ℕ → ℕ → List ℕ
base128 zero v = v ∷ []
base128 (suc k) v = if ltb v 128 then v ∷ [] else (128 + v % 128) ∷ base128 k (v / 128)

-- The encoding of a `uint64_t`.
abbrev pub varint_bytes : ℕ → List ℕ
varint_bytes v = base128 9 v

clear_last-append : (bs : List ℕ) (b : ℕ) → clear_last (bs ++ b ∷ []) ≡ some (bs ++ b % 128 ∷ [])
unfolding clear_last
clear_last-append [] b = rw bit_and-0x7f
clear_last-append (c ∷ []) b = rw bit_and-0x7f
clear_last-append (c ∷ d ∷ bs) b = rw (clear_last-append (d ∷ bs) b)

inner_byte : (v : ℕ) → u8 (bit_or (bit_and v 0x7f) 0x80) ≡ 128 + v % 128
inner_byte v = rw bit_and-0x7f (omega (arith, bit_or-0x80 (v % 128) (omega arith)))

-- The loop stops within `k + 1` rounds where the value has no more groups than that.
varint_loop-base128 :
    (k v : ℕ) (buffer : List ℕ)
    → 0 < v
    → v < 128 ^ suc k
    → clear_filled (varint_loop (suc k) v buffer) ≡ some (buffer ++ base128 k v)
unfolding varint_loop clear_filled base128
varint_loop-base128 k zero buffer p h = absurd (omega arith)
varint_loop-base128 zero (suc v) buffer p h =
    let e : suc v / 128 ≡ 0 = omega arith in
    let m : (128 + suc v % 128) % 128 ≡ suc v = omega arith in
    rw (varint_loop, e, inner_byte, clear_last-append, m)
varint_loop-base128 (suc k) (suc v) buffer p h = elim (Bool-cases (ltb (suc v) 128)) [
  | inl small ↦
      let e : suc v / 128 ≡ 0 = ground arith in
      let m : (128 + suc v % 128) % 128 ≡ suc v = ground arith in
      rw (varint_loop, small, e, inner_byte, clear_last-append, m)
  | inr large ↦
      rw (varint_loop, large, inner_byte)
        (varint_loop-base128 k (suc v / 128) (buffer ++ (128 + suc v % 128) ∷ []) (ground arith)
            (ground arith)
          ∙ rw append_assoc)
]

pub varint_buffer-varint_bytes : (v : ℕ) → 0 < v → IsU64 v → varint_buffer v ≡ some (varint_bytes v)
unfolding varint_buffer
varint_buffer-varint_bytes v p h = varint_loop-base128 9 v [] p (omega arith)

pub base128_small : (k v : ℕ) → v < 128 → base128 k v ≡ v ∷ []
unfolding base128
base128_small zero v h = refl
base128_small (suc k) v h = ground arith

pub base128_large : (k v : ℕ) → 128 ≤ v → base128 (suc k) v ≡ (128 + v % 128) ∷ base128 k (v / 128)
unfolding base128
base128_large k v h = ground arith

-- The ten bytes of `buffer` are enough for every value: `pb_encode_varint` is one `pb_write` of the
-- varint, whatever the stream.
pub encode_varint-emit :
    {S : Type 0} (v : ℕ) (s : Ostream S) → IsU64 v → encode_varint v s ≡ emit (varint_bytes v) s
unfolding encode_varint
encode_varint-emit v s h = elim (Bool-cases (leb v 0x7f)) [
  | inl small ↦ let e : u8 v ≡ v = ground arith in rw (small, e, base128_small 9 v (ground arith))
  | inr large ↦ rw (large, varint_buffer-varint_bytes v (ground arith) h)
]

pub length-base128 : (k v : ℕ) → (1 ≤ length (base128 k v)) × (length (base128 k v) ≤ k + 1)
unfolding base128
length-base128 zero v = omega arith
length-base128 (suc k) v = ground (arith, length-base128 k (v / 128))

pub base128-IsByte : (k v : ℕ) → v < 128 ^ suc k → All IsByte (base128 k v)
unfolding base128
base128-IsByte zero v h = omega arith
base128-IsByte (suc k) v h = ground (arith, base128-IsByte k (v / 128))

pub Emits-resp :
    {m k : Call (Ostream Buffer) (Unit {0})} {bytes : List ℕ}
    → ((s : Ostream Buffer) → m s ≡ k s)
    → Emits k bytes
    → Emits m bytes
Emits-resp {bytes} same e = rw (fun_ext same) e

pub encode_varint-Emits : (v : ℕ) → IsU64 v → Emits (encode_varint v) (varint_bytes v)
encode_varint-Emits v h =
    Emits-resp (λ s. encode_varint-emit v s h)
      (emit-Emits (varint_bytes v) (omega (arith, length-base128 9 v)))
