-- ===== src/Decode/Values.antt =====
-- What the decoders of single values read.
use bw_watermyplants.Common.{
  ℕ, zero, suc, ◌+◌, ◌-◌, ◌*◌, ◌/◌, ◌%◌, ◌^◌, ◌≤◌, ◌<◌, ◌≡◌, ap, ◌∙◌, List, ◌++◌, arith, length,
  append-nil, IsU32, IsU64,
}
use native.Mathlib.Nat.{div-add-mod, pow-suc}
use native.Mathlib.Numerals.{towards_suc}
use bw_watermyplants.Common.Bits.{bit_and-mask, bit_and-seven, bit_or-shifted}
use bw_watermyplants.Common.Int.{signed64}
use bw_watermyplants.Outcome.{return, ◌>>=◌, Call}
use bw_watermyplants.Istream.{Istream, read, skip}
use bw_watermyplants.Istream.Buffers.{Reads, read-Reads, skip-Reads, bind-Reads, return-Reads}
use bw_watermyplants.Encode.Varint.{varint_bytes}
use bw_watermyplants.Encode.Values.{zigzag_ℤ, little_endian}
use bw_watermyplants.Decode.{
  received, split_tag, unzigzag, assemble, decode_varint, decode_varint32, decode_varint32_eof,
  decode_tag, decode_svarint, decode_fixed32, decode_fixed64, skip_string,
}
use bw_watermyplants.Decode.Varint.{decode_varint-Reads}
use bw_watermyplants.Decode.Varint32.{decode_varint32_eof-Reads, decode_varint32-Reads}

-- A last step that reads nothing.
pub then_return-Reads {κ μ} :
    {A : Type κ} {B : Type μ} (m : Call (Istream (List ℕ)) A) (g : A → B) {bytes : List ℕ} {a : A}
    → Reads m bytes a
    → Reads (m >>= λ x. return (g x)) bytes (g a)
then_return-Reads m g {bytes} {a} p =
    rw append-nil at (bind-Reads m (λ x. return (g x)) p (return-Reads (g a)))

pub unzigzag_lem : (w : ℕ) → IsU64 w → unzigzag (zigzag_ℤ (signed64 w)) ≡ w
unfolding unzigzag
unzigzag_lem w h = ground (arith, bit_and-mask 1 (zigzag_ℤ (signed64 w)))

pub decode_svarint-Reads :
    (w : ℕ) → IsU64 w → Reads decode_svarint (varint_bytes (zigzag_ℤ (signed64 w))) w
unfolding decode_svarint
decode_svarint-Reads w h = rw (unzigzag_lem w h) at (
    then_return-Reads decode_varint unzigzag
      (decode_varint-Reads (zigzag_ℤ (signed64 w)) (ground arith)))

two_pow_eight : (s : ℕ) → 2 ^ (s + 8) ≡ 256 * 2 ^ s
two_pow_eight s = simp towards_suc (omega arith)

low_byte_fits : (s acc v : ℕ) → acc < 2 ^ s → acc + v % 256 * 2 ^ s < 2 ^ (s + 8)
low_byte_fits s acc v low =
    let b : v % 256 ≤ 255 = omega arith in
    let m : v % 256 * 2 ^ s ≤ 255 * 2 ^ s = grind arith in rw two_pow_eight (omega arith)

split_byte : (s acc v : ℕ) → acc + v % 256 * 2 ^ s + v / 256 * 2 ^ (s + 8) ≡ acc + v * 2 ^ s
split_byte s acc v = omega (
  arith,
  ap (λ (t : ℕ). t * 2 ^ s) (div-add-mod v 256),
  ap (λ (t : ℕ). v / 256 * t) (two_pow_eight s),
)

assemble-little_endian :
    (k shift acc v : ℕ)
    → acc < 2 ^ shift
    → v < 256 ^ k
    → assemble shift acc (little_endian k v) ≡ acc + v * 2 ^ shift
unfolding assemble
assemble-little_endian zero shift acc v low h = let e : v ≡ 0 = omega arith in rw e (omega arith)
assemble-little_endian (suc k) shift acc v low h =
    let next : v / 256 < 256 ^ k = omega (arith, pow-suc 256 k) in
    rw (assemble, bit_or-shifted shift acc (v % 256) low)
      (assemble-little_endian k (shift + 8) (acc + v % 256 * 2 ^ shift) (v / 256)
          (low_byte_fits shift acc v low) next
        ∙ split_byte shift acc v)

assemble_lem : (k v : ℕ) → v < 256 ^ k → assemble 0 0 (little_endian k v) ≡ v
assemble_lem k v h = assemble-little_endian k 0 0 v (omega arith) h ∙ omega arith

pub decode_fixed32-Reads : (v : ℕ) → IsU32 v → Reads decode_fixed32 (little_endian 4 v) v
unfolding decode_fixed32
decode_fixed32-Reads v h =
    rw (assemble_lem 4 v (omega arith)) at
      (then_return-Reads (read 4) (assemble 0 0) (read-Reads (little_endian 4 v)))

pub decode_fixed64-Reads : (v : ℕ) → IsU64 v → Reads decode_fixed64 (little_endian 8 v) v
unfolding decode_fixed64
decode_fixed64-Reads v h =
    rw (assemble_lem 8 v (omega arith)) at
      (then_return-Reads (read 8) (assemble 0 0) (read-Reads (little_endian 8 v)))

split_tag_lem :
    (wiretype n : ℕ)
    → wiretype < 8
    → 0 < n
    → split_tag (received (n * 8 + wiretype)) ≡ received (wiretype, n)
split_tag_lem wiretype n hw some_bits =
    let e : n * 8 + wiretype ≡ suc (n * 8 + wiretype - 1) = omega arith in
    rw e (split_tag_suc (n * 8 + wiretype - 1) ∙ ground arith)
  where
    split_tag_suc : (m : ℕ) → split_tag (received (suc m)) ≡ received (suc m % 8, suc m / 8)
    split_tag_suc m = unfold split_tag in rw bit_and-seven

pub decode_tag-Reads :
    (wiretype n : ℕ)
    → wiretype < 8
    → 0 < n
    → n < 2 ^ 29
    → Reads decode_tag (varint_bytes (n * 8 + wiretype)) (received (wiretype, n))
unfolding decode_tag
decode_tag-Reads wiretype n hw some_bits h = rw (split_tag_lem wiretype n hw some_bits) at (
    then_return-Reads decode_varint32_eof split_tag
      (decode_varint32_eof-Reads (n * 8 + wiretype) (omega arith)))

-- A length and so many bytes are skipped as a whole.
pub skip_string-Reads :
    (payload : List ℕ)
    → IsU32 (length payload)
    → Reads skip_string (varint_bytes (length payload) ++ payload) tt
unfolding skip_string
skip_string-Reads payload h =
    bind-Reads decode_varint32 skip (decode_varint32-Reads (length payload) h) (skip-Reads payload)
