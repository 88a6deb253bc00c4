-- ===== src/Encode/Values.antt =====
-- What the encoders of single values write.
use bw_watermyplants.Common.{
  ℕ, zero, suc, ◌+◌, ◌*◌, ◌/◌, ◌%◌, ◌^◌, ◌≤◌, ◌<◌, ◌≡◌, ◌∙◌, List, [], ◌∷◌, ◌++◌, arith, length,
  take, bit_or, u64, IsU32, IsU64,
}
use bw_watermyplants.Common.Bits.{bit_and-0xff, shifted-bit_or}
use bw_watermyplants.Common.Int.{ℤ, pos, negsuc, signed64}
use bw_watermyplants.Ostream.Emits.{Emits, emit-Emits, then-Emits}
use bw_watermyplants.Ostream.Prefix.{write-Emits}
use bw_watermyplants.Encode.{
  zigzag, byte_at, encode_svarint, encode_fixed32, encode_fixed64, encode_tag, encode_string,
}
use bw_watermyplants.Encode.Varint.{varint_bytes, encode_varint-Emits}

-- The zigzag map of the protocol: 0, -1, 1, -2, … go to 0, 1, 2, 3, …
abbrev pub zigzag_ℤ : ℤ → ℕ
zigzag_ℤ (pos n) = 2 * n
zigzag_ℤ (negsuc n) = 2 * n + 1

pub zigzag_lem : (w : ℕ) → IsU64 w → (zigzag w ≡ zigzag_ℤ (signed64 w)) × IsU64 (zigzag w)
unfolding zigzag
zigzag_lem w h = ground arith

pub encode_svarint-Emits :
    (w : ℕ) → IsU64 w → Emits (encode_svarint w) (varint_bytes (zigzag_ℤ (signed64 w)))
unfolding encode_svarint
encode_svarint-Emits w h =
    let (e, fits) = zigzag_lem w h in rw (← e) (encode_varint-Emits (zigzag w) fits)

-- `k` bytes of a number, lowest first
abbrev pub little_endian : ℕ → ℕ → List ℕ
little_endian zero v = []
little_endian (suc k) v = v % 256 ∷ little_endian k (v / 256)

byte_at_lem : (k v : ℕ) → byte_at k v ≡ v / 2 ^ k % 256
byte_at_lem k v = rw bit_and-0xff (omega arith)

four_bytes :
    (v : ℕ) → byte_at 0 v ∷ byte_at 8 v ∷ byte_at 16 v ∷ byte_at 24 v ∷ [] ≡ little_endian 4 v
four_bytes v = simp bit_and-0xff (ground arith)

pub encode_fixed32-Emits : (v : ℕ) → IsU32 v → Emits (encode_fixed32 v) (little_endian 4 v)
unfolding encode_fixed32
encode_fixed32-Emits v h = rw (four_bytes v) (emit-Emits (little_endian 4 v) (omega arith))

eight_bytes :
    (v : ℕ)
    → byte_at 0 v
        ∷ byte_at 8 v
        ∷ byte_at 16 v
        ∷ byte_at 24 v
        ∷ byte_at 32 v
        ∷ byte_at 40 v
        ∷ byte_at 48 v
        ∷ byte_at 56 v
        ∷ []
      ≡ little_endian 8 v
eight_bytes v = simp bit_and-0xff (ground arith)

pub encode_fixed64-Emits : (v : ℕ) → IsU64 v → Emits (encode_fixed64 v) (little_endian 8 v)
unfolding encode_fixed64
encode_fixed64-Emits v h = rw (eight_bytes v) (emit-Emits (little_endian 8 v) (omega arith))

tag_value :
    (wiretype n : ℕ) → wiretype < 8 → IsU32 n → bit_or (u64 (n * 2 ^ 3)) wiretype ≡ n * 8 + wiretype
tag_value wiretype n hw h =
    let e : u64 (n * 2 ^ 3) ≡ n * 2 ^ 3 = omega arith in
    rw e (shifted-bit_or 3 n wiretype (omega arith) ∙ omega arith)

pub encode_tag-Emits :
    (wiretype n : ℕ)
    → wiretype < 8
    → IsU32 n
    → Emits (encode_tag wiretype n) (varint_bytes (n * 8 + wiretype))
unfolding encode_tag
encode_tag-Emits wiretype n hw h =
    rw (tag_value wiretype n hw h) (encode_varint-Emits (n * 8 + wiretype) (omega arith))

pub encode_string-Emits :
    (buffer : List ℕ) (size : ℕ)
    → IsU64 size
    → size ≤ length buffer
    → Emits (encode_string buffer size) (varint_bytes size ++ take size buffer)
unfolding encode_string
encode_string-Emits buffer size h enough =
    then-Emits (encode_varint-Emits size h) (write-Emits size buffer enough h)
