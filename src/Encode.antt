-- ===== src/Encode.antt =====
-- The encoders of single values: `pb_encode_varint` and the functions behind it,
-- WaterMyPlants/Pods/nanopb/pb_encode.c.
pub mod Varint
pub mod Values
pub mod Sizes
use bw_watermyplants.Common.{
  ℕ, zero, suc, ◌-◌, ◌*◌, ◌/◌, ◌^◌, List, [], ◌∷◌, ◌++◌, Option, none, some, if◌then◌else◌, ltb,
  leb, length, bit_and, bit_or, u8, u64,
}
use bw_watermyplants.Outcome.{fault, Call, ◌>>◌, invalid_field_type}
use bw_watermyplants.Ostream.{Ostream, write, return_error}
use bw_watermyplants.Field.{Field, Ltype}

-- `while (value)` of `pb_encode_varint`: `buffer` is what is filled so far, `room` the rest of its ten
-- bytes. A write behind the last one is `none`.
unfoldable pub varint_loop : ℕ → ℕ → List ℕ → Option (List ℕ)
varint_loop room zero buffer = some buffer
varint_loop zero (suc v) buffer = none
varint_loop (suc room) (suc v) buffer =
    varint_loop room (suc v / 2 ^ 7) (buffer ++ u8 (bit_or (bit_and (suc v) 0x7f) 0x80) ∷ [])

-- `buffer[i-1] &= 0x7F`; with an empty buffer that is outside it
unfoldable pub clear_last : List ℕ → Option (List ℕ)
clear_last [] = none
clear_last (b ∷ []) = some (bit_and b 0x7f ∷ [])
clear_last (b ∷ c ∷ bs) = elim (clear_last (c ∷ bs)) [ none ↦ none | some r ↦ some (b ∷ r) ]

unfoldable pub clear_filled : Option (List ℕ) → Option (List ℕ)
unfolding clear_last
clear_filled none = none
clear_filled (some buffer) = clear_last buffer

unfoldable pub varint_buffer : ℕ → Option (List ℕ)
unfolding varint_loop clear_filled
varint_buffer value = clear_filled (varint_loop 10 value [])

-- `PB_WT_…`
abbrev pub wt_varint : ℕ
wt_varint = 0

abbrev pub wt_64bit : ℕ
wt_64bit = 1

abbrev pub wt_string : ℕ
wt_string = 2

abbrev pub wt_32bit : ℕ
wt_32bit = 5

-- `(val >> k) & 0xFF`
abbrev pub byte_at : ℕ → ℕ → ℕ
byte_at k val = u8 (bit_and (val / 2 ^ k) 0xff)

-- The zigzag form of the `int64_t` with this bit pattern; `~x` is 2^64 - 1 - x.
unfoldable pub zigzag : ℕ → ℕ
zigzag value = if ltb value (2 ^ 63) then u64 (value * 2 ^ 1) else 2 ^ 64 - 1 - u64 (value * 2 ^ 1)

-- The wire type that `pb_encode_tag_for_field` chooses; its `default` is `none`.
unfoldable pub wire_type_of : Ltype → Option ℕ
wire_type_of Ltype.bool = some wt_varint
wire_type_of Ltype.varint = some wt_varint
wire_type_of Ltype.uvarint = some wt_varint
wire_type_of Ltype.svarint = some wt_varint
wire_type_of Ltype.fixed32 = some wt_32bit
wire_type_of Ltype.fixed64 = some wt_64bit
wire_type_of Ltype.bytes = some wt_string
wire_type_of Ltype.string = some wt_string
wire_type_of Ltype.submessage = some wt_string
wire_type_of Ltype.fixed_length_bytes = some wt_string
wire_type_of Ltype.extension = none

module _ {S : Type 0} where
  unfoldable pub write_filled : Option (List ℕ) → Call (Ostream S) (Unit {0})
  write_filled none s = fault
  write_filled (some buffer) s = write buffer (length buffer) s

  unfoldable pub encode_varint : ℕ → Call (Ostream S) (Unit {0})
  unfolding write_filled
  encode_varint value =
      if leb value 0x7f then write (u8 value ∷ []) 1 else write_filled (varint_buffer value)

  -- `pb_encode_svarint`; `value` is the bit pattern of an `int64_t`
  unfoldable pub encode_svarint : ℕ → Call (Ostream S) (Unit {0})
  unfolding zigzag
  encode_svarint value = encode_varint (zigzag value)

  unfoldable pub encode_fixed32 : ℕ → Call (Ostream S) (Unit {0})
  encode_fixed32 val =
      write (byte_at 0 val ∷ byte_at 8 val ∷ byte_at 16 val ∷ byte_at 24 val ∷ []) 4

  unfoldable pub encode_fixed64 : ℕ → Call (Ostream S) (Unit {0})
  encode_fixed64 val =
      write
        (byte_at 0 val
          ∷ byte_at 8 val
          ∷ byte_at 16 val
          ∷ byte_at 24 val
          ∷ byte_at 32 val
          ∷ byte_at 40 val
          ∷ byte_at 48 val
          ∷ byte_at 56 val
          ∷ [])
        8

  -- `field_number` is a `uint32_t`
  unfoldable pub encode_tag : ℕ → ℕ → Call (Ostream S) (Unit {0})
  encode_tag wiretype field_number = encode_varint (bit_or (u64 (field_number * 2 ^ 3)) wiretype)

  unfoldable pub encode_tag_for_field : {P : Type 0} → Field P → Call (Ostream S) (Unit {0})
  unfolding wire_type_of
  encode_tag_for_field field = elim (wire_type_of field.ltype) [
    | none ↦ return_error invalid_field_type
    | some wiretype ↦ encode_tag wiretype field.tag
  ]

  -- `pb_encode_string`: the length, and then so many bytes of `buffer`
  unfoldable pub encode_string : List ℕ → ℕ → Call (Ostream S) (Unit {0})
  encode_string buffer size = encode_varint size >> write buffer size
