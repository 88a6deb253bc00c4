-- ===== src/Decode.antt =====
-- The decoders of single values: varints, tags, skipping, substreams,
-- WaterMyPlants/Pods/nanopb/pb_decode.c.
pub mod Varint
pub mod Varint32
pub mod Values
pub mod Safety
pub mod Takes
pub mod Tags
pub mod Skip
pub mod Total
pub mod Overlong
use bw_watermyplants.Common.{
  ℕ, zero, suc, ◌+◌, ◌-◌, ◌*◌, ◌/◌, ◌^◌, List, [], ◌∷◌, ◌++◌, Option, none, some, Bool, true, false,
  ◌&&◌, ◌||◌, ◌!=◌, if◌then◌else◌, ltb, leb, ◌==◌, bit_and, bit_or, u8, u32, u64,
}
use bw_watermyplants.Outcome.{
  Outcome, done, fail, fault, stuck, Call, ◌>>=◌, ◌>>◌, return, varint_overflow, invalid_wire_type,
  parent_stream_too_short,
}
use bw_watermyplants.Istream.{Istream, return_error, read, skip, first_byte, readbyte}
use bw_watermyplants.Encode.{wt_varint, wt_64bit, wt_string, wt_32bit}

-- A value, or `return false` with `*eof` set.
pub data Received (A : Type 0) : Type 0 where
  received : A → Received A
  at_eof : Received A

-- The test on a byte at `bitpos` 32 or more: such bytes may only repeat the sign.
unfoldable pub is_bad_extension : ℕ → ℕ → ℕ → Bool
is_bad_extension bitpos byte result =
    let sign_extension : ℕ = if ltb bitpos 63 then 0xff else 0x01 in
    bit_and byte 0x7f != 0 && (result / 2 ^ 31 == 0 || byte != sign_extension)

unfoldable pub varint32_add : ℕ → ℕ → ℕ → ℕ
varint32_add bitpos byte result =
    if leb 32 bitpos then result else bit_or result (u32 (bit_and byte 0x7f * 2 ^ bitpos))

-- What `pb_decode_tag` makes of a varint: the wire type and the tag. A zero ends the message.
unfoldable pub split_tag : Received ℕ → Received (ℕ × ℕ)
split_tag at_eof = at_eof
split_tag (received zero) = at_eof
split_tag (received (suc n)) = received (bit_and (suc n) 7, suc n / 2 ^ 3)

-- `pb_decode_svarint`: the bit pattern of an `int64_t`; `~x` is 2^64 - 1 - x
unfoldable pub unzigzag : ℕ → ℕ
unzigzag value = if bit_and value 1 == 0 then value / 2 ^ 1 else 2 ^ 64 - 1 - value / 2 ^ 1

-- `bytes[0] << 0 | bytes[1] << 8 | …`, from bit `shift` on
unfoldable pub assemble : ℕ → ℕ → List ℕ → ℕ
assemble shift acc [] = acc
assemble shift acc (b ∷ bytes) = assemble (shift + 8) (bit_or acc (b * 2 ^ shift)) bytes

module _ {S : Type 0} where
  -- One round of `pb_decode_varint` behind `pb_readbyte`; `more` is the next round.
  unfoldable pub varint_round : (ℕ → Call (Istream S) ℕ) → ℕ → ℕ → ℕ → Call (Istream S) ℕ
  varint_round more bitpos result byte =
      let result' = bit_or result (u64 (bit_and byte 0x7f * 2 ^ bitpos)) in
      if bit_and byte 0x80 == 0 then return result' else more result'

  -- `do … while (byte & 0x80)`; eleven rounds are enough, since `bitpos` is 70 in the eleventh.
  unfoldable pub varint_loop : ℕ → ℕ → ℕ → Call (Istream S) ℕ
  varint_loop zero bitpos result s = stuck
  varint_loop (suc fuel) bitpos result s =
      let next = readbyte >>= varint_round (varint_loop fuel (u8 (bitpos + 7))) bitpos result in
      if leb 64 bitpos then return_error varint_overflow s else next s

  unfoldable pub decode_varint : Call (Istream S) ℕ
  decode_varint = varint_loop 11 0 0

  -- What follows the loop of `pb_decode_varint32_eof`: at `bitpos` 35 only four bits of the last byte fit.
  unfoldable pub varint32_end : ℕ → ℕ → ℕ → Call (Istream S) ℕ
  varint32_end bitpos byte result =
      if bitpos == 35 && bit_and byte 0x70 != 0 then return_error varint_overflow else return result

  -- One round of `pb_decode_varint32_eof` behind `pb_readbyte`; `more` is the next round.
  unfoldable pub varint32_round : (ℕ → Call (Istream S) ℕ) → ℕ → ℕ → ℕ → Call (Istream S) ℕ
  varint32_round more bitpos result byte =
      if leb 32 bitpos && is_bad_extension bitpos byte result
      then return_error varint_overflow
      else if bit_and byte 0x80 == 0
      then varint32_end (u8 (bitpos + 7)) byte (varint32_add bitpos byte result)
      else more (varint32_add bitpos byte result)

  -- `do … while (byte & 0x80)`; `bitpos` is a `uint_fast8_t` and wraps.
  unfoldable pub varint32_loop : ℕ → ℕ → ℕ → Call (Istream S) ℕ
  varint32_loop zero bitpos result s = stuck
  varint32_loop (suc fuel) bitpos result s =
      (readbyte >>= varint32_round (varint32_loop fuel (u8 (bitpos + 7))) bitpos result) s

  -- Behind the first byte; the loop takes a byte in each round, so `bytes_left + 1` rounds are enough.
  unfoldable pub varint32_rest : ℕ → Call (Istream S) ℕ
  varint32_rest byte s =
      if bit_and byte 0x80 == 0
      then return byte s
      else varint32_loop (s.bytes_left + 1) 7 (bit_and byte 0x7f) s

  -- `pb_decode_varint32_eof`
  unfoldable pub decode_varint32_eof : Call (Istream S) (Received ℕ)
  decode_varint32_eof s = elim (readbyte s) [
    | done byte s' ↦ (varint32_rest byte >>= λ result. return (received result)) s'
    | fail s' ↦ if s'.bytes_left == 0 then done at_eof s' else fail s'
    | fault ↦ fault
    | stuck ↦ stuck
  ]

  -- With `eof` NULL the end of the stream is a plain failure.
  unfoldable pub no_eof : Received ℕ → Call (Istream S) ℕ
  no_eof (received a) s = done a s
  no_eof at_eof s = fail s

  unfoldable pub decode_varint32 : Call (Istream S) ℕ
  unfolding no_eof
  decode_varint32 = decode_varint32_eof >>= no_eof

  -- `do … while (byte & 0x80)` of `pb_skip_varint`
  unfoldable pub skip_varint_loop : ℕ → Call (Istream S) (Unit {0})
  skip_varint_loop zero s = stuck
  skip_varint_loop (suc fuel) s =
      (read 1 >>= first_byte >>= λ byte.
      let more = skip_varint_loop fuel in if bit_and byte 0x80 == 0 then return tt else more)
        s

  unfoldable pub skip_varint : Call (Istream S) (Unit {0})
  skip_varint s = skip_varint_loop (s.bytes_left + 1) s

  unfoldable pub skip_string : Call (Istream S) (Unit {0})
  skip_string = decode_varint32 >>= skip

  -- `pb_decode_tag`: on success the wire type and the tag
  unfoldable pub decode_tag : Call (Istream S) (Received (ℕ × ℕ))
  unfolding split_tag
  decode_tag = decode_varint32_eof >>= λ temp. return (split_tag temp)

  -- `pb_skip_field`
  unfoldable pub skip_field : ℕ → Call (Istream S) (Unit {0})
  skip_field wire_type =
      if wire_type == wt_varint
      then skip_varint
      else if wire_type == wt_64bit
      then skip 8
      else if wire_type == wt_string
      then skip_string
      else if wire_type == wt_32bit
      then skip 4
      else return_error invalid_wire_type

  -- The varint case of `read_raw_value`: `room` is what is left of the caller's buffer.
  unfoldable pub raw_varint : ℕ → List ℕ → Call (Istream S) (List ℕ)
  raw_varint zero buf s = fail s
  raw_varint (suc room) buf s =
      (read 1 >>= first_byte >>= λ byte.
      let more = raw_varint room (buf ++ byte ∷ []) in
      if bit_and byte 0x80 == 0 then return (buf ++ byte ∷ []) else more)
        s

  -- `pb_read(stream, buf, count)` for a buffer of `size` bytes: what was read is stored there.
  unfoldable pub read_to_buffer : ℕ → ℕ → Call (Istream S) (List ℕ)
  read_to_buffer size count =
      read count >>= λ bytes s. if ltb size count then fault else done bytes s

  -- `read_raw_value(stream, wire_type, buf, &size)` for a buffer of `size` bytes: the bytes in it. The size is
  -- tested for a varint only.
  unfoldable pub read_raw_value : ℕ → ℕ → Call (Istream S) (List ℕ)
  unfolding read_to_buffer
  read_raw_value wire_type size =
      if wire_type == wt_varint
      then raw_varint size []
      else if wire_type == wt_64bit
      then read_to_buffer size 8
      else if wire_type == wt_32bit
      then read_to_buffer size 4
      else return_error invalid_wire_type

  -- `pb_make_string_substream`: the substream; the stream gives up its bytes
  unfoldable pub cut_substream : ℕ → Call (Istream S) (Istream S)
  cut_substream size s =
      if ltb s.bytes_left size
      then return_error parent_stream_too_short s
      else done (record s { bytes_left = size }) (record s { bytes_left = s.bytes_left - size })

  unfoldable pub make_string_substream : Call (Istream S) (Istream S)
  unfolding cut_substream
  make_string_substream = decode_varint32 >>= cut_substream

  -- `pb_close_string_substream(stream, substream)`; skipping no bytes succeeds
  unfoldable pub close_string_substream : Istream S → Call (Istream S) (Unit {0})
  close_string_substream substream s = elim (skip substream.bytes_left substream) [
    | done _ sub ↦ done tt (record s { state = sub.state; errmsg = sub.errmsg })
    | fail sub ↦ fail s
    | fault ↦ fault
    | stuck ↦ stuck
  ]

  unfoldable pub decode_svarint : Call (Istream S) ℕ
  unfolding unzigzag
  decode_svarint = decode_varint >>= λ value. return (unzigzag value)

  unfoldable pub decode_fixed32 : Call (Istream S) ℕ
  unfolding assemble
  decode_fixed32 = read 4 >>= λ bytes. return (assemble 0 0 bytes)

  unfoldable pub decode_fixed64 : Call (Istream S) ℕ
  unfolding assemble
  decode_fixed64 = read 8 >>= λ bytes. return (assemble 0 0 bytes)
