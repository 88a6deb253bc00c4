-- ===== src/Tests/Copied.antt =====
-- Integers of two bytes, encoded from address 0 and decoded to 1000.
use bw_watermyplants.Common.{ℕ, refl, List, none, some, arith, replicate, ltb, if◌then◌else◌, ◌==◌}
use bw_watermyplants.Memory.{Memory, load}
use bw_watermyplants.Message.Values.{enc_uvarint, enc_varint, enc_svarint, is_integer_size}
use bw_watermyplants.Parse.Values.{dec_uvarint, dec_varint, dec_svarint}
use bw_watermyplants.Parse.RoundTrip.{
  Copies, dec_uvarint-enc_uvarint, dec_varint-enc_varint, dec_svarint-enc_svarint,
}

-- 65534, or -2
abbrev two_bytes : Memory
two_bytes p = if p == 0 then some 254 else if p == 1 then some 255 else none

abbrev room_at : Memory
room_at p = if ltb p 1000 then none else if ltb p 1002 then some 7 else none

abbrev space : List ℕ
space = replicate 12 0

dec_uvarint-enc_uvarint_example :
    Copies (enc_uvarint two_bytes 2 0) (dec_uvarint 2 1000) two_bytes 0 room_at 1000 2 space 12
unfolding load is_integer_size
dec_uvarint-enc_uvarint_example =
    dec_uvarint-enc_uvarint 2 65534 refl (omega arith) two_bytes 0 room_at 1000 space 12 refl
      ((7, refl), ((7, refl), tt)) (omega arith) (omega arith) (omega arith)

dec_varint-enc_varint_example :
    Copies (enc_varint two_bytes 2 0) (dec_varint 2 1000) two_bytes 0 room_at 1000 2 space 12
unfolding load is_integer_size
dec_varint-enc_varint_example =
    dec_varint-enc_varint 2 65534 refl (omega arith) two_bytes 0 room_at 1000 space 12 refl
      ((7, refl), ((7, refl), tt)) (omega arith) (omega arith) (omega arith)

dec_svarint-enc_svarint_example :
    Copies (enc_svarint two_bytes 2 0) (dec_svarint 2 1000) two_bytes 0 room_at 1000 2 space 12
unfolding load is_integer_size
dec_svarint-enc_svarint_example =
    dec_svarint-enc_svarint 2 65534 refl (omega arith) two_bytes 0 room_at 1000 space 12 refl
      ((7, refl), ((7, refl), tt)) (omega arith) (omega arith) (omega arith)
