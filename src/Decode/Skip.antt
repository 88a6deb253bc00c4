-- ===== src/Decode/Skip.antt =====
-- Skipping and substreams on any input.
use bw_watermyplants.Common.{
  ℕ, zero, suc, ◌+◌, ◌≤◌, ◌≡◌, false, ltb, List, [], ◌∷◌, ◌++◌, arith, if◌then◌else◌, ◌==◌, bit_and,
}
use bw_watermyplants.Outcome.{return, invalid_wire_type}
use bw_watermyplants.Istream.{read, skip}
use bw_watermyplants.Istream.Safety.{
  IsSafe, lower, bind-IsSafe, return-IsSafe, error-IsSafe, fail-IsSafe, if-IsSafe, read-IsSafe,
  skip-IsSafe, read_one-IsSafe,
}
use bw_watermyplants.Decode.{
  decode_varint32, skip_varint_loop, skip_varint, skip_string, skip_field, raw_varint,
  read_raw_value, read_to_buffer,
}
use bw_watermyplants.Decode.Safety.{decode_varint32-IsSafe}

skip_varint_loop-IsSafe : (fuel : ℕ) → IsSafe fuel (skip_varint_loop fuel)
unfolding skip_varint_loop
skip_varint_loop-IsSafe zero = record { at = λ memory left err room small. absurd (omega arith) }
skip_varint_loop-IsSafe (suc fuel) =
    read_one-IsSafe fuel
      (λ byte. if bit_and byte 0x80 == 0 then return tt else skip_varint_loop fuel)
      λ byte. if-IsSafe fuel _ _ _ (return-IsSafe fuel tt) (skip_varint_loop-IsSafe fuel)

skip_varint-IsSafe : (bound : ℕ) → IsSafe bound skip_varint
unfolding skip_varint
skip_varint-IsSafe bound = record {
  at = λ memory left err room small.
      (skip_varint_loop-IsSafe (left + 1)).at memory left err room (omega arith);
}

skip_string-IsSafe : (bound : ℕ) → IsSafe bound skip_string
unfolding skip_string
skip_string-IsSafe bound =
    bind-IsSafe bound skip (skip-IsSafe bound) decode_varint32 (decode_varint32-IsSafe bound)

pub skip_field-IsSafe : (bound wire_type : ℕ) → IsSafe bound (skip_field wire_type)
unfolding skip_field
skip_field-IsSafe bound wire_type = if-IsSafe bound _ _ _ (skip_varint-IsSafe bound) (
    if-IsSafe bound _ _ _ (skip-IsSafe bound 8) (
      if-IsSafe bound _ _ _ (skip_string-IsSafe bound)
        (if-IsSafe bound _ _ _ (skip-IsSafe bound 4) (error-IsSafe bound invalid_wire_type))))

raw_varint-IsSafe : (room bound : ℕ) (buf : List ℕ) → IsSafe bound (raw_varint room buf)
unfolding raw_varint
raw_varint-IsSafe zero bound buf = fail-IsSafe bound
raw_varint-IsSafe (suc room) bound buf = lower (
    read_one-IsSafe bound
      (λ byte.
        if bit_and byte 0x80 == 0
        then return (buf ++ byte ∷ [])
        else raw_varint room (buf ++ byte ∷ []))
      λ byte.
        if-IsSafe bound _ _ _ (return-IsSafe bound (buf ++ byte ∷ []))
          (raw_varint-IsSafe room bound (buf ++ byte ∷ [])))

-- A buffer with room for all that is read
read_to_buffer-IsSafe :
    (bound size count : ℕ) → count ≤ size → IsSafe bound (read_to_buffer size count)
unfolding read_to_buffer
read_to_buffer-IsSafe bound size count h =
    let fits : ltb size count ≡ false = ground arith in
    rw fits (
      bind-IsSafe bound return (λ bytes. return-IsSafe bound bytes) (read count)
        (read-IsSafe bound count))

pub read_raw_value-IsSafe :
    (bound wire_type size : ℕ) → 8 ≤ size → IsSafe bound (read_raw_value wire_type size)
unfolding read_raw_value
read_raw_value-IsSafe bound wire_type size h =
    if-IsSafe bound _ _ _ (raw_varint-IsSafe size bound []) (
      if-IsSafe bound _ _ _ (read_to_buffer-IsSafe bound size 8 h) (
        if-IsSafe bound _ _ _ (read_to_buffer-IsSafe bound size 4 (omega arith))
          (error-IsSafe bound invalid_wire_type)))
