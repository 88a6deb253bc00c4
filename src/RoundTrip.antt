-- ===== src/RoundTrip.antt =====
-- Encoders of pb_encode.c followed by the decoders of pb_decode.c on the same buffer.
use bw_watermyplants.Common.{
  ℕ, ◌+◌, ◌-◌, ◌*◌, ◌^◌, ◌≤◌, ◌<◌, ◌≡◌, refl, ◌∙◌, List, [], ◌++◌, none, arith, length, take, drop,
  append-nil, length-append, take-append, IsU32, IsU64,
}
use bw_watermyplants.Common.Int.{signed64}
use bw_watermyplants.Outcome.{done, Call}
use bw_watermyplants.Ostream
use bw_watermyplants.Ostream.{Buffer, Ostream, buf_write}
use bw_watermyplants.Ostream.Write.{IsBuffer, stored}
use bw_watermyplants.Ostream.Emits.{Emits}
use bw_watermyplants.Istream
use bw_watermyplants.Istream.{Istream}
use bw_watermyplants.Istream.Buffers.{stream, Reads}
use bw_watermyplants.Encode.{
  encode_varint, encode_svarint, encode_fixed32, encode_fixed64, encode_tag, encode_string,
}
use bw_watermyplants.Encode.Varint.{encode_varint-Emits, varint_bytes, length-base128}
use bw_watermyplants.Encode.Values.{
  encode_svarint-Emits, encode_fixed32-Emits, encode_fixed64-Emits, encode_tag-Emits,
  encode_string-Emits, zigzag_ℤ, little_endian,
}
use bw_watermyplants.Decode.{
  received, decode_varint, decode_varint32, decode_svarint, decode_fixed32, decode_fixed64,
  decode_tag, skip_string,
}
use bw_watermyplants.Decode.Varint.{decode_varint-Reads}
use bw_watermyplants.Decode.Varint32.{decode_varint32-Reads}
use bw_watermyplants.Decode.Values.{
  decode_svarint-Reads, decode_fixed32-Reads, decode_fixed64-Reads, decode_tag-Reads,
  skip_string-Reads,
}

-- The whole memory of a buffer.
abbrev pub contents : Buffer → List ℕ
contents b = b.before ++ b.after

-- `write` into a new stream over `memory` returns true, and `read` on the memory as it is then, limited
-- to `bytes_written`, returns `a` and uses up all of it.
pub record RoundTrips {κ} {A : Type κ} (write : Call (Ostream Buffer) (Unit {0}))
    (read : Call (Istream (List ℕ)) A) (a : A) (memory : List ℕ) (size : ℕ) : Type κ where
  pub end : Ostream Buffer
  pub writes : write (Ostream.from_buffer memory size) ≡ done tt end
  pub within : end.bytes_written ≤ size
  pub reads :
      read (Istream.from_buffer (contents end.state) end.bytes_written)
      ≡ done a (stream end.state.after 0 none)

from_buffer-IsBuffer :
    (memory : List ℕ) (size : ℕ)
    → size ≤ length memory
    → IsU64 size
    → IsBuffer (Ostream.from_buffer memory size)
unfolding Ostream.from_buffer
from_buffer-IsBuffer memory size h short = record {
  writes = refl;
  room = omega arith;
  within = omega arith;
  limit = short;
}

pub Emits-Reads-RoundTrips {κ} :
    {A : Type κ} (write : Call (Ostream Buffer) (Unit {0})) (read : Call (Istream (List ℕ)) A)
    (bytes memory : List ℕ) (size : ℕ) {a : A}
    → Emits write bytes
    → Reads read bytes a
    → length bytes ≤ size
    → size ≤ length memory
    → IsU64 size
    → RoundTrips write read a memory size
unfolding Ostream.from_buffer
Emits-Reads-RoundTrips write read bytes memory size p q h room short = record {
  end = stored bytes (Ostream.from_buffer memory size);
  writes =
      p.fits (Ostream.from_buffer memory size) (from_buffer-IsBuffer memory size room short)
        (omega arith);
  within = omega arith;
  reads =
      let e : 0 + length bytes ≡ length bytes = omega arith in
      let z : length bytes - length bytes ≡ 0 = omega arith in
      rw e (q.at (drop (length bytes) memory) (length bytes) none (omega arith) ∙ rw z);
}

written :
    (payload : List ℕ)
    → IsU32 (length payload)
    → Emits (encode_string payload (length payload)) (varint_bytes (length payload) ++ payload)
written payload h =
    let e : take (length payload) payload ≡ payload = rw append-nil at (take-append payload []) in
    rw e at (encode_string-Emits payload (length payload) (omega arith) (omega arith))

varint_fits : (v size : ℕ) → 10 ≤ size → length (varint_bytes v) ≤ size
varint_fits v size h = omega (arith, length-base128 9 v)

module _ (memory : List ℕ) (size : ℕ) (room : size ≤ length memory) (short : IsU64 size) where
  -- Over a buffer of ten bytes or more, whatever it holds, `pb_encode_varint` of a 64-bit value succeeds,
  -- and `pb_decode_varint` on the bytes written gives the value and reads all of them.
  pub decode_varint-encode_varint :
      (v : ℕ) → IsU64 v → 10 ≤ size → RoundTrips (encode_varint v) decode_varint v memory size
  decode_varint-encode_varint v h wide =
      Emits-Reads-RoundTrips (encode_varint v) decode_varint (varint_bytes v) memory size
        (encode_varint-Emits v h) (decode_varint-Reads v h) (varint_fits v size wide) room short

  -- Over a buffer of ten bytes or more, whatever it holds, `pb_encode_varint` of a 32-bit value succeeds,
  -- and `pb_decode_varint32` on the bytes written gives the value and reads all of them.
  pub decode_varint32-encode_varint :
      (v : ℕ) → IsU32 v → 10 ≤ size → RoundTrips (encode_varint v) decode_varint32 v memory size
  decode_varint32-encode_varint v h wide =
      Emits-Reads-RoundTrips (encode_varint v) decode_varint32 (varint_bytes v) memory size
        (encode_varint-Emits v (omega arith)) (decode_varint32-Reads v h) (varint_fits v size wide)
        room short

  -- Over a buffer of ten bytes or more, `pb_encode_svarint` of any `int64_t`, given by its bit pattern,
  -- succeeds, and `pb_decode_svarint` on the bytes written gives the pattern and reads all of them.
  pub decode_svarint-encode_svarint :
      (w : ℕ) → IsU64 w → 10 ≤ size → RoundTrips (encode_svarint w) decode_svarint w memory size
  decode_svarint-encode_svarint w h wide =
      Emits-Reads-RoundTrips (encode_svarint w) decode_svarint
        (varint_bytes (zigzag_ℤ (signed64 w))) memory size (encode_svarint-Emits w h)
        (decode_svarint-Reads w h) (varint_fits (zigzag_ℤ (signed64 w)) size wide) room short

  -- Over a buffer of four bytes or more, `pb_encode_fixed32` of a 32-bit value succeeds, and
  -- `pb_decode_fixed32` on the bytes written gives the value and reads all of them.
  pub decode_fixed32-encode_fixed32 :
      (v : ℕ) → IsU32 v → 4 ≤ size → RoundTrips (encode_fixed32 v) decode_fixed32 v memory size
  decode_fixed32-encode_fixed32 v h wide =
      Emits-Reads-RoundTrips (encode_fixed32 v) decode_fixed32 (little_endian 4 v) memory size
        (encode_fixed32-Emits v h) (decode_fixed32-Reads v h) wide room short

  -- Over a buffer of eight bytes or more, `pb_encode_fixed64` of a 64-bit value succeeds, and
  -- `pb_decode_fixed64` on the bytes written gives the value and reads all of them.
  pub decode_fixed64-encode_fixed64 :
      (v : ℕ) → IsU64 v → 8 ≤ size → RoundTrips (encode_fixed64 v) decode_fixed64 v memory size
  decode_fixed64-encode_fixed64 v h wide =
      Emits-Reads-RoundTrips (encode_fixed64 v) decode_fixed64 (little_endian 8 v) memory size
        (encode_fixed64-Emits v h) (decode_fixed64-Reads v h) wide room short

  -- Over a buffer of ten bytes or more, `pb_encode_tag` of a wire type below 8 and a field number from 1
  -- to 2^29 - 1 succeeds, and `pb_decode_tag` on the bytes written gives both back and reads all of them.
  pub decode_tag-encode_tag :
      (wiretype n : ℕ)
      → wiretype < 8
      → 0 < n
      → n < 2 ^ 29
      → 10 ≤ size
      → RoundTrips (encode_tag wiretype n) decode_tag (received (wiretype, n)) memory size
  decode_tag-encode_tag wiretype n hw some_bits h wide =
      Emits-Reads-RoundTrips (encode_tag wiretype n) decode_tag (varint_bytes (n * 8 + wiretype))
        memory size (encode_tag-Emits wiretype n hw (omega arith))
        (decode_tag-Reads wiretype n hw some_bits h) (varint_fits (n * 8 + wiretype) size wide) room
        short

  -- Over a buffer with ten bytes more than the string is long, `pb_encode_string` of fewer than 2^32
  -- bytes succeeds, and `pb_skip_string` skips exactly what was written.
  pub skip_string-encode_string :
      (payload : List ℕ)
      → IsU32 (length payload)
      → length payload + 10 ≤ size
      → RoundTrips (encode_string payload (length payload)) skip_string tt memory size
  skip_string-encode_string payload h wide =
      Emits-Reads-RoundTrips (encode_string payload (length payload)) skip_string
        (varint_bytes (length payload) ++ payload) memory size (written payload h)
        (skip_string-Reads payload h)
        (omega (
          arith,
          length-append (varint_bytes (length payload)) payload,
          length-base128 9 (length payload),
        ))
        room short
