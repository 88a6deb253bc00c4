-- ===== src/Tests/Messages.antt =====
-- A message of one field, and an array of two entries, in a structure of eight bytes at address 1000.
use bw_watermyplants.Common.{
  ℕ, ◌+◌, ◌*◌, ◌-◌, ◌≡◌, refl, List, [], ◌∷◌, ◌++◌, none, some, arith, get_elem?, take, length,
  replicate, ltb, if◌then◌else◌, ◌==◌, IsU64,
}
use bw_watermyplants.Outcome.{Outcome, done}
use bw_watermyplants.Memory.{Memory, load, bytes_at}
use bw_watermyplants.Field.{is_packable, Field, Ltype, Htype, Atype}
use bw_watermyplants.Ostream.{Buffer, Ostream, buf_write, write}
use bw_watermyplants.Ostream.Write.{IsBuffer}
use bw_watermyplants.Ostream.Emits.{Emits}
use bw_watermyplants.FieldIter.{begin, next}
use bw_watermyplants.Message.Default.{is_default}
use bw_watermyplants.Message.Values.{
  enc_fixed_length_bytes, enc_uvarint, encode_array, load_integer, is_integer_size, need,
}
use bw_watermyplants.Encode.{
  wire_type_of, encode_fixed32, encode_tag_for_field, encode_tag, encode_varint, varint_buffer,
}
use bw_watermyplants.Encode.Values.{encode_string-Emits, encode_fixed32-Emits, little_endian}
use bw_watermyplants.Encode.Varint.{base128, varint_bytes, encode_varint-Emits, Emits-resp}
use bw_watermyplants.Encode.Sizes.{StoresOrFills}
use bw_watermyplants.Message.Submessage.{encode_submessage}
use bw_watermyplants.Message.Fields.{encode}
use bw_watermyplants.Message.Arrays.{encode_array_stores}
use bw_watermyplants.Message.Writes.{Emits-Writes}
use bw_watermyplants.Message.Tagged.{encode_tagged_array_stores}
use bw_watermyplants.Message.Twice.{encode_submessage_stores}

abbrev null : Buffer
null = record { before = []; after = [] }

abbrev eight : Ostream Buffer
eight = record {
  callback = some buf_write;
  state = record { before = []; after = replicate 8 0 };
  max_size = 8;
  bytes_written = 0;
  errmsg = none;
}

eight-IsBuffer : IsBuffer eight
eight-IsBuffer = record {
  writes = refl;
  room = omega arith;
  within = omega arith;
  limit = omega arith;
}

encode_submessage_stores_example :
    StoresOrFills
      (encode_submessage null (encode_fixed32 1000))
      (varint_bytes 4 ++ little_endian 4 1000)
      eight
encode_submessage_stores_example =
    encode_submessage_stores null (encode_fixed32 1000) (little_endian 4 1000)
      (encode_fixed32-Emits 1000 (omega arith)) eight eight-IsBuffer refl (omega arith)

-- `uint32 number = 3;` without a `has_` field
abbrev number : Field ℕ
number = record {
  tag = 3;
  ltype = Ltype.uvarint;
  htype = Htype.optional;
  atype = Atype.static;
  data_offset = 0;
  size_offset = 0;
  data_size = 4;
  array_size = 0;
  ptr = none;
}

abbrev terminator : Field ℕ
terminator = record number { tag = 0; data_size = 0 }

abbrev structure : List ℕ
structure = 44 ∷ 1 ∷ 0 ∷ 0 ∷ 5 ∷ 0 ∷ 0 ∷ 0 ∷ []

abbrev memory : Memory
memory p = if ltb p 1000 then none else get_elem? structure (p - 1000)

abbrev written : Outcome (Ostream Buffer) (Unit {0}) → List ℕ
written (done _ s) = s.state.before
written _ = []

-- The field is 300.
encode-number :
    written (
      encode memory
        (λ _. number ∷ terminator ∷ [])
        null
        (λ _ _ _ s. done tt s)
        (λ _ _ s. done tt s)
        1
        0
        1000
        eight)
    ≡ 24 ∷ 172 ∷ 2 ∷ []
unfolding encode begin is_default encode_tag_for_field encode_tag encode_varint write buf_write
    enc_uvarint varint_buffer next
encode-number = refl

-- `repeated uint32 numbers = 3;` with room for two
abbrev numbers : Field ℕ
numbers = record number { htype = Htype.repeated; array_size = 2; size_offset = 8 }

-- What the entries hold
abbrev value : ℕ → ℕ
value p = if p == 1000 then 300 else 5

-- The encoder of a `uint32`, at an address that holds one
enc_uvarint-Emits :
    (p v : ℕ) → load memory 4 p ≡ some v → IsU64 v → Emits (enc_uvarint memory 4 p) (varint_bytes v)
unfolding enc_uvarint load_integer is_integer_size need
enc_uvarint-Emits p v loads small = Emits-resp (λ s. rw loads refl) (encode_varint-Emits v small)

encode_array_stores_example :
    StoresOrFills
      (encode_array memory null numbers (enc_uvarint memory 4) 2 1000)
      (varint_bytes (3 * 8 + 2) ++ (varint_bytes 3 ++ (varint_bytes 300 ++ varint_bytes 5)))
      eight
unfolding is_packable base128 load
encode_array_stores_example =
    encode_array_stores memory null numbers (enc_uvarint memory 4) (λ p. varint_bytes (value p)) 1
      1000
      (
        enc_uvarint-Emits 1000 300 refl (omega arith),
        (enc_uvarint-Emits 1004 5 refl (omega arith), tt),
      )
      refl tt (omega arith) (omega arith) (omega arith) eight eight-IsBuffer

-- `repeated bytes pairs = 3` of a fixed size of two bytes, with room for two
abbrev pairs : Field ℕ
pairs = record numbers { ltype = Ltype.fixed_length_bytes; data_size = 2 }

-- What the entries hold
abbrev pair : ℕ → List ℕ
pair p = if p == 1000 then 44 ∷ 1 ∷ [] else 0 ∷ 0 ∷ []

enc_fixed_length_bytes-Emits :
    (p : ℕ) (bs : List ℕ)
    → bytes_at memory 2 p ≡ some bs
    → length bs ≡ 2
    → Emits (enc_fixed_length_bytes memory 2 p) (varint_bytes 2 ++ take 2 bs)
unfolding enc_fixed_length_bytes need
enc_fixed_length_bytes-Emits p bs loads two =
    Emits-resp (λ s. rw loads refl) (encode_string-Emits bs 2 (omega arith) (omega arith))

encode_tagged_array_stores_example :
    StoresOrFills
      (encode_array memory null pairs (enc_fixed_length_bytes memory 2) 2 1000)
      ((varint_bytes (3 * 8 + 2) ++ (varint_bytes 2 ++ (44 ∷ 1 ∷ [])))
        ++ (varint_bytes (3 * 8 + 2) ++ (varint_bytes 2 ++ (0 ∷ 0 ∷ []))))
      eight
unfolding wire_type_of bytes_at base128
encode_tagged_array_stores_example =
    encode_tagged_array_stores memory null pairs (enc_fixed_length_bytes memory 2)
      (λ p. varint_bytes 2 ++ take 2 (pair p)) refl refl (omega arith) 1 1000
      (
        Emits-Writes (enc_fixed_length_bytes-Emits 1000 (44 ∷ 1 ∷ []) refl refl),
        (Emits-Writes (enc_fixed_length_bytes-Emits 1002 (0 ∷ 0 ∷ []) refl refl), tt),
      )
      (omega arith) eight eight-IsBuffer refl (omega arith)
