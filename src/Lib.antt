-- ===== src/Lib.antt =====
-- The C code that the app Water My Plants is built with: nanopb, a protocol-buffers library with streams
-- of its own, and the base-64 functions of SocketRocket. Paths are from the root of the repository;
-- NP is WaterMyPlants/Pods/nanopb.
--
-- The parts and the files that model them:
-- - Common: the names of the library that the other files use, lists over native numbers, tests, bit
--   operations as arithmetic, words of 8, 32 and 64 bits.
-- - Outcome: what a call on a stream comes to. `return true` is `done` with the out parameters,
--   `return false` is `fail`, an access outside a buffer is `fault`; `stuck` is a loop of the model
--   without fuel. `>>=` is `if (!…) return false;`, so a step that fails ends the function.
-- - Ostream: `pb_ostream_t`, `buf_write`, `pb_ostream_from_buffer`, `pb_write` (NP/pb_encode.c). Write,
--   Emits and Prefix prove what a call stores, on streams over a buffer and on sizing streams.
-- - Encode: `pb_encode_varint`, `pb_encode_svarint`, `pb_encode_fixed32`, `pb_encode_fixed64`,
--   `pb_encode_tag`, `pb_encode_tag_for_field`, `pb_encode_string` (NP/pb_encode.c), each on `write`.
-- - Istream: `pb_istream_t`, `buf_read`, `pb_istream_from_buffer`, `pb_read`, `pb_readbyte`
--   (NP/pb_decode.c). Buffers says what is read, Safety that nothing outside the memory is.
-- - Decode: `pb_decode_varint`, `pb_decode_varint32`, `pb_decode_tag`, `pb_skip_field`,
--   `read_raw_value`, the substreams, `pb_decode_svarint`, `pb_decode_fixed32`, `pb_decode_fixed64`
--   (NP/pb_decode.c), on `read` and `readbyte`.
-- - Memory and Message: the encoder of whole messages (NP/pb_encode.c from `encode_array` on) over the
--   memory that holds the structure. Submessage is `pb_encode_submessage`, Values the `pb_enc_…`
--   functions and `encode_array`, Default `pb_check_proto3_default_value`, Fields `encode_basic_field`
--   up to `pb_encode`. Arrays and Tagged are about the two forms of an array, Writes about what a call
--   writes, Twice about a submessage and Whole about a message.
-- - Parse: the decoder of whole messages (NP/pb_decode.c from `decode_static_field` on). Machine is the
--   state, an input stream and the memory, with the stores of Memory/Store. Values is the `pb_dec_…`
--   functions and `allocate_field`, Static, Pointer and Callback the three kinds of field, Default the
--   default values, Release `pb_release`, Fields `decode_field` and the extensions, Required the
--   `fields_seen` bits, Messages `pb_decode_noinit` up to `pb_decode_delimited`. Confined (where a
--   decoder writes), Marks (the required fields), Allocate and RoundTrip hold proofs.
-- - RoundTrip: an encoder into a buffer, and the decoder of the same kind on what it wrote.
-- - Field and FieldIter: `pb_field_t` (NP/pb.h) and the iterator over descriptors (NP/pb_common.c).
-- - Base64: `f_b64_ntop` and `f_b64_pton`, WaterMyPlants/Pods/FirebaseDatabase/FirebaseDatabase/Sources/
--   third_party/SocketRocket/fbase64.c.
-- - Tests: the functions at concrete inputs.
--
-- How the code is rendered. Numbers are native; a sum or shift that can leave its C type is taken
-- modulo 2 ^ w, with a `size_t` of 64 bits, a `uint_fast8_t` of 8 and, as the pod is built with
-- PB_FIELD_32BIT, a `pb_size_t` of 32. A buffer is the list of the memory that the pointer refers to,
-- split at the pointer for output. A stream callback is a function on the stream's `state`; one that
-- changes other fields of the stream is outside the model. A text for `f_b64_pton` is the list of its
-- characters; its end is the NUL. `f_b64_pton` returns its index as an `int`, of 32 bits; `f_b64_ntop`
-- returns the text itself, and the C function its length, converted to `int`. `required_field_index` is
-- an `unsigned` that is not wrapped: it counts fields from the first descriptor on, and stays below 2^32
-- for any table with a number of its own for each field.
--
-- Fuel. `decode_varint` runs on eleven rounds, since its eleventh finds `bitpos` at 70 and fails. The
-- loops of `decode_varint32`, `skip_varint` and `skip_chunks` use up a byte, or count down, in each
-- round, and get one round more than there are bytes. `find` gets a round for each descriptor. That
-- this is enough is part of the theorems that say that a function returns.
--
-- `encode` runs to a given depth of messages inside each other, which also bounds an extension list; a
-- message that is deeper is `stuck`. So do `decode_both`, `field_set_to_default` and
-- `release_single_field`. `decode_loop`, `packed_items` and `pointer_items` get one round more than there
-- are bytes, since a round takes one at least; `call_decoder` calls a user's function as often as it is
-- given rounds.
--
-- Parameters, because their code is not in the repository: `pb_realloc` and `pb_free` (a function on the
-- memory each), the functions that a user registers for fields and extensions, and the tables of
-- descriptors. The local `fixed_count_size`, to which the iterator can point, lies at an address of its
-- own. `pb_read` into the memory stores once all bytes are there, so the bytes that a failing stream
-- callback may leave are not told apart.
--
-- Not modelled: the generated descriptor tables, which have no code; the other pods, which are other
-- projects' libraries in C++, Objective-C and Swift; and the app itself, which is Swift.
pub mod Common
pub mod Outcome
pub mod Ostream
pub mod Field
pub mod FieldIter
pub mod Encode
pub mod Memory
pub mod Message
pub mod Parse
pub mod Istream
pub mod Decode
pub mod RoundTrip
pub mod Base64
pub mod Tests
