-- ===== src/Message/Values.antt =====
-- The `pb_enc_…` functions, which fetch a value from the structure and encode it, and `encode_array`.
use bw_watermyplants.Common.{
  ℕ, zero, suc, ◌+◌, ◌-◌, ◌*◌, ◌^◌, [], Option, none, some, Bool, true, false, ltb, ◌==◌, ◌&&◌,
  ◌||◌, if◌then◌else◌, u64,
}
use bw_watermyplants.Outcome.{
  done, fail, fault, stuck, Call, ◌>>=◌, ◌>>◌, return, invalid_data_size, bytes_size_exceeded,
  invalid_field_descriptor, array_max_size_exceeded,
}
use bw_watermyplants.Memory.{Memory, load, bytes_at, sign_extend, safe_read_bool, string_length}
use bw_watermyplants.Ostream.{Ostream, sizing, write, return_error}
use bw_watermyplants.Field.{Field, Ltype, is_packable}
use bw_watermyplants.FieldIter.{is_static, is_pointer}
use bw_watermyplants.Encode.{
  encode_varint, encode_svarint, encode_fixed32, encode_fixed64, encode_string, encode_tag,
  encode_tag_for_field, wt_string,
}
use bw_watermyplants.Message.Submessage.{encode_submessage}

-- A size that `pb_enc_varint` and its like know
unfoldable pub is_integer_size : ℕ → Bool
is_integer_size n = n == 1 || n == 2 || n == 4 || n == 8

-- `ltype` says whether an entry of a pointer array is a pointer itself.
unfoldable pub is_string_or_bytes : Ltype → Bool
is_string_or_bytes Ltype.string = true
is_string_or_bytes Ltype.bytes = true
is_string_or_bytes _ = false

module _ {S : Type 0} where
  -- A load; without the memory it is undefined.
  unfoldable pub need : {A : Type 0} → Option A → Call (Ostream S) A
  need none s = fault
  need (some a) s = done a s

  module _ (memory : Memory) where
    unfoldable pub enc_bool : ℕ → Call (Ostream S) (Unit {0})
    unfolding need
    enc_bool src = need (safe_read_bool memory src) >>= λ b. encode_varint (if b then 1 else 0)

    -- The integer at `src` in `data_size` bytes
    unfoldable pub load_integer : ℕ → ℕ → Call (Ostream S) ℕ
    unfolding need is_integer_size
    load_integer data_size src =
        if is_integer_size data_size
        then need (load memory data_size src)
        else return_error invalid_data_size

    unfoldable pub enc_varint : ℕ → ℕ → Call (Ostream S) (Unit {0})
    unfolding load_integer
    enc_varint data_size src =
        load_integer data_size src >>= λ v. encode_varint (sign_extend data_size v)

    unfoldable pub enc_uvarint : ℕ → ℕ → Call (Ostream S) (Unit {0})
    unfolding load_integer
    enc_uvarint data_size src = load_integer data_size src >>= encode_varint

    unfoldable pub enc_svarint : ℕ → ℕ → Call (Ostream S) (Unit {0})
    unfolding load_integer
    enc_svarint data_size src =
        load_integer data_size src >>= λ v. encode_svarint (sign_extend data_size v)

    unfoldable pub enc_fixed32 : ℕ → Call (Ostream S) (Unit {0})
    unfolding need
    enc_fixed32 src = need (load memory 4 src) >>= encode_fixed32

    unfoldable pub enc_fixed64 : ℕ → Call (Ostream S) (Unit {0})
    unfolding need
    enc_fixed64 src = need (load memory 8 src) >>= encode_fixed64

    -- The size, of 32 bits, stands before the bytes, and counts for four in `allocsize`.
    unfoldable pub enc_sized_bytes : Bool → ℕ → ℕ → ℕ → Call (Ostream S) (Unit {0})
    unfolding need
    enc_sized_bytes static data_size src size =
        if static && ltb data_size (size + 4)
        then return_error bytes_size_exceeded
        else (need (bytes_at memory size (src + 4)) >>= λ bytes. encode_string bytes size)

    unfoldable pub enc_bytes : Bool → ℕ → ℕ → Call (Ostream S) (Unit {0})
    unfolding need enc_sized_bytes
    enc_bytes static data_size src =
        if src == 0
        then encode_string [] 0
        else (need (load memory 4 src) >>= enc_sized_bytes static data_size src)

    -- The bytes before the NUL, `max_size` at most
    unfoldable pub enc_string_up_to : ℕ → ℕ → Call (Ostream S) (Unit {0})
    unfolding need
    enc_string_up_to max_size src = need (string_length memory max_size src) >>= λ size.
        need (bytes_at memory size src) >>= λ bytes. encode_string bytes size

    unfoldable pub enc_string : Bool → ℕ → ℕ → Call (Ostream S) (Unit {0})
    unfolding enc_string_up_to
    enc_string pointer data_size src =
        if src == 0
        then encode_string [] 0
        else enc_string_up_to (if pointer then 2 ^ 64 - 1 else data_size) src

    unfoldable pub enc_fixed_length_bytes : ℕ → ℕ → Call (Ostream S) (Unit {0})
    unfolding need
    enc_fixed_length_bytes data_size src =
        need (bytes_at memory data_size src) >>= λ bytes. encode_string bytes data_size

    module _ {P : Type 0} (null : S) (pb_encode : P → ℕ → Call (Ostream S) (Unit {0})) where
      unfoldable pub enc_submessage : Field P → ℕ → Call (Ostream S) (Unit {0})
      enc_submessage field src = elim field.ptr [
        | none ↦ return_error invalid_field_descriptor
        | some fields ↦ encode_submessage null (pb_encode fields src)
      ]

      -- `PB_ENCODERS[PB_LTYPE(field->type)]`; the entry of an extension is NULL.
      unfoldable pub encoder : Ltype → Field P → ℕ → Call (Ostream S) (Unit {0})
      unfolding enc_submessage
      encoder Ltype.bool field = enc_bool
      encoder Ltype.varint field = enc_varint field.data_size
      encoder Ltype.uvarint field = enc_uvarint field.data_size
      encoder Ltype.svarint field = enc_svarint field.data_size
      encoder Ltype.fixed32 field = enc_fixed32
      encoder Ltype.fixed64 field = enc_fixed64
      encoder Ltype.bytes field = enc_bytes (is_static field.atype) field.data_size
      encoder Ltype.string field = enc_string (is_pointer field.atype) field.data_size
      encoder Ltype.submessage field = enc_submessage field
      encoder Ltype.extension field = λ src s. fault
      encoder Ltype.fixed_length_bytes field = enc_fixed_length_bytes field.data_size

    module _ {P : Type 0} (null : S) (field : Field P)
        (func : ℕ → Call (Ostream S) (Unit {0})) where
      -- `for (i = 0; i < count; i++)` over entries that carry no tag
      unfoldable pub encode_packed : ℕ → ℕ → Call (Ostream S) (Unit {0})
      encode_packed zero p = return tt
      encode_packed (suc count) p = func p >> encode_packed count (p + field.data_size)

      -- The size of a packed array
      unfoldable pub packed_size : ℕ → ℕ → Call (Ostream S) ℕ
      unfolding encode_packed
      packed_size count p s = elim field.ltype [
        | Ltype.fixed32 ↦ done (u64 (4 * count)) s
        | Ltype.fixed64 ↦ done (u64 (8 * count)) s
        | _ ↦ elim (encode_packed count p (sizing null)) [
          | done _ sizestream ↦ done sizestream.bytes_written s
          | fail _ ↦ fail s
          | fault ↦ fault
          | stuck ↦ stuck
        ]
      ]

      -- Behind the tag of a packed array
      unfoldable pub encode_packed_sized : ℕ → ℕ → ℕ → Call (Ostream S) (Unit {0})
      unfolding encode_packed
      encode_packed_sized count p size s = elim s.callback [
        | none ↦ write [] size s
        | some _ ↦ encode_packed count p s
      ]

      unfoldable pub encode_entry : ℕ → Call (Ostream S) (Unit {0})
      unfolding need
      encode_entry p =
          if is_pointer field.atype && is_string_or_bytes field.ltype
          then (need (load memory 8 p) >>= func)
          else func p

      -- Every entry with its own tag
      unfoldable pub encode_tagged : ℕ → ℕ → Call (Ostream S) (Unit {0})
      unfolding encode_entry
      encode_tagged zero p = return tt
      encode_tagged (suc count) p =
          encode_tag_for_field field >> encode_entry p >> encode_tagged count (p + field.data_size)

      -- `encode_array(stream, field, pData, count, func)`
      unfoldable pub encode_array : ℕ → ℕ → Call (Ostream S) (Unit {0})
      unfolding packed_size encode_packed_sized encode_tagged
      encode_array count p =
          if count == 0
          then return tt
          else if (if is_pointer field.atype then false else ltb field.array_size count)
          then return_error array_max_size_exceeded
          else if is_packable field.ltype
          then (encode_tag wt_string field.tag >> packed_size count p >>= λ size.
              encode_varint size >> encode_packed_sized count p size)
          else encode_tagged count p
