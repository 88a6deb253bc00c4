-- ===== src/Parse/Values.antt =====
-- The `pb_dec_…` functions, which decode a value and store it in the structure, and `allocate_field`.
use bw_watermyplants.Common.{
  ℕ, ◌+◌, ◌-◌, ◌*◌, ◌/◌, ◌%◌, ◌^◌, Bool, false, ltb, leb, ◌==◌, ◌||◌, if◌then◌else◌, u32, u64,
}
use bw_watermyplants.Outcome.{
  done, fail, fault, stuck, Call, ◌>>=◌, ◌>>◌, return, invalid_data_size, integer_too_large,
  invalid_size, size_too_large, realloc_failed, bytes_overflow, string_overflow,
  incorrect_fixed_length,
}
use bw_watermyplants.Memory.{Memory, sign_extend}
use bw_watermyplants.Memory.Store.{put, put_byte, clear, fetch}
use bw_watermyplants.Field.{size_max}
use bw_watermyplants.Decode.{
  decode_varint, decode_varint32, decode_svarint, decode_fixed32, decode_fixed64,
}
use bw_watermyplants.Message.Values.{is_integer_size}
use bw_watermyplants.Parse.Machine.{Machine, on_input, on_memory, error, read_into}

-- Whether `array_size * data_size` would leave a `size_t`, as `allocate_field` finds out
unfoldable pub is_too_large : ℕ → ℕ → Bool
is_too_large data_size array_size =
    if leb (2 ^ 32) data_size || leb (2 ^ 32) array_size
    then ltb ((2 ^ 64 - 1) / array_size) data_size
    else false

module _ {S : Type 0} where
  unfoldable pub dec_bool : ℕ → Call (Machine S) (Unit {0})
  unfolding on_input on_memory put
  dec_bool dest =
      on_input decode_varint32 >>= λ value. on_memory (put 1 dest (if value == 0 then 0 else 1))

  -- The cast to `n` bytes, the store, and the check that it kept the value
  unfoldable pub store_signed : ℕ → ℕ → ℕ → Call (Machine S) (Unit {0})
  unfolding is_integer_size on_input on_memory put
  store_signed n dest value =
      if is_integer_size n
      then (on_memory (put n dest (value % 2 ^ (8 * n)))
          >> (if sign_extend n (value % 2 ^ (8 * n)) == value
              then return tt
              else error integer_too_large))
      else error invalid_data_size

  unfoldable pub store_unsigned : ℕ → ℕ → ℕ → Call (Machine S) (Unit {0})
  unfolding is_integer_size on_input on_memory put
  store_unsigned n dest value =
      if is_integer_size n
      then (on_memory (put n dest (value % 2 ^ (8 * n)))
          >> (if value % 2 ^ (8 * n) == value then return tt else error integer_too_large))
      else error invalid_data_size

  -- Fields below eight bytes are cast to `int32_t` first.
  unfoldable pub dec_varint : ℕ → ℕ → Call (Machine S) (Unit {0})
  unfolding on_input store_signed
  dec_varint data_size dest = on_input decode_varint >>= λ value.
      store_signed data_size dest (if data_size == 8 then value else sign_extend 4 (u32 value))

  unfoldable pub dec_uvarint : ℕ → ℕ → Call (Machine S) (Unit {0})
  unfolding on_input store_unsigned
  dec_uvarint data_size dest = on_input decode_varint >>= store_unsigned data_size dest

  unfoldable pub dec_svarint : ℕ → ℕ → Call (Machine S) (Unit {0})
  unfolding on_input store_signed
  dec_svarint data_size dest = on_input decode_svarint >>= store_signed data_size dest

  unfoldable pub dec_fixed32 : ℕ → Call (Machine S) (Unit {0})
  unfolding on_input on_memory put
  dec_fixed32 dest = on_input decode_fixed32 >>= λ value. on_memory (put 4 dest value)

  unfoldable pub dec_fixed64 : ℕ → Call (Machine S) (Unit {0})
  unfolding on_input on_memory put
  dec_fixed64 dest = on_input decode_fixed64 >>= λ value. on_memory (put 8 dest value)

  -- An empty string stands for zeros.
  unfoldable pub fixed_length_bytes_of : ℕ → ℕ → ℕ → Call (Machine S) (Unit {0})
  unfolding on_input on_memory clear read_into
  fixed_length_bytes_of data_size dest size =
      if ltb size_max size
      then error bytes_overflow
      else if size == 0
      then on_memory (clear data_size dest)
      else if size == data_size
      then read_into data_size dest
      else error incorrect_fixed_length

  unfoldable pub dec_fixed_length_bytes : ℕ → ℕ → Call (Machine S) (Unit {0})
  unfolding on_input fixed_length_bytes_of
  dec_fixed_length_bytes data_size dest =
      on_input decode_varint32 >>= fixed_length_bytes_of data_size dest

  -- The size, and then the bytes, at `bdest`
  unfoldable pub store_bytes : ℕ → ℕ → Call (Machine S) (Unit {0})
  unfolding on_memory put read_into
  store_bytes size bdest = on_memory (put 4 bdest size) >> read_into size (bdest + 4)

  -- The bytes and a NUL, which is written whatever `pb_read` returns
  unfoldable pub store_string : ℕ → ℕ → Call (Machine S) (Unit {0})
  unfolding on_memory put_byte read_into
  store_string size dest s = elim (read_into size dest s) [
    | done _ s' ↦ on_memory (put_byte (dest + size) 0) s'
    | fail s' ↦ (on_memory (put_byte (dest + size) 0) >> λ s''. fail s'') s'
    | fault ↦ fault
    | stuck ↦ stuck
  ]

  -- `realloc` is `pb_realloc`: the new block, NULL where there is none, and the memory then.
  module _ (realloc : Memory → ℕ → ℕ → ℕ × Memory) where
    -- `ptr = pb_realloc(ptr, n);` and the store of a pointer that is not NULL
    unfoldable pub reallocate : ℕ → ℕ → ℕ → Call (Machine S) (Unit {0})
    unfolding on_input on_memory put
    reallocate p_data n ptr s =
        let block = (realloc s.memory ptr n).0 in
        let s' = record s { memory = (realloc s.memory ptr n).1 } in
        if block == 0 then error realloc_failed s' else on_memory (put 8 p_data block) s'

    unfoldable pub allocate_field : ℕ → ℕ → ℕ → Call (Machine S) (Unit {0})
    unfolding on_input on_memory fetch is_too_large reallocate
    allocate_field p_data data_size array_size = on_memory (fetch 8 p_data) >>= λ ptr.
        if data_size == 0 || array_size == 0
        then error invalid_size
        else if is_too_large data_size array_size
        then error size_too_large
        else reallocate p_data (u64 (array_size * data_size)) ptr

    -- `size > alloc_size` cannot hold with a `size_t` of 64 bits.
    unfoldable pub bytes_of : Bool → ℕ → ℕ → ℕ → Call (Machine S) (Unit {0})
    unfolding on_input on_memory fetch allocate_field store_bytes
    bytes_of pointer data_size dest size =
        if ltb size_max size
        then error bytes_overflow
        else if pointer
        then (allocate_field dest (size + 4) 1 >> on_memory (fetch 8 dest) >>= store_bytes size)
        else if ltb data_size (size + 4)
        then error bytes_overflow
        else store_bytes size dest

    unfoldable pub dec_bytes : Bool → ℕ → ℕ → Call (Machine S) (Unit {0})
    unfolding on_input bytes_of
    dec_bytes pointer data_size dest = on_input decode_varint32 >>= bytes_of pointer data_size dest

    -- `alloc_size = size + 1` is a sum of 32 bits.
    unfoldable pub string_of : Bool → ℕ → ℕ → ℕ → Call (Machine S) (Unit {0})
    unfolding on_input on_memory fetch allocate_field store_string
    string_of pointer data_size dest size =
        if ltb (u32 (size + 1)) size
        then error size_too_large
        else if pointer
        then (allocate_field dest (u32 (size + 1)) 1
            >> on_memory (fetch 8 dest)
            >>= store_string size)
        else if ltb data_size (u32 (size + 1))
        then error string_overflow
        else store_string size dest

    unfoldable pub dec_string : Bool → ℕ → ℕ → Call (Machine S) (Unit {0})
    unfolding on_input string_of
    dec_string pointer data_size dest =
        on_input decode_varint32 >>= string_of pointer data_size dest
