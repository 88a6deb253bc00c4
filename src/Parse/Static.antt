-- ===== src/Parse/Static.antt =====
-- `decode_static_field` and `pb_dec_submessage`.
use bw_watermyplants.Common.{
  ℕ, zero, suc, ◌+◌, ◌*◌, List, Option, none, some, Bool, true, false, ltb, leb, ◌==◌, ◌!=◌, ◌&&◌,
  if◌then◌else◌, u32, u64,
}
use bw_watermyplants.Outcome.{
  done, fault, stuck, Call, ◌>>=◌, ◌>>◌, return, invalid_field_descriptor, array_overflow,
}
use bw_watermyplants.Memory.{Memory}
use bw_watermyplants.Memory.Store.{put, clear, fetch}
use bw_watermyplants.Istream.{Istream}
use bw_watermyplants.Field.{Field, Ltype, Htype, is_packable}
use bw_watermyplants.FieldIter.{is_pointer, is_repeated}
use bw_watermyplants.Encode.{wt_string}
use bw_watermyplants.Parse.Machine.{
  Machine, on_input, on_memory, error, inside, make_substream, close_with,
}
use bw_watermyplants.Parse.Values.{
  dec_bool, dec_varint, dec_uvarint, dec_svarint, dec_fixed32, dec_fixed64, dec_bytes, dec_string,
  dec_fixed_length_bytes,
}
use bw_watermyplants.Parse.Default.{is_submessage, message_set_to_defaults}

module _ {S : Type 0} where
  -- `pb_decode` on a field that is an entry of an array, `pb_decode_noinit` on others
  module _ (pb_decode pb_decode_noinit : ℕ → ℕ → Call (Machine S) (Unit {0})) where
    unfoldable pub submessage_decoder : Bool → ℕ → ℕ → Call (Machine S) (Unit {0})
    submessage_decoder repeated = if repeated then pb_decode else pb_decode_noinit

    unfoldable pub dec_submessage : Field ℕ → ℕ → Call (Machine S) (Unit {0})
    unfolding make_substream on_input inside close_with submessage_decoder
    dec_submessage field dest = make_substream >>= λ substream. elim field.ptr [
      | none ↦ error invalid_field_descriptor
      | some fields ↦
          (inside substream (submessage_decoder (is_repeated field.htype) fields dest)
            >>= close_with)
    ]

    module _ (realloc : Memory → ℕ → ℕ → ℕ × Memory) where
      -- `PB_DECODERS[PB_LTYPE(type)]`; the entry of an extension is NULL.
      unfoldable pub decoder : Ltype → Field ℕ → ℕ → Call (Machine S) (Unit {0})
      unfolding dec_submessage
      decoder Ltype.bool field = dec_bool
      decoder Ltype.varint field = dec_varint field.data_size
      decoder Ltype.uvarint field = dec_uvarint field.data_size
      decoder Ltype.svarint field = dec_svarint field.data_size
      decoder Ltype.fixed32 field = dec_fixed32
      decoder Ltype.fixed64 field = dec_fixed64
      decoder Ltype.bytes field = dec_bytes realloc (is_pointer field.atype) field.data_size
      decoder Ltype.string field = dec_string realloc (is_pointer field.atype) field.data_size
      decoder Ltype.submessage field = dec_submessage field
      decoder Ltype.extension field = λ dest s. fault
      decoder Ltype.fixed_length_bytes field = dec_fixed_length_bytes field.data_size

  -- `func` decodes an item at an address; `p_data` and `p_size` are the iterator's.
  module _ (func : ℕ → Call (Machine S) (Unit {0})) (field : Field ℕ) (p_data p_size : ℕ) where
    -- The place of item `n`; the product is one of two `pb_size_t`, of 32 bits.
    abbrev pub item : ℕ → ℕ
    item n = u64 (p_data + u32 (field.data_size * n))

    -- `while (substream.bytes_left > 0 && *size < array_size)`; an item takes a byte at least.
    unfoldable pub packed_items : ℕ → Call (Machine S) (Unit {0})
    unfolding on_memory put fetch
    packed_items zero s = stuck
    packed_items (suc fuel) s =
        (on_memory (fetch 4 p_size) >>= λ size s'.
        elim (s'.input.bytes_left != 0 && ltb size field.array_size) [
          | false ↦ done tt s'
          | true ↦
              (func (item size)
                  >> on_memory (fetch 4 p_size)
                  >>= (λ size'. on_memory (put 4 p_size (u32 (size' + 1))))
                  >> packed_items fuel)
                s'
        ])
          s

    -- Behind the loop: bytes that are left did not fit.
    unfoldable pub close_packed : Option (Unit {0}) × Istream S → Call (Machine S) (Unit {0})
    unfolding on_input close_with
    close_packed (status, substream) =
        if substream.bytes_left != 0 then error array_overflow else close_with (status, substream)

    unfoldable pub decode_packed : Call (Machine S) (Unit {0})
    unfolding make_substream inside packed_items close_packed
    decode_packed = make_substream >>= λ substream.
        inside substream (packed_items (substream.bytes_left + 1)) >>= close_packed

    -- One entry; the size counts it even where there is no room.
    unfoldable pub decode_entry : Call (Machine S) (Unit {0})
    unfolding on_input on_memory put fetch
    decode_entry = on_memory (fetch 4 p_size) >>= λ size.
        on_memory (put 4 p_size (u32 (size + 1)))
        >> (if leb field.array_size size then error array_overflow else func (item size))

    -- A submessage that becomes the current one of a oneof starts from its defaults.
    unfoldable pub start_oneof :
        (tables : ℕ → List (Field ℕ)) (depth : ℕ) → Call (Machine S) (Unit {0})
    unfolding on_memory fetch clear message_set_to_defaults
    start_oneof tables depth =
        if is_submessage field.ltype
        then (on_memory (fetch 4 p_size) >>= λ which.
            if which == field.tag
            then return tt
            else (on_memory (clear field.data_size p_data)
                >> on_memory (message_set_to_defaults tables depth field.ptr p_data)))
        else return tt

    unfoldable pub decode_static_as :
        (tables : ℕ → List (Field ℕ)) (depth : ℕ) → Htype → ℕ → Call (Machine S) (Unit {0})
    unfolding on_memory put decode_packed decode_entry start_oneof
    decode_static_as tables depth Htype.required wire_type = func p_data
    decode_static_as tables depth Htype.optional wire_type =
        (if p_size != p_data then on_memory (put 1 p_size 1) else return tt) >> func p_data
    decode_static_as tables depth Htype.repeated wire_type =
        if wire_type == wt_string && is_packable field.ltype then decode_packed else decode_entry
    decode_static_as tables depth Htype.oneof wire_type =
        start_oneof tables depth >> on_memory (put 4 p_size field.tag) >> func p_data
