-- ===== src/Parse/Pointer.antt =====
-- `decode_pointer_field` and `initialize_pointer_field`.
use bw_watermyplants.Common.{
  ℕ, zero, suc, ◌+◌, ◌-◌, ◌*◌, ◌/◌, ◌^◌, List, Option, none, some, Bool, true, false, ltb, ◌==◌,
  ◌&&◌, if◌then◌else◌, u32, u64,
}
use bw_watermyplants.Outcome.{done, fault, stuck, Call, ◌>>=◌, ◌>>◌, return, too_many_array_entries}
use bw_watermyplants.Memory.{Memory}
use bw_watermyplants.Memory.Store.{put, clear, fetch}
use bw_watermyplants.Istream.{Istream}
use bw_watermyplants.Field.{Field, Htype, is_packable, size_max}
use bw_watermyplants.FieldIter.{Iter, is_oneof}
use bw_watermyplants.Encode.{wt_string}
use bw_watermyplants.Message.Values.{is_string_or_bytes}
use bw_watermyplants.Parse.Machine.{
  Machine, on_input, on_memory, error, inside, make_substream, close_with,
}
use bw_watermyplants.Parse.Values.{allocate_field}
use bw_watermyplants.Parse.Default.{is_submessage, message_set_to_defaults}
use bw_watermyplants.Parse.Release.{release_single_field}

module _ {S : Type 0} (tables : ℕ → List (Field ℕ)) (realloc : Memory → ℕ → ℕ → ℕ × Memory)
    (free : Memory → ℕ → Memory) (depth : ℕ) (func : ℕ → Call (Machine S) (Unit {0}))
    (field : Field ℕ) (iter : Iter ℕ) where
  -- A new item: NULL for a pointer, the defaults for a submessage.
  unfoldable pub initialize_pointer_field : ℕ → Call Memory (Unit {0})
  unfolding put clear message_set_to_defaults
  initialize_pointer_field item =
      if is_string_or_bytes field.ltype
      then put 8 item 0
      else if is_submessage field.ltype
      then clear field.data_size item >> message_set_to_defaults tables depth field.ptr item
      else return tt

  -- A submessage that is there already is released first.
  unfoldable pub release_duplicate : Call Memory (Unit {0})
  unfolding fetch release_single_field
  release_duplicate =
      if is_submessage field.ltype
      then (fetch 8 iter.p_data >>= λ p.
          if p == 0 then return tt else release_single_field tables free depth iter)
      else return tt

  unfoldable pub decode_single : Call (Machine S) (Unit {0})
  unfolding on_memory put fetch allocate_field release_duplicate initialize_pointer_field
  decode_single =
      on_memory release_duplicate
      >> (if is_oneof field.htype then on_memory (put 4 iter.p_size field.tag) else return tt)
      >> (if is_string_or_bytes field.ltype
          then func iter.p_data
          else (allocate_field realloc iter.p_data field.data_size 1
              >> on_memory (fetch 8 iter.p_data)
              >>= λ p. on_memory (initialize_pointer_field p) >> func p))

  -- The entry behind the last one, once there is room for it; the product is one of two `pb_size_t`, of
  -- 32 bits.
  unfoldable pub decode_new_entry : ℕ → Call (Machine S) (Unit {0})
  unfolding on_memory fetch initialize_pointer_field
  decode_new_entry size = on_memory (fetch 8 iter.p_data) >>= λ p.
      on_memory (initialize_pointer_field (u64 (p + u32 (field.data_size * size))))
      >> func (u64 (p + u32 (field.data_size * size)))

  -- The guess of `allocated_size` from the bytes that are left
  unfoldable pub grown : ℕ → ℕ → ℕ
  grown allocated_size bytes_left =
      let remain = (bytes_left - 1) / field.data_size + 1 in
      if ltb remain (u64 (2 ^ 64 + size_max - allocated_size))
      then allocated_size + remain
      else u64 (allocated_size + 1)

  -- Room for entry `size`: the entries that are allocated then. A `data_size` of 0 would be divided by.
  unfoldable pub make_room : ℕ → ℕ → Call (Machine S) ℕ
  unfolding allocate_field grown
  make_room allocated_size size s =
      if ltb allocated_size (size + 1)
      then elim (field.data_size == 0) [
        | true ↦ fault
        | false ↦
            (allocate_field realloc iter.p_data field.data_size
                  (grown allocated_size s.input.bytes_left)
                >> return (grown allocated_size s.input.bytes_left))
              s
      ]
      else done allocated_size s

  -- `while (substream.bytes_left)`; it returns whether it stopped at "too many array entries". An entry
  -- takes a byte at least.
  unfoldable pub pointer_items : ℕ → ℕ → Call (Machine S) Bool
  unfolding on_memory put fetch make_room decode_new_entry
  pointer_items zero allocated_size s = stuck
  pointer_items (suc fuel) allocated_size s = elim (s.input.bytes_left == 0) [
    | true ↦ done false s
    | false ↦
        (on_memory (fetch 4 iter.p_size) >>= λ size s'. elim (size == size_max) [
          | true ↦ done true s'
          | false ↦
              (make_room allocated_size size >>= λ allocated_size'.
              decode_new_entry size
              >> on_memory (fetch 4 iter.p_size)
              >>= (λ size'. on_memory (put 4 iter.p_size (u32 (size' + 1))))
              >> pointer_items fuel allocated_size')
                s'
        ])
          s
  ]

  -- Behind the loop; "too many array entries" replaces the message of the stream and is a failure.
  unfoldable pub close_items : Option Bool × Istream S → Call (Machine S) (Unit {0})
  unfolding close_with
  close_items (some true, substream) s =
      close_with {A = Bool} (none, substream)
        (record s { input = record s.input { errmsg = some too_many_array_entries } })
  close_items (some false, substream) s = close_with (some tt, substream) s
  close_items (none, substream) s = close_with {A = Bool} (none, substream) s

  unfoldable pub decode_packed_items : Call (Machine S) (Unit {0})
  unfolding on_memory fetch make_substream inside pointer_items close_items
  decode_packed_items = on_memory (fetch 4 iter.p_size) >>= λ size. make_substream >>= λ substream.
      inside substream (pointer_items (substream.bytes_left + 1) size) >>= close_items

  unfoldable pub decode_one_item : Call (Machine S) (Unit {0})
  unfolding on_input on_memory put fetch allocate_field initialize_pointer_field
  decode_one_item = on_memory (fetch 4 iter.p_size) >>= λ size.
      if size == size_max
      then error too_many_array_entries
      else (allocate_field realloc iter.p_data field.data_size (u32 (size + 1))
          >> on_memory (fetch 8 iter.p_data)
          >>= λ p.
              on_memory (put 4 iter.p_size (u32 (size + 1)))
              >> on_memory (initialize_pointer_field (u64 (p + u32 (field.data_size * size))))
              >> func (u64 (p + u32 (field.data_size * size))))

  unfoldable pub decode_pointer_as : Htype → ℕ → Call (Machine S) (Unit {0})
  unfolding decode_single decode_packed_items decode_one_item
  decode_pointer_as Htype.required wire_type = decode_single
  decode_pointer_as Htype.optional wire_type = decode_single
  decode_pointer_as Htype.oneof wire_type = decode_single
  decode_pointer_as Htype.repeated wire_type =
      if wire_type == wt_string && is_packable field.ltype
      then decode_packed_items
      else decode_one_item
