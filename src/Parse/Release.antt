-- ===== src/Parse/Release.antt =====
-- `pb_release` and `pb_release_single_field`. `free` is `pb_free`: the memory behind it.
use bw_watermyplants.Common.{
  ℕ, zero, suc, ◌+◌, List, Option, Bool, true, false, ltb, ◌==◌, ◌&&◌, if◌then◌else◌, get_elem?,
  u64,
}
use bw_watermyplants.Outcome.{done, stuck, Call, ◌>>=◌, ◌>>◌, return}
use bw_watermyplants.Memory.{Memory}
use bw_watermyplants.Memory.Store.{put, fetch}
use bw_watermyplants.Field.{Field, Atype}
use bw_watermyplants.FieldIter.{Iter, is_pointer, is_static, is_repeated, is_oneof, is_extension}
use bw_watermyplants.Message.Values.{is_string_or_bytes}
use bw_watermyplants.Parse.Default.{
  is_submessage, given, each_field_of, each_extension, iter_from_extension,
}

abbrev pub is_callback : Atype → Bool
is_callback Atype.static = false
is_callback Atype.callback = true
is_callback Atype.pointer = false
is_callback Atype.invalid = false

module _ (tables : ℕ → List (Field ℕ)) (free : Memory → ℕ → Memory) where
  unfoldable pub free_block : ℕ → Call Memory (Unit {0})
  free_block p memory = done tt (free memory p)

  -- `while (count--) { pb_free(*pItem); *pItem++ = NULL; }`
  unfoldable pub free_entries : ℕ → ℕ → Call Memory (Unit {0})
  unfolding free_block put fetch
  free_entries zero item = return tt
  free_entries (suc count) item =
      fetch 8 item >>= free_block >> put 8 item 0 >> free_entries count (item + 8)

  -- The pointer itself, and before it what a repeated field needs
  unfoldable pub release_pointer : Field ℕ → ℕ → ℕ → Call Memory (Unit {0})
  unfolding free_entries free_block put fetch
  release_pointer field p_data p_size =
      (if is_repeated field.htype && is_string_or_bytes field.ltype
        then (fetch 8 p_data >>= λ item. fetch 4 p_size >>= λ count. free_entries count item)
        else return tt)
      >> (if is_repeated field.htype then put 4 p_size 0 else return tt)
      >> fetch 8 p_data
      >>= free_block
      >> put 8 p_data 0

  module _ (fuel : ℕ) (release_field : Iter ℕ → Call Memory (Unit {0})) where
    -- `pb_release`: NULL is ignored.
    unfoldable pub release_message : Option ℕ → ℕ → Call Memory (Unit {0})
    unfolding each_field_of
    release_message fields dest_struct =
        if dest_struct == 0
        then return tt
        else each_field_of tables release_field fields dest_struct

    -- `while (count--)` over the submessages of an array
    unfoldable pub release_items : ℕ → Field ℕ → ℕ → Call Memory (Unit {0})
    unfolding release_message
    release_items zero field item = return tt
    release_items (suc count) field item =
        release_message field.ptr item >> release_items count field (u64 (item + field.data_size))

    -- How many submessages there are; a count above the size of a static array is corrupted.
    unfoldable pub item_count : Field ℕ → ℕ → ℕ → Call Memory ℕ
    unfolding fetch
    item_count field p_data p_size =
        if is_repeated field.htype
        then ((if is_static field.atype && p_size == p_data
              then return field.array_size
              else fetch 4 p_size)
            >>= λ count. return (
                if is_static field.atype && ltb field.array_size count
                then field.array_size
                else count))
        else return 1

    unfoldable pub release_submessages : Field ℕ → ℕ → ℕ → Call Memory (Unit {0})
    unfolding fetch release_items item_count
    release_submessages field p_data p_size =
        (if is_pointer field.atype then fetch 8 p_data else return p_data) >>= λ item.
        item_count field p_data p_size >>= λ count.
        if item == 0 then return tt else release_items count field item

    -- What lies inside an extension or a submessage
    unfoldable pub release_contents : Field ℕ → ℕ → ℕ → Call Memory (Unit {0})
    unfolding fetch each_extension iter_from_extension release_submessages
    release_contents field p_data p_size =
        if is_extension field.ltype
        then (fetch 8 p_data
            >>= each_extension tables
                (λ extension. iter_from_extension tables extension >>= release_field) fuel)
        else if is_submessage field.ltype && (if is_callback field.atype then false else true)
        then release_submessages field p_data p_size
        else return tt

    unfoldable pub release_all_of : Field ℕ → ℕ → ℕ → Call Memory (Unit {0})
    unfolding release_contents release_pointer
    release_all_of field p_data p_size =
        release_contents field p_data p_size
        >> (if is_pointer field.atype then release_pointer field p_data p_size else return tt)

    -- A oneof is released only where it is the current one.
    unfoldable pub release_current : Iter ℕ → Call Memory (Unit {0})
    unfolding given fetch release_all_of
    release_current iter = given (get_elem? iter.start iter.pos) >>= λ field.
        if is_oneof field.htype
        then (fetch 4 iter.p_size >>= λ which.
            if which == field.tag then release_all_of field iter.p_data iter.p_size else return tt)
        else release_all_of field iter.p_data iter.p_size

  -- `pb_release_single_field`, for messages and extensions at most `depth` deep
  unfoldable pub release_single_field : ℕ → Iter ℕ → Call Memory (Unit {0})
  unfolding release_current
  release_single_field zero iter memory = stuck
  release_single_field (suc depth) iter memory =
      release_current depth (release_single_field depth) iter memory

  -- `pb_release(fields, dest_struct)`
  unfoldable pub release : ℕ → Option ℕ → ℕ → Call Memory (Unit {0})
  unfolding release_message
  release depth = release_message depth (release_single_field depth)
