-- ===== src/Parse/Fields.antt =====
-- `decode_field`, the unions before it, and the extensions.
use bw_watermyplants.Common.{
  ℕ, zero, suc, ◌+◌, List, Option, none, some, Bool, true, false, ◌==◌, if◌then◌else◌, get_elem?,
  length,
}
use bw_watermyplants.Outcome.{
  done, fault, stuck, Call, ◌>>=◌, ◌>>◌, return, invalid_field_type, invalid_union_tag,
  iterator_error,
}
use bw_watermyplants.Memory.{Memory}
use bw_watermyplants.Memory.Store.{put, fetch}
use bw_watermyplants.Field.{Field, Atype}
use bw_watermyplants.FieldIter.{Iter, next, find, is_oneof, is_extension}
use bw_watermyplants.Parse.Machine.{Machine, on_input, on_memory, error}
use bw_watermyplants.Parse.Default.{given, iter_from_extension}
use bw_watermyplants.Parse.Release.{release_single_field}
use bw_watermyplants.Parse.Static.{decoder, decode_static_as}
use bw_watermyplants.Parse.Pointer.{decode_pointer_as}
use bw_watermyplants.Parse.Callback.{decode_callback_field}

-- `do … while (iter->pos != start)` of `find_extension_field`; `none` too where the fuel runs out
unfoldable pub find_extension_loop : ℕ → ℕ → Iter ℕ → Option (Bool × Iter ℕ)
unfolding next
find_extension_loop zero start iter = none
find_extension_loop (suc fuel) start iter = elim (get_elem? iter.start iter.pos) [
  | none ↦ none
  | some field ↦ elim (is_extension field.ltype) [
    | true ↦ some (true, iter)
    | false ↦ elim (next iter) [
      | none ↦ none
      | some (_, iter') ↦ elim (iter'.pos == start) [
        | true ↦ some (false, iter')
        | false ↦ find_extension_loop fuel start iter'
      ]
    ]
  ]
]

-- A round for each descriptor is enough.
unfoldable pub find_extension_field : Iter ℕ → Option (Bool × Iter ℕ)
unfolding find_extension_loop
find_extension_field iter = find_extension_loop (length iter.start) iter.pos iter

module _ {S : Type 0} (tables : ℕ → List (Field ℕ)) (realloc : Memory → ℕ → ℕ → ℕ × Memory)
    (free : Memory → ℕ → Memory) (rounds : ℕ)
    (callback : (T : Type 0) → ℕ → Field ℕ → ℕ → Call (Machine T) (Unit {0}))
    (extension : (T : Type 0) → ℕ → ℕ → ℕ → ℕ → Call (Machine T) (Unit {0})) (depth : ℕ)
    (pb_decode pb_decode_noinit : ℕ → ℕ → Call (Machine S) (Unit {0})) where
  -- What stands at the position of an iterator
  unfoldable pub field_of : Iter ℕ → Call (Machine S) (Field ℕ)
  unfolding on_memory given
  field_of iter = on_memory (given (get_elem? iter.start iter.pos))

  -- The old field of a union is released, and the iterator goes back to the new one.
  unfoldable pub restore_iter : ℕ → Option (Bool × Iter ℕ) → Call (Machine S) (Iter ℕ)
  unfolding on_input
  restore_iter new_tag none s = fault
  restore_iter new_tag (some (false, iter)) s = error iterator_error s
  restore_iter new_tag (some (true, iter)) s = done iter s

  unfoldable pub release_found : ℕ → Option (Bool × Iter ℕ) → Call (Machine S) (Iter ℕ)
  unfolding on_input on_memory release_single_field restore_iter find
  release_found new_tag none s = fault
  release_found new_tag (some (false, iter)) s = error invalid_union_tag s
  release_found new_tag (some (true, iter)) s =
      (on_memory (release_single_field tables free depth iter)
          >> restore_iter new_tag (find (length iter.start) new_tag iter))
        s

  -- `pb_release_union_field`; the iterator as it leaves it
  unfoldable pub release_union_field : Field ℕ → Iter ℕ → Call (Machine S) (Iter ℕ)
  unfolding on_memory fetch release_found find
  release_union_field field iter = on_memory (fetch 4 iter.p_size) >>= λ old_tag.
      if old_tag == 0
      then return iter
      else if old_tag == field.tag
      then return iter
      else release_found field.tag (find (length iter.start) old_tag iter)

  unfoldable pub decode_as : Atype → Field ℕ → ℕ → Iter ℕ → Call (Machine S) (Unit {0})
  unfolding on_input decoder decode_static_as decode_pointer_as decode_callback_field
  decode_as Atype.static field wire_type iter =
      decode_static_as (decoder pb_decode pb_decode_noinit realloc field.ltype field) field
        iter.p_data iter.p_size tables depth field.htype wire_type
  decode_as Atype.pointer field wire_type iter =
      decode_pointer_as tables realloc free depth
        (decoder pb_decode pb_decode_noinit realloc field.ltype field) field iter field.htype
        wire_type
  decode_as Atype.callback field wire_type iter =
      decode_callback_field rounds callback field iter.p_data wire_type
  decode_as Atype.invalid field wire_type iter = error invalid_field_type

  -- `decode_field(stream, wire_type, iter)`; the iterator as it leaves it
  unfoldable pub decode_field : ℕ → Iter ℕ → Call (Machine S) (Iter ℕ)
  unfolding field_of release_union_field decode_as
  decode_field wire_type iter = field_of iter >>= λ field.
      (if is_oneof field.htype then release_union_field field iter else return iter) >>= λ iter'.
      field_of iter' >>= λ field'. decode_as field'.atype field' wire_type iter' >> return iter'

  -- `default_extension_decoder` with `arg` of the extension's type; `found` stands at 24.
  unfoldable pub default_extension_decoder : ℕ → ℕ → ℕ → ℕ → Call (Machine S) (Unit {0})
  unfolding on_memory given put iter_from_extension decode_field
  default_extension_decoder arg ext tag wire_type =
      on_memory (given (get_elem? (tables arg) 0)) >>= λ field.
      if field.tag == tag
      then (on_memory (iter_from_extension tables ext) >>= λ iter.
          on_memory (put 1 (ext + 24) 1) >> decode_field wire_type iter >> return tt)
      else return tt

  -- One extension: the function of its type to decode, or the default one
  unfoldable pub decode_one_extension : ℕ → ℕ → ℕ → Call (Machine S) (Unit {0})
  unfolding on_memory fetch default_extension_decoder
  decode_one_extension ext tag wire_type = on_memory (fetch 8 ext) >>= λ type.
      on_memory (fetch 8 type) >>= λ decode.
      if decode == 0
      then (on_memory (fetch 8 (type + 16)) >>= λ arg.
          default_extension_decoder arg ext tag wire_type)
      else extension S decode ext tag wire_type

  -- `while (extension != NULL && pos == stream->bytes_left)`; `next` stands at 16.
  unfoldable pub decode_extensions : ℕ → ℕ → ℕ → ℕ → ℕ → Call (Machine S) (Unit {0})
  unfolding on_memory fetch decode_one_extension
  decode_extensions zero pos ext tag wire_type s = stuck
  decode_extensions (suc fuel) pos ext tag wire_type s = elim (ext == 0) [
    | true ↦ done tt s
    | false ↦ elim (pos == s.input.bytes_left) [
      | false ↦ done tt s
      | true ↦
          (decode_one_extension ext tag wire_type >> on_memory (fetch 8 (ext + 16)) >>= λ next_ext.
          decode_extensions fuel pos next_ext tag wire_type)
            s
    ]
  ]

  -- `decode_extension`; `depth` bounds the list of extensions.
  unfoldable pub decode_extension : ℕ → ℕ → ℕ → Call (Machine S) (Unit {0})
  unfolding on_memory fetch decode_extensions
  decode_extension p_data tag wire_type s =
      (on_memory (fetch 8 p_data) >>= λ ext.
      decode_extensions depth s.input.bytes_left ext tag wire_type)
        s
