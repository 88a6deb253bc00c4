-- ===== src/Parse/Default.antt =====
-- `pb_message_set_to_defaults` and `pb_field_set_to_default`.
use bw_watermyplants.Common.{
  ℕ, zero, suc, ◌+◌, List, Option, none, some, Bool, true, false, ◌==◌, ◌!=◌, if◌then◌else◌,
  get_elem?, length,
}
use bw_watermyplants.Outcome.{done, fault, stuck, Call, ◌>>=◌, ◌>>◌, return}
use bw_watermyplants.Memory.{Memory}
use bw_watermyplants.Memory.Store.{put, clear, fetch, copy_bytes}
use bw_watermyplants.Field.{Field, Ltype, Htype, Atype}
use bw_watermyplants.FieldIter.{Iter, begin, next, is_pointer, is_extension}

unfoldable pub is_submessage : Ltype → Bool
is_submessage Ltype.submessage = true
is_submessage _ = false

-- `*(T*)p` of what may not be there
unfoldable pub given : {A : Type 0} → Option A → Call Memory A
given none memory = fault
given (some a) memory = done a memory

module _ (tables : ℕ → List (Field ℕ)) where
  -- `extension->type->arg`, a pointer to a descriptor
  unfoldable pub extension_fields : ℕ → Call Memory ℕ
  unfolding fetch
  extension_fields extension = fetch 8 extension >>= λ type. fetch 8 (type + 16)

  -- `iter_from_extension`: `dest` stands at 8 and `found` at 24 of a `pb_extension_t`.
  unfoldable pub extension_iter : ℕ → ℕ → ℕ → Option (Bool × Iter ℕ) → Option (Iter ℕ)
  extension_iter fields extension dest none = none
  extension_iter fields extension dest (some (_, iter)) = elim (get_elem? (tables fields) 0) [
    | none ↦ none
    | some field ↦ some (record iter {
      p_data = if is_pointer field.atype then extension + 8 else dest;
      p_size = extension + 24;
    })
  ]

  unfoldable pub iter_from_extension : ℕ → Call Memory (Iter ℕ)
  unfolding extension_fields fetch given extension_iter
  iter_from_extension extension = extension_fields extension >>= λ fields.
      fetch 8 (extension + 8) >>= λ dest.
      given (extension_iter fields extension dest (begin (tables fields) dest))

  -- `do … while (pb_field_iter_next(&iter))` with `on_field` for each field
  unfoldable pub each_field :
      (Iter ℕ → Call Memory (Unit {0})) → ℕ → Iter ℕ → Call Memory (Unit {0})
  each_field on_field zero iter memory = stuck
  each_field on_field (suc fuel) iter memory =
      (on_field iter >> λ memory'. elim (next iter) [
        | none ↦ fault
        | some (false, _) ↦ done tt memory'
        | some (true, iter') ↦ each_field on_field fuel iter' memory'
      ])
        memory

  -- All fields of a message, if it has any
  unfoldable pub each_field_of :
      (Iter ℕ → Call Memory (Unit {0})) → Option ℕ → ℕ → Call Memory (Unit {0})
  unfolding each_field
  each_field_of on_field none dest_struct memory = fault
  each_field_of on_field (some fields) dest_struct memory =
      elim (begin (tables fields) dest_struct) [
        | none ↦ fault
        | some (false, _) ↦ done tt memory
        | some (true, iter) ↦ each_field on_field (length (tables fields)) iter memory
      ]

  -- `while (ext != NULL)` with `on_field` for the field of each extension; `next` stands at 16.
  unfoldable pub each_extension : (ℕ → Call Memory (Unit {0})) → ℕ → ℕ → Call Memory (Unit {0})
  unfolding fetch
  each_extension on_extension zero extension memory = stuck
  each_extension on_extension (suc fuel) extension memory = elim (extension == 0) [
    | true ↦ done tt memory
    | false ↦
        (on_extension extension >> fetch 8 (extension + 16) >>= each_extension on_extension fuel)
          memory
  ]

  module _ (fuel : ℕ) (set_to_default : Iter ℕ → Call Memory (Unit {0})) where
    -- `ext->found = false;` and the field of the extension
    unfoldable pub reset_extension : ℕ → Call Memory (Unit {0})
    unfolding put iter_from_extension
    reset_extension extension =
        put 1 (extension + 24) 0 >> iter_from_extension extension >>= set_to_default

    -- The data of a static field: its own defaults, the default value at `ptr`, or zeros.
    unfoldable pub reset_data : Field ℕ → ℕ → Call Memory (Unit {0})
    unfolding each_field_of copy_bytes clear
    reset_data field p_data =
        if is_submessage field.ltype
        then each_field_of set_to_default field.ptr p_data
        else elim field.ptr [
          | some value ↦ copy_bytes field.data_size value p_data
          | none ↦ clear field.data_size p_data
        ]

    unfoldable pub reset_static : Htype → Field ℕ → ℕ → ℕ → Call Memory (Unit {0})
    unfolding put reset_data
    reset_static Htype.required field p_data p_size = reset_data field p_data
    reset_static Htype.optional field p_data p_size =
        (if p_size != p_data then put 1 p_size 0 else return tt) >> reset_data field p_data
    reset_static Htype.repeated field p_data p_size = put 4 p_size 0
    reset_static Htype.oneof field p_data p_size = put 4 p_size 0

    unfoldable pub reset_pointer : Htype → ℕ → ℕ → Call Memory (Unit {0})
    unfolding put
    reset_pointer Htype.required p_data p_size = put 8 p_data 0
    reset_pointer Htype.optional p_data p_size = put 8 p_data 0
    reset_pointer Htype.repeated p_data p_size = put 8 p_data 0 >> put 4 p_size 0
    reset_pointer Htype.oneof p_data p_size = put 8 p_data 0 >> put 4 p_size 0

    unfoldable pub reset_as : Atype → Field ℕ → ℕ → ℕ → Call Memory (Unit {0})
    unfolding reset_static reset_pointer
    reset_as Atype.static field p_data p_size = reset_static field.htype field p_data p_size
    reset_as Atype.pointer field p_data p_size = reset_pointer field.htype p_data p_size
    reset_as Atype.callback field p_data p_size = return tt
    reset_as Atype.invalid field p_data p_size = return tt

    unfoldable pub reset_field : Iter ℕ → Call Memory (Unit {0})
    unfolding given fetch each_extension reset_extension reset_as
    reset_field iter = given (get_elem? iter.start iter.pos) >>= λ field.
        if is_extension field.ltype
        then (fetch 8 iter.p_data >>= each_extension reset_extension fuel)
        else reset_as field.atype field iter.p_data iter.p_size

  -- `pb_field_set_to_default`, for messages and extensions at most `depth` deep
  unfoldable pub field_set_to_default : ℕ → Iter ℕ → Call Memory (Unit {0})
  unfolding reset_field
  field_set_to_default zero iter memory = stuck
  field_set_to_default (suc depth) iter memory =
      reset_field depth (field_set_to_default depth) iter memory

  -- `pb_message_set_to_defaults(fields, dest_struct)`
  unfoldable pub message_set_to_defaults : ℕ → Option ℕ → ℕ → Call Memory (Unit {0})
  unfolding each_field_of
  message_set_to_defaults depth = each_field_of (field_set_to_default depth)
