-- ===== src/Message/Fields.antt =====
-- Fields and whole messages: `encode_basic_field`, `encode_callback_field`, `encode_field`, the
-- extensions, `pb_encode` and the functions on it.
use bw_watermyplants.Common.{
  ℕ, zero, suc, ◌+◌, List, [], ◌∷◌, none, some, Bool, true, false, ◌==◌, ◌!=◌, if◌then◌else◌,
  get_elem?, length, not,
}
use bw_watermyplants.Outcome.{
  Outcome, done, fail, fault, stuck, Call, ◌>>=◌, ◌>>◌, return, callback_error,
  missing_required_field, invalid_field_type,
}
use bw_watermyplants.Memory.{Memory, load, safe_read_bool}
use bw_watermyplants.Ostream.{Ostream, sizing, write, return_error}
use bw_watermyplants.Field.{Field, Htype, Atype}
use bw_watermyplants.FieldIter.{Iter, begin, next, add_offset, is_pointer, is_extension}
use bw_watermyplants.Encode.{encode_tag_for_field}
use bw_watermyplants.Message.Submessage.{encode_submessage}
use bw_watermyplants.Message.Values.{need, encoder, encode_array}
use bw_watermyplants.Message.Default.{is_default}

-- `memory` holds the structure and `tables` the descriptors at an address; `callback` and `extension`
-- are the functions of the user at an address; `null` is the pointer NULL as a stream's state.
module _ {S : Type 0} (memory : Memory) (tables : ℕ → List (Field ℕ)) (null : S)
    (callback : ℕ → Field ℕ → ℕ → Call (Ostream S) (Unit {0}))
    (extension : ℕ → ℕ → Call (Ostream S) (Unit {0})) where
  module _ (depth : ℕ) (pb_encode : ℕ → ℕ → Call (Ostream S) (Unit {0})) where
    -- `implicit_has` before the test of the pointer
    unfoldable pub implicit_has : Htype → Field ℕ → ℕ → Call (Ostream S) Bool
    unfolding need
    implicit_has Htype.optional field p =
        if field.size_offset != 0
        then return true
        else (need (is_default memory tables depth field p) >>= λ d. return (not d))
    implicit_has _ field p = return true

    -- `pData` of a field, behind its pointer if it is one
    unfoldable pub target : Field ℕ → ℕ → Call (Ostream S) ℕ
    unfolding need
    target field p = if is_pointer field.atype then need (load memory 8 p) else return p

    unfoldable pub encode_one : Field ℕ → ℕ → Call (Ostream S) (Unit {0})
    unfolding encoder
    encode_one field src =
        encode_tag_for_field field >> encoder memory null pb_encode field.ltype field src

    -- The `switch` on the repetition rule; `p` is the place of the field, `src` that of its data. The
    -- size of a oneof without `size_offset` would be read from a `bool`.
    unfoldable pub encode_by_rule : Htype → Bool → Field ℕ → ℕ → ℕ → Call (Ostream S) (Unit {0})
    unfolding need encode_one
    encode_by_rule Htype.required has field p src =
        if src == 0 then return_error missing_required_field else encode_one field src
    encode_by_rule Htype.optional has field p src =
        (if field.size_offset != 0
          then need (safe_read_bool memory (add_offset p field.size_offset))
          else return has)
        >>= λ present. if present then encode_one field src else return tt
    encode_by_rule Htype.repeated has field p src =
        (if field.size_offset != 0
          then need (load memory 4 (add_offset p field.size_offset))
          else return field.array_size)
        >>= λ count.
            encode_array memory null field (encoder memory null pb_encode field.ltype field) count
              src
    encode_by_rule Htype.oneof has field p src =
        (if field.size_offset != 0
          then need (load memory 4 (add_offset p field.size_offset))
          else need none)
        >>= λ tag. if tag == field.tag then encode_one field src else return tt

    unfoldable pub encode_basic_field : Field ℕ → ℕ → Call (Ostream S) (Unit {0})
    unfolding implicit_has target encode_by_rule
    encode_basic_field field p = implicit_has field.htype field p >>= λ has.
        target field p >>= λ src.
        encode_by_rule field.htype (if is_pointer field.atype then src != 0 else has) field p src

    -- `callback->funcs.encode` comes first in the structure, and `callback->arg` behind it.
    unfoldable pub encode_callback_field : Field ℕ → ℕ → Call (Ostream S) (Unit {0})
    unfolding need
    encode_callback_field field p = need (load memory 8 p) >>= λ encode s. elim (encode == 0) [
      | true ↦ done tt s
      | false ↦ elim (callback encode field (p + 8) s) [
        | done a s' ↦ done a s'
        | fail s' ↦ return_error callback_error s'
        | fault ↦ fault
        | stuck ↦ stuck
      ]
    ]

    unfoldable pub encode_field_as : Atype → Field ℕ → ℕ → Call (Ostream S) (Unit {0})
    unfolding encode_basic_field encode_callback_field
    encode_field_as Atype.static = encode_basic_field
    encode_field_as Atype.pointer = encode_basic_field
    encode_field_as Atype.callback = encode_callback_field
    encode_field_as Atype.invalid = λ field p. return_error invalid_field_type

    abbrev pub encode_field : Field ℕ → ℕ → Call (Ostream S) (Unit {0})
    encode_field field = encode_field_as field.atype field

    -- `dest` stands eight bytes into a `pb_extension_t`.
    unfoldable pub default_extension_encoder : ℕ → ℕ → Call (Ostream S) (Unit {0})
    unfolding need encode_field_as
    default_extension_encoder arg p = elim (get_elem? (tables arg) 0) [
      | none ↦ λ s. fault
      | some field ↦
          if is_pointer field.atype
          then encode_field field (p + 8)
          else (need (load memory 8 (p + 8)) >>= encode_field field)
    ]

    -- One extension: its type holds the functions to decode and to encode it, and `arg`.
    unfoldable pub encode_extension : ℕ → Call (Ostream S) (Unit {0})
    unfolding need default_extension_encoder
    encode_extension p = need (load memory 8 p) >>= λ type.
        need (load memory 8 (type + 8)) >>= λ encode.
        if encode != 0
        then extension encode p
        else (need (load memory 8 (type + 16)) >>= λ arg. default_extension_encoder arg p)

    -- `while (extension)`; `next` stands sixteen bytes into a `pb_extension_t`.
    unfoldable pub encode_extensions : ℕ → ℕ → Call (Ostream S) (Unit {0})
    unfolding need encode_extension
    encode_extensions zero p s = stuck
    encode_extensions (suc fuel) p s = elim (p == 0) [
      | true ↦ done tt s
      | false ↦ (encode_extension p >> need (load memory 8 (p + 16)) >>= encode_extensions fuel) s
    ]

    unfoldable pub encode_extension_field : ℕ → Call (Ostream S) (Unit {0})
    unfolding need encode_extensions
    encode_extension_field p = need (load memory 8 p) >>= encode_extensions depth

    -- `do … while (pb_field_iter_next(&iter))`
    unfoldable pub encode_fields : ℕ → Iter ℕ → Call (Ostream S) (Unit {0})
    unfolding encode_extension_field encode_field_as
    encode_fields zero iter s = stuck
    encode_fields (suc fuel) iter s = elim (get_elem? iter.start iter.pos) [
      | none ↦ fault
      | some field ↦
          ((if is_extension field.ltype
                then encode_extension_field iter.p_data
                else encode_field field iter.p_data)
              >>= λ _ s'. elim (next iter) [
                | none ↦ fault
                | some (false, _) ↦ done tt s'
                | some (true, iter') ↦ encode_fields fuel iter' s'
              ])
            s
    ]

    -- The body of `pb_encode`
    unfoldable pub encode_message : ℕ → ℕ → Call (Ostream S) (Unit {0})
    unfolding encode_fields
    encode_message fields src s = elim (begin (tables fields) src) [
      | none ↦ fault
      | some (false, _) ↦ done tt s
      | some (true, iter) ↦ encode_fields (length (tables fields)) iter s
    ]

  -- `pb_encode(stream, fields, src_struct)` for messages and extensions at most `depth` deep
  unfoldable pub encode : ℕ → ℕ → ℕ → Call (Ostream S) (Unit {0})
  unfolding encode_message
  encode zero fields src s = stuck
  encode (suc depth) fields src s = encode_message (suc depth) (encode depth) fields src s

  unfoldable pub encode_delimited : ℕ → ℕ → ℕ → Call (Ostream S) (Unit {0})
  encode_delimited depth fields src = encode_submessage null (encode depth fields src)

  unfoldable pub encode_nullterminated : ℕ → ℕ → ℕ → Call (Ostream S) (Unit {0})
  encode_nullterminated depth fields src = encode depth fields src >> write (0 ∷ []) 1

  -- `pb_get_encoded_size`: the size, or false
  unfoldable pub get_encoded_size : ℕ → ℕ → ℕ → Outcome (Ostream S) ℕ
  get_encoded_size depth fields src = elim (encode depth fields src (sizing null)) [
    | done _ s ↦ done s.bytes_written s
    | fail s ↦ fail s
    | fault ↦ fault
    | stuck ↦ stuck
  ]
