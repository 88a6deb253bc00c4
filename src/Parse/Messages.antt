-- ===== src/Parse/Messages.antt =====
-- `pb_decode_noinit`, `pb_decode` and the functions on them.
use bw_watermyplants.Common.{
  ℕ, zero, suc, ◌+◌, ◌^◌, ◌-◌, List, Option, none, some, Bool, true, false, leb, ◌==◌, ◌!=◌, ◌&&◌,
  if◌then◌else◌, get_elem?, length,
}
use bw_watermyplants.Outcome.{
  done, fail, fault, stuck, Call, ◌>>=◌, ◌>>◌, return, missing_required_field, wrong_fixed_count,
}
use bw_watermyplants.Memory.{Memory}
use bw_watermyplants.Memory.Store.{put, fetch}
use bw_watermyplants.Field.{Field}
use bw_watermyplants.FieldIter.{Iter, begin, next, find, is_required, is_repeated}
use bw_watermyplants.Decode.{Received, received, at_eof, decode_tag, skip_field}
use bw_watermyplants.Parse.Machine.{
  Machine, on_input, on_memory, error, inside, make_substream, close_with,
}
use bw_watermyplants.Parse.Default.{given, message_set_to_defaults}
use bw_watermyplants.Parse.Release.{release}
use bw_watermyplants.Parse.Fields.{find_extension_field, decode_field, decode_extension, field_of}
use bw_watermyplants.Parse.Required.{Seen, mark, has_required}

-- The variables of `pb_decode_noinit`. `fixed_count_field` is the index of the field and its
-- `array_size`; `fixed_count_size` lies in memory, where `iter.pSize` can point to it.
pub record Progress : Type 0 where
  pub iter : Iter ℕ
  pub seen : Seen
  pub extension_range_start : ℕ
  pub fixed_count_field : Option (ℕ × ℕ)

-- The number of required fields, once the iterator has come to the end of the table: the index at the
-- last field, and one more if that is required too. `none` where the fuel runs out.
unfoldable pub count_required_fields : ℕ → Iter ℕ → Option ℕ
unfolding next
count_required_fields zero iter = none
count_required_fields (suc fuel) iter = elim (get_elem? iter.start iter.pos) [
  | none ↦ none
  | some last ↦ elim (next iter) [
    | none ↦ none
    | some (true, iter') ↦ count_required_fields fuel iter'
    | some (false, iter') ↦ elim (get_elem? iter'.start iter'.pos) [
      | none ↦ none
      | some field ↦ some (
          if is_required last.htype && (field.tag != 0)
          then iter.required_field_index + 1
          else iter.required_field_index)
    ]
  ]
]

-- Whether the field at `pos` is the one that is counted
unfoldable pub is_counted : Option (ℕ × ℕ) → ℕ → Bool
is_counted none pos = false
is_counted (some (p, _)) pos = p == pos

abbrev pub mark_required : Field ℕ → Progress → Progress
mark_required field p =
    if is_required field.htype
    then record p { seen = mark p.iter.required_field_index p.seen }
    else p

module _ {S : Type 0} (tables : ℕ → List (Field ℕ)) (realloc : Memory → ℕ → ℕ → ℕ × Memory)
    (free : Memory → ℕ → Memory) (rounds : ℕ)
    (callback : (T : Type 0) → ℕ → Field ℕ → ℕ → Call (Machine T) (Unit {0}))
    (extension : (T : Type 0) → ℕ → ℕ → ℕ → ℕ → Call (Machine T) (Unit {0})) where
  -- `slot` is the address of `fixed_count_size`.
  module _ (slot : ℕ) where
    -- `fixed_count_size != fixed_count_field->array_size`, if there is such a field
    unfoldable pub check_fixed_count : Option (ℕ × ℕ) → Call (Machine S) (Unit {0})
    unfolding on_input on_memory fetch
    check_fixed_count none = return tt
    check_fixed_count (some (_, array_size)) = on_memory (fetch 4 slot) >>= λ size.
        if size == array_size then return tt else error wrong_fixed_count

    -- Another field than the one before: that must be complete, and the count starts again.
    unfoldable pub change_fixed_count : Option (ℕ × ℕ) → ℕ → ℕ → Call (Machine S) (Option (ℕ × ℕ))
    unfolding on_memory put check_fixed_count
    change_fixed_count old pos array_size =
        check_fixed_count old >> on_memory (put 4 slot 0) >> return (some (pos, array_size))

    -- A repeated field without a counter in the structure gets the local one.
    unfoldable pub use_fixed_count : Field ℕ → Progress → Call (Machine S) Progress
    unfolding change_fixed_count is_counted
    use_fixed_count field p =
        if is_repeated field.htype && p.iter.p_size == p.iter.p_data
        then ((if is_counted p.fixed_count_field p.iter.pos
              then return p.fixed_count_field
              else change_fixed_count p.fixed_count_field p.iter.pos field.array_size)
            >>= λ counted.
                return (record p {
                  fixed_count_field = counted;
                  iter = record p.iter { p_size = slot };
                }))
        else return p

    module _ (depth : ℕ) (pb_decode pb_decode_noinit : ℕ → ℕ → Call (Machine S) (Unit {0})) where
      -- A field of the message
      unfoldable pub known_field : Progress → ℕ → Call (Machine S) Progress
      unfolding field_of use_fixed_count mark decode_field
      known_field p wire_type =
          field_of tables realloc free rounds callback extension depth pb_decode pb_decode_noinit
            p.iter
          >>= λ field. use_fixed_count field p >>= λ p'.
              decode_field tables realloc free rounds callback extension depth pb_decode
                pb_decode_noinit wire_type p'.iter
              >>= λ iter'. return (record (mark_required field p') { iter = iter' })

      -- The place of the extensions, once it is looked up
      unfoldable pub find_range : Progress → Option (Bool × Iter ℕ) → Call (Machine S) Progress
      unfolding on_memory given
      find_range p none s = fault
      find_range p (some (false, iter)) s =
          done (record p { iter = iter; extension_range_start = 2 ^ 32 - 1 }) s
      find_range p (some (true, iter)) s =
          (on_memory (given (get_elem? iter.start iter.pos)) >>= λ field.
          return (record p { iter = iter; extension_range_start = field.tag }))
            s

      -- No extension handled the field where the stream stands as before.
      unfoldable pub skip_unhandled : ℕ → ℕ → Call (Machine S) (Unit {0})
      unfolding on_input
      skip_unhandled pos wire_type s =
          if pos == s.input.bytes_left then on_input (skip_field wire_type) s else done tt s

      unfoldable pub try_extensions : Progress → ℕ → ℕ → Call (Machine S) Progress
      unfolding on_input decode_extension skip_unhandled
      try_extensions p tag wire_type s =
          if leb p.extension_range_start tag
          then (decode_extension tables realloc free rounds callback extension depth pb_decode
                  pb_decode_noinit p.iter.p_data tag wire_type
                >> skip_unhandled s.input.bytes_left wire_type
                >> return p)
              s
          else (on_input (skip_field wire_type) >> return p) s

      -- A field that the message does not have
      unfoldable pub unknown_field : Progress → ℕ → ℕ → Call (Machine S) Progress
      unfolding on_input find_range try_extensions find_extension_field
      unknown_field p tag wire_type =
          if leb p.extension_range_start tag
          then (find_range p (find_extension_field p.iter) >>= λ p'.
              try_extensions p' tag wire_type)
          else (on_input (skip_field wire_type) >> return p)

      unfoldable pub field_found :
          Progress → ℕ → ℕ → Option (Bool × Iter ℕ) → Call (Machine S) Progress
      unfolding known_field unknown_field
      field_found p tag wire_type none s = fault
      field_found p tag wire_type (some (false, iter)) s =
          unknown_field (record p { iter = iter }) tag wire_type s
      field_found p tag wire_type (some (true, iter)) s =
          known_field (record p { iter = iter }) wire_type s

      -- One round behind `pb_decode_tag`; `none` ends the loop, and `more` is the rest of it.
      unfoldable pub after_tag :
          (Progress → Call (Machine S) Progress)
          → Progress
          → Received (ℕ × ℕ)
          → Call (Machine S) Progress
      unfolding field_found find
      after_tag more p at_eof = return p
      after_tag more p (received (wire_type, tag)) =
          field_found p tag wire_type (find (length p.iter.start) tag p.iter) >>= more

      -- `while (stream->bytes_left)`; a round takes a byte at least, so `bytes_left + 1` rounds are enough.
      unfoldable pub decode_loop : ℕ → Progress → Call (Machine S) Progress
      unfolding on_input decode_tag after_tag
      decode_loop zero p s = stuck
      decode_loop (suc fuel) p s = elim (s.input.bytes_left == 0) [
        | true ↦ done p s
        | false ↦ (on_input decode_tag >>= after_tag (decode_loop fuel) p) s
      ]

      -- The check that all required fields were there
      unfoldable pub check_required : Progress → Call (Machine S) (Unit {0})
      unfolding on_input on_memory given count_required_fields has_required
      check_required p =
          on_memory (given (count_required_fields (length p.iter.start) p.iter)) >>= λ count.
          if has_required count p.seen then return tt else error missing_required_field

      unfoldable pub decode_from : Iter ℕ → Call (Machine S) (Unit {0})
      unfolding on_memory put decode_loop check_fixed_count check_required
      decode_from iter s =
          (on_memory (put 4 slot 0)
              >> decode_loop (s.input.bytes_left + 1) (record {
                iter = iter;
                seen = record { low = 0; high = 0 };
                extension_range_start = 0;
                fixed_count_field = none;
              })
              >>= λ p. check_fixed_count p.fixed_count_field >> check_required p)
            s

      unfoldable pub decode_fields : ℕ → ℕ → Call (Machine S) (Unit {0})
      unfolding decode_from
      decode_fields fields dest_struct = elim (begin (tables fields) dest_struct) [
        | none ↦ λ s. fault
        | some (_, iter) ↦ decode_from iter
      ]

      -- The body of `pb_decode`: what was allocated is released on failure.
      unfoldable pub decode_or_release :
          Call (Machine S) (Unit {0}) → ℕ → ℕ → Call (Machine S) (Unit {0})
      unfolding on_memory release
      decode_or_release noinit fields dest_struct s = elim (noinit s) [
        | done _ s' ↦ done tt s'
        | fail s' ↦
            (on_memory (release tables free depth (some fields) dest_struct) >> λ s''. fail s'') s'
        | fault ↦ fault
        | stuck ↦ stuck
      ]

  -- `slots` gives the address of `fixed_count_size` in the call at each depth. `pb_decode_noinit` and
  -- `pb_decode` are for messages and extensions at most `depth` deep.
  module _ (slots : ℕ → ℕ) where
    unfoldable pub decode_both : ℕ → Bool → ℕ → ℕ → Call (Machine S) (Unit {0})
    unfolding on_memory message_set_to_defaults decode_fields decode_or_release
    decode_both zero init fields dest_struct s = stuck
    decode_both (suc depth) init fields dest_struct s =
        let noinit =
          decode_fields (slots depth) (suc depth) (decode_both depth true) (decode_both depth false)
            fields dest_struct in
        elim init [
          | false ↦ noinit s
          | true ↦
              (on_memory (message_set_to_defaults tables (suc depth) (some fields) dest_struct)
                  >> decode_or_release (slots depth) (suc depth) (decode_both depth true)
                      (decode_both depth false) noinit fields dest_struct)
                s
        ]

    abbrev pub decode_noinit : ℕ → ℕ → ℕ → Call (Machine S) (Unit {0})
    decode_noinit depth = decode_both depth false

    abbrev pub decode : ℕ → ℕ → ℕ → Call (Machine S) (Unit {0})
    decode depth = decode_both depth true

    unfoldable pub decode_delimited_noinit : ℕ → ℕ → ℕ → Call (Machine S) (Unit {0})
    unfolding make_substream inside close_with decode_both
    decode_delimited_noinit depth fields dest_struct = make_substream >>= λ substream.
        inside substream (decode_noinit depth fields dest_struct) >>= close_with

    unfoldable pub decode_delimited : ℕ → ℕ → ℕ → Call (Machine S) (Unit {0})
    unfolding make_substream inside close_with decode_both
    decode_delimited depth fields dest_struct = make_substream >>= λ substream.
        inside substream (decode depth fields dest_struct) >>= close_with
