-- ===== src/FieldIter.antt =====
-- The iterator over a message's field descriptors, WaterMyPlants/Pods/nanopb/pb_common.c. Addresses are
-- numbers, and an array of descriptors is the list of them, the terminator included; reading behind its
-- end is `none`.
pub mod Walk
pub mod Find
pub mod Fuel
use bw_watermyplants.Common.{
  ℕ, zero, suc, ◌+◌, ◌-◌, ◌*◌, ◌^◌, List, Option, none, some, Bool, true, false, ◌&&◌,
  if◌then◌else◌, ltb, ◌==◌, ◌!=◌, get_elem?, u64,
}
use bw_watermyplants.Field.{
  Field, Ltype, Htype, Atype, required, repeated, oneof, static, pointer, size_max,
}

-- `pb_field_iter_t`; `pos` is the index of a descriptor.
pub record Iter (P : Type 0) : Type 0 where
  pub start : List (Field P)
  pub pos : ℕ
  -- an `unsigned`, which a table with a number of its own for each field does not exceed
  pub required_field_index : ℕ
  pub dest_struct : ℕ
  pub p_data : ℕ
  pub p_size : ℕ

-- A pointer and a signed 32-bit offset
abbrev pub add_offset : ℕ → ℕ → ℕ
add_offset address offset =
    if ltb offset (2 ^ 31)
    then u64 (address + offset)
    else u64 (address + (2 ^ 64 - 2 ^ 32) + offset)

abbrev pub is_required : Htype → Bool
is_required Htype.required = true
is_required Htype.optional = false
is_required Htype.repeated = false
is_required Htype.oneof = false

abbrev pub is_repeated : Htype → Bool
is_repeated Htype.required = false
is_repeated Htype.optional = false
is_repeated Htype.repeated = true
is_repeated Htype.oneof = false

abbrev pub is_oneof : Htype → Bool
is_oneof Htype.required = false
is_oneof Htype.optional = false
is_oneof Htype.repeated = false
is_oneof Htype.oneof = true

abbrev pub is_static : Atype → Bool
is_static Atype.static = true
is_static Atype.callback = false
is_static Atype.pointer = false
is_static Atype.invalid = false

abbrev pub is_pointer : Atype → Bool
is_pointer Atype.static = false
is_pointer Atype.callback = false
is_pointer Atype.pointer = true
is_pointer Atype.invalid = false

abbrev pub is_extension : Ltype → Bool
is_extension Ltype.extension = true
is_extension _ = false

module _ {P : Type 0} where
  -- The iterator at the first descriptor
  abbrev pub first : List (Field P) → ℕ → Field P → Iter P
  first fields dest_struct field =
      let place = u64 (dest_struct + field.data_offset) in
      record {
        start = fields;
        pos = 0;
        required_field_index = 0;
        dest_struct = dest_struct;
        p_data = place;
        p_size = add_offset place field.size_offset;
      }

  -- `pb_field_iter_begin(iter, fields, dest_struct)`
  unfoldable pub begin : List (Field P) → ℕ → Option (Bool × Iter P)
  begin fields dest_struct = elim (get_elem? fields 0) [
    | none ↦ none
    | some field ↦ some (field.tag != 0, first fields dest_struct field)
  ]

  -- `prev_size`: how far the next field lies behind the start of this one
  unfoldable pub prev_size : Field P → ℕ
  prev_size prev =
      if is_static prev.atype && is_repeated prev.htype
      then u64 (prev.data_size * prev.array_size)
      else if is_pointer prev.atype
      then 8
      else prev.data_size

  -- The step to a descriptor that is no terminator
  unfoldable pub advance : Field P → Field P → Iter P → Iter P
  unfolding prev_size
  advance prev field iter =
      if is_oneof prev.htype && is_oneof field.htype && field.data_offset == size_max
      then record iter { pos = iter.pos + 1 }
      else let place = u64 (iter.p_data + prev_size prev + field.data_offset) in
        record iter {
          pos = iter.pos + 1;
          required_field_index =
              if is_required prev.htype
              then iter.required_field_index + 1
              else iter.required_field_index;
          p_data = place;
          p_size = add_offset place field.size_offset;
        }

  -- Back at the beginning `pb_field_iter_next` returns false, whatever `pb_field_iter_begin` returns.
  unfoldable pub restart : Option (Bool × Iter P) → Option (Bool × Iter P)
  restart none = none
  restart (some (_, iter)) = some (false, iter)

  -- `pb_field_iter_next(iter)`
  unfoldable pub next : Iter P → Option (Bool × Iter P)
  unfolding begin restart advance
  next iter = elim (get_elem? iter.start iter.pos) [
    | none ↦ none
    | some prev ↦
        if prev.tag == 0 then some (false, iter) else elim (get_elem? iter.start (iter.pos + 1)) [
          | none ↦ none
          | some field ↦
              if field.tag == 0
              then restart (begin iter.start iter.dest_struct)
              else some (true, advance prev field iter)
        ]
  ]

  -- The test of `pb_field_iter_find` on a descriptor
  unfoldable pub is_wanted : ℕ → Field P → Bool
  is_wanted tag field = if is_extension field.ltype then false else field.tag == tag

  -- `do … while (iter->pos != start)`; `none` too where the fuel runs out
  unfoldable pub find_loop : ℕ → ℕ → ℕ → Iter P → Option (Bool × Iter P)
  unfolding is_wanted next
  find_loop zero start tag iter = none
  find_loop (suc fuel) start tag iter = elim (get_elem? iter.start iter.pos) [
    | none ↦ none
    | some field ↦ if is_wanted tag field then some (true, iter) else elim (next iter) [
      | none ↦ none
      | some (_, iter') ↦
          let rest = find_loop fuel start tag iter' in
          if iter'.pos == start then some (false, iter') else rest
    ]
  ]

  -- `pb_field_iter_find(iter, tag)`; a round for each descriptor is enough.
  unfoldable pub find : ℕ → ℕ → Iter P → Option (Bool × Iter P)
  find fuel tag iter = find_loop fuel iter.pos tag iter
