-- ===== src/Message/Default.antt =====
-- `pb_check_proto3_default_value`: whether a field holds the value that is not encoded. `none` is a load
-- outside the memory, or a nesting of messages deeper than the fuel.
use bw_watermyplants.Common.{
  ℕ, zero, suc, ◌+◌, List, Option, none, some, Bool, true, false, ◌==◌, ◌!=◌, if◌then◌else◌,
  get_elem?, length, not,
}
use bw_watermyplants.Memory.{Memory, load, safe_read_bool}
use bw_watermyplants.Field.{Field, Ltype, Htype, is_packable}
use bw_watermyplants.FieldIter.{Iter, begin, next, add_offset, is_static, is_pointer}

-- Whether the integer or the pointer of `n` bytes at `p` is 0
unfoldable pub is_zero : Memory → ℕ → ℕ → Option Bool
unfolding load
is_zero memory n p = elim (load memory n p) [ none ↦ none | some v ↦ some (v == 0) ]

-- `for (i = 0; i < field->data_size; i++) if (p[i] != 0) return false;`
unfoldable pub all_zero : Memory → ℕ → ℕ → Option Bool
all_zero memory zero p = some true
all_zero memory (suc n) p = elim (memory p) [
  | none ↦ none
  | some b ↦ elim (b != 0) [ true ↦ some false | false ↦ all_zero memory n (p + 1) ]
]

-- The loop over the fields of a submessage; `check` is the function on one of them.
unfoldable pub all_default : {P : Type 0} → (Field P → ℕ → Option Bool) → ℕ → Iter P → Option Bool
all_default check zero iter = none
all_default check (suc fuel) iter = elim (get_elem? iter.start iter.pos) [
  | none ↦ none
  | some field ↦ elim (check field iter.p_data) [
    | none ↦ none
    | some false ↦ some false
    | some true ↦ elim (next iter) [
      | none ↦ none
      | some (false, _) ↦ some true
      | some (true, iter') ↦ all_default check fuel iter'
    ]
  ]
]

module _ (memory : Memory) (tables : ℕ → List (Field ℕ)) where
  module _ (check : Field ℕ → ℕ → Option Bool) where
    unfoldable pub is_default_submessage : Option ℕ → ℕ → Option Bool
    unfolding all_default
    is_default_submessage none p = none
    is_default_submessage (some fields) p = elim (begin (tables fields) p) [
      | none ↦ none
      | some (false, _) ↦ some true
      | some (true, iter) ↦ all_default check (length (tables fields)) iter
    ]

    -- The last two branches, for what has no branch of its own
    unfoldable pub is_default_word : Field ℕ → ℕ → Option Bool
    unfolding is_zero all_zero
    is_default_word field p =
        if (if is_pointer field.atype then not (is_packable field.ltype) else false)
        then is_zero memory 8 p
        else all_zero memory field.data_size p

    -- A static field by its type
    unfoldable pub is_default_static : Ltype → Field ℕ → ℕ → Option Bool
    unfolding is_zero is_default_submessage is_default_word
    is_default_static Ltype.bytes field p = is_zero memory 4 p
    is_default_static Ltype.string field p = is_zero memory 1 p
    is_default_static Ltype.fixed_length_bytes field p = some (field.data_size == 0)
    is_default_static Ltype.submessage field p = is_default_submessage field.ptr p
    is_default_static _ field p = is_default_word field p

    -- Proto3 singular fields
    unfoldable pub is_default_singular : Field ℕ → ℕ → Option Bool
    unfolding is_default_static
    is_default_singular field p =
        if is_static field.atype
        then is_default_static field.ltype field p
        else is_default_word field p

    -- By the repetition rule
    unfoldable pub is_default_by : Htype → Field ℕ → ℕ → Option Bool
    unfolding is_default_singular safe_read_bool
    is_default_by Htype.required field p = some false
    is_default_by Htype.repeated field p =
        if field.size_offset != 0
        then is_zero memory 4 (add_offset p field.size_offset)
        else if is_static field.atype
        then some false
        else is_default_singular field p
    is_default_by Htype.oneof field p = is_zero memory 4 (add_offset p field.size_offset)
    is_default_by Htype.optional field p =
        if field.size_offset != 0
        then elim (safe_read_bool memory (add_offset p field.size_offset)) [
          | none ↦ none
          | some has ↦ some (not has)
        ]
        else is_default_singular field p

  -- `pb_check_proto3_default_value`, down to `depth` messages inside each other
  unfoldable pub is_default : ℕ → Field ℕ → ℕ → Option Bool
  unfolding is_default_by
  is_default zero field p = none
  is_default (suc depth) field p = is_default_by (is_default depth) field.htype field p
