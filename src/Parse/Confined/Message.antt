-- ===== src/Parse/Confined/Message.antt =====
-- One round of `pb_decode_noinit` behind its tag, in a message of plain fields
use bw_watermyplants.Common.{
  ℕ, suc, ◌+◌, ◌-◌, ◌^◌, ◌≤◌, ◌<◌, ◌≡◌, refl, ◌∙◌, inl, inr, List, Option, none, some, All, Bool,
  true, false, leb, Bool-cases, arith, length,
}
use bw_watermyplants.Outcome.{Outcome, done, fail, fault, stuck, Call, ◌>>◌, return, Errmsg}
use bw_watermyplants.Memory.{Memory}
use bw_watermyplants.Field.{Field, Ltype}
use bw_watermyplants.FieldIter.{Iter, find, is_extension}
use bw_watermyplants.FieldIter.Walk.{nth, walk, walk_keeps, length-start}
use bw_watermyplants.FieldIter.Fuel.{find_stays}
use bw_watermyplants.Decode.{skip_field}
use bw_watermyplants.Decode.Skip.{skip_field-IsSafe}
use bw_watermyplants.Parse.Machine.{Machine, on_input}
use bw_watermyplants.Parse.Fields.{find_extension_field, find_extension_loop}
use bw_watermyplants.Parse.NoExtensions.{find_extension_loop-none}
use bw_watermyplants.Parse.Messages.{
  Progress, known_field, find_range, try_extensions, unknown_field, field_found,
}
use bw_watermyplants.Parse.Confined.{machine}
use bw_watermyplants.Parse.Confined.Stores.{Region, IsMapped}
use bw_watermyplants.Parse.Confined.Decoders.{is_flat}
use bw_watermyplants.Parse.Confined.Calls.{on_input-IsConfined}
use bw_watermyplants.Parse.Confined.Settled.{Settled, then-Settled}
use bw_watermyplants.Parse.Confined.Plain.{IsPlain, IsGood}
use bw_watermyplants.Parse.Confined.KnownField.{known_field-Settled}

module _ (tables : ℕ → List (Field ℕ)) (realloc : Memory → ℕ → ℕ → ℕ × Memory)
    (free : Memory → ℕ → Memory) (rounds : ℕ)
    (callback : (T : Type 0) → ℕ → Field ℕ → ℕ → Call (Machine T) (Unit {0}))
    (extension : (T : Type 0) → ℕ → ℕ → ℕ → ℕ → Call (Machine T) (Unit {0})) (slot depth : ℕ)
    (pb_decode pb_decode_noinit : ℕ → ℕ → Call (Machine (List ℕ)) (Unit {0})) (W : Region)
    (fields : List (Field ℕ)) (end : Field ℕ) (tags : All (λ f. ¬ (f.tag ≡ 0)) fields)
    (ends : end.tag ≡ 0) (dest_struct : ℕ)
    (plain : (k : ℕ)
      → k < length fields
      → IsPlain W (nth fields end k) (walk fields end dest_struct k)) where
  abbrev at : ℕ → Iter ℕ
  at = walk fields end dest_struct

  not_extension : (ltype : Ltype) → is_flat ltype ≡ true → is_extension ltype ≡ false
  not_extension ltype = elim ltype as (λ t. is_flat t ≡ true → is_extension t ≡ false) [
    | Ltype.bool ↦ λ h. refl
    | Ltype.varint ↦ λ h. refl
    | Ltype.uvarint ↦ λ h. refl
    | Ltype.svarint ↦ λ h. refl
    | Ltype.fixed32 ↦ λ h. refl
    | Ltype.fixed64 ↦ λ h. refl
    | Ltype.bytes ↦ λ h. refl
    | Ltype.string ↦ λ h. refl
    | Ltype.submessage ↦ λ h. refl
    | Ltype.extension ↦ λ h. absurd (ground arith)
    | Ltype.fixed_length_bytes ↦ λ h. refl
  ]

  find_extension_field-none :
      (k : ℕ) → k < length fields → find_extension_field (at k) ≡ some (false, at k)
  unfolding find_extension_field
  find_extension_field-none k lt =
      let keeps = walk_keeps fields end tags ends dest_struct k in
      let long = length-start fields end tags ends dest_struct k in
      let fuel : find_extension_loop (length (at k).start) (at k).pos (at k)
          ≡ find_extension_loop (suc (length fields)) k (at k) =
        λ i. find_extension_loop (long i) (keeps.0 i) (at k) in
      fuel
      ∙ (find_extension_loop-none fields end tags ends dest_struct
          (λ j lt'. not_extension (nth fields end j).ltype (plain j lt').flat) (length fields - 1)
          (suc (length fields)) k k (omega arith) lt lt (omega arith) (inr (omega arith)))

  unknown_field-at :
      (p : Progress) (k tag wire_type : ℕ) (s : Machine (List ℕ))
      → k < length fields
      → tag < 2 ^ 29
      → (start : ℕ) × (unknown_field tables realloc free rounds callback extension slot depth
            pb_decode pb_decode_noinit
            (record p { iter = at k })
            tag
            wire_type
            s
          ≡ (on_input (skip_field wire_type)
                >> return (record p { iter = at k; extension_range_start = start }))
              s)
  unfolding unknown_field find_range try_extensions
  unknown_field-at p k tag wire_type s lt small =
      elim (Bool-cases (leb p.extension_range_start tag)) [
        | inl within ↦
            let past : leb (2 ^ 32 - 1) tag ≡ false = ground arith in
            (2 ^ 32 - 1, rw (within, find_extension_field-none k lt, past) refl)
        | inr before ↦ (p.extension_range_start, rw before refl)
      ]

  unknown_field-Settled :
      (p : Progress) (k tag wire_type : ℕ) (input : List ℕ) (left : ℕ) (err : Option Errmsg)
      (memory : Memory)
      → k < length fields
      → tag < 2 ^ 29
      → p.fixed_count_field ≡ none
      → left ≤ length input
      → IsMapped W memory
      → Settled (IsGood fields end dest_struct) W input left memory 0 (
          unknown_field tables realloc free rounds callback extension slot depth pb_decode
            pb_decode_noinit
            (record p { iter = at k })
            tag
            wire_type
            (machine input left err memory))
  unknown_field-Settled p k tag wire_type input left err memory lt small closed room mapped =
      let (start, same) =
        unknown_field-at p k tag wire_type (machine input left err memory) lt small in
      rw same (
        then-Settled (IsGood fields end dest_struct) W input left 0 memory
          (record p { iter = at k; extension_range_start = start }) (k, lt, refl, closed)
          (on_input (skip_field wire_type) (machine input left err memory))
          ((on_input-IsConfined (left + 1) (skip_field wire_type)
              (skip_field-IsSafe (left + 1) wire_type)).at
            input left err memory room (omega arith) mapped))

  pub field_found-Settled :
      (p : Progress) (k tag wire_type : ℕ) (input : List ℕ) (left : ℕ) (err : Option Errmsg)
      (memory : Memory)
      → k < length fields
      → tag < 2 ^ 29
      → p.fixed_count_field ≡ none
      → left ≤ length input
      → IsMapped W memory
      → Settled (IsGood fields end dest_struct) W input left memory 0 (
          field_found tables realloc free rounds callback extension slot depth pb_decode
            pb_decode_noinit p tag wire_type
            (find (length (at k).start) tag (at k))
            (machine input left err memory))
  unfolding field_found
  field_found-Settled p k tag wire_type input left err memory lt small closed room mapped =
      let (b, q, inside, e) = find_stays fields end tags ends dest_struct tag k lt in
      let long = length-start fields end tags ends dest_struct k in rw (long, e) (either b q inside)
    where
      either :
          (b : Bool) (q : ℕ)
          → q < length fields
          → Settled (IsGood fields end dest_struct) W input left memory 0 (
              field_found tables realloc free rounds callback extension slot depth pb_decode
                pb_decode_noinit p tag wire_type
                (some (b, at q))
                (machine input left err memory))
      either true q inside =
          less
            (known_field tables realloc free rounds callback extension slot depth pb_decode
              pb_decode_noinit (record p { iter = at q }) wire_type (machine input left err memory))
            (known_field-Settled tables realloc free rounds callback extension slot depth pb_decode
              pb_decode_noinit W fields end tags ends dest_struct plain p q wire_type input left err
              memory inside closed room mapped)
        where
          less :
              (o : Outcome (Machine (List ℕ)) Progress)
              → Settled (IsGood fields end dest_struct) W input left memory 1 o
              → Settled (IsGood fields end dest_struct) W input left memory 0 o
          less (done a s) (m, g) = (record { on = m.on; at_least = omega arith; kept = m.kept }, g)
          less (fail s) m = m
          less fault m = m
          less stuck m = m
      either false q inside =
          unknown_field-Settled p q tag wire_type input left err memory inside small closed room
            mapped
