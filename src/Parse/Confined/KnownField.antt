-- ===== src/Parse/Confined/KnownField.antt =====
-- A field that `pb_field_iter_find` found, in a message of plain fields
use bw_watermyplants.Common.{
  ℕ, ◌≤◌, ◌<◌, ◌≡◌, refl, ◌∙◌, List, Option, none, All, arith, length, get_elem?,
}
use bw_watermyplants.Outcome.{
  Outcome, done, fail, fault, stuck, Call, ◌>>=◌, ◌>>◌, return, bind_done, Errmsg,
}
use bw_watermyplants.Memory.{Memory}
use bw_watermyplants.Field.{Field}
use bw_watermyplants.FieldIter.{Iter}
use bw_watermyplants.FieldIter.Walk.{nth, walk, here}
use bw_watermyplants.Parse.Machine.{Machine}
use bw_watermyplants.Parse.Default.{given}
use bw_watermyplants.Parse.Static.{decoder, decode_static_as}
use bw_watermyplants.Parse.Fields.{field_of, decode_as, decode_field}
use bw_watermyplants.Parse.Messages.{Progress, mark_required, use_fixed_count, known_field}
use bw_watermyplants.Parse.Steps.{on_memory-done}
use bw_watermyplants.Parse.Confined.{Contained, machine}
use bw_watermyplants.Parse.Confined.Stores.{Region, IsMapped}
use bw_watermyplants.Parse.Confined.Static.{decode_static_field_confined}
use bw_watermyplants.Parse.Confined.Settled.{Settled, then-Settled}
use bw_watermyplants.Parse.Confined.Plain.{IsPlain, IsGood}

module _ (tables : ℕ → List (Field ℕ)) (realloc : Memory → ℕ → ℕ → ℕ × Memory)
    (free : Memory → ℕ → Memory) (rounds : ℕ)
    (callback : (T : Type 0) → ℕ → Field ℕ → ℕ → Call (Machine T) (Unit {0}))
    (extension : (T : Type 0) → ℕ → ℕ → ℕ → ℕ → Call (Machine T) (Unit {0})) (slot depth : ℕ)
    (pb_decode pb_decode_noinit : ℕ → ℕ → Call (Machine (List ℕ)) (Unit {0})) (W : Region)
    (fields : List (Field ℕ)) (end : Field ℕ) (tags : All (λ f. ¬ (f.tag ≡ 0)) fields)
    (ends : end.tag ≡ 0) (dest_struct : ℕ)
    (plain : (k : ℕ)
      → k < length fields
      → IsPlain W (nth fields end k) (walk fields end dest_struct k)) where
  abbrev at : ℕ → Iter ℕ
  at = walk fields end dest_struct

  field_of-at :
      (k : ℕ) (s : Machine (List ℕ))
      → k < length fields
      → field_of tables realloc free rounds callback extension depth pb_decode pb_decode_noinit
          (at k)
          s
        ≡ done (nth fields end k) s
  unfolding field_of
  field_of-at k s lt =
      on_memory-done s (given (get_elem? (at k).start (at k).pos)) (given_here s.memory)
    where
      given_here :
          (memory : Memory)
          → given (get_elem? (at k).start (at k).pos) memory ≡ done (nth fields end k) memory
      given_here memory = rw (here fields end tags ends dest_struct k (omega arith), given) refl

  static_call : ℕ → ℕ → Call (Machine (List ℕ)) (Unit {0})
  static_call k wire_type =
      decode_static_as
        (decoder pb_decode pb_decode_noinit realloc (nth fields end k).ltype (nth fields end k))
        (nth fields end k) (at k).p_data (at k).p_size tables depth (nth fields end k).htype
        wire_type

  decode_field-at :
      (k wire_type : ℕ) (s : Machine (List ℕ))
      → k < length fields
      → decode_field tables realloc free rounds callback extension depth pb_decode pb_decode_noinit
          wire_type
          (at k)
          s
        ≡ (static_call k wire_type >> return (at k)) s
  unfolding decode_field decode_as static_call
  decode_field-at k wire_type s lt =
      bind_done
        (field_of tables realloc free rounds callback extension depth pb_decode pb_decode_noinit
          (at k))
        _ (field_of-at k s lt)
      ∙ rw (plain k lt).no_union (
          bind_done
            (field_of tables realloc free rounds callback extension depth pb_decode pb_decode_noinit
              (at k))
            _ (field_of-at k s lt)
          ∙ rw (plain k lt).static refl)

  use_fixed_count-at :
      (p : Progress) (k : ℕ) (s : Machine (List ℕ))
      → k < length fields
      → use_fixed_count tables realloc free rounds callback extension slot
          (nth fields end k)
          (record p { iter = at k })
          s
        ≡ done (record p { iter = at k }) s
  unfolding use_fixed_count
  use_fixed_count-at p k s lt = rw (plain k lt).has_counter refl

  static_call-Contained :
      (k wire_type : ℕ) (input : List ℕ) (left : ℕ) (err : Option Errmsg) (memory : Memory)
      → k < length fields
      → left ≤ length input
      → IsMapped W memory
      → Contained W input left memory 1 (static_call k wire_type (machine input left err memory))
  unfolding static_call
  static_call-Contained k wire_type input left err memory lt room mapped =
      let f = plain k lt in
      decode_static_field_confined W tables realloc depth pb_decode pb_decode_noinit
        (nth fields end k) (at k).p_data (at k).p_size wire_type input left err memory f.flat
        (rw f.static refl) f.least f.entries f.counter f.narrow f.room room mapped

  decode_field-Settled :
      (k wire_type : ℕ) (input : List ℕ) (left : ℕ) (err : Option Errmsg) (memory : Memory)
      → k < length fields
      → left ≤ length input
      → IsMapped W memory
      → Settled
          (λ iter'. iter' ≡ at k)
          W
          input
          left
          memory
          1
          (decode_field tables realloc free rounds callback extension depth pb_decode
            pb_decode_noinit wire_type
            (at k)
            (machine input left err memory))
  decode_field-Settled k wire_type input left err memory lt room mapped =
      rw (decode_field-at k wire_type (machine input left err memory) lt) (
        then-Settled (λ iter'. iter' ≡ at k) W input left 1 memory (at k) refl
          (static_call k wire_type (machine input left err memory))
          (static_call-Contained k wire_type input left err memory lt room mapped))

  known_field-at :
      (p : Progress) (k wire_type : ℕ) (s : Machine (List ℕ))
      → k < length fields
      → known_field tables realloc free rounds callback extension slot depth pb_decode
          pb_decode_noinit
          (record p { iter = at k })
          wire_type
          s
        ≡ (decode_field tables realloc free rounds callback extension depth pb_decode
                pb_decode_noinit wire_type
                (at k)
              >>= λ iter'.
                  return (record (mark_required (nth fields end k) (record p { iter = at k })) {
                    iter = iter';
                  }))
            s
  unfolding known_field
  known_field-at p k wire_type s lt =
      bind_done
        (field_of tables realloc free rounds callback extension depth pb_decode pb_decode_noinit
          (at k))
        _ (field_of-at k s lt)
      ∙ bind_done
          (use_fixed_count tables realloc free rounds callback extension slot (nth fields end k)
            (record p { iter = at k }))
          _ (use_fixed_count-at p k s lt)

  -- A field that was found is decoded, and the iterator stays where it is.
  pub known_field-Settled :
      (p : Progress) (k wire_type : ℕ) (input : List ℕ) (left : ℕ) (err : Option Errmsg)
      (memory : Memory)
      → k < length fields
      → p.fixed_count_field ≡ none
      → left ≤ length input
      → IsMapped W memory
      → Settled (IsGood fields end dest_struct) W input left memory 1 (
          known_field tables realloc free rounds callback extension slot depth pb_decode
            pb_decode_noinit
            (record p { iter = at k })
            wire_type
            (machine input left err memory))
  unfolding known_field
  known_field-Settled p k wire_type input left err memory lt closed room mapped =
      rw (known_field-at p k wire_type (machine input left err memory) lt) (
        go
          (decode_field tables realloc free rounds callback extension depth pb_decode
            pb_decode_noinit wire_type (at k) (machine input left err memory))
          (decode_field-Settled k wire_type input left err memory lt room mapped))
    where
      go :
          (o : Outcome (Machine (List ℕ)) (Iter ℕ))
          → Settled (λ iter'. iter' ≡ at k) W input left memory 1 o
          → Settled
              (IsGood fields end dest_struct)
              W
              input
              left
              memory
              1
              (elim o as (λ _. Outcome (Machine (List ℕ)) Progress) [
                | done iter' s' ↦
                    done
                      (record (mark_required (nth fields end k) (record p { iter = at k })) {
                        iter = iter';
                      })
                      s'
                | fail s' ↦ fail s'
                | fault ↦ fault
                | stuck ↦ stuck
              ])
      go (done iter' s') (m, e) = (m, (k, lt, e, kept_closed))
        where
          kept_closed :
              (mark_required (nth fields end k) (record p { iter = at k })).fixed_count_field ≡ none
          kept_closed = ground (arith, closed)
      go (fail s') m = m
      go fault m = m
      go stuck m = m
