-- ===== src/Parse/Confined/Rounds.antt =====
-- The loop of `pb_decode_noinit` on a message of plain fields
use mathlib.Core.Path.{subst}
use bw_watermyplants.Common.{
  ℕ, zero, suc, ◌≤◌, ◌<◌, ◌≡◌, refl, sym, List, [], ◌∷◌, Option, none, All, false, ◌==◌, arith,
  length, IsByte,
}
use bw_watermyplants.Outcome.{Call, ◌>>=◌, Errmsg}
use bw_watermyplants.Memory.{Memory}
use bw_watermyplants.Istream.Buffers.{stream}
use bw_watermyplants.Istream.Safety.{stays}
use bw_watermyplants.Field.{Field}
use bw_watermyplants.FieldIter.{Iter, find}
use bw_watermyplants.FieldIter.Walk.{nth, walk}
use bw_watermyplants.Decode.{Received, received, at_eof, decode_tag}
use bw_watermyplants.Decode.Safety.{decode_tag-IsSafe}
use bw_watermyplants.Decode.Takes.{decode_tag_takes}
use bw_watermyplants.Decode.Tags.{IsTag, decode_tag-IsTag}
use bw_watermyplants.Parse.Machine.{Machine, on_input}
use bw_watermyplants.Parse.Messages.{Progress, field_found, after_tag, decode_loop}
use bw_watermyplants.Parse.Confined.{machine}
use bw_watermyplants.Parse.Confined.Stores.{Region, IsMapped, Kept-refl}
use bw_watermyplants.Parse.Confined.Settled.{Settled, input-Settled, bind-Settled}
use bw_watermyplants.Parse.Confined.Plain.{IsPlain, IsGood}
use bw_watermyplants.Parse.Confined.Message.{field_found-Settled}

module _ (tables : ℕ → List (Field ℕ)) (realloc : Memory → ℕ → ℕ → ℕ × Memory)
    (free : Memory → ℕ → Memory) (rounds : ℕ)
    (callback : (T : Type 0) → ℕ → Field ℕ → ℕ → Call (Machine T) (Unit {0}))
    (extension : (T : Type 0) → ℕ → ℕ → ℕ → ℕ → Call (Machine T) (Unit {0})) (slot depth : ℕ)
    (pb_decode pb_decode_noinit : ℕ → ℕ → Call (Machine (List ℕ)) (Unit {0})) (W : Region)
    (fields : List (Field ℕ)) (end : Field ℕ) (tags : All (λ f. ¬ (f.tag ≡ 0)) fields)
    (ends : end.tag ≡ 0) (dest_struct : ℕ)
    (plain : (k : ℕ)
      → k < length fields
      → IsPlain W (nth fields end k) (walk fields end dest_struct k)) where
  abbrev at : ℕ → Iter ℕ
  at = walk fields end dest_struct

  after_tag-Settled :
      (fuel : ℕ) (more : Progress → Call (Machine (List ℕ)) Progress)
      → ((p : Progress)
          → IsGood fields end dest_struct p
          → (input : List ℕ) (left : ℕ) (err : Option Errmsg) (memory : Memory)
          → left ≤ length input
          → left < fuel
          → All IsByte input
          → IsMapped W memory
          → Settled
              (IsGood fields end dest_struct)
              W
              input
              left
              memory
              0
              (more p (machine input left err memory)))
      → (p : Progress) (k : ℕ) → k < length fields
      → p.iter ≡ at k
      → p.fixed_count_field ≡ none
      → (r : Received (ℕ × ℕ)) → IsTag r
      → (input : List ℕ) (left : ℕ) (err : Option Errmsg) (memory : Memory) → left ≤ length input
      → left < fuel
      → All IsByte input
      → IsMapped W memory
      → Settled (IsGood fields end dest_struct) W input left memory 0 (
          after_tag tables realloc free rounds callback extension slot depth pb_decode
            pb_decode_noinit more p r
            (machine input left err memory))
  unfolding after_tag
  after_tag-Settled fuel more goes p k lt e closed at_eof tag input left err memory room small bytes
        mapped =
      (
        record { on = stays input left err; at_least = omega arith; kept = Kept-refl memory },
        (k, lt, e, closed),
      )
  after_tag-Settled fuel more goes p k lt e closed (received (wire_type, tag)) below input left err
        memory room small bytes mapped =
      subst
        (λ i. Settled (IsGood fields end dest_struct) W input left memory 0 (
          (field_found tables realloc free rounds callback extension slot depth pb_decode
                pb_decode_noinit p tag wire_type (find (length i.start) tag i)
              >>= more)
            (machine input left err memory)))
        (sym e)
        (bind-Settled (IsGood fields end dest_struct) (IsGood fields end dest_struct) more input
          left 0 memory room bytes mapped
          (λ p' good' input' left' err' memory' room' le bytes' mapped'.
            goes p' good' input' left' err' memory' room' (omega arith) bytes' mapped')
          (field_found tables realloc free rounds callback extension slot depth pb_decode
            pb_decode_noinit p tag wire_type (find (length (at k).start) tag (at k))
            (machine input left err memory))
          (field_found-Settled tables realloc free rounds callback extension slot depth pb_decode
            pb_decode_noinit W fields end tags ends dest_struct plain p k tag wire_type input left
            err memory lt below closed room mapped))

  decode_loop_round :
      (fuel : ℕ) (p : Progress) (s : Machine (List ℕ))
      → (s.input.bytes_left == 0) ≡ false
      → decode_loop tables realloc free rounds callback extension slot depth pb_decode
          pb_decode_noinit
          (suc fuel)
          p
          s
        ≡ (on_input decode_tag
              >>= after_tag tables realloc free rounds callback extension slot depth pb_decode
                  pb_decode_noinit
                  (decode_loop tables realloc free rounds callback extension slot depth pb_decode
                    pb_decode_noinit fuel)
                  p)
            s
  unfolding decode_loop
  decode_loop_round fuel p s h = rw (h, decode_loop) refl

  -- The loop ends: a round takes a byte.
  pub decode_loop-Settled :
      (fuel : ℕ) (p : Progress)
      → IsGood fields end dest_struct p
      → (input : List ℕ) (left : ℕ) (err : Option Errmsg) (memory : Memory) → left ≤ length input
      → left < fuel
      → All IsByte input
      → IsMapped W memory
      → Settled (IsGood fields end dest_struct) W input left memory 0 (
          decode_loop tables realloc free rounds callback extension slot depth pb_decode
            pb_decode_noinit fuel p
            (machine input left err memory))
  unfolding decode_loop on_input
  decode_loop-Settled zero p good input left err memory room small bytes mapped =
      absurd (omega arith)
  decode_loop-Settled (suc fuel) p good input zero err memory room small bytes mapped =
      (record { on = stays input 0 err; at_least = omega arith; kept = Kept-refl memory }, good)
  decode_loop-Settled (suc fuel) p good [] (suc left) err memory room small bytes mapped =
      absurd (omega arith)
  decode_loop-Settled (suc fuel) p (k, lt, e, closed) (b ∷ input) (suc left) err memory room small
        (byte, bytes) mapped =
      let more : (suc left == 0) ≡ false = ground arith in
      rw (decode_loop_round fuel p (machine (b ∷ input) (suc left) err memory) more) (
        bind-Settled IsTag (IsGood fields end dest_struct)
          (after_tag tables realloc free rounds callback extension slot depth pb_decode
            pb_decode_noinit
            (decode_loop tables realloc free rounds callback extension slot depth pb_decode
              pb_decode_noinit fuel)
            p)
          (b ∷ input) (suc left) 1 memory room (byte, bytes) mapped
          (λ r tag input' left' err' memory' room' le bytes' mapped'.
            after_tag-Settled fuel
              (decode_loop tables realloc free rounds callback extension slot depth pb_decode
                pb_decode_noinit fuel)
              (λ p' good' i l e' m. decode_loop-Settled fuel p' good' i l e' m) p k lt e closed r
              tag input' left' err' memory' room' (omega arith) bytes' mapped')
          (on_input decode_tag (machine (b ∷ input) (suc left) err memory))
          (input-Settled IsTag W (b ∷ input) (suc left) 1 memory
            (decode_tag (stream (b ∷ input) (suc left) err))
            ((decode_tag-IsSafe (suc (suc left))).at (b ∷ input) (suc left) err room (omega arith))
            (decode_tag_takes (b ∷ input) (suc left) err room (omega arith))
            (decode_tag-IsTag b input left err byte)))
