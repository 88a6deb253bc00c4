-- ===== src/Parse/Confined/Noinit.antt =====
-- `pb_decode_noinit` on a message of plain fields: the loop, and the checks behind it
use mathlib.Core.Path.{subst}
use bw_watermyplants.Common.{
  ℕ, zero, suc, ◌+◌, ◌-◌, ◌≤◌, ◌<◌, ◌≡◌, refl, sym, ap, ◌∙◌, List, [], ◌∷◌, ◌++◌, Option, none,
  some, All, true, false, ◌!=◌, ◌&&◌, if◌then◌else◌, arith, length, IsByte,
}
use bw_watermyplants.Outcome.{Call, ◌>>◌, return, Errmsg, missing_required_field}
use bw_watermyplants.Memory.{Memory}
use bw_watermyplants.Memory.Store.{put}
use bw_watermyplants.Field.{Field}
use bw_watermyplants.FieldIter.{Iter, begin, is_required}
use bw_watermyplants.FieldIter.Walk.{
  nth, walk, length-start, here, next_inside, next_last, begin_lem,
}
use bw_watermyplants.Parse.Machine.{Machine, on_memory, error}
use bw_watermyplants.Parse.Default.{given}
use bw_watermyplants.Parse.Messages.{
  Progress, decode_loop, count_required_fields, check_fixed_count, check_required, decode_from,
  decode_fields, decode_both, decode_noinit,
}
use bw_watermyplants.Parse.Required.{has_required}
use bw_watermyplants.Parse.Confined.{Contained, machine, IsConfined, bind-IsConfined}
use bw_watermyplants.Parse.Confined.Stores.{Region, Covers, IsMapped, return-IsTame}
use bw_watermyplants.Parse.Confined.Calls.{on_memory-IsConfined, if-IsConfined, return-IsConfined}
use bw_watermyplants.Parse.Confined.Values.{error-IsConfined, put-IsConfined}
use bw_watermyplants.Parse.Confined.Settled.{Contained-Settled, Settled-Contained, bind-Settled}
use bw_watermyplants.Parse.Confined.Plain.{IsPlain, IsGood}
use bw_watermyplants.Parse.Confined.Rounds.{decode_loop-Settled}

module _ (tables : ℕ → List (Field ℕ)) (realloc : Memory → ℕ → ℕ → ℕ × Memory)
    (free : Memory → ℕ → Memory) (rounds : ℕ)
    (callback : (T : Type 0) → ℕ → Field ℕ → ℕ → Call (Machine T) (Unit {0}))
    (extension : (T : Type 0) → ℕ → ℕ → ℕ → ℕ → Call (Machine T) (Unit {0})) (slot depth : ℕ)
    (pb_decode pb_decode_noinit : ℕ → ℕ → Call (Machine (List ℕ)) (Unit {0})) (W : Region)
    (fields : List (Field ℕ)) (end : Field ℕ) (tags : All (λ f. ¬ (f.tag ≡ 0)) fields)
    (ends : end.tag ≡ 0) (dest_struct : ℕ)
    (plain : (k : ℕ)
      → k < length fields
      → IsPlain W (nth fields end k) (walk fields end dest_struct k)) where
  abbrev at : ℕ → Iter ℕ
  at = walk fields end dest_struct

  -- The count of required fields comes to an end.
  count_required-some :
      (d fuel k : ℕ)
      → d < fuel
      → k + suc d ≡ length fields
      → (count : ℕ) × (count_required_fields fuel (at k) ≡ some count)
  unfolding count_required_fields
  count_required-some d zero k more round = absurd (omega arith)
  count_required-some zero (suc fuel) k more round = (
    (if is_required (nth fields end k).htype && (nth fields end 0).tag != 0
        then (at k).required_field_index + 1
        else (at k).required_field_index),
    rw
        (
          count_required_fields,
          here fields end tags ends dest_struct k (omega arith),
          next_last fields end tags ends dest_struct k (omega arith),
          here fields end tags ends dest_struct 0 (omega arith),
        )
        refl,
  )
  count_required-some (suc d) (suc fuel) k more round =
      let (count, e) = count_required-some d fuel (suc k) (omega arith) (omega arith) in
      (
        count,
        rw
            (
              count_required_fields,
              here fields end tags ends dest_struct k (omega arith),
              next_inside fields end tags ends dest_struct k (omega arith),
            )
            e,
      )

  check_required-IsConfined :
      (bound : ℕ) (p : Progress)
      → IsGood fields end dest_struct p
      → IsConfined W bound 0 (
          check_required tables realloc free rounds callback extension slot depth pb_decode
            pb_decode_noinit p)
  unfolding check_required given
  check_required-IsConfined bound p (k, lt, e, closed) =
      let long = length-start fields end tags ends dest_struct k in
      let (count, counted) =
        count_required-some (length fields - 1 - k) (suc (length fields)) k (omega arith)
          (omega arith) in
      let found : count_required_fields (length p.iter.start) p.iter ≡ some count =
        ap (λ i. count_required_fields (length i.start) i) e
        ∙ ap (λ n. count_required_fields n (at k)) long
        ∙ counted in
      bind-IsConfined bound 0 0
        (λ c. if has_required c p.seen then return tt else error missing_required_field)
        (λ c.
          if-IsConfined bound 0 (has_required c p.seen) _ _ (return-IsConfined bound tt)
            (error-IsConfined bound 0 missing_required_field))
        (on_memory (given (count_required_fields (length p.iter.start) p.iter)))
        (on_memory-IsConfined bound _ (rw found (return-IsTame count)))

  none_open :
      (bound : ℕ) (open_count : Option (ℕ × ℕ))
      → open_count ≡ none
      → IsConfined W bound 0
          (check_fixed_count tables realloc free rounds callback extension slot open_count)
  unfolding check_fixed_count
  none_open bound open_count closed = rw closed (return-IsConfined bound tt)

  finish-IsConfined :
      (bound : ℕ) (p : Progress)
      → IsGood fields end dest_struct p
      → IsConfined W bound 0 (
          check_fixed_count tables realloc free rounds callback extension slot p.fixed_count_field
          >> check_required tables realloc free rounds callback extension slot depth pb_decode
              pb_decode_noinit p)
  finish-IsConfined bound p (k, lt, e, closed) =
      bind-IsConfined bound 0 0 _ (λ _. check_required-IsConfined bound p (k, lt, e, closed))
        (check_fixed_count tables realloc free rounds callback extension slot p.fixed_count_field)
        (none_open bound p.fixed_count_field closed)

  first_progress : Progress
  first_progress = record {
    iter = at 0;
    seen = record { low = 0; high = 0 };
    extension_range_start = 0;
    fixed_count_field = none;
  }

  decode_from-Contained :
      (input : List ℕ) (left : ℕ) (err : Option Errmsg) (memory : Memory)
      → 0 < length fields
      → Covers W slot 4
      → left ≤ length input
      → All IsByte input
      → IsMapped W memory
      → Contained W input left memory 0 (
          decode_from tables realloc free rounds callback extension slot depth pb_decode
            pb_decode_noinit
            (at 0)
            (machine input left err memory))
  unfolding decode_from first_progress
  decode_from-Contained input left err memory some_field local room bytes mapped =
      Settled-Contained W input left memory _ (
        bind-Settled (IsGood fields end dest_struct) (λ _. Unit {0})
          (λ p.
            check_fixed_count tables realloc free rounds callback extension slot p.fixed_count_field
            >> check_required tables realloc free rounds callback extension slot depth pb_decode
                pb_decode_noinit p)
          input left 0 memory room bytes mapped
          (λ p good i l e m room' le bytes' mapped'.
            Contained-Settled W i l m _
              ((finish-IsConfined (l + 1) p good).at i l e m room' (omega arith) mapped'))
          ((on_memory (put 4 slot 0)
              >> decode_loop tables realloc free rounds callback extension slot depth pb_decode
                  pb_decode_noinit (left + 1) first_progress)
            (machine input left err memory))
          (bind-Settled (λ _. Unit {0}) (IsGood fields end dest_struct)
            (λ _.
              decode_loop tables realloc free rounds callback extension slot depth pb_decode
                pb_decode_noinit (left + 1) first_progress)
            input left 0 memory room bytes mapped
            (λ _ _ i l e m room' le bytes' mapped'.
              decode_loop-Settled tables realloc free rounds callback extension slot depth pb_decode
                pb_decode_noinit W fields end tags ends dest_struct plain (left + 1) first_progress
                (0, some_field, refl, refl) i l e m room' (omega arith) bytes' mapped')
            (on_memory (put 4 slot 0) (machine input left err memory))
            (Contained-Settled W input left memory
              (on_memory (put 4 slot 0) (machine input left err memory))
              ((put-IsConfined (left + 1) 4 slot 0 local).at input left err memory room
                (omega arith) mapped))))

  decode_fields-begins :
      (address : ℕ)
      → tables address ≡ fields ++ end ∷ []
      → (s : Machine (List ℕ))
      → decode_fields tables realloc free rounds callback extension slot depth pb_decode
          pb_decode_noinit address dest_struct s
        ≡ decode_from tables realloc free rounds callback extension slot depth pb_decode
            pb_decode_noinit
            (at 0)
            s
  unfolding decode_fields
  decode_fields-begins address table s =
      let starts : begin (tables address) dest_struct ≡ some ((nth fields end 0).tag != 0, at 0) =
        ap (λ t. begin t dest_struct) table ∙ begin_lem fields end tags ends dest_struct in
      rw (starts, decode_fields) refl

-- Over a buffer stream of bytes whose `bytes_left` lie in memory, and a message with one field at least
-- whose fields have no tag 0, are static, with a counter of their own where they are repeated, and no
-- submessages, extensions or unions, have a `data_size` of one byte at least for a bool, four for fixed32
-- and eight for fixed64, have fewer than 2^32 bytes each, with all entries where they are repeated, and
-- do not pass the end of the address space: where all fields, their sizes and flags, and the local
-- `fixed_count_size` lie in mapped memory of a region, `pb_decode_noinit` returns, true or false, on any
-- input, with `bytes_left + 1` rounds of its loop. Nothing outside the region changes, no memory goes
-- away, and the stream still lies in the bytes it had.
pub decode_noinit_confined :
    (tables : ℕ → List (Field ℕ)) (realloc : Memory → ℕ → ℕ → ℕ × Memory)
    (free : Memory → ℕ → Memory) (rounds : ℕ)
    (callback : (T : Type 0) → ℕ → Field ℕ → ℕ → Call (Machine T) (Unit {0}))
    (extension : (T : Type 0) → ℕ → ℕ → ℕ → ℕ → Call (Machine T) (Unit {0})) (slots : ℕ → ℕ)
    (depth : ℕ) (W : Region) (fields : List (Field ℕ)) (end : Field ℕ) (address dest_struct : ℕ)
    (input : List ℕ) (left : ℕ) (err : Option Errmsg) (memory : Memory)
    → All (λ f. ¬ (f.tag ≡ 0)) fields
    → end.tag ≡ 0
    → tables address ≡ fields ++ end ∷ []
    → ((k : ℕ) → k < length fields → IsPlain W (nth fields end k) (walk fields end dest_struct k))
    → 0 < length fields
    → Covers W (slots depth) 4
    → left ≤ length input
    → All IsByte input
    → IsMapped W memory
    → Contained W input left memory 0 (
        decode_noinit tables realloc free rounds callback extension slots
          (suc depth)
          address
          dest_struct
          (machine input left err memory))
unfolding decode_both
decode_noinit_confined tables realloc free rounds callback extension slots depth W fields end
      address dest_struct input left err memory tags ends table plain some_field local room bytes
      mapped =
    let inner = decode_both tables realloc free rounds callback extension slots depth in
    subst (Contained {A = Unit {0}} W input left memory 0)
      (sym (
        decode_fields-begins tables realloc free rounds callback extension (slots depth) (suc depth)
          (inner true) (inner false) W fields end tags ends dest_struct plain address table
          (machine input left err memory)))
      (decode_from-Contained tables realloc free rounds callback extension (slots depth) (suc depth)
        (inner true) (inner false) W fields end tags ends dest_struct plain input left err memory
        some_field local room bytes mapped)
