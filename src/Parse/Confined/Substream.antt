-- ===== src/Parse/Confined/Substream.antt =====
-- A call on a substream, and the stream once the substream is closed.
use bw_watermyplants.Common.{
  ℕ, ◌-◌, ◌≤◌, ◌≡◌, refl, inl, inr, List, Option, none, some, true, false, ltb, Bool-cases, arith,
  length,
}
use bw_watermyplants.Outcome.{
  Outcome, done, fail, fault, stuck, Call, ◌>>=◌, Errmsg, parent_stream_too_short, set_error,
  bind_done, bind_fail,
}
use bw_watermyplants.Memory.{Memory}
use bw_watermyplants.Istream.{Istream}
use bw_watermyplants.Istream.Buffers.{stream}
use bw_watermyplants.Istream.Safety.{stays}
use bw_watermyplants.Decode.{decode_varint32, cut_substream, make_string_substream}
use bw_watermyplants.Decode.Safety.{decode_varint32-IsSafe}
use bw_watermyplants.Decode.Takes.{decode_varint32-Takes}
use bw_watermyplants.Parse.Machine.{Machine, on_input, inside, make_substream}
use bw_watermyplants.Parse.Steps.{on_input-done, on_input-fail}
use bw_watermyplants.Parse.Confined.{fails_here, Contained, machine, IsConfined}
use bw_watermyplants.Parse.Confined.Stores.{Region, IsMapped, Kept-refl}
use bw_watermyplants.Parse.Confined.Values.{value-IsConfined}
use bw_watermyplants.Parse.Confined.Closing.{IsCloser}

module _ (size : ℕ) (input : List ℕ) (left : ℕ) (err : Option Errmsg) where
  cut_short :
      ltb left size ≡ true
      → cut_substream size (stream input left err)
        ≡ fail (stream input left (set_error err parent_stream_too_short))
  unfolding cut_substream
  cut_short h = rw (h, cut_substream) refl

  cut_fits :
      ltb left size ≡ false
      → cut_substream size (stream input left err)
        ≡ done (stream input size err) (stream input (left - size) err)
  unfolding cut_substream
  cut_fits h = rw (h, cut_substream) refl

-- The size is read, and then the substream is cut off.
made :
    (s : Machine (List ℕ)) (f : Istream (List ℕ) → Call (Machine (List ℕ)) (Unit {0}))
    → (make_substream >>= f) s
      ≡ (on_input decode_varint32 >>= λ size. on_input (cut_substream size) >>= f) s
unfolding make_substream make_string_substream on_input
made s f = go (decode_varint32 s.input)
  where
    go :
        (o : Outcome (Istream (List ℕ)) ℕ)
        → (elim (elim (elim o as (λ _. Outcome (Istream (List ℕ)) (Istream (List ℕ))) [
          | done size s' ↦ cut_substream size s'
          | fail s' ↦ fail s'
          | fault ↦ fault
          | stuck ↦ stuck
        ])
              as (λ _. Outcome (Machine (List ℕ)) (Istream (List ℕ))) [
                | done a input' ↦ done a (record s { input = input' })
                | fail input' ↦ fail (record s { input = input' })
                | fault ↦ fault
                | stuck ↦ stuck
              ])
            as (λ _. Outcome (Machine (List ℕ)) (Unit {0})) [
              | done a s' ↦ f a s'
              | fail s' ↦ fail s'
              | fault ↦ fault
              | stuck ↦ stuck
            ])
          ≡ (elim (elim o as (λ _. Outcome (Machine (List ℕ)) ℕ) [
            | done a input' ↦ done a (record s { input = input' })
            | fail input' ↦ fail (record s { input = input' })
            | fault ↦ fault
            | stuck ↦ stuck
          ])
              as (λ _. Outcome (Machine (List ℕ)) (Unit {0})) [
                | done size s' ↦ (on_input (cut_substream size) >>= f) s'
                | fail s' ↦ fail s'
                | fault ↦ fault
                | stuck ↦ stuck
              ])
    go (done size s') = refl
    go (fail s') = refl
    go fault = refl
    go stuck = refl

module _ {W : Region} where
  -- The substream is cut off, `body` runs on it, and `close` closes it.
  module _ (bound : ℕ) (body : Istream (List ℕ) → Call (Machine (List ℕ)) (Unit {0}))
      (close : Option (Unit {0}) × Istream (List ℕ) → Call (Machine (List ℕ)) (Unit {0}))
      (closer : IsCloser W close)
      (safe : (input : List ℕ) (size : ℕ) (err : Option Errmsg) (memory : Memory)
        → size ≤ length input
        → IsMapped W memory
        → Contained W input size memory 0
            (body (stream input size err) (machine input size err memory))) where
    closed_behind :
        (input : List ℕ) (left size : ℕ) (err : Option Errmsg) (first : Memory)
        → left ≤ length input
        → size ≤ left
        → (o : Outcome (Machine (List ℕ)) (Unit {0})) → Contained W input size first 0 o
        → Contained W input left first 0
            (elim (elim o
                as (λ _. Outcome (Machine (List ℕ)) (Option (Unit {0}) × Istream (List ℕ))) [
                  | done a s' ↦ done (some a, s'.input) (machine input (left - size) err s'.memory)
                  | fail s' ↦ done (none, s'.input) (machine input (left - size) err s'.memory)
                  | fault ↦ fault
                  | stuck ↦ stuck
                ])
              as (λ _. Outcome (Machine (List ℕ)) (Unit {0})) [
                | done a s' ↦ close a s'
                | fail s' ↦ fail s'
                | fault ↦ fault
                | stuck ↦ stuck
              ])
    closed_behind input left size err first room within (done a s) p = rw p.on.place (
        closer.success input left size p.on.used (size - p.on.used) err p.on.err first s.memory room
          within p.kept (omega (arith, p.on.used-le)))
    closed_behind input left size err first room within (fail s) p = rw p.place (
        closer.failure input left size p.used p.remains err p.err first s.memory room within p.kept
          p.fits)
    closed_behind input left size err first room within fault p = p
    closed_behind input left size err first room within stuck p = p

    cut-IsConfined :
        (size : ℕ)
        → IsConfined W bound 0 (
            on_input (cut_substream size) >>= λ substream.
            inside substream (body substream) >>= close)
    unfolding inside
    cut-IsConfined size = record {
      at = λ input left err memory room small mapped. elim (Bool-cases (ltb left size)) [
        | inl short ↦
            rw
              (bind_fail (on_input (cut_substream size))
                (λ substream. inside substream (body substream) >>= close)
                (on_input-fail (machine input left err memory) (cut_substream size)
                  (cut_short size input left err short)))
              (fails_here input left memory
                (machine input left (set_error err parent_stream_too_short) memory)
                (stays input left _) (Kept-refl memory))
        | inr fits ↦
            rw
              (bind_done (on_input (cut_substream size))
                (λ substream. inside substream (body substream) >>= close)
                (on_input-done (machine input left err memory) (cut_substream size)
                  (cut_fits size input left err fits)))
              (closed_behind input left size err memory room (ground arith)
                (body (stream input size err) (machine input size err memory))
                (safe input size err memory (ground arith) mapped))
      ];
    }

    pub substream-IsConfined :
        IsConfined W bound 1
          (make_substream >>= λ substream. inside substream (body substream) >>= close)
    substream-IsConfined = record {
      at = λ input left err memory room small mapped.
          rw
            (made (machine input left err memory)
              (λ substream. inside substream (body substream) >>= close))
            ((value-IsConfined bound 1 decode_varint32
                (λ size. on_input (cut_substream size) >>= λ substream.
                  inside substream (body substream) >>= close)
                (decode_varint32-IsSafe bound) decode_varint32-Takes cut-IsConfined).at
              input left err memory room small mapped);
    }
