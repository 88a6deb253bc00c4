-- ===== src/Parse/Confined/Closing.antt =====
-- What closing a substream leaves, behind a success and behind a failure.
use bw_watermyplants.Common.{
  ℕ, ◌+◌, ◌-◌, ◌≤◌, ◌≡◌, sym, ap, refl, inl, inr, List, Option, none, some, ◌!=◌, Bool-cases, arith,
  length, length-drop, drop, drop-drop,
}
use bw_watermyplants.Outcome.{done, fail, Call, Errmsg, bind_done}
use bw_watermyplants.Memory.{Memory}
use bw_watermyplants.Istream.{Istream}
use bw_watermyplants.Istream.Buffers.{stream}
use bw_watermyplants.Istream.Safety.{skip_within}
use bw_watermyplants.Decode.{close_string_substream}
use bw_watermyplants.Field.{Field}
use bw_watermyplants.Parse.Machine.{Machine, on_input, close_with}
use bw_watermyplants.Parse.Steps.{on_input-done}
use bw_watermyplants.Parse.Static.{close_packed}
use bw_watermyplants.Parse.Confined.{Moved, Stopped, Contained, machine}
use bw_watermyplants.Parse.Confined.Stores.{Region, Kept}

close_string-within :
    (input : List ℕ) (used remains rest : ℕ) (err e : Option Errmsg)
    → used + remains ≤ length input
    → close_string_substream (stream (drop used input) remains e) (stream input rest err)
      ≡ done tt (stream (drop (used + remains) input) rest e)
unfolding close_string_substream
close_string-within input used remains rest err e room =
    rw
      (
        skip_within remains (drop used input) remains e (omega arith)
            (omega (arith, length-drop {0} used input)),
        close_string_substream,
      )
      (ap (λ t. done tt (stream t rest e)) (drop-drop remains used input))

pub closes :
    (input : List ℕ) (used remains rest : ℕ) (err e : Option Errmsg) (memory : Memory)
    → used + remains ≤ length input
    → on_input
        (close_string_substream (stream (drop used input) remains e))
        (machine input rest err memory)
      ≡ done tt (machine (drop (used + remains) input) rest e memory)
closes input used remains rest err e memory room =
    on_input-done (machine input rest err memory) _
      (close_string-within input used remains rest err e room)

-- What closes a substream of `size` bytes: all of them are used up behind a success, and some of them
-- behind a failure.
pub record IsCloser (W : Region)
    (close : Option (Unit {0}) × Istream (List ℕ) → Call (Machine (List ℕ)) (Unit {0}))
    : Type 0 where
  pub success :
      (input : List ℕ) (left size used remains : ℕ) (err e : Option Errmsg) (first memory : Memory)
      → left ≤ length input
      → size ≤ left
      → Kept W first memory
      → used + remains ≡ size
      → Contained W input left first 0 (
          close
            (some tt, stream (drop used input) remains e)
            (machine input (left - size) err memory))
  pub failure :
      (input : List ℕ) (left size used remains : ℕ) (err e : Option Errmsg) (first memory : Memory)
      → left ≤ length input
      → size ≤ left
      → Kept W first memory
      → used + remains ≤ size
      → Contained W input left first 0 (
          close (none, stream (drop used input) remains e) (machine input (left - size) err memory))

module _ {W : Region} where
  -- The stream behind the bytes of the substream
  all_used :
      (input : List ℕ) (left size used remains : ℕ) (e : Option Errmsg) (first memory : Memory)
      → size ≤ left
      → Kept W first memory
      → used + remains ≡ size
      → Moved W input left first 0 (machine (drop (used + remains) input) (left - size) e memory)
  all_used input left size used remains e first memory within kept all = record {
    on = record {
      used = used + remains;
      err = e;
      used-le = omega (arith, all);
      place = ap (λ n. stream (drop (used + remains) input) (left - n) e) (sym all);
    };
    at_least = omega arith;
    kept = kept;
  }

  some_used :
      (input : List ℕ) (left size used remains : ℕ) (e : Option Errmsg) (first memory : Memory)
      → size ≤ left
      → Kept W first memory
      → used + remains ≤ size
      → Stopped W input left first (machine (drop (used + remains) input) (left - size) e memory)
  some_used input left size used remains e first memory within kept part = record {
    used = used + remains;
    remains = left - size;
    err = e;
    fits = omega (arith, part);
    place = refl;
    kept = kept;
  }

  pub close_with-IsCloser : IsCloser W (close_with {A = Unit})
  unfolding close_with
  close_with-IsCloser = record {
    success = λ input left size used remains err e first memory room within kept all.
        rw (closes input used remains (left - size) err e memory (omega (arith, all)))
          (all_used input left size used remains e first memory within kept all);
    failure = λ input left size used remains err e first memory room within kept part.
        rw
          (bind_done (on_input (close_string_substream (stream (drop used input) remains e)))
            (λ _ s. fail s)
            (closes input used remains (left - size) err e memory (omega (arith, part))))
          (some_used input left size used remains e first memory within kept part);
  }

  -- An error on the stream where the substream is not closed
  unclosed :
      (input : List ℕ) (left size : ℕ) (err : Option Errmsg) (first memory : Memory)
      → Kept W first memory
      → Stopped W input left first (machine input (left - size) err memory)
  unclosed input left size err first memory kept = record {
    used = 0;
    remains = left - size;
    err = err;
    fits = omega arith;
    place = refl;
    kept = kept;
  }

  pub close_packed-IsCloser :
      (func : ℕ → Call (Machine (List ℕ)) (Unit {0})) (field : Field ℕ) (p_data p_size : ℕ)
      → IsCloser W (close_packed func field p_data p_size)
  unfolding close_packed on_input
  close_packed-IsCloser func field p_data p_size = record {
    success = λ input left size used remains err e first memory room within kept all.
        elim (Bool-cases (remains != 0)) [
          | inl more ↦ rw more (unclosed input left size _ first memory kept)
          | inr none_left ↦ rw none_left (
              close_with-IsCloser.success input left size used remains err e first memory room
                within kept all)
        ];
    failure = λ input left size used remains err e first memory room within kept part.
        elim (Bool-cases (remains != 0)) [
          | inl more ↦ rw more (unclosed input left size _ first memory kept)
          | inr none_left ↦ rw none_left (
              close_with-IsCloser.failure input left size used remains err e first memory room
                within kept part)
        ];
  }
