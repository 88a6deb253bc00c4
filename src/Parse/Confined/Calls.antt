-- ===== src/Parse/Confined/Calls.antt =====
-- The calls that a decoder is put together from, as confined ones.
use native.Mathlib.Omega.{arith}
use bw_watermyplants.Common.{ℕ, ◌≤◌, List, Option, Bool, true, false, if◌then◌else◌}
use bw_watermyplants.Outcome.{Outcome, done, fail, fault, stuck, Call, Errmsg}
use bw_watermyplants.Memory.{Memory}
use bw_watermyplants.Istream.{Istream}
use bw_watermyplants.Istream.Buffers.{stream}
use bw_watermyplants.Istream.Safety.{Returned, IsSafe, stays}
use bw_watermyplants.Parse.Machine.{Machine, on_input, on_memory}
use bw_watermyplants.Parse.Confined.Stores.{Region, Kept-refl, Tamed, IsTame}
use bw_watermyplants.Parse.Confined.{Moved, fails_here, Contained, machine, IsConfined}

module _ {W : Region} where
  pub unmoved :
      (input : List ℕ) (left : ℕ) (err : Option Errmsg) (memory : Memory)
      → Moved W input left memory 0 (machine input left err memory)
  unmoved input left err memory = record {
    on = stays input left err;
    at_least = omega arith;
    kept = Kept-refl memory;
  }

  pub return-IsConfined : {A : Type 0} (bound : ℕ) (a : A) → IsConfined W bound 0 (λ s. done a s)
  return-IsConfined bound a = record {
    at = λ input left err memory room small mapped. unmoved input left err memory;
  }

  pub fail-IsConfined : {A : Type 0} (bound k : ℕ) → IsConfined {A = A} W bound k (λ s. fail s)
  fail-IsConfined bound k = record {
    at = λ input left err memory room small mapped.
        fails_here input left memory (machine input left err memory) (stays input left err)
          (Kept-refl memory);
  }

  pub if-IsConfined :
      {A : Type 0} (bound k : ℕ) (b : Bool) (m n : Call (Machine (List ℕ)) A)
      → IsConfined W bound k m
      → IsConfined W bound k n
      → IsConfined W bound k (if b then m else n)
  if-IsConfined bound k true m n hm hn = hm
  if-IsConfined bound k false m n hm hn = hn

  pub on_input-IsConfined :
      {A : Type 0} (bound : ℕ) (m : Call (Istream (List ℕ)) A)
      → IsSafe bound m
      → IsConfined W bound 0 (on_input m)
  unfolding on_input
  on_input-IsConfined {A = A} bound m h = record {
    at = λ input left err memory room small mapped.
        go input left memory (m (stream input left err)) (h.at input left err room small);
  }
    where
      go :
          (input : List ℕ) (left : ℕ) (memory : Memory) (o : Outcome (Istream (List ℕ)) A)
          → Returned input left o
          → Contained W input left memory 0 (elim o as (λ _. Outcome (Machine (List ℕ)) A) [
            | done a input' ↦ done a (record { input = input'; memory = memory })
            | fail input' ↦ fail (record { input = input'; memory = memory })
            | fault ↦ fault
            | stuck ↦ stuck
          ])
      go input left memory (done a s) p = record {
        on = p;
        at_least = omega arith;
        kept = Kept-refl memory;
      }
      go input left memory (fail s) p =
          fails_here input left memory (record { input = s; memory = memory }) p (Kept-refl memory)
      go input left memory fault p = p
      go input left memory stuck p = p

  pub on_memory-IsConfined :
      {A : Type 0} (bound : ℕ) (m : Call Memory A) → IsTame W m → IsConfined W bound 0 (on_memory m)
  unfolding on_memory
  on_memory-IsConfined {A = A} bound m h = record {
    at = λ input left err memory room small mapped.
        go input left err memory (m memory) (h.at memory mapped);
  }
    where
      go :
          (input : List ℕ) (left : ℕ) (err : Option Errmsg) (memory : Memory) (o : Outcome Memory A)
          → Tamed W memory o
          → Contained W input left memory 0 (elim o as (λ _. Outcome (Machine (List ℕ)) A) [
            | done a memory' ↦ done a (machine input left err memory')
            | fail memory' ↦ fail (machine input left err memory')
            | fault ↦ fault
            | stuck ↦ stuck
          ])
      go input left err memory (done a m') p = record {
        on = stays input left err;
        at_least = omega arith;
        kept = p;
      }
      go input left err memory (fail m') p =
          fails_here input left memory (machine input left err m') (stays input left err) p
      go input left err memory fault p = p
      go input left err memory stuck p = p

  -- One that takes more than it has to, on streams with fewer bytes
  pub weaken :
      {A : Type 0} (bound less k j : ℕ) {m : Call (Machine (List ℕ)) A}
      → less ≤ bound
      → j ≤ k
      → IsConfined W bound k m
      → IsConfined W less j m
  weaken {A = A} bound less k j {m = m} le lower h = record {
    at = λ input left err memory room small mapped.
        go input left memory (m (machine input left err memory))
          (h.at input left err memory room (omega arith) mapped);
  }
    where
      go :
          (input : List ℕ) (left : ℕ) (memory : Memory) (o : Outcome (Machine (List ℕ)) A)
          → Contained W input left memory k o
          → Contained W input left memory j o
      go input left memory (done a s) p = record {
        on = p.on;
        at_least = omega (arith, p.at_least);
        kept = p.kept;
      }
      go input left memory (fail s) p = p
      go input left memory fault p = p
      go input left memory stuck p = p
