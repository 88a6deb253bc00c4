-- ===== src/Parse/Confined/Settled.antt =====
-- Confined calls with a property of what they return, over input that consists of bytes.
use mathlib.Core.Path.{subst}
use bw_watermyplants.Common.{
  ℕ, zero, suc, ◌+◌, ◌-◌, ◌≤◌, sym, List, [], ◌∷◌, Option, All, arith, length, length-drop, drop,
  IsByte,
}
use bw_watermyplants.Outcome.{Outcome, done, fail, fault, stuck, Call, Errmsg}
use bw_watermyplants.Memory.{Memory}
use bw_watermyplants.Istream.{Istream}
use bw_watermyplants.Istream.Safety.{Returned}
use bw_watermyplants.Decode.Takes.{Shorter}
use bw_watermyplants.Decode.Tags.{Gives}
use bw_watermyplants.Parse.Machine.{Machine}
use bw_watermyplants.Parse.Confined.{
  Moved, Stopped, fails_here, after_moving, fails_later, Contained, machine,
}
use bw_watermyplants.Parse.Confined.Stores.{Region, IsMapped, Kept-refl, Kept-IsMapped}

module _ {A : Type 0} (Q : A → Type 0) where
  -- The call returned within the region, and what it returned has the property.
  abbrev pub Settled : Region → List ℕ → ℕ → Memory → ℕ → Outcome (Machine (List ℕ)) A → Type 0
  Settled W input left memory took (done a s) = Moved W input left memory took s × Q a
  Settled W input left memory took (fail s) = Stopped W input left memory s
  Settled W input left memory took fault = ⊥
  Settled W input left memory took stuck = ⊥

  module _ (W : Region) where
    -- A call on the stream alone
    pub input-Settled :
        (input : List ℕ) (left k : ℕ) (memory : Memory) (o : Outcome (Istream (List ℕ)) A)
        → Returned input left o
        → Shorter k left o
        → Gives Q o
        → Settled W input left memory k (elim o as (λ _. Outcome (Machine (List ℕ)) A) [
          | done a input' ↦ done a (record { input = input'; memory = memory })
          | fail input' ↦ fail (record { input = input'; memory = memory })
          | fault ↦ fault
          | stuck ↦ stuck
        ])
    input-Settled input left k memory (done a s) p short q = (
      record {
        on = p;
        at_least =
            let e : left - p.used + k ≤ left = rw p.place at short in omega (arith, p.used-le);
        kept = Kept-refl memory;
      },
      q,
    )
    input-Settled input left k memory (fail s) p short q =
        fails_here input left memory (record { input = s; memory = memory }) p (Kept-refl memory)
    input-Settled input left k memory fault p short q = p
    input-Settled input left k memory stuck p short q = p

    -- A confined call, and then a value
    pub then-Settled :
        {B : Type 0} (input : List ℕ) (left k : ℕ) (memory : Memory) (a : A)
        → Q a
        → (o : Outcome (Machine (List ℕ)) B) → Contained W input left memory k o
        → Settled W input left memory k (elim o as (λ _. Outcome (Machine (List ℕ)) A) [
          | done b s' ↦ done a s'
          | fail s' ↦ fail s'
          | fault ↦ fault
          | stuck ↦ stuck
        ])
    then-Settled input left k memory a q (done b s) p = (p, q)
    then-Settled input left k memory a q (fail s) p = p
    then-Settled input left k memory a q fault p = p
    then-Settled input left k memory a q stuck p = p

    goes_on_from :
        (input : List ℕ) (left : ℕ) (first : Memory) (k : ℕ) (s : Machine (List ℕ))
        (p : Moved W input left first k s)
        → (o : Outcome (Machine (List ℕ)) A)
        → Settled W (drop p.on.used input) (left - p.on.used) s.memory 0 o
        → Settled W input left first 0 o
    goes_on_from input left first k s p (done a s') (m, q) =
        (after_moving input left first k 0 0 s p s' (omega arith) m, q)
    goes_on_from input left first k s p (fail s') m = fails_later input left first k s p s' m
    goes_on_from input left first k s p fault m = m
    goes_on_from input left first k s p stuck m = m

module _ (W : Region) (input : List ℕ) (left : ℕ) (memory : Memory)
    (o : Outcome (Machine (List ℕ)) (Unit {0})) where
  pub Contained-Settled :
      Contained W input left memory 0 o → Settled (λ _. Unit {0}) W input left memory 0 o
  Contained-Settled h = go o h
    where
      go :
          (o : Outcome (Machine (List ℕ)) (Unit {0}))
          → Contained W input left memory 0 o
          → Settled (λ _. Unit {0}) W input left memory 0 o
      go (done a s) m = (m, tt)
      go (fail s) m = m
      go fault m = m
      go stuck m = m

  pub Settled-Contained :
      Settled (λ _. Unit {0}) W input left memory 0 o → Contained W input left memory 0 o
  Settled-Contained h = go o h
    where
      go :
          (o : Outcome (Machine (List ℕ)) (Unit {0}))
          → Settled (λ _. Unit {0}) W input left memory 0 o
          → Contained W input left memory 0 o
      go (done a s) (m, _) = m
      go (fail s) m = m
      go fault m = m
      go stuck m = m

All-drop : (n : ℕ) (bs : List ℕ) → All IsByte bs → All IsByte (drop n bs)
All-drop zero bs h = h
All-drop (suc n) [] h = h
All-drop (suc n) (b ∷ bs) (_, h) = All-drop n bs h

module _ {A B : Type 0} (Q : A → Type 0) (R : B → Type 0) {W : Region}
    (f : A → Call (Machine (List ℕ)) B) where
  pub bind-Settled :
      (input : List ℕ) (left k : ℕ) (first : Memory)
      → left ≤ length input
      → All IsByte input
      → IsMapped W first
      → ((a : A)
          → Q a
          → (input' : List ℕ) (left' : ℕ) (err' : Option Errmsg) (memory' : Memory)
          → left' ≤ length input'
          → left' + k ≤ left
          → All IsByte input'
          → IsMapped W memory'
          → Settled R W input' left' memory' 0 (f a (machine input' left' err' memory')))
      → (o : Outcome (Machine (List ℕ)) A) → Settled Q W input left first k o
      → Settled R W input left first 0 (elim o as (λ _. Outcome (Machine (List ℕ)) B) [
        | done a s' ↦ f a s'
        | fail s' ↦ fail s'
        | fault ↦ fault
        | stuck ↦ stuck
      ])
  bind-Settled input left k first room bytes mapped rest (done a s) (p, q) =
      goes_on_from R W input left first k s p (f a s) (
        subst
          (λ t.
            Settled R W (drop p.on.used input) (left - p.on.used) s.memory 0
              (f a (record { input = t; memory = s.memory })))
          (sym p.on.place)
          (rest a q (drop p.on.used input) (left - p.on.used) p.on.err s.memory
            (omega (arith, length-drop {0} p.on.used input))
            (omega (arith, p.at_least, p.on.used-le)) (All-drop p.on.used input bytes)
            (Kept-IsMapped p.kept mapped)))
  bind-Settled input left k first room bytes mapped rest (fail s) p = p
  bind-Settled input left k first room bytes mapped rest fault p = p
  bind-Settled input left k first room bytes mapped rest stuck p = p
