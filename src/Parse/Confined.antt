-- ===== src/Parse/Confined.antt =====
-- Where a call of the decoder writes: on a buffer stream it returns, true or false, and changes the memory
-- only where it may.
pub mod Stores
pub mod Calls
pub mod Values
pub mod Bytes
pub mod Closing
pub mod Substream
pub mod Decoders
pub mod Static
pub mod Settled
pub mod Plain
pub mod KnownField
pub mod Message
pub mod Rounds
pub mod Noinit
use native.Mathlib.Omega.{arith}
use mathlib.Core.Path.{subst}
use bw_watermyplants.Common.{
  ℕ, zero, suc, ◌+◌, ◌-◌, ◌≤◌, ◌<◌, ◌≡◌, refl, sym, ◌∙◌, List, Option, none, some, Bool, true,
  false, if◌then◌else◌, length, drop, length-drop, drop-drop,
}
use bw_watermyplants.Outcome.{Outcome, done, fail, fault, stuck, Call, ◌>>=◌, Errmsg, set_error}
use bw_watermyplants.Memory.{Memory}
use bw_watermyplants.Istream.{Istream}
use bw_watermyplants.Istream.Buffers.{stream}
use bw_watermyplants.Istream.Safety.{IsOn, Returned, IsSafe, stays}
use bw_watermyplants.Parse.Machine.{Machine, on_input, on_memory, error}
use bw_watermyplants.Parse.Confined.Stores.{
  Region, IsMapped, Kept, Kept-refl, Kept-trans, Kept-IsMapped, Tamed, IsTame,
}

-- The machine `s`, `took` bytes on at least from `left` bytes of `input`, and the memory kept but for `W`
pub record Moved (W : Region) (input : List ℕ) (left : ℕ) (memory : Memory) (took : ℕ)
    (s : Machine (List ℕ)) : Type 0 where
  pub on : IsOn input left s.input
  pub at_least : took ≤ on.used
  pub kept : Kept W memory s.memory

-- The machine of a failure: its stream still lies in the first `left` bytes of `input`.
pub record Stopped (W : Region) (input : List ℕ) (left : ℕ) (memory : Memory) (s : Machine (List ℕ))
    : Type 0 where
  pub used : ℕ
  pub remains : ℕ
  pub err : Option Errmsg
  pub fits : used + remains ≤ left
  pub place : s.input ≡ stream (drop used input) remains err
  pub kept : Kept W memory s.memory

abbrev pub Contained :
    {A : Type 0} → Region → List ℕ → ℕ → Memory → ℕ → Outcome (Machine (List ℕ)) A → Type 0
Contained W input left memory took (done a s) = Moved W input left memory took s
Contained W input left memory took (fail s) = Stopped W input left memory s
Contained W input left memory took fault = ⊥
Contained W input left memory took stuck = ⊥

abbrev pub machine : List ℕ → ℕ → Option Errmsg → Memory → Machine (List ℕ)
machine input left err memory = record { input = stream input left err; memory = memory }

-- On fewer than `bound` bytes the call returns, takes `took` bytes at least where it returns true, and
-- writes in `W`.
pub record IsConfined {A : Type 0} (W : Region) (bound took : ℕ) (m : Call (Machine (List ℕ)) A)
    : Type 0 where
  pub at :
      (input : List ℕ) (left : ℕ) (err : Option Errmsg) (memory : Memory)
      → left ≤ length input
      → left < bound
      → IsMapped W memory
      → Contained W input left memory took (m (machine input left err memory))

module _ {W : Region} where
  pub after_moving :
      (input : List ℕ) (left : ℕ) (first : Memory) (k j t : ℕ) (s : Machine (List ℕ))
      (p : Moved W input left first k s) (s' : Machine (List ℕ))
      → t ≤ k + j
      → Moved W (drop p.on.used input) (left - p.on.used) s.memory j s'
      → Moved W input left first t s'
  after_moving input left first k j t s p s' le q = record {
    on = record {
      used = p.on.used + q.on.used;
      err = q.on.err;
      used-le = omega (arith, p.on.used-le, q.on.used-le);
      place =
          let e : left - p.on.used - q.on.used ≡ left - (p.on.used + q.on.used) = omega arith in
          q.on.place ∙ rw (drop-drop q.on.used p.on.used input, e);
    };
    at_least = omega (arith, le, p.at_least, q.at_least);
    kept = Kept-trans p.kept q.kept;
  }

  pub fails_later :
      (input : List ℕ) (left : ℕ) (first : Memory) (k : ℕ) (s : Machine (List ℕ))
      (p : Moved W input left first k s) (s' : Machine (List ℕ))
      → Stopped W (drop p.on.used input) (left - p.on.used) s.memory s'
      → Stopped W input left first s'
  fails_later input left first k s p s' q = record {
    used = p.on.used + q.used;
    remains = q.remains;
    err = q.err;
    fits = omega (arith, p.on.used-le, q.fits);
    place = q.place ∙ rw (drop-drop q.used p.on.used input) refl;
    kept = Kept-trans p.kept q.kept;
  }

  -- A failure on the stream, or without any change
  pub fails_here :
      (input : List ℕ) (left : ℕ) (first : Memory) (s : Machine (List ℕ))
      → IsOn input left s.input
      → Kept W first s.memory
      → Stopped W input left first s
  fails_here input left first s p kept = record {
    used = p.used;
    remains = left - p.used;
    err = p.err;
    fits = omega (arith, p.used-le);
    place = p.place;
    kept = kept;
  }

  module _ {A B : Type 0} (bound k j : ℕ) (f : A → Call (Machine (List ℕ)) B)
      (rest : (a : A) → IsConfined W bound j (f a)) where
    carried :
        (input : List ℕ) (left : ℕ) (first : Memory) (s : Machine (List ℕ))
        (p : Moved W input left first k s)
        → (o : Outcome (Machine (List ℕ)) B)
        → Contained W (drop p.on.used input) (left - p.on.used) s.memory j o
        → Contained W input left first (k + j) o
    carried input left first s p (done b s') q =
        after_moving input left first k j (k + j) s p s' (omega arith) q
    carried input left first s p (fail s') q = fails_later input left first k s p s' q
    carried input left first s p fault q = q
    carried input left first s p stuck q = q

    -- The rest of a call, on the machine that the first part left
    resumed_within :
        (input : List ℕ) (left : ℕ) (first : Memory) (a : A) (s : Machine (List ℕ))
        → left ≤ length input
        → IsMapped W first
        → (p : Moved W input left first k s) → left - p.on.used < bound
        → Contained W input left first (k + j) (f a s)
    resumed_within input left first a s room mapped p small =
        let fits : left - p.on.used ≤ length (drop p.on.used input) =
          omega (arith, length-drop {0} p.on.used input) in
        carried input left first s p (f a s) (
          subst
            (λ t.
              Contained W (drop p.on.used input) (left - p.on.used) s.memory j
                (f a (record { input = t; memory = s.memory })))
            (sym p.on.place)
            ((rest a).at (drop p.on.used input) (left - p.on.used) p.on.err s.memory fits small
              (Kept-IsMapped p.kept mapped)))

    pub resumed :
        (input : List ℕ) (left : ℕ) (first : Memory) (a : A) (s : Machine (List ℕ))
        → left ≤ length input
        → left < bound
        → IsMapped W first
        → Moved W input left first k s
        → Contained W input left first (k + j) (f a s)
    resumed input left first a s room small mapped p =
        resumed_within input left first a s room mapped p (omega arith)

    behind :
        (input : List ℕ) (left : ℕ) (first : Memory)
        → left ≤ length input
        → IsMapped W first
        → ((s : Machine (List ℕ)) (p : Moved W input left first k s) → left - p.on.used < bound)
        → (o : Outcome (Machine (List ℕ)) A) → Contained W input left first k o
        → Contained W input left first (k + j) (elim o as (λ _. Outcome (Machine (List ℕ)) B) [
          | done a s' ↦ f a s'
          | fail s' ↦ fail s'
          | fault ↦ fault
          | stuck ↦ stuck
        ])
    behind input left first room mapped small (done a s) p =
        resumed_within input left first a s room mapped p (small s p)
    behind input left first room mapped small (fail s) p = p
    behind input left first room mapped small fault p = p
    behind input left first room mapped small stuck p = p

    -- The first part takes `k` bytes, so the rest has as many fewer.
    pub round-IsConfined :
        (m : Call (Machine (List ℕ)) A) (larger : ℕ)
        → larger ≤ bound + k
        → IsConfined W larger k m
        → IsConfined W larger (k + j) (m >>= f)
    round-IsConfined m larger le h = record {
      at = λ input left err memory room small mapped.
          behind input left memory room mapped (λ s p. omega (arith, le, p.at_least, p.on.used-le))
            (m (machine input left err memory)) (h.at input left err memory room small mapped);
    }

    pub bind-IsConfined :
        (m : Call (Machine (List ℕ)) A)
        → IsConfined W bound k m
        → IsConfined W bound (k + j) (m >>= f)
    bind-IsConfined m h = record {
      at = λ input left err memory room small mapped.
          behind input left memory room mapped (λ s p. omega arith)
            (m (machine input left err memory)) (h.at input left err memory room small mapped);
    }
