-- ===== src/Parse/Steps.antt =====
-- A step of the decoder, from what the stream or the memory does in it.
use bw_watermyplants.Common.{ℕ, ◌≡◌, refl, some}
use bw_watermyplants.Outcome.{done, fail, Call}
use bw_watermyplants.Memory.{Memory, load}
use bw_watermyplants.Memory.Store.{fetch}
use bw_watermyplants.Istream.{Istream}
use bw_watermyplants.Parse.Machine.{Machine, on_input, on_memory}

module _ {S A : Type 0} (s : Machine S) where
  pub on_input-done :
      (m : Call (Istream S) A) {a : A} {input' : Istream S}
      → m s.input ≡ done a input'
      → on_input m s ≡ done a (record s { input = input' })
  unfolding on_input
  on_input-done m h = rw (h, on_input) refl

  pub on_input-fail :
      (m : Call (Istream S) A) {input' : Istream S}
      → m s.input ≡ fail input'
      → on_input m s ≡ fail (record s { input = input' })
  unfolding on_input
  on_input-fail m h = rw (h, on_input) refl

  pub on_memory-done :
      (m : Call Memory A) {a : A} {memory' : Memory}
      → m s.memory ≡ done a memory'
      → on_memory m s ≡ done a (record s { memory = memory' })
  unfolding on_memory
  on_memory-done m h = rw (h, on_memory) refl

fetch-done :
    (n p v : ℕ) (memory : Memory) → load memory n p ≡ some v → fetch n p memory ≡ done v memory
unfolding fetch
fetch-done n p v memory h = rw (h, fetch) refl

pub on_memory-fetch :
    {S : Type 0} (n p v : ℕ) (s : Machine S)
    → load s.memory n p ≡ some v
    → on_memory (fetch n p) s ≡ done v s
on_memory-fetch n p v s h = on_memory-done s (fetch n p) (fetch-done n p v s.memory h)
