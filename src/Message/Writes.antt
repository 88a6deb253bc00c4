-- ===== src/Message/Writes.antt =====
-- What it means that a call of the message encoder writes certain bytes. It asks for less than `Emits`: a
-- submessage copies the message of its stream and adds its size to `bytes_written`.
use bw_watermyplants.Common.{
  ℕ, ◌+◌, ◌^◌, ◌≤◌, ◌<◌, ◌≡◌, inl, inr, ap, ◌∙◌, List, [], ◌++◌, none, arith, length, length-append,
  append-nil, IsU64, leb, Bool-cases,
}
use mathlib.Core.Path.{fun_ext}
use bw_watermyplants.Outcome.{done, Call, ◌>>◌, return, bind_done, bind_fail}
use bw_watermyplants.Ostream.{Buffer, Ostream, advance}
use bw_watermyplants.Ostream.Write.{IsBuffer, stored, stored-IsBuffer}
use bw_watermyplants.Encode.Sizes.{StoresOrFills}
use bw_watermyplants.Ostream.Emits.{Emits, Filled, stored-stored}

-- On a buffer stream without an error whose limit leaves no overflow, and on a sizing stream
pub record Writes (m : Call (Ostream Buffer) (Unit {0})) (bytes : List ℕ) : Type 0 where
  pub fits :
      (s : Ostream Buffer)
      → IsBuffer s
      → s.errmsg ≡ none
      → s.max_size + length bytes < 2 ^ 64
      → s.bytes_written + length bytes ≤ s.max_size
      → m s ≡ done tt (stored bytes s)
  pub full :
      (s : Ostream Buffer)
      → IsBuffer s
      → s.errmsg ≡ none
      → s.max_size + length bytes < 2 ^ 64
      → s.max_size < s.bytes_written + length bytes
      → Filled s (m s)
  pub counts :
      (s : Ostream Buffer)
      → s.callback ≡ none
      → IsU64 s.bytes_written
      → IsU64 (length bytes)
      → m s ≡ done tt (advance (length bytes) s)

module _ {m : Call (Ostream Buffer) (Unit {0})} {bytes : List ℕ} where
  pub Emits-Writes : Emits m bytes → Writes m bytes
  Emits-Writes e = record {
    fits = λ s v clean wide h. e.fits s v h;
    full = λ s v clean wide h. e.full s v h;
    counts = λ s h small short. e.counts s h;
  }

  pub Writes-resp :
      {k : Call (Ostream Buffer) (Unit {0})}
      → ((s : Ostream Buffer) → m s ≡ k s)
      → Writes k bytes
      → Writes m bytes
  Writes-resp same w = rw (fun_ext same) w

-- A field that is not present
pub return-Writes : Writes (return tt) []
return-Writes = record {
  fits = λ s v clean wide h. ground (arith, append-nil s.state.before);
  full = λ s v clean wide h. absurd (omega (arith, v.within));
  counts = λ s h small short. ground arith;
}

module _ {m k : Call (Ostream Buffer) (Unit {0})} {a b : List ℕ} (first : Writes m a)
    (second : Writes k b) where
  then-full :
      (s : Ostream Buffer)
      → IsBuffer s
      → s.errmsg ≡ none
      → s.max_size + length (a ++ b) < 2 ^ 64
      → s.max_size < s.bytes_written + length (a ++ b)
      → Filled s ((m >> k) s)
  then-full s v clean wide h =
      let wide_a : s.max_size + length a < 2 ^ 64 = omega (arith, length-append a b) in
      elim (Bool-cases (leb (s.bytes_written + length a) s.max_size)) [
        | inl small ↦
            let room : s.bytes_written + length a ≤ s.max_size = ground arith in
            let rest : Filled (stored a s) (k (stored a s)) =
              second.full (stored a s) (stored-IsBuffer s v a room) clean
                (omega (arith, length-append a b)) (omega (arith, length-append a b)) in
            record {
              last = rest.last;
              returns = bind_done m (λ _. k) (first.fits s v clean wide_a room) ∙ rest.returns;
              last-IsBuffer = rest.last-IsBuffer;
              message = rest.message;
              same_limit = rest.same_limit;
            }
        | inr over ↦
            let stop : Filled s (m s) = first.full s v clean wide_a (ground arith) in
            record {
              last = stop.last;
              returns = bind_fail m (λ _. k) stop.returns;
              last-IsBuffer = stop.last-IsBuffer;
              message = stop.message;
              same_limit = stop.same_limit;
            }
      ]

  pub then-Writes : Writes (m >> k) (a ++ b)
  then-Writes = record {
    fits = λ s v clean wide h.
        let room : s.bytes_written + length a ≤ s.max_size = omega (arith, length-append a b) in
        bind_done m (λ _. k) (first.fits s v clean (omega (arith, length-append a b)) room)
        ∙ second.fits (stored a s) (stored-IsBuffer s v a room) clean
            (omega (arith, length-append a b)) (omega (arith, length-append a b))
        ∙ ap (done tt) (stored-stored a b s);
    full = then-full;
    counts = λ s h small short.
        bind_done m (λ _. k) (first.counts s h small (omega (arith, length-append a b)))
        ∙ second.counts (advance (length a) s) h (omega arith) (omega (arith, length-append a b))
        ∙ ground (arith, length-append a b);
  }

pub Writes-StoresOrFills :
    (m : Call (Ostream Buffer) (Unit {0})) (bytes : List ℕ) (s : Ostream Buffer)
    → Writes m bytes
    → IsBuffer s
    → s.errmsg ≡ none
    → s.max_size + length bytes < 2 ^ 64
    → StoresOrFills m bytes s
Writes-StoresOrFills m bytes s w v clean wide =
    elim (Bool-cases (leb (s.bytes_written + length bytes) s.max_size)) [
      | inl small ↦
          let fits : s.bytes_written + length bytes ≤ s.max_size = ground arith in
          inl (fits, w.fits s v clean wide fits)
      | inr large ↦
          let over : s.max_size < s.bytes_written + length bytes = ground arith in
          inr (over, w.full s v clean wide over)
    ]
