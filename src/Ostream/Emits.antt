-- ===== src/Ostream/Emits.antt =====
-- What it means that a call writes certain bytes, and the rule for two calls in a row.
use bw_watermyplants.Common.{
  ℕ, ◌+◌, ◌≤◌, ◌<◌, ◌≡◌, inl, inr, refl, ap, ◌∙◌, List, ◌++◌, none, arith, length, drop, drop-drop,
  length-append, append_assoc, IsU64, leb, Bool-cases,
}
use bw_watermyplants.Outcome.{
  Outcome, done, fail, Call, ◌>>◌, bind_done, bind_fail, set_error, stream_full,
}
use bw_watermyplants.Ostream.{Buffer, Ostream, advance}
use bw_watermyplants.Ostream.Write.{
  IsBuffer, stored, out_of_room, emit, emit_fits, emit_full, stored-IsBuffer, out_of_room-IsBuffer,
  emit_sizing,
}

-- The call returned false because the stream was full, and left a stream over the same buffer.
pub record Filled (s : Ostream Buffer) (o : Outcome (Ostream Buffer) (Unit {0})) : Type 0 where
  pub last : Ostream Buffer
  pub returns : o ≡ fail last
  pub last-IsBuffer : IsBuffer last
  pub message : last.errmsg ≡ set_error s.errmsg stream_full
  pub same_limit : last.max_size ≡ s.max_size

-- `m` writes `bytes`: into a buffer where they fit it stores exactly these behind what is there; where
-- they do not fit it fails with "stream full"; a sizing stream counts them.
pub record Emits (m : Call (Ostream Buffer) (Unit {0})) (bytes : List ℕ) : Type 0 where
  pub fits :
      (s : Ostream Buffer)
      → IsBuffer s
      → s.bytes_written + length bytes ≤ s.max_size
      → m s ≡ done tt (stored bytes s)
  pub full :
      (s : Ostream Buffer)
      → IsBuffer s
      → s.max_size < s.bytes_written + length bytes
      → Filled s (m s)
  pub counts : (s : Ostream Buffer) → s.callback ≡ none → m s ≡ done tt (advance (length bytes) s)

pub emit-Emits : (bytes : List ℕ) → IsU64 (length bytes) → Emits (emit bytes) bytes
emit-Emits bytes short = record {
  fits = λ s v h. emit_fits s v bytes h;
  full = λ s v h. record {
    last = out_of_room s;
    returns = emit_full s v bytes short h;
    last-IsBuffer = out_of_room-IsBuffer s v;
    message = refl;
    same_limit = refl;
  };
  counts = λ s h. emit_sizing s bytes h;
}

pub stored-stored : (a b : List ℕ) (s : Ostream Buffer) → stored b (stored a s) ≡ stored (a ++ b) s
stored-stored a b s = λ i. record s {
  state = record { before = append_assoc s.state.before a b i; after = after_path i };
  bytes_written = written_path i;
}
  where
    written_path : s.bytes_written + length a + length b ≡ s.bytes_written + length (a ++ b)
    written_path = omega (arith, length-append a b)

    after_path :
        drop (length b) (drop (length a) s.state.after) ≡ drop (length (a ++ b)) s.state.after
    after_path = rw length-append (drop-drop (length b) (length a) s.state.after)

module _ {m k : Call (Ostream Buffer) (Unit {0})} {a b : List ℕ} where
  then-counts :
      Emits m a
      → Emits k b
      → (s : Ostream Buffer) → s.callback ≡ none
      → (m >> k) s ≡ done tt (advance (length (a ++ b)) s)
  then-counts first second s h =
      bind_done m (λ _. k) (first.counts s h)
      ∙ second.counts (advance (length a) s) h
      ∙ ground (arith, length-append a b)

  then-fits :
      Emits m a
      → Emits k b
      → (s : Ostream Buffer) → IsBuffer s
      → s.bytes_written + length (a ++ b) ≤ s.max_size
      → (m >> k) s ≡ done tt (stored (a ++ b) s)
  then-fits first second s v h =
      let room : s.bytes_written + length a ≤ s.max_size = omega (arith, length-append a b) in
      bind_done m (λ _. k) (first.fits s v room)
      ∙ second.fits (stored a s) (stored-IsBuffer s v a room) (omega (arith, length-append a b))
      ∙ ap (done tt) (stored-stored a b s)

  then-full :
      Emits m a
      → Emits k b
      → (s : Ostream Buffer) → IsBuffer s
      → s.max_size < s.bytes_written + length (a ++ b)
      → Filled s ((m >> k) s)
  then-full first second s v h = elim (Bool-cases (leb (s.bytes_written + length a) s.max_size)) [
    | inl fits ↦
        let room : s.bytes_written + length a ≤ s.max_size = ground arith in
        let rest : Filled (stored a s) (k (stored a s)) =
          second.full (stored a s) (stored-IsBuffer s v a room)
            (omega (arith, length-append a b)) in
        record {
          last = rest.last;
          returns = bind_done m (λ _. k) (first.fits s v room) ∙ rest.returns;
          last-IsBuffer = rest.last-IsBuffer;
          message = rest.message;
          same_limit = rest.same_limit;
        }
    | inr over ↦
        let stop : Filled s (m s) = first.full s v (ground arith) in
        record {
          last = stop.last;
          returns = bind_fail m (λ _. k) stop.returns;
          last-IsBuffer = stop.last-IsBuffer;
          message = stop.message;
          same_limit = stop.same_limit;
        }
  ]

  pub then-Emits : Emits m a → Emits k b → Emits (m >> k) (a ++ b)
  then-Emits first second = record {
    fits = then-fits first second;
    full = then-full first second;
    counts = then-counts first second;
  }
