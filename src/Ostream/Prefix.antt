-- ===== src/Ostream/Prefix.antt =====
-- `pb_write` of the first `count` bytes of a longer buffer.
use bw_watermyplants.Common.{
  ℕ, zero, suc, ◌≤◌, ◌≡◌, refl, ◌∙◌, List, [], ◌∷◌, ◌++◌, none, some, arith, length, take,
  length-take, IsU64,
}
use bw_watermyplants.Ostream.{Buffer, Ostream, copy, buf_write, write_some, write, call_back}
use bw_watermyplants.Ostream.Write.{emit}
use bw_watermyplants.Ostream.Emits.{Emits, emit-Emits, Filled}

copy-take :
    (n : ℕ) (buf before after : List ℕ)
    → n ≤ length buf
    → copy n buf before after ≡ copy n (take n buf) before after
unfolding copy
copy-take zero buf before after h = refl
copy-take (suc n) [] before after h = absurd (omega arith)
copy-take (suc n) (b ∷ bs) before [] h = refl
copy-take (suc n) (b ∷ bs) before (x ∷ after) h =
    copy-take n bs (before ++ b ∷ []) after (omega arith)

write-take :
    (count : ℕ) (buf : List ℕ) (s : Ostream Buffer)
    → count ≤ length buf
    → s.callback ≡ some buf_write
    → write buf count s ≡ write (take count buf) count s
unfolding write write_some call_back buf_write
write-take zero buf s h e = refl
write-take (suc n) buf s h e =
    rw e (ground (arith, copy-take (suc n) buf s.state.before s.state.after h))

write-take_sizing :
    (count : ℕ) (buf : List ℕ) (s : Ostream Buffer)
    → s.callback ≡ none
    → write buf count s ≡ write (take count buf) count s
unfolding write write_some
write-take_sizing zero buf s e = refl
write-take_sizing (suc n) buf s e = rw e

module _ (count : ℕ) (buf : List ℕ) (h : count ≤ length buf) where
  write-emit : (s : Ostream Buffer) → write (take count buf) count s ≡ emit (take count buf) s
  write-emit s = rw (length-take count buf h)

  pub write-Emits : IsU64 count → Emits (write buf count) (take count buf)
  write-Emits short = record {
    fits = λ s v room. write-take count buf s h v.writes ∙ write-emit s ∙ e.fits s v room;
    full = λ s v over.
        let path = write-take count buf s h v.writes ∙ write-emit s in
        let f : Filled s (emit (take count buf) s) = e.full s v over in
        record {
          last = f.last;
          returns = path ∙ f.returns;
          last-IsBuffer = f.last-IsBuffer;
          message = f.message;
          same_limit = f.same_limit;
        };
    counts = λ s c. write-take_sizing count buf s c ∙ write-emit s ∙ e.counts s c;
  }
    where
      e : Emits (emit (take count buf)) (take count buf)
      e = emit-Emits (take count buf) (rw (length-take count buf h) short)
