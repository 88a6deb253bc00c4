-- ===== src/Istream/Safety.antt =====
-- Memory safety of the readers over a buffer: a call stays inside the bytes that it may read, and its
-- pointer and `bytes_left` move together.
use bw_watermyplants.Common.{
  ℕ, zero, suc, ◌+◌, ◌-◌, ◌≤◌, ◌<◌, ◌≡◌, refl, sym, ◌∙◌, inl, inr, List, [], ◌∷◌, Option, arith,
  leb, Bool, true, false, if◌then◌else◌, Bool-cases, length, length-drop, take, drop, length-take,
  take-append-drop, drop-drop,
}
use bw_watermyplants.Outcome.{
  Outcome, done, fail, fault, stuck, Call, ◌>>=◌, bind_done, bind_fail, Errmsg, set_error,
  end_of_stream,
}
use bw_watermyplants.Istream.{Istream, return_error, read, skip, first_byte, readbyte}
use bw_watermyplants.Istream.Buffers.{
  stream, read_fits, read_short, skip_fits, skip_short, readbyte_cons, readbyte_end,
}
use mathlib.Core.Path.{subst}

-- The stream `s` is `used` bytes on in `memory`, of which `left` could be read.
pub record IsOn (memory : List ℕ) (left : ℕ) (s : Istream (List ℕ)) : Type 0 where
  pub used : ℕ
  pub err : Option Errmsg
  pub used-le : used ≤ left
  pub place : s ≡ stream (drop used memory) (left - used) err

-- The call returned, true or false, and its stream is still on the memory.
abbrev pub Returned {κ} : {A : Type κ} → List ℕ → ℕ → Outcome (Istream (List ℕ)) A → Type 0
Returned memory left (done a s) = IsOn memory left s
Returned memory left (fail s) = IsOn memory left s
Returned memory left fault = ⊥
Returned memory left stuck = ⊥

-- On every stream with fewer than `bound` bytes to read, all of them in memory, `m` returns.
pub record IsSafe {κ} {A : Type κ} (bound : ℕ) (m : Call (Istream (List ℕ)) A) : Type κ where
  pub at :
      (memory : List ℕ) (left : ℕ) (err : Option Errmsg)
      → left ≤ length memory
      → left < bound
      → Returned memory left (m (stream memory left err))

pub stays :
    (memory : List ℕ) (left : ℕ) (err : Option Errmsg) → IsOn memory left (stream memory left err)
stays memory left err = record {
  used = 0;
  err = err;
  used-le = omega arith;
  place = let e : left - 0 ≡ left = omega arith in rw e;
}

widen_IsOn :
    (memory : List ℕ) (left used : ℕ) (s : Istream (List ℕ))
    → used ≤ left
    → IsOn (drop used memory) (left - used) s
    → IsOn memory left s
widen_IsOn memory left used s h p = record {
  used = used + p.used;
  err = p.err;
  used-le = omega (arith, p.used-le);
  place =
      let e : left - used - p.used ≡ left - (used + p.used) = omega arith in
      p.place ∙ rw (drop-drop p.used used memory, e);
}

pub widen {κ} :
    {A : Type κ} (memory : List ℕ) (left used : ℕ) (o : Outcome (Istream (List ℕ)) A)
    → used ≤ left
    → Returned (drop used memory) (left - used) o
    → Returned memory left o
widen memory left used (done a s) h p = widen_IsOn memory left used s h p
widen memory left used (fail s) h p = widen_IsOn memory left used s h p
widen memory left used fault h p = p
widen memory left used stuck h p = p

module _ {κ μ} {A : Type κ} {B : Type μ} (bound : ℕ) (f : A → Call (Istream (List ℕ)) B)
    (rest : (a : A) → IsSafe bound (f a)) where
  resume :
      (memory : List ℕ) (left : ℕ) (a : A) (s : Istream (List ℕ))
      → left ≤ length memory
      → left < bound
      → IsOn memory left s
      → Returned memory left (f a s)
  resume memory left a s room small p =
      let fits : left - p.used ≤ length (drop p.used memory) =
        omega (arith, length-drop {0} p.used memory) in
      subst (λ t. Returned memory left (f a t)) (sym p.place)
        (widen memory left p.used (f a (stream (drop p.used memory) (left - p.used) p.err))
          p.used-le
          ((rest a).at (drop p.used memory) (left - p.used) p.err fits (omega (arith, p.used-le))))

  pub bind-IsSafe : (m : Call (Istream (List ℕ)) A) → IsSafe bound m → IsSafe bound (m >>= f)
  bind-IsSafe m h = record {
    at = λ memory left err room small.
        go memory left room small (m (stream memory left err)) (h.at memory left err room small);
  }
    where
      go :
          (memory : List ℕ) (left : ℕ)
          → left ≤ length memory
          → left < bound
          → (o : Outcome (Istream (List ℕ)) A) → Returned memory left o
          → Returned memory left (elim o as (λ _. Outcome (Istream (List ℕ)) B) [
            | done a s' ↦ f a s'
            | fail s' ↦ fail s'
            | fault ↦ fault
            | stuck ↦ stuck
          ])
      go memory left room small (done a s) p = resume memory left a s room small p
      go memory left room small (fail s) p = p
      go memory left room small fault p = p
      go memory left room small stuck p = p

pub IsSafe-resp {κ} :
    {A : Type κ} (bound : ℕ) (m k : Call (Istream (List ℕ)) A)
    → ((memory : List ℕ) (left : ℕ) (err : Option Errmsg)
        → m (stream memory left err) ≡ k (stream memory left err))
    → IsSafe bound k
    → IsSafe bound m
IsSafe-resp bound m k same h = record {
  at = λ memory left err room small. rw (same memory left err) (h.at memory left err room small);
}

pub return-IsSafe {κ} : {A : Type κ} (bound : ℕ) (a : A) → IsSafe {A = A} bound (λ s. done a s)
return-IsSafe bound a = record { at = λ memory left err room small. stays memory left err }

pub error-IsSafe : {A : Type 0} (bound : ℕ) (msg : Errmsg) → IsSafe {A = A} bound (return_error msg)
error-IsSafe bound msg = record {
  at = λ memory left err room small. stays memory left (set_error err msg);
}

pub fail-IsSafe : {A : Type 0} (bound : ℕ) → IsSafe {A = A} bound (λ s. fail s)
fail-IsSafe bound = record { at = λ memory left err room small. stays memory left err }

pub if-IsSafe {κ} :
    {A : Type κ} (bound : ℕ) (b : Bool) (m k : Call (Istream (List ℕ)) A)
    → IsSafe bound m
    → IsSafe bound k
    → IsSafe bound (if b then m else k)
if-IsSafe bound true m k hm hk = hm
if-IsSafe bound false m k hm hk = hk

-- A call that takes its first bytes, and the stream behind them.
advanced :
    (n : ℕ) (memory : List ℕ) (left : ℕ) (err : Option Errmsg)
    → n ≤ left
    → IsOn memory left (stream (drop n memory) (left - n) err)
advanced n memory left err h = record { used = n; err = err; used-le = h; place = refl }

module _ (n : ℕ) (memory : List ℕ) (left : ℕ) (err : Option Errmsg) (h : n ≤ left)
    (room : left ≤ length memory) where
  -- Reading takes a prefix of the memory.
  pub read_within :
      read n (stream memory left err) ≡ done (take n memory) (stream (drop n memory) (left - n) err)
  read_within =
      let e = length-take n memory (omega arith) in
      rw (e, take-append-drop n memory) at
        (read_fits (take n memory) (drop n memory) left err (rw e h))

  pub skip_within :
      skip n (stream memory left err) ≡ done tt (stream (drop n memory) (left - n) err)
  skip_within =
      let e = length-take n memory (omega arith) in
      rw (e, take-append-drop n memory) at
        (skip_fits (take n memory) (drop n memory) left err (rw e h))

pub read-IsSafe : (bound n : ℕ) → IsSafe bound (read n)
read-IsSafe bound n = record {
  at = λ memory left err room small. elim (Bool-cases (leb n left)) [
    | inl fits ↦
        let h : n ≤ left = ground arith in
        rw (read_within n memory left err h room) (advanced n memory left err h)
    | inr short ↦ rw (read_short n memory left err (ground arith)) (stays memory left _)
  ];
}

pub skip-IsSafe : (bound n : ℕ) → IsSafe bound (skip n)
skip-IsSafe bound n = record {
  at = λ memory left err room small. elim (Bool-cases (leb n left)) [
    | inl fits ↦
        let h : n ≤ left = ground arith in
        rw (skip_within n memory left err h room) (advanced n memory left err h)
    | inr short ↦ rw (skip_short n memory left err (ground arith)) (stays memory left _)
  ];
}

-- A call that reads one byte.
record IsByteReader (r : Call (Istream (List ℕ)) ℕ) : Type 0 where
  ends :
      (memory : List ℕ) (err : Option Errmsg)
      → r (stream memory 0 err) ≡ fail (stream memory 0 (set_error err end_of_stream))
  takes :
      (b : ℕ) (memory : List ℕ) (left : ℕ) (err : Option Errmsg)
      → r (stream (b ∷ memory) (suc left) err) ≡ done b (stream memory left err)

readbyte-IsByteReader : IsByteReader readbyte
readbyte-IsByteReader = record { ends = readbyte_end; takes = readbyte_cons }

-- `pb_read` of one byte
read_one-IsByteReader : IsByteReader (read 1 >>= first_byte)
unfolding first_byte
read_one-IsByteReader = record {
  ends = λ memory err. bind_fail (read 1) first_byte (read_short 1 memory 0 err (omega arith));
  takes = λ b memory left err.
      let e : suc left - 1 ≡ left = omega arith in
      rw e at
        (bind_done (read 1) first_byte (read_fits (b ∷ []) memory (suc left) err (omega arith)));
}

module _ {κ} {A : Type κ} (r : Call (Istream (List ℕ)) ℕ) (reader : IsByteReader r) (bound : ℕ)
    (f : ℕ → Call (Istream (List ℕ)) A) (h : (b : ℕ) → IsSafe bound (f b)) where
  -- A byte that is read lowers the bound for what follows: this is why the loops end.
  byte_reader-IsSafe : IsSafe (suc bound) (r >>= f)
  byte_reader-IsSafe = record { at = go }
    where
      go :
          (memory : List ℕ) (left : ℕ) (err : Option Errmsg)
          → left ≤ length memory
          → left < suc bound
          → Returned memory left ((r >>= f) (stream memory left err))
      go memory zero err room small = rw (bind_fail r f (reader.ends memory err)) (stays memory 0 _)
      go [] (suc left) err room small = absurd (omega arith)
      go (b ∷ memory) (suc left) err room small =
          let e : suc left - 1 ≡ left = omega arith in
          rw (bind_done r f (reader.takes b memory left err)) (
            widen (b ∷ memory) (suc left) 1 (f b (stream memory left err)) (omega arith)
              (rw e ((h b).at memory left err (omega arith) (omega arith))))

module _ {κ} {A : Type κ} (bound : ℕ) (f : ℕ → Call (Istream (List ℕ)) A)
    (h : (b : ℕ) → IsSafe bound (f b)) where
  pub readbyte-IsSafe : IsSafe (suc bound) (readbyte >>= f)
  readbyte-IsSafe = byte_reader-IsSafe readbyte readbyte-IsByteReader bound f h

  pub read_one-IsSafe : IsSafe (suc bound) (read 1 >>= first_byte >>= f)
  read_one-IsSafe = byte_reader-IsSafe (read 1 >>= first_byte) read_one-IsByteReader bound f h

pub lower {κ} :
    {A : Type κ} {m : Call (Istream (List ℕ)) A} {bound : ℕ} → IsSafe (suc bound) m → IsSafe bound m
lower h = record { at = λ memory left err room small. h.at memory left err room (omega arith) }
