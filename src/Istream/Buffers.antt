-- ===== src/Istream/Buffers.antt =====
-- The reading functions on a stream over a memory buffer.
use bw_watermyplants.Common.{
  ℕ, zero, suc, ◌+◌, ◌-◌, ◌≤◌, ◌<◌, ◌≡◌, refl, ◌∙◌, List, [], ◌∷◌, ◌++◌, Option, true, false, arith,
  ltb, length, append_assoc, append-nil, length-append,
}
use bw_watermyplants.Outcome.{
  done, fail, Call, ◌>>=◌, ◌>>◌, bind_done, bind_fail, return, Errmsg, set_error, end_of_stream,
}
use bw_watermyplants.Istream.{
  Istream, got, copy, buf_read, call_back, read_checked, read, skip, readbyte,
}

-- A stream over a buffer: the memory at its pointer, and how much of it may be read.
abbrev pub stream : List ℕ → ℕ → Option Errmsg → Istream (List ℕ)
stream memory left err = record {
  callback = buf_read;
  is_buf_read = true;
  state = memory;
  bytes_left = left;
  errmsg = err;
}

copy-append :
    (bytes rest buf : List ℕ) → copy (length bytes) (bytes ++ rest) buf ≡ got (buf ++ bytes) rest
unfolding copy
copy-append [] rest buf = rw append-nil
copy-append (b ∷ bs) rest buf = copy-append bs rest (buf ++ b ∷ []) ∙ rw append_assoc

call_back_lem :
    (bytes rest : List ℕ) (left : ℕ) (err : Option Errmsg)
    → call_back (length bytes) (stream (bytes ++ rest) left err)
      ≡ done bytes (stream rest (left - length bytes) err)
unfolding call_back buf_read
call_back_lem bytes rest left err = rw (call_back, copy-append bytes rest [])

pub read_fits :
    (bytes rest : List ℕ) (left : ℕ) (err : Option Errmsg)
    → length bytes ≤ left
    → read (length bytes) (stream (bytes ++ rest) left err)
      ≡ done bytes (stream rest (left - length bytes) err)
unfolding read read_checked
read_fits [] rest left err h = let e : left - 0 ≡ left = omega arith in rw e
read_fits (b ∷ bs) rest left err h =
    let e : ltb left (suc (length bs)) ≡ false = ground arith in
    rw e (call_back_lem (b ∷ bs) rest left err)

pub read_short :
    (n : ℕ) (memory : List ℕ) (left : ℕ) (err : Option Errmsg)
    → left < n
    → read n (stream memory left err) ≡ fail (stream memory left (set_error err end_of_stream))
unfolding read read_checked
read_short zero memory left err h = absurd (omega arith)
read_short (suc n) memory left err h = let e : ltb left (suc n) ≡ true = ground arith in rw e

-- On a buffer skipping is reading, with the bytes thrown away.
skip-read :
    (n : ℕ) (memory : List ℕ) (left : ℕ) (err : Option Errmsg)
    → skip n (stream memory left err) ≡ (read n >> return tt) (stream memory left err)
unfolding skip read
skip-read zero memory left err = refl
skip-read (suc n) memory left err = refl

pub skip_fits :
    (bytes rest : List ℕ) (left : ℕ) (err : Option Errmsg)
    → length bytes ≤ left
    → skip (length bytes) (stream (bytes ++ rest) left err)
      ≡ done tt (stream rest (left - length bytes) err)
skip_fits bytes rest left err h =
    skip-read (length bytes) (bytes ++ rest) left err
    ∙ bind_done (read (length bytes)) (λ _. return tt) (read_fits bytes rest left err h)

pub skip_short :
    (n : ℕ) (memory : List ℕ) (left : ℕ) (err : Option Errmsg)
    → left < n
    → skip n (stream memory left err) ≡ fail (stream memory left (set_error err end_of_stream))
skip_short n memory left err h =
    skip-read n memory left err
    ∙ bind_fail (read n) (λ _. return tt) (read_short n memory left err h)

pub readbyte_cons :
    (b : ℕ) (rest : List ℕ) (left : ℕ) (err : Option Errmsg)
    → readbyte (stream (b ∷ rest) (suc left) err) ≡ done b (stream rest left err)
unfolding readbyte buf_read
readbyte_cons b rest left err = let e : suc left - 1 ≡ left = omega arith in ground (arith, e)

pub readbyte_end :
    (memory : List ℕ) (err : Option Errmsg)
    → readbyte (stream memory 0 err) ≡ fail (stream memory 0 (set_error err end_of_stream))
unfolding readbyte
readbyte_end memory err = refl

-- `m` reads `bytes`, whatever follows them, and gives `a`.
pub record Reads {κ} {A : Type κ} (m : Call (Istream (List ℕ)) A) (bytes : List ℕ) (a : A)
    : Type κ where
  pub at :
      (rest : List ℕ) (left : ℕ) (err : Option Errmsg)
      → length bytes ≤ left
      → m (stream (bytes ++ rest) left err) ≡ done a (stream rest (left - length bytes) err)

pub read-Reads : (bytes : List ℕ) → Reads (read (length bytes)) bytes bytes
read-Reads bytes = record { at = read_fits bytes }

pub skip-Reads : (bytes : List ℕ) → Reads (skip (length bytes)) bytes tt
skip-Reads bytes = record { at = skip_fits bytes }

pub bind-Reads {κ μ} :
    {A : Type κ} {B : Type μ} (m : Call (Istream (List ℕ)) A) (f : A → Call (Istream (List ℕ)) B)
    {first second : List ℕ} {a : A} {b : B}
    → Reads m first a
    → Reads (f a) second b
    → Reads (m >>= f) (first ++ second) b
bind-Reads m f {first} {second} p q = record {
  at = λ rest left err h.
      let fits : length first + length second ≤ left = omega (arith, length-append first second) in
      let e : left - length first - length second ≡ left - length (first ++ second) =
        omega (arith, length-append first second) in
      rw (append_assoc first second rest) (
        bind_done m f (p.at (second ++ rest) left err (omega arith))
        ∙ rw (q.at rest (left - length first) err (omega arith), e));
}

pub return-Reads {κ} : {A : Type κ} (a : A) → Reads {A = A} (λ s. done a s) [] a
return-Reads a = record { at = λ rest left err h. let e : left - 0 ≡ left = omega arith in rw e }
