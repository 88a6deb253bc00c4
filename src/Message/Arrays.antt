-- ===== src/Message/Arrays.antt =====
-- What `encode_array` writes for an array that is packed.
use bw_watermyplants.Common.{
  ℕ, zero, suc, ◌+◌, ◌*◌, ◌≤◌, ◌≡◌, refl, sym, ap, ◌∙◌, List, [], ◌++◌, none, some, arith, length,
  ltb, ◌==◌, true, false, if◌then◌else◌, u64, IsU32, IsU64,
}
use mathlib.Core.Path.{subst}
use bw_watermyplants.Outcome.{Outcome, done, fail, fault, stuck, Call, ◌>>=◌, ◌>>◌, return}
use bw_watermyplants.Memory.{Memory}
use bw_watermyplants.Field.{Field, Ltype, is_packable}
use bw_watermyplants.FieldIter.{is_pointer}
use bw_watermyplants.Ostream.{Buffer, Ostream, Callback, advance, sizing, write, write_some}
use bw_watermyplants.Ostream.Write.{IsBuffer}
use bw_watermyplants.Ostream.Emits.{Emits, Filled, then-Emits}
use bw_watermyplants.Encode.{encode_varint, encode_tag, wt_string}
use bw_watermyplants.Encode.Varint.{varint_bytes, encode_varint-Emits, Emits-resp}
use bw_watermyplants.Encode.Values.{encode_tag-Emits}
use bw_watermyplants.Encode.Sizes.{StoresOrFills, Emits-StoresOrFills}
use bw_watermyplants.Message.Values.{encode_packed, packed_size, encode_packed_sized, encode_array}

-- What `>>=` makes of an outcome
abbrev resume :
    {A B : Type 0}
    → (A → Call (Ostream Buffer) B)
    → Outcome (Ostream Buffer) A
    → Outcome (Ostream Buffer) B
resume f o = elim o [ done a s ↦ f a s | fail s ↦ fail s | fault ↦ fault | stuck ↦ stuck ]

resume-return : (o : Outcome (Ostream Buffer) (Unit {0})) → resume (λ _. return tt) o ≡ o
resume-return (done a s) = refl
resume-return (fail s) = refl
resume-return fault = refl
resume-return stuck = refl

pub then_return :
    (m : Call (Ostream Buffer) (Unit {0})) (s : Ostream Buffer) → (m >> return tt) s ≡ m s
then_return m s = resume-return (m s)

pub write-none :
    (size : ℕ) (s : Ostream Buffer) → s.callback ≡ none → write [] size s ≡ done tt (advance size s)
unfolding write write_some
write-none zero s h = refl
write-none (suc n) s h = rw h

-- A call `q` that only gives a value
module _ {A : Type 0} (q : Call (Ostream Buffer) A) (a : A)
    (pure : (s : Ostream Buffer) → q s ≡ done a s) (f : A → Call (Ostream Buffer) (Unit {0})) where
  resume-pure :
      (o : Outcome (Ostream Buffer) (Unit {0})) → resume f (resume (λ _. q) o) ≡ resume (λ _. f a) o
  resume-pure (done b s) = ap (resume f) (pure s)
  resume-pure (fail s) = refl
  resume-pure fault = refl
  resume-pure stuck = refl

  then_pure :
      (m : Call (Ostream Buffer) (Unit {0})) (s : Ostream Buffer) → (m >> q >>= f) s ≡ (m >> f a) s
  then_pure m s = resume-pure (m s)

module _ {P : Type 0} (memory : Memory) (null : Buffer) (field : Field P)
    (func : ℕ → Call (Ostream Buffer) (Unit {0})) (bytes : ℕ → List ℕ) where
  -- The bytes of `count` entries
  abbrev pub entries : ℕ → ℕ → List ℕ
  entries zero p = []
  entries (suc zero) p = bytes p
  entries (suc (suc count)) p = bytes p ++ entries (suc count) (p + field.data_size)

  -- The encoder writes the bytes of each of `count` entries from `p` on, whatever the stream.
  abbrev pub EmitsEach : ℕ → ℕ → Type 0
  EmitsEach zero p = Unit
  EmitsEach (suc count) p = Emits (func p) (bytes p) × EmitsEach count (p + field.data_size)

  encode_packed-Emits :
      (count p : ℕ)
      → EmitsEach (suc count) p
      → Emits (encode_packed memory null field func (suc count) p) (entries (suc count) p)
  unfolding encode_packed
  encode_packed-Emits zero p (emits, _) = Emits-resp (λ s. then_return (func p) s) emits
  encode_packed-Emits (suc count) p (emits, others) =
      then-Emits emits (encode_packed-Emits count (p + field.data_size) others)

  sized_some :
      (count p size : ℕ) (s : Ostream Buffer) {f : Callback Buffer}
      → s.callback ≡ some f
      → encode_packed_sized memory null field func count p size s
        ≡ encode_packed memory null field func count p s
  unfolding encode_packed_sized
  sized_some count p size s h =
      rw (encode_packed_sized, h)
        (λ i. encode_packed memory null field func count p (record s { callback = h i }))

  sized_none :
      (count p size : ℕ) (s : Ostream Buffer)
      → s.callback ≡ none
      → encode_packed_sized memory null field func count p size s ≡ done tt (advance size s)
  unfolding encode_packed_sized
  sized_none count p size s h =
      rw (encode_packed_sized, h)
        (write-none size s h ∙ λ i. done tt (advance size (record s { callback = h i })))

  module _ (count p : ℕ) where
    abbrev total : List ℕ
    total = entries (suc count) p

    -- The entries of a fixed type have its length.
    abbrev pub IsSized : Ltype → Type 0
    IsSized Ltype.fixed32 = length total ≡ 4 * suc count
    IsSized Ltype.fixed64 = length total ≡ 8 * suc count
    IsSized _ = Unit

    module _ (emits : EmitsEach (suc count) p) where
      encode_packed_sized-Emits :
          Emits (encode_packed_sized memory null field func (suc count) p (length total)) total
      encode_packed_sized-Emits =
          let run = encode_packed-Emits count p emits in
          record {
            fits = λ s v h. sized_some (suc count) p (length total) s v.writes ∙ run.fits s v h;
            full = λ s v h.
                subst (Filled s) (sym (sized_some (suc count) p (length total) s v.writes))
                  (run.full s v h);
            counts = λ s h. sized_none (suc count) p (length total) s h;
          }

      counted :
          IsU64 (length total)
          → (u64 (0 + length total) ≡ length total)
            × (encode_packed memory null field func (suc count) p (sizing null)
                ≡ done tt (advance (length total) (sizing null)))
      counted short = (omega arith, (encode_packed-Emits count p emits).counts (sizing null) refl)

      packed_size_lem :
          (l : Ltype)
          → field.ltype ≡ l
          → is_packable l ≡ true
          → IsSized l
          → IsU64 (length total)
          → (s : Ostream Buffer)
          → packed_size memory null field func (suc count) p s ≡ done (length total) s
      unfolding packed_size is_packable
      packed_size_lem Ltype.fixed32 kind packs sized short s =
          let product : u64 (4 * suc count) ≡ length total = omega (arith, sized, short) in
          rw (packed_size, kind, product)
      packed_size_lem Ltype.fixed64 kind packs sized short s =
          let product : u64 (8 * suc count) ≡ length total = omega (arith, sized, short) in
          rw (packed_size, kind, product)
      packed_size_lem Ltype.bool kind packs sized short s =
          let (sum, run) = counted short in rw (packed_size, kind, run, sum)
      packed_size_lem Ltype.varint kind packs sized short s =
          let (sum, run) = counted short in rw (packed_size, kind, run, sum)
      packed_size_lem Ltype.uvarint kind packs sized short s =
          let (sum, run) = counted short in rw (packed_size, kind, run, sum)
      packed_size_lem Ltype.svarint kind packs sized short s =
          let (sum, run) = counted short in rw (packed_size, kind, run, sum)
      packed_size_lem Ltype.bytes kind packs sized short s = cc
      packed_size_lem Ltype.string kind packs sized short s = cc
      packed_size_lem Ltype.submessage kind packs sized short s = cc
      packed_size_lem Ltype.extension kind packs sized short s = cc
      packed_size_lem Ltype.fixed_length_bytes kind packs sized short s = cc

      packed :
          is_packable field.ltype ≡ true
          → IsSized field.ltype
          → suc count ≤ field.array_size
          → IsU64 (length total)
          → (s : Ostream Buffer)
          → encode_array memory null field func (suc count) p s
            ≡ (encode_tag wt_string field.tag
                  >> (encode_varint (length total)
                      >> encode_packed_sized memory null field func (suc count) p (length total)))
                s
      unfolding encode_array
      packed packs sized inside short s =
          let fits : ltb field.array_size (suc count) ≡ false = ground arith in
          let bound : (if is_pointer field.atype then false else false) ≡ false = ground arith in
          let entry : (suc count == 0) ≡ false = ground arith in
          rw (entry, fits, bound, packs)
            (then_pure (packed_size memory null field func (suc count) p) (length total)
              (packed_size_lem field.ltype refl packs sized short)
              (λ size.
                encode_varint size >> encode_packed_sized memory null field func (suc count) p size)
              (encode_tag wt_string field.tag) s)

      -- For a packable type, an encoder that writes the same bytes at the address of each entry
      -- whatever the stream, four or eight of them where the type is fixed, and a buffer stream,
      -- `encode_array` of one entry or more, within `array_size`, with a 32-bit tag and a total size of
      -- 64 bits, stores the tag with wire type 2, the number of bytes of all entries as a varint, and
      -- the bytes of each entry in order, and returns true, whenever that fits below `max_size`; else
      -- it returns false with "stream full".
      pub encode_array_stores :
          is_packable field.ltype ≡ true
          → IsSized field.ltype
          → suc count ≤ field.array_size
          → IsU32 field.tag
          → IsU64 (length total)
          → (s : Ostream Buffer) → IsBuffer s
          → StoresOrFills
              (encode_array memory null field func (suc count) p)
              (varint_bytes (field.tag * 8 + 2) ++ (varint_bytes (length total) ++ total))
              s
      encode_array_stores packs sized inside small short s v =
          Emits-StoresOrFills (encode_array memory null field func (suc count) p)
            (varint_bytes (field.tag * 8 + 2) ++ (varint_bytes (length total) ++ total)) s
            (Emits-resp (packed packs sized inside short) (
              then-Emits (encode_tag-Emits 2 field.tag (omega arith) small)
                (then-Emits (encode_varint-Emits (length total) short) encode_packed_sized-Emits)))
            v
