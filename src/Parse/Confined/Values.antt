-- ===== src/Parse/Confined/Values.antt =====
-- The `pb_dec_…` functions of fields inside the structure write in the field only.
use bw_watermyplants.Common.{
  ℕ, ◌+◌, ◌-◌, ◌≤◌, ◌≡◌, refl, List, Bool, true, false, if◌then◌else◌, arith,
}
use bw_watermyplants.Outcome.{
  Outcome, done, fail, fault, stuck, Call, ◌>>=◌, ◌>>◌, Errmsg, invalid_data_size,
  integer_too_large,
}
use bw_watermyplants.Memory.{Memory}
use bw_watermyplants.Memory.Store.{put}
use bw_watermyplants.Istream.{Istream, return_error}
use bw_watermyplants.Istream.Buffers.{stream}
use bw_watermyplants.Istream.Safety.{Returned, IsSafe, error-IsSafe}
use bw_watermyplants.Decode.{
  decode_varint, decode_varint32, decode_svarint, decode_fixed32, decode_fixed64,
}
use bw_watermyplants.Decode.Safety.{
  decode_varint-IsSafe, decode_varint32-IsSafe, decode_svarint-IsSafe, decode_fixed32-IsSafe,
  decode_fixed64-IsSafe,
}
use bw_watermyplants.Decode.Takes.{
  Takes, Shorter, decode_varint-Takes, decode_varint32-Takes, decode_svarint-Takes,
  decode_fixed32-Takes, decode_fixed64-Takes,
}
use bw_watermyplants.Message.Values.{is_integer_size}
use bw_watermyplants.Parse.Machine.{Machine, on_input, on_memory, error}
use bw_watermyplants.Parse.Values.{
  dec_bool, dec_varint, dec_uvarint, dec_svarint, dec_fixed32, dec_fixed64, store_signed,
  store_unsigned,
}
use bw_watermyplants.Parse.Confined.{fails_here, Contained, IsConfined, bind-IsConfined}
use bw_watermyplants.Parse.Confined.Calls.{
  return-IsConfined, if-IsConfined, on_memory-IsConfined, weaken,
}
use bw_watermyplants.Parse.Confined.Stores.{Region, Covers, Kept-refl, put-IsTame}

module _ {W : Region} where
  pub on_input-took :
      {A : Type 0} (bound k : ℕ) (m : Call (Istream (List ℕ)) A)
      → IsSafe bound m
      → Takes k m
      → IsConfined W bound k (on_input m)
  unfolding on_input
  on_input-took {A = A} bound k m h takes = record {
    at = λ input left err memory room small mapped.
        go input left memory (m (stream input left err)) (h.at input left err room small)
          (takes.at input left err room);
  }
    where
      go :
          (input : List ℕ) (left : ℕ) (memory : Memory) (o : Outcome (Istream (List ℕ)) A)
          → Returned input left o
          → Shorter k left o
          → Contained W input left memory k (elim o as (λ _. Outcome (Machine (List ℕ)) A) [
            | done a input' ↦ done a (record { input = input'; memory = memory })
            | fail input' ↦ fail (record { input = input'; memory = memory })
            | fault ↦ fault
            | stuck ↦ stuck
          ])
      go input left memory (done a s) p short = record {
        on = p;
        at_least =
            let e : left - p.used + k ≤ left = rw p.place at short in omega (arith, p.used-le);
        kept = Kept-refl memory;
      }
      go input left memory (fail s) p short =
          fails_here input left memory (record { input = s; memory = memory }) p (Kept-refl memory)
      go input left memory fault p short = p
      go input left memory stuck p short = p

  pub error-IsConfined :
      {A : Type 0} (bound k : ℕ) (msg : Errmsg) → IsConfined {A = A} W bound k (error msg)
  error-IsConfined bound k msg =
      on_input-took bound k (return_error msg) (error-IsSafe bound msg)
        (record { at = λ memory left err room. tt })

  -- Each branch under its condition
  pub branch-IsConfined :
      {A : Type 0} (bound k : ℕ) (b : Bool) (m n : Call (Machine (List ℕ)) A)
      → (b ≡ true → IsConfined W bound k m)
      → (b ≡ false → IsConfined W bound k n)
      → IsConfined W bound k (if b then m else n)
  branch-IsConfined bound k true m n hm hn = hm refl
  branch-IsConfined bound k false m n hm hn = hn refl

  module _ (bound : ℕ) where
    -- A value from the stream, and then a call that may take nothing
    pub value-IsConfined :
        {A : Type 0} (k : ℕ) (m : Call (Istream (List ℕ)) A)
        (f : A → Call (Machine (List ℕ)) (Unit {0}))
        → IsSafe bound m
        → Takes k m
        → ((a : A) → IsConfined W bound 0 (f a))
        → IsConfined W bound k (on_input m >>= f)
    value-IsConfined k m f safe takes rest =
        weaken bound bound (k + 0) k (omega arith) (omega arith)
          (bind-IsConfined bound k 0 f rest (on_input m) (on_input-took bound k m safe takes))

    pub put-IsConfined : (n p v : ℕ) → Covers W p n → IsConfined W bound 0 (on_memory (put n p v))
    put-IsConfined n p v h = on_memory-IsConfined bound (put n p v) (put-IsTame n p v h)

    pub dec_bool-IsConfined : (dest : ℕ) → Covers W dest 1 → IsConfined W bound 1 (dec_bool dest)
    unfolding dec_bool
    dec_bool-IsConfined dest h =
        value-IsConfined 1 decode_varint32 _ (decode_varint32-IsSafe bound) decode_varint32-Takes
          (λ value. put-IsConfined 1 dest _ h)

    -- The store of a value, and the check behind it
    checked :
        (n p v : ℕ) (ok : Bool)
        → Covers W p n
        → IsConfined W bound 0
            (on_memory (put n p v) >> (if ok then (λ s. done tt s) else error integer_too_large))
    checked n p v ok h =
        bind-IsConfined bound 0 0 _
          (λ _.
            if-IsConfined bound 0 ok _ _ (return-IsConfined bound tt)
              (error-IsConfined bound 0 integer_too_large))
          _ (put-IsConfined n p v h)

    store_signed-IsConfined :
        (n dest value : ℕ) → Covers W dest n → IsConfined W bound 0 (store_signed n dest value)
    unfolding store_signed
    store_signed-IsConfined n dest value h =
        if-IsConfined bound 0 (is_integer_size n) _ _ (checked n dest _ _ h)
          (error-IsConfined bound 0 invalid_data_size)

    store_unsigned-IsConfined :
        (n dest value : ℕ) → Covers W dest n → IsConfined W bound 0 (store_unsigned n dest value)
    unfolding store_unsigned
    store_unsigned-IsConfined n dest value h =
        if-IsConfined bound 0 (is_integer_size n) _ _ (checked n dest _ _ h)
          (error-IsConfined bound 0 invalid_data_size)

    pub dec_varint-IsConfined :
        (n dest : ℕ) → Covers W dest n → IsConfined W bound 1 (dec_varint n dest)
    unfolding dec_varint
    dec_varint-IsConfined n dest h =
        value-IsConfined 1 decode_varint _ (decode_varint-IsSafe bound) decode_varint-Takes
          (λ value. store_signed-IsConfined n dest _ h)

    pub dec_uvarint-IsConfined :
        (n dest : ℕ) → Covers W dest n → IsConfined W bound 1 (dec_uvarint n dest)
    unfolding dec_uvarint
    dec_uvarint-IsConfined n dest h =
        value-IsConfined 1 decode_varint _ (decode_varint-IsSafe bound) decode_varint-Takes
          (λ value. store_unsigned-IsConfined n dest _ h)

    pub dec_svarint-IsConfined :
        (n dest : ℕ) → Covers W dest n → IsConfined W bound 1 (dec_svarint n dest)
    unfolding dec_svarint
    dec_svarint-IsConfined n dest h =
        value-IsConfined 1 decode_svarint _ (decode_svarint-IsSafe bound) decode_svarint-Takes
          (λ value. store_signed-IsConfined n dest _ h)

    pub dec_fixed32-IsConfined :
        (dest : ℕ) → Covers W dest 4 → IsConfined W bound 4 (dec_fixed32 dest)
    unfolding dec_fixed32
    dec_fixed32-IsConfined dest h =
        value-IsConfined 4 decode_fixed32 _ (decode_fixed32-IsSafe bound) decode_fixed32-Takes
          (λ value. put-IsConfined 4 dest _ h)

    pub dec_fixed64-IsConfined :
        (dest : ℕ) → Covers W dest 8 → IsConfined W bound 8 (dec_fixed64 dest)
    unfolding dec_fixed64
    dec_fixed64-IsConfined dest h =
        value-IsConfined 8 decode_fixed64 _ (decode_fixed64-IsSafe bound) decode_fixed64-Takes
          (λ value. put-IsConfined 8 dest _ h)
