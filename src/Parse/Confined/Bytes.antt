-- ===== src/Parse/Confined/Bytes.antt =====
-- The decoders of bytes and strings inside the structure write in the field only.
use bw_watermyplants.Common.{
  ℕ, ◌+◌, ◌-◌, ◌≤◌, ◌<◌, ◌≡◌, refl, inl, inr, List, Option, true, false, ltb, leb, ◌==◌, Bool-cases,
  arith, length, length-take, take, drop, u32,
}
use bw_watermyplants.Outcome.{
  Outcome, done, fail, fault, stuck, ◌>>◌, Errmsg, bytes_overflow, string_overflow, size_too_large,
  incorrect_fixed_length, end_of_stream, bind_done, bind_fail, set_error,
}
use bw_watermyplants.Memory.{Memory}
use bw_watermyplants.Memory.Store.{put_bytes, put_byte, clear}
use bw_watermyplants.Istream.{read}
use bw_watermyplants.Istream.Buffers.{read_short}
use bw_watermyplants.Istream.Safety.{read_within, stays}
use bw_watermyplants.Decode.{decode_varint32}
use bw_watermyplants.Decode.Safety.{decode_varint32-IsSafe}
use bw_watermyplants.Decode.Takes.{decode_varint32-Takes}
use bw_watermyplants.Field.{size_max}
use bw_watermyplants.Parse.Machine.{Machine, on_input, on_memory, read_into}
use bw_watermyplants.Parse.Steps.{on_input-done, on_input-fail}
use bw_watermyplants.Parse.Values.{
  dec_fixed_length_bytes, dec_bytes, dec_string, fixed_length_bytes_of, store_bytes, store_string,
  bytes_of, string_of,
}
use bw_watermyplants.Parse.Confined.{
  Stopped, fails_here, Contained, machine, IsConfined, bind-IsConfined, resumed,
}
use bw_watermyplants.Parse.Confined.Calls.{if-IsConfined, on_memory-IsConfined}
use bw_watermyplants.Parse.Confined.Stores.{
  Region, Covers, IsMapped, Kept, Kept-refl, Kept-trans, Kept-IsMapped, Tamed, put_byte-IsTame,
  put_bytes-IsTame, clear-IsTame,
}
use bw_watermyplants.Parse.Confined.Values.{
  value-IsConfined, branch-IsConfined, error-IsConfined, put-IsConfined,
}

-- A part of what is covered
part :
    {W : Region} {p n : ℕ} (offset m : ℕ) → offset + m ≤ n → Covers W p n → Covers W (p + offset) m
part offset m le h = record { at = λ q from to. h.at q (omega arith) (omega arith) }

pub start : {W : Region} {p n : ℕ} (m : ℕ) → m ≤ n → Covers W p n → Covers W p m
start m le h = record { at = λ q from to. h.at q (omega arith) (omega arith) }

module _ {W : Region} (bound : ℕ) where
  -- What was read goes to where there is room for it.
  pub read_into-IsConfined :
      (n dest : ℕ) → Covers W dest n → IsConfined W bound 0 (read_into n dest)
  unfolding read_into
  read_into-IsConfined n dest h = record { at = go }
    where
      go :
          (input : List ℕ) (left : ℕ) (err : Option Errmsg) (memory : Memory)
          → left ≤ length input
          → left < bound
          → IsMapped W memory
          → Contained W input left memory 0 (read_into n dest (machine input left err memory))
      go input left err memory room small mapped = elim (Bool-cases (leb n left)) [
        | inl fits ↦
            let reads =
              bind_done (on_input (read n)) (λ bytes. on_memory (put_bytes bytes dest))
                (on_input-done (machine input left err memory) (read n)
                  (read_within n input left err (ground arith) room)) in
            let covers : Covers W dest (length (take n input)) =
              rw (length-take n input (ground arith)) h in
            let stores =
              on_memory-IsConfined bound (put_bytes (take n input) dest)
                (put_bytes-IsTame (take n input) dest covers) in
            rw reads (
              resumed bound 0 0 (λ _. on_memory (put_bytes (take n input) dest))
                (λ (_ : Unit {0}). stores) input left memory tt
                (machine (drop n input) (left - n) err memory) room small mapped
                (record {
                  on = record { used = n; err = err; used-le = ground arith; place = refl };
                  at_least = omega arith;
                  kept = Kept-refl memory;
                }))
        | inr short ↦
            rw
              (bind_fail (on_input (read n)) (λ bytes. on_memory (put_bytes bytes dest))
                (on_input-fail (machine input left err memory) (read n)
                  (read_short n input left err (ground arith))))
              (fails_here input left memory
                (machine input left (set_error err end_of_stream) memory) (stays input left _)
                (Kept-refl memory))
      ]

  fixed_length-IsConfined :
      (n dest size : ℕ) → Covers W dest n → IsConfined W bound 0 (fixed_length_bytes_of n dest size)
  unfolding fixed_length_bytes_of
  fixed_length-IsConfined n dest size h =
      if-IsConfined bound 0 (ltb size_max size) _ _ (error-IsConfined bound 0 bytes_overflow) (
        if-IsConfined bound 0 (size == 0) _ _
          (on_memory-IsConfined bound (clear n dest) (clear-IsTame n dest h))
          (if-IsConfined bound 0 (size == n) _ _ (read_into-IsConfined n dest h)
            (error-IsConfined bound 0 incorrect_fixed_length)))

  pub dec_fixed_length_bytes-IsConfined :
      (n dest : ℕ) → Covers W dest n → IsConfined W bound 1 (dec_fixed_length_bytes n dest)
  unfolding dec_fixed_length_bytes
  dec_fixed_length_bytes-IsConfined n dest h =
      value-IsConfined bound 1 decode_varint32 _ (decode_varint32-IsSafe bound)
        decode_varint32-Takes (λ size. fixed_length-IsConfined n dest size h)

  store_bytes-IsConfined :
      (size dest : ℕ) → Covers W dest (size + 4) → IsConfined W bound 0 (store_bytes size dest)
  unfolding store_bytes
  store_bytes-IsConfined size dest h =
      bind-IsConfined bound 0 0 _
        (λ _. read_into-IsConfined size (dest + 4) (part 4 size (omega arith) h)) _
        (put-IsConfined bound 4 dest size (start 4 (omega arith) h))

  -- A store behind a call that failed
  stopped_store :
      (input : List ℕ) (left : ℕ) (first : Memory) (p v : ℕ) (s : Machine (List ℕ))
      → IsMapped W first
      → W p ≡ true
      → Stopped W input left first s
      → Contained {A = Unit {0}} W input left first 0
          ((on_memory (put_byte p v) >> λ s'. fail s') s)
  unfolding on_memory
  stopped_store input left first p v s mapped covered q =
      go (put_byte p v s.memory)
        ((put_byte-IsTame p v covered).at s.memory (Kept-IsMapped q.kept mapped))
    where
      after :
          (m : Memory) → Kept W s.memory m → Stopped W input left first (record s { memory = m })
      after m k = record {
        used = q.used;
        remains = q.remains;
        err = q.err;
        fits = q.fits;
        place = q.place;
        kept = Kept-trans q.kept k;
      }

      go :
          (o : Outcome Memory (Unit {0}))
          → Tamed W s.memory o
          → Contained {A = Unit {0}} W input left first 0
              (elim (elim o as (λ _. Outcome (Machine (List ℕ)) (Unit {0})) [
                | done a m ↦ done a (record s { memory = m })
                | fail m ↦ fail (record s { memory = m })
                | fault ↦ fault
                | stuck ↦ stuck
              ])
                as (λ _. Outcome (Machine (List ℕ)) (Unit {0})) [
                  | done a s' ↦ fail s'
                  | fail s' ↦ fail s'
                  | fault ↦ fault
                  | stuck ↦ stuck
                ])
      go (done a m) k = after m k
      go (fail m) k = after m k
      go fault k = k
      go stuck k = k

  store_string-IsConfined :
      (size dest : ℕ) → Covers W dest (size + 1) → IsConfined W bound 0 (store_string size dest)
  unfolding store_string
  store_string-IsConfined size dest h = record {
    at = λ input left err memory room small mapped.
        go input left memory room small mapped (read_into size dest (machine input left err memory))
          ((read_into-IsConfined size dest (start size (omega arith) h)).at input left err memory
            room small mapped);
  }
    where
      last : W (dest + size) ≡ true
      last = h.at (dest + size) (omega arith) (omega arith)

      go :
          (input : List ℕ) (left : ℕ) (first : Memory)
          → left ≤ length input
          → left < bound
          → IsMapped W first
          → (o : Outcome (Machine (List ℕ)) (Unit {0})) → Contained W input left first 0 o
          → Contained W input left first 0 (elim o as (λ _. Outcome (Machine (List ℕ)) (Unit {0})) [
            | done _ s' ↦ on_memory (put_byte (dest + size) 0) s'
            | fail s' ↦ (on_memory (put_byte (dest + size) 0) >> λ s''. fail s'') s'
            | fault ↦ fault
            | stuck ↦ stuck
          ])
      go input left first room small mapped (done a s) p =
          resumed bound 0 0 (λ _. on_memory (put_byte (dest + size) 0))
            (λ (_ : Unit {0}).
              on_memory-IsConfined bound (put_byte (dest + size) 0)
                (put_byte-IsTame (dest + size) 0 last))
            input left first tt s room small mapped p
      go input left first room small mapped (fail s) p =
          stopped_store input left first (dest + size) 0 s mapped last p
      go input left first room small mapped fault p = p
      go input left first room small mapped stuck p = p

  module _ (realloc : Memory → ℕ → ℕ → ℕ × Memory) where
    bytes_of-IsConfined :
        (n dest size : ℕ)
        → Covers W dest n
        → IsConfined W bound 0 (bytes_of realloc false n dest size)
    unfolding bytes_of
    bytes_of-IsConfined n dest size h =
        if-IsConfined bound 0 (ltb size_max size) _ _ (error-IsConfined bound 0 bytes_overflow) (
          branch-IsConfined bound 0 (ltb n (size + 4)) _ _
            (λ _. error-IsConfined bound 0 bytes_overflow)
            λ fits. store_bytes-IsConfined size dest (start (size + 4) (ground arith) h))

    pub dec_bytes-IsConfined :
        (n dest : ℕ) → Covers W dest n → IsConfined W bound 1 (dec_bytes realloc false n dest)
    unfolding dec_bytes
    dec_bytes-IsConfined n dest h =
        value-IsConfined bound 1 decode_varint32 _ (decode_varint32-IsSafe bound)
          decode_varint32-Takes (λ size. bytes_of-IsConfined n dest size h)

    string_of-IsConfined :
        (n dest size : ℕ)
        → Covers W dest n
        → IsConfined W bound 0 (string_of realloc false n dest size)
    unfolding string_of
    string_of-IsConfined n dest size h =
        branch-IsConfined bound 0 (ltb (u32 (size + 1)) size) _ _
          (λ _. error-IsConfined bound 0 size_too_large)
          λ no_wrap.
            branch-IsConfined bound 0 (ltb n (u32 (size + 1))) _ _
              (λ _. error-IsConfined bound 0 string_overflow)
              λ fits. store_string-IsConfined size dest (start (size + 1) (ground arith) h)

    pub dec_string-IsConfined :
        (n dest : ℕ) → Covers W dest n → IsConfined W bound 1 (dec_string realloc false n dest)
    unfolding dec_string
    dec_string-IsConfined n dest h =
        value-IsConfined bound 1 decode_varint32 _ (decode_varint32-IsSafe bound)
          decode_varint32-Takes (λ size. string_of-IsConfined n dest size h)
