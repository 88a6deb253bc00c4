-- ===== src/Decode/Takes.antt =====
-- What the decoders of values take from a buffer stream at least, where they return true.
use bw_watermyplants.Common.{
  ℕ, zero, suc, ◌+◌, ◌≤◌, ◌<◌, inl, inr, List, [], ◌∷◌, Option, leb, Bool-cases, arith, length,
}
use bw_watermyplants.Outcome.{
  Outcome, done, fail, fault, stuck, Call, ◌>>=◌, return, bind_done, bind_fail, Errmsg,
}
use bw_watermyplants.Istream.{Istream, read, readbyte}
use bw_watermyplants.Istream.Buffers.{stream, readbyte_cons, readbyte_end, read_short}
use bw_watermyplants.Istream.Safety.{Returned, IsSafe, IsOn, read_within}
use bw_watermyplants.Decode.Varint32.{eof_first, eof_end}
use bw_watermyplants.Decode.Safety.{
  varint_loop_goes_on, varint_round-IsSafe, varint_loop-IsSafe, varint32_rest-IsSafe,
}
use bw_watermyplants.Decode.{
  Received, received, at_eof, unzigzag, split_tag, assemble, varint_round, varint_loop,
  varint32_rest, no_eof, decode_varint, decode_varint32_eof, decode_varint32, decode_svarint,
  decode_fixed32, decode_fixed64, decode_tag,
}

-- Where the call returned true, the stream has `k` bytes fewer at least.
abbrev pub Shorter : {A : Type 0} → ℕ → ℕ → Outcome (Istream (List ℕ)) A → Type 0
Shorter k left (done a s) = s.bytes_left + k ≤ left
Shorter k left (fail s) = Unit
Shorter k left fault = Unit
Shorter k left stuck = Unit

pub record Takes {A : Type 0} (k : ℕ) (m : Call (Istream (List ℕ)) A) : Type 0 where
  pub at :
      (memory : List ℕ) (left : ℕ) (err : Option Errmsg)
      → left ≤ length memory
      → Shorter k left (m (stream memory left err))

left_on :
    (memory : List ℕ) (left : ℕ) (s : Istream (List ℕ)) → IsOn memory left s → s.bytes_left ≤ left
left_on memory left s p = rw p.place (omega arith)

module _ {A : Type 0} where
  -- What returned from one byte less
  pub Returned-Shorter :
      (memory : List ℕ) (left : ℕ) (o : Outcome (Istream (List ℕ)) A)
      → Returned memory left o
      → Shorter 1 (suc left) o
  Returned-Shorter memory left (done a s) p = omega (arith, left_on memory left s p)
  Returned-Shorter memory left (fail s) p = tt
  Returned-Shorter memory left fault p = tt
  Returned-Shorter memory left stuck p = tt

  Shorter_map :
      {B : Type 0} (k left : ℕ) (g : A → B) (o : Outcome (Istream (List ℕ)) A)
      → Shorter k left o
      → Shorter k left (elim o as (λ _. Outcome (Istream (List ℕ)) B) [
        | done a s' ↦ done (g a) s'
        | fail s' ↦ fail s'
        | fault ↦ fault
        | stuck ↦ stuck
      ])
  Shorter_map k left g (done a s) p = p
  Shorter_map k left g (fail s) p = p
  Shorter_map k left g fault p = p
  Shorter_map k left g stuck p = p

  -- A call and then a function of its result
  pub map-Takes :
      {B : Type 0} (k : ℕ) (g : A → B) (m : Call (Istream (List ℕ)) A)
      → Takes k m
      → Takes k (m >>= λ a. return (g a))
  map-Takes k g m h = record {
    at = λ memory left err room.
        Shorter_map k left g (m (stream memory left err)) (h.at memory left err room);
  }

  pub readbyte-Takes :
      (f : ℕ → Call (Istream (List ℕ)) A)
      → ((bound b : ℕ) → IsSafe bound (f b))
      → Takes 1 (readbyte >>= f)
  readbyte-Takes f h = record { at = go }
    where
      go :
          (memory : List ℕ) (left : ℕ) (err : Option Errmsg)
          → left ≤ length memory
          → Shorter 1 left ((readbyte >>= f) (stream memory left err))
      go memory zero err room = rw (bind_fail readbyte f (readbyte_end memory err)) tt
      go [] (suc left) err room = absurd (omega arith)
      go (b ∷ memory) (suc left) err room =
          rw (bind_done readbyte f (readbyte_cons b memory left err)) (
            Returned-Shorter memory left (f b (stream memory left err))
              ((h (suc left) b).at memory left err (omega arith) (omega arith)))

pub decode_varint-Takes : Takes 1 decode_varint
unfolding decode_varint
decode_varint-Takes = record {
  at = λ memory left err room.
      rw (varint_loop_goes_on 10 0 0 (stream memory left err) (omega arith)) (
        (readbyte-Takes (varint_round (varint_loop 10 7) 0 0) (λ bound.
            varint_round-IsSafe bound (varint_loop 10 7)
              (λ r. varint_loop-IsSafe 9 bound 7 r (omega arith)) 0 0)).at
          memory left err room);
}

pub read-Takes : (n : ℕ) → Takes n (read n)
read-Takes n = record {
  at = λ memory left err room. elim (Bool-cases (leb n left)) [
    | inl fits ↦ rw (read_within n memory left err (ground arith) room) (ground arith)
    | inr short ↦ rw (read_short n memory left err (ground arith)) tt
  ];
}

pub decode_svarint-Takes : Takes 1 decode_svarint
unfolding decode_svarint
decode_svarint-Takes = map-Takes 1 unzigzag decode_varint decode_varint-Takes

pub decode_fixed32-Takes : Takes 4 decode_fixed32
unfolding decode_fixed32
decode_fixed32-Takes = map-Takes 4 (assemble 0 0) (read 4) (read-Takes 4)

pub decode_fixed64-Takes : Takes 8 decode_fixed64
unfolding decode_fixed64
decode_fixed64-Takes = map-Takes 8 (assemble 0 0) (read 8) (read-Takes 8)

-- With a byte to read, the end of the stream is not reported.
varint32_first :
    (b : ℕ) (memory : List ℕ) (left : ℕ) (err : Option Errmsg)
    → left ≤ length memory
    → Shorter 1 (suc left) (decode_varint32_eof (stream (b ∷ memory) (suc left) err))
varint32_first b memory left err room =
    let rest = (varint32_rest-IsSafe (suc left) b).at memory left err room (omega arith) in
    rw (eof_first b memory left err) (
      Shorter_map 1 (suc left) received (varint32_rest b (stream memory left err))
        (Returned-Shorter memory left _ rest))

pub decode_tag_takes :
    (memory : List ℕ) (left : ℕ) (err : Option Errmsg)
    → left ≤ length memory
    → 0 < left
    → Shorter 1 left (decode_tag (stream memory left err))
unfolding decode_tag
decode_tag_takes memory zero err room more = absurd (omega arith)
decode_tag_takes [] (suc left) err room more = absurd (omega arith)
decode_tag_takes (b ∷ memory) (suc left) err room more =
    Shorter_map 1 (suc left) split_tag (decode_varint32_eof (stream (b ∷ memory) (suc left) err))
      (varint32_first b memory left err (omega arith))

no_eof_takes :
    (left : ℕ) (o : Outcome (Istream (List ℕ)) (Received ℕ))
    → Shorter 1 left o
    → Shorter 1 left (elim o as (λ _. Outcome (Istream (List ℕ)) ℕ) [
      | done a s' ↦ no_eof a s'
      | fail s' ↦ fail s'
      | fault ↦ fault
      | stuck ↦ stuck
    ])
unfolding no_eof
no_eof_takes left (done (received a) s) p = p
no_eof_takes left (done at_eof s) p = tt
no_eof_takes left (fail s) p = p
no_eof_takes left fault p = p
no_eof_takes left stuck p = p

pub decode_varint32-Takes : Takes 1 decode_varint32
unfolding decode_varint32 no_eof
decode_varint32-Takes = record { at = go }
  where
    go :
        (memory : List ℕ) (left : ℕ) (err : Option Errmsg)
        → left ≤ length memory
        → Shorter 1 left (decode_varint32 (stream memory left err))
    go memory zero err room = rw (bind_done decode_varint32_eof no_eof (eof_end memory err)) tt
    go [] (suc left) err room = absurd (omega arith)
    go (b ∷ memory) (suc left) err room =
        no_eof_takes (suc left) (decode_varint32_eof (stream (b ∷ memory) (suc left) err))
          (varint32_first b memory left err (omega arith))
