-- ===== src/Decode/Safety.antt =====
-- The decoders on any input, well formed or not: every call returns, within its fuel and inside the
-- memory that the stream covers.
use bw_watermyplants.Common.{
  ℕ, zero, suc, ◌+◌, ◌-◌, ◌≤◌, ◌<◌, ◌≡◌, inl, inr, List, [], ◌∷◌, Option, arith, leb, true, false,
  Bool-cases, length, ◌==◌, ◌*◌, u8, bit_and, bit_and,
}
use bw_watermyplants.Outcome.{Call, ◌>>=◌, return, Errmsg, varint_overflow}
use bw_watermyplants.Istream.{Istream, return_error, read, readbyte}
use bw_watermyplants.Istream.Buffers.{stream}
use bw_watermyplants.Istream.Safety.{
  IsSafe, IsSafe-resp, lower, Returned, stays, bind-IsSafe, return-IsSafe, error-IsSafe,
  fail-IsSafe, if-IsSafe, readbyte-IsSafe, read-IsSafe, widen,
}
use bw_watermyplants.Decode.Varint32.{eof_first, eof_end}
use bw_watermyplants.Decode.{
  varint_round, varint_loop, decode_varint, varint32_round, varint32_end, varint32_loop,
  varint32_rest, decode_varint32_eof, no_eof, decode_varint32, split_tag, decode_tag, received,
  at_eof, Received, unzigzag, assemble, decode_svarint, decode_fixed32, decode_fixed64,
}

module _ (bound : ℕ) (more : ℕ → Call (Istream (List ℕ)) ℕ)
    (safe : (result : ℕ) → IsSafe bound (more result)) (bitpos result : ℕ) where
  pub varint_round-IsSafe : (byte : ℕ) → IsSafe bound (varint_round more bitpos result byte)
  unfolding varint_round
  varint_round-IsSafe byte = if-IsSafe bound _ _ _ (return-IsSafe bound _) (safe _)

  varint32_end-IsSafe : (byte : ℕ) → IsSafe bound (varint32_end bitpos byte result)
  unfolding varint32_end
  varint32_end-IsSafe byte =
      if-IsSafe bound _ _ _ (error-IsSafe bound varint_overflow) (return-IsSafe bound result)

module _ (fuel bitpos result : ℕ) (s : Istream (List ℕ)) where
  varint_loop_stops :
      64 ≤ bitpos → varint_loop (suc fuel) bitpos result s ≡ return_error varint_overflow s
  unfolding varint_loop
  varint_loop_stops h = let t : leb 64 bitpos ≡ true = ground arith in rw t

  pub varint_loop_goes_on :
      bitpos < 64
      → varint_loop (suc fuel) bitpos result s
        ≡ (readbyte >>= varint_round (varint_loop fuel (bitpos + 7)) bitpos result) s
  unfolding varint_loop
  varint_loop_goes_on h =
      let t : leb 64 bitpos ≡ false = ground arith in
      let e : u8 (bitpos + 7) ≡ bitpos + 7 = omega arith in rw (t, e)

-- `bitpos` bounds the rounds of `pb_decode_varint`: it grows by seven, and from 64 on nothing is read.
pub varint_loop-IsSafe :
    (fuel bound bitpos result : ℕ)
    → 64 ≤ bitpos + 7 * fuel
    → IsSafe bound (varint_loop (suc fuel) bitpos result)
varint_loop-IsSafe zero bound bitpos result h =
    IsSafe-resp bound _ _ (λ m l e. varint_loop_stops 0 bitpos result (stream m l e) (omega arith))
      (error-IsSafe bound varint_overflow)
varint_loop-IsSafe (suc fuel) bound bitpos result h = elim (Bool-cases (leb 64 bitpos)) [
  | inl stop ↦
      IsSafe-resp bound _ _
        (λ m l e. varint_loop_stops (suc fuel) bitpos result (stream m l e) (ground arith))
        (error-IsSafe bound varint_overflow)
  | inr next ↦
      IsSafe-resp bound _ _
        (λ m l e. varint_loop_goes_on (suc fuel) bitpos result (stream m l e) (ground arith))
        (lower (
          readbyte-IsSafe bound (varint_round (varint_loop (suc fuel) (bitpos + 7)) bitpos result) (
            varint_round-IsSafe bound (varint_loop (suc fuel) (bitpos + 7))
              (λ r. varint_loop-IsSafe fuel bound (bitpos + 7) r (omega arith)) bitpos result)))
]

pub decode_varint-IsSafe : (bound : ℕ) → IsSafe bound decode_varint
unfolding decode_varint
decode_varint-IsSafe bound = varint_loop-IsSafe 10 bound 0 0 (omega arith)

varint32_round-IsSafe :
    (bound : ℕ) (more : ℕ → Call (Istream (List ℕ)) ℕ)
    → ((result : ℕ) → IsSafe bound (more result))
    → (bitpos result byte : ℕ) → IsSafe bound (varint32_round more bitpos result byte)
unfolding varint32_round
varint32_round-IsSafe bound more safe bitpos result byte =
    if-IsSafe bound _ _ _ (error-IsSafe bound varint_overflow)
      (if-IsSafe bound _ _ _ (varint32_end-IsSafe bound more safe _ _ byte) (safe _))

varint32_loop-IsSafe : (fuel bitpos result : ℕ) → IsSafe fuel (varint32_loop fuel bitpos result)
unfolding varint32_loop
varint32_loop-IsSafe zero bitpos result = record {
  at = λ memory left err room small. absurd (omega arith);
}
varint32_loop-IsSafe (suc fuel) bitpos result =
    readbyte-IsSafe fuel (varint32_round (varint32_loop fuel (u8 (bitpos + 7))) bitpos result) (
      varint32_round-IsSafe fuel (varint32_loop fuel (u8 (bitpos + 7)))
        (varint32_loop-IsSafe fuel (u8 (bitpos + 7))) bitpos result)

pub varint32_rest-IsSafe : (bound byte : ℕ) → IsSafe bound (varint32_rest byte)
unfolding varint32_rest
varint32_rest-IsSafe bound byte = record {
  at = λ memory left err room small. elim (Bool-cases (bit_and byte 0x80 == 0)) [
    | inl last ↦ rw last (stays memory left err)
    | inr more ↦ rw more (
        (varint32_loop-IsSafe (left + 1) 7 (bit_and byte 0x7f)).at memory left err room
          (omega arith))
  ];
}

pub decode_varint32_eof-IsSafe : (bound : ℕ) → IsSafe bound decode_varint32_eof
decode_varint32_eof-IsSafe bound = record { at = go }
  where
    go :
        (memory : List ℕ) (left : ℕ) (err : Option Errmsg)
        → left ≤ length memory
        → left < bound
        → Returned memory left (decode_varint32_eof (stream memory left err))
    go memory zero err room small = rw (eof_end memory err) (stays memory 0 _)
    go [] (suc left) err room small = absurd (omega arith)
    go (b ∷ memory) (suc left) err room small =
        let rest : IsSafe (suc left) (varint32_rest b >>= λ result. return (received result)) =
          bind-IsSafe (suc left) (λ result. return (received result))
            (λ result. return-IsSafe (suc left) (received result)) (varint32_rest b)
            (varint32_rest-IsSafe (suc left) b) in
        let e : suc left - 1 ≡ left = omega arith in
        rw (eof_first b memory left err) (
          widen (b ∷ memory) (suc left) 1 _ (omega arith)
            (rw e (rest.at memory left err (omega arith) (omega arith))))

pub no_eof-IsSafe : (bound : ℕ) (r : Received ℕ) → IsSafe bound (no_eof r)
unfolding no_eof
no_eof-IsSafe bound (received a) = return-IsSafe bound a
no_eof-IsSafe bound at_eof = fail-IsSafe bound

pub decode_varint32-IsSafe : (bound : ℕ) → IsSafe bound decode_varint32
unfolding decode_varint32
decode_varint32-IsSafe bound =
    bind-IsSafe bound no_eof (no_eof-IsSafe bound) decode_varint32_eof
      (decode_varint32_eof-IsSafe bound)

pub decode_tag-IsSafe : (bound : ℕ) → IsSafe bound decode_tag
unfolding decode_tag
decode_tag-IsSafe bound =
    bind-IsSafe bound (λ temp. return (split_tag temp))
      (λ temp. return-IsSafe bound (split_tag temp)) decode_varint32_eof
      (decode_varint32_eof-IsSafe bound)

-- A decoder and then a function of its value
module _ {A B : Type 0} (bound : ℕ) (g : A → B) (m : Call (Istream (List ℕ)) A) where
  map-IsSafe : IsSafe bound m → IsSafe bound (m >>= λ a. return (g a))
  map-IsSafe = bind-IsSafe bound (λ a. return (g a)) (λ a. return-IsSafe bound (g a)) m

pub decode_svarint-IsSafe : (bound : ℕ) → IsSafe bound decode_svarint
unfolding decode_svarint
decode_svarint-IsSafe bound = map-IsSafe bound unzigzag decode_varint (decode_varint-IsSafe bound)

pub decode_fixed32-IsSafe : (bound : ℕ) → IsSafe bound decode_fixed32
unfolding decode_fixed32
decode_fixed32-IsSafe bound = map-IsSafe bound (assemble 0 0) (read 4) (read-IsSafe bound 4)

pub decode_fixed64-IsSafe : (bound : ℕ) → IsSafe bound decode_fixed64
unfolding decode_fixed64
decode_fixed64-IsSafe bound = map-IsSafe bound (assemble 0 0) (read 8) (read-IsSafe bound 8)
