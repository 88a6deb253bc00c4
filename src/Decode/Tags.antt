-- ===== src/Decode/Tags.antt =====
-- A tag that `pb_decode_tag` gives is below 2^29, so no field is taken for one of an absent extension range.
use bw_watermyplants.Common.{
  ℕ, zero, suc, ◌+◌, ◌*◌, ◌^◌, ◌<◌, inl, inr, List, ◌∷◌, Option, Bool, true, false, leb, ◌==◌, ◌&&◌,
  ◌!=◌, if◌then◌else◌, Bool-cases, arith, bit_and, u8, u32,
}
use bw_watermyplants.Common.Bits.{bit_and-0x7f}
use bw_watermyplants.Common.Bits.Ones.{bit_or-below}
use bw_watermyplants.Outcome.{
  Outcome, done, fail, fault, stuck, Call, ◌>>=◌, return, varint_overflow, Errmsg,
}
use bw_watermyplants.Istream.{Istream, return_error, readbyte}
use bw_watermyplants.Istream.Buffers.{stream}
use bw_watermyplants.Decode.{
  Received, received, at_eof, split_tag, varint32_add, varint32_end, varint32_round, varint32_loop,
  varint32_rest, decode_varint32_eof, decode_tag, is_bad_extension,
}
use bw_watermyplants.Decode.Varint32.{eof_first}

module _ {S A : Type 0} (Q : A → Type 0) where
  -- What a call returned has the property.
  abbrev pub Gives : Outcome (Istream S) A → Type 0
  Gives (done a s) = Q a
  Gives (fail s) = Unit
  Gives fault = Unit
  Gives stuck = Unit

  if-Gives :
      (b : Bool) (m n : Call (Istream S) A) (s : Istream S)
      → Gives (m s)
      → Gives (n s)
      → Gives ((if b then m else n) s)
  if-Gives true m n s hm hn = hm
  if-Gives false m n s hm hn = hn

module _ {S A B : Type 0} (Q : A → Type 0) (R : B → Type 0) where
  bind-Gives :
      (m : Call (Istream S) A) (f : A → Call (Istream S) B) (s : Istream S)
      → Gives Q (m s)
      → ((a : A) (s' : Istream S) → Q a → Gives R (f a s'))
      → Gives R ((m >>= f) s)
  bind-Gives m f s h rest = go (m s) h
    where
      go :
          (o : Outcome (Istream S) A)
          → Gives Q o
          → Gives R (elim o as (λ _. Outcome (Istream S) B) [
            | done a s' ↦ f a s'
            | fail s' ↦ fail s'
            | fault ↦ fault
            | stuck ↦ stuck
          ])
      go (done a s') q = rest a s' q
      go (fail s') q = tt
      go fault q = tt
      go stuck q = tt

anything : {S A : Type 0} (o : Outcome (Istream S) A) → Gives (λ _. Unit {0}) o
anything (done a s) = tt
anything (fail s) = tt
anything fault = tt
anything stuck = tt

-- A value of 32 bits
abbrev IsShort : ℕ → Type 0
IsShort r = r < 2 ^ 32

varint32_add-IsShort :
    (bitpos byte result : ℕ) → IsShort result → IsShort (varint32_add bitpos byte result)
unfolding varint32_add
varint32_add-IsShort bitpos byte result h = elim (Bool-cases (leb 32 bitpos)) [
  | inl past ↦ rw past h
  | inr within ↦
      rw within (bit_or-below 32 result (u32 (bit_and byte 0x7f * 2 ^ bitpos)) h (omega arith))
]

varint32_loop-IsShort :
    {S : Type 0} (fuel bitpos result : ℕ)
    → IsShort result
    → (s : Istream S) → Gives IsShort (varint32_loop fuel bitpos result s)
unfolding varint32_loop varint32_round varint32_end
varint32_loop-IsShort zero bitpos result h s = tt
varint32_loop-IsShort (suc fuel) bitpos result h s =
    bind-Gives (λ _. Unit {0}) IsShort readbyte _ s (anything (readbyte s))
      λ byte s' _.
        if-Gives IsShort (leb 32 bitpos && is_bad_extension bitpos byte result) _ _ s' tt (
          if-Gives IsShort (bit_and byte 0x80 == 0) _ _ s'
            (if-Gives IsShort (u8 (bitpos + 7) == 35 && bit_and byte 0x70 != 0)
              (return_error varint_overflow) (return (varint32_add bitpos byte result)) s' tt
              (varint32_add-IsShort bitpos byte result h))
            (varint32_loop-IsShort fuel (u8 (bitpos + 7)) _
              (varint32_add-IsShort bitpos byte result h) s'))

varint32_rest-IsShort :
    {S : Type 0} (byte : ℕ) → byte < 256 → (s : Istream S) → Gives IsShort (varint32_rest byte s)
unfolding varint32_rest
varint32_rest-IsShort byte h s = elim (Bool-cases (bit_and byte 0x80 == 0)) [
  | inl last ↦ rw last (omega arith)
  | inr more ↦ rw more (
      varint32_loop-IsShort (s.bytes_left + 1) 7 (bit_and byte 0x7f) (rw bit_and-0x7f (omega arith))
        s)
]

abbrev pub IsTag : Received (ℕ × ℕ) → Type 0
IsTag at_eof = Unit
IsTag (received (wire_type, tag)) = tag < 2 ^ 29

abbrev IsShortest : Received ℕ → Type 0
IsShortest at_eof = Unit
IsShortest (received v) = IsShort v

split_tag-IsTag : (r : Received ℕ) → IsShortest r → IsTag (split_tag r)
unfolding split_tag
split_tag-IsTag at_eof h = tt
split_tag-IsTag (received zero) h = tt
split_tag-IsTag (received (suc n)) h = omega arith

pub decode_tag-IsTag :
    (b : ℕ) (rest : List ℕ) (left : ℕ) (err : Option Errmsg)
    → b < 256
    → Gives IsTag (decode_tag (stream (b ∷ rest) (suc left) err))
unfolding decode_tag
decode_tag-IsTag b rest left err h =
    bind-Gives IsShortest IsTag decode_varint32_eof (λ temp. return (split_tag temp))
      (stream (b ∷ rest) (suc left) err)
      (rw (eof_first b rest left err) (
        bind-Gives IsShort IsShortest (varint32_rest b) (λ r. return (received r))
          (stream rest left err) (varint32_rest-IsShort b h (stream rest left err)) (λ r s' q. q)))
      (λ r s' q. split_tag-IsTag r q)
