-- ===== src/Tests/Plain.antt =====
-- A message of two plain fields at address 1000, decoded from any bytes.
use bw_watermyplants.Common.{
  ℕ, zero, suc, ◌-◌, ◌^◌, ◌<◌, refl, [], ◌∷◌, none, some, arith, All, IsByte, ltb, leb, ◌&&◌, ◌||◌,
  if◌then◌else◌,
}
use bw_watermyplants.Outcome.{fail}
use bw_watermyplants.Memory.{Memory}
use bw_watermyplants.Field.{Field, Ltype, Htype, Atype}
use bw_watermyplants.FieldIter.{prev_size}
use bw_watermyplants.FieldIter.Walk.{nth, walk}
use bw_watermyplants.FieldIter.{advance}
use bw_watermyplants.Parse.Messages.{decode_noinit}
use bw_watermyplants.Parse.Confined.{Contained, machine}
use bw_watermyplants.Parse.Confined.Stores.{Region}
use bw_watermyplants.Parse.Confined.Plain.{IsPlain}
use bw_watermyplants.Parse.Confined.Noinit.{decode_noinit_confined}

-- The structure of sixteen bytes, and the four of the local counter
abbrev places : Region
places q = (leb 1000 q && ltb q 1016) || (leb 2000 q && ltb q 2004)

abbrev sevens : Memory
sevens q = if places q then some 7 else none

-- `required uint32 first = 1; repeated uint32 rest = 2 [max_count = 2];`
abbrev scalar : Field ℕ
scalar = record {
  tag = 1;
  ltype = Ltype.uvarint;
  htype = Htype.required;
  atype = Atype.static;
  data_offset = 0;
  size_offset = 0;
  data_size = 4;
  array_size = 0;
  ptr = none;
}

abbrev array : Field ℕ
array = record scalar {
  tag = 2;
  htype = Htype.repeated;
  data_offset = 4;
  size_offset = 2 ^ 32 - 4;
  array_size = 2;
}

abbrev last : Field ℕ
last = record scalar { tag = 0; data_size = 0 }

fields-IsPlain :
    (k : ℕ)
    → k < 2
    → IsPlain places (nth (scalar ∷ array ∷ []) last k) (walk (scalar ∷ array ∷ []) last 1000 k)
unfolding nth walk advance prev_size
fields-IsPlain zero lt = record {
  static = refl;
  flat = refl;
  no_union = refl;
  has_counter = refl;
  least = omega arith;
  entries = record { at = λ q from to. ground arith };
  counter = record { at = λ q from to. ground arith };
  narrow = omega arith;
  room = omega arith;
}
fields-IsPlain (suc zero) lt = record {
  static = refl;
  flat = refl;
  no_union = refl;
  has_counter = refl;
  least = omega arith;
  entries = record { at = λ q from to. ground arith };
  counter = record { at = λ q from to. ground arith };
  narrow = omega arith;
  room = omega arith;
}
fields-IsPlain (suc (suc k)) lt = absurd (omega arith)

input-IsBytes : All IsByte (8 ∷ 172 ∷ 2 ∷ 18 ∷ 2 ∷ 5 ∷ 6 ∷ [])
input-IsBytes = (
  omega arith,
  (omega arith, (omega arith, (omega arith, (omega arith, (omega arith, (omega arith, tt)))))),
)

-- 300, then the two entries 5 and 6 packed
decode_noinit_confined_example : Contained places (8 ∷ 172 ∷ 2 ∷ 18 ∷ 2 ∷ 5 ∷ 6 ∷ []) 7 sevens 0 (
    decode_noinit
      (λ p. scalar ∷ array ∷ last ∷ [])
      (λ m p n. (0, m))
      (λ m p. m)
      0
      (λ T f field arg s. fail s)
      (λ T f ext tag wt s. fail s)
      (λ d. 2000)
      1
      0
      1000
      (machine (8 ∷ 172 ∷ 2 ∷ 18 ∷ 2 ∷ 5 ∷ 6 ∷ []) 7 none sevens))
decode_noinit_confined_example =
    decode_noinit_confined (λ p. scalar ∷ array ∷ last ∷ []) (λ m p n. (0, m)) (λ m p. m) 0
      (λ T f field arg s. fail s) (λ T f ext tag wt s. fail s) (λ d. 2000) 0 places
      (scalar ∷ array ∷ []) last 0 1000 (8 ∷ 172 ∷ 2 ∷ 18 ∷ 2 ∷ 5 ∷ 6 ∷ []) 7 none sevens
      ((λ e. absurd (ground arith)), ((λ e. absurd (ground arith)), tt)) refl refl fields-IsPlain
      (omega arith) (record { at = λ q from to. ground arith }) (omega arith) input-IsBytes
      (record { at = λ q h. rw h refl })
