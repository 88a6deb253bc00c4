-- ===== src/Tests/Confined.antt =====
-- Fields decoded into a block of sixteen bytes at address 1000.
use bw_watermyplants.Common.{
  ℕ, ◌-◌, ◌*◌, ◌^◌, ◌≤◌, ◌<◌, ◌≡◌, refl, ◌⊎◌, ◌↔◌, List, [], ◌∷◌, none, some, true, arith, ltb, leb,
  ◌&&◌, if◌then◌else◌,
}
use bw_watermyplants.Outcome.{fail, invalid_size, size_too_large}
use bw_watermyplants.Memory.{Memory, load}
use bw_watermyplants.Field.{Field, Ltype, Htype, Atype}
use bw_watermyplants.Parse.Machine.{Machine, error}
use bw_watermyplants.Parse.Values.{allocate_field, reallocate}
use bw_watermyplants.Parse.Allocate.{allocate_field_exact}
use bw_watermyplants.Parse.Required.{has_required}
use bw_watermyplants.Parse.Marks.{marked_all, is_in, has_required_iff}
use bw_watermyplants.Parse.Static.{decoder, decode_static_as}
use bw_watermyplants.Parse.Confined.{Contained, machine}
use bw_watermyplants.Parse.Confined.Stores.{Region, Covers, IsMapped}
use bw_watermyplants.Parse.Confined.Static.{decode_static_field_confined}

abbrev block : Region
block q = leb 1000 q && ltb q 1016

abbrev zeros : Memory
zeros q = if block q then some 0 else none

zeros-IsMapped : IsMapped block zeros
zeros-IsMapped = record { at = λ q h. rw h refl }

-- The count at 1000, and up to three entries of four bytes behind it
abbrev entries : Field ℕ
entries = record {
  tag = 2;
  ltype = Ltype.uvarint;
  htype = Htype.repeated;
  atype = Atype.static;
  data_offset = 4;
  size_offset = 2 ^ 32 - 4;
  data_size = 4;
  array_size = 3;
  ptr = none;
}

data-Covers : Covers block 1004 12
data-Covers = record { at = λ q from to. ground arith }

count-Covers : Covers block 1000 4
count-Covers = record { at = λ q from to. ground arith }

-- A packed array of 1, 300 and 2
decode_static_field_confined_example : Contained block (4 ∷ 1 ∷ 172 ∷ 2 ∷ 2 ∷ []) 5 zeros 1 (
    decode_static_as
      (decoder (λ f p s. fail s) (λ f p s. fail s) (λ m p n. (0, m)) Ltype.uvarint entries)
      entries
      1004
      1000
      (λ p. [])
      1
      Htype.repeated
      2
      (machine (4 ∷ 1 ∷ 172 ∷ 2 ∷ 2 ∷ []) 5 none zeros))
decode_static_field_confined_example =
    decode_static_field_confined block (λ p. []) (λ m p n. (0, m)) 1 (λ f p s. fail s)
      (λ f p s. fail s) entries 1004 1000 2 (4 ∷ 1 ∷ 172 ∷ 2 ∷ 2 ∷ []) 5 none zeros refl refl
      (omega arith) data-Covers count-Covers (omega arith) (omega arith) (omega arith)
      zeros-IsMapped

abbrev before : Machine (List ℕ)
before = machine [] 0 none zeros

-- 2^33 entries of 2^31 bytes, whose product wraps to 0
allocate_field_exact_example :
    ((2 ^ 33 * 2 ^ 31 ≡ 0)
      × (allocate_field (λ m p n. (2000, m)) 1000 (2 ^ 31) (2 ^ 33) before
          ≡ error invalid_size before))
    ⊎ ((2 ^ 64 ≤ 2 ^ 33 * 2 ^ 31)
        × (allocate_field (λ m p n. (2000, m)) 1000 (2 ^ 31) (2 ^ 33) before
            ≡ error size_too_large before))
    ⊎ ((0 < 2 ^ 33 * 2 ^ 31)
        × (2 ^ 33 * 2 ^ 31 < 2 ^ 64)
        × (allocate_field (λ m p n. (2000, m)) 1000 (2 ^ 31) (2 ^ 33) before
            ≡ reallocate (λ m p n. (2000, m)) 1000 (2 ^ 33 * 2 ^ 31) 0 before))
unfolding load
allocate_field_exact_example =
    allocate_field_exact (λ m p n. (2000, m)) 1000 (2 ^ 31) (2 ^ 33) 0 before refl

has_required_iff_example :
    (has_required 3 (marked_all (2 ∷ 0 ∷ 1 ∷ 2 ∷ [])) ≡ true)
    ↔ ((i : ℕ) → i < 3 → i < 64 → is_in i (2 ∷ 0 ∷ 1 ∷ 2 ∷ []) ≡ true)
has_required_iff_example =
    has_required_iff 3 (2 ∷ 0 ∷ 1 ∷ 2 ∷ [])
      (omega arith, (omega arith, (omega arith, (omega arith, tt))))
