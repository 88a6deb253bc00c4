-- ===== src/Tests/Tables.antt =====
-- A table of two fields.
use bw_watermyplants.Common.{
  ℕ, ◌+◌, ◌<◌, ◌≡◌, ◌⊎◌, refl, List, [], ◌∷◌, none, some, true, false, arith, length, ltb,
  if◌then◌else◌,
}
use bw_watermyplants.Field.{Field, Ltype, Htype, Atype}
use bw_watermyplants.FieldIter.{is_wanted, next, find}
use bw_watermyplants.FieldIter.Walk.{nth, walk, count_required, next_goes_round, walk_counts}
use bw_watermyplants.FieldIter.Find.{find_searches}

-- A static singular field of four bytes, four bytes behind the one before
abbrev field : ℕ → Htype → Field ℕ
field tag htype = record {
  tag = tag;
  ltype = Ltype.uvarint;
  htype = htype;
  atype = Atype.static;
  data_offset = 4;
  size_offset = 0;
  data_size = 4;
  array_size = 0;
  ptr = none;
}

abbrev two_fields : List (Field ℕ)
two_fields = field 1 Htype.required ∷ field 7 Htype.optional ∷ []

abbrev last_field : Field ℕ
last_field = field 0 Htype.required

next_goes_round_example : next (walk two_fields last_field 1000 1) ≡ (
    if ltb (1 + 1) (length two_fields)
    then some (true, walk two_fields last_field 1000 2)
    else some (false, walk two_fields last_field 1000 0))
next_goes_round_example =
    next_goes_round two_fields last_field 1000 1
      (λ h. absurd (omega arith), (λ h. absurd (omega arith), tt)) refl (omega arith)

find_searches_example :
    ((q : ℕ) × (q < length two_fields)
      × (is_wanted 7 (nth two_fields last_field q) ≡ true)
      × (find (length two_fields) 7 (walk two_fields last_field 1000 0)
          ≡ some (true, walk two_fields last_field 1000 q)))
    ⊎ (((q : ℕ) → q < length two_fields → is_wanted 7 (nth two_fields last_field q) ≡ false)
        × (find (length two_fields) 7 (walk two_fields last_field 1000 0)
            ≡ some (false, walk two_fields last_field 1000 0)))
find_searches_example =
    find_searches two_fields last_field (λ h. absurd (omega arith), (λ h. absurd (omega arith), tt))
      refl 1000 7 0 (omega arith)

walk_counts_example :
    (walk two_fields last_field 1000 1).required_field_index ≡ count_required two_fields 1
walk_counts_example = walk_counts two_fields last_field 1000 1 (omega arith)
