-- ===== src/Parse/Confined/Plain.antt =====
-- The messages that the theorem on `pb_decode_noinit` is about, and what a round of it leaves.
use bw_watermyplants.Common.{
  ℕ, ◌+◌, ◌^◌, ◌≤◌, ◌<◌, ◌≡◌, List, none, true, false, ◌==◌, ◌&&◌, length,
}
use bw_watermyplants.Field.{Field, Atype}
use bw_watermyplants.FieldIter.{Iter, is_oneof, is_repeated}
use bw_watermyplants.FieldIter.Walk.{walk}
use bw_watermyplants.Parse.Messages.{Progress}
use bw_watermyplants.Parse.Confined.Stores.{Region, Covers}
use bw_watermyplants.Parse.Confined.Decoders.{is_flat, least_size}
use bw_watermyplants.Parse.Confined.Static.{extent, counter_size}

-- A field of the kind that is meant, of fewer than 2^32 bytes, whose data and counter lie in the region.
pub record IsPlain (W : Region) (field : Field ℕ) (iter : Iter ℕ) : Type 0 where
  pub static : field.atype ≡ Atype.static
  pub flat : is_flat field.ltype ≡ true
  pub no_union : is_oneof field.htype ≡ false
  pub has_counter : (is_repeated field.htype && iter.p_size == iter.p_data) ≡ false
  pub least : least_size field.ltype ≤ field.data_size
  pub entries : Covers W iter.p_data (extent field.htype field)
  pub counter : Covers W iter.p_size (counter_size field.htype)
  pub narrow : extent field.htype field < 2 ^ 32
  pub room : iter.p_data + extent field.htype field < 2 ^ 64

-- The iterator is one of the round, and no field without a counter is open.
abbrev pub IsGood : List (Field ℕ) → Field ℕ → ℕ → Progress → Type 0
IsGood fields end dest_struct p =
    (k : ℕ) × (k < length fields)
    × (p.iter ≡ walk fields end dest_struct k)
    × (p.fixed_count_field ≡ none)
