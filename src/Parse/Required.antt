-- ===== src/Parse/Required.antt =====
-- The bits of `pb_decode_noinit` for the required fields that were seen: two words of 32 bits.
use bw_watermyplants.Common.{
  ℕ, zero, suc, ◌-◌, ◌/◌, ◌%◌, ◌^◌, Bool, true, false, ltb, ◌==◌, if◌then◌else◌, bit_or,
}

-- `fields_seen`
pub record Seen : Type 0 where
  pub low : ℕ
  pub high : ℕ

abbrev pub max_required_fields : ℕ
max_required_fields = 64

-- `fields_seen[i >> 5] |= 1 << (i & 31)`, for the first 64 required fields
unfoldable pub mark : ℕ → Seen → Seen
mark i seen =
    if ltb i max_required_fields
    then (if i / 32 == 0
        then record seen { low = bit_or seen.low (2 ^ (i % 32)) }
        else record seen { high = bit_or seen.high (2 ^ (i % 32)) })
    else seen

abbrev pub allbits : ℕ
allbits = 2 ^ 32 - 1

-- `fields_seen[i]`, for a word inside the array
abbrev pub word : Seen → ℕ → ℕ
word seen i = if i == 0 then seen.low else seen.high

-- `for (i = 0; i < (req_field_count >> 5); i++)`, counted down
unfoldable pub are_full : ℕ → Seen → Bool
are_full zero seen = true
are_full (suc n) seen = if word seen n == allbits then are_full n seen else false

-- The check of a count of 64 at most
unfoldable pub has_all : ℕ → Seen → Bool
unfolding are_full
has_all count seen =
    if are_full (count / 32) seen
    then (if count % 32 == 0
        then true
        else word seen (count / 32) == allbits / 2 ^ (32 - count % 32))
    else false

unfoldable pub has_required : ℕ → Seen → Bool
unfolding has_all
has_required count seen =
    has_all (if ltb max_required_fields count then max_required_fields else count) seen
