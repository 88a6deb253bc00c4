-- ===== src/Memory.antt =====
-- The memory that the encoder of messages reads and the decoder writes, and what loads give. Integers lie
-- in it with their lowest byte first; a pointer has eight bytes, and NULL is 0.
pub mod Store
pub mod Stored
use bw_watermyplants.Common.{
  ℕ, zero, suc, ◌+◌, ◌-◌, ◌*◌, ◌^◌, List, [], ◌∷◌, Option, none, some, Bool, true, false, ltb, ◌==◌,
  ◌!=◌, if◌then◌else◌,
}

-- The byte at an address, if there is one.
abbrev pub Memory : Type 0
Memory = ℕ → Option ℕ

unfoldable pub load : Memory → ℕ → ℕ → Option ℕ
load memory zero p = some 0
load memory (suc n) p = elim (memory p) [
  | none ↦ none
  | some b ↦ elim (load memory n (p + 1)) [ none ↦ none | some v ↦ some (b + 256 * v) ]
]

-- `n` bytes, fetched before they are written. The code fetches each as it writes it, and none on a stream
-- that only counts, so where one is missing the model may fault earlier.
unfoldable pub bytes_at : Memory → ℕ → ℕ → Option (List ℕ)
bytes_at memory zero p = some []
bytes_at memory (suc n) p = elim (memory p) [
  | none ↦ none
  | some b ↦ elim (bytes_at memory n (p + 1)) [ none ↦ none | some bs ↦ some (b ∷ bs) ]
]

-- The 64-bit pattern of a signed integer of `n` bytes
unfoldable pub sign_extend : ℕ → ℕ → ℕ
sign_extend n v = if ltb v (2 ^ (8 * n - 1)) then v else 2 ^ 64 - 2 ^ (8 * n) + v

-- `safe_read_bool`; a `bool` has one byte.
unfoldable pub safe_read_bool : Memory → ℕ → Option Bool
unfolding load
safe_read_bool memory p = elim (load memory 1 p) [ none ↦ none | some v ↦ some (v != 0) ]

-- `while (size < max_size && *p != '\0')`
unfoldable pub string_length : Memory → ℕ → ℕ → Option ℕ
string_length memory zero p = some 0
string_length memory (suc max_size) p = elim (memory p) [
  | none ↦ none
  | some b ↦ elim (b == 0) [
    | true ↦ some 0
    | false ↦ elim (string_length memory max_size (p + 1)) [ none ↦ none | some n ↦ some (suc n) ]
  ]
]
