-- ===== src/Parse/Confined/Decoders.antt =====
-- `PB_DECODERS` for a field inside the structure: the decoder writes in the field only, and takes a byte.
use bw_watermyplants.Common.{ℕ, ◌≤◌, ◌≡◌, refl, List, Bool, true, false, arith}
use bw_watermyplants.Outcome.{Call}
use bw_watermyplants.Memory.{Memory}
use bw_watermyplants.Field.{Field, Ltype}
use bw_watermyplants.FieldIter.{is_pointer}
use bw_watermyplants.Parse.Default.{is_submessage}
use bw_watermyplants.Parse.Machine.{Machine}
use bw_watermyplants.Parse.Static.{decoder}
use bw_watermyplants.Parse.Confined.{IsConfined}
use bw_watermyplants.Parse.Confined.Calls.{weaken}
use bw_watermyplants.Parse.Confined.Stores.{Region, Covers}
use bw_watermyplants.Parse.Confined.Values.{
  dec_bool-IsConfined, dec_varint-IsConfined, dec_uvarint-IsConfined, dec_svarint-IsConfined,
  dec_fixed32-IsConfined, dec_fixed64-IsConfined,
}
use bw_watermyplants.Parse.Confined.Bytes.{
  start, dec_bytes-IsConfined, dec_string-IsConfined, dec_fixed_length_bytes-IsConfined,
}

-- A type whose values have no fields of their own, and the bytes that its decoder writes at least.
abbrev pub is_flat : Ltype → Bool
is_flat Ltype.submessage = false
is_flat Ltype.extension = false
is_flat _ = true

pub no_submessage : (ltype : Ltype) → is_flat ltype ≡ true → is_submessage ltype ≡ false
unfolding is_submessage
no_submessage ltype = elim ltype as (λ k. is_flat k ≡ true → is_submessage k ≡ false) [
  | Ltype.bool ↦ λ h. refl
  | Ltype.varint ↦ λ h. refl
  | Ltype.uvarint ↦ λ h. refl
  | Ltype.svarint ↦ λ h. refl
  | Ltype.fixed32 ↦ λ h. refl
  | Ltype.fixed64 ↦ λ h. refl
  | Ltype.bytes ↦ λ h. refl
  | Ltype.string ↦ λ h. refl
  | Ltype.submessage ↦ λ h. absurd (ground arith)
  | Ltype.extension ↦ λ h. refl
  | Ltype.fixed_length_bytes ↦ λ h. refl
]

abbrev pub least_size : Ltype → ℕ
least_size Ltype.bool = 1
least_size Ltype.fixed32 = 4
least_size Ltype.fixed64 = 8
least_size _ = 0

module _ {W : Region} (pb_decode pb_decode_noinit : ℕ → ℕ → Call (Machine (List ℕ)) (Unit {0}))
    (realloc : Memory → ℕ → ℕ → ℕ × Memory) (bound : ℕ) where
  one :
      {m : Call (Machine (List ℕ)) (Unit {0})} (k : ℕ)
      → 1 ≤ k
      → IsConfined W bound k m
      → IsConfined W bound 1 m
  one k le h = weaken bound bound k 1 (omega arith) le h

  pub decoder-IsConfined :
      (ltype : Ltype) (field : Field ℕ) (dest : ℕ)
      → is_flat ltype ≡ true
      → is_pointer field.atype ≡ false
      → least_size ltype ≤ field.data_size
      → Covers W dest field.data_size
      → IsConfined W bound 1 (decoder pb_decode pb_decode_noinit realloc ltype field dest)
  unfolding decoder
  decoder-IsConfined Ltype.bool field dest flat static least h =
      dec_bool-IsConfined bound dest (start 1 least h)
  decoder-IsConfined Ltype.varint field dest flat static least h =
      dec_varint-IsConfined bound field.data_size dest h
  decoder-IsConfined Ltype.uvarint field dest flat static least h =
      dec_uvarint-IsConfined bound field.data_size dest h
  decoder-IsConfined Ltype.svarint field dest flat static least h =
      dec_svarint-IsConfined bound field.data_size dest h
  decoder-IsConfined Ltype.fixed32 field dest flat static least h =
      one 4 (omega arith) (dec_fixed32-IsConfined bound dest (start 4 least h))
  decoder-IsConfined Ltype.fixed64 field dest flat static least h =
      one 8 (omega arith) (dec_fixed64-IsConfined bound dest (start 8 least h))
  decoder-IsConfined Ltype.bytes field dest flat static least h =
      rw static (dec_bytes-IsConfined bound realloc field.data_size dest h)
  decoder-IsConfined Ltype.string field dest flat static least h =
      rw static (dec_string-IsConfined bound realloc field.data_size dest h)
  decoder-IsConfined Ltype.submessage field dest flat static least h = absurd (ground arith)
  decoder-IsConfined Ltype.extension field dest flat static least h = absurd (ground arith)
  decoder-IsConfined Ltype.fixed_length_bytes field dest flat static least h =
      dec_fixed_length_bytes-IsConfined bound field.data_size dest h
