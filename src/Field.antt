-- ===== src/Field.antt =====
-- The field descriptors of nanopb: `pb_field_t` and the macros on its type byte,
-- WaterMyPlants/Pods/nanopb/pb.h. `pb_size_t` has 32 bits, since the pod is built with PB_FIELD_32BIT.
use bw_watermyplants.Common.{ℕ, ◌-◌, ◌^◌, Bool, true, false, Option}

-- `PB_LTYPE_…`, the low four bits of the type
pub data Ltype : Type 0 where
  bool varint uvarint svarint fixed32 fixed64 : Ltype
  bytes string submessage extension fixed_length_bytes : Ltype

-- `PB_HTYPE_…`, the next two
pub data Htype : Type 0 where
  required optional repeated oneof : Htype

-- `PB_ATYPE_…`, the top two; `invalid` is 0xC0, which has no name
pub data Atype : Type 0 where
  static callback pointer invalid : Atype

-- `PB_LTYPE(type) <= PB_LTYPE_LAST_PACKABLE`
unfoldable pub is_packable : Ltype → Bool
is_packable bool = true
is_packable varint = true
is_packable uvarint = true
is_packable svarint = true
is_packable fixed32 = true
is_packable fixed64 = true
is_packable bytes = false
is_packable string = false
is_packable submessage = false
is_packable extension = false
is_packable fixed_length_bytes = false

-- `pb_field_t`. `P` is what `ptr` points to, if it is not NULL. `size_offset` is relative and may be
-- negative in C; here it is the bit pattern of the 32-bit value.
pub record Field (P : Type 0) : Type 0 where
  pub tag : ℕ
  pub ltype : Ltype
  pub htype : Htype
  pub atype : Atype
  pub data_offset : ℕ
  pub size_offset : ℕ
  pub data_size : ℕ
  pub array_size : ℕ
  pub ptr : Option P

-- `PB_SIZE_MAX`
abbrev pub size_max : ℕ
size_max = 2 ^ 32 - 1
