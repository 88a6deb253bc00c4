-- ===== src/Parse/Confined/Static.antt =====
-- `decode_static_field` on a field that is no submessage writes in the field and its size only.
use native.Mathlib.Nat.{mul-le-mul_left, mod-eq_of_lt}
use bw_watermyplants.Common.{
  ℕ, zero, suc, ◌+◌, ◌*◌, ◌^◌, ◌%◌, ◌≤◌, ◌<◌, ◌≡◌, inl, inr, List, Option, true, false, ltb, leb,
  ◌==◌, ◌!=◌, ◌&&◌, Bool-cases, arith, length, u32,
}
use bw_watermyplants.Outcome.{Call, ◌>>=◌, ◌>>◌, Errmsg, array_overflow}
use bw_watermyplants.Memory.{Memory}
use bw_watermyplants.Memory.Store.{put, fetch}
use bw_watermyplants.Field.{Field, Htype, is_packable}
use bw_watermyplants.FieldIter.{is_pointer}
use bw_watermyplants.Encode.{wt_string}
use bw_watermyplants.Parse.Default.{is_submessage}
use bw_watermyplants.Parse.Machine.{Machine, on_memory}
use bw_watermyplants.Parse.Static.{
  decoder, item, packed_items, decode_packed, close_packed, decode_entry, start_oneof,
  decode_static_as,
}
use bw_watermyplants.Parse.Confined.{
  Contained, machine, IsConfined, bind-IsConfined, round-IsConfined,
}
use bw_watermyplants.Parse.Confined.Calls.{
  return-IsConfined, if-IsConfined, on_memory-IsConfined, weaken, unmoved,
}
use bw_watermyplants.Parse.Confined.Stores.{Region, Covers, IsMapped, fetch-IsTame}
use bw_watermyplants.Parse.Confined.Values.{branch-IsConfined, error-IsConfined, put-IsConfined}
use bw_watermyplants.Parse.Confined.Closing.{close_packed-IsCloser}
use bw_watermyplants.Parse.Confined.Substream.{substream-IsConfined}
use bw_watermyplants.Parse.Confined.Decoders.{
  is_flat, least_size, no_submessage, decoder-IsConfined,
}

-- An address as an entry of an array, where the array has fewer than 2^32 bytes and does not pass the end
-- of the address space.
pub item-Covers :
    {W : Region} (func : ℕ → Call (Machine (List ℕ)) (Unit {0})) (field : Field ℕ)
    (p_data p_size n : ℕ)
    → Covers W p_data (field.data_size * field.array_size)
    → field.data_size * field.array_size < 2 ^ 32
    → p_data + field.data_size * field.array_size < 2 ^ 64
    → n < field.array_size
    → Covers W (item func field p_data p_size n) field.data_size
item-Covers func field p_data p_size n h narrow room lt =
    let next_place : field.data_size * (n + 1) ≤ field.data_size * field.array_size =
      mul-le-mul_left field.data_size (omega arith) in
    let before : field.data_size * n + field.data_size ≤ field.data_size * field.array_size =
      omega (arith, next_place) in
    let product : (field.data_size * n) % 2 ^ 32 ≡ field.data_size * n =
      mod-eq_of_lt (omega (arith, before)) in
    let kept : (p_data + field.data_size * n) % 2 ^ 64 ≡ p_data + field.data_size * n =
      mod-eq_of_lt (omega (arith, before)) in
    rw (product, kept) (record { at = λ q from to. h.at q (omega arith) (omega (arith, before)) })

module _ {W : Region} (func : ℕ → Call (Machine (List ℕ)) (Unit {0})) (field : Field ℕ)
    (p_data p_size : ℕ)
    (confined : (bound dest : ℕ) → Covers W dest field.data_size → IsConfined W bound 1 (func dest))
    (counter : Covers W p_size 4) (entries : Covers W p_data (field.data_size * field.array_size))
    (narrow : field.data_size * field.array_size < 2 ^ 32)
    (room : p_data + field.data_size * field.array_size < 2 ^ 64) where
  fetch-IsConfined : (bound : ℕ) → IsConfined W bound 0 (on_memory (fetch 4 p_size))
  fetch-IsConfined bound =
      on_memory-IsConfined bound (fetch 4 p_size) (fetch-IsTame 4 p_size counter)

  -- One item, and its count
  counted :
      (bound n : ℕ)
      → n < field.array_size
      → IsConfined W bound 1 (
          func (item func field p_data p_size n)
          >> on_memory (fetch 4 p_size)
          >>= (λ size'. on_memory (put 4 p_size (u32 (size' + 1)))))
  counted bound n lt =
      bind-IsConfined bound 1 0 _ (λ size'. put-IsConfined bound 4 p_size _ counter) _
        (bind-IsConfined bound 1 0 _ (λ _. fetch-IsConfined bound) _
          (confined bound _ (item-Covers func field p_data p_size n entries narrow room lt)))

  packed_items-IsConfined :
      (fuel : ℕ) → IsConfined W fuel 0 (packed_items func field p_data p_size fuel)
  unfolding packed_items
  packed_items-IsConfined zero = record {
    at = λ input left err memory fits small mapped. absurd (omega arith);
  }
  packed_items-IsConfined (suc fuel) =
      bind-IsConfined (suc fuel) 0 0 _
        (λ size. record {
          at = λ input left err memory fits small mapped.
              elim (Bool-cases (left != 0 && ltb size field.array_size)) [
                | inl next ↦ rw next (
                    (weaken (suc fuel) (suc fuel) 1 0 (omega arith) (omega arith) (
                        round-IsConfined fuel 1 0 (λ _. packed_items func field p_data p_size fuel)
                          (λ _. packed_items-IsConfined fuel) _ (suc fuel) (omega arith)
                          (counted (suc fuel) size (ground arith)))).at
                      input left err memory fits small mapped)
                | inr stop ↦ rw stop (unmoved input left err memory)
              ];
        })
        _ (fetch-IsConfined (suc fuel))

  decode_packed-IsConfined :
      (bound : ℕ) → IsConfined W bound 1 (decode_packed func field p_data p_size)
  unfolding decode_packed
  decode_packed-IsConfined bound =
      substream-IsConfined bound
        (λ substream. packed_items func field p_data p_size (substream.bytes_left + 1))
        (close_packed func field p_data p_size) (close_packed-IsCloser func field p_data p_size)
        λ input size err memory fits mapped.
          (packed_items-IsConfined (size + 1)).at input size err memory fits (omega arith) mapped

  decode_entry-IsConfined :
      (bound : ℕ) → IsConfined W bound 1 (decode_entry func field p_data p_size)
  unfolding decode_entry
  decode_entry-IsConfined bound =
      bind-IsConfined bound 0 1 _
        (λ size.
          bind-IsConfined bound 0 1 _
            (λ _.
              branch-IsConfined bound 1 (leb field.array_size size) _ _
                (λ _. error-IsConfined bound 1 array_overflow)
                λ fits.
                  confined bound _
                    (item-Covers func field p_data p_size size entries narrow room (ground arith)))
            _ (put-IsConfined bound 4 p_size _ counter))
        _ (fetch-IsConfined bound)

-- The bytes of the data, and those of the size, the flag or the tag that stands with it
abbrev pub extent : Htype → Field ℕ → ℕ
extent Htype.repeated field = field.data_size * field.array_size
extent _ field = field.data_size

abbrev pub counter_size : Htype → ℕ
counter_size Htype.required = 0
counter_size Htype.optional = 1
counter_size Htype.repeated = 4
counter_size Htype.oneof = 4

module _ {W : Region} (func : ℕ → Call (Machine (List ℕ)) (Unit {0})) (field : Field ℕ)
    (p_data p_size : ℕ)
    (confined : (bound dest : ℕ) → Covers W dest field.data_size → IsConfined W bound 1 (func dest))
    (flat : is_submessage field.ltype ≡ false) (tables : ℕ → List (Field ℕ)) (depth bound : ℕ) where
  pub decode_static_as-IsConfined :
      (htype : Htype) (wire_type : ℕ)
      → Covers W p_data (extent htype field)
      → Covers W p_size (counter_size htype)
      → extent htype field < 2 ^ 32
      → p_data + extent htype field < 2 ^ 64
      → IsConfined W bound 1
          (decode_static_as func field p_data p_size tables depth htype wire_type)
  unfolding decode_static_as start_oneof
  decode_static_as-IsConfined Htype.required wire_type entries counter narrow room =
      confined bound p_data entries
  decode_static_as-IsConfined Htype.optional wire_type entries counter narrow room =
      bind-IsConfined bound 0 1 _ (λ _. confined bound p_data entries) _
        (if-IsConfined bound 0 (p_size != p_data) _ _ (put-IsConfined bound 1 p_size 1 counter)
          (return-IsConfined bound tt))
  decode_static_as-IsConfined Htype.repeated wire_type entries counter narrow room =
      if-IsConfined bound 1 (wire_type == wt_string && is_packable field.ltype) _ _
        (decode_packed-IsConfined func field p_data p_size confined counter entries narrow room
          bound)
        (decode_entry-IsConfined func field p_data p_size confined counter entries narrow room
          bound)
  decode_static_as-IsConfined Htype.oneof wire_type entries counter narrow room = rw flat (
      bind-IsConfined bound 0 1 _ (λ _. confined bound p_data entries) _
        (bind-IsConfined bound 0 0 _ (λ _. put-IsConfined bound 4 p_size field.tag counter) _
          (return-IsConfined bound tt)))

-- Over a buffer stream whose `bytes_left` lie in memory, and a static field whose values have no fields
-- of their own, with a `data_size` of one byte at least for a bool, four for fixed32 and eight for
-- fixed64, that has fewer than 2^32 bytes, with all entries where it is repeated, and does not pass the
-- end of the address space: where all of the field and of the size, flag or tag that stands with it lies
-- in mapped memory of a region, `decode_static_field` returns, true or false, on any input. Nothing
-- outside the region changes, no memory goes away, true is returned only after one byte at least was
-- taken, and the stream still lies in the bytes it had.
pub decode_static_field_confined :
    (W : Region) (tables : ℕ → List (Field ℕ)) (realloc : Memory → ℕ → ℕ → ℕ × Memory) (depth : ℕ)
    (pb_decode pb_decode_noinit : ℕ → ℕ → Call (Machine (List ℕ)) (Unit {0})) (field : Field ℕ)
    (p_data p_size wire_type : ℕ) (input : List ℕ) (left : ℕ) (err : Option Errmsg)
    (memory : Memory)
    → is_flat field.ltype ≡ true
    → is_pointer field.atype ≡ false
    → least_size field.ltype ≤ field.data_size
    → Covers W p_data (extent field.htype field)
    → Covers W p_size (counter_size field.htype)
    → extent field.htype field < 2 ^ 32
    → p_data + extent field.htype field < 2 ^ 64
    → left ≤ length input
    → IsMapped W memory
    → Contained W input left memory 1 (
        decode_static_as
          (decoder pb_decode pb_decode_noinit realloc field.ltype field)
          field
          p_data
          p_size
          tables
          depth
          field.htype
          wire_type
          (machine input left err memory))
decode_static_field_confined W tables realloc depth pb_decode pb_decode_noinit field p_data p_size
      wire_type input left err memory flat static least entries counter narrow room fits mapped =
    (decode_static_as-IsConfined (decoder pb_decode pb_decode_noinit realloc field.ltype field)
        field p_data p_size
        (λ bound dest covers.
          decoder-IsConfined pb_decode pb_decode_noinit realloc bound field.ltype field dest flat
            static least covers)
        (no_submessage field.ltype flat) tables depth (left + 1) field.htype wire_type entries
        counter narrow room).at
      input left err memory fits (omega arith) mapped
