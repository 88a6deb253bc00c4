-- ===== src/Message/Tagged.antt =====
-- What `encode_array` writes for an array whose entries carry a tag each.
use bw_watermyplants.Common.{
  ℕ, zero, suc, ◌+◌, ◌*◌, ◌≤◌, ◌≡◌, refl, List, [], ◌++◌, none, some, arith, length, ◌^◌, ◌<◌, ltb,
  ◌==◌, false, IsU32,
}
use bw_watermyplants.Outcome.{Call, ◌>>◌}
use bw_watermyplants.Memory.{Memory}
use bw_watermyplants.Field.{Field, Ltype, is_packable}
use bw_watermyplants.FieldIter.{is_pointer}
use bw_watermyplants.Ostream.{Buffer, Ostream}
use bw_watermyplants.Ostream.Write.{IsBuffer}
use bw_watermyplants.Encode.{encode_tag, encode_tag_for_field, wire_type_of, wt_string}
use bw_watermyplants.Encode.Varint.{varint_bytes}
use bw_watermyplants.Encode.Values.{encode_tag-Emits}
use bw_watermyplants.Encode.Sizes.{StoresOrFills}
use bw_watermyplants.Message.Values.{encode_entry, encode_tagged, encode_array}
use bw_watermyplants.Message.Arrays.{then_return}
use bw_watermyplants.Message.Writes.{
  Writes, Emits-Writes, Writes-resp, then-Writes, Writes-StoresOrFills,
}

-- No type with wire type 2 is packable.
unpacked : (l : Ltype) → wire_type_of l ≡ some wt_string → is_packable l ≡ false
unfolding wire_type_of is_packable
unpacked Ltype.bool h = ground arith
unpacked Ltype.varint h = ground arith
unpacked Ltype.uvarint h = ground arith
unpacked Ltype.svarint h = ground arith
unpacked Ltype.fixed32 h = ground arith
unpacked Ltype.fixed64 h = ground arith
unpacked Ltype.bytes h = refl
unpacked Ltype.string h = refl
unpacked Ltype.submessage h = refl
unpacked Ltype.extension h = refl
unpacked Ltype.fixed_length_bytes h = refl

module _ {P : Type 0} (memory : Memory) (null : Buffer) (field : Field P)
    (func : ℕ → Call (Ostream Buffer) (Unit {0})) (bytes : ℕ → List ℕ) where
  -- The tag and the bytes of `count` entries
  abbrev pub tagged : ℕ → ℕ → List ℕ
  tagged zero p = []
  tagged (suc zero) p = varint_bytes (field.tag * 8 + 2) ++ bytes p
  tagged (suc (suc count)) p =
      (varint_bytes (field.tag * 8 + 2) ++ bytes p) ++ tagged (suc count) (p + field.data_size)

  -- The encoder writes the bytes of each of `count` entries from `p` on.
  abbrev pub WritesEach : ℕ → ℕ → Type 0
  WritesEach zero p = Unit
  WritesEach (suc count) p = Writes (func p) (bytes p) × WritesEach count (p + field.data_size)

  module _ (kind : wire_type_of field.ltype ≡ some wt_string)
      (in_place : is_pointer field.atype ≡ false) (small : IsU32 field.tag) where
    tag_lem : (s : Ostream Buffer) → encode_tag_for_field field s ≡ encode_tag wt_string field.tag s
    unfolding encode_tag_for_field
    tag_lem s = rw (encode_tag_for_field, kind) refl

    entry_lem : (p : ℕ) (s : Ostream Buffer) → encode_entry memory null field func p s ≡ func p s
    unfolding encode_entry
    entry_lem p s = rw (encode_entry, in_place) refl

    entry-Writes :
        (p : ℕ)
        → Writes (func p) (bytes p)
        → Writes
            (encode_tag_for_field field >> encode_entry memory null field func p)
            (varint_bytes (field.tag * 8 + 2) ++ bytes p)
    entry-Writes p writes =
        then-Writes
          (Writes-resp tag_lem (Emits-Writes (encode_tag-Emits 2 field.tag (omega arith) small)))
          (Writes-resp (entry_lem p) writes)

    encode_tagged-Writes :
        (count p : ℕ)
        → WritesEach (suc count) p
        → Writes (encode_tagged memory null field func (suc count) p) (tagged (suc count) p)
    unfolding encode_tagged
    encode_tagged-Writes zero p (writes, _) =
        Writes-resp
          (λ s. then_return (encode_tag_for_field field >> encode_entry memory null field func p) s)
          (entry-Writes p writes)
    encode_tagged-Writes (suc count) p (writes, others) =
        then-Writes (entry-Writes p writes)
          (encode_tagged-Writes count (p + field.data_size) others)

    each :
        (count p : ℕ)
        → suc count ≤ field.array_size
        → (s : Ostream Buffer)
        → encode_array memory null field func (suc count) p s
          ≡ encode_tagged memory null field func (suc count) p s
    unfolding encode_array
    each count p inside s =
        let fits : ltb field.array_size (suc count) ≡ false = ground arith in
        let some_entry : (suc count == 0) ≡ false = ground arith in
        rw (some_entry, in_place, fits, unpacked field.ltype kind) refl

    -- For a type with wire type 2 that is no pointer, an encoder that writes certain bytes at the address of
    -- each entry, and a buffer stream without an error whose limit leaves no overflow, `encode_array` of one
    -- entry or more, within `array_size`, with a 32-bit tag, stores for each entry in order the tag with wire
    -- type 2 and its bytes, and returns true, whenever all that fits below `max_size`; else it returns false
    -- with "stream full".
    pub encode_tagged_array_stores :
        (count p : ℕ)
        → WritesEach (suc count) p
        → suc count ≤ field.array_size
        → (s : Ostream Buffer) → IsBuffer s
        → s.errmsg ≡ none
        → s.max_size + length (tagged (suc count) p) < 2 ^ 64
        → StoresOrFills (encode_array memory null field func (suc count) p) (tagged (suc count) p) s
    encode_tagged_array_stores count p writes inside s v clean wide =
        Writes-StoresOrFills (encode_array memory null field func (suc count) p)
          (tagged (suc count) p) s
          (Writes-resp (each count p inside) (encode_tagged-Writes count p writes)) v clean wide
