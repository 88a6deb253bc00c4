-- ===== src/Tests/Nested.antt =====
-- A message inside another one, in a structure of eight bytes at address 1000.
use bw_watermyplants.Common.{
  ℕ, zero, suc, ◌-◌, ◌<◌, ◌≡◌, refl, List, [], ◌∷◌, ◌++◌, none, some, arith, get_elem?, length,
  replicate, ltb, ◌==◌, if◌then◌else◌,
}
use bw_watermyplants.Outcome.{Call, done, ◌>>◌}
use bw_watermyplants.Memory.{Memory, load}
use bw_watermyplants.Field.{Field, Ltype, Htype, Atype}
use bw_watermyplants.FieldIter.{prev_size}
use bw_watermyplants.FieldIter
use bw_watermyplants.FieldIter.Walk.{nth, walk}
use bw_watermyplants.Ostream.{Buffer, Ostream, advance, buf_write, sizing}
use bw_watermyplants.Ostream.Write.{IsBuffer}
use bw_watermyplants.Encode.{encode_tag, encode_varint, encode_tag_for_field, wire_type_of}
use bw_watermyplants.Encode.Values.{encode_tag-Emits}
use bw_watermyplants.Encode.Varint.{base128, varint_bytes, encode_varint-Emits}
use bw_watermyplants.Encode.Sizes.{StoresOrFills}
use bw_watermyplants.Message.Submessage.{encode_submessage}
use bw_watermyplants.Message.Values.{
  enc_uvarint, enc_submessage, encoder, load_integer, is_integer_size, need,
}
use bw_watermyplants.Message.Fields.{
  encode, encode_one, encode_by_rule, encode_basic_field, encode_field_as, implicit_has, target,
  get_encoded_size, encode_delimited,
}
use bw_watermyplants.Message.Writes.{Writes, Emits-Writes, Writes-resp, then-Writes}
use bw_watermyplants.Message.Twice.{encode_submessage-Writes}
use bw_watermyplants.Message.Whole.{
  joined, field_call, encode-Writes, encode_stores, encode_delimited_stores,
}

abbrev null : Buffer
null = record { before = []; after = [] }

abbrev stream : Ostream Buffer
stream = record {
  callback = some buf_write;
  state = record { before = []; after = replicate 8 0 };
  max_size = 8;
  bytes_written = 0;
  errmsg = none;
}

stream-IsBuffer : IsBuffer stream
stream-IsBuffer = record {
  writes = refl;
  room = omega arith;
  within = omega arith;
  limit = omega arith;
}

-- 300, and the message that holds 5
abbrev memory : Memory
memory p = if ltb p 1000 then none else get_elem? (44 ∷ 1 ∷ 0 ∷ 0 ∷ 5 ∷ 0 ∷ 0 ∷ 0 ∷ []) (p - 1000)

-- `required uint32 number = 1;`
abbrev number : Field ℕ
number = record {
  tag = 1;
  ltype = Ltype.uvarint;
  htype = Htype.required;
  atype = Atype.static;
  data_offset = 0;
  size_offset = 0;
  data_size = 4;
  array_size = 0;
  ptr = none;
}

-- `required Inner inner = 2;`, with its descriptors at 2000
abbrev inner : Field ℕ
inner = record number { tag = 2; ltype = Ltype.submessage; ptr = some 2000 }

abbrev last : Field ℕ
last = record number { tag = 0; data_size = 0 }

abbrev tables : ℕ → List (Field ℕ)
tables p = if p == 2000 then number ∷ last ∷ [] else number ∷ inner ∷ last ∷ []

abbrev callback : ℕ → Field ℕ → ℕ → Call (Ostream Buffer) (Unit {0})
callback f field p s = done tt s

abbrev extension : ℕ → ℕ → Call (Ostream Buffer) (Unit {0})
extension f p s = done tt s

abbrev inner_bytes : ℕ → List ℕ
inner_bytes k = varint_bytes 8 ++ varint_bytes 5

inner-Writes :
    (k : ℕ)
    → k < 1
    → Writes
        (field_call memory tables null callback extension 0 (number ∷ []) last 1004 k)
        (inner_bytes k)
unfolding nth walk FieldIter.advance prev_size encode_field_as encode_basic_field implicit_has
    target encode_by_rule encode_one encoder encode_tag_for_field wire_type_of enc_uvarint
    load_integer is_integer_size need load
inner-Writes zero lt =
    Writes-resp {k = encode_tag 0 1 >> encode_varint 5} (λ s. refl)
      (then-Writes (Emits-Writes (encode_tag-Emits 0 1 (omega arith) (omega arith)))
        (Emits-Writes (encode_varint-Emits 5 (omega arith))))
inner-Writes (suc k) lt = absurd (omega arith)

abbrev outer_bytes : ℕ → List ℕ
outer_bytes zero = varint_bytes 8 ++ varint_bytes 300
outer_bytes (suc k) = varint_bytes 18 ++ (varint_bytes (length (inner_bytes 0)) ++ inner_bytes 0)

outer-Writes :
    (k : ℕ)
    → k < 2
    → Writes
        (field_call memory tables null callback extension 1 (number ∷ inner ∷ []) last 1000 k)
        (outer_bytes k)
unfolding nth walk FieldIter.advance prev_size encode_field_as encode_basic_field implicit_has
    target encode_by_rule encode_one encoder encode_tag_for_field wire_type_of enc_uvarint
    enc_submessage load_integer is_integer_size need load
outer-Writes zero lt =
    Writes-resp {k = encode_tag 0 1 >> encode_varint 300} (λ s. refl)
      (then-Writes (Emits-Writes (encode_tag-Emits 0 1 (omega arith) (omega arith)))
        (Emits-Writes (encode_varint-Emits 300 (omega arith))))
outer-Writes (suc zero) lt =
    Writes-resp
      {k = encode_tag 2 2
        >> encode_submessage null (encode memory tables null callback extension 1 2000 1004)}
      (λ s. refl)
      (then-Writes (Emits-Writes (encode_tag-Emits 2 2 (omega arith) (omega arith))) (
        encode_submessage-Writes null (encode memory tables null callback extension 1 2000 1004)
          (inner_bytes 0)
          (encode-Writes memory tables null callback extension 0 (number ∷ []) last 1004
            ((λ e. absurd (omega arith)), tt) refl inner_bytes inner-Writes 2000 0 refl refl)))
outer-Writes (suc (suc k)) lt = absurd (omega arith)

encode_stores_example :
    (get_encoded_size memory tables null callback extension 2 3000 1000
      ≡ done 7 (advance 7 (sizing null)))
    × StoresOrFills
        (encode memory tables null callback extension 2 3000 1000)
        (joined outer_bytes 1 0)
        stream
unfolding base128
encode_stores_example =
    encode_stores memory tables null callback extension 1 (number ∷ inner ∷ []) last 1000
      ((λ e. absurd (omega arith)), ((λ e. absurd (omega arith)), tt)) refl outer_bytes outer-Writes
      3000 1 refl refl stream stream-IsBuffer refl (omega arith)

encode_delimited_stores_example :
    StoresOrFills
      (encode_delimited memory tables null callback extension 2 3000 1000)
      (varint_bytes 7 ++ joined outer_bytes 1 0)
      stream
unfolding base128
encode_delimited_stores_example =
    encode_delimited_stores memory tables null callback extension 1 (number ∷ inner ∷ []) last 1000
      ((λ e. absurd (omega arith)), ((λ e. absurd (omega arith)), tt)) refl outer_bytes outer-Writes
      3000 1 refl refl stream stream-IsBuffer refl (omega arith)
