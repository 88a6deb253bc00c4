-- ===== src/Tests/Parsed.antt =====
-- Messages decoded into a structure of sixteen bytes at address 1000.
use bw_watermyplants.Common.{
  ℕ, ◌-◌, ◌^◌, ◌≡◌, refl, List, [], ◌∷◌, Option, none, some, length, get_elem?, replicate, ltb,
  if◌then◌else◌,
}
use bw_watermyplants.Outcome.{Outcome, done, fail, Errmsg, missing_required_field}
use bw_watermyplants.Memory.{Memory, load}
use bw_watermyplants.Istream.{readbyte, buf_read, skip}
use bw_watermyplants.FieldIter.{find_loop, next}
use bw_watermyplants.Decode.{
  decode_varint32_eof, varint32_rest, decode_varint, varint_loop, varint_round,
  make_string_substream, decode_varint32, close_string_substream, decode_tag,
}
use bw_watermyplants.Message.Values.{is_integer_size}
use bw_watermyplants.Parse.Default.{field_set_to_default, is_submessage}
use bw_watermyplants.Parse.Values.{dec_uvarint}
use bw_watermyplants.Parse.Required.{has_required}
use bw_watermyplants.Field.{is_packable, Field, Ltype, Htype, Atype}
use bw_watermyplants.Istream.Buffers.{stream}
use bw_watermyplants.Parse.Machine.{Machine}
use bw_watermyplants.Parse.Messages.{decode, decode_both, count_required_fields}

abbrev blank : List ℕ
blank = replicate 16 7

-- The structure, and a slot of four bytes at 2000
abbrev memory : Memory
memory p =
    if ltb p 1000
    then none
    else if ltb p 2000
    then get_elem? blank (p - 1000)
    else if ltb p 2004
    then some 0
    else none

-- `required uint32 first = 1; repeated uint32 rest = 2 [max_count = 2];`, the count in front of the array
abbrev first_field : Field ℕ
first_field = record {
  tag = 1;
  ltype = Ltype.uvarint;
  htype = Htype.required;
  atype = Atype.static;
  data_offset = 0;
  size_offset = 0;
  data_size = 4;
  array_size = 0;
  ptr = none;
}

abbrev second_field : Field ℕ
second_field = record first_field {
  tag = 2;
  htype = Htype.repeated;
  data_offset = 4;
  size_offset = 2 ^ 32 - 4;
  array_size = 2;
}

abbrev terminator : Field ℕ
terminator = record first_field { tag = 0; data_size = 0 }

abbrev table : ℕ → List (Field ℕ)
table p = first_field ∷ second_field ∷ terminator ∷ []

abbrev run : List ℕ → Outcome (Machine (List ℕ)) (Unit {0})
run bytes =
    decode table (λ m p n. (0, m)) (λ m p. m) 0 (λ T f field arg s. fail s)
      (λ T f ext tag wt s. fail s) (λ d. 2000) 1 0 1000
      (record { input = stream bytes (length bytes) none; memory = memory })

-- The words of the structure, or the message of the failure
data Result : Type 0 where
  words : Option ℕ → Option ℕ → Option ℕ → Option ℕ → Result
  message : Option Errmsg → Result
  other : Result

abbrev result : Outcome (Machine (List ℕ)) (Unit {0}) → Result
result (done _ s) =
    words (load s.memory 4 1000) (load s.memory 4 1004) (load s.memory 4 1008)
      (load s.memory 4 1012)
result (fail s) = message s.input.errmsg
result _ = other

-- 300, and the two entries 5 and 6 packed
run_both :
    result (run (8 ∷ 172 ∷ 2 ∷ 18 ∷ 2 ∷ 5 ∷ 6 ∷ [])) ≡ words (some 300) (some 2) (some 5) (some 6)
unfolding decode_both field_set_to_default is_submessage decode_varint32_eof readbyte buf_read
    varint32_rest find_loop dec_uvarint decode_varint varint_loop varint_round is_packable
    make_string_substream decode_varint32 load close_string_substream skip decode_tag has_required
    count_required_fields next is_integer_size
run_both = refl

run_missing : result (run (18 ∷ 2 ∷ 5 ∷ 6 ∷ [])) ≡ message (some missing_required_field)
unfolding decode_both field_set_to_default is_submessage decode_varint32_eof readbyte buf_read
    varint32_rest find_loop dec_uvarint decode_varint varint_loop varint_round is_packable
    make_string_substream decode_varint32 load close_string_substream skip decode_tag has_required
    count_required_fields next is_integer_size
run_missing = refl
