-- ===== src/Tests/Streams.antt =====
-- Runs on small buffers.
use bw_watermyplants.Common.{
  ℕ, ◌+◌, ◌*◌, ◌≡◌, refl, List, [], ◌∷◌, ◌++◌, none, some, arith, length, replicate, take,
}
use bw_watermyplants.Outcome.{done, fail, varint_overflow}
use bw_watermyplants.Ostream.{Buffer, Ostream, buf_write, advance, sizing}
use bw_watermyplants.Ostream.Write.{IsBuffer}
use bw_watermyplants.Istream.Buffers.{stream}
use bw_watermyplants.Istream.Safety.{Returned}
use bw_watermyplants.Encode.{
  encode_varint, encode_svarint, encode_fixed32, encode_fixed64, encode_tag, encode_string,
}
use bw_watermyplants.Encode.Varint.{varint_bytes}
use bw_watermyplants.Encode.Sizes.{
  StoresOrFills, encode_varint_stores, encode_tag_stores, encode_string_stores,
  encode_string_counts,
}
use bw_watermyplants.Decode.{
  received, decode_varint, decode_varint32, decode_svarint, decode_fixed32, decode_fixed64,
  decode_tag, skip_string, skip_field,
}
use bw_watermyplants.Decode.Total.{
  decode_varint_returns, decode_varint32_returns, decode_tag_returns, skip_field_returns,
}
use bw_watermyplants.Decode.Overlong.{decode_varint32_comes_round, decode_varint_overflows}
use bw_watermyplants.RoundTrip.{
  RoundTrips, decode_varint-encode_varint, decode_varint32-encode_varint,
  decode_svarint-encode_svarint, decode_fixed32-encode_fixed32, decode_fixed64-encode_fixed64,
  decode_tag-encode_tag, skip_string-encode_string,
}

abbrev zeros : List ℕ
zeros = replicate 16 0

decode_varint-encode_varint_example : RoundTrips (encode_varint 300) decode_varint 300 zeros 12
decode_varint-encode_varint_example =
    decode_varint-encode_varint zeros 12 (omega arith) (omega arith) 300 (omega arith) (omega arith)

decode_varint32-encode_varint_example : RoundTrips (encode_varint 300) decode_varint32 300 zeros 12
decode_varint32-encode_varint_example =
    decode_varint32-encode_varint zeros 12 (omega arith) (omega arith) 300 (omega arith)
      (omega arith)

-- The bit pattern of -1
abbrev minus_one : ℕ
minus_one = 18446744073709551615

decode_svarint-encode_svarint_example :
    RoundTrips (encode_svarint minus_one) decode_svarint minus_one zeros 12
decode_svarint-encode_svarint_example =
    decode_svarint-encode_svarint zeros 12 (omega arith) (omega arith) minus_one (omega arith)
      (omega arith)

decode_fixed32-encode_fixed32_example :
    RoundTrips (encode_fixed32 305419896) decode_fixed32 305419896 zeros 4
decode_fixed32-encode_fixed32_example =
    decode_fixed32-encode_fixed32 zeros 4 (omega arith) (omega arith) 305419896 (omega arith)
      (omega arith)

decode_fixed64-encode_fixed64_example :
    RoundTrips (encode_fixed64 minus_one) decode_fixed64 minus_one zeros 8
decode_fixed64-encode_fixed64_example =
    decode_fixed64-encode_fixed64 zeros 8 (omega arith) (omega arith) minus_one (omega arith)
      (omega arith)

decode_tag-encode_tag_example :
    RoundTrips (encode_tag 2 150) decode_tag (received (2, 150)) zeros 12
decode_tag-encode_tag_example =
    decode_tag-encode_tag zeros 12 (omega arith) (omega arith) 2 150 (omega arith) (omega arith)
      (omega arith) (omega arith)

abbrev word : List ℕ
word = 112 ∷ 108 ∷ 97 ∷ 110 ∷ 116 ∷ []

skip_string-encode_string_example : RoundTrips (encode_string word 5) skip_string tt zeros 16
skip_string-encode_string_example =
    skip_string-encode_string zeros 16 (omega arith) (omega arith) word (omega arith) (omega arith)

-- A stream over sixteen bytes of memory, limited to three
abbrev short_stream : Ostream Buffer
short_stream = record {
  callback = some buf_write;
  state = record { before = []; after = zeros };
  max_size = 3;
  bytes_written = 0;
  errmsg = none;
}

short_stream-IsBuffer : IsBuffer short_stream
short_stream-IsBuffer = record {
  writes = refl;
  room = omega arith;
  within = omega arith;
  limit = omega arith;
}

encode_varint_stores_example : StoresOrFills (encode_varint 300) (varint_bytes 300) short_stream
encode_varint_stores_example =
    encode_varint_stores short_stream short_stream-IsBuffer 300 (omega arith)

encode_tag_stores_example :
    StoresOrFills (encode_tag 2 150) (varint_bytes (150 * 8 + 2)) short_stream
encode_tag_stores_example =
    encode_tag_stores short_stream short_stream-IsBuffer 2 150 (omega arith) (omega arith)

encode_string_stores_example :
    StoresOrFills (encode_string word 5) (varint_bytes 5 ++ take 5 word) short_stream
encode_string_stores_example =
    encode_string_stores short_stream short_stream-IsBuffer word 5 (omega arith) (omega arith)

abbrev counting : Ostream Buffer
counting = sizing (record { before = []; after = [] })

encode_string_counts_example :
    encode_string word 5 counting
    ≡ done tt (advance (length (varint_bytes 5 ++ take 5 word)) counting)
encode_string_counts_example = encode_string_counts counting refl word 5 (omega arith) (omega arith)

-- A length that says more than there is
abbrev cut_short : List ℕ
cut_short = 9 ∷ 112 ∷ 108 ∷ []

decode_varint_returns_example : Returned cut_short 3 (decode_varint (stream cut_short 3 none))
decode_varint_returns_example = decode_varint_returns cut_short 3 none (omega arith)

decode_varint32_returns_example : Returned cut_short 3 (decode_varint32 (stream cut_short 3 none))
decode_varint32_returns_example = decode_varint32_returns cut_short 3 none (omega arith)

decode_tag_returns_example : Returned cut_short 3 (decode_tag (stream cut_short 3 none))
decode_tag_returns_example = decode_tag_returns cut_short 3 none (omega arith)

skip_field_returns_example : Returned cut_short 3 (skip_field 2 (stream cut_short 3 none))
skip_field_returns_example = skip_field_returns cut_short 3 none (omega arith) 2

decode_varint32_comes_round_example :
    decode_varint32 (stream (replicate 37 0x80 ++ 1 ∷ []) (38 + 0) none)
    ≡ done (1 * 8) (stream [] 0 none)
decode_varint32_comes_round_example = decode_varint32_comes_round 1 [] 0 none (omega arith)

decode_varint_overflows_example :
    decode_varint (stream (replicate 10 0x80 ++ 1 ∷ []) (10 + 1) none)
    ≡ fail (stream (1 ∷ []) 1 (some varint_overflow))
decode_varint_overflows_example =
    decode_varint_overflows (replicate 10 0x80) (1 ∷ []) 1 none refl (omega arith)
