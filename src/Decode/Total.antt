-- ===== src/Decode/Total.antt =====
-- The decoders of pb_decode.c on any memory: they return, and inside the memory.
use bw_watermyplants.Common.{ℕ, ◌+◌, ◌≤◌, List, Option, arith, length}
use bw_watermyplants.Outcome.{Errmsg}
use bw_watermyplants.Istream.Buffers.{stream}
use bw_watermyplants.Istream.Safety.{Returned}
use bw_watermyplants.Decode.{decode_varint, decode_varint32, decode_tag, skip_field}
use bw_watermyplants.Decode.Safety.{decode_varint-IsSafe, decode_varint32-IsSafe, decode_tag-IsSafe}
use bw_watermyplants.Decode.Skip.{skip_field-IsSafe}

module _ (memory : List ℕ) (left : ℕ) (err : Option Errmsg) (room : left ≤ length memory) where
  -- On a buffer stream whose `bytes_left` lie in memory, `pb_decode_varint` returns, true or false,
  -- without an access outside the memory, and the stream has only moved forward, by bytes it had.
  pub decode_varint_returns : Returned memory left (decode_varint (stream memory left err))
  decode_varint_returns = (decode_varint-IsSafe (left + 1)).at memory left err room (omega arith)

  -- On a buffer stream whose `bytes_left` lie in memory, `pb_decode_varint32` returns, true or false,
  -- without an access outside the memory, and the stream has only moved forward, by bytes it had.
  pub decode_varint32_returns : Returned memory left (decode_varint32 (stream memory left err))
  decode_varint32_returns =
      (decode_varint32-IsSafe (left + 1)).at memory left err room (omega arith)

  -- On a buffer stream whose `bytes_left` lie in memory, `pb_decode_tag` returns, true or false,
  -- without an access outside the memory, and the stream has only moved forward, by bytes it had.
  pub decode_tag_returns : Returned memory left (decode_tag (stream memory left err))
  decode_tag_returns = (decode_tag-IsSafe (left + 1)).at memory left err room (omega arith)

  -- On a buffer stream whose `bytes_left` lie in memory, `pb_skip_field` returns, true or false, for every
  -- wire type, without an access outside the memory, and the stream has only moved forward, by bytes it
  -- had.
  pub skip_field_returns :
      (wire_type : ℕ) → Returned memory left (skip_field wire_type (stream memory left err))
  skip_field_returns wire_type =
      (skip_field-IsSafe (left + 1) wire_type).at memory left err room (omega arith)
