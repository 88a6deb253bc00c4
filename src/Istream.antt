-- ===== src/Istream.antt =====
-- The input stream of nanopb: `pb_read`, `pb_readbyte`, substreams,
-- WaterMyPlants/Pods/nanopb/pb_decode.c (and `pb_istream_t` of pb_decode.h).
pub mod Buffers
pub mod Safety
use bw_watermyplants.Common.{
  ℕ, zero, suc, ◌+◌, ◌-◌, List, [], ◌∷◌, ◌++◌, Option, none, some, Bool, true, false, if◌then◌else◌,
  ltb, ◌==◌,
}
use bw_watermyplants.Outcome.{
  Outcome, done, fail, fault, stuck, Call, ◌>>=◌, ◌>>◌, return, Errmsg, end_of_stream, io_error,
  set_error,
}

-- What a stream callback does: it returns true with the bytes read, it returns false, or it
-- accesses memory that is not there.
pub data Got (S : Type 0) : Type 0 where
  got : List ℕ → S → Got S
  refused : S → Got S
  overrun : Got S

abbrev pub Callback : Type 0 → Type 0
Callback S = S → ℕ → Got S

-- `pb_istream_t`; `is_buf_read` is the outcome of `stream->callback == buf_read`.
pub record Istream (S : Type 0) : Type 0 where
  pub callback : Callback S
  pub is_buf_read : Bool
  pub state : S
  pub bytes_left : ℕ
  pub errmsg : Option Errmsg

-- `for (i = 0; i < count; i++) buf[i] = source[i];` the state is the memory from the pointer on.
unfoldable pub copy : ℕ → List ℕ → List ℕ → Got (List ℕ)
copy zero source buf = got buf source
copy (suc n) (b ∷ source) buf = copy n source (buf ++ b ∷ [])
copy (suc n) [] buf = overrun

unfoldable pub buf_read : Callback (List ℕ)
unfolding copy
buf_read source count = copy count source []

-- `pb_istream_from_buffer`: `memory` is what lies at `buf`
abbrev pub from_buffer : List ℕ → ℕ → Istream (List ℕ)
from_buffer memory bufsize = record {
  callback = buf_read;
  is_buf_read = true;
  state = memory;
  bytes_left = bufsize;
  errmsg = none;
}

module _ {S : Type 0} where
  -- `PB_RETURN_ERROR`
  abbrev pub return_error : {A : Type 0} → Errmsg → Call (Istream S) A
  return_error msg s = fail (record s { errmsg = set_error s.errmsg msg })

  -- The callback is called, and its bytes are taken off `bytes_left`.
  unfoldable pub call_back : ℕ → Call (Istream S) (List ℕ)
  call_back count s = elim (s.callback s.state count) [
    | got bytes state' ↦ done bytes (record s { state = state'; bytes_left = s.bytes_left - count })
    | refused state' ↦ return_error io_error (record s { state = state' })
    | overrun ↦ fault
  ]

  -- `pb_read(stream, buf, count)` behind its special cases
  unfoldable pub read_checked : ℕ → Call (Istream S) (List ℕ)
  unfolding call_back
  read_checked count s =
      if ltb s.bytes_left count then return_error end_of_stream s else call_back count s

  -- `pb_read(stream, buf, count)` with a buffer
  unfoldable pub read : ℕ → Call (Istream S) (List ℕ)
  unfolding read_checked
  read zero s = done [] s
  read (suc n) s = read_checked (suc n) s

  -- `while (count > 16)`: sixteen bytes at a time, and the rest at once
  unfoldable pub skip_chunks : ℕ → ℕ → Call (Istream S) (Unit {0})
  unfolding read
  skip_chunks zero count s = stuck
  skip_chunks (suc fuel) count s =
      let more = (read 16 >> skip_chunks fuel (count - 16)) s in
      if ltb 16 count then more else (read count >> return tt) s

  -- `pb_read(stream, NULL, count)`
  unfoldable pub skip : ℕ → Call (Istream S) (Unit {0})
  unfolding skip_chunks read_checked
  skip zero s = done tt s
  skip (suc n) s =
      if s.is_buf_read then (read_checked (suc n) >> return tt) s else skip_chunks (suc n) (suc n) s

  -- The one byte that a callback was asked for.
  unfoldable pub first_byte : List ℕ → Call (Istream S) ℕ
  first_byte [] s = fault
  first_byte (b ∷ bs) s = done b s

  -- `pb_readbyte`
  unfoldable pub readbyte : Call (Istream S) ℕ
  unfolding call_back first_byte
  readbyte s =
      if s.bytes_left == 0 then return_error end_of_stream s else (call_back 1 >>= first_byte) s
