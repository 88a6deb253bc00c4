-- ===== src/Parse/Machine.antt =====
-- The state of the decoder: the input stream and the memory.
use bw_watermyplants.Common.{ℕ, Option, none, some}
use bw_watermyplants.Outcome.{done, fail, fault, stuck, Call, ◌>>=◌, ◌>>◌, Errmsg}
use bw_watermyplants.Memory.{Memory}
use bw_watermyplants.Memory.Store.{put_bytes}
use bw_watermyplants.Istream
use bw_watermyplants.Istream.{Istream, read}
use bw_watermyplants.Decode.{make_string_substream, close_string_substream}

pub record Machine (S : Type 0) : Type 0 where
  pub input : Istream S
  pub memory : Memory

module _ {S : Type 0} {A : Type 0} where
  -- A call that only uses the stream
  unfoldable pub on_input : Call (Istream S) A → Call (Machine S) A
  on_input m s = elim (m s.input) [
    | done a input' ↦ done a (record s { input = input' })
    | fail input' ↦ fail (record s { input = input' })
    | fault ↦ fault
    | stuck ↦ stuck
  ]

  -- A call that only uses the memory
  unfoldable pub on_memory : Call Memory A → Call (Machine S) A
  on_memory m s = elim (m s.memory) [
    | done a memory' ↦ done a (record s { memory = memory' })
    | fail memory' ↦ fail (record s { memory = memory' })
    | fault ↦ fault
    | stuck ↦ stuck
  ]

  -- `PB_RETURN_ERROR(stream, msg)`
  abbrev pub error : Errmsg → Call (Machine S) A
  error msg = on_input (Istream.return_error msg)

  -- A run on a substream: what it returned, `none` for false, and the substream as it left it.
  unfoldable pub inside : Istream S → Call (Machine S) A → Call (Machine S) (Option A × Istream S)
  inside substream m s = elim (m (record s { input = substream })) [
    | done a s' ↦ done (some a, s'.input) (record s { memory = s'.memory })
    | fail s' ↦ done (none, s'.input) (record s { memory = s'.memory })
    | fault ↦ fault
    | stuck ↦ stuck
  ]

module _ {S : Type 0} where
  unfoldable pub make_substream : Call (Machine S) (Istream S)
  unfolding on_input
  make_substream = on_input make_string_substream

  -- `if (!pb_close_string_substream(stream, &substream)) return false; return status;`
  unfoldable pub close_with : {A : Type 0} → Option A × Istream S → Call (Machine S) (Unit {0})
  unfolding on_input
  close_with (none, substream) = on_input (close_string_substream substream) >> λ s. fail s
  close_with (some _, substream) = on_input (close_string_substream substream)

  -- `pb_read(stream, dest, n)`; the bytes go to the memory once they are all there.
  unfoldable pub read_into : ℕ → ℕ → Call (Machine S) (Unit {0})
  unfolding on_input on_memory put_bytes
  read_into n dest = on_input (read n) >>= λ bytes. on_memory (put_bytes bytes dest)
