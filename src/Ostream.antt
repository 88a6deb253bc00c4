-- ===== src/Ostream.antt =====
-- The output stream of nanopb, and the encoders that write one value to it:
-- WaterMyPlants/Pods/nanopb/pb_encode.c (and `pb_ostream_t` of pb_encode.h).
pub mod Write
pub mod Emits
pub mod Prefix
use bw_watermyplants.Common.{
  ℕ, zero, suc, ◌+◌, ◌*◌, ◌/◌, ◌^◌, List, [], ◌∷◌, ◌++◌, Option, none, some, Bool, true, false,
  ◌||◌, if◌then◌else◌, ltb, leb, length, bit_and, bit_or, u8, u64,
}
use bw_watermyplants.Outcome.{
  Outcome, done, fail, fault, Call, ◌>>=◌, ◌>>◌, Errmsg, stream_full, io_error, set_error,
}

-- What a stream callback does with its bytes: it returns true, it returns false, or it accesses
-- memory that is not there.
pub data Sent (S : Type 0) : Type 0 where
  sent : S → Sent S
  refused : S → Sent S
  overrun : Sent S

-- A callback gets the stream's state (not its other fields), a buffer, and how many of its bytes to write.
abbrev pub Callback : Type 0 → Type 0
Callback S = S → List ℕ → ℕ → Sent S

-- `pb_ostream_t`; the callback NULL is `none`.
pub record Ostream (S : Type 0) : Type 0 where
  pub callback : Option (Callback S)
  pub state : S
  pub max_size : ℕ
  pub bytes_written : ℕ
  pub errmsg : Option Errmsg

-- The memory of a buffer, split where the pointer `state` stands: what lies before it, and what
-- lies from it to the end of the buffer.
pub record Buffer : Type 0 where
  pub before : List ℕ
  pub after : List ℕ

-- `for (i = 0; i < count; i++) dest[i] = buf[i];`
unfoldable pub copy : ℕ → List ℕ → List ℕ → List ℕ → Sent Buffer
copy zero buf before after = sent (record { before = before; after = after })
copy (suc n) (b ∷ buf) before (x ∷ after) = copy n buf (before ++ b ∷ []) after
copy (suc n) _ _ _ = overrun

unfoldable pub buf_write : Callback Buffer
unfolding copy
buf_write dest buf count = copy count buf dest.before dest.after

-- `pb_ostream_from_buffer`: `memory` is what lies at `buf`
unfoldable pub from_buffer : List ℕ → ℕ → Ostream Buffer
from_buffer memory bufsize = record {
  callback = some buf_write;
  state = record { before = []; after = memory };
  max_size = bufsize;
  bytes_written = 0;
  errmsg = none;
}

-- `PB_OSTREAM_SIZING`; `null` stands for the pointer NULL.
abbrev pub sizing : {S : Type 0} → S → Ostream S
sizing null = record {
  callback = none;
  state = null;
  max_size = 0;
  bytes_written = 0;
  errmsg = none;
}

module _ {S : Type 0} where
  -- `PB_RETURN_ERROR`
  abbrev pub return_error : {A : Type 0} → Errmsg → Call (Ostream S) A
  return_error msg s = fail (record s { errmsg = set_error s.errmsg msg })

  abbrev pub advance : ℕ → Ostream S → Ostream S
  advance count s = record s { bytes_written = u64 (s.bytes_written + count) }

  -- The callback is called with the room already checked.
  unfoldable pub call_back : Callback S → List ℕ → ℕ → Call (Ostream S) (Unit {0})
  call_back callback buf count s = elim (callback s.state buf count) [
    | sent state' ↦ done tt (advance count (record s { state = state' }))
    | refused state' ↦ return_error io_error (record s { state = state' })
    | overrun ↦ fault
  ]

  abbrev pub is_full : ℕ → Ostream S → Bool
  is_full count s =
      ltb (u64 (s.bytes_written + count)) s.bytes_written
      || ltb s.max_size (u64 (s.bytes_written + count))

  -- The callback of a stream, if it has one, for a count that is not 0.
  unfoldable pub write_some : Option (Callback S) → List ℕ → ℕ → Call (Ostream S) (Unit {0})
  unfolding call_back
  write_some none buf count s = done tt (advance count s)
  write_some (some callback) buf count s =
      if is_full count s then return_error stream_full s else call_back callback buf count s

  -- `pb_write(stream, buf, count)`
  unfoldable pub write : List ℕ → ℕ → Call (Ostream S) (Unit {0})
  unfolding write_some
  write buf zero s = done tt (advance 0 s)
  write buf (suc n) s = write_some s.callback buf (suc n) s
