-- ===== src/Message/Submessage.antt =====
-- `pb_encode_submessage`: the message is encoded twice, first only for its size.
use bw_watermyplants.Common.{
  ℕ, ◌+◌, [], none, some, Bool, true, false, ltb, ◌!=◌, if◌then◌else◌, u64,
}
use bw_watermyplants.Outcome.{
  done, fail, fault, stuck, Call, ◌>>◌, stream_full, submsg_size_changed,
}
use bw_watermyplants.Ostream.{Ostream, sizing, write, return_error}
use bw_watermyplants.Encode.{encode_varint}

-- `message` is `pb_encode` with its descriptors and structure; `null` is the pointer NULL as a state.
module _ {S : Type 0} (null : S) (message : Call (Ostream S) (Unit {0})) where
  -- What follows the second run, which returned `status` and left `substream`.
  unfoldable pub close_substream : ℕ → Bool → Ostream S → Call (Ostream S) (Unit {0})
  close_substream size status substream s =
      let s' = record s {
        state = substream.state;
        bytes_written = u64 (s.bytes_written + substream.bytes_written);
        errmsg = substream.errmsg;
      } in
      if substream.bytes_written != size
      then return_error submsg_size_changed s'
      else if status
      then done tt s'
      else fail s'

  -- The second run, with the size as the limit
  unfoldable pub encode_within : ℕ → Call (Ostream S) (Unit {0})
  unfolding close_substream
  encode_within size s =
      elim (message (record s { max_size = size; bytes_written = 0; errmsg = none })) [
        | done _ substream ↦ close_substream size true substream s
        | fail substream ↦ close_substream size false substream s
        | fault ↦ fault
        | stuck ↦ stuck
      ]

  -- Behind the size
  unfoldable pub encode_sized : ℕ → Call (Ostream S) (Unit {0})
  unfolding encode_within
  encode_sized size s = elim s.callback [
    | none ↦ write [] size s
    | some _ ↦
        if ltb s.max_size (u64 (s.bytes_written + size))
        then return_error stream_full s
        else encode_within size s
  ]

  unfoldable pub encode_submessage : Call (Ostream S) (Unit {0})
  unfolding encode_sized
  encode_submessage s = elim (message (sizing null)) [
    | done _ substream ↦
        (encode_varint substream.bytes_written >> encode_sized substream.bytes_written) s
    | fail substream ↦ fail (record s { errmsg = substream.errmsg })
    | fault ↦ fault
    | stuck ↦ stuck
  ]
