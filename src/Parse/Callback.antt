-- ===== src/Parse/Callback.antt =====
-- `decode_callback_field`. A function of the user decodes from whatever stream it is given, since it only
-- has `pb_read` and its like for it.
use bw_watermyplants.Common.{
  ℕ, zero, suc, ◌+◌, List, Option, none, some, true, false, ◌==◌, if◌then◌else◌, length,
}
use bw_watermyplants.Outcome.{done, fail, fault, stuck, Call, ◌>>=◌, ◌>>◌, callback_failed}
use bw_watermyplants.Memory.Store.{fetch}
use bw_watermyplants.Istream.{Istream, from_buffer}
use bw_watermyplants.Field.{Field}
use bw_watermyplants.Encode.{wt_string}
use bw_watermyplants.Decode.{skip_field, read_raw_value}
use bw_watermyplants.Parse.Machine.{
  Machine, on_input, on_memory, error, inside, make_substream, close_with,
}

-- `rounds` bounds the calls of one callback on a substream.
module _ (rounds : ℕ) {S : Type 0} where
  -- `do … while (substream.bytes_left)`
  unfoldable pub call_rounds : ℕ → Call (Machine S) (Unit {0}) → Call (Machine S) (Unit {0})
  call_rounds zero decode s = stuck
  call_rounds (suc fuel) decode s =
      (decode >> λ s'. elim (s'.input.bytes_left == 0) [
        | true ↦ done tt s'
        | false ↦ call_rounds fuel decode s'
      ])
        s

  -- A substream on which the callback failed is not closed.
  unfoldable pub close_called : Option (Unit {0}) × Istream S → Call (Machine S) (Unit {0})
  unfolding on_input close_with
  close_called (none, substream) = error callback_failed
  close_called (some _, substream) = close_with (some tt, substream)

  -- The callback on the bytes of one value, as a stream of its own
  unfoldable pub decode_raw :
      Call (Machine (List ℕ)) (Unit {0}) → List ℕ → Call (Machine S) (Unit {0})
  decode_raw decode bytes s =
      elim (decode (record { input = from_buffer bytes (length bytes); memory = s.memory })) [
        | done _ s' ↦ done tt (record s { memory = s'.memory })
        | fail s' ↦ fail (record s { memory = s'.memory })
        | fault ↦ fault
        | stuck ↦ stuck
      ]

  module _ (callback : (T : Type 0) → ℕ → Field ℕ → ℕ → Call (Machine T) (Unit {0})) where
    -- `buffer` has ten bytes.
    unfoldable pub call_decoder : ℕ → Field ℕ → ℕ → ℕ → Call (Machine S) (Unit {0})
    unfolding on_input inside make_substream call_rounds close_called decode_raw
    call_decoder decode field arg wire_type =
        if wire_type == wt_string
        then (make_substream >>= λ substream.
            inside substream (call_rounds rounds (callback S decode field arg)) >>= close_called)
        else (on_input (read_raw_value wire_type 10)
            >>= decode_raw (callback (List ℕ) decode field arg))

    -- `pCallback->funcs.decode` comes first in the structure, and `pCallback->arg` behind it.
    unfoldable pub decode_callback_field : Field ℕ → ℕ → ℕ → Call (Machine S) (Unit {0})
    unfolding on_input on_memory fetch call_decoder
    decode_callback_field field p_data wire_type =
        if p_data == 0
        then on_input (skip_field wire_type)
        else (on_memory (fetch 8 p_data) >>= λ decode.
            if decode == 0
            then on_input (skip_field wire_type)
            else call_decoder decode field (p_data + 8) wire_type)
