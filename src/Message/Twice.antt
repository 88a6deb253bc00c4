-- ===== src/Message/Twice.antt =====
-- The two runs of `pb_encode_submessage` over a buffer.
use bw_watermyplants.Common.{
  ℕ, ◌+◌, ◌^◌, ◌≤◌, ◌<◌, ◌≡◌, inl, inr, refl, sym, ap, ◌∙◌, List, ◌++◌, none, arith, length,
  length-append, leb, ltb, ◌!=◌, true, false, Bool-cases, u64, IsU64,
}
use bw_watermyplants.Outcome.{done, fail, Call, ◌>>◌, bind_done, bind_fail}
use bw_watermyplants.Ostream.{Buffer, Ostream, advance, sizing}
use bw_watermyplants.Ostream.Write.{
  IsBuffer, stored, out_of_room, stored-IsBuffer, out_of_room-IsBuffer,
}
use bw_watermyplants.Ostream.Emits.{Emits, Filled, stored-stored}
use bw_watermyplants.Encode.{encode_varint}
use bw_watermyplants.Encode.Varint.{varint_bytes, encode_varint-Emits}
use bw_watermyplants.Encode.Sizes.{StoresOrFills}
use bw_watermyplants.Message.Arrays.{write-none}
use bw_watermyplants.Message.Writes.{Writes, Emits-Writes}
use bw_watermyplants.Message.Submessage.{
  close_substream, encode_within, encode_sized, encode_submessage,
}

module _ (null : Buffer) (message : Call (Ostream Buffer) (Unit {0})) (bytes : List ℕ)
    (writes : Writes message bytes) where
  -- The stream of the second run
  abbrev limited : Ostream Buffer → Ostream Buffer
  limited s = record s { max_size = length bytes; bytes_written = 0; errmsg = none }

  module _ (s : Ostream Buffer) (v : IsBuffer s) (wide : s.max_size + length bytes < 2 ^ 64) where
    limited-IsBuffer : s.bytes_written + length bytes ≤ s.max_size → IsBuffer (limited s)
    limited-IsBuffer h = record {
      writes = v.writes;
      room = omega (arith, v.room);
      within = omega arith;
      limit = omega arith;
    }

    within_fits :
        s.errmsg ≡ none
        → s.bytes_written + length bytes ≤ s.max_size
        → encode_within null message (length bytes) s ≡ done tt (stored bytes s)
    unfolding encode_within close_substream
    within_fits clean h =
        let run = writes.fits (limited s) (limited-IsBuffer h) refl (omega arith) (omega arith) in
        let sum : u64 (s.bytes_written + (0 + length bytes)) ≡ s.bytes_written + length bytes =
          omega arith in
        let dirty = sym clean in
        let same : (0 + length bytes != length bytes) ≡ false = ground arith in
        rw (encode_within, run, same)
          (λ i. done tt (record (stored bytes s) { bytes_written = sum i; errmsg = dirty i }))

    sized_fits :
        s.errmsg ≡ none
        → s.bytes_written + length bytes ≤ s.max_size
        → encode_sized null message (length bytes) s ≡ done tt (stored bytes s)
    unfolding encode_sized
    sized_fits clean h =
        let sum : u64 (s.bytes_written + length bytes) ≡ s.bytes_written + length bytes =
          omega arith in
        let room : ltb s.max_size (s.bytes_written + length bytes) ≡ false = ground arith in
        rw (encode_sized, v.writes, sum, room)
          (within_fits clean h ∙ λ i. done tt (record (stored bytes s) { callback = v.writes i }))

    sized_full :
        s.max_size < s.bytes_written + length bytes
        → encode_sized null message (length bytes) s ≡ fail (out_of_room s)
    unfolding encode_sized
    sized_full h =
        let sum : u64 (s.bytes_written + length bytes) ≡ s.bytes_written + length bytes =
          omega (arith, v.within) in
        let full : ltb s.max_size (s.bytes_written + length bytes) ≡ true = ground arith in
        rw (encode_sized, v.writes, sum, full)
          (λ i. fail (record (out_of_room s) { callback = v.writes i }))

  submessage_runs :
      (s : Ostream Buffer)
      → IsU64 (length bytes)
      → encode_submessage null message s
        ≡ (encode_varint (length bytes) >> encode_sized null message (length bytes)) s
  unfolding encode_submessage
  submessage_runs s h =
      let size : u64 (0 + length bytes) ≡ length bytes = omega arith in
      rw (encode_submessage, writes.counts (sizing null) refl (omega arith) h, size)

  module _ (s : Ostream Buffer) (v : IsBuffer s) (clean : s.errmsg ≡ none)
      (wide : s.max_size + length bytes < 2 ^ 64) where
    prefix_fits :
        s.bytes_written + length (varint_bytes (length bytes)) ≤ s.max_size
        → encode_submessage null message s
          ≡ encode_sized null message (length bytes) (stored (varint_bytes (length bytes)) s)
    prefix_fits room =
        submessage_runs s (omega arith)
        ∙ bind_done (encode_varint (length bytes)) (λ _. encode_sized null message (length bytes))
            ((encode_varint-Emits (length bytes) (omega arith)).fits s v room)

    submessage_fits :
        s.bytes_written + length (varint_bytes (length bytes) ++ bytes) ≤ s.max_size
        → encode_submessage null message s
          ≡ done tt (stored (varint_bytes (length bytes) ++ bytes) s)
    submessage_fits h =
        let size = varint_bytes (length bytes) in
        let sum = length-append size bytes in
        let room : s.bytes_written + length size ≤ s.max_size = omega (arith, sum) in
        prefix_fits room
        ∙ sized_fits (stored size s) (stored-IsBuffer s v size room) wide clean (omega (arith, sum))
        ∙ ap (done tt) (stored-stored size bytes s)

    submessage_full :
        s.max_size < s.bytes_written + length (varint_bytes (length bytes) ++ bytes)
        → Filled s (encode_submessage null message s)
    submessage_full h =
        let size = varint_bytes (length bytes) in
        let sum = length-append size bytes in
        elim (Bool-cases (leb (s.bytes_written + length size) s.max_size)) [
          | inl fits ↦
              let room : s.bytes_written + length size ≤ s.max_size = ground arith in
              let behind = stored-IsBuffer s v size room in
              record {
                last = out_of_room (stored size s);
                returns =
                    prefix_fits room ∙ sized_full (stored size s) behind wide (omega (arith, sum));
                last-IsBuffer = out_of_room-IsBuffer (stored size s) behind;
                message = refl;
                same_limit = refl;
              }
          | inr over ↦
              let stop =
                (encode_varint-Emits (length bytes) (omega arith)).full s v (ground arith) in
              record {
                last = stop.last;
                returns =
                    submessage_runs s (omega arith)
                    ∙ bind_fail (encode_varint (length bytes))
                        (λ _. encode_sized null message (length bytes)) stop.returns;
                last-IsBuffer = stop.last-IsBuffer;
                message = stop.message;
                same_limit = stop.same_limit;
              }
        ]

  counts_submessage :
      (s : Ostream Buffer)
      → s.callback ≡ none
      → IsU64 (length (varint_bytes (length bytes) ++ bytes))
      → encode_submessage null message s
        ≡ done tt (advance (length (varint_bytes (length bytes) ++ bytes)) s)
  unfolding encode_sized
  counts_submessage s h short =
      let size = varint_bytes (length bytes) in
      let sum = length-append size bytes in
      let small : IsU64 (length bytes) = omega (arith, sum) in
      let behind : encode_sized null message (length bytes) (advance (length size) s)
          ≡ done tt (advance (length bytes) (advance (length size) s)) =
        rw (encode_sized, h)
          (write-none (length bytes) (advance (length size) s) h ∙ λ i.
            done tt
              (advance (length bytes) (record (advance (length size) s) { callback = h i }))) in
      submessage_runs s small
      ∙ bind_done (encode_varint (length bytes)) (λ _. encode_sized null message (length bytes))
          ((encode_varint-Emits (length bytes) small).counts s h)
      ∙ behind
      ∙ ground (arith, sum)

  -- A message in another one
  pub encode_submessage-Writes :
      Writes (encode_submessage null message) (varint_bytes (length bytes) ++ bytes)
  encode_submessage-Writes =
      let sum = length-append (varint_bytes (length bytes)) bytes in
      record {
        fits = λ s v clean wide h. submessage_fits s v clean (omega (arith, sum)) h;
        full = λ s v clean wide h. submessage_full s v clean (omega (arith, sum)) h;
        counts = λ s h small short. counts_submessage s h short;
      }

-- For an encoder `message` that writes `bytes` whatever the stream, and a buffer stream without an error
-- whose limit leaves no overflow, `pb_encode_submessage` either stores the number of bytes as a varint
-- and then the bytes, which it does whenever they fit below `max_size`, or returns false with "stream
-- full": the first run finds the size, and the second one writes just as much.
pub encode_submessage_stores :
    (null : Buffer) (message : Call (Ostream Buffer) (Unit {0})) (bytes : List ℕ)
    → Emits message bytes
    → (s : Ostream Buffer) → IsBuffer s
    → s.errmsg ≡ none
    → s.max_size + length bytes < 2 ^ 64
    → StoresOrFills (encode_submessage null message) (varint_bytes (length bytes) ++ bytes) s
encode_submessage_stores null message bytes emits s v clean wide =
    elim (Bool-cases
      (leb (s.bytes_written + length (varint_bytes (length bytes) ++ bytes)) s.max_size)) [
        | inl small ↦
            let fits : s.bytes_written + length (varint_bytes (length bytes) ++ bytes)
                ≤ s.max_size =
              ground arith in
            inl (fits, submessage_fits null message bytes (Emits-Writes emits) s v clean wide fits)
        | inr large ↦
            let over : s.max_size
                < s.bytes_written + length (varint_bytes (length bytes) ++ bytes) =
              ground arith in
            inr (over, submessage_full null message bytes (Emits-Writes emits) s v clean wide over)
      ]
