-- ===== src/Parse/RoundTrip.antt =====
-- A field that is encoded from one memory and decoded into another.
use bw_watermyplants.Common.{
  ℕ, ◌+◌, ◌*◌, ◌^◌, ◌%◌, ◌≤◌, ◌<◌, ◌≡◌, ◌∙◌, refl, sym, inl, inr, ◌⊎◌, List, none, some, true, ◌==◌,
  if◌then◌else◌, ==_iff, arith, length, IsU64, u32,
}
use native.Mathlib.Nat.{mod-eq_of_lt}
use bw_watermyplants.Outcome.{done, Call, ◌>>=◌, bind_done}
use bw_watermyplants.Memory.{Memory, load, sign_extend}
use bw_watermyplants.Memory.Store.{put}
use bw_watermyplants.Memory.Stored.{IsThere, IsStored, put-IsStored}
use bw_watermyplants.Ostream
use bw_watermyplants.Ostream.{Buffer, Ostream}
use bw_watermyplants.Istream
use bw_watermyplants.Istream.{Istream}
use bw_watermyplants.Istream.Buffers.{stream}
use bw_watermyplants.Encode.{encode_varint, encode_svarint}
use bw_watermyplants.Decode.{decode_varint, decode_svarint}
use bw_watermyplants.RoundTrip.{
  contents, RoundTrips, decode_varint-encode_varint, decode_svarint-encode_svarint,
}
use bw_watermyplants.Message.Values.{
  is_integer_size, load_integer, enc_uvarint, enc_varint, enc_svarint,
}
use bw_watermyplants.Parse.Machine.{Machine, on_input, on_memory}
use bw_watermyplants.Parse.Steps.{on_input-done, on_memory-done}
use bw_watermyplants.Parse.Values.{
  store_unsigned, store_signed, dec_uvarint, dec_varint, dec_svarint,
}

-- `write` from a buffer of `size` bytes in `buffer` returns true, and `read` on what it wrote leaves at
-- `dest` the `n` bytes that stood at `src`, changes nothing else, and uses up all that was written.
pub record Copies (write : Call (Ostream Buffer) (Unit {0}))
    (read : Call (Machine (List ℕ)) (Unit {0})) (from : Memory) (src : ℕ) (to : Memory) (dest n : ℕ)
    (buffer : List ℕ) (size : ℕ) : Type 0 where
  pub end : Ostream Buffer
  pub after : Memory
  pub writes : write (Ostream.from_buffer buffer size) ≡ done tt end
  pub reads :
      read
        (record { input = Istream.from_buffer (contents end.state) end.bytes_written; memory = to })
      ≡ done tt (record { input = stream end.state.after 0 none; memory = after })
  pub loads : load after n dest ≡ load from n src
  pub keeps : (q : ℕ) → (q < dest) ⊎ (dest + n ≤ q) → after q ≡ to q

size_cases : (n : ℕ) → is_integer_size n ≡ true → (n ≡ 1) ⊎ (n ≡ 2) ⊎ (n ≡ 4) ⊎ (n ≡ 8)
unfolding is_integer_size
size_cases n h = ground arith

-- The size of an integer in bits and in bytes
bits_bytes : (n : ℕ) → is_integer_size n ≡ true → (2 ^ (8 * n) ≡ 256 ^ n) × (2 ^ (8 * n) ≤ 2 ^ 64)
bits_bytes n h = elim (size_cases n h) [
  | inl e ↦ rw e (refl, omega arith)
  | inr (inl e) ↦ rw e (refl, omega arith)
  | inr (inr (inl e)) ↦ rw e (refl, omega arith)
  | inr (inr (inr e)) ↦ rw e (refl, omega arith)
]

-- A value stands in the low bytes of its 64-bit pattern, and `pb_dec_varint` casts that back to itself.
low_bytes :
    (n v : ℕ)
    → is_integer_size n ≡ true
    → v < 2 ^ (8 * n)
    → (sign_extend n v % 2 ^ (8 * n) ≡ v) × (sign_extend n v < 2 ^ 64)
unfolding sign_extend
low_bytes n v sized small = elim (size_cases n sized) [
  | inl e ↦ rw e (ground (arith, rw e at small))
  | inr (inl e) ↦ rw e (ground (arith, rw e at small))
  | inr (inr (inl e)) ↦ rw e (ground (arith, rw e at small))
  | inr (inr (inr e)) ↦ rw e (ground (arith, rw e at small))
]

cast_back :
    (n v : ℕ)
    → is_integer_size n ≡ true
    → v < 2 ^ (8 * n)
    → (if n == 8 then sign_extend n v else sign_extend 4 (u32 (sign_extend n v))) ≡ sign_extend n v
unfolding sign_extend
cast_back n v sized small = elim (size_cases n sized) [
  | inl e ↦ rw e (ground (arith, rw e at small))
  | inr (inl e) ↦ rw e (ground (arith, rw e at small))
  | inr (inr (inl e)) ↦ rw e (ground (arith, rw e at small))
  | inr (inr (inr e)) ↦ rw e refl
]

module _ (n v : ℕ) (sized : is_integer_size n ≡ true) (small : v < 2 ^ (8 * n)) where
  store_unsigned-done :
      (dest : ℕ) (s : Machine (List ℕ)) (p : IsStored n dest v s.memory)
      → store_unsigned n dest v s ≡ done tt (record s { memory = p.after })
  unfolding store_unsigned
  store_unsigned-done dest s p =
      let kept : v % 2 ^ (8 * n) ≡ v = mod-eq_of_lt small in
      let same : (v == v) ≡ true = (==_iff v v).1 refl in
      rw (sized, kept, same)
        (bind_done (on_memory (put n dest v)) _ (on_memory-done s (put n dest v) p.runs))

  load_integer-done :
      (from : Memory) (src : ℕ) (s : Ostream Buffer)
      → load from n src ≡ some v
      → load_integer from n src s ≡ done v s
  unfolding load_integer
  load_integer-done from src s h = rw (sized, h) refl

  store_signed-done :
      (dest : ℕ) (s : Machine (List ℕ)) (p : IsStored n dest v s.memory)
      → store_signed n dest (sign_extend n v) s ≡ done tt (record s { memory = p.after })
  unfolding store_signed
  store_signed-done dest s p =
      let kept = (low_bytes n v sized small).0 in
      let same : (sign_extend n v == sign_extend n v) ≡ true =
        (==_iff (sign_extend n v) (sign_extend n v)).1 refl in
      rw (sized, kept, same)
        (bind_done (on_memory (put n dest v)) _ (on_memory-done s (put n dest v) p.runs))

  module _ (from : Memory) (src : ℕ) (to : Memory) (dest : ℕ) (buffer : List ℕ) (size : ℕ)
      (holds : load from n src ≡ some v) (there : IsThere to dest n) (room : size ≤ length buffer)
      (limit : IsU64 size) (ten : 10 ≤ size) where
    -- An encoder of the value `w` behind the load, and a decoder of `w` before the store
    copied :
        (w : ℕ) (encode : ℕ → Call (Ostream Buffer) (Unit {0})) (decode : Call (Istream (List ℕ)) ℕ)
        (store : ℕ → Call (Machine (List ℕ)) (Unit {0}))
        → RoundTrips (encode v) decode w buffer size
        → ((s : Machine (List ℕ)) (p : IsStored n dest v s.memory)
            → store w s ≡ done tt (record s { memory = p.after }))
        → Copies
            (load_integer from n src >>= encode)
            (on_input decode >>= store)
            from
            src
            to
            dest
            n
            buffer
            size
    copied w encode decode store trip stores =
        let p = put-IsStored n dest v to (rw (bits_bytes n sized).0 at small) there in
        let input = Istream.from_buffer (contents trip.end.state) trip.end.bytes_written in
        record {
          end = trip.end;
          after = p.after;
          writes =
              bind_done (load_integer from n src) encode
                (load_integer-done from src (Ostream.from_buffer buffer size) holds)
              ∙ trip.writes;
          reads =
              bind_done (on_input decode) store
                (on_input-done (record { input = input; memory = to }) decode trip.reads)
              ∙ stores (record { input = stream trip.end.state.after 0 none; memory = to }) p;
          loads = p.loads ∙ sym holds;
          keeps = p.keeps;
        }

    -- An unsigned integer `v` of `n` bytes, one, two, four or eight, at `src` of one memory: over a buffer
    -- of ten bytes or more `pb_enc_uvarint` succeeds, and `pb_dec_uvarint` on what it wrote leaves `v` at
    -- `dest` of another memory, where there are `n` bytes, changes nothing else and reads all that was
    -- written.
    pub dec_uvarint-enc_uvarint :
        Copies (enc_uvarint from n src) (dec_uvarint n dest) from src to dest n buffer size
    unfolding enc_uvarint dec_uvarint
    dec_uvarint-enc_uvarint =
        copied v encode_varint decode_varint (store_unsigned n dest)
          (decode_varint-encode_varint buffer size room limit v
            (omega (arith, (bits_bytes n sized).1)) ten)
          (store_unsigned-done dest)

    -- A signed integer of `n` bytes, one, two, four or eight, given by its pattern `v` at `src` of one
    -- memory: over a buffer of ten bytes or more `pb_enc_varint` succeeds, and `pb_dec_varint` on what it
    -- wrote leaves the pattern at `dest` of another memory, where there are `n` bytes, changes nothing else
    -- and reads all that was written.
    pub dec_varint-enc_varint :
        Copies (enc_varint from n src) (dec_varint n dest) from src to dest n buffer size
    unfolding enc_varint dec_varint
    dec_varint-enc_varint =
        copied (sign_extend n v) (λ u. encode_varint (sign_extend n u)) decode_varint _
          (decode_varint-encode_varint buffer size room limit (sign_extend n v)
            (low_bytes n v sized small).1 ten)
          λ s p. rw (cast_back n v sized small) (store_signed-done dest s p)

    -- A signed integer of `n` bytes, one, two, four or eight, given by its pattern `v` at `src` of one
    -- memory: over a buffer of ten bytes or more `pb_enc_svarint` succeeds, and `pb_dec_svarint` on what it
    -- wrote leaves the pattern at `dest` of another memory, where there are `n` bytes, changes nothing else
    -- and reads all that was written.
    pub dec_svarint-enc_svarint :
        Copies (enc_svarint from n src) (dec_svarint n dest) from src to dest n buffer size
    unfolding enc_svarint dec_svarint
    dec_svarint-enc_svarint =
        copied (sign_extend n v) (λ u. encode_svarint (sign_extend n u)) decode_svarint
          (store_signed n dest)
          (decode_svarint-encode_svarint buffer size room limit (sign_extend n v)
            (low_bytes n v sized small).1 ten)
          (store_signed-done dest)
