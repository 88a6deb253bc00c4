-- ===== src/Encode/Sizes.antt =====
-- Encoders over a buffer of any size, and on a stream that only counts.
use bw_watermyplants.Common.{
  ℕ, ◌+◌, ◌*◌, ◌≤◌, ◌<◌, ◌≡◌, ◌⊎◌, inl, inr, List, ◌++◌, none, arith, leb, Bool-cases, length, take,
  IsU32, IsU64,
}
use bw_watermyplants.Outcome.{done, Call}
use bw_watermyplants.Ostream.{Buffer, Ostream, advance}
use bw_watermyplants.Ostream.Write.{IsBuffer, stored}
use bw_watermyplants.Ostream.Emits.{Emits, Filled}
use bw_watermyplants.Encode.{encode_varint, encode_tag, encode_string}
use bw_watermyplants.Encode.Varint.{varint_bytes, encode_varint-Emits}
use bw_watermyplants.Encode.Values.{encode_tag-Emits, encode_string-Emits}

-- Either `bytes` fit, the call returns true and they are stored behind what was there, or they do not
-- fit and the call returns false with "stream full", over the same buffer and limit.
abbrev pub StoresOrFills : Call (Ostream Buffer) (Unit {0}) → List ℕ → Ostream Buffer → Type 0
StoresOrFills m bytes s =
    ((s.bytes_written + length bytes ≤ s.max_size) × (m s ≡ done tt (stored bytes s)))
    ⊎ ((s.max_size < s.bytes_written + length bytes) × Filled s (m s))

pub Emits-StoresOrFills :
    (m : Call (Ostream Buffer) (Unit {0})) (bytes : List ℕ) (s : Ostream Buffer)
    → Emits m bytes
    → IsBuffer s
    → StoresOrFills m bytes s
Emits-StoresOrFills m bytes s p v =
    elim (Bool-cases (leb (s.bytes_written + length bytes) s.max_size)) [
      | inl small ↦
          let fits : s.bytes_written + length bytes ≤ s.max_size = ground arith in
          inl (fits, p.fits s v fits)
      | inr large ↦
          let over : s.max_size < s.bytes_written + length bytes = ground arith in
          inr (over, p.full s v over)
    ]

module _ (s : Ostream Buffer) (v : IsBuffer s) where
  -- Over a buffer stream, `pb_encode_varint` of a 64-bit value either stores the base-128 bytes of the
  -- value behind what is there and returns true, which it does whenever they fit below `max_size`, or
  -- returns false with "stream full".
  pub encode_varint_stores : (n : ℕ) → IsU64 n → StoresOrFills (encode_varint n) (varint_bytes n) s
  encode_varint_stores n h =
      Emits-StoresOrFills (encode_varint n) (varint_bytes n) s (encode_varint-Emits n h) v

  -- Over a buffer stream, `pb_encode_tag` of a wire type below 8 and a 32-bit field number either stores
  -- eight times the number plus the wire type as a varint behind what is there and returns true, which it
  -- does whenever that fits below `max_size`, or returns false with "stream full".
  pub encode_tag_stores :
      (wiretype n : ℕ)
      → wiretype < 8
      → IsU32 n
      → StoresOrFills (encode_tag wiretype n) (varint_bytes (n * 8 + wiretype)) s
  encode_tag_stores wiretype n hw h =
      Emits-StoresOrFills (encode_tag wiretype n) (varint_bytes (n * 8 + wiretype)) s
        (encode_tag-Emits wiretype n hw h) v

  -- Over a buffer stream, `pb_encode_string` of a size within the given bytes either stores the size as a
  -- varint and then so many of the bytes, and returns true, which it does whenever they fit below
  -- `max_size`, or returns false with "stream full".
  pub encode_string_stores :
      (buffer : List ℕ) (size : ℕ)
      → IsU64 size
      → size ≤ length buffer
      → StoresOrFills (encode_string buffer size) (varint_bytes size ++ take size buffer) s
  encode_string_stores buffer size h enough =
      Emits-StoresOrFills (encode_string buffer size) (varint_bytes size ++ take size buffer) s
        (encode_string-Emits buffer size h enough) v

-- On a stream without a callback `pb_encode_string` of a size within the given bytes returns true and
-- adds to `bytes_written` just the number of bytes that it would store, and nothing else changes.
pub encode_string_counts :
    (s : Ostream Buffer)
    → s.callback ≡ none
    → (buffer : List ℕ) (size : ℕ) → IsU64 size
    → size ≤ length buffer
    → encode_string buffer size s
      ≡ done tt (advance (length (varint_bytes size ++ take size buffer)) s)
encode_string_counts s sizing buffer size h enough =
    (encode_string-Emits buffer size h enough).counts s sizing
