-- ===== src/Message/Whole.antt =====
-- `pb_encode` writes the fields of a message one behind the other.
use bw_watermyplants.Common.{
  ℕ, zero, suc, ◌+◌, ◌^◌, ◌<◌, ◌≡◌, refl, ap, ◌∙◌, List, [], ◌∷◌, ◌++◌, none, some, All, arith,
  length, length-append, true, ◌!=◌, if◌then◌else◌, u64,
}
use bw_watermyplants.Outcome.{done, Call, ◌>>◌}
use bw_watermyplants.Memory.{Memory}
use bw_watermyplants.Field.{Field}
use bw_watermyplants.FieldIter.{begin, is_extension}
use bw_watermyplants.FieldIter.Walk.{nth, walk, nth-tag, here, next_inside, next_last, begin_lem}
use bw_watermyplants.Ostream.{Buffer, Ostream, advance, sizing}
use bw_watermyplants.Ostream.Write.{IsBuffer}
use bw_watermyplants.Encode.Sizes.{StoresOrFills}
use bw_watermyplants.Message.Arrays.{then_return}
use bw_watermyplants.Message.Writes.{Writes, Writes-StoresOrFills, Writes-resp, then-Writes}
use bw_watermyplants.Message.Twice.{encode_submessage-Writes}
use bw_watermyplants.Encode.Varint.{varint_bytes}
use bw_watermyplants.Message.Fields.{
  encode_field, encode_extension_field, encode_fields, encode_message, encode, get_encoded_size,
  encode_delimited,
}

-- The bytes of field `k` and of the `d` behind it
abbrev pub joined : (ℕ → List ℕ) → ℕ → ℕ → List ℕ
joined bytes zero k = bytes k
joined bytes (suc d) k = bytes k ++ joined bytes d (suc k)

module _ (memory : Memory) (tables : ℕ → List (Field ℕ)) (null : Buffer)
    (callback : ℕ → Field ℕ → ℕ → Call (Ostream Buffer) (Unit {0}))
    (extension : ℕ → ℕ → Call (Ostream Buffer) (Unit {0})) (depth : ℕ) (fields : List (Field ℕ))
    (end : Field ℕ) (src : ℕ) where
  -- What the round of `pb_encode` on field `k` calls
  abbrev pub field_call : ℕ → Call (Ostream Buffer) (Unit {0})
  field_call k =
      if is_extension (nth fields end k).ltype
      then encode_extension_field memory tables null callback extension (suc depth)
          (encode memory tables null callback extension depth) (walk fields end src k).p_data
      else encode_field memory tables null callback extension (suc depth)
          (encode memory tables null callback extension depth) (nth fields end k)
          (walk fields end src k).p_data

  module _ (tags : All (λ f. ¬ (f.tag ≡ 0)) fields) (ends : end.tag ≡ 0) (bytes : ℕ → List ℕ)
      (writes : (k : ℕ) → k < length fields → Writes (field_call k) (bytes k)) where
    last_round :
        (fuel k : ℕ)
        → k + 1 ≡ length fields
        → (s : Ostream Buffer)
        → encode_fields memory tables null callback extension
            (suc depth)
            (encode memory tables null callback extension depth)
            (suc fuel)
            (walk fields end src k)
            s
          ≡ field_call k s
    unfolding encode_fields
    last_round fuel k last s =
        rw
          (
            encode_fields,
            here fields end tags ends src k (omega arith),
            next_last fields end tags ends src k last,
          )
          (then_return (field_call k) s)

    inner_round :
        (fuel k : ℕ)
        → k + 1 < length fields
        → (s : Ostream Buffer)
        → encode_fields memory tables null callback extension
            (suc depth)
            (encode memory tables null callback extension depth)
            (suc fuel)
            (walk fields end src k)
            s
          ≡ (field_call k
                >> encode_fields memory tables null callback extension
                    (suc depth)
                    (encode memory tables null callback extension depth)
                    fuel
                    (walk fields end src (suc k)))
              s
    unfolding encode_fields
    inner_round fuel k more s =
        rw
          (
            encode_fields,
            here fields end tags ends src k (omega arith),
            next_inside fields end tags ends src k more,
          )
          refl

    encode_fields-Writes :
        (d fuel k : ℕ)
        → d < fuel
        → k + suc d ≡ length fields
        → Writes
            (encode_fields memory tables null callback extension
              (suc depth)
              (encode memory tables null callback extension depth)
              fuel
              (walk fields end src k))
            (joined bytes d k)
    encode_fields-Writes d zero k more round = absurd (omega arith)
    encode_fields-Writes zero (suc fuel) k more round =
        Writes-resp (last_round fuel k (omega arith)) (writes k (omega arith))
    encode_fields-Writes (suc d) (suc fuel) k more round =
        Writes-resp (inner_round fuel k (omega arith)) (
          then-Writes (writes k (omega arith))
            (encode_fields-Writes d fuel (suc k) (omega arith) (omega arith)))

    module _ (address d : ℕ) (table : tables address ≡ fields ++ end ∷ [])
        (count : length fields ≡ suc d) where
      encode_lem :
          (s : Ostream Buffer)
          → encode memory tables null callback extension (suc depth) address src s
            ≡ encode_fields memory tables null callback extension
                (suc depth)
                (encode memory tables null callback extension depth)
                (length fields + 1)
                (walk fields end src 0)
                s
      unfolding encode encode_message
      encode_lem s =
          let first_tag : ((nth fields end 0).tag != 0) ≡ true =
            ground (arith, nth-tag fields end 0 tags (omega arith)) in
          let starts : begin (tables address) src ≡ some (true, walk fields end src 0) =
            ap (λ t. begin t src) table
            ∙ begin_lem fields end tags ends src
            ∙ ap (λ b. some (b, walk fields end src 0)) first_tag in
          let size : length (tables address) ≡ length fields + 1 =
            ap length table ∙ length-append fields (end ∷ []) in
          rw (encode_message, starts, size) refl

      pub encode-Writes :
          Writes
            (encode memory tables null callback extension (suc depth) address src)
            (joined bytes d 0)
      encode-Writes =
          Writes-resp encode_lem
            (encode_fields-Writes d (length fields + 1) 0 (omega arith) (omega arith))

      abbrev total : List ℕ
      total = joined bytes d 0

      -- For a message with one field at least whose fields have no tag 0, and whose encoder at each field
      -- writes certain bytes, on a buffer stream without an error whose limit leaves no overflow:
      -- `pb_get_encoded_size` gives the number of the bytes of all fields, and `pb_encode` either stores them
      -- in the order of the fields, which it does whenever they fit below `max_size`, or returns false with
      -- "stream full".
      pub encode_stores :
          (s : Ostream Buffer)
          → IsBuffer s
          → s.errmsg ≡ none
          → s.max_size + length (joined bytes d 0) < 2 ^ 64
          → (get_encoded_size memory tables null callback extension (suc depth) address src
              ≡ done
                  (length (joined bytes d 0))
                  (advance (length (joined bytes d 0)) (sizing null)))
            × StoresOrFills
                (encode memory tables null callback extension (suc depth) address src)
                (joined bytes d 0)
                s
      unfolding get_encoded_size
      encode_stores s v clean wide =
          let run = encode-Writes.counts (sizing null) refl (omega arith) (omega arith) in
          let size : u64 (0 + length total) ≡ length total = omega arith in
          (
            rw (get_encoded_size, run, size) refl,
            Writes-StoresOrFills
                (encode memory tables null callback extension (suc depth) address src) total s
                encode-Writes v clean wide,
          )

      -- For a message with one field at least whose fields have no tag 0, and whose encoder at each field
      -- writes certain bytes, on a buffer stream without an error whose limit leaves no overflow,
      -- `pb_encode_delimited` either stores the number of the bytes of all fields as a varint and then the
      -- bytes in the order of the fields, or returns false with "stream full".
      pub encode_delimited_stores :
          (s : Ostream Buffer)
          → IsBuffer s
          → s.errmsg ≡ none
          → s.max_size + length (varint_bytes (length (joined bytes d 0)) ++ joined bytes d 0)
            < 2 ^ 64
          → StoresOrFills
              (encode_delimited memory tables null callback extension (suc depth) address src)
              (varint_bytes (length (joined bytes d 0)) ++ joined bytes d 0)
              s
      unfolding encode_delimited
      encode_delimited_stores s v clean wide =
          Writes-StoresOrFills
            (encode_delimited memory tables null callback extension (suc depth) address src)
            (varint_bytes (length total) ++ total) s
            (encode_submessage-Writes null
              (encode memory tables null callback extension (suc depth) address src) total
              encode-Writes)
            v clean wide
