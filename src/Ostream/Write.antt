-- ===== src/Ostream/Write.antt =====
-- `pb_write` on the two kinds of stream of the library: over a memory buffer, and for sizing.
use bw_watermyplants.Common.{
  ℕ, ◌+◌, ◌≤◌, ◌<◌, ◌≡◌, refl, List, [], ◌∷◌, ◌++◌, none, some, arith, length, drop, length-drop,
  append-nil, append_assoc, IsU64,
}
use bw_watermyplants.Outcome.{done, fail, Call, stream_full, set_error}
use bw_watermyplants.Ostream.{
  sent, Buffer, Ostream, copy, buf_write, advance, write_some, write, call_back,
}

-- A stream over a buffer: the limit lies inside the memory that is left.
pub record IsBuffer (s : Ostream Buffer) : Type 0 where
  pub writes : s.callback ≡ some buf_write
  pub room : s.max_size ≤ s.bytes_written + length s.state.after
  pub within : s.bytes_written ≤ s.max_size
  pub limit : IsU64 s.max_size

-- The stream after `bytes` have been stored.
abbrev pub stored : List ℕ → Ostream Buffer → Ostream Buffer
stored bytes s = record s {
  state = record { before = s.state.before ++ bytes; after = drop (length bytes) s.state.after };
  bytes_written = s.bytes_written + length bytes;
}

abbrev pub out_of_room : Ostream Buffer → Ostream Buffer
out_of_room s = record s { errmsg = set_error s.errmsg stream_full }

-- `pb_write(stream, buf, sizeof(buf))`
abbrev pub emit : {S : Type 0} → List ℕ → Call (Ostream S) (Unit {0})
emit bytes = write bytes (length bytes)

copy_lem :
    (bytes before after : List ℕ)
    → length bytes ≤ length after
    → copy (length bytes) bytes before after
      ≡ sent (record { before = before ++ bytes; after = drop (length bytes) after })
unfolding copy
copy_lem [] before after h = rw append-nil
copy_lem (b ∷ bs) before [] h = absurd (omega arith)
copy_lem (b ∷ bs) before (x ∷ after) h =
    rw (copy_lem bs (before ++ b ∷ []) after (omega arith)) (rw append_assoc)

module _ (s : Ostream Buffer) (v : IsBuffer s) where
  pub emit_fits :
      (bytes : List ℕ)
      → s.bytes_written + length bytes ≤ s.max_size
      → emit bytes s ≡ done tt (stored bytes s)
  unfolding write write_some call_back buf_write
  emit_fits [] h = ground (arith, v.within, v.limit, append-nil s.state.before)
  emit_fits (b ∷ bs) h = rw v.writes (
      ground (
        arith,
        v.room,
        v.limit,
        v.within,
        copy_lem (b ∷ bs) s.state.before s.state.after (omega (arith, v.room)),
      ))

  pub emit_full :
      (bytes : List ℕ)
      → IsU64 (length bytes)
      → s.max_size < s.bytes_written + length bytes
      → emit bytes s ≡ fail (out_of_room s)
  unfolding write write_some
  emit_full [] k h = absurd (omega (arith, v.within))
  emit_full (b ∷ bs) k h = rw v.writes (ground (arith, v.limit, v.within))

  pub stored-IsBuffer :
      (bytes : List ℕ) → s.bytes_written + length bytes ≤ s.max_size → IsBuffer (stored bytes s)
  stored-IsBuffer bytes h = record {
    writes = v.writes;
    room = omega (arith, v.room, length-drop {0} (length bytes) s.state.after);
    within = h;
    limit = v.limit;
  }

pub out_of_room-IsBuffer : (s : Ostream Buffer) → IsBuffer s → IsBuffer (out_of_room s)
out_of_room-IsBuffer s v = record {
  writes = v.writes;
  room = v.room;
  within = v.within;
  limit = v.limit;
}

pub emit_sizing :
    {S : Type 0} (s : Ostream S) (bytes : List ℕ)
    → s.callback ≡ none
    → emit bytes s ≡ done tt (advance (length bytes) s)
unfolding write write_some
emit_sizing s [] h = refl
emit_sizing s (b ∷ bs) h = rw h
