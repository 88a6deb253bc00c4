-- ===== src/Memory/Store.antt =====
-- Loads and stores as calls on the memory: one that leaves the memory there is faults.
use bw_watermyplants.Common.{
  ℕ, zero, suc, ◌+◌, ◌/◌, ◌%◌, List, [], ◌∷◌, none, some, ◌==◌, if◌then◌else◌,
}
use bw_watermyplants.Outcome.{done, fault, Call, ◌>>◌, return}
use bw_watermyplants.Memory.{Memory, load, bytes_at}

unfoldable pub set_byte : Memory → ℕ → ℕ → Memory
set_byte memory p v q = if q == p then some v else memory q

-- `*(pb_byte_t*)p = v`
unfoldable pub put_byte : ℕ → ℕ → Call Memory (Unit {0})
unfolding set_byte
put_byte p v memory = elim (memory p) [ none ↦ fault | some _ ↦ done tt (set_byte memory p v) ]

-- An integer of `n` bytes, lowest first
unfoldable pub put : ℕ → ℕ → ℕ → Call Memory (Unit {0})
unfolding put_byte
put zero p v = return tt
put (suc n) p v = put_byte p (v % 256) >> put n (p + 1) (v / 256)

unfoldable pub put_bytes : List ℕ → ℕ → Call Memory (Unit {0})
unfolding put_byte
put_bytes [] p = return tt
put_bytes (b ∷ bytes) p = put_byte p b >> put_bytes bytes (p + 1)

-- `memset(p, 0, n)`
unfoldable pub clear : ℕ → ℕ → Call Memory (Unit {0})
unfolding put_byte
clear zero p = return tt
clear (suc n) p = put_byte p 0 >> clear n (p + 1)

unfoldable pub fetch : ℕ → ℕ → Call Memory ℕ
fetch n p memory = elim (load memory n p) [ none ↦ fault | some v ↦ done v memory ]

-- `memcpy(dest, src, n)`
unfoldable pub copy_bytes : ℕ → ℕ → ℕ → Call Memory (Unit {0})
unfolding put_bytes
copy_bytes n src dest memory = elim (bytes_at memory n src) [
  | none ↦ fault
  | some bytes ↦ put_bytes bytes dest memory
]
