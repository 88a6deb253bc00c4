-- ===== src/Memory/Stored.antt =====
-- What a load finds behind a store.
use bw_watermyplants.Common.{
  ℕ, zero, suc, ◌+◌, ◌*◌, ◌/◌, ◌%◌, ◌^◌, ◌≤◌, ◌<◌, ◌≡◌, ◌∙◌, refl, inl, inr, ◌⊎◌, some, arith,
}
use native.Mathlib.Nat.{pow-suc}
use bw_watermyplants.Outcome.{done, bind_done}
use bw_watermyplants.Memory.{Memory, load}
use bw_watermyplants.Memory.Store.{set_byte, put_byte, put}

-- There is memory at the `n` addresses from `p` on.
abbrev pub IsThere : Memory → ℕ → ℕ → Type 0
IsThere memory p zero = Unit
IsThere memory p (suc n) = ((b : ℕ) × (memory p ≡ some b)) × IsThere memory (p + 1) n

-- The store returned, a load at its place gives `v`, and nothing else changed.
pub record IsStored (n p v : ℕ) (memory : Memory) : Type 0 where
  pub after : Memory
  pub runs : put n p v memory ≡ done tt after
  pub loads : load after n p ≡ some v
  pub keeps : (q : ℕ) → (q < p) ⊎ (p + n ≤ q) → after q ≡ memory q

set_same : (memory : Memory) (p v : ℕ) → set_byte memory p v p ≡ some v
unfolding set_byte
set_same memory p v = ground arith

set_other : (memory : Memory) (p v q : ℕ) → ¬ (q ≡ p) → set_byte memory p v q ≡ memory q
unfolding set_byte
set_other memory p v q h = ground arith

still_mapped :
    (memory : Memory) (p v q n : ℕ) → p < q → IsThere memory q n → IsThere (set_byte memory p v) q n
still_mapped memory p v q zero lt h = tt
still_mapped memory p v q (suc n) lt ((b, e), h) = (
  (b, set_other memory p v q (omega arith) ∙ e),
  still_mapped memory p v (q + 1) n (omega arith) h,
)

put_byte-done :
    (p v b : ℕ) (memory : Memory)
    → memory p ≡ some b
    → put_byte p v memory ≡ done tt (set_byte memory p v)
unfolding put_byte
put_byte-done p v b memory h = rw (h, put_byte) refl

load-suc :
    (memory : Memory) (n p b v : ℕ)
    → memory p ≡ some b
    → load memory n (p + 1) ≡ some v
    → load memory (suc n) p ≡ some (b + 256 * v)
unfolding load
load-suc memory n p b v h e = rw (load, h, e) refl

pub put-IsStored :
    (n p v : ℕ) (memory : Memory) → v < 256 ^ n → IsThere memory p n → IsStored n p v memory
unfolding put load
put-IsStored zero p zero memory small h = record {
  after = memory;
  runs = refl;
  loads = refl;
  keeps = λ q out. refl;
}
put-IsStored zero p (suc v) memory small h = absurd (omega arith)
put-IsStored (suc n) p v memory small ((b, e), h) =
    let m1 = set_byte memory p (v % 256) in
    let rest =
      put-IsStored n (p + 1) (v / 256) m1 (omega (arith, pow-suc 256 n))
        (still_mapped memory p (v % 256) (p + 1) n (omega arith) h) in
    let whole : v % 256 + 256 * (v / 256) ≡ v = omega arith in
    record {
      after = rest.after;
      runs =
          bind_done (put_byte p (v % 256)) (λ _. put n (p + 1) (v / 256)) {s = memory}
            (put_byte-done p (v % 256) b memory e)
          ∙ rest.runs;
      loads = rw whole at (
          load-suc rest.after n p (v % 256) (v / 256)
            (rest.keeps p (inl (omega arith)) ∙ set_same memory p (v % 256)) rest.loads);
      keeps = λ q out. rest.keeps q (wider q out) ∙ set_other memory p (v % 256) q (other q out);
    }
  where
    wider : (q : ℕ) → (q < p) ⊎ (p + suc n ≤ q) → (q < p + 1) ⊎ (p + 1 + n ≤ q)
    wider q (inl lt) = inl (omega arith)
    wider q (inr ge) = inr (omega arith)

    other : (q : ℕ) → (q < p) ⊎ (p + suc n ≤ q) → ¬ (q ≡ p)
    other q (inl lt) e = omega arith
    other q (inr ge) e = omega arith
