-- ===== src/Parse/Confined/Stores.antt =====
-- Stores that keep the memory outside a region.
use bw_watermyplants.Common.{
  ℕ, zero, suc, ◌+◌, ◌/◌, ◌%◌, ◌≤◌, ◌<◌, ◌≡◌, refl, ap, ◌∙◌, inl, inr, List, [], ◌∷◌, Option, none,
  some, Bool, true, false, ◌==◌, arith, Bool-cases, ==_iff, length,
}
use bw_watermyplants.Outcome.{Outcome, done, fail, fault, stuck, Call, ◌>>=◌}
use bw_watermyplants.Memory.{Memory, load}
use bw_watermyplants.Memory.Store.{set_byte, put_byte, put, put_bytes, clear, fetch}

-- A set of addresses
abbrev pub Region : Type 0
Region = ℕ → Bool

abbrev pub is_some : Option ℕ → Bool
is_some none = false
is_some (some b) = true

-- The `n` addresses from `p` on lie in the region.
pub record Covers (W : Region) (p n : ℕ) : Type 0 where
  pub at : (q : ℕ) → p ≤ q → q < p + n → W q ≡ true

-- There is memory in all of the region.
pub record IsMapped (W : Region) (memory : Memory) : Type 0 where
  pub at : (q : ℕ) → W q ≡ true → is_some (memory q) ≡ true

-- Nothing changed outside the region, and what was there is there.
pub record Kept (W : Region) (memory memory' : Memory) : Type 0 where
  pub frame : (q : ℕ) → W q ≡ false → memory' q ≡ memory q
  pub there : (q : ℕ) → is_some (memory q) ≡ true → is_some (memory' q) ≡ true

module _ {W : Region} where
  pub Kept-refl : (memory : Memory) → Kept W memory memory
  Kept-refl memory = record { frame = λ q h. refl; there = λ q h. h }

  pub Kept-trans : {m m' m'' : Memory} → Kept W m m' → Kept W m' m'' → Kept W m m''
  Kept-trans a b = record {
    frame = λ q h. b.frame q h ∙ a.frame q h;
    there = λ q h. b.there q (a.there q h);
  }

  pub Kept-IsMapped : {m m' : Memory} → Kept W m m' → IsMapped W m → IsMapped W m'
  Kept-IsMapped a h = record { at = λ q e. a.there q (h.at q e) }

-- The call on the memory returned.
abbrev pub Tamed : {A : Type 0} → Region → Memory → Outcome Memory A → Type 0
Tamed W memory (done a memory') = Kept W memory memory'
Tamed W memory (fail memory') = Kept W memory memory'
Tamed W memory fault = ⊥
Tamed W memory stuck = ⊥

pub record IsTame {A : Type 0} (W : Region) (m : Call Memory A) : Type 0 where
  pub at : (memory : Memory) → IsMapped W memory → Tamed W memory (m memory)

module _ {W : Region} where
  pub return-IsTame : {A : Type 0} (a : A) → IsTame W (λ memory. done a memory)
  return-IsTame a = record { at = λ memory h. Kept-refl memory }

  Tamed-trans :
      {A : Type 0} {m m' : Memory} (o : Outcome Memory A) → Kept W m m' → Tamed W m' o → Tamed W m o
  Tamed-trans (done a m) k h = Kept-trans k h
  Tamed-trans (fail m) k h = Kept-trans k h
  Tamed-trans fault k h = h
  Tamed-trans stuck k h = h

  pub bind-IsTame :
      {A B : Type 0} {m : Call Memory A} {f : A → Call Memory B}
      → IsTame W m
      → ((a : A) → IsTame W (f a))
      → IsTame W (m >>= f)
  bind-IsTame {A = A} {B = B} {m = m} {f = f} h rest = record {
    at = λ memory mapped. go memory mapped (m memory) (h.at memory mapped);
  }
    where
      go :
          (memory : Memory)
          → IsMapped W memory
          → (o : Outcome Memory A) → Tamed W memory o
          → Tamed W memory (elim o as (λ _. Outcome Memory B) [
            | done a s' ↦ f a s'
            | fail s' ↦ fail s'
            | fault ↦ fault
            | stuck ↦ stuck
          ])
      go memory mapped (done a s) k = Tamed-trans (f a s) k ((rest a).at s (Kept-IsMapped k mapped))
      go memory mapped (fail s) k = k
      go memory mapped fault k = k
      go memory mapped stuck k = k

  set_byte-Kept : (memory : Memory) (p v : ℕ) → W p ≡ true → Kept W memory (set_byte memory p v)
  unfolding set_byte
  set_byte-Kept memory p v h = record {
    frame = λ q out. elim (Bool-cases (q == p)) [
      | inl same ↦ absurd (ground (arith, ap W ((==_iff q p).0 same)))
      | inr other ↦ rw other refl
    ];
    there =
        λ q old. elim (Bool-cases (q == p)) [ inl same ↦ rw same refl | inr other ↦ rw other old ];
  }

  pub put_byte-IsTame : (p v : ℕ) → W p ≡ true → IsTame W (put_byte p v)
  unfolding put_byte
  put_byte-IsTame p v h = record { at = λ memory mapped. go memory (memory p) (mapped.at p h) }
    where
      go :
          (memory : Memory) (b : Option ℕ)
          → is_some b ≡ true
          → Tamed W memory (elim b as (λ _. Outcome Memory (Unit {0})) [
            | none ↦ fault
            | some _ ↦ done tt (set_byte memory p v)
          ])
      go memory none e = absurd (cc)
      go memory (some b) e = set_byte-Kept memory p v h

  pub Covers-first : (p n : ℕ) → Covers W p (suc n) → W p ≡ true
  Covers-first p n h = h.at p (omega arith) (omega arith)

  pub Covers-rest : (p n : ℕ) → Covers W p (suc n) → Covers W (p + 1) n
  Covers-rest p n h = record { at = λ q from to. h.at q (omega arith) (omega arith) }

  pub put-IsTame : (n p v : ℕ) → Covers W p n → IsTame W (put n p v)
  unfolding put
  put-IsTame zero p v h = return-IsTame tt
  put-IsTame (suc n) p v h =
      bind-IsTame (put_byte-IsTame p (v % 256) (Covers-first p n h))
        (λ _. put-IsTame n (p + 1) (v / 256) (Covers-rest p n h))

  pub clear-IsTame : (n p : ℕ) → Covers W p n → IsTame W (clear n p)
  unfolding clear
  clear-IsTame zero p h = return-IsTame tt
  clear-IsTame (suc n) p h =
      bind-IsTame (put_byte-IsTame p 0 (Covers-first p n h))
        (λ _. clear-IsTame n (p + 1) (Covers-rest p n h))

  pub put_bytes-IsTame :
      (bytes : List ℕ) (p : ℕ) → Covers W p (length bytes) → IsTame W (put_bytes bytes p)
  unfolding put_bytes
  put_bytes-IsTame [] p h = return-IsTame tt
  put_bytes-IsTame (b ∷ bytes) p h =
      bind-IsTame (put_byte-IsTame p b (Covers-first p (length bytes) h))
        (λ _. put_bytes-IsTame bytes (p + 1) (Covers-rest p (length bytes) h))

  load-there :
      (n p : ℕ) (memory : Memory)
      → Covers W p n
      → IsMapped W memory
      → is_some (load memory n p) ≡ true
  unfolding load
  load-there zero p memory h mapped = refl
  load-there (suc n) p memory h mapped = ground (
    arith,
    mapped.at p (Covers-first p n h),
    load-there n (p + 1) memory (Covers-rest p n h) mapped,
  )

  pub fetch-IsTame : (n p : ℕ) → Covers W p n → IsTame W (fetch n p)
  unfolding fetch
  fetch-IsTame n p h = record {
    at = λ memory mapped. go memory (load memory n p) (load-there n p memory h mapped);
  }
    where
      go :
          (memory : Memory) (b : Option ℕ)
          → is_some b ≡ true
          → Tamed W memory
              (elim b as (λ _. Outcome Memory ℕ) [ none ↦ fault | some v ↦ done v memory ])
      go memory none e = absurd (cc)
      go memory (some b) e = Kept-refl memory
