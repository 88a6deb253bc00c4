-- ===== src/Parse/Allocate.antt =====
-- `allocate_field` never asks for a size that wrapped around.
use native.Mathlib.Nat.{mod-eq_of_lt, div-lt_iff_lt-mul, mul-le-mul}
use bw_watermyplants.Common.{
  ℕ, zero, suc, ◌*◌, ◌-◌, ◌/◌, ◌%◌, ◌^◌, ◌<◌, ◌≤◌, ◌≡◌, refl, ap, ◌∙◌, if◌then◌else◌, ◌⊎◌, inl, inr,
  true, false, some, ltb, leb, ◌==◌, ◌||◌, arith, Bool-cases, ltb→lt, u64,
}
use bw_watermyplants.Outcome.{bind_done, invalid_size, size_too_large}
use bw_watermyplants.Memory.{Memory, load}
use bw_watermyplants.Memory.Store.{fetch}
use bw_watermyplants.Parse.Machine.{Machine, on_memory, error}
use bw_watermyplants.Parse.Steps.{on_memory-fetch}
use bw_watermyplants.Parse.Values.{is_too_large, reallocate, allocate_field}

-- The division of the largest `size_t` is the test of the product.
quotient_test :
    (d a : ℕ)
    → 0 < a
    → (ltb ((2 ^ 64 - 1) / a) d ≡ true → 2 ^ 64 ≤ a * d)
      × (ltb ((2 ^ 64 - 1) / a) d ≡ false → a * d < 2 ^ 64)
quotient_test d a pos =
    let both = div-lt_iff_lt-mul {k = a} {x = 2 ^ 64 - 1} {y = d} pos in
    let same : a * d ≡ d * a = omega arith in
    let fails : ltb ((2 ^ 64 - 1) / a) d ≡ false → a * d < 2 ^ 64 = λ e.
      elim (Bool-cases (ltb (2 ^ 64 - 1) (d * a))) [
        | inl lt ↦ absurd (ground (arith, both.1 (ltb→lt _ _ lt)))
        | inr ge ↦ ground (arith, same)
      ] in
    ((λ e. omega (arith, same, both.0 (ltb→lt _ _ e))), fails)

-- Two halves of a word do not overflow.
small_product : (d a : ℕ) → d < 2 ^ 32 → a < 2 ^ 32 → a * d < 2 ^ 64
small_product d a hd ha =
    let bound : a * d ≤ (2 ^ 32 - 1) * (2 ^ 32 - 1) =
      mul-le-mul {n₂ = 2 ^ 32 - 1} {m₂ = 2 ^ 32 - 1} (omega arith) (omega arith) in
    omega (arith, bound)

zero_product :
    (d a : ℕ) → ((d == 0 || a == 0) ≡ true → a * d ≡ 0) × ((d == 0 || a == 0) ≡ false → 0 < a * d)
zero_product zero a = ((λ e. omega arith), λ e. absurd (ground arith))
zero_product (suc d) zero = ((λ e. omega arith), λ e. absurd (ground arith))
zero_product (suc d) (suc a) = ((λ e. absurd (ground arith)), λ e. omega arith)

pub is_too_large_lem :
    (d a : ℕ)
    → 0 < a
    → (is_too_large d a ≡ true → 2 ^ 64 ≤ a * d) × (is_too_large d a ≡ false → a * d < 2 ^ 64)
unfolding is_too_large
is_too_large_lem d a pos = elim (Bool-cases (leb (2 ^ 32) d || leb (2 ^ 32) a)) [
  | inl large ↦ rw large (quotient_test d a pos)
  | inr small ↦
      rw small ((λ e. absurd (ground arith)), λ e. small_product d a (ground arith) (ground arith))
]

module _ {S : Type 0} (realloc : Memory → ℕ → ℕ → ℕ × Memory) where
  allocate_field_begins :
      (p d a ptr : ℕ) (s : Machine S)
      → load s.memory 8 p ≡ some ptr
      → allocate_field realloc p d a s
        ≡ (if d == 0 || a == 0
              then error invalid_size
              else if is_too_large d a
              then error size_too_large
              else reallocate realloc p (u64 (a * d)) ptr)
            s
  unfolding allocate_field
  allocate_field_begins p d a ptr s h =
      bind_done (on_memory (fetch 8 p)) _ (on_memory-fetch 8 p ptr s h)

  -- With a pointer at `p`, `allocate_field` of `a` entries of `d` bytes fails with "invalid size" if there
  -- is nothing to allocate, fails with "size too large" if `a * d` needs more than 64 bits, and otherwise
  -- asks `pb_realloc` for exactly `a * d` bytes.
  pub allocate_field_exact :
      (p d a ptr : ℕ) (s : Machine S)
      → load s.memory 8 p ≡ some ptr
      → (a * d ≡ 0) × (allocate_field realloc p d a s ≡ error invalid_size s)
        ⊎ (2 ^ 64 ≤ a * d) × (allocate_field realloc p d a s ≡ error size_too_large s)
        ⊎ (0 < a * d)
          × (a * d < 2 ^ 64)
          × (allocate_field realloc p d a s ≡ reallocate realloc p (a * d) ptr s)
  allocate_field_exact p d a ptr s h = elim (Bool-cases (d == 0 || a == 0)) [
    | inl empty ↦
        inl ((zero_product d a).0 empty, allocate_field_begins p d a ptr s h ∙ rw empty refl)
    | inr some_room ↦ elim (Bool-cases (is_too_large d a)) [
      | inl large ↦ inr (
          inl (
            (is_too_large_lem d a (ground arith)).0 large,
            allocate_field_begins p d a ptr s h ∙ rw some_room (rw large refl),
          ))
      | inr fits ↦
          let bound = (is_too_large_lem d a (ground arith)).1 fits in
          let kept : a * d % 2 ^ 64 ≡ a * d = mod-eq_of_lt bound in
          inr (
            inr (
              (zero_product d a).1 some_room,
              bound,
              allocate_field_begins p d a ptr s h
                  ∙ rw some_room (rw fits (ap (λ n. reallocate realloc p n ptr s) kept)),
            ))
    ]
  ]
