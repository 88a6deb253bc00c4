-- ===== src/Parse/Marks.antt =====
-- The check for required fields finds just what was marked.
use native.Mathlib.Nat.{pow-le-pow_right, pow-suc, one-le-pow}
use bw_watermyplants.Common.{
  ℕ, zero, suc, ◌+◌, ◌-◌, ◌/◌, ◌%◌, ◌^◌, ◌≤◌, ◌<◌, ◌≡◌, refl, ap, ◌∙◌, ◌↔◌, ◌⊎◌, inl, inr, List, [],
  ◌∷◌, Bool, true, false, ltb, ◌==◌, ◌||◌, ◌&&◌, All, if◌then◌else◌, arith, Bool-cases, ==_iff,
  ltb→lt,
}
use Prim.Native.Nat.{max, bit_or}
use bw_watermyplants.Common.Bits.{passes_below, passes_below-at}
use bw_watermyplants.Common.Bits.Ones.{
  digit, digit-bit_or, digit-two_pow, digit-zero, bit_or-below, digit-all_ones, all_ones-digit,
}
use bw_watermyplants.Parse.Required.{Seen, mark, allbits, word, are_full, has_all, has_required}

-- The bits of the fields below `count` only
abbrev low_count : ℕ → ℕ
low_count count = if ltb count 32 then count else 32

record Fits (count : ℕ) (seen : Seen) : Type 0 where
  low : seen.low < 2 ^ low_count count
  high : seen.high < 2 ^ (count - 32)

-- The bit of field `i`
abbrev is_marked : Seen → ℕ → ℕ
is_marked seen i = digit (i % 32) (word seen (i / 32))

-- The largest number of `r` bits, as the code shifts for it
rest_bits : (r : ℕ) → r < 32 → allbits / 2 ^ (32 - r) ≡ 2 ^ r - 1
unfolding passes_below
rest_bits r h =
    (==_iff _ _).0 (passes_below-at (λ x. allbits / 2 ^ (32 - x) == 2 ^ x - 1) 32 r h refl)

word_after :
    (i w : ℕ) (seen : Seen)
    → i < 64
    → w < 2
    → word (mark i seen) w
      ≡ (if i / 32 == w then bit_or (word seen w) (2 ^ (i % 32)) else word seen w)
unfolding mark
word_after i w seen hi hw = ground arith

not_marked : (i : ℕ) (seen : Seen) → 64 ≤ i → mark i seen ≡ seen
unfolding mark
not_marked i seen h = ground arith

marked_within :
    (i j : ℕ) (seen : Seen)
    → i < 64
    → j < 64
    → is_marked (mark i seen) j ≡ max (is_marked seen j) (if i == j then 1 else 0)
marked_within i j seen hi hj =
    rw (word_after i (j / 32) seen hi (omega arith)) (elim (Bool-cases (i / 32 == j / 32)) [
      | inl same ↦ rw same (
          digit-bit_or (j % 32) _ _
          ∙ ap (max (is_marked seen j)) (digit-two_pow (j % 32) (i % 32) ∙ ground arith))
      | inr other ↦ rw other (ground arith)
    ])

marked_after :
    (i j : ℕ) (seen : Seen)
    → j < 64
    → is_marked (mark i seen) j ≡ max (is_marked seen j) (if i == j then 1 else 0)
marked_after i j seen hj = elim (Bool-cases (ltb i 64)) [
  | inl within ↦ marked_within i j seen (ltb→lt _ _ within) hj
  | inr past ↦ rw (not_marked i seen (ground arith)) (ground arith)
]

-- The fields of the list, marked from an empty set, the last one first
abbrev pub marked_all : List ℕ → Seen
marked_all [] = record { low = 0; high = 0 }
marked_all (i ∷ is) = mark i (marked_all is)

abbrev pub is_in : ℕ → List ℕ → Bool
is_in j [] = false
is_in j (i ∷ is) = (i == j) || is_in j is

two_pow-below : (m n : ℕ) → m < n → 2 ^ m < 2 ^ n
two_pow-below m n h = ground (
  arith,
  pow-le-pow_right {n = 2} (omega arith) {i = suc m} {j = n} h,
  pow-suc 2 m,
  one-le-pow m 2,
)

mark-Fits :
    (count i : ℕ) (seen : Seen)
    → count ≤ 64
    → i < count
    → Fits count seen
    → Fits count (mark i seen)
unfolding mark
mark-Fits count i seen small lt fits =
    let below : ltb i 64 ≡ true = ground arith in
    elim (Bool-cases (i / 32 == 0)) [
      | inl low ↦ rw below (
          rw low (record {
            low =
                bit_or-below (low_count count) _ _ fits.low
                  (two_pow-below (i % 32) (low_count count) (ground arith));
            high = fits.high;
          }))
      | inr high ↦ rw below (
          rw high (record {
            low = fits.low;
            high =
                bit_or-below (count - 32) _ _ fits.high
                  (two_pow-below (i % 32) (count - 32) (ground arith));
          }))
    ]

word_zero : (w : ℕ) → word (record { low = 0; high = 0 }) w ≡ 0
word_zero w = ground arith

is_marked-all :
    (is : List ℕ) (j : ℕ) → j < 64 → is_marked (marked_all is) j ≡ (if is_in j is then 1 else 0)
is_marked-all [] j lt = ap (digit (j % 32)) (word_zero (j / 32)) ∙ digit-zero (j % 32)
is_marked-all (i ∷ is) j lt =
    marked_after i j (marked_all is) lt ∙ ground (arith, is_marked-all is j lt)

-- The rest of the words, for a count that is no multiple of 32 and one that is
last_word :
    (r w : ℕ)
    → r < 32
    → w < 2 ^ r
    → (if r == 0 then true else w == allbits / 2 ^ (32 - r)) ≡ (w == 2 ^ r - 1)
last_word zero w lt below = ground arith
last_word (suc r) w lt below = rw (rest_bits (suc r) lt) (ground arith)

has_all-ones :
    (count : ℕ) (seen : Seen)
    → count ≤ 64
    → Fits count seen
    → has_all count seen
      ≡ ((seen.low == 2 ^ low_count count - 1) && (seen.high == 2 ^ (count - 32) - 1))
unfolding has_all are_full
has_all-ones count seen small fits = elim (Bool-cases (ltb count 32)) [
  | inl one ↦
      let q : count / 32 ≡ 0 = ground arith in
      let r : count % 32 ≡ count = ground arith in
      let none_high : count - 32 ≡ 0 = ground arith in
      let high_zero : seen.high ≡ 0 = ground (arith, ap (λ n. 2 ^ n) none_high) in
      let low_fits : seen.low < 2 ^ count = rw one at fits.low in
      rw q (
        rw r (
          rw one (
            rw none_high
              (rw high_zero (last_word count seen.low (ltb→lt _ _ one) low_fits ∙ ground arith)))))
  | inr two ↦ elim (Bool-cases (count == 64)) [
    | inl all ↦ rw ((==_iff count 64).0 all) (ground arith)
    | inr part ↦
        let q : count / 32 ≡ 1 = ground arith in
        let r : count % 32 ≡ count - 32 = ground arith in
        rw q (
          rw r (rw two (ground (arith, last_word (count - 32) seen.high (ground arith) fits.high))))
  ]
]

-- All bits are there just where both words are full.
has_all-is_marked :
    (count : ℕ) (seen : Seen)
    → count ≤ 64
    → Fits count seen
    → has_all count seen ≡ true
    → (i : ℕ) → i < count
    → is_marked seen i ≡ 1
has_all-is_marked count seen small fits h i lt = elim (Bool-cases (i / 32 == 0)) [
  | inl low ↦ rw low (
      digit-all_ones (low_count count) seen.low (ground (arith, has_all-ones count seen small fits))
        (i % 32) (ground arith))
  | inr high ↦ rw high (
      digit-all_ones (count - 32) seen.high (ground (arith, has_all-ones count seen small fits))
        (i % 32) (ground arith))
]

is_marked-has_all :
    (count : ℕ) (seen : Seen)
    → count ≤ 64
    → Fits count seen
    → ((i : ℕ) → i < count → is_marked seen i ≡ 1)
    → has_all count seen ≡ true
is_marked-has_all count seen small fits ones =
    let low =
      all_ones-digit (low_count count) seen.low fits.low
        (λ j lt. low_bit j (ground arith) (ones j (ground arith))) in
    let high =
      all_ones-digit (count - 32) seen.high fits.high
        (λ j lt. high_bit j (ground arith) (ones (j + 32) (omega arith))) in
    has_all-ones count seen small fits ∙ ground arith
  where
    low_bit : (j : ℕ) → j < 32 → is_marked seen j ≡ 1 → digit j seen.low ≡ 1
    low_bit j lt h =
        let q : j / 32 ≡ 0 = omega arith in let r : j % 32 ≡ j = omega arith in rw q at (rw r at h)

    high_bit : (j : ℕ) → j < 32 → is_marked seen (j + 32) ≡ 1 → digit j seen.high ≡ 1
    high_bit j lt h =
        let q : (j + 32) / 32 ≡ 1 = omega arith in
        let r : (j + 32) % 32 ≡ j = omega arith in rw q at (rw r at h)

marked_all-Fits :
    (count : ℕ) (is : List ℕ)
    → count ≤ 64
    → All (λ i. i < count ⊎ 64 ≤ i) is
    → Fits count (marked_all is)
marked_all-Fits count [] small all = record {
  low = one-le-pow _ 2 (omega arith);
  high = one-le-pow _ 2 (omega arith);
}
marked_all-Fits count (i ∷ is) small (inl lt, all) =
    mark-Fits count i (marked_all is) small lt (marked_all-Fits count is small all)
marked_all-Fits count (i ∷ is) small (inr past, all) =
    rw (not_marked i (marked_all is) past) (marked_all-Fits count is small all)

-- A count above 64 is cut, and the fields from 64 on are not marked.
within :
    (count : ℕ) (is : List ℕ)
    → All (λ i. i < count) is
    → All (λ i. i < (if ltb 64 count then 64 else count) ⊎ 64 ≤ i) is
within count [] all = tt
within count (i ∷ is) (lt, all) = (either, within count is all)
  where
    either : i < (if ltb 64 count then 64 else count) ⊎ 64 ≤ i
    either = elim (Bool-cases (ltb i 64)) [
      | inl below ↦ inl (ground arith)
      | inr past ↦ inr (ground arith)
    ]

-- With `fields_seen` as it is after any sequence of fields that were marked, each with an index below
-- `count`, the check for required fields finds nothing missing just where each of the first 64 fields of
-- the `count` was marked.
pub has_required_iff :
    (count : ℕ) (is : List ℕ)
    → All (λ i. i < count) is
    → (has_required count (marked_all is) ≡ true)
      ↔ ((i : ℕ) → i < count → i < 64 → is_in i is ≡ true)
unfolding has_required
has_required_iff count is all = (found, all_found)
  where
    cut : ℕ
    cut = if ltb 64 count then 64 else count

    fits : Fits cut (marked_all is)
    fits = marked_all-Fits cut is (ground arith) (within count is all)

    found : has_all cut (marked_all is) ≡ true → (i : ℕ) → i < count → i < 64 → is_in i is ≡ true
    found h i lt small = ground (
      arith,
      is_marked-all is i small,
      has_all-is_marked cut (marked_all is) (ground arith) fits h i (ground arith),
    )

    all_found :
        ((i : ℕ) → i < count → i < 64 → is_in i is ≡ true) → has_all cut (marked_all is) ≡ true
    all_found f = is_marked-has_all cut (marked_all is) (ground arith) fits (λ i lt.
        ground (arith, is_marked-all is i (ground arith), f i (ground arith) (ground arith)))
