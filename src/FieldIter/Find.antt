-- ===== src/FieldIter/Find.antt =====
-- `pb_field_iter_find` goes once round the table.
use bw_watermyplants.Common.{
  ℕ, zero, suc, ◌+◌, ◌-◌, ◌<◌, ◌≡◌, ◌⊎◌, inl, inr, ◌∙◌, List, Option, some, Bool, true, false,
  arith, length, All, ltb, ◌==◌, Bool-cases, if◌then◌else◌,
}
use bw_watermyplants.Field.{Field}
use bw_watermyplants.FieldIter.{Iter, next, is_wanted, find_loop, find}
use bw_watermyplants.FieldIter.Walk.{nth, walk, walk_keeps, here, next_inside, next_last}

-- The index `x` of a round through `n` descriptors
abbrev pub wrap : ℕ → ℕ → ℕ
wrap n x = if ltb x n then x else x - n

module _ {P : Type 0} (fields : List (Field P)) (end : Field P)
    (tags : All (λ f. ¬ (f.tag ≡ 0)) fields) (ends : end.tag ≡ 0) (dest_struct tag : ℕ) where
  -- The iterator stands at a descriptor with the tag that is no extension; or there is none among the
  -- `d` from `k` on, and it stands where it stood, at `p`.
  abbrev Searched : ℕ → ℕ → ℕ → Option (Bool × Iter P) → Type 0
  Searched d k p o =
      ((q : ℕ) × (q < length fields)
        × (is_wanted tag (nth fields end q) ≡ true)
        × (o ≡ some (true, walk fields end dest_struct q)))
      ⊎ (((i : ℕ) → i < d → is_wanted tag (nth fields end (wrap (length fields) (k + i))) ≡ false)
          × (o ≡ some (false, walk fields end dest_struct p)))

  pub after_next :
      (k : ℕ)
      → k < length fields
      → (b : Bool) × (next (walk fields end dest_struct k)
          ≡ some (b, walk fields end dest_struct (wrap (length fields) (k + 1))))
  after_next k h = elim (Bool-cases (ltb (k + 1) (length fields))) [
    | inl inside ↦
        let e : k + 1 ≡ suc k = omega arith in
        (true, rw inside (next_inside fields end tags ends dest_struct k (ground arith) ∙ rw e))
    | inr outside ↦
        let e : k + 1 - length fields ≡ 0 = ground arith in
        (false, rw (outside, e) (next_last fields end tags ends dest_struct k (ground arith)))
  ]

  module _ (d k p : ℕ) (hk : k < length fields) where
    found_here :
        is_wanted tag (nth fields end k) ≡ true
        → find_loop (suc d) p tag (walk fields end dest_struct k)
          ≡ some (true, walk fields end dest_struct k)
    unfolding find_loop
    found_here w = rw (find_loop, here fields end tags ends dest_struct k (omega arith), w)

    stops :
        is_wanted tag (nth fields end k) ≡ false
        → wrap (length fields) (k + 1) ≡ p
        → find_loop (suc d) p tag (walk fields end dest_struct k)
          ≡ some (false, walk fields end dest_struct p)
    unfolding find_loop
    stops w h =
        let (b, e) = after_next k hk in
        let at : (walk fields end dest_struct p).pos ≡ p =
          (walk_keeps fields end tags ends dest_struct p).0 in
        let t : ((walk fields end dest_struct p).pos == p) ≡ true = ground arith in
        rw (find_loop, here fields end tags ends dest_struct k (omega arith), w, e, h, t)

    goes_on :
        is_wanted tag (nth fields end k) ≡ false
        → ¬ (wrap (length fields) (k + 1) ≡ p)
        → find_loop (suc d) p tag (walk fields end dest_struct k)
          ≡ find_loop d p tag (walk fields end dest_struct (wrap (length fields) (k + 1)))
    unfolding find_loop
    goes_on w h =
        let (b, e) = after_next k hk in
        let at = (walk_keeps fields end tags ends dest_struct (wrap (length fields) (k + 1))).0 in
        let t : ((walk fields end dest_struct (wrap (length fields) (k + 1))).pos == p) ≡ false =
          rw at (ground arith) in
        rw (find_loop, here fields end tags ends dest_struct k (omega arith), w, e, t)

  unwanted_first :
      (d k : ℕ)
      → k < length fields
      → is_wanted tag (nth fields end k) ≡ false
      → ((i : ℕ)
          → i < d
          → is_wanted tag (nth fields end (wrap (length fields) (wrap (length fields) (k + 1) + i)))
            ≡ false)
      → d < length fields
      → (i : ℕ) → i < suc d
      → is_wanted tag (nth fields end (wrap (length fields) (k + i))) ≡ false
  unwanted_first d k hk w others hd zero h =
      let e : wrap (length fields) (k + 0) ≡ k = ground arith in rw e w
  unwanted_first d k hk w others hd (suc i) h =
      let e : wrap (length fields) (k + suc i)
          ≡ wrap (length fields) (wrap (length fields) (k + 1) + i) =
        ground arith in
      rw e (others i (omega arith))

  find_loop_searches :
      (d k p : ℕ)
      → k < length fields
      → p < length fields
      → d < length fields
      → (k + suc d ≡ p) ⊎ (k + suc d ≡ p + length fields)
      → Searched (suc d) k p (find_loop (suc d) p tag (walk fields end dest_struct k))
  find_loop_searches zero k p hk hp hd round =
      elim (Bool-cases (is_wanted tag (nth fields end k))) [
        | inl wanted ↦ inl (k, hk, wanted, found_here 0 k p hk wanted)
        | inr other ↦ inr (
          unwanted_first 0 k hk other (λ i h. absurd (omega arith)) hd,
          stops 0 k p hk other (ground arith),
        )
      ]
  find_loop_searches (suc d) k p hk hp hd round =
      elim (Bool-cases (is_wanted tag (nth fields end k))) [
        | inl wanted ↦ inl (k, hk, wanted, found_here (suc d) k p hk wanted)
        | inr other ↦
            let on = goes_on (suc d) k p hk other (ground arith) in
            elim (find_loop_searches d (wrap (length fields) (k + 1)) p (ground arith) hp
              (omega arith) (ground arith)) [
                | inl (q, inside, wanted, e) ↦ inl (q, inside, wanted, on ∙ e)
                | inr (others, e) ↦ inr (unwanted_first (suc d) k hk other others hd, on ∙ e)
              ]
      ]

  -- From any descriptor of a table whose fields have no tag 0, `pb_field_iter_find` comes to an end within
  -- one round: either it returns true at a descriptor that has the tag and is no extension, or no
  -- descriptor of the table is such, and it returns false with the iterator as it was.
  pub find_searches :
      (p : ℕ)
      → p < length fields
      → ((q : ℕ) × (q < length fields)
          × (is_wanted tag (nth fields end q) ≡ true)
          × (find (length fields) tag (walk fields end dest_struct p)
              ≡ some (true, walk fields end dest_struct q)))
        ⊎ (((q : ℕ) → q < length fields → is_wanted tag (nth fields end q) ≡ false)
            × (find (length fields) tag (walk fields end dest_struct p)
                ≡ some (false, walk fields end dest_struct p)))
  unfolding find
  find_searches p hp =
      let n : length fields ≡ suc (length fields - 1) = omega arith in
      let at = (walk_keeps fields end tags ends dest_struct p).0 in
      let fuel : find_loop (length fields) (walk fields end dest_struct p).pos tag
            (walk fields end dest_struct p)
          ≡ find_loop (suc (length fields - 1)) p tag (walk fields end dest_struct p) =
        λ i. find_loop (n i) (at i) tag (walk fields end dest_struct p) in
      elim (find_loop_searches (length fields - 1) p p hp hp (omega arith) (inr (omega arith))) [
        | inl (q, inside, wanted, e) ↦ inl (q, inside, wanted, fuel ∙ e)
        | inr (others, e) ↦
            inr (λ q hq. everywhere p hp q hq (λ i h. others i (omega arith)), fuel ∙ e)
      ]
    where
      everywhere :
          (p : ℕ)
          → p < length fields
          → (q : ℕ) → q < length fields
          → ((i : ℕ)
              → i < length fields
              → is_wanted tag (nth fields end (wrap (length fields) (p + i))) ≡ false)
          → is_wanted tag (nth fields end q) ≡ false
      everywhere p hp q hq others = elim (Bool-cases (ltb q p)) [
        | inl before ↦
            let e : wrap (length fields) (p + (q + length fields - p)) ≡ q = ground arith in
            rw e at (others (q + length fields - p) (ground arith))
        | inr behind ↦
            let e : wrap (length fields) (p + (q - p)) ≡ q = ground arith in
            rw e at (others (q - p) (ground arith))
      ]
