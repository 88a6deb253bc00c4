-- ===== src/FieldIter/Walk.antt =====
-- The round that `pb_field_iter_next` makes through a table of descriptors.
use bw_watermyplants.Common.{
  ℕ, zero, suc, ◌+◌, ◌≤◌, ◌<◌, ◌≡◌, refl, ap, ◌∙◌, List, [], ◌∷◌, ◌++◌, some, true, false, arith,
  length, length-append, get_elem?, All, ◌==◌, ◌!=◌, ltb, Bool-cases, inl, inr, if◌then◌else◌,
}
use bw_watermyplants.Field.{Field, Htype}
use bw_watermyplants.FieldIter.{Iter, first, begin, advance, next, restart, is_required, is_oneof}

-- The descriptor at an index; behind the fields lies the terminator.
unfoldable pub nth : {P : Type 0} → List (Field P) → Field P → ℕ → Field P
nth [] end i = end
nth (f ∷ fields) end zero = f
nth (f ∷ fields) end (suc i) = nth fields end i

module _ {P : Type 0} where
  pub get_elem?-nth :
      (fields : List (Field P)) (end : Field P) (i : ℕ)
      → i ≤ length fields
      → get_elem? (fields ++ end ∷ []) i ≡ some (nth fields end i)
  unfolding nth
  get_elem?-nth [] end zero h = refl
  get_elem?-nth [] end (suc i) h = absurd (omega arith)
  get_elem?-nth (f ∷ fields) end zero h = refl
  get_elem?-nth (f ∷ fields) end (suc i) h = get_elem?-nth fields end i (omega arith)

  nth-length : (fields : List (Field P)) (end : Field P) → nth fields end (length fields) ≡ end
  unfolding nth
  nth-length [] end = refl
  nth-length (f ∷ fields) end = nth-length fields end

  pub nth-tag :
      (fields : List (Field P)) (end : Field P) (i : ℕ)
      → All (λ f. ¬ (f.tag ≡ 0)) fields
      → i < length fields
      → ¬ ((nth fields end i).tag ≡ 0)
  unfolding nth
  nth-tag [] end i h lt = absurd (omega arith)
  nth-tag (f ∷ fields) end zero (h, _) lt = h
  nth-tag (f ∷ fields) end (suc i) (_, h) lt = nth-tag fields end i h (omega arith)

-- The iterator after `k` steps from the first descriptor of `fields` and the terminator `end`.
unfoldable pub walk : {P : Type 0} → List (Field P) → Field P → ℕ → ℕ → Iter P
walk fields end dest_struct zero = first (fields ++ end ∷ []) dest_struct (nth fields end 0)
walk fields end dest_struct (suc k) =
    advance (nth fields end k) (nth fields end (k + 1)) (walk fields end dest_struct k)

pub advance_keeps :
    {P : Type 0} (prev field : Field P) (iter : Iter P)
    → ((advance prev field iter).pos ≡ iter.pos + 1)
      × ((advance prev field iter).start ≡ iter.start)
      × ((advance prev field iter).dest_struct ≡ iter.dest_struct)
unfolding advance
advance_keeps prev field iter = ground arith

-- A message's descriptors: `fields`, none of them with tag 0, and then the terminator.
module _ {P : Type 0} (fields : List (Field P)) (end : Field P)
    (tags : All (λ f. ¬ (f.tag ≡ 0)) fields) (ends : end.tag ≡ 0) (dest_struct : ℕ) where
  abbrev at : ℕ → Iter P
  at = walk fields end dest_struct

  pub walk_keeps :
      (k : ℕ)
      → ((at k).pos ≡ k) × ((at k).start ≡ fields ++ end ∷ []) × ((at k).dest_struct ≡ dest_struct)
  unfolding walk
  walk_keeps zero = (refl, refl, refl)
  walk_keeps (suc k) =
      let (p, s, d) = walk_keeps k in
      let (p', s', d') = advance_keeps (nth fields end k) (nth fields end (k + 1)) (at k) in
      (omega (arith, p, p'), s' ∙ s, d' ∙ d)

  -- The terminator counts too.
  pub length-start : (k : ℕ) → length (at k).start ≡ suc (length fields)
  length-start k =
      let (p, s, d) = walk_keeps k in ap length s ∙ omega (arith, length-append fields (end ∷ []))

  -- The descriptor where the iterator stands
  pub here :
      (k : ℕ) → k ≤ length fields → get_elem? (at k).start (at k).pos ≡ some (nth fields end k)
  here k h = let (p, s, d) = walk_keeps k in rw (p, s) (get_elem?-nth fields end k h)

  there :
      (k : ℕ)
      → k < length fields
      → get_elem? (at k).start ((at k).pos + 1) ≡ some (nth fields end (k + 1))
  there k h =
      let (p, s, d) = walk_keeps k in rw (p, s) (get_elem?-nth fields end (k + 1) (omega arith))

  pub begin_lem : begin (fields ++ end ∷ []) dest_struct ≡ some ((nth fields end 0).tag != 0, at 0)
  unfolding begin walk
  begin_lem = rw (begin, get_elem?-nth fields end 0 (omega arith))

  -- Behind a field that is not the last one `pb_field_iter_next` returns true.
  pub next_inside : (k : ℕ) → k + 1 < length fields → next (at k) ≡ some (true, at (suc k))
  unfolding next walk
  next_inside k h =
      let t = nth-tag fields end k tags (omega arith) in
      let t' = nth-tag fields end (k + 1) tags h in
      let b : ((nth fields end k).tag == 0) ≡ false = ground arith in
      let b' : ((nth fields end (k + 1)).tag == 0) ≡ false = ground arith in
      rw (next, here k (omega arith), b, there k (omega arith), b')

  restart_lem : (k : ℕ) → restart (begin (at k).start (at k).dest_struct) ≡ some (false, at 0)
  unfolding restart
  restart_lem k =
      let (p, s, d) = walk_keeps k in ap restart (λ i. begin (s i) (d i)) ∙ ap restart begin_lem

  -- Behind the last one it returns false and starts again.
  pub next_last : (k : ℕ) → k + 1 ≡ length fields → next (at k) ≡ some (false, at 0)
  unfolding next
  next_last k h =
      let t = nth-tag fields end k tags (omega arith) in
      let b : ((nth fields end k).tag == 0) ≡ false = ground arith in
      let e = nth-length fields end in
      let b' : ((nth fields end (k + 1)).tag == 0) ≡ true = rw (h, e, ends) in
      rw (next, here k (omega arith), b, there k (omega arith), b', restart_lem k)

-- In a table whose fields have no tag 0, `pb_field_iter_next` goes from each field to the next and
-- returns true, and from the last one to the first, with the iterator as `pb_field_iter_begin` leaves
-- it, and returns false.
pub next_goes_round :
    {P : Type 0} (fields : List (Field P)) (end : Field P) (dest_struct k : ℕ)
    → All (λ f. ¬ (f.tag ≡ 0)) fields
    → end.tag ≡ 0
    → k < length fields
    → next (walk fields end dest_struct k) ≡ (
        if ltb (k + 1) (length fields)
        then some (true, walk fields end dest_struct (suc k))
        else some (false, walk fields end dest_struct 0))
next_goes_round fields end dest_struct k tags ends h =
    elim (Bool-cases (ltb (k + 1) (length fields))) [
      | inl inside ↦ rw inside (next_inside fields end tags ends dest_struct k (ground arith))
      | inr outside ↦ rw outside (next_last fields end tags ends dest_struct k (ground arith))
    ]

-- The required fields among the first `k`
unfoldable pub count_required : {P : Type 0} → List (Field P) → ℕ → ℕ
count_required fields zero = 0
count_required [] (suc k) = 0
count_required (f ∷ fields) (suc k) =
    (if is_required f.htype then 1 else 0) + count_required fields k

count_required-suc :
    {P : Type 0} (fields : List (Field P)) (end : Field P) (k : ℕ)
    → k < length fields
    → count_required fields (suc k)
      ≡ count_required fields k + (if is_required (nth fields end k).htype then 1 else 0)
unfolding count_required nth
count_required-suc [] end k h = absurd (omega arith)
count_required-suc (f ∷ fields) end zero h = omega arith
count_required-suc (f ∷ fields) end (suc k) h =
    omega (arith, count_required-suc fields end k (omega arith))

oneof_excludes : (h : Htype) → is_oneof h ≡ true → is_required h ≡ false
oneof_excludes Htype.required e = ground arith
oneof_excludes Htype.optional e = refl
oneof_excludes Htype.repeated e = refl
oneof_excludes Htype.oneof e = refl

advance_required :
    {P : Type 0} (prev field : Field P) (iter : Iter P)
    → (advance prev field iter).required_field_index
      ≡ iter.required_field_index + (if is_required prev.htype then 1 else 0)
unfolding advance
advance_required prev field iter = ground (arith, oneof_excludes prev.htype)

-- After `k` steps from the first of more than `k` descriptors `required_field_index` is the number of
-- required fields among the first `k`.
pub walk_counts :
    {P : Type 0} (fields : List (Field P)) (end : Field P) (dest_struct k : ℕ)
    → k < length fields
    → (walk fields end dest_struct k).required_field_index ≡ count_required fields k
unfolding walk count_required
walk_counts fields end dest_struct zero h = refl
walk_counts fields end dest_struct (suc k) h =
    let e = count_required-suc fields end k (omega arith) in
    omega (
      arith,
      advance_required (nth fields end k) (nth fields end (k + 1)) (walk fields end dest_struct k),
      walk_counts fields end dest_struct k (omega arith),
      e,
    )
