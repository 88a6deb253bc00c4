-- ===== src/Base64/Loop.antt =====
-- The loop of `f_b64_ntop` writes the groups of its input, where there is room for them.
use bw_watermyplants.Common.{
  ℕ, ◌+◌, ◌*◌, ◌/◌, ◌^◌, ◌≤◌, ◌<◌, ◌≡◌, refl, ◌∙◌, List, [], ◌∷◌, ◌++◌, arith, ltb, leb, true,
  false, u64, Bool-cases, inl, inr, length, length-append, append_assoc, append-nil,
}
use bw_watermyplants.Base64.Ntop.{
  Written, failed, encoded, quad, quad_one, quad_two, pad, terminate, ntop_loop,
}

-- The groups of four characters that the loop makes of a list of bytes
unfoldable pub groups : List ℕ → List ℕ
groups [] = []
groups (a ∷ []) = quad_one a
groups (a ∷ b ∷ []) = quad_two a b
groups (a ∷ b ∷ c ∷ src) = quad a b c ++ groups src

-- Four characters for every three bytes or part of three bytes
pub length-groups : (src : List ℕ) → length (groups src) ≡ (length src + 2) / 3 * 4
unfolding groups quad quad_one quad_two
length-groups [] = refl
length-groups (a ∷ []) = refl
length-groups (a ∷ b ∷ []) = refl
length-groups (a ∷ b ∷ c ∷ src) = omega (arith, length-groups src)

module _ (targsize : ℕ) (wide : targsize + 4 < 2 ^ 64) where
  terminate_fits :
      (target : List ℕ) → length target < targsize → terminate target targsize ≡ encoded target
  unfolding terminate
  terminate_fits target h = let t : leb targsize (length target) ≡ false = ground arith in rw t

  pad_fits :
      (group target : List ℕ)
      → length group ≡ 4
      → length target + 4 < targsize
      → pad group target targsize ≡ encoded (target ++ group)
  unfolding pad
  pad_fits group target four h =
      let t : ltb targsize (u64 (length target + 4)) ≡ false = ground arith in
      rw t (terminate_fits (target ++ group) (omega (arith, length-append target group)))

  pub ntop_loop-groups :
      (src target : List ℕ)
      → length target + length (groups src) < targsize
      → ntop_loop src target targsize ≡ encoded (target ++ groups src)
  unfolding ntop_loop groups quad quad_one quad_two
  ntop_loop-groups [] target h = rw append-nil (terminate_fits target (omega arith))
  ntop_loop-groups (a ∷ []) target h = pad_fits (quad_one a) target refl (omega arith)
  ntop_loop-groups (a ∷ b ∷ []) target h = pad_fits (quad_two a b) target refl (omega arith)
  ntop_loop-groups (a ∷ b ∷ c ∷ src) target h =
      let t : ltb targsize (u64 (length target + 4)) ≡ false = ground arith in
      rw t (
        ntop_loop-groups src (target ++ quad a b c)
          (omega (arith, length-append target (quad a b c)))
        ∙ rw append_assoc)

  -- -1 with no more written than there is room for
  abbrev pub Fails : Written → Type 0
  Fails o = (w : List ℕ) × (o ≡ failed w) × (length w ≤ targsize)

  terminate-Fails :
      (target : List ℕ)
      → targsize ≤ length target
      → length target ≤ targsize
      → Fails (terminate target targsize)
  unfolding terminate
  terminate-Fails target h k =
      let t : leb targsize (length target) ≡ true = ground arith in (target, rw t, k)

  pad-Fails :
      (group target : List ℕ)
      → length group ≡ 4
      → length target ≤ targsize
      → targsize ≤ length target + 4
      → Fails (pad group target targsize)
  unfolding pad
  pad-Fails group target four k h = elim (Bool-cases (ltb targsize (u64 (length target + 4)))) [
    | inl full ↦ (target, rw full, k)
    | inr room ↦ rw room (
        terminate-Fails (target ++ group) (omega (arith, length-append target group))
          (ground (arith, length-append target group)))
  ]

  pub ntop_loop-Fails :
      (src target : List ℕ)
      → length target ≤ targsize
      → targsize ≤ length target + length (groups src)
      → Fails (ntop_loop src target targsize)
  unfolding ntop_loop groups quad quad_one quad_two
  ntop_loop-Fails [] target k h = terminate-Fails target (omega arith) k
  ntop_loop-Fails (a ∷ []) target k h = pad-Fails (quad_one a) target refl k (omega arith)
  ntop_loop-Fails (a ∷ b ∷ []) target k h = pad-Fails (quad_two a b) target refl k (omega arith)
  ntop_loop-Fails (a ∷ b ∷ c ∷ src) target k h =
      elim (Bool-cases (ltb targsize (u64 (length target + 4)))) [
        | inl full ↦ (target, rw full, k)
        | inr room ↦ rw room (
            ntop_loop-Fails src (target ++ quad a b c)
              (ground (arith, length-append target (quad a b c)))
              (omega (arith, length-append target (quad a b c))))
      ]
