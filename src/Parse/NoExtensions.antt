-- ===== src/Parse/NoExtensions.antt =====
-- In a table without extension fields `find_extension_field` comes back to where it started.
use bw_watermyplants.Common.{
  ℕ, zero, suc, ◌+◌, ◌<◌, ◌≡◌, ◌⊎◌, ap, List, some, true, false, arith, length, All, ◌==◌,
}
use bw_watermyplants.Field.{Field}
use bw_watermyplants.FieldIter.{is_extension}
use bw_watermyplants.FieldIter.Walk.{nth, walk, walk_keeps, here}
use bw_watermyplants.FieldIter.Find.{wrap, after_next}
use bw_watermyplants.Parse.Fields.{find_extension_loop}

module _ (fields : List (Field ℕ)) (end : Field ℕ) (tags : All (λ f. ¬ (f.tag ≡ 0)) fields)
    (ends : end.tag ≡ 0) (dest_struct : ℕ)
    (none_there : (k : ℕ) → k < length fields → is_extension (nth fields end k).ltype ≡ false) where
  pub find_extension_loop-none :
      (d fuel k p : ℕ)
      → d < fuel
      → k < length fields
      → p < length fields
      → d < length fields
      → (k + suc d ≡ p) ⊎ (k + suc d ≡ p + length fields)
      → find_extension_loop fuel p (walk fields end dest_struct k)
        ≡ some (false, walk fields end dest_struct p)
  unfolding find_extension_loop
  find_extension_loop-none d zero k p more hk hp hd round = absurd (omega arith)
  find_extension_loop-none zero (suc fuel) k p more hk hp hd round =
      let (b, e) = after_next fields end tags ends dest_struct 0 k hk in
      let back : wrap (length fields) (k + 1) ≡ p = ground arith in
      let at = (walk_keeps fields end tags ends dest_struct p).0 in
      let t : ((walk fields end dest_struct (wrap (length fields) (k + 1))).pos == p) ≡ true =
        rw back (ground arith) in
      rw
        (
          find_extension_loop,
          here fields end tags ends dest_struct k (omega arith),
          none_there k hk,
          e,
          t,
        )
        (ap (λ j. some (false, walk fields end dest_struct j)) back)
  find_extension_loop-none (suc d) (suc fuel) k p more hk hp hd round =
      let (b, e) = after_next fields end tags ends dest_struct 0 k hk in
      let at = (walk_keeps fields end tags ends dest_struct (wrap (length fields) (k + 1))).0 in
      let t : ((walk fields end dest_struct (wrap (length fields) (k + 1))).pos == p) ≡ false =
        rw at (ground arith) in
      rw
        (
          find_extension_loop,
          here fields end tags ends dest_struct k (omega arith),
          none_there k hk,
          e,
          t,
        )
        (find_extension_loop-none d fuel (wrap (length fields) (k + 1)) p (omega arith)
          (ground arith) hp (omega arith) (ground arith))
