-- ===== src/FieldIter/Fuel.antt =====
-- `pb_field_iter_find` with one round more than there are fields.
use bw_watermyplants.Common.{
  ℕ, zero, suc, ◌<◌, ◌≡◌, inl, inr, List, Option, none, some, Bool, true, false, arith, length, All,
  ◌==◌, if◌then◌else◌, get_elem?,
}
use bw_watermyplants.Field.{Field}
use bw_watermyplants.FieldIter.{Iter, next, is_wanted, find_loop, find}
use bw_watermyplants.FieldIter.Walk.{walk}
use bw_watermyplants.FieldIter.Find.{find_searches}

module _ {P : Type 0} where
  pub find_loop_more :
      (d p tag : ℕ) (iter : Iter P) (r : Bool × Iter P)
      → find_loop d p tag iter ≡ some r
      → find_loop (suc d) p tag iter ≡ some r
  unfolding find_loop
  find_loop_more zero p tag iter r h = absurd (ground arith)
  find_loop_more (suc d) p tag iter r h =
      at_field (λ iter' e. find_loop_more d p tag iter' r e) (get_elem? iter.start iter.pos) h
    where
      Round : ℕ → Bool → Iter P → Option (Bool × Iter P)
      Round fuel b iter' = if b then some (false, iter') else find_loop fuel p tag iter'

      Again : Type 0
      Again =
          (iter' : Iter P)
          → find_loop d p tag iter' ≡ some r
          → find_loop (suc d) p tag iter' ≡ some r

      at_test :
          Again
          → (b : Bool) (iter' : Iter P) → Round d b iter' ≡ some r
          → Round (suc d) b iter' ≡ some r
      at_test again true iter' e = e
      at_test again false iter' e = again iter' e

      Step : ℕ → Option (Bool × Iter P) → Option (Bool × Iter P)
      Step fuel o = elim o [ none ↦ none | some (b, iter') ↦ Round fuel (iter'.pos == p) iter' ]

      at_next : Again → (o : Option (Bool × Iter P)) → Step d o ≡ some r → Step (suc d) o ≡ some r
      at_next again none e = e
      at_next again (some (b, iter')) e = at_test again (iter'.pos == p) iter' e

      Wanted : ℕ → Bool → Option (Bool × Iter P)
      Wanted fuel b = if b then some (true, iter) else Step fuel (next iter)

      at_wanted : Again → (b : Bool) → Wanted d b ≡ some r → Wanted (suc d) b ≡ some r
      at_wanted again true e = e
      at_wanted again false e = at_next again (next iter) e

      Whole : ℕ → Option (Field P) → Option (Bool × Iter P)
      Whole fuel o = elim o [ none ↦ none | some field ↦ Wanted fuel (is_wanted tag field) ]

      at_field : Again → (o : Option (Field P)) → Whole d o ≡ some r → Whole (suc d) o ≡ some r
      at_field again none e = e
      at_field again (some field) e = at_wanted again (is_wanted tag field) e

module _ {P : Type 0} (fields : List (Field P)) (end : Field P)
    (tags : All (λ f. ¬ (f.tag ≡ 0)) fields) (ends : end.tag ≡ 0) (dest_struct tag p : ℕ)
    (hp : p < length fields) where
  -- The iterator that `pb_field_iter_find` leaves is one of the round.
  pub find_stays :
      (b : Bool) × (q : ℕ) × (q < length fields)
      × (find (suc (length fields)) tag (walk fields end dest_struct p)
          ≡ some (b, walk fields end dest_struct q))
  unfolding find
  find_stays = elim (find_searches fields end tags ends dest_struct tag p hp) [
    | inl (q, inside, wanted, e) ↦ (true, q, inside, find_loop_more (length fields) _ tag _ _ e)
    | inr (others, e) ↦ (false, p, hp, find_loop_more (length fields) _ tag _ _ e)
  ]
