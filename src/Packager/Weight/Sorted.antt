-- ===== src/Packager/Weight/Sorted.antt =====
-- Sorting keeps the number of jobs.
use autosubmit.Prelude.{ℕ, suc, ◌+◌, ◌≡◌, refl, List, [], ◌∷◌, length, arith}
use autosubmit.Packager.Weight.{insert_sorted, sort_from, sorted}

module _ (key : ℕ → ℕ) where
  length-insert_sorted : (x : ℕ) (ys : List ℕ) → length (insert_sorted key x ys) ≡ suc (length ys)
  unfolding insert_sorted
  length-insert_sorted x [] = refl
  length-insert_sorted x (y ∷ ys) = ground (arith, length-insert_sorted x ys)

  length-sort_from : (xs done : List ℕ) → length (sort_from key xs done) ≡ length xs + length done
  unfolding sort_from
  length-sort_from [] done = omega arith
  length-sort_from (x ∷ xs) done =
      omega (arith, length-sort_from xs (insert_sorted key x done), length-insert_sorted x done)

  pub length-sorted : (xs : List ℕ) → length (sorted key xs) ≡ length xs
  unfolding sorted
  length-sorted xs = omega (arith, length-sort_from xs [])
