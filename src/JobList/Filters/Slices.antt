-- ===== src/JobList/Filters/Slices.antt =====
-- The slices of the list of values that the ranges [N:M], [:M] and [N:] name.
use autosubmit.Prelude.{
  take, drop, ℕ, zero, suc, ◌+◌, ◌-◌, ◌≤◌, ◌≡◌, refl, ap, ◌∙◌, false, some, none, List, [], ◌∷◌,
  length, ==_self, nat_eq, ok, arith,
}
use autosubmit.Prelude.Int.{pos, Text}
use autosubmit.Prelude.Texts.{count}
use autosubmit.JobList.Distance.{index_of}
use autosubmit.JobList.Filters.{Value, text, value_eq, Level, about_splits, is_chunks_to}
use autosubmit.JobList.Filters.Ranges.{Range, range_of_two, every, slice}
use autosubmit.JobList.Filters.Parse.{
  with_splits, parse_filter_to_check, listed, values_of, last_value, or_else,
}
use autosubmit.JobList.Filters.Written.{
  IsName, ByText, written, count-written, range_of_two-written, range_of_two-to_end,
  range_of_two-from_start,
}

module _ {A : Type 0} where
  pub every_zero : (xs : List A) → every 0 0 xs ≡ xs
  unfolding every
  every_zero [] = refl
  every_zero (x ∷ xs) = ap (λ r. x ∷ r) (every_zero xs)

  take_long : (n : ℕ) (xs : List A) → length xs ≤ n → take n xs ≡ xs
  take_long zero [] h = refl
  take_long zero (x ∷ xs) h = absurd (omega arith)
  take_long (suc n) [] h = refl
  take_long (suc n) (x ∷ xs) h = ap (λ r. x ∷ r) (take_long n xs (omega arith))

  take-drop_long :
      (i : ℕ) (xs : List A) (n : ℕ) → length xs ≤ n + i → take n (drop i xs) ≡ drop i xs
  take-drop_long zero xs n h = take_long n xs (omega arith)
  take-drop_long (suc i) [] n h = take_long n [] (omega arith)
  take-drop_long (suc i) (x ∷ xs) n h = take-drop_long i xs n (omega arith)

-- The two bounds are found, and the step is 1.
listed_found :
    (level : Level) (r : Range) (v : Value) (vs : List Value) (i j : ℕ)
    → is_chunks_to level ≡ false
    → r.step ≡ pos 1
    → index_of (v ∷ vs) (or_else r.start v) ≡ ok i
    → index_of (v ∷ vs) (or_else r.end (last_value v vs)) ≡ ok j
    → values_of level r (v ∷ vs) ≡ ok (take (j + 1 - i) (drop i (v ∷ vs)))
unfolding values_of listed slice
listed_found level r v vs i j b st p q =
    rw (b, p, q, st) (ap ok (every_zero (take (j + 1 - i) (drop i (v ∷ vs)))))

pub parse_one :
    (level : Level) (s : Text) (values : List Value) (splits : Text) (r : Range)
    → about_splits level ≡ false
    → count b':' s ≡ 1
    → range_of_two level s ≡ ok r
    → parse_filter_to_check s values level splits ≡ values_of level r values
unfolding parse_filter_to_check with_splits nat_eq
parse_one level s values splits r b one two = rw (b, one, two) refl

index_of-first : (v : Value) (vs : List Value) → index_of (v ∷ vs) v ≡ ok 0
unfolding index_of
index_of-first v vs = rw (==_self v)

-- In a filter on dates or members, and for values of the list written without colons and brackets,
-- "[N:M]" names the values of the list from N to M, "[:M]" those from the first to M, and "[N:]"
-- those from N to the last one, where that one stands nowhere before.
pub parse_filter_to_check-written :
    (level : Level) (splits : Text) (v : Value) (vs : List Value) (s e : Text) (i j : ℕ)
    → ByText level
    → IsName s
    → IsName e
    → index_of (v ∷ vs) (text s) ≡ ok i
    → index_of (v ∷ vs) (text e) ≡ ok j
    → index_of (v ∷ vs) (last_value v vs) ≡ ok (length vs)
    → (parse_filter_to_check (written s e) (v ∷ vs) level splits
        ≡ ok (take (j + 1 - i) (drop i (v ∷ vs))))
      × (parse_filter_to_check (written [] e) (v ∷ vs) level splits ≡ ok (take (j + 1) (v ∷ vs)))
      × (parse_filter_to_check (written s []) (v ∷ vs) level splits ≡ ok (drop i (v ∷ vs)))
parse_filter_to_check-written level splits v vs s e i j b h k p q l = (
  parse_one level (written s e) (v ∷ vs) splits both_bounds b.1 (count-written s e h.1 k.1)
        (range_of_two-written level s e b h k)
      ∙ listed_found level both_bounds v vs i j b.2 refl p q,
  parse_one level (written [] e) (v ∷ vs) splits upper_bound b.1 (count-written [] e tt k.1)
        (range_of_two-to_end level e b k)
      ∙ (listed_found level upper_bound v vs 0 j b.2 refl (index_of-first v vs) q
          ∙ ap (λ n. ok (take n (v ∷ vs))) (omega arith)),
  parse_one level (written s []) (v ∷ vs) splits lower_bound b.1 (count-written s [] h.1 tt)
        (range_of_two-from_start level s b h)
      ∙ (listed_found level lower_bound v vs i (length vs) b.2 refl p l
          ∙ ap ok (take-drop_long i (v ∷ vs) (length vs + 1 - i) (omega arith))),
)
  where
    both_bounds : Range
    both_bounds = record { start = some (text s); end = some (text e); step = pos 1 }

    upper_bound : Range
    upper_bound = record { start = none; end = some (text e); step = pos 1 }

    lower_bound : Range
    lower_bound = record { start = some (text s); end = none; step = pos 1 }
