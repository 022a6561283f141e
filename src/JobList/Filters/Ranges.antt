-- ===== src/JobList/Filters/Ranges.antt =====
-- The bounds of a range, and the slices and ranges of Python.
use mathlib.Core.List.{reverse}
use autosubmit.Prelude.{
  take, drop, ℕ, zero, suc, ◌+◌, ◌-◌, ◌/◌, Bool, true, false, Option, none, some, List, [], ◌∷◌,
  length, ◌==◌, nat_eq, list_eq, if◌then◌else◌, min, Result, ok, err, value_error, ◌>>=◌,
}
use autosubmit.Prelude.Int.{ℤ, pos, negsuc, Text, ◌+ℤ◌, neg}
use autosubmit.Prelude.Texts.{split, strip}
use autosubmit.JobList.Distance.{get_elem, get_before}
use autosubmit.JobList.Filters.{Value, text, int, moment, Level, numbers_from, int_of_value}

-- A bound of a range, without its brackets.
unfoldable pub bound : Level → Text → Result Value
unfolding strip int_of_value
bound level s =
    let stripped = text (strip (b'[' ∷ b']' ∷ []) s) in
    if numbers_from level then (int_of_value stripped >>= λ z. ok (int z)) else ok stripped

-- `s.split(":")[n]`
unfoldable pub part : ℕ → Text → Result Text
unfolding split get_elem
part n s = get_elem (split b':' s) n

-- START, END and STEP of a range.
pub record Range : Type 0 where
  pub start : Option Value
  pub end : Option Value
  pub step : ℤ

-- `s[i] == ":"`, and `s[-i] == ":"`.
abbrev pub colon_at : Text → ℕ → Result Bool
colon_at s i = get_elem s i >>= λ c. ok (c == b':')

abbrev pub colon_before : Text → ℕ → Result Bool
colon_before s i = get_before s 0 i >>= λ c. ok (c == b':')

abbrev both : Result Bool → Result Bool → Result Bool
both a b = a >>= λ t. if t then b else ok false

abbrev from_start : Level → Text → ℤ → Result Range
from_start level s step = do
  a ← part 0 s
  start ← bound level a
  ok (record { start = some start; end = none; step = step })

abbrev to_end : Level → Text → ℤ → Result Range
to_end level s step = do
  b ← part 1 s
  end ← bound level b
  ok (record { start = none; end = some end; step = step })

abbrev pub bounds_of : Level → Text → ℤ → Result Range
bounds_of level s step = do
  a ← part 0 s
  b ← part 1 s
  start ← bound level a
  end ← bound level b
  ok (record { start = some start; end = some end; step = step })

-- `int(s.split(":")[2].strip("[]"))`, where the text has two colons.
abbrev step_of : Text → Result ℤ
step_of s = part 2 s >>= λ c. int_of_value (text (strip (b'[' ∷ b']' ∷ []) c))

-- One colon: [:N], [N:] or [N:M].
unfoldable pub range_of_two : Level → Text → Result Range
unfolding get_elem get_before part bound nat_eq
range_of_two level s = do
  opens ← colon_at s 1
  if opens then to_end level s (pos 1) else do
    closes ← colon_before s 2
    if closes then from_start level s (pos 1) else bounds_of level s (pos 1)

-- Two colons: [N::], [::S], [:M:] or [N:M:S].
unfoldable pub range_of_three : Level → Text → Result Range
unfolding get_elem get_before part bound nat_eq int_of_value strip
range_of_three level s = do
  closes ← both (colon_before s 2) (colon_before s 3)
  if closes then from_start level s (pos 1) else do
    opens ← both (colon_at s 1) (colon_at s 2)
    if opens
        then (step_of s >>= λ step. ok (record { start = none; end = none; step = step }))
        else do
          middle ← both (colon_at s 1) (colon_before s 2)
          if middle then to_end level s (pos 1) else step_of s >>= λ step. bounds_of level s step

module _ {A : Type 0} where
  -- Every `k + 1`-th element, from the one after the next `wait`.
  unfoldable pub every : ℕ → ℕ → List A → List A
  every k wait [] = []
  every k zero (x ∷ xs) = x ∷ every k k xs
  every k (suc wait) (x ∷ xs) = every k wait xs

  -- `xs[slice(a, b, step)]` for `a` and `b` that are not negative; a step of 0 is a ValueError.
  unfoldable pub slice : List A → ℕ → ℕ → ℤ → Result (List A)
  unfolding every
  slice xs a b (pos zero) = err value_error
  slice xs a b (pos (suc k)) = ok (every k 0 (take (b - a) (drop a xs)))
  slice xs a b (negsuc k) =
      let last = length xs - 1 in
      let stop = min b last in ok (every k 0 (take (a - stop) (drop (last - a) (reverse xs))))

-- `range(a, b, step)` of `n` numbers.
unfoldable pub range_from : ℕ → ℤ → ℤ → List Value
range_from zero a step = []
range_from (suc n) a step = int a ∷ range_from n (a +ℤ step) step

abbrev magnitude : ℤ → ℕ
magnitude (pos n) = n
magnitude (negsuc n) = 0

abbrev minus : ℤ → ℤ
minus (pos n) = neg n
minus (negsuc n) = pos (n + 1)

-- `list(range(a, b, step))`
unfoldable pub range : ℤ → ℤ → ℤ → Result (List Value)
unfolding range_from
range a b (pos zero) = err value_error
range a b (pos (suc k)) = ok (range_from ((magnitude (b +ℤ minus a) + k) / (k + 1)) a (pos (suc k)))
range a b (negsuc k) = ok (range_from ((magnitude (a +ℤ minus b) + k) / (k + 1)) a (negsuc k))

-- `not x`, of a start or an end.
unfoldable pub falsy : Option Value → Bool
falsy none = true
falsy (some (text [])) = true
falsy (some (text (c ∷ s))) = false
falsy (some (int (pos zero))) = true
falsy (some (int (pos (suc n)))) = false
falsy (some (int (negsuc n))) = false
falsy (some (moment d)) = false
