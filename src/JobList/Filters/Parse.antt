-- ===== src/JobList/Filters/Parse.antt =====
-- `_parse_filters_to_check` and `_parse_filter_to_check`: the values that a filter names.
use autosubmit.Prelude.{
  ◌+◌, ◌-◌, Option, none, some, List, [], ◌∷◌, ◌++◌, length, ◌==◌, nat_eq, list_eq, if◌then◌else◌,
  Result, ok, err, value_error, ◌>>=◌,
}
use autosubmit.Prelude.Int.{pos, Text, ◌+ℤ◌}
use autosubmit.Prelude.Texts.{lower, upper, is_in, count, split, replace}
use autosubmit.JobList.Distance.{index_of}
use autosubmit.JobList.Filters.{
  Value, text, int, value_eq, Level, about_splits, is_chunks_to, int_of_value,
}
use autosubmit.JobList.Filters.Ranges.{Range, range_of_two, range_of_three, slice, range, falsy}

abbrev pub auto_word : Text
auto_word = b'a' ∷ (b'u' ∷ (b't' ∷ (b'o' ∷ [])))

abbrev pub minus_one : Text
minus_one = b'-' ∷ (b'1' ∷ [])

abbrev pub last_word : Text
last_word = b'l' ∷ (b'a' ∷ (b's' ∷ (b't' ∷ [])))

abbrev pub all_word : Text
all_word = b'a' ∷ (b'l' ∷ (b'l' ∷ []))

abbrev pub none_word : Text
none_word = b'n' ∷ (b'o' ∷ (b'n' ∷ (b'e' ∷ [])))

abbrev pub natural_word : Text
natural_word = b'n' ∷ (b'a' ∷ (b't' ∷ (b'u' ∷ (b'r' ∷ (b'a' ∷ (b'l' ∷ []))))))

-- The words for the number of splits, replaced in the filters about splits.
unfoldable pub with_splits : Level → Text → Text → Text
unfolding is_in replace
with_splits level splits s =
    if about_splits level
    then if is_in auto_word s
      then replace auto_word splits s
      else if is_in minus_one s
      then replace minus_one splits s
      else if is_in last_word s
      then replace last_word splits s
      else s
    else s

-- `int(x)` where the level is CHUNKS_TO.
abbrev as_chunk : Level → Value → Result Value
as_chunk level v = if is_chunks_to level then (int_of_value v >>= λ z. ok (int z)) else ok v

-- `except ValueError`
abbrev on_value_error : {A : Type 0} → Result A → Result A → Result A
on_value_error (ok a) other = ok a
on_value_error (err value_error) other = other
on_value_error (err e) other = err e

abbrev pub or_else : Option Value → Value → Value
or_else none v = v
or_else (some w) v = w

unfoldable pub last_value : Value → List Value → Value
last_value v [] = v
last_value v (w ∷ ws) = last_value w ws

-- The values of a range among the listed ones.
unfoldable pub listed : Level → Range → Value → List Value → Result (List Value)
unfolding int_of_value value_eq index_of slice last_value
listed level r v vs =
    let xs = v ∷ vs in
    on_value_error
      (do
        start ← as_chunk level (or_else r.start v)
        end ← as_chunk level (or_else r.end (last_value v vs))
        i ← index_of xs start
        j ← index_of xs end
        slice xs i (j + 1) r.step)
      (slice xs 0 (length xs - 1) r.step)

-- The numbers of a range where no values are listed.
unfoldable pub numbers : Range → Result (List Value)
unfolding falsy int_of_value range
numbers r = if falsy r.end then ok [] else do
  start ← if falsy r.start then ok (pos 0) else int_of_value (or_else r.start (int (pos 0)))
  end ← int_of_value (or_else r.end (int (pos 0)))
  range start (end +ℤ pos 1) r.step

unfoldable pub values_of : Level → Range → List Value → Result (List Value)
unfolding listed numbers
values_of level r [] = numbers r
values_of level r (v ∷ vs) = listed level r v vs

-- `splits` is the text `str(splits)`.
unfoldable pub parse_filter_to_check : Text → List Value → Level → Text → Result (List Value)
unfolding with_splits count range_of_two range_of_three values_of
parse_filter_to_check s values level splits =
    let s' = with_splits level splits s in
    if count b':' s' == 1
    then (range_of_two level s' >>= λ r. values_of level r values)
    else if count b':' s' == 2
    then (range_of_three level s' >>= λ r. values_of level r values)
    else ok (text s' ∷ [])

-- `str(None)`, the number of splits where none is passed.
abbrev pub no_splits : Text
no_splits = b'N' ∷ (b'o' ∷ (b'n' ∷ (b'e' ∷ [])))

-- The loop over the filters between commas.
unfoldable pub parse_each : List Text → List Value → Level → List Value → Result (List Value)
unfolding parse_filter_to_check
parse_each [] values level final = ok final
parse_each (s ∷ ss) values level final = do
  more ← parse_filter_to_check s values level no_splits
  parse_each ss values level (final ++ more)

unfoldable pub parse_filters_to_check : Text → List Value → Level → Result (List Value)
unfolding upper lower count split parse_each parse_filter_to_check list_eq nat_eq
parse_filters_to_check s values level =
    let u = upper s in
    let l = lower u in
    if l == all_word
    then ok (text (upper all_word) ∷ [])
    else if l == none_word
    then ok (text (upper none_word) ∷ [])
    else if l == natural_word
    then ok (text (upper natural_word) ∷ [])
    else if is_in (b',' ∷ []) u
    then parse_each (split b',' u) values level []
    else parse_filter_to_check u values level no_splits
