-- ===== src/JobList/Filters/Elements.antt =====
-- `_unify_to_filter` and `_normalize_to_filters`: the filters on parents of one type, as one text.
use autosubmit.Prelude.{
  drop, ℕ, Bool, true, false, not, ◌&&◌, ◌||◌, Option, none, some, List, [], ◌∷◌, ◌++◌, length, any,
  ◌==◌, nat_eq, list_eq, leb, if◌then◌else◌, Result, ok, err, index_error, ◌>>=◌, for_each,
}
use autosubmit.Prelude.Int.{Text}
use autosubmit.Prelude.Texts.{lower, is_in, split, decimal}
use autosubmit.JobList.Filters.{Value, text, int, moment, Level, dates_to, members_to, chunks_to}
use autosubmit.JobList.Filters.Parse.{
  all_word, none_word, natural_word, no_splits, parse_filter_to_check,
}

-- The lists of the job list, and `str` of a date.
pub record KnownLists : Type 0 where
  pub date_list : List Value
  pub member_list : List Value
  pub chunk_list : List Value
  pub str_of_date : ℕ → Text

is_class_char : ℕ → Bool
unfolding nat_eq
is_class_char c =
    (leb b'a' c && leb c b'z')
    || (leb b'A' c && leb c b'Z')
    || (leb b'0' c && leb c b'9')
    || (c == b'[' || c == b':' || c == b']')
    || (c == b'.' || c == b'_' || c == b'-')

class_run : Text → Text
unfolding is_class_char
class_run [] = []
class_run (c ∷ s) = let rest = class_run s in if is_class_char c then c ∷ rest else []

-- `re.findall(r"([\[:\]a-zA-Z0-9._-]+)", s)[0]`
unfoldable pub first_match : Text → Result Text
unfolding class_run is_class_char
first_match [] = err index_error
first_match (c ∷ s) =
    let rest = first_match s in if is_class_char c then ok (class_run (c ∷ s)) else rest

-- `str(x)`
unfoldable pub str_of : (ℕ → Text) → Value → Text
unfolding decimal
str_of str_of_date (text s) = s
str_of str_of_date (int z) = decimal z
str_of str_of_date (moment d) = str_of_date d

-- `type(x) is str and x.lower() in ["natural", "none"]`
unfoldable pub is_weak_word : Value → Bool
unfolding lower list_eq nat_eq
is_weak_word (text s) = lower s == natural_word || lower s == none_word
is_weak_word (int z) = false
is_weak_word (moment d) = false

-- The loop over the values that one element stands for.
unfoldable pub append_values : (ℕ → Text) → Text → List Value → Text → Text
unfolding str_of is_in
append_values str_of_date extra [] u = u
append_values str_of_date extra (v ∷ vs) u =
    let whole = str_of str_of_date v ++ (extra ++ (b',' ∷ [])) in
    append_values str_of_date extra vs (if is_in whole u then u else u ++ whole)

has_no_text : Text → Bool
has_no_text [] = true
has_no_text (c ∷ s) = false

-- `value_list`, by the type of the filter.
abbrev pub list_of : KnownLists → Level → List Value
list_of l dates_to = l.date_list
list_of l members_to = l.member_list
list_of l chunks_to = l.chunk_list
list_of l _ = []

-- The body of the loop over the elements between commas.
unfoldable pub append_element : KnownLists → Level → Text → Text → Text → Result Text
unfolding has_no_text first_match lower parse_filter_to_check is_weak_word append_values
append_element l level splits element u = if has_no_text element then ok u else do
  found ← first_match element
  values ← parse_filter_to_check (lower found) (list_of l level) level splits
  ok (
      if any is_weak_word values && not (has_no_text u)
      then u
      else append_values l.str_of_date (drop (length found) element) values u)

ends_with_comma : Text → Bool
unfolding nat_eq
ends_with_comma [] = false
ends_with_comma (c ∷ []) = c == b','
ends_with_comma (c ∷ (d ∷ s)) = ends_with_comma (d ∷ s)

-- `str(filter_to.pop(filter_type, None))`
abbrev pub popped : Option Text → Text
popped none = no_splits
popped (some s) = s

unfoldable pub comma_after : Text → Text
unfolding has_no_text ends_with_comma
comma_after u = if not (has_no_text u) && not (ends_with_comma u) then u ++ (b',' ∷ []) else u

-- `_unify_to_filter`, on the text of one type.
unfoldable pub unify_to_filter : KnownLists → Level → Text → Option Text → Text → Result Text
unfolding comma_after lower is_in split append_element
unify_to_filter l level splits value u =
    let u' = comma_after u in
    if is_in all_word (lower u')
    then ok u'
    else for_each (append_element l level splits) (split b',' (popped value)) u'

without_last : Text → Text
without_last [] = []
without_last (c ∷ []) = []
without_last (c ∷ (d ∷ s)) = c ∷ without_last (d ∷ s)

without_first_comma : Text → Text
unfolding nat_eq
without_first_comma [] = []
without_first_comma (c ∷ s) = if c == b',' then s else c ∷ s

-- A comma at the end and one at the start are deleted; nothing is left to index in a lone comma.
unfoldable pub without_commas : Text → Text
unfolding ends_with_comma without_last without_first_comma
without_commas s = without_first_comma (if ends_with_comma s then without_last s else s)

-- `_normalize_to_filters`, on the text of one type; `none` where the key is popped.
unfoldable pub normalize_to_filter : Text → Option Text
unfolding has_no_text list_eq nat_eq is_in without_commas
normalize_to_filter u =
    if has_no_text u || u == (b',' ∷ [])
    then none
    else if is_in all_word u
    then some all_word
    else some (without_commas u)
