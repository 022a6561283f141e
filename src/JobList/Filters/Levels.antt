-- ===== src/JobList/Filters/Levels.antt =====
-- `_check_relationship`: the ranges of a level that are about a job.
use autosubmit.Prelude.{
  ℕ, Bool, false, ◌||◌, Option, none, some, List, [], ◌∷◌, ◌==◌, nat_eq, list_eq, any, map,
  if◌then◌else◌, Result, ok, ◌>>=◌,
}
use autosubmit.Prelude.Int.{Text}
use autosubmit.Prelude.Texts.{lower, strip}
use autosubmit.JobList.Filters.{Value, Level, dates_from, members_from, chunks_from}
use autosubmit.JobList.Filters.Ranges.{falsy}
use autosubmit.JobList.Filters.Parse.{all_word, none_word, natural_word, parse_filters_to_check}
use autosubmit.JobList.Filters.Elements.{KnownLists, str_of}
use autosubmit.JobList.Filters.Unify.{Filter}

-- A relationship: its filters on the parents, and what stands under its keys DATES_FROM,
-- MEMBERS_FROM, CHUNKS_FROM and SPLITS_FROM. Such a level maps ranges to relationships, beside a
-- STATUS and a FROM_STEP of its own.
mutual
  pub data Relationship : Type 0 where
    relationship : Filter → LevelEntry → LevelEntry → LevelEntry → LevelEntry → Relationship

  pub data LevelEntry : Type 0 where
    absent : LevelEntry
    level : Option Text → Option Value → Ranges → LevelEntry

  pub data Ranges : Type 0 where
    end : Ranges
    range : Text → Relationship → Ranges → Ranges

abbrev pub filter_of : Relationship → Filter
filter_of (relationship f d m c s) = f

abbrev pub member_level : Relationship → LevelEntry
member_level (relationship f d m c s) = m

abbrev pub chunk_level : Relationship → LevelEntry
chunk_level (relationship f d m c s) = c

abbrev pub split_level : Relationship → LevelEntry
split_level (relationship f d m c s) = s

-- The values of the job; `date` is `date2str(job.date)` and `splits` is `str(job.splits)`.
pub record Current : Type 0 where
  pub date : Text
  pub member : Option Text
  pub chunk : Option ℕ
  pub split : Option ℕ
  pub splits : Text

-- The lists, with the dates as `date2str(date, "%Y%m%d")`.
pub record Known : Type 0 where
  pub lists : KnownLists
  pub date_texts : List Value

abbrev pub known_values : Known → Level → List Value
known_values k dates_from = k.date_texts
known_values k members_from = k.lists.member_list
known_values k chunks_from = k.lists.chunk_list
known_values k _ = []

-- `x if x else default`, of the STATUS and the FROM_STEP of a filter.
abbrev pub or_text : Option Text → Option Text → Option Text
or_text none t = t
or_text (some []) t = t
or_text (some (c ∷ s)) t = some (c ∷ s)

unfoldable pub or_value : Option Value → Option Value → Option Value
unfolding falsy
or_value v w = if falsy v then w else v

abbrev pub with_defaults : Option Text → Option Value → Filter → Filter
with_defaults status step f = record f {
  status = or_text f.status status;
  from_step = or_value f.from_step step;
}

-- `str(value).strip(" ").casefold()`
unfoldable pub comparable : (ℕ → Text) → Value → Text
unfolding str_of strip lower
comparable str_of_date v = lower (strip (b' ' ∷ []) (str_of str_of_date v))

unfoldable pub is_keyword : Text → Bool
unfolding lower list_eq nat_eq
is_keyword s = lower s == all_word || (lower s == natural_word || lower s == none_word)

matches : (ℕ → Text) → Option Value → List Value → Bool
unfolding comparable list_eq nat_eq
matches str_of_date none vs = false
matches str_of_date (some w) vs = any (λ v. comparable str_of_date v == comparable str_of_date w) vs

-- `included`, for the job's value.
unfoldable pub is_included : (ℕ → Text) → Text → Option Value → List Value → Bool
unfolding is_keyword falsy matches
is_included str_of_date name value selected =
    is_keyword name || falsy value || matches str_of_date value selected

unfoldable pub with_status : Option Text → Option Value → Relationship → Relationship
unfolding or_value
with_status status step (relationship f d m c s) =
    relationship (with_defaults status step f) d m c s

-- The loop over the ranges of a level.
unfoldable pub select_ranges :
    Known → Level → Option Value → Option Text → Option Value → Ranges → Result (List Relationship)
unfolding parse_filters_to_check is_included with_status
select_ranges k lv value status step end = ok []
select_ranges k lv value status step (range name r rs) = do
  selected ← parse_filters_to_check name (known_values k lv) lv
  rest ← select_ranges k lv value status step rs
  ok (
      if is_included k.lists.str_of_date name value selected
      then with_status status step r ∷ rest
      else rest)

-- `[{}]` where no range is about the job.
abbrev pub or_no_filter : List Relationship → List (Option Relationship)
or_no_filter [] = none ∷ []
or_no_filter (r ∷ rs) = map some (r ∷ rs)

-- `d.get(key, b)`
abbrev pub first_of : {A : Type 0} → Option A → Option A → Option A
first_of none b = b
first_of (some a) b = some a

-- `_check_relationship`, with the STATUS and the FROM_STEP beside the level as defaults.
unfoldable pub check_relationship :
    Known
    → Level
    → Option Value
    → Option Text
    → Option Value
    → LevelEntry
    → Result (List (Option Relationship))
unfolding select_ranges
check_relationship k lv value status step absent = ok (none ∷ [])
check_relationship k lv value status step (level own_status own_step rs) =
    select_ranges k lv value (first_of own_status status) (first_of own_step step) rs
    >>= λ selected. ok (or_no_filter selected)
