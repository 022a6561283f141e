-- ===== src/JobList/Filters/Unify.antt =====
-- `_unify_to_filters`: the filters on parents that apply to a job, as one dictionary.
use autosubmit.Prelude.{
  ℕ, suc, ◌+◌, Bool, true, false, Option, none, some, List, [], ◌∷◌, map, ◌==◌, nat_eq, list_eq,
  if◌then◌else◌, Result, ok, err, attribute_error, ◌>>=◌, for_each,
}
use autosubmit.Prelude.Int.{Text}
use autosubmit.Prelude.Texts.{lower}
use autosubmit.JobList.Filters.{Value, text, dates_to, members_to, chunks_to, splits_to}
use autosubmit.JobList.Filters.Ranges.{falsy}
use autosubmit.JobList.Filters.Parse.{none_word, no_splits}
use autosubmit.JobList.Filters.Elements.{KnownLists, unify_to_filter, normalize_to_filter}

-- The keys of a filter that are not about its own values. Only a FROM_STEP is not a string.
pub record Filter : Type 0 where
  pub dates : Option Text
  pub members : Option Text
  pub chunks : Option Text
  pub splits : Option Text
  pub status : Option Text
  pub from_step : Option Value

-- `{}`
abbrev pub empty : Filter
empty = record {
  dates = none;
  members = none;
  chunks = none;
  splits = none;
  status = none;
  from_step = none;
}

-- The texts of the four types, and the first STATUS and FROM_STEP that are truthy.
pub record Unified : Type 0 where
  pub dates : Text
  pub members : Text
  pub chunks : Text
  pub splits : Text
  pub status : Option Text
  pub from_step : Option Value

abbrev pub first_text : Option Text → Option Text → Option Text
first_text (some s) t = some s
first_text none (some []) = none
first_text none t = t

abbrev pub first_value : Option Value → Option Value → Option Value
first_value (some v) w = some v
first_value none w = if falsy w then none else w

-- The body of the loop over the filters that apply; `none` is an empty dictionary.
unfoldable pub unify_one : KnownLists → Text → Option Filter → Unified → Result Unified
unfolding unify_to_filter falsy
unify_one l splits none u = ok u
unify_one l splits (some f) u = do
  dates ← unify_to_filter l dates_to no_splits f.dates u.dates
  members ← unify_to_filter l members_to no_splits f.members u.members
  chunks ← unify_to_filter l chunks_to no_splits f.chunks u.chunks
  split_texts ← unify_to_filter l splits_to splits f.splits u.splits
  ok (record {
    dates = dates;
    members = members;
    chunks = chunks;
    splits = split_texts;
    status = first_text u.status f.status;
    from_step = first_value u.from_step f.from_step;
  })

abbrev pub nothing_unified : Unified
nothing_unified = record {
  dates = [];
  members = [];
  chunks = [];
  splits = [];
  status = none;
  from_step = none;
}

-- `value.lower()` of a FROM_STEP, which an integer does not have.
lower_step : Option Value → Result (Option Text)
unfolding lower
lower_step none = ok none
lower_step (some (text s)) = ok (some (lower s))
lower_step (some _) = err attribute_error

unfoldable pub is_none_word : Option Text → Bool
unfolding lower list_eq nat_eq
is_none_word none = false
is_none_word (some s) = lower s == none_word

abbrev pub unless : {A : Type 0} → Bool → Option A → Option A
unless true a = none
unless false a = a

count_true : List Bool → ℕ
count_true [] = 0
count_true (true ∷ bs) = suc (count_true bs)
count_true (false ∷ bs) = count_true bs

keep_some : Filter → ℕ → Bool → Filter
unfolding is_none_word nat_eq
keep_some f n step = if n == 4 then f else record {
  dates = unless (is_none_word f.dates) f.dates;
  members = unless (is_none_word f.members) f.members;
  chunks = unless (is_none_word f.chunks) f.chunks;
  splits = unless (is_none_word f.splits) f.splits;
  status = unless (is_none_word f.status) f.status;
  from_step = unless step f.from_step;
}

-- How many of the first five values are "none".
none_words : Filter → ℕ
unfolding count_true is_none_word
none_words f =
    count_true
      (map is_none_word (f.dates ∷ (f.members ∷ (f.chunks ∷ (f.splits ∷ (f.status ∷ []))))))

-- All "none" values are removed, unless there are four of them.
unfoldable pub drop_none : Filter → Result Filter
unfolding lower_step is_none_word count_true none_words keep_some
drop_none f = do
  step ← lower_step f.from_step
  ok (keep_some f (none_words f + count_true (is_none_word step ∷ [])) (is_none_word step))

unfoldable pub unify_to_filters : KnownLists → Text → List (Option Filter) → Result Filter
unfolding unify_one normalize_to_filter drop_none
unify_to_filters l splits filters = do
  u ← for_each (unify_one l splits) filters nothing_unified
  drop_none (record {
    dates = normalize_to_filter u.dates;
    members = normalize_to_filter u.members;
    chunks = normalize_to_filter u.chunks;
    splits = normalize_to_filter u.splits;
    status = u.status;
    from_step = u.from_step;
  })
