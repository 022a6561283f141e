-- ===== src/JobList/Filters/Check.antt =====
-- `_check_dates`, `_check_members`, `_check_chunks`, `_check_splits`, `_filter_current_job` and
-- `get_filters_to_apply`: the filters on the parents of a job.
use autosubmit.Prelude.{
  ℕ, Bool, true, false, ◌&&◌, ◌||◌, Option, none, some, List, [], ◌∷◌, ◌==◌, nat_eq, list_eq,
  if◌then◌else◌, Result, ok, ◌>>=◌,
}
use autosubmit.Prelude.Int.{Text, pos}
use autosubmit.Prelude.Texts.{lower}
use autosubmit.JobList.Filters.{
  Value, text, int, dates_from, members_from, chunks_from, splits_from,
}
use autosubmit.JobList.Filters.Parse.{none_word, natural_word, no_splits}
use autosubmit.JobList.Filters.Unify.{Filter, empty, unify_to_filters}
use autosubmit.JobList.Filters.Levels.{
  Relationship, relationship, LevelEntry, absent, level, Current, Known, filter_of, member_level,
  chunk_level, split_level, first_of, check_relationship,
}

-- `f.update(g)`
abbrev pub update_filter : Filter → Filter → Filter
update_filter f g = record {
  dates = first_of g.dates f.dates;
  members = first_of g.members f.members;
  chunks = first_of g.chunks f.chunks;
  splits = first_of g.splits f.splits;
  status = first_of g.status f.status;
  from_step = first_of g.from_step f.from_step;
}

-- `for f in filters: ...`, each dictionary by itself.
abbrev pub for_filters :
    (Relationship → Result Filter) → List (Option Relationship) → Result (List (Option Filter))
for_filters body [] = ok []
for_filters body (none ∷ rs) = for_filters body rs >>= λ fs. ok (none ∷ fs)
for_filters body (some r ∷ rs) = do f ← body r; fs ← for_filters body rs; ok (some f ∷ fs)

-- `if key in filter: filter.update(check({key: filter.pop(key)}))`
abbrev pub narrowed : (LevelEntry → Result Filter) → LevelEntry → Filter → Result Filter
narrowed check absent f = ok f
narrowed check (level status step rs) f =
    check (level status step rs) >>= λ g. ok (update_filter f g)

abbrev pub text_value : Option Text → Option Value
text_value none = none
text_value (some s) = some (text s)

abbrev pub number_value : Option ℕ → Option Value
number_value none = none
number_value (some n) = some (int (pos n))

-- The four checks, each with the STATUS and the FROM_STEP that stand beside its level.
module _ (k : Known) (current : Current) where
  unfoldable pub check_splits : Option Text → Option Value → LevelEntry → Result Filter
  unfolding check_relationship unify_to_filters
  check_splits status step lv = do
    rs ← check_relationship k splits_from (number_value current.split) status step lv
    fs ← for_filters (λ r. ok (filter_of r)) rs
    unify_to_filters k.lists current.splits fs

  unfoldable pub check_chunks : Option Text → Option Value → LevelEntry → Result Filter
  unfolding check_relationship unify_to_filters check_splits
  check_chunks status step lv = do
    rs ← check_relationship k chunks_from (number_value current.chunk) status step lv
    fs ← for_filters (λ r. narrowed (check_splits none none) (split_level r) (filter_of r)) rs
    unify_to_filters k.lists no_splits fs

  unfoldable pub check_members : Option Text → Option Value → LevelEntry → Result Filter
  unfolding check_relationship unify_to_filters check_splits check_chunks
  check_members status step lv = do
    rs ← check_relationship k members_from (text_value current.member) status step lv
    fs ←
        for_filters
          (λ r. do
            f ← narrowed (check_chunks none none) (chunk_level r) (filter_of r)
            narrowed (check_splits none none) (split_level r) f)
          rs
    unify_to_filters k.lists no_splits fs

  unfoldable pub check_dates : Option Text → Option Value → LevelEntry → Result Filter
  unfolding check_relationship unify_to_filters check_splits check_chunks check_members
  check_dates status step lv = do
    rs ← check_relationship k dates_from (some (text current.date)) status step lv
    fs ←
        for_filters
          (λ r. do
            f ← narrowed (check_members none none) (member_level r) (filter_of r)
            g ← narrowed (check_chunks none none) (chunk_level r) f
            narrowed (check_splits none none) (split_level r) g)
          rs
    unify_to_filters k.lists no_splits fs

  -- The first level that the relationship has decides; without one the relationship is the filter.
  unfoldable pub filter_current_job : Option Relationship → Result Filter
  unfolding check_dates check_members check_chunks check_splits
  filter_current_job none = ok empty
  filter_current_job (some (relationship f absent absent absent absent)) = ok f
  filter_current_job (some (relationship f absent absent absent s)) =
      check_splits f.status f.from_step s
  filter_current_job (some (relationship f absent absent c s)) = check_chunks f.status f.from_step c
  filter_current_job (some (relationship f absent m c s)) = check_members f.status f.from_step m
  filter_current_job (some (relationship f d m c s)) = check_dates f.status f.from_step d

-- `d.get(key, "none") == "none"`
says_none : Option Text → Bool
unfolding list_eq nat_eq
says_none none = true
says_none (some s) = s == none_word

-- `f_value.lower() != "natural"` ends the loop; a key that is absent is not visited.
says_natural : Option Text → Bool
unfolding lower list_eq nat_eq
says_natural none = true
says_natural (some s) = lower s == natural_word

-- The dictionary without STATUS and FROM_STEP; it is empty where only a FROM_STEP is given, and where
-- every value is "natural".
unfoldable pub trim_filter : Filter → Filter
unfolding says_none says_natural
trim_filter f =
    let no_filter =
      (says_none f.chunks && says_none f.members) && (says_none f.dates && says_none f.splits) in
    let all_natural =
      (says_natural f.dates && says_natural f.members)
      && (says_natural f.chunks && says_natural f.splits) in
    if (has_step f.from_step && no_filter) || all_natural
    then empty
    else record f { status = none; from_step = none }
  where
    has_step : Option Value → Bool
    has_step none = false
    has_step (some v) = true

unfoldable pub get_filters_to_apply : Known → Current → Option Relationship → Result Filter
unfolding filter_current_job trim_filter
get_filters_to_apply k current r = do f ← filter_current_job k current r; ok (trim_filter f)
