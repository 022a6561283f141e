-- ===== src/JobList/Graph/Filtered.antt =====
-- `_calculate_filter_dependencies` of class `JobList` (autosubmit/job/job_list.py): the edges from the
-- parents that the filters of a dependency select.
pub mod Edges
pub mod Steps
pub mod Selected
pub mod Passed
pub mod Chosen
use autosubmit.Prelude.{
  ℕ, zero, suc, String, Bool, true, false, not, ◌&&◌, ◌||◌, Option, none, some, List, [], ◌∷◌, ◌++◌,
  ◌==◌, nat_eq, string_eq, option_eq, list_eq, contains, filter, if◌then◌else◌, Result, ok, err,
  type_error, ◌>>=◌, for_each, Map, get_key, set_key,
}
use autosubmit.Prelude.Int.{ℤ, pos, negsuc, positive, Text}
use autosubmit.Prelude.Texts.{lower}
use autosubmit.JobList.State.{JobList, job}
use autosubmit.JobList.Distance.{get_before}
use autosubmit.JobList.Filters.Parse.{all_word, none_word}
use autosubmit.JobList.Filters.Unify.{Filter, empty}
use autosubmit.JobList.Graph.Context.{Context, Coordinates}
use autosubmit.JobList.Graph.Frequency.{handle_frequency_interval_dependencies}
use autosubmit.JobList.Graph.Natural.{GraphState, add_edge}

-- What only the dependencies with filters read. The parents are those of
-- `DicJobs.get_jobs_filtered`, from the filters of the job and from those of the parent.
pub record Filtering : Type 0 where
  pub find_filtered : String → Filter → Coordinates → Filter → List ℕ
  -- `self._filter_current_job(job, dependencies_of_that_section.get(section))`
  pub filters_of_parent : String → Result Filter
  -- The attributes `split` and `splits`.
  pub split_of : ℕ → Option ℤ
  pub splits_of : ℕ → Option ℤ
  -- `self.depends_on_previous_chunk.get(section)`
  pub previous_chunk : String → Option ℕ
  pub dependencies_keys_without_special_chars : List String

-- The graph, `special_dependencies`, `self.actual_job_depends_on_special_chunk`, and
-- `self.depends_on_previous_special_section`, whose keys are names of jobs and of sections.
pub record FilterState : Type 0 where
  pub built : GraphState
  pub special_dependencies : List ℕ
  pub depends_on_special_chunk : Bool
  pub special_of_job : Map ℕ (List ℕ)
  pub special_of_section : Map String (List ℕ)
  pub previous_split : Map String ℤ

-- `s.add(x)`, and `s.update(xs)`.
unfoldable pub add_name : ℕ → List ℕ → List ℕ
unfolding nat_eq
add_name x xs = if contains xs x then xs else xs ++ (x ∷ [])

unfoldable pub add_names : List ℕ → List ℕ → List ℕ
unfolding add_name
add_names [] s = s
add_names (x ∷ xs) s = add_names xs (add_name x s)

abbrev pub or_none : Option (List ℕ) → List ℕ
or_none none = []
or_none (some xs) = xs

-- `str(value).lower() == word`, of the values that are there.
unfoldable pub says : Text → Option Text → Bool
unfolding lower list_eq nat_eq
says w none = false
says w (some s) = lower s == w

unfoldable pub says_other : Text → Option Text → Bool
unfolding lower list_eq nat_eq
says_other w none = false
says_other w (some s) = not (lower s == w)

unfoldable pub all_none : Filter → Bool
unfolding says_other
all_none f = not (
    (says_other none_word f.dates || says_other none_word f.members)
    || (says_other none_word f.chunks || says_other none_word f.splits))

unfoldable pub any_all_filter : Filter → Bool
unfolding says
any_all_filter f =
    (says all_word f.dates || says all_word f.members)
    || (says all_word f.chunks || says all_word f.splits)

-- `parent.chunk and parent.chunk != previous.get(parent.section, parent.chunk)`
unfoldable pub is_other_chunk : Option ℕ → Option ℕ → Bool
unfolding nat_eq
is_other_chunk none previous = false
is_other_chunk (some zero) previous = false
is_other_chunk (some (suc k)) none = false
is_other_chunk (some (suc k)) (some n) = not (suc k == n)

module _ (c : Context) (f : Filtering) (l : JobList) (r : ℕ) where
  -- `chunk_list[-1]` is only read for a parent that runs by chunks.
  unfoldable pub is_inner_chunk : ℕ → Result Bool
  unfolding get_before string_eq option_eq nat_eq
  is_inner_chunk p =
      if (job l p).running_kind == "chunk"
      then (get_before c.chunk_list 0 1 >>= λ last. ok (
          not ((job l p).chunk == some last)
          && contains (c.dependency_map (job l p).section) (job l p).section))
      else ok false

  -- A parent that an "all" filter passes over.
  unfoldable pub is_passed_over : FilterState → ℕ → Result Bool
  unfolding is_other_chunk is_inner_chunk nat_eq
  is_passed_over s p =
      if is_other_chunk (job l p).chunk (f.previous_chunk (job l p).section)
      then ok true
      else (is_inner_chunk p >>= λ inner. ok (
          inner
          || (c.depends_on_previous_chunk
              || (s.depends_on_special_chunk || contains s.special_dependencies p))))

  -- `if not job.splits or int(job.splits) > 0: ... = int(parent.split)`
  unfoldable pub note_split : ℕ → FilterState → Result FilterState
  unfolding set_key string_eq
  note_split p s = elim (counts (f.splits_of r)) [
    | false ↦ ok s
    | true ↦ elim (f.split_of p) [
      | none ↦ err type_error
      | some n ↦ ok (record s { previous_split = set_key (job l r).section n s.previous_split })
    ]
  ]
    where
      counts : Option ℤ → Bool
      counts none = true
      counts (some (pos n)) = true
      counts (some (negsuc n)) = false

  -- Whether the edge is added. `job.split` is only read for a parent that is special for the section.
  unfoldable pub takes_edge : ℕ → FilterState → Result Bool
  unfolding get_key string_eq nat_eq
  takes_edge p s =
      let same = (job l p).section == (job l r).section in
      if c.depends_on_previous_chunk && same
      then ok true
      else if not (contains (or_none (get_key (job l r).section s.special_of_section)) p)
      then ok true
      else elim (f.split_of r) [
        | none ↦ err type_error
        | some n ↦ ok (positive n || (same && not ((job l r).running_kind == "chunk")))
      ]

  -- What is noted of an edge of a section that depends on itself.
  unfoldable pub note_special : ℕ → FilterState → FilterState
  unfolding get_key set_key add_name add_names string_eq nat_eq
  note_special p s =
      let j = (job l r).section in
      record s {
        special_dependencies =
            add_names (or_none (get_key p s.special_of_job)) s.special_dependencies;
        special_of_job =
            set_key r (add_name p (or_none (get_key r s.special_of_job))) s.special_of_job;
        special_of_section =
            set_key j (add_name p (or_none (get_key j s.special_of_section))) s.special_of_section;
        built = record s.built { problematic = add_name p s.built.problematic };
      }

  unfoldable pub add_filtered : ℕ → FilterState → FilterState
  unfolding add_edge note_special string_eq
  add_filtered p s =
      let s1 = record s { built = add_edge p r s.built } in
      if contains f.dependencies_keys_without_special_chars (job l r).section
      then note_special p s1
      else s1

  -- `if parent.section == job.section: self.actual_job_depends_on_special_chunk = True`
  unfoldable pub mark_special : ℕ → FilterState → FilterState
  unfolding string_eq
  mark_special p s =
      if (job l p).section == (job l r).section
      then record s { depends_on_special_chunk = true }
      else s

  -- The body of the loop over the possible parents, after the test of the "all" filters.
  unfoldable pub take_parent : ℕ → FilterState → Result FilterState
  unfolding note_split takes_edge add_filtered mark_special string_eq
  take_parent p s = do
    s1 ← if (job l p).section == (job l r).section then note_split p s else ok s
    added ← takes_edge p s1
    ok (if added then add_filtered p (mark_special p s1) else mark_special p s1)

  unfoldable pub visit_filtered : Bool → ℕ → FilterState → Result FilterState
  unfolding is_passed_over take_parent
  visit_filtered any_all p s = do
    over ← if any_all then is_passed_over s p else ok false
    if over then ok s else take_parent p s

  unfoldable pub possible_parents : String → Filter → Coordinates → Filter → List ℕ
  unfolding nat_eq
  possible_parents section filters t of_parent =
      filter (λ p. not (p == r)) (f.find_filtered section filters t of_parent)

  -- The filters of the parent's section on the job, `{}` for the section itself.
  unfoldable pub parent_filter : String → Result Filter
  unfolding string_eq
  parent_filter section =
      if not ((job l r).section == section) then f.filters_of_parent section else ok empty

  unfoldable pub calculate_filter_dependencies :
      Filter → String → Coordinates → FilterState → Result (FilterState × JobList)
  unfolding all_none any_all_filter possible_parents visit_filtered parent_filter
      handle_frequency_interval_dependencies
  calculate_filter_dependencies filters section t s = if all_none filters then ok (s, l) else do
    of_parent ← parent_filter section
    let parents = possible_parents section filters t of_parent
    s' ← for_each (visit_filtered (any_all_filter filters)) parents s
    l' ← handle_frequency_interval_dependencies c r section t parents l
    ok (s', l')
