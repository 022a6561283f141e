-- ===== src/SubJobs/Walk.antt =====
-- `process_times` of class `SubJobManager` where the structure of the jobs is known
-- (autosubmit/job/job_utils.py): each job's queue time loses the time that its parent took.
use autosubmit.Prelude.{
  ℕ, zero, suc, ◌+◌, ◌-◌, String, Bool, true, false, Option, none, some, List, [], ◌∷◌, ◌++◌,
  filter, contains, Map, set_key, get_key, ◌==◌, nat_eq, string_eq, option_eq, ltb, if◌then◌else◌,
  Result, ok, ◌>>=◌, for_each, length,
}
use autosubmit.SubJobs.{SubJobManager, change_subjob, find_name, index_names}

-- The local variables: the roots, `new_queues` and `fixes_applied`.
pub record Walk : Type 0 where
  pub roots : List ℕ
  pub new_queues : Map String ℕ
  pub fixes_applied : Map String ℕ

abbrev pub is_known : Option ℕ → Bool
is_known none = false
is_known (some n) = true

unfoldable pub has_new_queue : String → Map String ℕ → Bool
unfolding get_key string_eq
has_new_queue name d = is_known (get_key name d)

abbrev pub fix_or_zero : Option ℕ → ℕ
fix_or_zero none = 0
fix_or_zero (some n) = n

abbrev pub or_no_names : Option (List String) → List String
or_no_names none = []
or_no_names (some ns) = ns

abbrev pub no_names : List String → Bool
no_names [] = true
no_names (n ∷ ns) = false

unfoldable pub jobs_in : SubJobManager → String → List ℕ
unfolding string_eq option_eq
jobs_in m of_package = filter (λ r. (m.at r).package_name == some of_package) m.subjobs

-- `local_index[child].parents.append(sub_job.name)`
unfoldable pub note_parent : Map String ℕ → String → String → SubJobManager → Result SubJobManager
unfolding change_subjob find_name
note_parent local_index name child m = do
  c ← find_name child local_index
  ok (change_subjob c (λ s. record s { parents = s.parents ++ (name ∷ []) }) m)

-- The children of a job in its package, and the job as a parent of each of them.
unfoldable pub join_children : Map String ℕ → List String → ℕ → SubJobManager → Result SubJobManager
unfolding change_subjob note_parent get_key string_eq
join_children local_index members r m =
    let name = (m.at r).name in
    let found = filter (contains members) (or_no_names (get_key name m.current_structure)) in
    for_each (note_parent local_index name) found
      (change_subjob r (λ s. record s { children = found }) m)

module _ (m : SubJobManager) (local_index : Map String ℕ) where
  -- The greater fix is retained.
  unfoldable pub retain : String → ℕ → Map String ℕ → Map String ℕ
  unfolding set_key get_key string_eq
  retain name size fixes =
      if ltb (fix_or_zero (get_key name fixes)) size then set_key name size fixes else fixes

  -- The body of the loop over `sub.children`.
  unfoldable pub fix_child : ℕ → String → Walk → Result Walk
  unfolding has_new_queue find_name set_key retain string_eq
  fix_child r child w = if has_new_queue child w.new_queues then ok w else do
    c ← find_name child local_index
    sub ← find_name (m.at r).name m.subjobindex
    kept ← find_name child m.subjobindex
    let size = (m.at sub).queue + (m.at sub).run
    ok record {
      roots = w.roots ++ (c ∷ []);
      new_queues = set_key child ((m.at kept).queue - size) w.new_queues;
      fixes_applied = retain child size w.fixes_applied;
    }

  -- `while len(roots) > 0`. Each round takes a root away, and each root that is added is a name of
  -- the package that had no new queue time yet.
  unfoldable pub walk_roots : ℕ → Walk → Result Walk
  unfolding fix_child
  walk_roots zero w = ok w
  walk_roots (suc fuel) w = elim (w.roots) [
    | [] ↦ ok w
    | r ∷ rest ↦
        for_each (fix_child r) (m.at r).children (record w { roots = rest }) >>= walk_roots fuel
  ]

-- The manager, `new_queues` and `fixes_applied`.
abbrev pub Times : Type 0
Times = SubJobManager × Map String ℕ × Map String ℕ

unfoldable pub process_package : (String × List String) → Times → Result Times
unfolding jobs_in index_names join_children walk_roots
process_package (of_package, members) (m, queues, fixes) = do
  let jobs = jobs_in m of_package
  let local_index = index_names m jobs
  m' ← for_each (join_children local_index members) jobs m
  let roots = filter (λ r. no_names (m'.at r).parents) jobs
  w ←
      walk_roots m' local_index (length roots + length local_index)
        (record { roots = roots; new_queues = queues; fixes_applied = fixes })
  ok (m', w.new_queues, w.fixes_applied)
