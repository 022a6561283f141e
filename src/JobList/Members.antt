-- ===== src/JobList/Members.antt =====
-- The setter of `run_members` of class `JobList` (autosubmit/job/job_list.py): which jobs are kept in
-- the list when only some members run.
use autosubmit.Prelude.{
  ℕ, String, Bool, true, false, not, ◌&&◌, ◌||◌, Option, none, some, List, [], ◌∷◌, ◌==◌, string_eq,
  contains, if◌then◌else◌,
}
use autosubmit.Job.Status.{Status, waiting, ready, status_eq}
use autosubmit.Job.Record.{Job}
use autosubmit.JobList.State.{JobList}
pub mod Kept

-- `job.member in self._run_members`, for a list of members.
unfoldable pub is_run : List String → Job → Bool
unfolding string_eq
is_run members j = elim j.member [ none ↦ false | some m ↦ contains members m ]

abbrev pub has_no_member : Job → Bool
has_no_member j = elim j.member [ none ↦ true | some m ↦ false ]

-- `job.member is not None and len(str(job.member)) > 0`
unfoldable pub has_member : Job → Bool
unfolding string_eq
has_member j = elim j.member [ none ↦ false | some m ↦ not (m == "") ]

abbrev pub is_under_way : Job → Bool
is_under_way j = not (contains (waiting ∷ ready ∷ []) j.status)

-- The loop over the jobs, with `found_member`.
unfoldable pub keep_jobs : List String → (ℕ → Job) → Bool → List ℕ → List ℕ
unfolding is_run has_member status_eq
keep_jobs members store found [] = []
keep_jobs members store found (r ∷ rs) =
    let rest = keep_jobs members store (found || has_member (store r)) rs in
    if has_no_member (store r) && not found || (is_run members (store r) || is_under_way (store r))
    then r ∷ rest
    else rest

-- A value of no length changes nothing. The copies of the value and of the old list are left out.
unfoldable pub set_run_members : Option (List String) → JobList → JobList
unfolding keep_jobs
set_run_members none l = l
set_run_members (some members) l = record l { order = keep_jobs members l.store false l.order }
