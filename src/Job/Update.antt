-- ===== src/Job/Update.antt =====
-- The change of a job's status after its platform has answered: `update_status`,
-- `update_children_status` and `check_completion` of class `Job` (autosubmit/job/job.py).
pub mod Children
use autosubmit.Prelude.{
  ℕ, zero, suc, ◌+◌, Bool, true, false, not, ◌&&◌, List, [], ◌∷◌, ◌++◌, ◌==◌, nat_eq, contains,
  if◌then◌else◌,
}
use autosubmit.Job.Status.{
  Status, submitted, running, queuing, unknown, completed, failed, status_eq,
}
use autosubmit.Job.Record.{Job, Store}
use autosubmit.JobList.State.{put}

-- What the platform answers; the number counts the questions, so answers may change with time.
pub record Answers : Type 0 where
  -- `get_completed_job_names([name])` is not empty, for a job.
  pub completed_names : ℕ → ℕ → Bool
  -- How many children `update_children_status` visits at most.
  pub fuel : ℕ

-- The store, and the number of questions so far.
abbrev pub World : Type 0
World = Store × ℕ

abbrev pub assign_status : Status → Job → Job
assign_status st j = record j { status = st }

-- `child.level == 0 and child.status in [...]`
unfoldable pub is_active : Job → Bool
unfolding nat_eq status_eq
is_active j = j.level == 0 && contains (submitted ∷ running ∷ queuing ∷ unknown ∷ []) j.status

-- The loop of `update_children_status`: the list it runs over grows at its end. Fuel bounds the number
-- of children; what is left of the list is returned with the store.
unfoldable pub fail_active : ℕ → List ℕ → Store → List ℕ × Store
unfolding put is_active
fail_active zero xs s = (xs, s)
fail_active (suc fuel) [] s = ([], s)
fail_active (suc fuel) (x ∷ xs) s =
    fail_active fuel (if is_active (s x) then xs ++ (s x).children else xs)
      (if is_active (s x) then put x (assign_status failed) s else s)

unfoldable pub update_children_status : ℕ → ℕ → Store → Store
unfolding fail_active
update_children_status fuel r s = (fail_active fuel (s r).children s).1

-- `check_completion(default)`
unfoldable pub check_completion : Answers → Status → ℕ → World → World
unfolding put
check_completion a default r (s, asked) =
    (put r (assign_status (if a.completed_names asked r then completed else default)) s, asked + 1)

-- `self.check_completion()` where the new status is COMPLETED.
unfoldable pub take_status : Answers → ℕ → World → World
unfolding check_completion put status_eq
take_status a r (s, asked) =
    if (s r).new_status == completed
    then check_completion a failed r (s, asked)
    else (put r (assign_status (s r).new_status) s, asked)

-- The branches on the status that was taken; those that only log are left out.
unfoldable pub follow_status : Answers → Bool → ℕ → World → World
unfolding check_completion update_children_status status_eq
follow_status a failed_file r (s, asked) =
    if (s r).status == failed
    then (if not failed_file then (update_children_status a.fuel r s, asked) else (s, asked))
    else if (s r).status == unknown
    then check_completion a unknown r (s, asked)
    else (s, asked)

-- `update_status`, without the logs and the metrics.
unfoldable pub update_status : Answers → Bool → ℕ → World → World
unfolding take_status follow_status
update_status a failed_file r w = follow_status a failed_file r (take_status a r w)
