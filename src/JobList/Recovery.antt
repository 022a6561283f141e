-- ===== src/JobList/Recovery.antt =====
-- `check_completed_jobs_after_recovery`: COMPLETED jobs with WAITING parents wait again.
pub mod Settled
use autosubmit.Prelude.{ℕ, Bool, ◌&&◌, none, List, [], ◌∷◌, ◌==◌, any, if◌then◌else◌, run_each}
use autosubmit.Job.Status.{Status, status_eq, waiting, completed}
use autosubmit.JobList.State.{JobList, job, status_of, modify}

-- The test of the loop, at the moment at which the job is reached.
abbrev pub is_stale : JobList → ℕ → Bool
is_stale l r = status_of l r == completed && any (λ p. status_of l p == waiting) (job l r).parents

unfoldable pub recheck : ℕ → JobList → JobList
unfolding modify status_eq
recheck r l = if is_stale l r then modify r (λ j. record j { status = waiting; id = none }) l else l

unfoldable pub check_completed_jobs_after_recovery : JobList → JobList
unfolding recheck
check_completed_jobs_after_recovery l = run_each recheck l.order l
