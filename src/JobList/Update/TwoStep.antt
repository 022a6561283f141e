-- ===== src/JobList/Update/TwoStep.antt =====
-- The last phases of `update_list`: the date at which a job became READY, and the jobs that a
-- two-step start runs first.
pub mod Keeps
use autosubmit.Prelude.{
  ℕ, Bool, false, not, ◌&&◌, none, some, List, [], ◌∷◌, ◌==◌, nat_eq, ltb, if◌then◌else◌, filter,
  length, any, run_each, Result, ok, err, critical,
}
use autosubmit.Job.Status.{Status, status_eq, waiting, completed, failed}
use autosubmit.Job.Record.{Job}
use autosubmit.JobList.State.{JobList, job, status_of, modify}
use autosubmit.JobList.Getters.{get_ready}
use autosubmit.JobList.Update.Inputs.{Env}

-- `Job.set_ready_date`
unfoldable pub set_ready_date : ℕ → Job → Job
set_ready_date now j = record j { updated_log = false; ready_date = some now }

unfoldable pub stamp_ready : Env → JobList → JobList
unfolding set_ready_date modify get_ready
stamp_ready env l =
    run_each (λ r. modify r (set_ready_date (env.ready_now r))) (get_ready none false false l) l

-- A parent that runs or has run.
abbrev pub is_under_way : Status → Bool
is_under_way s = not (s == waiting) && not (s == failed)

-- Can the job go on: `len(running_parents) == len(job.parents)`.
abbrev pub can_run : JobList → ℕ → Bool
can_run l r =
    length (filter (λ p. is_under_way (status_of l p)) (job l r).parents)
    == length (job l r).parents

-- `jobs_to_run_first` without the COMPLETED jobs.
abbrev pub pending_first : JobList → List ℕ
pending_first l = filter (λ r. not (status_of l r == completed)) l.jobs_to_run_first

unfoldable pub update_two_step_jobs : JobList → Result JobList
unfolding status_eq nat_eq
update_two_step_jobs l =
    if ltb 0 (length l.jobs_to_run_first)
    then (let first = pending_first l in
        if ltb 0 (length first) && not (any (can_run l) first)
        then err critical
        else ok (record l { jobs_to_run_first = first }))
    else ok l
