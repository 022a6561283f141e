-- ===== src/JobList/Update.antt =====
-- `JobList.update_list` (autosubmit/job/job_list.py), phase by phase, and the whole method.
pub mod Inputs
pub mod File
pub mod Retry
pub mod Special
pub mod Sync
pub mod Waiting
pub mod Skip
pub mod TwoStep
pub mod Frame
pub mod Moves
use autosubmit.Prelude.{
  Bool, true, false, not, ◌||◌, none, String, List, ◌==◌, nat_eq, length, if◌then◌else◌, Result, ok,
  ◌>>=◌,
}
use autosubmit.JobList.State.{JobList}
use autosubmit.JobList.Getters.{get_failed}
use Inputs.{Config, Env}
use File.{update_from_file}
use Retry.{update_failed, clear_fail_counts}
use Special.{update_special}
use Sync.{update_synchronized, update_delayed}
use Waiting.{update_waiting}
use Skip.{update_skippable}
use TwoStep.{stamp_ready, update_two_step_jobs}

-- `if not first_time: ... else: ...`. Every failed job that is visited sets `save`.
unfoldable pub update_failures : Config → Env → Bool → JobList → Result (JobList × Bool)
unfolding update_failed clear_fail_counts get_failed
update_failures conf env first_time l =
    if first_time
    then ok (clear_fail_counts l, false)
    else (do l' ← update_failed conf env l; ok (l', not (length (get_failed none false l) == 0)))

-- `if not fromSetStatus: ...`
unfoldable pub update_pending : Config → Env → Bool → JobList × Bool → Result (JobList × Bool)
unfolding update_delayed update_waiting update_skippable
update_pending conf env from_set_status (l, save) =
    if from_set_status
    then ok (l, save)
    else update_skippable conf env (update_waiting (update_delayed env l), save)

-- `update_list`: the new state, and `save`. `update_from_file` answers `None`, so `save` starts out
-- false. The lines are those of the update file, none if there is no file.
unfoldable pub update_list :
    Config → Env → List (String × String) → Bool → Bool → JobList → Result (JobList × Bool)
unfolding update_from_file update_failures update_special update_pending
update_list conf env lines from_set_status first_time l = do
  l1 ← update_from_file lines l
  s2 ← update_failures conf env first_time l1
  s3 ← update_special env s2.0
  let s4 = update_synchronized (s3.0, s2.1 || s3.1)
  s5 ← update_pending conf env from_set_status s4
  l6 ← update_two_step_jobs (stamp_ready env s5.0)
  ok (l6, s5.1)
