-- ===== src/JobList/Update/Sync.antt =====
-- The phases of `update_list` on the COMPLETED jobs that synchronise, and on the DELAYED ones.
pub mod Keeps
use autosubmit.Prelude.{
  ℕ, Bool, true, false, not, ◌||◌, String, Option, none, some, List, [], ◌∷◌, ◌==◌, nat_eq,
  string_eq, leb, if◌then◌else◌, filter, length, run_each,
}
use autosubmit.Job.Status.{Status, status_eq, waiting, ready, completed, skipped, failed}
use autosubmit.JobList.State.{JobList, job, status_of, set_status}
use autosubmit.JobList.Getters.{get_completed, get_delayed}
use autosubmit.JobList.Update.Inputs.{Env}
use autosubmit.JobList.Update.Retry.{all_completed}

-- `job.synchronize is not None and len(str(job.synchronize)) > 0`
abbrev pub synchronizes : Option String → Bool
synchronizes none = false
synchronizes (some s) = not (s == "")

abbrev pub is_final : Status → Bool
is_final s = s == completed || (s == skipped || s == failed)

abbrev pub all_final : JobList → List ℕ → Bool
all_final l ps = length (filter (λ p. is_final (status_of l p)) ps) == length ps

-- The body of the loop. Where all parents are final, the source loops over them under the test
-- `() and ...`, which is never true, so nothing happens.
unfoldable pub sync_job : ℕ → JobList × Bool → JobList × Bool
unfolding set_status status_eq nat_eq string_eq
sync_job r (l, save) =
    if synchronizes (job l r).synchronize
    then (if not (all_completed l (job l r).parents)
        then (if all_final l (job l r).parents then (l, save) else (set_status r waiting l, true))
        else (l, save))
    else (l, save)

unfoldable pub update_synchronized : JobList × Bool → JobList × Bool
unfolding sync_job get_completed
update_synchronized (l, save) = run_each sync_job (get_completed none false l) (l, save)

-- `if datetime.datetime.now() >= job.delay_end: job.status = Status.READY`
unfoldable pub wake : Env → ℕ → JobList → JobList
unfolding set_status
wake env r l = if leb (job l r).delay_end (env.delayed_now r) then set_status r ready l else l

unfoldable pub update_delayed : Env → JobList → JobList
unfolding wake get_delayed
update_delayed env l = run_each (wake env) (get_delayed none l) l
