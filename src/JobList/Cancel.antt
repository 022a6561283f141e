-- ===== src/JobList/Cancel.antt =====
-- `cancel_jobs` of autosubmit/job/job_utils.py.
use autosubmit.Prelude.{
  ℕ, String, Bool, true, false, Option, none, some, List, [], ◌∷◌, ◌++◌, ◌==◌, nat_eq, string_eq,
  contains, filter, map, if◌then◌else◌, Result, ok, err, critical, key_error, run_each,
}
use autosubmit.Job.Status.{
  Status, waiting, ready, submitted, queuing, running, completed, held, prepared, skipped, failed,
  delayed, unknown, suspended, status_eq, value_to_key, status_of_key,
}
use autosubmit.Job.Record.{Job}
use autosubmit.JobList.State.{JobList, status_of, set_status, modify}
pub mod Outcome

abbrev pub keyed : List Status
keyed =
    suspended ∷ unknown ∷ failed ∷ waiting ∷ ready ∷ submitted ∷ queuing ∷ running ∷ completed
    ∷ held ∷ prepared ∷ skipped ∷ delayed ∷ []

-- `Status.VALUE_TO_KEY.values()`
unfoldable pub status_keys : List String
unfolding value_to_key
status_keys = map value_to_key keyed

unfoldable pub is_target : Option String → Bool
unfolding status_keys string_eq
is_target none = false
is_target (some t) = contains status_keys t

-- The jobs whose status is in the filter; no filter is the empty one.
unfoldable pub active_jobs : Option (List Status) → JobList → List ℕ
unfolding status_eq
active_jobs none l = []
active_jobs (some statuses) l = filter (λ r. contains statuses (status_of l r)) l.order

-- The command is sent, whether it succeeds or not, and the status is set.
unfoldable pub cancel_job : Status → ℕ → JobList → JobList
unfolding set_status modify
cancel_job st r l = set_status r st (record l { cancelled = l.cancelled ++ (r ∷ []) })

-- `KEY_TO_VALUE[target_status]`
unfoldable pub cancel_all : Option Status → List ℕ → JobList → Result JobList
unfolding cancel_job
cancel_all none rs l = err key_error
cancel_all (some st) rs l = ok (run_each (cancel_job st) rs l)

abbrev pub key_of : Option String → String
key_of none = ""
key_of (some t) = t

-- The keys are in capitals, so `upper` changes nothing.
unfoldable pub cancel_jobs : Option String → Option (List Status) → JobList → Result JobList
unfolding is_target active_jobs cancel_all status_of_key
cancel_jobs target statuses l =
    if is_target target
    then cancel_all (status_of_key (key_of target)) (active_jobs statuses l) l
    else err critical
