-- ===== src/JobList/Update/Retry.antt =====
-- The first phase of `update_list`: what becomes of the FAILED jobs.
pub mod Delay
pub mod Growth
pub mod Step
pub mod Outcome
pub mod Keeps
use autosubmit.Prelude.{
  ℕ, ◌+◌, String, Bool, true, false, not, ◌||◌, Option, none, some, List, [], ◌∷◌, ◌==◌, nat_eq,
  string_eq, option_eq, ltb, if◌then◌else◌, filter, length, Result, ok, err, key_error, type_error,
  ◌>>=◌, for_each, run_each,
}
use autosubmit.Prelude.Int.{ℤ, pos, negsuc, Text, positive}
use autosubmit.Job.Status.{Status, status_eq, waiting, ready, completed, failed, delayed, prepared}
use autosubmit.Job.Record.{Job}
use autosubmit.JobList.State.{JobList, job, status_of, modify, set_status}
use autosubmit.JobList.Getters.{get_failed}
use autosubmit.JobList.Update.Inputs.{SectionConf, Config, Env}
use autosubmit.JobList.Update.Retry.Delay.{aux_job_delay, retry_delay_of}

section_of : Config → String → Result SectionConf
section_of conf s = elim (conf.jobs_data s) [ some c ↦ ok c | none ↦ err key_error ]

-- `retrials`: the job's where its section sets RETRIALS, the configuration's otherwise.
abbrev pub retrials_of : Config → SectionConf → Job → ℕ
retrials_of conf s j = if s.has_retrials then j.retrials else conf.retrials

-- A failed vertical wrapper is retried by the wrapper itself, so it counts as tried out.
unfoldable pub settle_vertical : Job → Job
unfolding option_eq string_eq
settle_vertical j =
    if j.wrapper_type == some "vertical" then record j { fail_count = j.retrials } else j

abbrev pub all_completed : JobList → List ℕ → Bool
all_completed l ps = length (filter (λ p. status_of l p == completed) ps) == length ps

text_of : Option Text → Result Text
text_of (some t) = ok t
text_of none = err type_error

-- `delay_retry_time`. (The membership test on `None` is a TypeError.)
delay_text : Config → SectionConf → Job → Result Text
unfolding text_of
delay_text conf s j = do
  aux ← aux_job_delay j.delay_retrials
  if s.has_delay || not (positive aux) then ok conf.delay_retry_time else text_of j.retry_delay

-- The new status of a job that is tried again, after the delay `d`.
unfoldable pub reset : ℕ → ℤ → Job → Job
reset now (pos d) j =
    if ltb 0 d
    then record j { status = delayed; delay_end = now + d; id = none }
    else record j { status = ready; id = none }
reset now (negsuc d) j = record j { status = ready; id = none }

retry : Config → Env → SectionConf → ℕ → JobList → Result JobList
unfolding delay_text reset modify set_status status_eq nat_eq
retry conf env s r l =
    if all_completed l (job l r).parents
    then (do
      text ← delay_text conf s (job l r)
      d ← retry_delay_of (job l r).fail_count text
      ok (modify r (reset (env.failed_now r) d) l))
    else ok (set_status r waiting l)

-- `Job.inc_fail_count`
abbrev pub inc_fail_count : Job → Job
inc_fail_count j = record j { fail_count = j.fail_count + 1 }

-- The body of the loop over the failed jobs.
unfoldable pub retry_failed : Config → Env → ℕ → JobList → Result JobList
unfolding section_of settle_vertical retry
retry_failed conf env r l = do
  s ← section_of conf (job l r).section
  let l1 = modify r settle_vertical l
  let retrials = retrials_of conf s (job l r)
  if ltb (job l1 r).fail_count retrials
      then retry conf env s r (modify r inc_fail_count l1)
      else ok (set_status r failed l1)

unfoldable pub update_failed : Config → Env → JobList → Result JobList
unfolding get_failed retry_failed
update_failed conf env l = for_each (retry_failed conf env) (get_failed none false l) l

-- The branch of the first iteration, `first_time`: the jobs not yet started lose their failures.
abbrev pub not_started : Status → Bool
not_started s = s == waiting || (s == ready || (s == delayed || s == prepared))

clear_failures : ℕ → JobList → JobList
unfolding modify
clear_failures r l = modify r (λ j. record j { fail_count = 0 }) l

unfoldable pub clear_fail_counts : JobList → JobList
unfolding clear_failures status_eq
clear_fail_counts l = run_each clear_failures (filter (λ r. not_started (status_of l r)) l.order) l
