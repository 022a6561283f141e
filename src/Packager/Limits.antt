-- ===== src/Packager/Limits.antt =====
-- `calculate_job_limits`, and the section limits and the loop over the jobs outside wrappers of
-- `build_packages`: how many jobs the platform takes.
pub mod Space
use autosubmit.Prelude.{
  ℕ, ◌+◌, String, Bool, true, false, not, ◌&&◌, Option, none, some, List, [], ◌∷◌, ◌++◌, ◌==◌,
  contains, nat_eq, option_eq, ltb, leb, if◌then◌else◌, length,
}
use autosubmit.Prelude.Int.{ℤ, pos, negsuc, ◌+ℤ◌, neg, sub_ℕ, positive}
use autosubmit.Job.Record.{Job}
use autosubmit.JobList.State.{JobList, job}
use autosubmit.JobList.Getters.{get_queuing, get_running, get_submitted}

-- The attributes of a platform that bound its jobs.
pub record Platform : Type 0 where
  pub name : String
  pub max_waiting_jobs : ℕ
  pub total_jobs : ℕ
  pub allow_python_jobs : Bool

-- The keys of the dictionary of the jobs by their `id`: each id once.
unfoldable pub ids_of : JobList → List ℕ → List (Option ℕ) → List (Option ℕ)
unfolding option_eq nat_eq
ids_of l [] seen = seen
ids_of l (r ∷ rs) seen =
    let i = (job l r).id in ids_of l rs (if contains seen i then seen else seen ++ (i ∷ []))

abbrev pub min_ℤ : ℤ → ℤ → ℤ
min_ℤ (pos a) (pos b) = if ltb b a then pos b else pos a
min_ℤ (pos a) (negsuc b) = negsuc b
min_ℤ (negsuc a) (pos b) = negsuc a
min_ℤ (negsuc a) (negsuc b) = if ltb a b then negsuc b else negsuc a

pub record JobLimits : Type 0 where
  pub running_jobs_len : ℕ
  pub queuing_jobs_len : ℕ
  pub waiting_jobs : ℕ
  pub max_wait_jobs_to_submit : ℤ
  pub max_jobs_to_submit : ℤ
  pub max_jobs : ℤ

-- `x if x > 0 else 0`
abbrev pub at_least_zero : ℤ → ℤ
at_least_zero z = if positive z then z else pos 0

abbrev pub truthy : ℕ → Bool
truthy n = not (n == 0)

-- The limit on waiting jobs: the job's own where it is set and differs from the platform's.
abbrev pub waiting_limit : Platform → Option Job → ℕ
waiting_limit p none = p.max_waiting_jobs
waiting_limit p (some j) =
    if (truthy j.max_waiting_jobs && truthy p.max_waiting_jobs)
      && not (j.max_waiting_jobs == p.max_waiting_jobs)
    then j.max_waiting_jobs
    else p.max_waiting_jobs

abbrev pub total_limit : Platform → Option Job → ℕ
total_limit p none = p.total_jobs
total_limit p (some j) = if not (j.total_jobs == p.total_jobs) then j.total_jobs else p.total_jobs

unfoldable pub calculate_job_limits : Platform → Option Job → JobList → JobLimits
unfolding ids_of get_queuing get_running get_submitted nat_eq
calculate_job_limits p j l =
    let running = length (ids_of l (get_running (some p.name) false l) []) in
    let queuing = length (ids_of l (get_queuing (some p.name) false l) []) in
    let submitted = length (ids_of l (get_submitted (some p.name) false false l) []) in
    let max_wait = sub_ℕ (waiting_limit p j) (submitted + queuing) in
    let max_jobs = at_least_zero (sub_ℕ (total_limit p j) queuing +ℤ neg running) in
    record {
      running_jobs_len = running;
      queuing_jobs_len = queuing;
      waiting_jobs = submitted + queuing;
      max_wait_jobs_to_submit = max_wait;
      max_jobs_to_submit = max_jobs;
      max_jobs = min_ℤ max_wait max_jobs;
    }

-- `self._max_wait_jobs_to_submit > 0 and self._max_jobs_to_submit > 0`
abbrev pub has_space : JobLimits → Bool
has_space s = positive s.max_wait_jobs_to_submit && positive s.max_jobs_to_submit
