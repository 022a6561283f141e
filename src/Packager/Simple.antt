-- ===== src/Packager/Simple.antt =====
-- The two loops of `build_packages` on single jobs: the limits of the sections, after the jobs'
-- parameters have been read, and the submission of the jobs outside wrappers.
pub mod Limited
use autosubmit.Prelude.{
  ℕ, String, Bool, true, false, not, ◌&&◌, Option, none, some, List, [], ◌∷◌, ◌++◌, ◌==◌, contains,
  nat_eq, string_eq, ltb, if◌then◌else◌, length,
}
use autosubmit.Prelude.Int.{ℤ, pos, negsuc, ◌+ℤ◌, neg, sub_ℕ, positive}
use autosubmit.Job.Record.{Job, Dict}
use autosubmit.JobList.State.{JobList, job, modify}
use autosubmit.JobList.Update.Special.{lookup}
use autosubmit.Packager.Limits.{Platform, JobLimits, min_ℤ, at_least_zero}
use autosubmit.Packager.Policy.{Wrapping, Packing, submit, package_of}

-- The limit of a section, from the first of its jobs.
unfoldable pub section_limit : Platform → JobLimits → Job → ℤ
unfolding nat_eq
section_limit p limits j =
    let waiting =
      if not (j.max_waiting_jobs == p.max_waiting_jobs)
      then sub_ℕ j.max_waiting_jobs limits.waiting_jobs
      else limits.max_wait_jobs_to_submit in
    let total =
      if not (j.total_jobs == p.total_jobs)
      then sub_ℕ j.total_jobs limits.queuing_jobs_len +ℤ neg limits.running_jobs_len
      else limits.max_jobs_to_submit in
    at_least_zero (min_ℤ waiting total)

abbrev pub has_key : Option ℤ → Bool
has_key none = false
has_key (some z) = true

-- `section_jobs_to_submit`: a section that is not in the dictionary replaces the whole of it.
unfoldable pub section_limits : Platform → JobLimits → JobList → List ℕ → Dict ℤ → Dict ℤ
unfolding section_limit lookup string_eq
section_limits p limits l [] d = d
section_limits p limits l (r ∷ rs) d = section_limits p limits l rs (
    if has_key (lookup (job l r).section d)
    then d
    else ((job l r).section, section_limit p limits (job l r)) ∷ [])

-- `section_jobs_to_submit[section] = section_jobs_to_submit[section] - 1`, where it is there.
unfoldable pub take_one : String → Dict ℤ → Dict ℤ
unfolding string_eq
take_one s [] = []
take_one s ((t, z) ∷ d) = if s == t then (t, z +ℤ negsuc 0) ∷ d else (t, z) ∷ take_one s d

-- What the tests at the head of the loop decide.
pub data Verdict : Type 0 where
  stop pass go : Verdict

-- The section's limit where there is one, the budget otherwise.
unfoldable pub verdict : Option ℤ → ℤ → Verdict
verdict (some z) budget = if positive z then go else pass
verdict none budget = if positive budget then go else stop

-- Are other jobs to run first.
abbrev pub held_back : JobList → ℕ → Bool
held_back l r = ltb 0 (length l.jobs_to_run_first) && not (contains l.jobs_to_run_first r)

-- `job.wrapper_type = "Simple"; job.packed = False`
unfoldable pub unpack : ℕ → Packing → Packing
unfolding modify
unpack r s = record s {
  jobs = modify r (λ j. record j { wrapper_type = some "Simple"; packed = false }) s.jobs;
}

-- The body of the loop, but for its `break`.
unfoldable pub submit_one : Wrapping → ℕ → Packing × Dict ℤ → Packing × Dict ℤ
unfolding submit take_one nat_eq
submit_one w r (s, d) =
    if held_back s.jobs r
    then (s, d)
    else (submit (package_of w s.jobs r) s, take_one (job s.jobs r).section d)

unfoldable pub submit_simple : Wrapping → List ℕ → Packing × Dict ℤ → Packing × Dict ℤ
unfolding unpack submit_one verdict lookup string_eq
submit_simple w [] s = s
submit_simple w (r ∷ rs) (s, d) =
    let s1 = unpack r s in
    elim (verdict (lookup (job s.jobs r).section d) s.max_jobs) [
      | stop ↦ (s1, d)
      | pass ↦ submit_simple w rs (s1, d)
      | go ↦ submit_simple w rs (submit_one w r (s1, d))
    ]
