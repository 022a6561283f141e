-- ===== src/Packager/Divide.antt =====
-- `_divide_list_by_section` of class `JobPackager` in autosubmit/job/job_packager.py.
use autosubmit.Prelude.{
  ℕ, ◌+◌, String, Bool, true, false, not, List, [], ◌∷◌, ◌++◌, string_eq, contains, filter,
  if◌then◌else◌,
}
use autosubmit.Job.Record.{Job, Store}
pub mod Partition

-- The jobs of each wrapper, and of `SIMPLE`.
abbrev pub Division : Type 0
Division = List (String × List ℕ)

abbrev pub has_jobs : String × List ℕ → Bool
has_jobs (name, []) = false
has_jobs (name, r ∷ rs) = true

module _ (upper : String → String) (store : Store) where
  -- `job.section.upper() in section_name.split("&")`; no section has `&` in its name, so splitting
  -- undoes the joining.
  unfoldable pub is_wrapped_in : List String → ℕ → Bool
  unfolding string_eq
  is_wrapped_in sections r = contains sections (upper (store r).section)

  -- Each wrapper takes its jobs from the list; the rest is `SIMPLE`.
  unfoldable pub take_sections : List (String × List String) → List ℕ → Division
  unfolding is_wrapped_in
  take_sections [] jobs = ("SIMPLE", jobs) ∷ []
  take_sections ((wrapper, sections) ∷ rest) jobs =
      (wrapper, filter (is_wrapped_in sections) jobs)
      ∷ take_sections rest (filter (λ r. not (is_wrapped_in sections r)) jobs)

  -- The keys without jobs are deleted.
  unfoldable pub divide_list_by_section : List (String × List String) → List ℕ → Division
  unfolding take_sections
  divide_list_by_section jobs_in_wrapper jobs = filter has_jobs (take_sections jobs_in_wrapper jobs)
