-- ===== src/JobList/Update/File.antt =====
-- `update_from_file`: the statuses that the user writes into an update file.
use autosubmit.Prelude.{
  ℕ, String, Option, none, some, List, [], ◌∷◌, ◌==◌, string_eq, if◌then◌else◌, Result, ok, err,
  attribute_error, for_each,
}
use autosubmit.Job.Status.{Status, status_of_key}
use autosubmit.JobList.State.{JobList, job, modify}

-- The loop of `get_job_by_name` over the references that are left.
find_name : String → JobList → List ℕ → Option ℕ
find_name name l [] = none
find_name name l (r ∷ rest) = if (job l r).name == name then some r else find_name name l rest

unfoldable pub get_job_by_name : String → JobList → Option ℕ
unfolding find_name string_eq
get_job_by_name name l = find_name name l l.order

assign : ℕ → Option Status → JobList → Result JobList
assign r (some st) l = ok (modify r (λ j. record j { status = st; fail_count = 0 }) l)
assign r none l = err attribute_error

apply_found : Option ℕ → String → JobList → Result JobList
apply_found none key l = ok l
apply_found (some r) key l = assign r (status_of_key key) l

-- One line of the file, already split: the job's name and the name of a status.
unfoldable pub apply_line : String × String → JobList → Result JobList
unfolding get_job_by_name apply_found assign status_of_key
apply_line (name, key) l = apply_found (get_job_by_name name l) key l

-- The method has no `return`, so its callers see `None`.
unfoldable pub update_from_file : List (String × String) → JobList → Result JobList
unfolding apply_line
update_from_file lines l = for_each apply_line lines l
