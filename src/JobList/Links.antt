-- ===== src/JobList/Links.antt =====
-- The edges between jobs: `add_parent`, `add_children`, `delete_parent`, `has_children` and
-- `has_parents` of class `Job` (autosubmit/job/job.py).
pub mod Symmetry
use autosubmit.Prelude.{
  ℕ, String, Bool, not, List, [], ◌∷◌, ◌==◌, contains, nat_eq, string_eq, filter, length,
  if◌then◌else◌, run_each, Result, ok, err, key_error,
}
use autosubmit.Job.Record.{Job}
use autosubmit.JobList.State.{JobList, job, modify}
use autosubmit.JobList.Edges.{add_once}

-- An argument of `add_parent`: a job or a list of jobs.
pub data Argument : Type 0 where
  one : ℕ → Argument
  many : List ℕ → Argument

abbrev pub references : Argument → List ℕ
references (one r) = r ∷ []
references (many rs) = rs

-- `self.__add_child(new_child)`
unfoldable pub add_child : ℕ → ℕ → JobList → JobList
unfolding modify nat_eq
add_child p c = modify p (λ j. record j { children = add_once c j.children })

-- `self._parents.add(new_parent)`
unfoldable pub add_to_parents : ℕ → ℕ → JobList → JobList
unfolding modify nat_eq
add_to_parents c p = modify c (λ j. record j { parents = add_once p j.parents })

unfoldable pub link_parent : ℕ → ℕ → JobList → JobList
unfolding add_child add_to_parents
link_parent c p l = add_child p c (add_to_parents c p l)

unfoldable pub add_parent : ℕ → List Argument → JobList → JobList
unfolding link_parent
add_parent c args l = run_each (λ a. run_each (link_parent c) (references a)) args l

unfoldable pub link_child : ℕ → ℕ → JobList → JobList
unfolding add_child add_to_parents
link_child p c l = add_to_parents c p (add_child p c l)

-- The children that have another name than the job.
unfoldable pub add_children : ℕ → List ℕ → JobList → JobList
unfolding link_child string_eq
add_children p children l =
    run_each (link_child p) (filter (λ c. not ((job l c).name == (job l p).name)) children) l

-- `self.parents.remove(parent)`: the parent keeps the job among its children.
unfoldable pub delete_parent : ℕ → ℕ → JobList → Result JobList
unfolding modify nat_eq
delete_parent c p l =
    if contains (job l c).parents p
    then ok (modify c (λ j. record j { parents = filter (λ q. not (q == p)) j.parents }) l)
    else err key_error

unfoldable pub has_children : Job → ℕ
has_children j = length j.children

unfoldable pub has_parents : Job → ℕ
has_parents j = length j.parents
