-- ===== src/JobList/Update/Waiting.antt =====
-- The phase of `update_list` that makes WAITING jobs READY when their parents allow it.
pub mod Keeps
pub mod Parents
pub mod Ready
pub mod Progress
use autosubmit.Prelude.{
  ℕ, Bool, true, false, not, ◌&&◌, ◌||◌, String, Option, none, some, List, [], ◌∷◌, ◌==◌, contains,
  nat_eq, string_eq, if◌then◌else◌, filter, length,
}
use autosubmit.Job.Status.{Status, status_eq, ready, completed, skipped, failed}
use autosubmit.Job.Record.{Edge, Job, Dict}
use autosubmit.JobList.State.{JobList, job, status_of, modify}
use autosubmit.JobList.Getters.{get_waiting}
use autosubmit.JobList.Update.Special.{lookup}
use autosubmit.JobList.Update.Sync.{is_final}

abbrev pub is_done : Status → Bool
is_done s = s == completed || s == skipped

abbrev pub is_dropped : Status → Bool
is_dropped s = s == skipped || s == failed

-- `[parent for parent in job.parents if ...]`
abbrev pub parents_with : (Status → Bool) → JobList → Job → List ℕ
parents_with p l j = filter (λ q. p (status_of l q)) j.parents

-- `d.get('optional', False)`: an entry of `edge_info` is a dictionary of edges, and an edge is true.
is_optional_in : Option (Dict Edge) → Bool
unfolding lookup
is_optional_in none = false
is_optional_in (some d) = elim (lookup "optional" d) [ none ↦ false | some e ↦ true ]

-- `parent.name in job.edge_info and job.edge_info[parent.name].get('optional', False)`
unfoldable pub is_optional : JobList → Job → ℕ → Bool
unfolding lookup is_optional_in
is_optional l j p = is_optional_in (lookup (job l p).name j.edge_info)

-- The loop over the failed parents: the flags `strong` and `weak`.
unfoldable pub scan_failed : JobList → Job → List ℕ → Bool → Bool × Bool
unfolding is_optional string_eq status_eq
scan_failed l j [] weak = (false, weak)
scan_failed l j (p ∷ ps) weak =
    let next = scan_failed l j ps (is_optional l j p || weak) in
    if is_optional l j p
    then next
    else if contains j.dependencies (job l p).section
    then (not (is_done (status_of l p)), weak)
    else next

-- `job.status = Status.READY; job.hold = False`
abbrev pub readied : Job → Job
readied j = record j { status = ready; hold = false }

unfoldable pub make_ready : ℕ → JobList → JobList
unfolding modify
make_ready r = modify r readied

-- The inner loop over the parents of a job whose only parent was dropped.
single_parent : ℕ → List ℕ → JobList → JobList
unfolding is_optional make_ready
single_parent r [] l = l
single_parent r (p ∷ ps) l =
    let rest = single_parent r ps l in if is_optional l (job l r) p then make_ready r l else rest

-- What a job does that is not READY after the first test. The flag is the `break` of the loop.
unfoldable pub weak_parents : ℕ → JobList → JobList × Bool
unfolding scan_failed single_parent make_ready status_eq nat_eq
weak_parents r l =
    let j = job l r in
    let n = length j.parents in
    let dropped = length (parents_with is_dropped l j) in
    if not (dropped == n)
    then (if length (parents_with is_final l j) == n
        then (let flags = scan_failed l j (parents_with (λ s. s == failed) l j) false in
            if not flags.0 && flags.1 then (make_ready r l, true) else (l, false))
        else (l, false))
    else if dropped == 1 && n == 1
    then (single_parent r j.parents l, false)
    else (l, false)

-- The body of the loop over the WAITING jobs.
unfoldable pub visit_waiting : ℕ → JobList → JobList × Bool
unfolding weak_parents make_ready status_eq nat_eq
visit_waiting r l =
    let j = job l r in
    let l1 = if length (parents_with is_done l j) == length j.parents then make_ready r l else l in
    if not (status_of l1 r == ready) then weak_parents r l1 else (l1, false)

unfoldable pub visit_each : List ℕ → JobList → JobList
unfolding visit_waiting
visit_each [] l = l
visit_each (r ∷ rs) l =
    let out = visit_waiting r l in let rest = visit_each rs out.0 in if out.1 then out.0 else rest

unfoldable pub update_waiting : JobList → JobList
unfolding visit_each get_waiting
update_waiting l = visit_each (get_waiting none false l) l
