-- ===== src/JobList/Update/Special.antt =====
-- `check_special_status` and `_count_parents_status`: jobs that start when their parents reach a
-- status other than COMPLETED, or a checkpoint step.
pub mod Keeps
use autosubmit.Prelude.{
  ℕ, zero, suc, ◌+◌, ◌-◌, String, Bool, true, false, not, ◌&&◌, ◌||◌, Option, none, some, List, [],
  ◌∷◌, ◌++◌, ◌==◌, contains, nat_eq, string_eq, ltb, leb, if◌then◌else◌, filter, length, Result, ok,
  err, key_error, value_error, ◌>>=◌, for_each, run_each,
}
use autosubmit.Job.Status.{
  Status, status_eq, waiting, ready, completed, status_of_key, logical_index,
}
use autosubmit.Job.Record.{Edge, Job, Dict}
use autosubmit.JobList.State.{JobList, job, status_of, modify}
use autosubmit.JobList.Update.Inputs.{Env}

module _ {V : Type 0} where
  -- `d.get(key)`
  unfoldable pub lookup : String → Dict V → Option V
  unfolding string_eq
  lookup k [] = none
  lookup k ((j, v) ∷ d) = if k == j then some v else lookup k d

-- The loop of `Platform.get_checkpoint_files`, over the steps that are left.
unfoldable pub advance : (ℕ → Bool) → ℕ → ℕ → ℕ
advance there zero step = step
advance there (suc left) step =
    let rest = advance there left (step + 1) in if there step then rest else step

unfoldable pub get_checkpoint_files : (ℕ → Bool) → Job → Job
unfolding advance
get_checkpoint_files there j =
    if ltb j.current_checkpoint_step j.max_checkpoint_step
    then record j {
      current_checkpoint_step =
          advance there (j.max_checkpoint_step - j.current_checkpoint_step)
            j.current_checkpoint_step;
    }
    else j

unfoldable pub check_checkpoint : Env → ℕ → JobList → JobList
unfolding get_checkpoint_files modify
check_checkpoint env r l =
    if env.connected (job l r).platform
    then modify r (get_checkpoint_files (env.checkpoint_exists r)) l
    else l

-- `target_status in ["RUNNING", "FAILED"]`
abbrev pub has_checkpoints : String → Bool
has_checkpoints target = target == "RUNNING" || target == "FAILED"

-- `parent[1] and int(parent[1]) >= job.current_checkpoint_step`
abbrev pub step_ahead : Option ℕ → ℕ → Bool
step_ahead none current = false
step_ahead (some step) current = leb current step

target_index : Option Status → Result ℕ
target_index (some st) = ok (logical_index st)
target_index none = err value_error

-- The loop over `edge_info[target_status].values()`: the parents that are not COMPLETED and have
-- reached the target status.
unfoldable pub reached : JobList → Job → String → List (String × Edge) → Result (List ℕ)
unfolding status_of_key target_index logical_index string_eq status_eq
reached l j target [] = ok []
reached l j target ((name, e) ∷ edges) =
    let rest = reached l j target edges in
    if has_checkpoints target && step_ahead e.from_step j.current_checkpoint_step then rest else (do
      bound ← target_index (status_of_key target)
      found ← rest
      if leb bound (logical_index (status_of l e.parent))
            && not (contains (filter (λ p. status_of l p == completed) j.parents) e.parent)
          then ok (e.parent ∷ found)
          else ok found)

edges_of : Option (Dict Edge) → Result (Dict Edge)
edges_of (some d) = ok d
edges_of none = err key_error

-- `_count_parents_status`: the two lists.
unfoldable pub count_parents_status : JobList → Job → String → Result (List ℕ × List ℕ)
unfolding lookup edges_of reached
count_parents_status l j target = do
  edges ← edges_of (lookup target j.edge_info)
  current ← reached l j target edges
  ok (current, filter (λ p. status_of l p == completed) j.parents)

-- The body of the inner loop. The state carries `jobs_to_check`.
unfoldable pub visit_special : Env → String → ℕ → JobList × List ℕ → Result (JobList × List ℕ)
unfolding check_checkpoint count_parents_status status_eq string_eq nat_eq
visit_special env target r (l, found) =
    if not (status_of l r == waiting)
    then ok (l, found)
    else (let l1 = if has_checkpoints target then check_checkpoint env r l else l in
        do
          counts ← count_parents_status l1 (job l1 r) target
          if length counts.0 + length counts.1 == length (job l1 r).parents
              then ok (l1, found ++ (r ∷ []))
              else ok (l1, found))

visit_target : Env → String × List ℕ → JobList × List ℕ → Result (JobList × List ℕ)
unfolding visit_special
visit_target env (target, jobs) s =
    if target == "ALL" then ok s else for_each (visit_special env target) jobs s

unfoldable pub check_special_status : Env → JobList → Result (JobList × List ℕ)
unfolding visit_target
check_special_status env l = for_each (visit_target env) l.jobs_edges (l, [])

unfoldable pub release : Job → Job
release j = record j { status = ready; id = none; wrapper_type = none }

-- The phase of `update_list`: the new state, and whether it is to be saved.
unfoldable pub update_special : Env → JobList → Result (JobList × Bool)
unfolding check_special_status release modify
update_special env l = do
  found ← check_special_status env l
  ok (run_each (λ r. modify r release) found.1 found.0, not (length found.1 == 0))
