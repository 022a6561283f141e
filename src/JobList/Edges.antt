-- ===== src/JobList/Edges.antt =====
-- The special edges: `Job.add_edge_info` (autosubmit/job/job.py), and `_add_edges_map_info` and
-- `add_special_conditions` of `JobList` (autosubmit/job/job_list.py).
pub mod WellFormed
use autosubmit.Prelude.{
  ℕ, String, Bool, true, false, Option, none, some, List, [], ◌∷◌, ◌++◌, ◌==◌, contains, nat_eq,
  string_eq, ltb, if◌then◌else◌,
}
use autosubmit.Job.Record.{Edge, Job, Dict}
use autosubmit.JobList.State.{JobList, job, modify}

module _ {V : Type 0} where
  -- `d[key] = v`
  unfoldable pub insert : String → V → Dict V → Dict V
  unfolding string_eq
  insert k v [] = (k, v) ∷ []
  insert k v ((j, w) ∷ d) = if k == j then (j, v) ∷ d else (j, w) ∷ insert k v d

  -- `d[key] = f(d[key])`, where a missing key starts from `start`.
  unfoldable pub update_key : String → V → (V → V) → Dict V → Dict V
  unfolding string_eq
  update_key k start f [] = (k, f start) ∷ []
  update_key k start f ((j, w) ∷ d) =
      if k == j then (j, f w) ∷ d else (j, w) ∷ update_key k start f d

-- `Job.add_edge_info`: STATUS, the parent with its name, and FROM_STEP.
unfoldable pub add_edge_info : String → String → ℕ → Option ℕ → Job → Job
unfolding insert update_key
add_edge_info status name parent step j = record j {
  edge_info =
      update_key status [] (insert name (record { parent = parent; from_step = step })) j.edge_info;
}

-- `set.add`
abbrev pub add_once : ℕ → List ℕ → List ℕ
add_once r rs = if contains rs r then rs else rs ++ (r ∷ [])

unfoldable pub add_edges_map_info : ℕ → String → JobList → JobList
unfolding update_key nat_eq
add_edges_map_info r status l = record l {
  jobs_edges = update_key "ALL" [] (add_once r) (update_key status [] (add_once r) l.jobs_edges);
}

-- `job.max_checkpoint_step` after a FROM_STEP.
abbrev raise_step : Option ℕ → Job → Job
raise_step none j = j
raise_step (some n) j = record j {
  max_checkpoint_step = if ltb j.max_checkpoint_step n then n else j.max_checkpoint_step;
}

-- `add_special_conditions`, of a job and a parent. A STATUS that is missing or empty adds nothing.
unfoldable pub add_special_conditions : ℕ → Option String → Option ℕ → ℕ → JobList → JobList
unfolding add_edge_info add_edges_map_info modify string_eq
add_special_conditions r none step parent l = l
add_special_conditions r (some status) step parent l =
    if status == ""
    then l
    else modify r (λ j. add_edge_info status (job l parent).name parent step (raise_step step j))
        (add_edges_map_info r status l)
