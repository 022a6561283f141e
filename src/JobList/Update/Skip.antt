-- ===== src/JobList/Update/Skip.antt =====
-- The phase of `update_list` that drops skippable jobs which a later chunk or member has overtaken,
-- and `get_skippable_jobs`.
pub mod Keeps
use autosubmit.Prelude.{
  ℕ, suc, Bool, true, not, ◌&&◌, ◌||◌, String, Option, none, some, List, [], ◌∷◌, ◌++◌, ◌==◌,
  nat_eq, string_eq, option_eq, ltb, if◌then◌else◌, filter, Result, ok, err, type_error,
  value_error, ◌>>=◌, for_each,
}
use autosubmit.Job.Status.{Status, status_eq, ready, queuing, running, completed, skipped}
use autosubmit.Job.Record.{Job, Dict}
use autosubmit.JobList.State.{JobList, job, status_of, set_status}
use autosubmit.JobList.Update.Inputs.{Config, Env}

abbrev pub skippable_status : Status → Bool
skippable_status s = s == queuing || (s == running || (s == completed || s == ready))

-- One step of the grouping loop: a new key goes to the end of the dictionary.
add_to_section : String → ℕ → Dict (List ℕ) → Dict (List ℕ)
unfolding string_eq
add_to_section s r [] = (s, r ∷ []) ∷ []
add_to_section s r ((t, rs) ∷ d) =
    if s == t then (t, rs ++ (r ∷ [])) ∷ d else (t, rs) ∷ add_to_section s r d

group_by_section : JobList → List ℕ → Dict (List ℕ) → Dict (List ℕ)
unfolding add_to_section
group_by_section l [] d = d
group_by_section l (r ∷ rs) d = group_by_section l rs (add_to_section (job l r).section r d)

unfoldable pub get_skippable_jobs : Config → JobList → Dict (List ℕ)
unfolding group_by_section status_eq
get_skippable_jobs conf l =
    group_by_section l
      (filter
        (λ r.
          ((job l r).skippable && skippable_status (status_of l r))
          && not (conf.in_wrapper_jobs (job l r).section))
        l.order)
      []

-- The state of the loops: the job list, and whether it is to be saved.
abbrev pub Saving : Type 0
Saving = JobList × Bool

-- `job.status = Status.SKIPPED`, and the cancel command where the job is in the queue.
unfoldable pub skip : ℕ → Saving → Saving
unfolding set_status status_eq
skip r (l, save) =
    if status_of l r == queuing
    then (record (set_status r skipped l) { cancelled = l.cancelled ++ (r ∷ []) }, true)
    else (set_status r skipped l, true)

-- `a < b` on chunks; a chunk that is `None` is a TypeError.
abbrev pub chunk_lt : Option ℕ → Option ℕ → Result Bool
chunk_lt (some a) (some b) = ok (ltb a b)
chunk_lt (some a) none = err type_error
chunk_lt none b = err type_error

index_from : ℕ → Option String → List String → Result ℕ
unfolding string_eq option_eq
index_from n m [] = err value_error
index_from n m (x ∷ xs) = let rest = index_from (suc n) m xs in if m == some x then ok n else rest

-- `members.index(member)`
unfoldable pub member_index : List String → Option String → Result ℕ
unfolding index_from
member_index members m = index_from 0 m members

abbrev pub same_date : Env → Job → Job → Bool
same_date env j k = env.date2str j.date j.date_format == env.date2str k.date k.date_format

-- The bodies of the two loops over `related_job`.
unfoldable pub skip_by_chunk : Env → ℕ → ℕ → Saving → Result Saving
unfolding string_eq option_eq
skip_by_chunk env r q (l, save) = do
  before ← chunk_lt (job l r).chunk (job l q).chunk
  if before && ((job l r).member == (job l q).member && same_date env (job l r) (job l q))
      then ok (skip r (l, save))
      else ok (l, save)

unfoldable pub skip_by_member : Config → Env → ℕ → ℕ → Saving → Result Saving
unfolding member_index string_eq option_eq nat_eq
skip_by_member conf env r q (l, save) = do
  i ← member_index conf.member_list (job l r).member
  j ← member_index conf.member_list (job l q).member
  if ltb i j && ((job l r).chunk == (job l q).chunk && same_date env (job l r) (job l q))
      then ok (skip r (l, save))
      else ok (l, save)

-- The body of the loop over the jobs of a section.
unfoldable pub skip_job : Config → Env → List ℕ → ℕ → Saving → Result Saving
unfolding skip skip_by_chunk skip_by_member status_eq string_eq
skip_job conf env related r (l, save) =
    if status_of l r == ready || status_of l r == queuing
    then (if (job l r).running_kind == "chunk"
        then for_each (skip_by_chunk env r) related (l, save)
        else if (job l r).running_kind == "member"
        then for_each (skip_by_member conf env r) related (l, save)
        else ok (l, save))
    else ok (l, save)

skip_section : Config → Env → String × List ℕ → Saving → Result Saving
unfolding skip_job
skip_section conf env (section, jobs) = for_each (skip_job conf env jobs) jobs

unfoldable pub update_skippable : Config → Env → Saving → Result Saving
unfolding skip_section get_skippable_jobs
update_skippable conf env (l, save) =
    for_each (skip_section conf env) (get_skippable_jobs conf l) (l, save)
