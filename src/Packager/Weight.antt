-- ===== src/Packager/Weight.antt =====
-- `compute_weight` of class `JobPackager` (autosubmit/job/job_packager.py): the order in which jobs are
-- held.
pub mod Sorted
use autosubmit.Prelude.{
  ℕ, suc, ◌+◌, ◌-◌, String, Bool, true, false, not, ◌&&◌, Option, none, some, List, [], ◌∷◌, ◌++◌,
  length, any, filter, ◌==◌, nat_eq, string_eq, contains, ltb, leb, if◌then◌else◌, Result, ok, err,
  type_error, ◌>>=◌, for_each, run_each,
}
use autosubmit.Job.Status.{status_eq, completed}
use autosubmit.JobList.State.{JobList, job}
use autosubmit.JobList.Getters.{get_held_jobs}
use autosubmit.JobList.Links.{has_parents}

-- `job.distance_weight`, by the job.
abbrev pub Weights : Type 0
Weights = ℕ → ℕ

unfoldable pub set_weight : ℕ → ℕ → Weights → Weights
unfolding nat_eq
set_weight r n w q = if q == r then n else w q

module _ (key : ℕ → ℕ) where
  unfoldable insert_sorted : ℕ → List ℕ → List ℕ
  insert_sorted x [] = x ∷ []
  insert_sorted x (y ∷ ys) =
      let rest = insert_sorted x ys in if ltb (key x) (key y) then x ∷ (y ∷ ys) else y ∷ rest

  unfoldable sort_from : List ℕ → List ℕ → List ℕ
  unfolding insert_sorted
  sort_from [] done = done
  sort_from (x ∷ xs) done = sort_from xs (insert_sorted x done)

  -- `sorted(xs, key=key)`, which is stable.
  unfoldable pub sorted : List ℕ → List ℕ
  unfolding sort_from
  sorted xs = sort_from xs []

chunk_key : Option ℕ → ℕ
chunk_key none = 0
chunk_key (some n) = n

has_no_chunk : Option ℕ → Bool
has_no_chunk none = true
has_no_chunk (some n) = false

module _ (l : JobList) where
  -- `sorted(jobs, key=attrgetter("chunk"))`: `None` cannot be compared.
  unfoldable pub sorted_by_chunk : List ℕ → Result (List ℕ)
  unfolding sorted chunk_key has_no_chunk
  sorted_by_chunk rs =
      if ltb 1 (length rs) && any (λ r. has_no_chunk (job l r).chunk) rs
      then err type_error
      else ok (sorted (λ r. chunk_key (job l r).chunk) rs)

  -- The keys of `jobs_by_section`, in the order of insertion.
  unfoldable pub sections_of : List ℕ → List String → List String
  unfolding string_eq
  sections_of [] seen = seen
  sections_of (r ∷ rs) seen =
      let s = (job l r).section in
      sections_of rs (if contains seen s then seen else seen ++ (s ∷ []))

  -- `len(jobs_held_by_section[section]) + 1`, or 1.
  unfoldable pub first_weight : String → ℕ
  unfolding get_held_jobs string_eq
  first_weight section =
      length (filter (λ r. (job l r).section == section) (get_held_jobs none l)) + 1

  -- The loop over the jobs of a section.
  unfoldable pub weigh : List ℕ → ℕ → Weights → Weights
  unfolding set_weight
  weigh [] n w = w
  weigh (r ∷ rs) n w = weigh rs (n + 1) (set_weight r (n + 1) w)

  -- `completed_jobs` is 9999 again for each job.
  unfoldable pub note_highest : ℕ → List ℕ → List ℕ
  unfolding has_parents status_eq
  note_highest r highest =
      if ltb 1 (has_parents (job l r))
      then if ltb 9999 (length (filter (λ q. (job l q).status == completed) (job l r).parents))
        then r ∷ []
        else highest ++ (r ∷ [])
      else highest

  unfoldable pub highest_completed : List ℕ → List ℕ
  unfolding note_highest
  highest_completed rs = run_each note_highest rs []

  unfoldable pub lighten : List ℕ → Weights → Weights
  unfolding set_weight highest_completed
  lighten rs = run_each (λ r w. set_weight r (w r - 1) w) (highest_completed rs)

  unfoldable pub weigh_section : List ℕ → String → Weights → Result Weights
  unfolding sorted_by_chunk first_weight weigh lighten status_eq string_eq
  weigh_section jobs section w = do
    rs ←
        sorted_by_chunk
          (filter (λ r. (job l r).section == section && not ((job l r).status == completed)) jobs)
    ok (lighten rs (weigh rs (first_weight section) w))

  unfoldable pub compute_weight : List ℕ → Weights → Result Weights
  unfolding sections_of weigh_section
  compute_weight jobs = for_each (weigh_section jobs) (sections_of jobs [])
