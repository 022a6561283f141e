-- ===== src/Packager/Ready.antt =====
-- `check_if_packages_are_ready_to_build` of class `JobPackager` (autosubmit/job/job_packager.py).
pub mod Slots
use autosubmit.Prelude.{
  ℕ, zero, suc, ◌+◌, ◌-◌, String, Bool, true, false, not, ◌&&◌, Option, none, some, List, [], ◌∷◌,
  ◌++◌, length, filter, ◌==◌, nat_eq, string_eq, option_eq, contains, ltb, if◌then◌else◌, Result,
  ok, ◌>>=◌,
}
use autosubmit.Prelude.Int.{ℤ, pos, negsuc, sub_ℕ}
use autosubmit.Job.Status.{status_eq, ready}
use autosubmit.JobList.State.{JobList, job}
use autosubmit.JobList.Getters.{get_ready, get_prepared, get_held_jobs, get_submitted}
use autosubmit.Packager.Limits.{Platform, ids_of, calculate_job_limits, has_space}
use autosubmit.Packager.Weight.{Weights, sorted, compute_weight}

-- The packager: its platform, its hold, and `str.upper`.
pub record Packager : Type 0 where
  pub platform : Platform
  pub hold : Bool
  pub upper : String → String

is_empty_list : List ℕ → Bool
is_empty_list [] = true
is_empty_list (r ∷ rs) = false

unfoldable pub delete_last : List ℕ → List ℕ
delete_last [] = []
delete_last (r ∷ []) = []
delete_last (r ∷ (q ∷ rs)) = r ∷ delete_last (q ∷ rs)

-- `len(xs) > slots`
abbrev pub exceeds : ℕ → ℤ → Bool
exceeds n (pos k) = ltb k n
exceeds n (negsuc k) = true

-- `while len(xs) > slots: del xs[-1]`; `none` is the IndexError of an empty list. Each round deletes
-- a job, so one more than the jobs is fuel enough.
unfoldable pub trim : ℕ → ℤ → List ℕ → Option (List ℕ)
unfolding delete_last is_empty_list
trim zero slots rs = none
trim (suc fuel) slots rs =
    let rest = trim fuel slots (delete_last rs) in
    if exceeds (length rs) slots then if is_empty_list rs then none else rest else some rs

-- `xs.remove(x)`, the first of them.
unfoldable pub remove_first : ℕ → List ℕ → List ℕ
unfolding nat_eq
remove_first x [] = []
remove_first x (y ∷ ys) = let rest = remove_first x ys in if x == y then ys else y ∷ rest

get_at : List ℕ → ℕ → Option ℕ
get_at [] i = none
get_at (x ∷ xs) zero = some x
get_at (x ∷ xs) (suc i) = get_at xs i

-- `for x in xs: if weight > 3: xs.remove(x)`: the index goes on over the list that has lost an
-- element. Each round moves the index, so the length of the list is fuel enough.
unfoldable pub remove_heavy : ℕ → Weights → ℕ → List ℕ → List ℕ
unfolding get_at remove_first
remove_heavy zero w i rs = rs
remove_heavy (suc fuel) w i rs = elim (get_at rs i) [
  | none ↦ rs
  | some r ↦ remove_heavy fuel w (i + 1) (if ltb 3 (w r) then remove_first r rs else rs)
]

-- The held slots are kept: with IndexError suppressed, the jobs stay as they were.
unfoldable pub keep_slots : ℤ → Weights → List ℕ → List ℕ
unfolding trim remove_heavy sorted
keep_slots slots w rs = elim (trim (length rs + 1) slots (sorted w rs)) [
  | none ↦ rs
  | some kept ↦ remove_heavy (length kept) w 0 kept
]

module _ (p : Packager) (l : JobList) where
  -- The jobs to run first, else the prepared or the ready ones.
  unfoldable pub find_ready : List ℕ
  unfolding get_ready get_prepared is_empty_list status_eq string_eq
  find_ready =
      let first =
        filter
          (λ r. p.upper (job l r).platform == p.upper p.platform.name && (job l r).status == ready)
          l.jobs_to_run_first in
      if is_empty_list first
      then if p.hold
        then get_prepared (some p.platform.name) l
        else get_ready (some p.platform.name) false false l
      else first

  -- `5 - current_held_jobs`, by the ids of the held and the submitted jobs.
  unfoldable pub held_ids : ℕ
  unfolding ids_of get_held_jobs get_submitted option_eq nat_eq string_eq
  held_ids =
      length
        (ids_of l (get_held_jobs none l ++ get_submitted (some p.platform.name) p.hold false l) [])

  unfoldable pub remaining_held_slots : ℤ
  unfolding held_ids
  remaining_held_slots = sub_ℕ 5 held_ids

  unfoldable pub jobs_to_build : Weights → Result (Weights × List ℕ)
  unfolding find_ready is_empty_list compute_weight keep_slots remaining_held_slots
  jobs_to_build w =
      if p.hold && not (is_empty_list find_ready)
      then (compute_weight l find_ready w >>= λ w'.
          ok (w', keep_slots remaining_held_slots w' find_ready))
      else ok (w, find_ready)

  -- The jobs, and whether the platform has space for them; the limits of the packager are
  -- `calculate_job_limits`.
  unfoldable pub check_if_packages_are_ready_to_build : Weights → Result (Weights × List ℕ × Bool)
  unfolding jobs_to_build is_empty_list calculate_job_limits
  check_if_packages_are_ready_to_build w = jobs_to_build w >>= λ (w', rs).
      ok (w', rs, not (is_empty_list rs) && has_space (calculate_job_limits p.platform none l))
