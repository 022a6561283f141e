-- ===== src/JobList/State.antt =====
-- The state of a job list, and the assignments to a job's attributes.
use autosubmit.Prelude.{
  ℕ, ◌≡◌, sym, subst, ◌⊎◌, inl, inr, ◌≢◌, List, ◌==◌, nat_eq, if◌then◌else◌, arith,
}
use autosubmit.Job.Status.{Status}
use autosubmit.Job.Record.{Job, Dict, Store}

pub record JobList : Type 0 where
  -- `_job_list`, and the objects.
  pub order : List ℕ
  pub store : Store
  -- `jobs_edges`: for each special status the jobs that have an edge of it.
  pub jobs_edges : Dict (List ℕ)
  pub jobs_to_run_first : List ℕ
  -- The jobs for which a cancel command was sent to their platform.
  pub cancelled : List ℕ

unfoldable pub put : ℕ → (Job → Job) → Store → Store
put r f s q = if q == r then f (s q) else s q

unfoldable pub modify : ℕ → (Job → Job) → JobList → JobList
unfolding put
modify r f l = record l { store = put r f l.store }

abbrev pub job : JobList → ℕ → Job
job l r = l.store r

abbrev pub status_of : JobList → ℕ → Status
status_of l r = (l.store r).status

-- `job.status = status`
unfoldable pub set_status : ℕ → Status → JobList → JobList
unfolding modify
set_status r st = modify r (λ j. record j { status = st })

pub modify_self : (r : ℕ) (f : Job → Job) (l : JobList) → (modify r f l).store r ≡ f (l.store r)
unfolding modify
modify_self r f l = ground arith

pub modify_other :
    (r q : ℕ) (f : Job → Job) (l : JobList) → q ≢ r → (modify r f l).store q ≡ l.store q
unfolding modify
modify_other r q f l h = ground arith

pub modify_cases :
    (r q : ℕ) (f : Job → Job) (l : JobList)
    → ((q ≡ r) × ((modify r f l).store q ≡ f (l.store q)))
      ⊎ ((q ≢ r) × ((modify r f l).store q ≡ l.store q))
unfolding modify
modify_cases r q f l = ground arith

-- What holds of every job and of the image of one holds after the change.
pub modify_all :
    (P : Job → Type 0) (r : ℕ) (f : Job → Job) (l : JobList)
    → ((q : ℕ) → P (l.store q))
    → (P (l.store r) → P (f (l.store r)))
    → (q : ℕ) → P ((modify r f l).store q)
modify_all P r f l h keep q = elim (modify_cases r q f l) [
  | inl (same, e) ↦ subst P (sym e) (subst (λ x. P (f (l.store x))) (sym same) (keep (h r)))
  | inr (differ, e) ↦ subst P (sym e) (h q)
]
