-- ===== src/JobList/Update/Sync/Keeps.antt =====
-- The phases on COMPLETED and DELAYED jobs keep all but those.
use autosubmit.Prelude.{
  ℕ, ◌≡◌, refl, sym, subst, ◌⊎◌, inl, inr, Bool, true, filter, filter-All, ◌==◌, nat_eq, string_eq,
  option_eq, Bool-cases, leb, arith,
}
use autosubmit.Job.Status.{Status, status_eq, waiting, ready, completed, delayed}
use autosubmit.Job.Record.{Job}
use autosubmit.JobList.State.{JobList, job, status_of, set_status}
use autosubmit.JobList.Update.Inputs.{Env}
use autosubmit.JobList.Update.Frame.{
  Statuses, Frame, Frame-refl, Changes, modify-Frame, run_each-keeps,
}
use autosubmit.JobList.Update.Sync.{sync_job, update_synchronized, wake, update_delayed}

abbrev pub is_completed : Statuses
is_completed s = s == completed

abbrev pub is_waiting : Statuses
is_waiting s = s == waiting

abbrev pub is_delayed : Statuses
is_delayed s = s == delayed

abbrev pub is_ready : Statuses
is_ready s = s == ready

set-Changes : (st : Status) (j : Job) → Changes (λ s. s == st) (λ k. record k { status = st }) j
set-Changes st j = record {
  name_same = refl;
  section_same = refl;
  parents_same = refl;
  status_moved = inr (ground arith);
}

pub set_status-Frame :
    (src : Statuses) (st : Status) (l0 l : JobList) (r : ℕ)
    → Frame src (λ s. s == st) l0 l
    → src (status_of l0 r) ≡ true
    → Frame src (λ s. s == st) l0 (set_status r st l)
unfolding set_status
set_status-Frame src st l0 l r h s =
    modify-Frame src (λ s. s == st) l0 l r (λ k. record k { status = st }) h (inl s)
      (set-Changes st (job l r))

sync_job-Frame :
    (l0 : JobList) (r : ℕ)
    → is_completed (status_of l0 r) ≡ true
    → (s : JobList × Bool) → Frame is_completed is_waiting l0 s.0
    → Frame is_completed is_waiting l0 (sync_job r s).0
sync_job-Frame l0 r c (l, save) h = elim (sync_cases l save) [
  | inl e ↦ subst (Frame is_completed is_waiting l0) (sym e) h
  | inr e ↦
      subst (Frame is_completed is_waiting l0) (sym e)
        (set_status-Frame is_completed waiting l0 l r h c)
]
  where
    sync_cases :
        (l : JobList) (save : Bool)
        → ((sync_job r (l, save)).0 ≡ l) ⊎ ((sync_job r (l, save)).0 ≡ set_status r waiting l)
    sync_cases l save = unfold sync_job in ground arith

pub update_synchronized-Frame :
    (l : JobList) (save : Bool) → Frame is_completed is_waiting l (update_synchronized (l, save)).0
unfolding update_synchronized
update_synchronized-Frame l save =
    run_each-keeps (λ s. Frame is_completed is_waiting l s.0)
      (λ r. is_completed (status_of l r) ≡ true) sync_job (sync_job-Frame l)
      (filter (λ r. is_completed (status_of l r)) l.order)
      (filter-All (λ r. is_completed (status_of l r)) l.order) (l, save)
      (Frame-refl is_completed is_waiting l)

wake-Frame :
    (env : Env) (l0 : JobList) (r : ℕ)
    → is_delayed (status_of l0 r) ≡ true
    → (l : JobList) → Frame is_delayed is_ready l0 l
    → Frame is_delayed is_ready l0 (wake env r l)
wake-Frame env l0 r d l h = elim (Bool-cases (leb (job l r).delay_end (env.delayed_now r))) [
  | inl t ↦ unfold wake in rw t (set_status-Frame is_delayed ready l0 l r h d)
  | inr f ↦ unfold wake in rw f h
]

pub update_delayed-Frame :
    (env : Env) (l : JobList) → Frame is_delayed is_ready l (update_delayed env l)
unfolding update_delayed
update_delayed-Frame env l =
    run_each-keeps (Frame is_delayed is_ready l) (λ r. is_delayed (status_of l r) ≡ true) (wake env)
      (wake-Frame env l) (filter (λ r. is_delayed (status_of l r)) l.order)
      (filter-All (λ r. is_delayed (status_of l r)) l.order) l (Frame-refl is_delayed is_ready l)
