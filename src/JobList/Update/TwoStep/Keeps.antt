-- ===== src/JobList/Update/TwoStep/Keeps.antt =====
-- The last phases change no status.
use autosubmit.Prelude.{
  ℕ, ◌≡◌, refl, sym, subst, ◌⊎◌, inl, inr, false, none, nat_eq, string_eq, option_eq, ok, arith,
}
use autosubmit.Job.Status.{status_eq}
use autosubmit.Job.Record.{Job}
use autosubmit.JobList.State.{JobList, job, modify}
use autosubmit.JobList.Update.Inputs.{Env}
use autosubmit.JobList.Update.Frame.{
  Statuses, Frame, Frame-refl, Changes, modify-Frame, run_each-keeps, All-tt,
}
use autosubmit.JobList.Getters.{get_ready}
use autosubmit.JobList.Update.TwoStep.{
  set_ready_date, stamp_ready, pending_first, update_two_step_jobs,
}

abbrev pub no_status : Statuses
no_status s = false

set_ready_date-Changes : (now : ℕ) (j : Job) → Changes no_status (set_ready_date now) j
unfolding set_ready_date
set_ready_date-Changes now j = record {
  name_same = refl;
  section_same = refl;
  parents_same = refl;
  status_moved = inl refl;
}

pub stamp_ready-Frame : (env : Env) (l : JobList) → Frame no_status no_status l (stamp_ready env l)
unfolding stamp_ready
stamp_ready-Frame env l =
    run_each-keeps (Frame no_status no_status l) (λ _. Unit {0})
      (λ r. modify r (set_ready_date (env.ready_now r)))
      (λ r _ m h.
        modify-Frame no_status no_status l m r (set_ready_date (env.ready_now r)) h
          (inr (unfold set_ready_date in refl))
          (set_ready_date-Changes (env.ready_now r) (job m r)))
      (get_ready none false false l) (All-tt (get_ready none false false l)) l
      (Frame-refl no_status no_status l)

pub update_two_step_jobs-Frame :
    (l l' : JobList) → update_two_step_jobs l ≡ ok l' → Frame no_status no_status l l'
update_two_step_jobs-Frame l l' e = elim (cases e) [
  | inl s ↦ subst (Frame no_status no_status l) (sym s) (Frame-refl no_status no_status l)
  | inr s ↦
      let h = Frame-refl no_status no_status l in
      subst (Frame no_status no_status l) (sym s)
        (record { order_same = h.order_same; jobs = h.jobs })
]
  where
    cases :
        update_two_step_jobs l ≡ ok l'
        → (l' ≡ l) ⊎ (l' ≡ record l { jobs_to_run_first = pending_first l })
    cases e = unfold update_two_step_jobs in ground arith
