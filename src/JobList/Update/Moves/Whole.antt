-- ===== src/JobList/Update/Moves/Whole.antt =====
-- The walk of the whole method, phase after phase.
use autosubmit.Prelude.{
  ℕ, ◌≡◌, ◌∙◌, subst, Bool, true, false, ◌||◌, [], ◌==◌, Result, ok, ◌>>=◌, >>=-eq-ok, nat_eq, none,
  not, length,
}
use autosubmit.Job.Status.{status_eq}
use autosubmit.JobList.State.{JobList, job}
use autosubmit.JobList.Getters.{get_failed}
use autosubmit.JobList.Update.{update_failures, update_pending, update_list}
use autosubmit.JobList.Update.Inputs.{Config, Env}
use autosubmit.JobList.Update.File.{update_from_file}
use autosubmit.JobList.Update.Frame.{Statuses, Frame, Frame-refl}
use autosubmit.JobList.Update.Retry.{update_failed, clear_fail_counts}
use autosubmit.JobList.Update.Retry.Keeps.{
  is_failed, is_retried, update_failed-Frame, clear_fail_counts-Frame,
}
use autosubmit.JobList.Update.Special.{update_special}
use autosubmit.JobList.Update.Special.Keeps.{update_special-Frame}
use autosubmit.JobList.Update.Sync.{update_synchronized, update_delayed}
use autosubmit.JobList.Update.Sync.Keeps.{update_synchronized-Frame, update_delayed-Frame}
use autosubmit.JobList.Update.Waiting.{update_waiting}
use autosubmit.JobList.Update.Waiting.Keeps.{update_waiting-Frame}
use autosubmit.JobList.Update.Skip.Keeps.{update_skippable-Frame}
use autosubmit.JobList.Update.TwoStep.{stamp_ready, update_two_step_jobs}
use autosubmit.JobList.Update.TwoStep.Keeps.{
  no_status, stamp_ready-Frame, update_two_step_jobs-Frame,
}
use autosubmit.JobList.Update.Moves.{
  Walks, Walks-trans, Leads, Kept-Walks, failed-Leads, waiting-Leads, completed-Leads,
  delayed-Leads, startable-Leads, nothing-Leads,
}

-- The same jobs, each on a walk.
pub record Run (l l' : JobList) : Type 0 where
  pub order_same : l'.order ≡ l.order
  pub walks : (q : ℕ) → Walks (job l q) (job l' q)

Run-trans : {l l' l'' : JobList} → Run l l' → Run l' l'' → Run l l''
Run-trans r s = record {
  order_same = s.order_same ∙ r.order_same;
  walks = λ q. Walks-trans (r.walks q) (s.walks q);
}

Frame-Run : {src tgt : Statuses} {l l' : JobList} → Leads src tgt → Frame src tgt l l' → Run l l'
Frame-Run leads f = record { order_same = f.order_same; walks = λ q. Kept-Walks leads (f.jobs q) }

module _ (conf : Config) (env : Env) where
  update_failures-Run :
      (first_time : Bool) (l : JobList) (s' : JobList × Bool)
      → update_failures conf env first_time l ≡ ok s'
      → Run l s'.0
  unfolding update_failures
  update_failures-Run true l s' e = Frame-Run failed-Leads (
      subst (λ (s : JobList × Bool). Frame is_failed is_retried l s.0) (done e)
        (clear_fail_counts-Frame conf env l))
    where
      done : ok (clear_fail_counts l, false) ≡ ok s' → (clear_fail_counts l, false) ≡ s'
      done e = cc
  update_failures-Run false l s' e =
      let (m, e1, e2) = >>=-eq-ok (update_failed conf env l) (λ m. ok (saved m)) {b = s'} e in
      Frame-Run failed-Leads (
        subst (λ (s : JobList × Bool). Frame is_failed is_retried l s.0) (done m e2)
          (update_failed-Frame conf env l m e1))
    where
      saved : JobList → JobList × Bool
      saved m = (m, not (length (get_failed none false l) == 0))

      done : (m : JobList) → ok (saved m) ≡ ok s' → saved m ≡ s'
      done m e = cc

  update_pending-Run :
      (from_set_status : Bool) (s s' : JobList × Bool)
      → update_pending conf env from_set_status s ≡ ok s'
      → Run s.0 s'.0
  unfolding update_pending
  update_pending-Run true (l, save) s' e = Frame-Run nothing-Leads (
      subst (λ (s : JobList × Bool). Frame no_status no_status l s.0) (done e)
        (Frame-refl no_status no_status l))
    where
      done : ok (l, save) ≡ ok s' → (l, save) ≡ s'
      done e = cc
  update_pending-Run false (l, save) s' e =
      Run-trans (Frame-Run delayed-Leads (update_delayed-Frame env l)) (
        Run-trans (Frame-Run waiting-Leads (update_waiting-Frame (update_delayed env l))) (
          Frame-Run startable-Leads
            (update_skippable-Frame conf env (update_waiting (update_delayed env l)) save s' e)))

  module _ (from_set_status first_time : Bool) where
    last : JobList × Bool → JobList → Result (JobList × Bool)
    last s5 l6 = ok (l6, s5.1)

    from_pending : JobList × Bool → Result (JobList × Bool)
    from_pending s5 = update_two_step_jobs (stamp_ready env s5.0) >>= last s5

    from_special : JobList × Bool → JobList × Bool → Result (JobList × Bool)
    from_special s2 s3 =
        update_pending conf env from_set_status (update_synchronized (s3.0, s2.1 || s3.1))
        >>= from_pending

    from_failures : JobList × Bool → Result (JobList × Bool)
    from_failures s2 = update_special env s2.0 >>= from_special s2

    from_pending-Run : (s5 s' : JobList × Bool) → from_pending s5 ≡ ok s' → Run s5.0 s'.0
    unfolding from_pending last
    from_pending-Run s5 s' e =
        let (l6, e1, e2) = >>=-eq-ok (update_two_step_jobs (stamp_ready env s5.0)) (last s5) e in
        let stamped = Frame-Run nothing-Leads (stamp_ready-Frame env s5.0) in
        subst (λ (s : JobList × Bool). Run s5.0 s.0) (done l6 e2)
          (Run-trans stamped
            (Frame-Run nothing-Leads (update_two_step_jobs-Frame (stamp_ready env s5.0) l6 e1)))
      where
        done : (l6 : JobList) → ok (l6, s5.1) ≡ ok s' → (l6, s5.1) ≡ s'
        done l6 e = cc

    from_special-Run : (s2 s3 s' : JobList × Bool) → from_special s2 s3 ≡ ok s' → Run s3.0 s'.0
    unfolding from_special
    from_special-Run s2 s3 s' e =
        let s4 = update_synchronized (s3.0, s2.1 || s3.1) in
        let (s5, e1, e2) = >>=-eq-ok (update_pending conf env from_set_status s4) from_pending e in
        Run-trans (Frame-Run completed-Leads (update_synchronized-Frame s3.0 (s2.1 || s3.1)))
          (Run-trans (update_pending-Run from_set_status s4 s5 e1) (from_pending-Run s5 s' e2))

    -- Without an update file, and where it returns, `update_list` keeps the list and each job's name,
    -- section and parents, and moves each job's status along `Move` only: a FAILED job to READY, DELAYED or
    -- WAITING, a COMPLETED one to WAITING, WAITING and DELAYED ones to READY, and READY and QUEUING
    -- ones to SKIPPED, in any number of steps.
    pub update_list-Run :
        (l : JobList) (s' : JobList × Bool)
        → update_list conf env [] from_set_status first_time l ≡ ok s'
        → Run l s'.0
    unfolding update_list update_from_file from_failures from_special from_pending last
    update_list-Run l s' e =
        let (s2, e1, e2) =
          >>=-eq-ok (update_failures conf env first_time l) from_failures {b = s'} e in
        let (s3, e3, e4) = >>=-eq-ok (update_special env s2.0) (from_special s2) {b = s'} e2 in
        Run-trans (update_failures-Run first_time l s2 e1) (
          Run-trans (Frame-Run waiting-Leads (update_special-Frame env s2.0 s3 e3))
            (from_special-Run s2 s3 s' e4))
