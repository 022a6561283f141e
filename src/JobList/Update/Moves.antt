-- ===== src/JobList/Update/Moves.antt =====
-- The state machine that `update_list` walks a job along, when the user gives no update file.
pub mod Whole
use autosubmit.Prelude.{
  ℕ, ◌≡◌, refl, sym, ap, ◌∙◌, subst, ◌≢◌, ◌⊎◌, inl, inr, Bool, true, false, ◌||◌, List, [], ◌∷◌,
  ◌==◌, ==-eq, Result, ok, err, ◌>>=◌, >>=-eq-ok, Bool-cases, if◌then◌else◌, none, not, length,
  arith,
}
use autosubmit.Job.Status.{
  Status, Status-discrete, status_eq, waiting, ready, submitted, queuing, running, completed, held,
  prepared, skipped, failed, delayed, unknown, suspended,
}
use autosubmit.Job.Record.{Job}
use autosubmit.JobList.State.{JobList, job, status_of}
use autosubmit.JobList.Getters.{get_failed}
use autosubmit.JobList.Update.{update_failures, update_pending, update_list}
use autosubmit.JobList.Update.Inputs.{Config, Env}
use autosubmit.JobList.Update.File.{update_from_file}
use autosubmit.JobList.Update.Frame.{Statuses, Kept, Frame, Frame-refl}
use autosubmit.JobList.Update.Retry.{update_failed}
use autosubmit.JobList.Update.Retry.Keeps.{
  is_failed, is_retried, update_failed-Frame, clear_fail_counts-Frame,
}
use autosubmit.JobList.Update.Special.{update_special}
use autosubmit.JobList.Update.Special.Keeps.{update_special-Frame}
use autosubmit.JobList.Update.Sync.{update_synchronized, update_delayed}
use autosubmit.JobList.Update.Sync.Keeps.{
  is_completed, is_waiting, is_delayed, is_ready, update_synchronized-Frame, update_delayed-Frame,
}
use autosubmit.JobList.Update.Waiting.{update_waiting}
use autosubmit.JobList.Update.Waiting.Keeps.{update_waiting-Frame}
use autosubmit.JobList.Update.Skip.{update_skippable}
use autosubmit.JobList.Update.Skip.Keeps.{is_startable, is_skipped, update_skippable-Frame}
use autosubmit.JobList.Update.TwoStep.{stamp_ready, update_two_step_jobs}
use autosubmit.JobList.Update.TwoStep.Keeps.{
  no_status, stamp_ready-Frame, update_two_step_jobs-Frame,
}

-- One change of a job's status.
pub data Move : Status → Status → Type 0 where
  retry_now : Move failed ready
  retry_later : Move failed delayed
  retry_blocked : Move failed waiting
  resynchronize : Move completed waiting
  release : Move waiting ready
  wake : Move delayed ready
  skip_ready : Move ready skipped
  skip_queuing : Move queuing skipped

pub data Reach (s : Status) : Status → Type 0 where
  here : Reach s s
  next : {t u : Status} → Reach s t → Move t u → Reach s u

pub Reach-trans : {s t u : Status} → Reach s t → Reach t u → Reach s u
Reach-trans r here = r
Reach-trans r (next q m) = next (Reach-trans r q) m

-- What the method leaves of a job: its name, section and parents, and a walk of its status.
pub record Walks (j j' : Job) : Type 0 where
  pub name_same : j'.name ≡ j.name
  pub section_same : j'.section ≡ j.section
  pub parents_same : j'.parents ≡ j.parents
  pub walk : Reach j.status j'.status

Walks-trans : {j j' j'' : Job} → Walks j j' → Walks j' j'' → Walks j j''
Walks-trans v w = record {
  name_same = w.name_same ∙ v.name_same;
  section_same = w.section_same ∙ v.section_same;
  parents_same = w.parents_same ∙ v.parents_same;
  walk = Reach-trans v.walk w.walk;
}

-- The targets of a phase can be reached from its sources.
abbrev Leads : Statuses → Statuses → Type 0
Leads src tgt = (s t : Status) → src s ≡ true → tgt t ≡ true → Reach s t

Kept-Walks : {src tgt : Statuses} {j j' : Job} → Leads src tgt → Kept src tgt j j' → Walks j j'
Kept-Walks {j = j} {j' = j'} leads k = record {
  name_same = k.name_same;
  section_same = k.section_same;
  parents_same = k.parents_same;
  walk = elim (k.status_moved) [
    | inl e ↦ subst (Reach j.status) (sym e) here
    | inr m ↦ leads j.status j'.status m.0 m.1
  ];
}

by_one : (s t s' t' : Status) → Move s t → (s' == s) ≡ true → (t' == t) ≡ true → Reach s' t'
by_one s t s' t' m p q =
    subst (Reach s') (sym (==-eq t' t q))
      (subst (λ x. Reach x t) (sym (==-eq s' s p)) (next here m))

failed-Leads : Leads is_failed is_retried
failed-Leads s ready p q = by_one failed ready s ready retry_now p (unfold status_eq in refl)
failed-Leads s delayed p q =
    by_one failed delayed s delayed retry_later p (unfold status_eq in refl)
failed-Leads s waiting p q =
    by_one failed waiting s waiting retry_blocked p (unfold status_eq in refl)
failed-Leads s failed p q = subst (λ x. Reach x failed) (sym (==-eq s failed p)) here
failed-Leads s _ p q = absurd (unfold status_eq Status-discrete in cc)

waiting-Leads : Leads is_waiting is_ready
waiting-Leads s t p q = by_one waiting ready s t release p q

completed-Leads : Leads is_completed is_waiting
completed-Leads s t p q = by_one completed waiting s t resynchronize p q

delayed-Leads : Leads is_delayed is_ready
delayed-Leads s t p q = by_one delayed ready s t wake p q

startable-Leads : Leads is_startable is_skipped
startable-Leads ready t p q = by_one ready skipped ready t skip_ready (unfold status_eq in refl) q
startable-Leads queuing t p q =
    by_one queuing skipped queuing t skip_queuing (unfold status_eq in refl) q
startable-Leads _ t p q = absurd (unfold status_eq Status-discrete in cc)

nothing-Leads : Leads no_status no_status
nothing-Leads s t p q = absurd (let e : false ≡ true = p in cc)
