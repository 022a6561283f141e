-- ===== src/JobList/Update/Retry/Step.antt =====
-- One failed job.
use mathlib.Core.Path.{fun_ext}
use autosubmit.Prelude.{
  ℕ, ◌+◌, ◌≤◌, ◌<◌, ◌≡◌, refl, ap, ◌∙◌, ◌≢◌, ◌⊎◌, inl, inr, Bool, true, false, not, ◌||◌, some,
  nat_eq, Bool-cases, dec_lt, ok, arith,
}
use autosubmit.Prelude.Int.{ℤ, pos, negsuc, positive}
use autosubmit.Job.Status.{status_eq, waiting, ready, failed, delayed}
use autosubmit.Job.Record.{Job}
use autosubmit.JobList.State.{JobList, job, status_of, modify, set_status}
use autosubmit.JobList.Update.Inputs.{SectionConf, Config, Env}
use autosubmit.JobList.Update.Retry.Delay.{aux_job_delay, retry_delay_of}
use autosubmit.JobList.Update.Retry.{
  section_of, all_completed, retrials_of, settle_vertical, inc_fail_count, delay_text, reset, retry,
  retry_failed,
}

-- The configuration can be read: the job's section is known, DELAY_RETRIALS is an integer, the delay
-- is the configuration's, and that one is an integer whatever the number of failures.
pub record IsSane (conf : Config) (j : Job) : Type 0 where
  pub section : SectionConf
  pub known : conf.jobs_data j.section ≡ some section
  pub aux : ℤ
  pub aux_read : aux_job_delay j.delay_retrials ≡ ok aux
  pub from_conf : (section.has_delay || not (positive aux)) ≡ true
  pub delay : ℕ → ℤ
  pub delay_read : (n : ℕ) → retry_delay_of n conf.delay_retry_time ≡ ok (delay n)

-- What may become of a failed job `j`; `tries` are its failures, `done` says whether its parents are
-- all COMPLETED.
pub record Outcome (tries retrials : ℕ) (done : Bool) (j' : Job) : Type 0 where
  pub again :
      tries < retrials
      → done ≡ true
      → ((j'.status ≡ ready) ⊎ (j'.status ≡ delayed)) × (j'.fail_count ≡ tries + 1)
  pub blocked :
      tries < retrials → done ≡ false → (j'.status ≡ waiting) × (j'.fail_count ≡ tries + 1)
  pub given_up : retrials ≤ tries → (j'.status ≡ failed) × (j'.fail_count ≡ tries)

pub record StepTo (conf : Config) (s : SectionConf) (r : ℕ) (l l' : JobList) : Type 0 where
  pub order_same : l'.order ≡ l.order
  pub others : (q : ℕ) → q ≢ r → l'.store q ≡ l.store q
  pub outcome :
      Outcome
        (settle_vertical (job l r)).fail_count
        (retrials_of conf s (job l r))
        (all_completed l (job l r).parents)
        (job l' r)

reset_lem :
    (now : ℕ) (d : ℤ) (j : Job)
    → (((reset now d j).status ≡ ready) ⊎ ((reset now d j).status ≡ delayed))
      × ((reset now d j).fail_count ≡ j.fail_count)
unfolding reset
reset_lem now (pos d) j = ground arith
reset_lem now (negsuc d) j = (inl refl, refl)

settle_vertical_same :
    (j : Job)
    → ((settle_vertical j).status ≡ j.status)
      × ((settle_vertical j).parents ≡ j.parents)
      × ((settle_vertical j).section ≡ j.section)
      × ((settle_vertical j).delay_retrials ≡ j.delay_retrials)
unfolding settle_vertical
settle_vertical_same j = ground arith

module _ (conf : Config) (env : Env) (r : ℕ) (l : JobList) (sane : IsSane conf (job l r)) where
  -- The state before `retry`: only the failures of `r` have changed.
  counted : JobList
  counted = modify r inc_fail_count (modify r settle_vertical l)

  counted_cases :
      (q : ℕ)
      → ((q ≡ r)
          × (counted.store q ≡ record (settle_vertical (l.store q)) {
            fail_count = (settle_vertical (l.store q)).fail_count + 1;
          }))
        ⊎ ((q ≢ r) × (counted.store q ≡ l.store q))
  unfolding counted modify
  counted_cases q = ground arith

  counted_status : (q : ℕ) → status_of counted q ≡ status_of l q
  counted_status q = elim (counted_cases q) [
    | inl (s, e) ↦ ap (λ (j : Job). j.status) e ∙ (settle_vertical_same (l.store q)).0
    | inr (d, e) ↦ ap (λ (j : Job). j.status) e
  ]

  counted_self : counted.store r ≡ record (settle_vertical (job l r)) {
    fail_count = (settle_vertical (job l r)).fail_count + 1;
  }
  counted_self = elim (counted_cases r) [ inl (s, e) ↦ e | inr (d, e) ↦ absurd (d refl) ]

  counted_parents : (job counted r).parents ≡ (job l r).parents
  counted_parents = ap (λ (j : Job). j.parents) counted_self ∙ (settle_vertical_same (job l r)).1

  counted_completed :
      all_completed counted (job counted r).parents ≡ all_completed l (job l r).parents
  counted_completed = rw (counted_parents, fun_ext counted_status)

  counted_text : delay_text conf sane.section (job counted r) ≡ ok conf.delay_retry_time
  unfolding delay_text
  counted_text =
      rw (ap (λ (j : Job). j.delay_retrials) counted_self ∙ (settle_vertical_same (job l r)).3)
        (rw sane.aux_read (rw sane.from_conf))

  retried : JobList
  retried = modify r (reset (env.failed_now r) (sane.delay (job counted r).fail_count)) counted

  retry_again :
      all_completed l (job l r).parents ≡ true → retry conf env sane.section r counted ≡ ok retried
  unfolding retry
  retry_again h =
      rw (counted_completed ∙ h)
        (rw counted_text (rw (sane.delay_read (job counted r).fail_count) (unfold retried in refl)))

  retry_blocked :
      all_completed l (job l r).parents ≡ false
      → retry conf env sane.section r counted ≡ ok (set_status r waiting counted)
  unfolding retry
  retry_blocked h = rw (counted_completed ∙ h)

  tries : ℕ
  tries = (settle_vertical (job l r)).fail_count

  limit : ℕ
  limit = retrials_of conf sane.section (job l r)

  retry_failed_again :
      tries < limit → retry_failed conf env r l ≡ retry conf env sane.section r counted
  unfolding retry_failed section_of tries limit counted modify
  retry_failed_again h = ground (arith, sane.known)

  retry_failed_up :
      limit ≤ tries
      → retry_failed conf env r l ≡ ok (set_status r failed (modify r settle_vertical l))
  unfolding retry_failed section_of tries limit modify
  retry_failed_up h = ground (arith, sane.known)

  counted_other : (q : ℕ) → q ≢ r → counted.store q ≡ l.store q
  counted_other q h = elim (counted_cases q) [ inl (s, e) ↦ absurd (h s) | inr (d, e) ↦ e ]

  counted_fails : (job counted r).fail_count ≡ tries + 1
  unfolding tries
  counted_fails = ap (λ (j : Job). j.fail_count) counted_self

  retried-StepTo :
      tries < limit
      → all_completed l (job l r).parents ≡ true
      → StepTo conf sane.section r l retried
  unfolding retried modify tries limit
  retried-StepTo h d =
      let fate =
        reset_lem (env.failed_now r) (sane.delay (job counted r).fail_count) (job counted r) in
      record {
        order_same = unfold counted in refl;
        others = λ q ne. ground (arith, counted_other q ne);
        outcome = record {
          again = λ _ _. ground (arith, fate, counted_fails);
          blocked = λ _ no_way. ground arith;
          given_up = λ no_way. absurd (omega arith);
        };
      }

  blocked_StepTo :
      tries < limit
      → all_completed l (job l r).parents ≡ false
      → StepTo conf sane.section r l (set_status r waiting counted)
  unfolding set_status modify tries limit
  blocked_StepTo h d = record {
    order_same = unfold counted in refl;
    others = λ q ne. ground (arith, counted_other q ne);
    outcome = record {
      again = λ _ no_way. ground arith;
      blocked = λ _ _. ground (arith, counted_fails);
      given_up = λ no_way. absurd (omega arith);
    };
  }

  given_up_StepTo :
      limit ≤ tries
      → StepTo conf sane.section r l (set_status r failed (modify r settle_vertical l))
  unfolding set_status modify tries limit
  given_up_StepTo h = record {
    order_same = refl;
    others = λ q ne. ground arith;
    outcome = record {
      again = λ no_way _. absurd (omega arith);
      blocked = λ no_way _. absurd (omega arith);
      given_up = λ _. ground arith;
    };
  }

  pub retry_failed_lem :
      (l' : JobList) × (retry_failed conf env r l ≡ ok l') × StepTo conf sane.section r l l'
  retry_failed_lem = elim (dec_lt tries limit) [
    | no up ↦ (
      set_status r failed (modify r settle_vertical l),
      retry_failed_up (omega arith),
      given_up_StepTo (omega arith),
    )
    | yes h ↦ elim (Bool-cases (all_completed l (job l r).parents)) [
      | inl d ↦ (retried, retry_failed_again h ∙ retry_again d, retried-StepTo h d)
      | inr d ↦
          (set_status r waiting counted, retry_failed_again h ∙ retry_blocked d, blocked_StepTo h d)
    ]
  ]
