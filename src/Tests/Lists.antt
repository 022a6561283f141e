-- ===== src/Tests/Lists.antt =====
-- The theorems on `update_list` at work on the sample.
use autosubmit.Prelude.{
  ℕ, zero, suc, Bool, false, none, some, [], ◌∷◌, ◌≡◌, refl, inl, inr, nat_eq, string_eq, option_eq,
  All, In, contains, sym, ok, arith, ◌≢◌, ◌↔◌, ◌*◌, ◌^◌, ◌⊎◌,
}
use autosubmit.Prelude.Int.{pos, int_of}
use autosubmit.Job.Status.{status_eq, Status-discrete, waiting, ready, failed, status_of_key}
use autosubmit.JobList.State.{JobList, job, status_of}
use autosubmit.JobList.Edges.{add_special_conditions}
use autosubmit.JobList.Edges.WellFormed.{IsWellFormed, add_special_conditions-IsWellFormed}
use autosubmit.JobList.Links.{one, many, add_parent, add_children}
use autosubmit.JobList.Links.Symmetry.{IsSymmetric, add_parent-add_children-IsSymmetric}
use autosubmit.JobList.Recovery.{check_completed_jobs_after_recovery}
use autosubmit.JobList.Recovery.Settled.{
  IsTopological, IsSettled, check_completed_jobs_after_recovery-IsSettled,
}
use autosubmit.JobList.Update.{update_list}
use autosubmit.JobList.Update.Retry.{update_failed}
use autosubmit.JobList.Update.Retry.Delay.{aux_job_delay, retry_delay_of}
use autosubmit.JobList.Update.Retry.Growth.{retry_delay_forms, retry_delay_plus_prefix}
use autosubmit.JobList.Update.Retry.Outcome.{Distinct, Fate, update_failed_lem}
use autosubmit.JobList.Update.Retry.Step.{IsSane}
use autosubmit.JobList.Update.Waiting.{readied, update_waiting}
use autosubmit.JobList.Update.Waiting.Ready.{Settled, update_waiting-ready_iff}
use autosubmit.JobList.Update.Moves.Whole.{Run, update_list-Run}
use autosubmit.Tests.Samples.{sample, config, env, section, from_ok, from_ok-is_ok}

program : Unit {0}
unfolding update_list update_failed status_of_key aux_job_delay retry_delay_of int_of string_eq
    nat_eq option_eq status_eq Status-discrete update_waiting add_special_conditions
program = tt

sample-IsWellFormed : IsWellFormed sample
unfolding program
sample-IsWellFormed = record { keys = λ r. by_keys r; names = λ r. by_names r }
  where
    by_keys : (r : ℕ) → All (λ (k, v). status_of_key k ≢ none) (job sample r).edge_info
    by_keys zero = tt
    by_keys (suc zero) = tt
    by_keys (suc (suc zero)) = tt
    by_keys (suc (suc (suc zero))) = tt
    by_keys _ = tt

    by_names : (r : ℕ) → status_of_key (job sample r).name ≡ none
    by_names zero = refl
    by_names (suc zero) = refl
    by_names (suc (suc zero)) = refl
    by_names (suc (suc (suc zero))) = refl
    by_names _ = refl

update_waiting-ready_iff_example :
    (status_of sample 1 ≡ waiting
      → ((status_of (update_waiting sample) 1 ≡ ready) ↔ All (Settled sample) (0 ∷ []))
        × ((job (update_waiting sample) 1 ≡ readied (job sample 1))
            ⊎ (job (update_waiting sample) 1 ≡ job sample 1)))
    × (status_of sample 1 ≢ waiting → job (update_waiting sample) 1 ≡ job sample 1)
update_waiting-ready_iff_example =
    update_waiting-ready_iff sample 1 sample-IsWellFormed (inr (inl refl))

add_special_conditions-IsWellFormed_example :
    IsWellFormed (add_special_conditions 1 (some "RUNNING") (some 2) 0 sample)
add_special_conditions-IsWellFormed_example =
    add_special_conditions-IsWellFormed 1 "RUNNING" (some 2) 0 sample known sample-IsWellFormed
  where
    known : status_of_key "RUNNING" ≢ none
    known e = unfold status_of_key string_eq in cc

after : JobList × Bool
after = from_ok (sample, false) (update_list config env [] false false sample)

ran : update_list config env [] false false sample ≡ ok after
unfolding program after autosubmit.JobList.Update.Sync.update_synchronized
    autosubmit.JobList.Update.TwoStep.update_two_step_jobs
    autosubmit.JobList.Update.TwoStep.stamp_ready
ran = from_ok-is_ok (sample, false) (update_list config env [] false false sample) refl

update_list-Run_example : Run sample after.0
update_list-Run_example = update_list-Run config env false false sample after ran

retry_delay_forms_example :
    (retry_delay_of 3 (b'5' ∷ (b'+' ∷ [])) ≡ ok (pos (4 * 5)))
    × (retry_delay_of 3 (b'*' ∷ (b'5' ∷ [])) ≡ ok (pos (5 * 11 ^ 3)))
    × (retry_delay_of 3 (b'5' ∷ []) ≡ ok (pos 5))
retry_delay_forms_example =
    retry_delay_forms 3 (b'5' ∷ []) (unfold nat_eq in refl) (unfold nat_eq in refl)
      (unfold int_of in refl)

retry_delay_plus_prefix_example : retry_delay_of 1 (b'+' ∷ (b'1' ∷ (b'1' ∷ []))) ≡ ok (pos (2 * 1))
retry_delay_plus_prefix_example =
    retry_delay_plus_prefix 1 (b'1' ∷ []) b'1' {d = 1} (unfold int_of in refl)

sane : (q : ℕ) → status_of sample q ≡ failed → IsSane config (job sample q)
unfolding program
sane q h = record {
  section = section;
  known = refl;
  aux = pos 0;
  aux_read = aux_read q;
  from_conf = refl;
  delay = λ n. pos 5;
  delay_read = λ n. refl;
}
  where
    aux_read : (q : ℕ) → aux_job_delay (job sample q).delay_retrials ≡ ok (pos 0)
    aux_read zero = refl
    aux_read (suc zero) = refl
    aux_read (suc (suc zero)) = refl
    aux_read (suc (suc (suc zero))) = refl
    aux_read _ = refl

update_failed_lem_example :
    (l' : JobList) × (update_failed config env sample ≡ ok l')
    × (l'.order ≡ sample.order)
    × ((q : ℕ) → status_of sample q ≢ failed → job l' q ≡ job sample q)
    × ((q : ℕ) → In q sample.order → status_of sample q ≡ failed → Fate config sample q (job l' q))
update_failed_lem_example = update_failed_lem config env sample sane distinct
  where
    distinct : Distinct sample.order
    distinct = (
      ((λ e. omega arith), ((λ e. omega arith), ((λ e. omega arith), tt))),
      (((λ e. omega arith), ((λ e. omega arith), tt)), (((λ e. omega arith), tt), (tt, tt))),
    )

check_completed_jobs_after_recovery-IsSettled_example :
    All (IsSettled (check_completed_jobs_after_recovery sample)) sample.order
check_completed_jobs_after_recovery-IsSettled_example =
    check_completed_jobs_after_recovery-IsSettled sample topological
  where
    topological : IsTopological sample sample.order
    topological =
        unfold nat_eq in
        (
          (
            ((λ e. omega arith), ((λ e. omega arith), ((λ e. omega arith), tt))),
            (refl, (refl, (refl, (refl, tt)))),
          ),
          (
            (((λ e. omega arith), ((λ e. omega arith), tt)), (refl, (refl, (refl, tt)))),
            ((((λ e. omega arith), tt), (refl, (refl, tt))), ((tt, (refl, tt)), tt)),
          ),
        )

unlinked : JobList
unlinked = record sample { store = λ r. record (sample.store r) { parents = [] } }

add_parent-add_children-IsSymmetric_example :
    IsSymmetric (add_parent 3 (many (1 ∷ 2 ∷ []) ∷ one 0 ∷ []) unlinked)
    × IsSymmetric (add_children 3 (1 ∷ []) unlinked)
add_parent-add_children-IsSymmetric_example =
    add_parent-add_children-IsSymmetric 3 (many (1 ∷ 2 ∷ []) ∷ one 0 ∷ []) (1 ∷ []) unlinked
      symmetric
  where
    childless : (p c : ℕ) → contains (job sample p).children c ≡ false
    childless zero c = refl
    childless (suc zero) c = refl
    childless (suc (suc zero)) c = refl
    childless (suc (suc (suc zero))) c = refl
    childless (suc (suc (suc (suc n)))) c = refl

    symmetric : IsSymmetric unlinked
    symmetric c p = unfold unlinked in sym (childless p c)
