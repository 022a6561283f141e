-- ===== src/JobList/Update/Retry/Keeps.antt =====
-- The phase of the failed jobs keeps all but the failed jobs.
use autosubmit.Prelude.{
  ℕ, ◌≡◌, refl, subst, inl, inr, true, filter, filter-All, ◌||◌, ◌==◌, ok, ◌>>=◌, >>=-eq-ok,
  Bool-cases, if◌then◌else◌, ltb, arith,
}
use autosubmit.Prelude.Int.{ℤ, pos, negsuc}
use autosubmit.Job.Status.{Status, Status-discrete, status_eq, waiting, ready, delayed, failed}
use autosubmit.Job.Record.{Job}
use autosubmit.JobList.State.{JobList, job, status_of, modify, set_status}
use autosubmit.JobList.Update.Inputs.{Config, Env, SectionConf}
use autosubmit.JobList.Update.Retry.Delay.{retry_delay_of}
use autosubmit.JobList.Update.Retry.{
  section_of, all_completed, retrials_of, delay_text, retry, settle_vertical, inc_fail_count, reset,
  retry_failed, update_failed, clear_failures, not_started, clear_fail_counts,
}
use autosubmit.JobList.Update.Frame.{
  Statuses, Frame, Frame-refl, Changes, modify-Frame, for_each-keeps, run_each-keeps, All-tt,
}

abbrev pub is_failed : Statuses
is_failed s = s == failed

abbrev pub is_retried : Statuses
is_retried s = s == ready || (s == delayed || (s == waiting || s == failed))

reset-Changes : (now : ℕ) (d : ℤ) (j : Job) → Changes is_retried (reset now d) j
unfolding reset
reset-Changes now (pos d) j = record {
  name_same = ground arith;
  section_same = ground arith;
  parents_same = ground arith;
  status_moved = inr (ground arith);
}
reset-Changes now (negsuc d) j = record {
  name_same = refl;
  section_same = refl;
  parents_same = refl;
  status_moved = inr (ground arith);
}

settle_vertical-Changes : (j : Job) → Changes is_retried settle_vertical j
unfolding settle_vertical
settle_vertical-Changes j = record {
  name_same = ground arith;
  section_same = ground arith;
  parents_same = ground arith;
  status_moved = inl (ground arith);
}

unfolded : Unit {0}
unfolding status_eq Status-discrete
unfolded = tt

module _ (conf : Config) (env : Env) (l0 : JobList) where
  assign-Frame :
      (r : ℕ) (st : Status) (l : JobList)
      → is_failed (status_of l0 r) ≡ true
      → is_retried st ≡ true
      → Frame is_failed is_retried l0 l
      → Frame is_failed is_retried l0 (set_status r st l)
  unfolding set_status
  assign-Frame r st l s t h =
      modify-Frame is_failed is_retried l0 l r (λ j. record j { status = st }) h (inl s)
        (record {
          name_same = refl;
          section_same = refl;
          parents_same = refl;
          status_moved = inr t;
        })

  retry-Frame :
      (s : SectionConf) (r : ℕ) (l l' : JobList)
      → is_failed (status_of l0 r) ≡ true
      → Frame is_failed is_retried l0 l
      → retry conf env s r l ≡ ok l'
      → Frame is_failed is_retried l0 l'
  unfolding retry unfolded
  retry-Frame s r l l' w h e = elim (Bool-cases (all_completed l (job l r).parents)) [
    | inr f ↦
        let e' : ok (set_status r waiting l) ≡ ok l' = rw f at e in
        let p : set_status r waiting l ≡ l' = cc in
        subst (Frame is_failed is_retried l0) p (assign-Frame r waiting l w refl h)
    | inl t ↦
        let after = λ (d : ℤ). ok (modify r (reset (env.failed_now r) d) l) in
        let (text, e1, e2) =
          >>=-eq-ok (delay_text conf s (job l r))
            (λ text. retry_delay_of (job l r).fail_count text >>= after) {b = l'} (rw t at e) in
        let (d, e3, e4) = >>=-eq-ok (retry_delay_of (job l r).fail_count text) after e2 in
        let p : modify r (reset (env.failed_now r) d) l ≡ l' = cc in
        subst (Frame is_failed is_retried l0) p (
          modify-Frame is_failed is_retried l0 l r (reset (env.failed_now r) d) h (inl w)
            (reset-Changes (env.failed_now r) d (job l r)))
  ]

  retry_failed-Frame :
      (r : ℕ)
      → is_failed (status_of l0 r) ≡ true
      → (l l' : JobList) → Frame is_failed is_retried l0 l
      → retry_failed conf env r l ≡ ok l'
      → Frame is_failed is_retried l0 l'
  unfolding retry_failed
  retry_failed-Frame r w l l' h e =
      let (s, e1, e2) =
        >>=-eq-ok (section_of conf (job l r).section)
          (λ s.
            let l1 = modify r settle_vertical l in
            if ltb (job l1 r).fail_count (retrials_of conf s (job l r))
            then retry conf env s r (modify r inc_fail_count l1)
            else ok (set_status r failed l1))
          e in
      let l1 = modify r settle_vertical l in
      let h1 : Frame is_failed is_retried l0 l1 =
        modify-Frame is_failed is_retried l0 l r settle_vertical h (inl w)
          (settle_vertical-Changes (job l r)) in
      elim (Bool-cases (ltb (job l1 r).fail_count (retrials_of conf s (job l r)))) [
        | inr f ↦
            let e' : ok (set_status r failed l1) ≡ ok l' = rw f at e2 in
            let p : set_status r failed l1 ≡ l' = cc in
            subst (Frame is_failed is_retried l0) p
              (assign-Frame r failed l1 w (unfold unfolded in refl) h1)
        | inl t ↦
            retry-Frame s r (modify r inc_fail_count l1) l' w
              (modify-Frame is_failed is_retried l0 l1 r inc_fail_count h1 (inl w) (record {
                name_same = refl;
                section_same = refl;
                parents_same = refl;
                status_moved = inl refl;
              }))
              (rw t at e2)
      ]

  pub update_failed-Frame :
      (l' : JobList) → update_failed conf env l0 ≡ ok l' → Frame is_failed is_retried l0 l'
  unfolding update_failed
  update_failed-Frame l' e =
      for_each-keeps (Frame is_failed is_retried l0) (λ r. is_failed (status_of l0 r) ≡ true)
        (retry_failed conf env) (λ r w l l'. retry_failed-Frame r w l l')
        (filter (λ r. is_failed (status_of l0 r)) l0.order)
        (filter-All (λ r. is_failed (status_of l0 r)) l0.order) l0 l' (Frame-refl _ _ l0) e

  clear_failures-Changes : (j : Job) → Changes is_retried (λ k. record k { fail_count = 0 }) j
  clear_failures-Changes j = record {
    name_same = refl;
    section_same = refl;
    parents_same = refl;
    status_moved = inl refl;
  }

  -- On the first iteration no status changes at all.
  pub clear_fail_counts-Frame : Frame is_failed is_retried l0 (clear_fail_counts l0)
  unfolding clear_fail_counts
  clear_fail_counts-Frame =
      run_each-keeps (Frame is_failed is_retried l0) (λ _. Unit {0}) clear_failures
        (λ r _ l h.
          modify-Frame is_failed is_retried l0 l r (λ k. record k { fail_count = 0 }) h (inr refl)
            (clear_failures-Changes (job l r)))
        (filter (λ r. not_started (status_of l0 r)) l0.order)
        (All-tt (filter (λ r. not_started (status_of l0 r)) l0.order)) l0
        (Frame-refl is_failed is_retried l0)
