-- ===== src/Wrapper/Settles.antt =====
-- What a wrapper that failed leaves of its jobs.
use autosubmit.Prelude.{
  ℕ, ◌≡◌, ◌≢◌, refl, sym, ap, ◌∙◌, subst, ◌⊎◌, inl, inr, Bool, true, false, ◌&&◌, List, [], ◌∷◌,
  nat_eq, contains, if◌then◌else◌, Bool-cases, Result, ok, arith,
}
use autosubmit.Job.Status.{
  Status, completed, failed, waiting, unknown, submitted, queuing, status_eq, ready, running, held,
  prepared, skipped, delayed, suspended,
}
use autosubmit.Wrapper.State.{nothing, Remote, Wrapper, ask, set_wrapper_status}
use autosubmit.Wrapper.Check.{
  find_failed, look_for_failed, is_empty, after_failure, cancel_if_over, check_failed,
  check_inner_jobs, check_status, update_failed_jobs,
}
use autosubmit.Wrapper.Returns.{IsHonest, check_running_jobs-Returns, update_failed_jobs-Returns}
use autosubmit.Wrapper.Freed.{IsSettled, cancel_failed_wrapper_job-Settles}

clash : {b : Bool} → b ≡ true → b ≡ false → ⊥
clash t f = cc

module _ (p : Remote) (answering : (n : ℕ) → p.completed_files n ≢ nothing)
    (honest : IsHonest p) where
  find_failed_lem :
      (rs : List ℕ) (w : Wrapper)
      → ((find_failed p rs w).job_list ≡ w.job_list) × ((find_failed p rs w).status ≡ w.status)
  unfolding find_failed
  find_failed_lem [] w = (refl, refl)
  find_failed_lem (r ∷ rs) w = elim (Bool-cases (p.failed_file w.asked r)) [
    | inl t ↦ rw (t, find_failed) (refl, refl)
    | inr f ↦ rw (f, find_failed) (find_failed_lem rs (ask w))
  ]

  look_for_failed_lem :
      (w : Wrapper)
      → ((look_for_failed p w).job_list ≡ w.job_list)
        × ((look_for_failed p w).status ≡ w.status)
        × (w.failed ≡ true → (look_for_failed p w).failed ≡ true)
  unfolding look_for_failed
  look_for_failed_lem w = elim (Bool-cases w.failed) [
    | inl marked ↦
        let e : look_for_failed p w ≡ w =
          subst (λ b. (if b then w else look) ≡ w) (sym marked) refl in
        rw e (refl, refl, λ h. h)
    | inr unmarked ↦
        let e : look_for_failed p w ≡ look =
          subst (λ b. (if b then w else look) ≡ look) (sym unmarked) refl in
        let (a, b) = look_lem in rw e (a, b, λ h. absurd (clash h unmarked))
  ]
    where
      look : Wrapper
      look = if p.wrapper_failed w.asked then find_failed p w.inner_jobs_running (ask w) else ask w

      look_lem : (look.job_list ≡ w.job_list) × (look.status ≡ w.status)
      look_lem = elim (Bool-cases (p.wrapper_failed w.asked)) [
        | inl t ↦ rw t (find_failed_lem w.inner_jobs_running (ask w))
        | inr f ↦ rw f (refl, refl)
      ]

  -- The jobs are free, unless the wrapper was not marked and had jobs that run.
  SettlesUnless : Type 0 → Wrapper → Result Wrapper → Type 0
  SettlesUnless P w m =
      (v : Wrapper) × (m ≡ ok v)
      × (v.status ≡ failed)
      × (v.job_list ≡ w.job_list)
      × (IsSettled v ⊎ P)

  cancel_if_over_lem :
      (w : Wrapper)
      → w.status ≡ failed
      → SettlesUnless
          ((w.failed ≡ false) × (is_empty w.inner_jobs_running ≡ false))
          w
          (cancel_if_over p w)
  unfolding cancel_if_over SettlesUnless
  cancel_if_over_lem w h = elim (Bool-cases (is_empty w.inner_jobs_running)) [
    | inl none_runs ↦
        let (v, e, a, b, settled) = cancel_failed_wrapper_job-Settles p answering honest w h in
        rw (none_runs, cancel_if_over) (v, e, a, b, inl settled)
    | inr some_run ↦
        let w1 : Wrapper = look_for_failed p w in
        let (jobs, st, marked) = look_for_failed_lem w in
        elim (Bool-cases w1.failed) [
          | inr unmarked ↦
              let unmarked_first : w.failed ≡ false = elim (Bool-cases w.failed) [
                | inl t ↦ absurd (clash (marked t) unmarked)
                | inr f ↦ f
              ] in
              (
                w1,
                rw
                    (
                      some_run,
                      updated w1 (ok w1) (inr (unmarked, refl)),
                      unmarked_end unmarked,
                      cancel_if_over,
                    )
                    refl,
                st ∙ h,
                jobs,
                inr (unmarked_first, some_run),
              )
          | inl mark ↦
              let (w2, e, same) = update_failed_jobs-Returns p answering false w1 in
              let (v, f, a, b, settled) =
                cancel_failed_wrapper_job-Settles p answering honest w2
                  (same.stays_failed (st ∙ h)) in
              let g : (w2.failed && is_empty w2.inner_jobs_running) ≡ true =
                ap (λ b. b && is_empty w2.inner_jobs_running) (same.failed_mark ∙ mark)
                ∙ ap is_empty same.running in
              (
                v,
                rw (some_run, updated w1 (ok w2) (inl (mark, e)), g, cancel_if_over) f,
                a,
                b ∙ (same.job_list ∙ jobs),
                inl settled,
              )
        ]
  ]
    where
      updated :
          (w1 : Wrapper) (m : Result Wrapper)
          → ((w1.failed ≡ true) × (update_failed_jobs p false w1 ≡ m))
            ⊎ ((w1.failed ≡ false) × (ok w1 ≡ m))
          → (if w1.failed then update_failed_jobs p false w1 else ok w1) ≡ m
      updated w1 m h = elim h [
        | inl (t, e) ↦
            subst (λ b. (if b then update_failed_jobs p false w1 else ok w1) ≡ m) (sym t) e
        | inr (f, e) ↦
            subst (λ b. (if b then update_failed_jobs p false w1 else ok w1) ≡ m) (sym f) e
      ]

      unmarked_end :
          (look_for_failed p w).failed ≡ false
          → ((look_for_failed p w).failed && is_empty (look_for_failed p w).inner_jobs_running)
            ≡ false
      unmarked_end f = ap (λ b. b && is_empty (look_for_failed p w).inner_jobs_running) f

  -- The wrapper after `after_failure`.
  after_failure_lem :
      (w : Wrapper)
      → w.status ≡ failed
      → (v : Wrapper) × (after_failure p w ≡ ok v)
        × (v.status ≡ failed)
        × (v.job_list ≡ w.job_list)
        × ((v.failed ≡ false) × (is_empty v.inner_jobs_running ≡ false)
            → (contains (submitted ∷ queuing ∷ failed ∷ unknown ∷ []) w.prev_status ≡ false)
              × (w.failed ≡ false)
              × (is_empty w.inner_jobs_running ≡ false))
  unfolding after_failure status_eq
  after_failure_lem w h = elim (Bool-cases (contains (submitted ∷ queuing ∷ []) w.prev_status)) [
    | inl was_queued ↦
        let (v, e, same) = update_failed_jobs-Returns p answering true w in
        (
          v,
          rw (was_queued, after_failure) e,
          same.stays_failed h,
          same.job_list,
          λ x. absurd (clash (ap is_empty same.running) x.1),
        )
    | inr not_queued ↦ elim (Bool-cases (contains (failed ∷ unknown ∷ []) w.prev_status)) [
      | inl was_failed ↦
          let (v, e, same) =
            check_running_jobs-Returns p answering honest (record w { failed = true }) in
          (
            v,
            rw (not_queued, was_failed, after_failure) e,
            same.stays_failed h,
            same.job_list,
            λ x. absurd (clash same.failed_mark x.0),
          )
      | inr neither ↦
          (w, rw (not_queued, neither, after_failure) refl, h, refl, λ x. (ground arith, x.0, x.1))
    ]
  ]

  -- No branch on the inner jobs is taken.
  no_inner :
      (st : Status) (w : Wrapper)
      → contains (failed ∷ unknown ∷ []) st ≡ true
      → check_inner_jobs p (record w { prev_status = w.status; status = st })
        ≡ ok (record w { prev_status = w.status; status = st })
  unfolding check_inner_jobs status_eq
  no_inner failed w h = refl
  no_inner unknown w h = refl
  no_inner waiting w h = absurd (cc)
  no_inner ready w h = absurd (cc)
  no_inner submitted w h = absurd (cc)
  no_inner queuing w h = absurd (cc)
  no_inner running w h = absurd (cc)
  no_inner completed w h = absurd (cc)
  no_inner held w h = absurd (cc)
  no_inner prepared w h = absurd (cc)
  no_inner skipped w h = absurd (cc)
  no_inner delayed w h = absurd (cc)
  no_inner suspended w h = absurd (cc)

  -- A check that finds a wrapper FAILED or UNKNOWN returns, for a platform that answers every question
  -- for COMPLETED files and whose outputs name only the jobs that were asked for. The wrapper is then
  -- FAILED and has the same jobs, and each of them is COMPLETED, FAILED or WAITING, unless the wrapper
  -- was not marked as failed, was neither SUBMITTED, QUEUING, FAILED nor UNKNOWN before, and had jobs
  -- that run.
  pub check_status-IsSettled :
      (st : Status) (w : Wrapper)
      → contains (failed ∷ unknown ∷ []) st ≡ true
      → (v : Wrapper) × (check_status p st w ≡ ok v)
        × (v.status ≡ failed)
        × (v.job_list ≡ w.job_list)
        × (IsSettled v
            ⊎ ((contains (submitted ∷ queuing ∷ failed ∷ unknown ∷ []) w.status ≡ false)
                × (w.failed ≡ false)
                × (is_empty w.inner_jobs_running ≡ false)))
  unfolding check_status check_failed SettlesUnless
  check_status-IsSettled st w h =
      let w1 : Wrapper = record w { prev_status = w.status; status = st } in
      let (w2, e, failed2, jobs2, unless) = after_failure_lem (set_wrapper_status failed w1) refl in
      let (v, f, failed3, jobs3, result) = cancel_if_over_lem w2 failed2 in
      (
        v,
        rw (no_inner st w h, h, e) f,
        failed3,
        jobs3 ∙ jobs2,
        elim result [ inl settled ↦ inl settled | inr x ↦ inr (unless x) ],
      )
