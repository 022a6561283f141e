-- ===== src/Wrapper/Freed.antt =====
-- What the cancelling of a wrapper leaves of its jobs.
use autosubmit.Prelude.{
  ℕ, ◌≡◌, ◌≢◌, refl, ◌∙◌, subst, ◌⊎◌, inl, inr, Bool, true, List, [], ◌∷◌, nat_eq, contains, In,
  Result, ok, run_each, arith,
}
use autosubmit.Job.Status.{Status, completed, failed, waiting, status_eq}
use autosubmit.Job.Record.{Job}
use autosubmit.JobList.State.{put}
use autosubmit.Wrapper.State.{nothing, Remote, Wrapper, cancel, send, assign}
use autosubmit.Wrapper.Check.{fail_job, let_go, cancel_failed_wrapper_job}
use autosubmit.Wrapper.Returns.{
  Same, Same-refl, Same-trans, keep, IsHonest, check_running_jobs-Returns,
}

-- A job that no wrapper holds: it is COMPLETED, FAILED or WAITING.
unfoldable pub is_free : Status → Bool
unfolding status_eq
is_free st = contains (completed ∷ failed ∷ waiting ∷ []) st

abbrev pub IsSettled : Wrapper → Type 0
IsSettled w = (r : ℕ) → In r w.job_list → is_free (w.store r).status ≡ true

let_go-free : (j : Job) → is_free (let_go j).status ≡ true
unfolding let_go is_free status_eq
let_go-free j = ground arith

abbrev pub run_jobs : (Job → Job) → List ℕ → Wrapper → Wrapper
run_jobs f rs w = run_each (λ r. assign r f) rs w

assign_cases :
    (r q : ℕ) (f : Job → Job) (w : Wrapper)
    → ((q ≡ r) × ((assign r f w).store q ≡ f (w.store q)))
      ⊎ ((q ≢ r) × ((assign r f w).store q ≡ w.store q))
unfolding assign put
assign_cases r q f w = ground arith

-- What was free stays so.
run_jobs-free :
    (rs : List ℕ) (w : Wrapper) (q : ℕ)
    → is_free (w.store q).status ≡ true
    → is_free ((run_jobs let_go rs w).store q).status ≡ true
run_jobs-free [] w q h = h
run_jobs-free (r ∷ rs) w q h =
    run_jobs-free rs (assign r let_go w) q (elim (assign_cases r q let_go w) [
      | inl (same, e) ↦ rw e (let_go-free (w.store q))
      | inr (differ, e) ↦ rw e h
    ])

run_jobs_lem :
    (rs : List ℕ) (w : Wrapper) (q : ℕ)
    → In q rs
    → is_free ((run_jobs let_go rs w).store q).status ≡ true
run_jobs_lem [] w q m = elim m [ ]
run_jobs_lem (r ∷ rs) w q m = elim m [
  | inr k ↦ run_jobs_lem rs (assign r let_go w) q k
  | inl e ↦ run_jobs-free rs (assign r let_go w) q (elim (assign_cases r q let_go w) [
    | inl (same, f) ↦ rw f (let_go-free (w.store q))
    | inr (differ, f) ↦ absurd (differ e)
  ])
]

run_jobs-Same : (f : Job → Job) (rs : List ℕ) (w : Wrapper) → Same w (run_jobs f rs w)
unfolding assign
run_jobs-Same f [] w = Same-refl w
run_jobs-Same f (r ∷ rs) w =
    Same-trans w (assign r f w) _ (keep _ _ refl refl refl refl) (run_jobs-Same f rs (assign r f w))

-- The call returns a FAILED wrapper of the same jobs, all of which are free.
abbrev pub Settles : Wrapper → Result Wrapper → Type 0
Settles w m =
    (v : Wrapper) × (m ≡ ok v) × (v.status ≡ failed) × (v.job_list ≡ w.job_list) × IsSettled v

module _ (p : Remote) (answering : (n : ℕ) → p.completed_files n ≢ nothing)
    (honest : IsHonest p) where
  pub cancel_failed_wrapper_job-Settles :
      (w : Wrapper) → w.status ≡ failed → Settles w (cancel_failed_wrapper_job p w)
  unfolding cancel_failed_wrapper_job
  cancel_failed_wrapper_job-Settles w h =
      let (w1, e, same) = check_running_jobs-Returns p answering honest (send cancel w) in
      let w2 : Wrapper = run_jobs fail_job w1.inner_jobs_running w1 in
      let w3 : Wrapper = run_jobs let_go w2.job_list w2 in
      let to2 : Same w1 w2 = run_jobs-Same fail_job w1.inner_jobs_running w1 in
      let to3 : Same w2 w3 = run_jobs-Same let_go w2.job_list w2 in
      (
        w3,
        rw e refl,
        to3.stays_failed (to2.stays_failed (same.stays_failed h)),
        to3.job_list ∙ (to2.job_list ∙ same.job_list),
        λ r m. run_jobs_lem w2.job_list w2 r (subst (In r) to3.job_list m),
      )
