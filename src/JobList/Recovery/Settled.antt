-- ===== src/JobList/Recovery/Settled.antt =====
-- What the check leaves of a list in which parents stand before their children.
use autosubmit.Prelude.{
  ℕ, ◌≡◌, refl, sym, ap, ◌∙◌, subst, ◌≢◌, true, false, List, [], ◌∷◌, ◌==◌, nat_eq, any, contains,
  All, All-map, All-zip, All-zip, run_each, Bool-cases, inl, inr, arith,
}
use autosubmit.Job.Status.{status_eq, waiting, completed}
use autosubmit.Job.Record.{Job}
use autosubmit.JobList.State.{JobList, job, status_of, modify}
use autosubmit.JobList.Recovery.{is_stale, recheck, check_completed_jobs_after_recovery}

-- In the list no job stands twice, and none after or at one of its children.
abbrev pub IsTopological : JobList → List ℕ → Type 0
IsTopological l [] = Unit
IsTopological l (r ∷ rs) =
    (All (λ q. q ≢ r) rs × All (λ q. contains (job l r).parents q ≡ false) (r ∷ rs))
    × IsTopological l rs

-- A COMPLETED job has no WAITING parent.
abbrev pub IsSettled : JobList → ℕ → Type 0
IsSettled l r = status_of l r ≡ completed → All (λ p. status_of l p ≢ waiting) (job l r).parents

recheck_other : (r q : ℕ) (l : JobList) → q ≢ r → (recheck r l).store q ≡ l.store q
unfolding recheck modify
recheck_other r q l h = ground arith

recheck_parents : (r q : ℕ) (l : JobList) → (job (recheck r l) q).parents ≡ (job l q).parents
unfolding recheck modify
recheck_parents r q l = ground arith

run_other :
    (rs : List ℕ) (q : ℕ) (l : JobList)
    → All (λ r. q ≢ r) rs
    → (run_each recheck rs l).store q ≡ l.store q
run_other [] q l h = refl
run_other (r ∷ rs) q l h = run_other rs q (recheck r l) h.1 ∙ recheck_other r q l h.0

IsTopological-same :
    (l l' : JobList) (rs : List ℕ)
    → ((q : ℕ) → (job l' q).parents ≡ (job l q).parents)
    → IsTopological l rs
    → IsTopological l' rs
IsTopological-same l l' [] e h = tt
IsTopological-same l l' (r ∷ rs) e h = (
  (h.0.0, subst (λ ps. All (λ q. contains ps q ≡ false) (r ∷ rs)) (sym (e r)) h.0.1),
  IsTopological-same l l' rs e h.1,
)

-- No parent is visited.
apart : (ps rs : List ℕ) → All (λ q. contains ps q ≡ false) rs → All (λ p. All (λ q. p ≢ q) rs) ps
apart [] rs h = tt
apart (p ∷ ps) rs h =
    (All-map (λ q e. ground arith) rs h, apart ps rs (All-map (λ q e. ground arith) rs h))

none_waiting :
    (l : JobList) (ps : List ℕ)
    → any (λ p. status_of l p == waiting) ps ≡ false
    → All (λ p. status_of l p ≢ waiting) ps
none_waiting l [] h = tt
none_waiting l (p ∷ ps) h = (ground arith, none_waiting l ps (ground arith))

recheck_settles : (r : ℕ) (l : JobList) → IsSettled (recheck r l) r
unfolding recheck modify
recheck_settles r l = elim (Bool-cases (is_stale l r)) [
  | inl e ↦ λ s. absurd (reset e s)
  | inr e ↦ rw e (λ s. none_waiting l (job l r).parents (ground arith))
]
  where
    reset : is_stale l r ≡ true → status_of (recheck r l) r ≡ completed → ⊥
    reset e s = ground (arith, e, s)

-- A job that is settled stays so while neither it nor a parent is visited.
IsSettled-run :
    (r : ℕ) (rs : List ℕ) (l : JobList)
    → All (λ q. q ≢ r) rs
    → All (λ p. All (λ q. p ≢ q) rs) (job l r).parents
    → IsSettled l r
    → IsSettled (run_each recheck rs l) r
IsSettled-run r rs l h a s done =
    subst (λ ps. All (λ p. status_of (run_each recheck rs l) p ≢ waiting) ps)
      (sym (ap (λ (j : Job). j.parents) still))
      (All-map (λ p (ne, w) e. ne (sym (ap (λ (j : Job). j.status) (run_other rs p l w)) ∙ e))
        (job l r).parents
        (All-zip (λ p. status_of l p ≢ waiting) (λ p. All (λ q. p ≢ q) rs) (job l r).parents
          (s (sym (ap (λ (j : Job). j.status) still) ∙ done)) a))
  where
    still : (run_each recheck rs l).store r ≡ l.store r
    still = run_other rs r l (All-map (λ q ne e. ne (sym e)) rs h)

run-IsSettled :
    (rs : List ℕ) (l : JobList) → IsTopological l rs → All (IsSettled (run_each recheck rs l)) rs
run-IsSettled [] l h = tt
run-IsSettled (r ∷ rs) l h = (
  IsSettled-run r rs (recheck r l) h.0.0
      (apart (job (recheck r l) r).parents rs
        (subst (λ ps. All (λ q. contains ps q ≡ false) rs) (sym (recheck_parents r r l)) h.0.1.1))
      (recheck_settles r l),
  run-IsSettled rs (recheck r l)
      (IsTopological-same l (recheck r l) rs (λ q. recheck_parents r q l) h.1),
)

-- Where each job stands once in the list, and after its parents, the check leaves no COMPLETED job of
-- the list with a WAITING parent.
pub check_completed_jobs_after_recovery-IsSettled :
    (l : JobList)
    → IsTopological l l.order
    → All (IsSettled (check_completed_jobs_after_recovery l)) l.order
unfolding check_completed_jobs_after_recovery
check_completed_jobs_after_recovery-IsSettled l h = run-IsSettled l.order l h
