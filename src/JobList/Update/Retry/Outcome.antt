-- ===== src/JobList/Update/Retry/Outcome.antt =====
-- What becomes of the failed jobs, job by job and in the whole phase.
use mathlib.Core.Path.{fun_ext}
use autosubmit.Prelude.{
  ℕ, ◌≡◌, refl, sym, ap, ◌∙◌, subst, ◌≢◌, inl, inr, Bool, true, false, some, List, [], ◌∷◌, ◌==◌,
  nat_eq, filter, All, All-map, All-zip, All-In, In, In-filter_of, filter-All, ==-eq, Bool-cases,
  dec_lt, ok, for_each, arith,
}
use autosubmit.Job.Status.{status_eq, completed, failed}
use autosubmit.Job.Record.{Job}
use autosubmit.JobList.State.{JobList, job, status_of}
use autosubmit.JobList.Update.Inputs.{SectionConf, Config, Env}
use autosubmit.JobList.Update.Retry.{
  all_completed, retrials_of, settle_vertical, retry_failed, update_failed,
}
use autosubmit.JobList.Update.Retry.Step.{IsSane, Outcome, StepTo, retry_failed_lem}

-- No reference stands twice in the list.
abbrev pub Distinct : List ℕ → Type 0
Distinct [] = Unit
Distinct (r ∷ rs) = All (λ q. q ≢ r) rs × Distinct rs

All-filter_of {κ} : (P : ℕ → Type κ) (p : ℕ → Bool) (xs : List ℕ) → All P xs → All P (filter p xs)
All-filter_of P p [] h = tt
All-filter_of P p (x ∷ xs) h = elim (Bool-cases (p x)) [
  | inl t ↦ rw t (h.0, All-filter_of P p xs h.1)
  | inr f ↦ rw f (All-filter_of P p xs h.1)
]

pub Distinct-filter : (p : ℕ → Bool) (xs : List ℕ) → Distinct xs → Distinct (filter p xs)
Distinct-filter p [] h = tt
Distinct-filter p (x ∷ xs) h = elim (Bool-cases (p x)) [
  | inl t ↦ rw t (All-filter_of (λ q. q ≢ x) p xs h.0, Distinct-filter p xs h.1)
  | inr f ↦ rw f (Distinct-filter p xs h.1)
]

-- The fate of the failed job `r` of `l0`, as `j'`.
abbrev pub Fate : Config → JobList → ℕ → Job → Type 0
Fate conf l0 r j' =
    (s : SectionConf) × (conf.jobs_data (job l0 r).section ≡ some s)
    × Outcome (settle_vertical (job l0 r)).fail_count (retrials_of conf s (job l0 r))
        (all_completed l0 (job l0 r).parents) j'

Outcome-not_completed :
    (tries retrials : ℕ) (done : Bool) (j : Job)
    → Outcome tries retrials done j
    → (j.status == completed) ≡ false
Outcome-not_completed tries retrials done j o = elim (dec_lt tries retrials) [
  | no up ↦ ground (arith, o.given_up (omega arith))
  | yes h ↦ elim (Bool-cases done) [
    | inl d ↦ ground (arith, o.again h d)
    | inr d ↦ ground (arith, o.blocked h d)
  ]
]

-- `l` is on the way from `l0`: what the visited jobs became was not COMPLETED, nor were they.
record OnTheWay (l0 l : JobList) (rest : List ℕ) : Type 0 where
  order_same : l.order ≡ l0.order
  untouched : All (λ r. l.store r ≡ l0.store r) rest
  completed_same : (q : ℕ) → (status_of l q == completed) ≡ (status_of l0 q == completed)

module _ (conf : Config) (env : Env) (l0 : JobList)
    (sane : (q : ℕ) → status_of l0 q ≡ failed → IsSane conf (job l0 q)) where
  completed-step :
      (l l' : JobList) (r : ℕ) (s : SectionConf)
      → StepTo conf s r l l'
      → status_of l0 r ≡ failed
      → ((q : ℕ) → (status_of l q == completed) ≡ (status_of l0 q == completed))
      → (q : ℕ) → (status_of l' q == completed) ≡ (status_of l0 q == completed)
  completed-step l l' r s st f h q = elim (dec_eq q r) [
    | yes e ↦ ground (arith, Outcome-not_completed _ _ _ (job l' r) st.outcome)
    | no ne ↦ ground (arith, st.others q ne, h q)
  ]
    where
      dec_eq : (a b : ℕ) → Dec (a ≡ b)
      dec_eq = nat_eq.dec

  -- The outcome of a visit, told of the state in which the loop began.
  meets :
      (l l1 l' : JobList) (r : ℕ) (s : SectionConf)
      → l.store r ≡ l0.store r
      → ((q : ℕ) → (status_of l q == completed) ≡ (status_of l0 q == completed))
      → conf.jobs_data (job l r).section ≡ some s
      → StepTo conf s r l l1
      → l'.store r ≡ l1.store r
      → Fate conf l0 r (job l' r)
  meets l l1 l' r s u c known st later = (s, rw u at known, rw (← u, ← fun_ext c, later) st.outcome)

  failed_loop :
      (rs : List ℕ) (l : JobList)
      → Distinct rs
      → All (λ r. status_of l0 r ≡ failed) rs
      → OnTheWay l0 l rs
      → (l' : JobList) × (for_each (retry_failed conf env) rs l ≡ ok l')
        × OnTheWay l0 l' []
        × ((q : ℕ) → All (λ r. q ≢ r) rs → l'.store q ≡ l.store q)
        × All (λ r. Fate conf l0 r (job l' r)) rs
  failed_loop [] l d f w = (
    l,
    refl,
    record { order_same = w.order_same; untouched = tt; completed_same = w.completed_same },
    λ q _. refl,
    tt,
  )
  failed_loop (r ∷ rs) l d f w =
      let sl : IsSane conf (job l r) = subst (IsSane conf) (sym w.untouched.0) (sane r f.0) in
      let (l1, e, st) = retry_failed_lem conf env r l sl in
      let w1 : OnTheWay l0 l1 rs = record {
        order_same = st.order_same ∙ w.order_same;
        untouched =
            All-map (λ q (ne, u). st.others q ne ∙ u) rs
              (All-zip (λ q. q ≢ r) (λ q. l.store q ≡ l0.store q) rs d.0 w.untouched.1);
        completed_same = completed-step l l1 r sl.section st f.0 w.completed_same;
      } in
      let (l', e', w', same, fates) = failed_loop rs l1 d.1 f.1 w1 in
      (
        l',
        rw e e',
        w',
        λ q h. same q h.1 ∙ st.others q h.0,
        (
          meets l l1 l' r sl.section w.untouched.0 w.completed_same sl.known st
              (same r (All-map (λ q ne b. ne (sym b)) rs d.0)),
          fates,
        ),
      )

  -- Where the configuration can be read for each FAILED job, and no job stands twice in the list, the
  -- phase succeeds and keeps the list. Each FAILED job of the list meets its fate, which the parents'
  -- statuses before the phase decide; every job that is not FAILED is left as it was.
  pub update_failed_lem :
      Distinct l0.order
      → (l' : JobList) × (update_failed conf env l0 ≡ ok l')
        × (l'.order ≡ l0.order)
        × ((q : ℕ) → status_of l0 q ≢ failed → job l' q ≡ job l0 q)
        × ((q : ℕ) → In q l0.order → status_of l0 q ≡ failed → Fate conf l0 q (job l' q))
  unfolding update_failed
  update_failed_lem d =
      let (l', e, w, same, fates) =
        failed_loop rs l0 (Distinct-filter p l0.order d) all_failed start in
      (
        l',
        e,
        w.order_same,
        λ q ne. same q (All-map (λ r f b. ne (ap (status_of l0) b ∙ f)) rs all_failed),
        λ q m f.
            All-In (λ r. Fate conf l0 r (job l' r)) q rs fates
              (In-filter_of p q l0.order m (is_failed q f)),
      )
    where
      p : ℕ → Bool
      p r = status_of l0 r == failed

      rs : List ℕ
      rs = filter p l0.order

      all_failed : All (λ r. status_of l0 r ≡ failed) rs
      all_failed = All-map (λ r. ==-eq (status_of l0 r) failed) rs (filter-All p l0.order)

      is_failed : (q : ℕ) → status_of l0 q ≡ failed → p q ≡ true
      is_failed q f = ground arith

      start : OnTheWay l0 l0 rs
      start = record {
        order_same = refl;
        untouched = All-map (λ r _. refl) rs all_failed;
        completed_same = λ q. refl;
      }
