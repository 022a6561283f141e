-- ===== src/JobList/Update/Waiting/Ready.antt =====
-- What the phase does to each job of a well-formed list.
use autosubmit.Prelude.{
  ℕ, ◌≡◌, ◌≢◌, ◌↔◌, ◌⊎◌, inl, inr, true, ==-eq, ==_self, nat_eq, filter, length, All, All-map, In,
  Bool-cases, All-length-filter, length-filter-All, arith,
}
use autosubmit.Job.Status.{status_eq, waiting, ready, completed, skipped}
use autosubmit.JobList.State.{JobList, job, status_of}
use autosubmit.JobList.Edges.WellFormed.{IsWellFormed, IsWellFormed-NeverOptional}
use autosubmit.JobList.Update.Waiting.{readied, is_done, update_waiting}
use autosubmit.JobList.Update.Waiting.Parents.{every_done, next_of, update_waiting_lem}

-- A parent that holds nothing back any more.
abbrev pub Settled : JobList → ℕ → Type 0
Settled l p = (status_of l p ≡ completed) ⊎ (status_of l p ≡ skipped)

is_done→Settled : (l : JobList) (p : ℕ) → is_done (status_of l p) ≡ true → Settled l p
is_done→Settled l p h = ground arith

Settled→is_done : (l : JobList) (p : ℕ) → Settled l p → is_done (status_of l p) ≡ true
Settled→is_done l p h = ground arith

every_done→All : (l : JobList) (q : ℕ) → every_done l q ≡ true → All (Settled l) (job l q).parents
every_done→All l q h = All-map (is_done→Settled l) (job l q).parents (
    All-length-filter (λ p. is_done (status_of l p)) (job l q).parents
      (==-eq (length (filter (λ p. is_done (status_of l p)) (job l q).parents)) _ h))

pub All→every_done :
    (l : JobList) (q : ℕ) → All (Settled l) (job l q).parents → every_done l q ≡ true
All→every_done l q h =
    rw
      (length-filter-All (λ p. is_done (status_of l p)) (job l q).parents
        (All-map (Settled→is_done l) (job l q).parents h))
      (==_self (length (job l q).parents))

-- In a well-formed list, `update_waiting` makes a WAITING job READY, off hold and otherwise
-- unchanged, exactly if each of its parents is COMPLETED or SKIPPED, and leaves it as it was if not;
-- a job that is not WAITING is left as it was.
pub update_waiting-ready_iff :
    (l : JobList) (q : ℕ)
    → IsWellFormed l
    → In q l.order
    → (status_of l q ≡ waiting
        → ((status_of (update_waiting l) q ≡ ready) ↔ All (Settled l) (job l q).parents)
          × ((job (update_waiting l) q ≡ readied (job l q)) ⊎ (job (update_waiting l) q ≡ job l q)))
      × (status_of l q ≢ waiting → job (update_waiting l) q ≡ job l q)
update_waiting-ready_iff l q w m = (
  λ s. elim (Bool-cases (every_done l q)) [
    | inl d ↦ ((λ _. every_done→All l q d, λ _. ground (arith, lem)), ground (arith, lem))
    | inr n ↦ (
      (λ r. ground (arith, lem), λ h. ground (arith, lem, All→every_done l q h)),
      ground (arith, lem),
    )
  ],
  λ o. ground (arith, lem),
)
  where
    lem : (update_waiting l).store q ≡ next_of l q
    lem = update_waiting_lem l (IsWellFormed-NeverOptional w) q m
