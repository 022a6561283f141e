-- ===== src/Packager/Limits/Space.antt =====
-- What the limits mean for the platform.
use autosubmit.Prelude.{
  ℕ, ◌+◌, ◌-◌, ◌≤◌, ◌<◌, ◌≡◌, refl, Bool, true, ◌&&◌, Option, [], length, ltb, if◌then◌else◌, arith,
  false, filter, ◌==◌, string_eq, ◌⊎◌, inl, inr,
}
use autosubmit.Prelude.Int.{pos, sub_ℕ, ◌+ℤ◌, neg, positive}
use autosubmit.Job.Record.{Job}
use autosubmit.Job.Status.{Status, status_eq, submitted, queuing, running}
use autosubmit.JobList.State.{JobList, job}
use autosubmit.Packager.Limits.{
  Platform, ids_of, min_ℤ, at_least_zero, waiting_limit, total_limit, calculate_job_limits,
  has_space,
}

-- The room that a limit `m` leaves beside `a` jobs.
room :
    (m a : ℕ) → positive (sub_ℕ m a) ≡ true → (n : ℕ) × (sub_ℕ m a ≡ pos n) × (a + n ≡ m) × (0 < n)
room m a h = (m - a, ground arith, ground arith, ground arith)

room_twice :
    (m a b : ℕ)
    → positive (at_least_zero (sub_ℕ m a +ℤ neg b)) ≡ true
    → (n : ℕ) × (at_least_zero (sub_ℕ m a +ℤ neg b) ≡ pos n) × (a + b + n ≡ m) × (0 < n)
room_twice m a b h = (m - a - b, ground arith, ground arith, ground arith)

both : (x y : Bool) → (x && y) ≡ true → (x ≡ true) × (y ≡ true)
both true y h = (refl, h)
both false y h = cc

-- The least of two is one of them.
least :
    (a b : ℕ)
    → 0 < a
    → 0 < b
    → (n : ℕ) × (min_ℤ (pos a) (pos b) ≡ pos n) × (n ≤ a) × (n ≤ b) × (0 < n) × ((n ≡ a) ⊎ (n ≡ b))
least a b p q =
    (if ltb b a then b else a, ground arith, ground arith, ground arith, ground arith, ground arith)

-- How many ids the jobs of the platform have that are in one of the states.
abbrev pub ids_with : Platform → JobList → (Status → Bool) → ℕ
ids_with p l in_state =
    length (
      ids_of l (filter (λ r. (job l r).platform == p.name && in_state (job l r).status) l.order) [])

-- Where there is space, the number of jobs that may be submitted is positive: with the ids of the
-- platform's jobs that are SUBMITTED and those that are QUEUING it is at most the limit on waiting
-- jobs, with those that are QUEUING and those that are RUNNING at most the limit on all jobs, and one
-- of the two is met exactly; SUBMITTED jobs do not count against the limit on all jobs.
pub calculate_job_limits-space :
    (p : Platform) (j : Option Job) (l : JobList)
    → has_space (calculate_job_limits p j l) ≡ true
    → (n : ℕ) × ((calculate_job_limits p j l).max_jobs ≡ pos n)
      × (0 < n)
      × (ids_with p l (λ t. t == submitted) + ids_with p l (λ t. t == queuing) + n
          ≤ waiting_limit p j)
      × (ids_with p l (λ t. t == queuing) + ids_with p l (λ t. t == running) + n ≤ total_limit p j)
      × ((ids_with p l (λ t. t == submitted) + ids_with p l (λ t. t == queuing) + n
            ≡ waiting_limit p j)
          ⊎ (ids_with p l (λ t. t == queuing) + ids_with p l (λ t. t == running) + n
              ≡ total_limit p j))
unfolding calculate_job_limits
calculate_job_limits-space p j l h =
    let (h1, h2) = both _ _ h in
    let (a, ea, wa, pa) = room (waiting_limit p j) (sent + waiting) h1 in
    let (b, eb, wb, pb) = room_twice (total_limit p j) waiting active h2 in
    let (n, en, la, lb, pn, which) = least a b pa pb in
    (
      n,
      rw (ea, eb) en,
      pn,
      omega arith,
      omega arith,
      elim which [ inl e ↦ inl (omega (arith, e, wa)) | inr e ↦ inr (omega (arith, e, wb)) ],
    )
  where
    active : ℕ
    active = ids_with p l (λ t. t == running)

    waiting : ℕ
    waiting = ids_with p l (λ t. t == queuing)

    sent : ℕ
    sent = ids_with p l (λ t. t == submitted)
