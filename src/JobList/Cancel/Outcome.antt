-- ===== src/JobList/Cancel/Outcome.antt =====
-- What `cancel_jobs` does to each job.
use autosubmit.Prelude.{
  append_nil, append_assoc, ℕ, ◌≡◌, ◌≢◌, refl, sym, ap, ◌∙◌, String, Bool, true, ◌&&◌, Option, none,
  some, List, [], ◌∷◌, ◌++◌, ◌==◌, nat_eq, string_eq, contains, filter, if◌then◌else◌, Bool-cases,
  inl, inr, ok, err, critical, run_each, map, ==-eq, arith,
}
use autosubmit.Job.Status.{
  Status, waiting, ready, submitted, queuing, running, completed, held, prepared, skipped, failed,
  delayed, unknown, suspended, status_eq, value_to_key, status_of_key,
}
use autosubmit.JobList.State.{JobList, status_of, set_status, modify, put}
use autosubmit.JobList.Cancel.{
  keyed, status_keys, is_target, active_jobs, cancel_job, cancel_all, cancel_jobs,
}

pub status_keys-value_to_key : (st : Status) → contains status_keys (value_to_key st) ≡ true
unfolding status_keys value_to_key string_eq
status_keys-value_to_key waiting = refl
status_keys-value_to_key ready = refl
status_keys-value_to_key submitted = refl
status_keys-value_to_key queuing = refl
status_keys-value_to_key running = refl
status_keys-value_to_key completed = refl
status_keys-value_to_key held = refl
status_keys-value_to_key prepared = refl
status_keys-value_to_key skipped = refl
status_keys-value_to_key failed = refl
status_keys-value_to_key delayed = refl
status_keys-value_to_key unknown = refl
status_keys-value_to_key suspended = refl

status_of_key-value_to_key : (st : Status) → status_of_key (value_to_key st) ≡ some st
unfolding status_of_key value_to_key string_eq
status_of_key-value_to_key waiting = refl
status_of_key-value_to_key ready = refl
status_of_key-value_to_key submitted = refl
status_of_key-value_to_key queuing = refl
status_of_key-value_to_key running = refl
status_of_key-value_to_key completed = refl
status_of_key-value_to_key held = refl
status_of_key-value_to_key prepared = refl
status_of_key-value_to_key skipped = refl
status_of_key-value_to_key failed = refl
status_of_key-value_to_key delayed = refl
status_of_key-value_to_key unknown = refl
status_of_key-value_to_key suspended = refl

contains-filter :
    (p : ℕ → Bool) (q : ℕ) (rs : List ℕ) → contains (filter p rs) q ≡ (contains rs q && p q)
contains-filter p q [] = refl
contains-filter p q (r ∷ rs) = ground (arith, contains-filter p q rs)

cancel_job-status :
    (st : Status) (r q : ℕ) (l : JobList)
    → status_of (cancel_job st r l) q ≡ (if r == q then st else status_of l q)
unfolding cancel_job set_status modify put
cancel_job-status st r q l = ground arith

cancel_each :
    (st : Status) (rs : List ℕ) (l : JobList) (q : ℕ)
    → status_of (run_each (cancel_job st) rs l) q ≡ (if contains rs q then st else status_of l q)
cancel_each st [] l q = refl
cancel_each st (r ∷ rs) l q =
    ground (arith, cancel_each st rs (cancel_job st r l) q, cancel_job-status st r q l)

sent_each :
    (st : Status) (rs : List ℕ) (l : JobList)
    → ((run_each (cancel_job st) rs l).cancelled ≡ l.cancelled ++ rs)
      × ((run_each (cancel_job st) rs l).order ≡ l.order)
unfolding cancel_job set_status modify
sent_each st [] l = (sym (append_nil l.cancelled), refl)
sent_each st (r ∷ rs) l =
    let (a, b) = sent_each st rs (cancel_job st r l) in
    (a ∙ append_assoc l.cancelled (r ∷ []) rs, b)

-- With the name of a status as the target, `cancel_jobs` returns. Each job of the list whose status
-- is in the filter has then the target's status, every other job the status that it had; the cancel
-- command was sent for those jobs, in the order of the list, which is the same.
pub cancel_jobs_lem :
    (st : Status) (statuses : List Status) (l : JobList)
    → (v : JobList) × (cancel_jobs (some (value_to_key st)) (some statuses) l ≡ ok v)
      × ((q : ℕ)
          → status_of v q ≡ (
              if contains l.order q && contains statuses (status_of l q)
              then st
              else status_of l q))
      × (v.cancelled ≡ l.cancelled ++ filter (λ r. contains statuses (status_of l r)) l.order)
      × (v.order ≡ l.order)
unfolding cancel_jobs is_target active_jobs cancel_all
cancel_jobs_lem st statuses l =
    let rs : List ℕ = filter (λ r. contains statuses (status_of l r)) l.order in
    let (sent, order) = sent_each st rs l in
    (
      run_each (cancel_job st) rs l,
      rw (status_keys-value_to_key st, status_of_key-value_to_key st, cancel_jobs) refl,
      (λ q.
          cancel_each st rs l q
          ∙ ap (λ b. if b then st else status_of l q)
              (contains-filter (λ r. contains statuses (status_of l r)) q l.order)),
      sent,
      order,
    )

contains-map :
    (t : String) (xs : List Status)
    → contains (map value_to_key xs) t ≡ true
    → (st : Status) × (value_to_key st ≡ t)
contains-map t [] h = absurd (cc)
contains-map t (x ∷ xs) h = elim (Bool-cases (t == value_to_key x)) [
  | inl same ↦ (x, sym (==-eq t (value_to_key x) same))
  | inr other ↦ contains-map t xs (rw other at h)
]

-- A target that names no status, and no target, are refused, and so nothing is cancelled.
cancel_jobs-critical :
    (t : String) (statuses : Option (List Status)) (l : JobList)
    → ((st : Status) → value_to_key st ≢ t)
    → (cancel_jobs (some t) statuses l ≡ err critical)
      × (cancel_jobs none statuses l ≡ err critical)
unfolding cancel_jobs is_target status_keys
cancel_jobs-critical t statuses l h = elim (Bool-cases (contains status_keys t)) [
  | inl known ↦ let (st, e) = contains-map t keyed known in absurd (h st e)
  | inr other ↦ (rw (other, cancel_jobs) refl, refl)
]
