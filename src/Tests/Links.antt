-- ===== src/Tests/Links.antt =====
-- The theorems on distances, on the cancelling of jobs and on the members that run at work.
use autosubmit.Prelude.{
  ℕ, zero, suc, ◌+◌, ◌-◌, ◌≡◌, ◌≢◌, refl, subst, Bool, true, false, ◌&&◌, none, some, [], ◌∷◌, ◌++◌,
  min, length, filter, nat_eq, string_eq, list_eq, contains, if◌then◌else◌, Result, ok, ◌>>=◌,
  arith,
}
use autosubmit.Prelude.Int.{Text}
use autosubmit.Job.Status.{Status, running, failed, status_eq, value_to_key}
use autosubmit.JobList.State.{JobList, status_of}
use autosubmit.JobList.Distance.{
  Lists, minus, plus, get_elem, index_of, same_place, has_text, calculate_dependency_metadata,
}
use autosubmit.JobList.Distance.Moves.{
  moving, calculate_dependency_metadata-chunk_plus, date_plus-date_minus,
}
use autosubmit.JobList.Cancel.{status_keys, cancel_jobs}
use autosubmit.JobList.Cancel.Outcome.{status_keys-value_to_key, cancel_jobs_lem}
use autosubmit.Tests.Samples.{sample}

abbrev lists : Lists
lists = record {
  chunk_list = 1 ∷ 2 ∷ 3 ∷ [];
  member_list = (b'x' ∷ []) ∷ (b'y' ∷ []) ∷ [];
  date_list = 2000 ∷ 2001 ∷ 2002 ∷ [];
}

calculate_dependency_metadata-chunk_plus_example :
    calculate_dependency_metadata lists (moving plus 5 "chunk") (some 2) none none ≡ (
      get_elem (1 ∷ 2 ∷ 3 ∷ []) (min (1 + 5) (length lists.chunk_list - 1)) >>= λ found.
      ok (same_place (some found) none none false))
calculate_dependency_metadata-chunk_plus_example =
    calculate_dependency_metadata-chunk_plus lists 2 1 5 none none (unfold index_of nat_eq in refl)

ok_text : {a b : Text} → ◌≡◌ {A = Result Text} (ok a) (ok b) → a ≡ b
ok_text h = cc

members_differ :
    (i : ℕ) (x : Text)
    → get_elem lists.member_list i ≡ ok x
    → (index_of lists.member_list x ≡ ok i) × (has_text (some x) ≡ true)
unfolding get_elem index_of list_eq nat_eq
members_differ zero x h =
    subst (λ y. (index_of lists.member_list y ≡ ok 0) × (has_text (some y) ≡ true)) (ok_text h)
      (refl, refl)
members_differ (suc zero) x h =
    subst (λ y. (index_of lists.member_list y ≡ ok 1) × (has_text (some y) ≡ true)) (ok_text h)
      (refl, refl)
members_differ (suc (suc i)) x h = absurd (cc)

date_plus-date_minus_example :
    calculate_dependency_metadata lists (moving plus 1 "startdate") none none (some 2001)
    ≡ calculate_dependency_metadata lists (moving minus 1 "startdate") none none (some 2001)
date_plus-date_minus_example =
    date_plus-date_minus lists 1 1 2001 "startdate" (unfold index_of nat_eq in refl) (omega arith)
      (omega arith)

cancel_jobs_lem_example :
    (v : JobList) × (cancel_jobs (some (value_to_key failed)) (some (running ∷ [])) sample ≡ ok v)
    × ((q : ℕ)
        → status_of v q ≡ (
            if contains sample.order q && contains (running ∷ []) (status_of sample q)
            then failed
            else status_of sample q))
    × (v.cancelled
        ≡ sample.cancelled
          ++ filter (λ r. contains (running ∷ []) (status_of sample r)) sample.order)
    × (v.order ≡ sample.order)
cancel_jobs_lem_example = cancel_jobs_lem failed (running ∷ []) sample

no_such_key : (st : Status) → value_to_key st ≢ "STOPPED"
unfolding status_keys string_eq
no_such_key st h =
    absurd (clash (subst (λ t. contains status_keys t ≡ true) h (status_keys-value_to_key st)) refl)
  where
    clash : {b : Bool} → b ≡ true → b ≡ false → ⊥
    clash t f = cc
