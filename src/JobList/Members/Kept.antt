-- ===== src/JobList/Members/Kept.antt =====
-- The jobs that the setter of `run_members` keeps.
use autosubmit.Prelude.{
  ℕ, ◌≡◌, refl, ap, ◌∙◌, String, true, false, ◌||◌, some, List, [], ◌∷◌, ◌++◌, string_eq, filter,
  All, arith,
}
use autosubmit.Job.Status.{status_eq}
use autosubmit.Job.Record.{Job}
use autosubmit.JobList.State.{JobList, job}
use autosubmit.JobList.Members.{
  is_run, has_no_member, has_member, is_under_way, keep_jobs, set_run_members,
}

module _ (members : List String) (store : ℕ → Job) where
  -- Once a member was found, only its members and the jobs under way are kept.
  keep_jobs-found :
      (rs : List ℕ)
      → keep_jobs members store true rs
        ≡ filter (λ r. is_run members (store r) || is_under_way (store r)) rs
  unfolding keep_jobs
  keep_jobs-found [] = refl
  keep_jobs-found (r ∷ rs) = ground (arith, keep_jobs-found rs)

  no_member : (j : Job) → has_no_member j ≡ true → has_member j ≡ false
  unfolding has_member
  no_member j h = ground arith

  member_there : (j : Job) → has_member j ≡ true → has_no_member j ≡ false
  unfolding has_member
  member_there j h = ground arith

  keep_jobs-append :
      (before : List ℕ) (r : ℕ) (after : List ℕ)
      → All (λ q. has_no_member (store q) ≡ true) before
      → has_member (store r) ≡ true
      → keep_jobs members store false (before ++ (r ∷ after))
        ≡ before ++ filter (λ q. is_run members (store q) || is_under_way (store q)) (r ∷ after)
  unfolding keep_jobs
  keep_jobs-append [] r after h found =
      let no : has_no_member (store r) ≡ false = member_there (store r) found in
      ground (arith, keep_jobs-found after)
  keep_jobs-append (q ∷ before) r after h found =
      ground (arith, keep_jobs-append before r after h.1 found, no_member (store q) h.0, h.0)

-- When some members are set to run, the jobs before the first one that has a member stay in the list,
-- and of that one and those behind it exactly the jobs of these members and the jobs that are neither
-- WAITING nor READY, in their order. The jobs themselves are not changed.
set_run_members_lem :
    (members : List String) (l : JobList) (before : List ℕ) (r : ℕ) (after : List ℕ)
    → l.order ≡ before ++ (r ∷ after)
    → All (λ q. has_no_member (job l q) ≡ true) before
    → has_member (job l r) ≡ true
    → ((set_run_members (some members) l).order
        ≡ before ++ filter (λ q. is_run members (job l q) || is_under_way (job l q)) (r ∷ after))
      × ((set_run_members (some members) l).store ≡ l.store)
unfolding set_run_members
set_run_members_lem members l before r after e h found = (
  ap (keep_jobs members l.store false) e ∙ keep_jobs-append members l.store before r after h found,
  refl,
)
