-- ===== src/SubJobs/Corrected.antt =====
-- `process_times` of class `SubJobManager` (autosubmit/job/job_utils.py): what it does to the times.
use autosubmit.Prelude.{
  ℕ, ◌-◌, ◌≤◌, ◌≡◌, refl, subst, inl, inr, String, Bool, true, false, List, [], ◌∷◌, Map, nat_eq,
  string_eq, not, ◌&&◌, if◌then◌else◌, ok, ok_same, >>=-eq-ok, for_each, arith, if-cases,
}
use autosubmit.Packager.Weight.{sorted}
use autosubmit.SubJobs.{SubJobManager, change_subjob, find_name}
use autosubmit.SubJobs.Walk.{jobs_in}
use autosubmit.SubJobs.Order.{
  set_queue, set_transit, set_transits, fix_queues, order_package, write_queue, visit_unstructured,
  no_entries, process_times,
}
use autosubmit.SubJobs.Lowered.{
  Lowered, unchanged_times, Lowered-refl, same_times, for_each-Holds, Entry, write_queue-Lowered,
  write_fixes-Lowered,
}
use autosubmit.SubJobs.Structured.{with_structure-Lowered}

-- A name in the index leads to the job of this name.
abbrev pub IsIndexed : SubJobManager → Type 0
IsIndexed m = (q r : ℕ) → find_name (m.at q).name m.subjobindex ≡ ok r → q ≡ r

module _ (m0 : SubJobManager) where
  set_transits-Lowered :
      (before : ℕ) (rs : List ℕ) (m : SubJobManager)
      → Lowered m0 m
      → Lowered m0 (set_transits before rs m)
  unfolding set_transits
  set_transits-Lowered before [] m low = low
  set_transits-Lowered before (r ∷ rs) m low =
      same_times m0 r (λ s. set_transit (s.queue - (m.at before).total) s) (set_transits r rs m)
        (λ s. unchanged_times refl refl refl refl) (set_transits-Lowered r rs m low)

  fix_queues-Lowered :
      (before : ℕ) (rs : List ℕ) (m : SubJobManager) (fixes : Map String ℕ)
      → Lowered m0 m
      → Lowered m0 (fix_queues before rs (m, fixes)).0
  unfolding fix_queues
  fix_queues-Lowered before [] m fixes low = low
  fix_queues-Lowered before (r ∷ rs) m fixes low = fix_queues-Lowered r rs _ _ (
      same_times m0 r (λ s. set_queue (s.queue - (m.at before).total) s) m
        (λ s. record {
          queue_le = omega arith;
          run_same = refl;
          total_same = refl;
          name_same = refl;
        })
        low)

  order_package-Lowered :
      (rs : List ℕ) (m : SubJobManager) → Lowered m0 m → Lowered m0 (order_package rs m).0
  unfolding order_package
  order_package-Lowered [] m low = low
  order_package-Lowered (first ∷ []) m low = low
  order_package-Lowered (first ∷ (r ∷ rs)) m low =
      let m' = set_transits first (r ∷ rs) (change_subjob first (set_transit 0) m) in
      let low' =
        set_transits-Lowered first (r ∷ rs) (change_subjob first (set_transit 0) m)
          (same_times m0 first (set_transit 0) m (λ s. unchanged_times refl refl refl refl) low) in
      either _ (fix_queues first (r ∷ rs) (m', [])) (m', [])
        (fix_queues-Lowered first (r ∷ rs) m' [] low') low'
    where
      either :
          (b : Bool) (x y : SubJobManager × Map String ℕ)
          → Lowered m0 x.0
          → Lowered m0 y.0
          → Lowered m0 (if b then x else y).0
      either true x y h k = h
      either false x y h k = k

  module _ (indexed : IsIndexed m0) where
    own_queue-Lowered :
        (r : ℕ) (m m' : SubJobManager)
        → Lowered m0 m
        → write_queue ((m.at r).name, (m.at r).queue) m ≡ ok m'
        → Lowered m0 m'
    unfolding Entry
    own_queue-Lowered r m m' low =
        write_queue-Lowered m0 ((m.at r).name, (m.at r).queue) m m' own low
      where
        own : Entry m0 ((m.at r).name, (m.at r).queue)
        own r' found =
            subst (λ x. (m.at r).queue ≤ (m0.at x).queue)
              (indexed r r' (
                subst (λ n. find_name n m0.subjobindex ≡ ok r') (low.jobs_slower r).name_same
                  found))
              (low.jobs_slower r).queue_le

    visit_unstructured-Lowered :
        (e : String × List String) (m m' : SubJobManager)
        → Lowered m0 m
        → visit_unstructured e m ≡ ok m'
        → Lowered m0 m'
    unfolding visit_unstructured
    visit_unstructured-Lowered (of_package, members) m m' low h =
        let filtered = sorted (λ r. (m.at r).total) (jobs_in m of_package) in
        let (n, fixes) = order_package filtered m in
        let low' : Lowered m0 n = order_package-Lowered filtered m low in
        let body = λ (r : ℕ) (x : SubJobManager). write_queue ((x.at r).name, (x.at r).queue) x in
        let (n', written, h2) = >>=-eq-ok (for_each body filtered n) _ h in
        subst (Lowered m0) (ok_same h2) (
          write_fixes-Lowered m0 fixes n'
            (for_each-Holds (Lowered m0) body own_queue-Lowered filtered n n' low' written))

-- When `process_times` returns and the index leads from each job's name to no other job, no queue
-- time has grown, and every job has kept its name, its run time and its total time.
pub process_times-Lowered :
    (m m' : SubJobManager) → IsIndexed m → process_times m ≡ ok m' → Lowered m m'
unfolding process_times
process_times-Lowered m m' indexed h =
    elim (if-cases (m.has_job_to_package && not (no_entries m.package_to_jobs)) _ _ h) [
      | inl (_, h') ↦ elim (if-cases (no_entries m.current_structure) _ _ h') [
        | inl (_, e) ↦
            for_each-Holds (Lowered m) visit_unstructured (visit_unstructured-Lowered m indexed)
              m.package_to_jobs m m' (Lowered-refl m) e
        | inr (_, e) ↦ with_structure-Lowered m m m' (Lowered-refl m) e
      ]
      | inr (_, e) ↦ subst (Lowered m) (ok_same e) (Lowered-refl m)
    ]
