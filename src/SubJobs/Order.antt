-- ===== src/SubJobs/Order.antt =====
-- `process_times` of class `SubJobManager` (autosubmit/job/job_utils.py): the branch without a
-- structure, where the jobs of a package follow each other by their total times, and the whole.
use autosubmit.Prelude.{
  ℕ, ◌-◌, String, Bool, true, false, not, ◌&&◌, List, [], ◌∷◌, filter, Map, set_key, nat_eq,
  string_eq, ltb, leb, if◌then◌else◌, Result, ok, ◌>>=◌, run_each, for_each, length,
}
use autosubmit.Packager.Weight.{sorted}
use autosubmit.SubJobs.{SubJob, SubJobManager, change_subjob, find_name, process_index}
use autosubmit.SubJobs.Walk.{jobs_in, process_package}

abbrev pub set_queue : ℕ → SubJob → SubJob
set_queue n s = record s { queue = n }

abbrev pub set_transit : ℕ → SubJob → SubJob
set_transit n s = record s { transit = n }

-- The reverse loop: each job's queue time without the total time of the one before.
unfoldable pub set_transits : ℕ → List ℕ → SubJobManager → SubJobManager
unfolding change_subjob nat_eq
set_transits before [] m = m
set_transits before (r ∷ rs) m =
    change_subjob r (λ s. set_transit (s.queue - (m.at before).total) s) (set_transits r rs m)

-- The last loop, with `fixes_applied`.
unfoldable pub fix_queues : ℕ → List ℕ → SubJobManager × Map String ℕ → SubJobManager × Map String ℕ
unfolding change_subjob set_key nat_eq string_eq
fix_queues before [] mf = mf
fix_queues before (r ∷ rs) (m, fixes) = fix_queues r rs (
  change_subjob r (λ s. set_queue (s.queue - (m.at before).total) s) m,
  set_key (m.at r).name (m.at before).total fixes,
)

-- `len(filtered) > 1` with what follows; every transit time is a natural number.
unfoldable pub order_package : List ℕ → SubJobManager → SubJobManager × Map String ℕ
unfolding set_transits fix_queues change_subjob
order_package [] m = (m, [])
order_package (first ∷ []) m = (m, [])
order_package (first ∷ (r ∷ rs)) m =
    let m' = set_transits first (r ∷ rs) (change_subjob first (set_transit 0) m) in
    if ltb 1 (length (filter (λ q. leb 0 (m'.at q).transit) (first ∷ (r ∷ rs))))
    then fix_queues first (r ∷ rs) (m', [])
    else (m', [])

-- `self.subjobindex[name].queue = value`
unfoldable pub write_queue : (String × ℕ) → SubJobManager → Result SubJobManager
unfolding find_name change_subjob
write_queue (name, value) m =
    find_name name m.subjobindex >>= λ r. ok (change_subjob r (set_queue value) m)

unfoldable pub write_fixes : Map String ℕ → SubJobManager → SubJobManager
unfolding set_key string_eq
write_fixes fixes m = record m {
  subjobfixes = run_each (λ (name, value) d. set_key name value d) fixes m.subjobfixes;
}

unfoldable pub visit_unstructured : (String × List String) → SubJobManager → Result SubJobManager
unfolding jobs_in sorted order_package write_queue write_fixes
visit_unstructured (of_package, members) m =
    let filtered = sorted (λ r. (m.at r).total) (jobs_in m of_package) in
    let (m', fixes) = order_package filtered m in
    for_each (λ r m''. write_queue ((m''.at r).name, (m''.at r).queue) m'') filtered m' >>= λ m''.
    ok (write_fixes fixes m'')

unfoldable pub with_structure : SubJobManager → Result SubJobManager
unfolding process_package write_queue write_fixes
with_structure m = do
  (m', queues, fixes) ← for_each process_package m.package_to_jobs (m, [], [])
  m'' ← for_each write_queue queues m'
  ok (write_fixes fixes m'')

unfoldable pub no_entries : Map String (List String) → Bool
no_entries [] = true
no_entries (e ∷ es) = false

unfoldable pub process_times : SubJobManager → Result SubJobManager
unfolding no_entries with_structure visit_unstructured
process_times m =
    if m.has_job_to_package && not (no_entries m.package_to_jobs)
    then if no_entries m.current_structure
      then for_each visit_unstructured m.package_to_jobs m
      else with_structure m
    else ok m

-- `SubJobManager.__init__`
unfoldable pub make_manager : SubJobManager → Result SubJobManager
unfolding process_index process_times
make_manager m = process_times (process_index m)
