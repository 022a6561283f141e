-- ===== src/Tests/Queues.antt =====
-- The theorem on the loop over the roots at work: a wrapper of two jobs, the second after the first.
use autosubmit.Prelude.{
  ◌≡◌, refl, Result, ok, err, ok_same, key_error, get_key, string_eq, nat_eq, option_eq, ℕ, zero,
  suc, ◌+◌, String, true, some, List, [], ◌∷◌, Map,
}
use autosubmit.SubJobs.Order.{process_times}
use autosubmit.SubJobs.Lowered.{Lowered}
use autosubmit.SubJobs.Corrected.{IsIndexed, process_times-Lowered}
use autosubmit.Tests.Samples.{from_ok, is_ok, from_ok-is_ok}
use autosubmit.SubJobs.{find_name, SubJob, SubJobManager}
use autosubmit.SubJobs.Walk.{walk_roots}
use autosubmit.SubJobs.Drained.{Ends, walk_roots-Ends}

abbrev sub_job : String → List String → ℕ → SubJob
sub_job name children queue = record {
  name = name;
  package_name = some "wrapper";
  queue = queue;
  run = 20;
  total = queue + 20;
  transit = 0;
  parents = [];
  children = children;
}

abbrev sub_at : ℕ → SubJob
sub_at zero = sub_job "first" ("second" ∷ []) 10
sub_at (suc zero) = sub_job "second" [] 45
sub_at _ = sub_job "other" [] 0

abbrev names : Map String ℕ
names = ("first", 0) ∷ ("second", 1) ∷ []

abbrev manager : SubJobManager
manager = record {
  subjobs = 0 ∷ 1 ∷ [];
  at = sub_at;
  has_job_to_package = true;
  package_to_jobs = ("wrapper", "first" ∷ "second" ∷ []) ∷ [];
  current_structure = ("first", "second" ∷ []) ∷ [];
  subjobindex = names;
  subjobfixes = [];
}

walk_roots-Ends_example :
    Ends manager names
      (walk_roots manager names 3 (record { roots = 0 ∷ []; new_queues = []; fixes_applied = [] }))
walk_roots-Ends_example = walk_roots-Ends manager names (0 ∷ []) [] []

manager-IsIndexed : IsIndexed manager
manager-IsIndexed zero r h = unfold find_name get_key string_eq in ok_same h
manager-IsIndexed (suc zero) r h = unfold find_name get_key string_eq in ok_same h
manager-IsIndexed (suc (suc q)) r h = unfold find_name get_key string_eq in absurd (clash h)
  where
    clash : ◌≡◌ {A = Result ℕ} (err key_error) (ok r) → ⊥
    clash e = cc

process_times-Lowered_example : Lowered manager (from_ok manager (process_times manager))
process_times-Lowered_example =
    process_times-Lowered manager (from_ok manager (process_times manager)) manager-IsIndexed
      (from_ok-is_ok manager (process_times manager) returned)
  where
    returned : is_ok (process_times manager) ≡ true
    returned = unfold process_times nat_eq string_eq option_eq in refl
