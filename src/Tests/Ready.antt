-- ===== src/Tests/Ready.antt =====
-- The theorem on the held slots at work: two prepared jobs, and no id held.
use autosubmit.Prelude.{
  ℕ, zero, suc, ◌+◌, ◌<◌, ◌≤◌, ◌≡◌, refl, true, some, [], ◌∷◌, nat_eq, string_eq, option_eq, ok,
}
use autosubmit.Job.Record.{Job}
use autosubmit.Job.Status.{status_eq, Status-discrete, prepared, waiting}
use autosubmit.JobList.State.{JobList}
use autosubmit.Packager.Limits.{calculate_job_limits}
use autosubmit.Packager.Weight.{Weights, set_weight}
use autosubmit.Packager.Ready.{Packager, held_ids, find_ready, check_if_packages_are_ready_to_build}
use autosubmit.Packager.Ready.Slots.{check_if_packages_are_ready_to_build-slots}
use autosubmit.Tests.Samples.{make_job}
use autosubmit.Tests.Packages.{platform}

abbrev prepared_store : ℕ → Job
prepared_store zero = record (make_job "a000_1_SIM" prepared [] 0) { chunk = some 2 }
prepared_store (suc zero) = record (make_job "a000_2_SIM" prepared [] 0) { chunk = some 1 }
prepared_store _ = make_job "a000_POST" waiting [] 0

abbrev prepared_list : JobList
prepared_list = record {
  order = 0 ∷ 1 ∷ 2 ∷ [];
  store = prepared_store;
  jobs_edges = [];
  jobs_to_run_first = [];
  cancelled = [];
}

abbrev packager : Packager
packager = record { platform = platform; hold = true; upper = λ s. s }

abbrev unweighed : Weights
unweighed = λ r. 0

check_if_packages_are_ready_to_build-slots_example :
    (held_ids packager prepared_list ≤ 5 → 2 + held_ids packager prepared_list ≤ 5)
    × (5 < held_ids packager prepared_list → (1 ∷ 0 ∷ []) ≡ find_ready packager prepared_list)
check_if_packages_are_ready_to_build-slots_example =
    check_if_packages_are_ready_to_build-slots packager prepared_list unweighed weighed (1 ∷ 0 ∷ [])
      true refl checked
  where
    weighed : Weights
    weighed = set_weight 0 3 (set_weight 1 2 unweighed)

    checked :
        check_if_packages_are_ready_to_build packager prepared_list unweighed
        ≡ ok (weighed, 1 ∷ 0 ∷ [], true)
    checked =
        unfold check_if_packages_are_ready_to_build calculate_job_limits nat_eq string_eq option_eq
          status_eq Status-discrete in
        refl
