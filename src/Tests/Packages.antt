-- ===== src/Tests/Packages.antt =====
-- The theorems on the packager at work: a wrapper of two jobs on a platform for ten.
use autosubmit.Prelude.{
  ◌==◌, ◌⊎◌, ℕ, ◌+◌, ◌<◌, ◌≤◌, ◌≡◌, refl, String, true, false, Option, none, some, List, [], ◌∷◌,
  ◌++◌, length, All, nat_eq, string_eq, option_eq, ok, arith,
}
use autosubmit.Prelude.Int.{ℤ, pos, ◌+ℤ◌}
use autosubmit.Job.Status.{status_eq, Status-discrete, submitted, queuing, running}
use autosubmit.Packager.Limits.{Platform, calculate_job_limits, has_space}
use autosubmit.Packager.Limits.Space.{ids_with, calculate_job_limits-space}
use autosubmit.Packager.Bounds.{WrapperData, WrapperLimits, read_limits, calculate_wrapper_bounds}
use autosubmit.Packager.Bounds.Order.{IsOrdered, calculate_wrapper_bounds-IsOrdered}
use autosubmit.Packager.Package.{Package, Submission}
use autosubmit.Packager.Policy.{
  Wrapping, Packing, form_wrappers, is_deadlock, check_packages_respect_wrapper_policy,
}
use autosubmit.Packager.Policy.Budget.{balance-check_packages_respect_wrapper_policy}
use autosubmit.Packager.Policy.Admission.{Admitted, check_packages_respect_wrapper_policy-Admitted}
use autosubmit.Job.Record.{Dict}
use autosubmit.Packager.Simple.{submit_simple}
use autosubmit.Packager.Simple.Limited.{NoneNegative, submit_simple-NoneNegative}
use autosubmit.Tests.Samples.{sample, from_ok, from_ok-is_ok}

abbrev pub platform : Platform
platform = record {
  name = "LOCAL";
  max_waiting_jobs = 10;
  total_jobs = 10;
  allow_python_jobs = true;
}

calculate_job_limits-space_example :
    (n : ℕ) × ((calculate_job_limits platform none sample).max_jobs ≡ pos n)
    × (0 < n)
    × (ids_with platform sample (λ t. t == submitted)
          + ids_with platform sample (λ t. t == queuing)
          + n
        ≤ 10)
    × (ids_with platform sample (λ t. t == queuing)
          + ids_with platform sample (λ t. t == running)
          + n
        ≤ 10)
    × ((ids_with platform sample (λ t. t == submitted)
            + ids_with platform sample (λ t. t == queuing)
            + n
          ≡ 10)
        ⊎ (ids_with platform sample (λ t. t == queuing)
              + ids_with platform sample (λ t. t == running)
              + n
            ≡ 10))
calculate_job_limits-space_example = calculate_job_limits-space platform none sample space
  where
    space : has_space (calculate_job_limits platform none sample) ≡ true
    space = unfold calculate_job_limits nat_eq string_eq option_eq status_eq Status-discrete in refl

abbrev wrapper_data : WrapperData
wrapper_data = record {
  min_wrapped = some 2;
  max_wrapped = some 4;
  min_wrapped_v = none;
  max_wrapped_v = none;
  min_wrapped_h = none;
  max_wrapped_h = none;
  type_name = some "vertical";
}

abbrev no_max : String → Option ℕ
no_max s = none

abbrev bounds : WrapperLimits
bounds = calculate_wrapper_bounds wrapper_data wrapper_data no_max ("SIM" ∷ []) sample

calculate_wrapper_bounds-IsOrdered_example :
    IsOrdered bounds × (2 ≤ bounds.real_min) × (bounds.min_total ≤ bounds.real_min)
calculate_wrapper_bounds-IsOrdered_example =
    calculate_wrapper_bounds-IsOrdered wrapper_data wrapper_data no_max ("SIM" ∷ []) sample ordered
  where
    ordered : IsOrdered (read_limits wrapper_data wrapper_data)
    ordered = record {
      total_positive = omega arith;
      total_ordered = omega arith;
      v_positive = omega arith;
      v_ordered = omega arith;
      h_positive = omega arith;
      h_ordered = omega arith;
    }

abbrev wrapping : Wrapping
wrapping = record {
  wrapper_type = "vertical";
  wrapper_policy = "flexible";
  jobs_in_wrapper = "SIM" ∷ [];
  allow_python_jobs = true;
  upper = λ s. s;
}

abbrev built : List Package
built = record { jobs = 1 ∷ 2 ∷ []; jobs_lists = []; wrapper_type = "vertical" } ∷ []

abbrev packing : Packing
packing = record { jobs = sample; to_submit = []; max_jobs = pos 3; wrappers_with_error = [] }

abbrev limits : WrapperLimits
limits = record {
  min_total = 2;
  max_total = 4;
  min_v = 2;
  max_v = 4;
  min_h = 1;
  max_h = 1;
  max_by_section = [];
  real_min = 2;
}

code : Unit {0}
unfolding check_packages_respect_wrapper_policy form_wrappers is_deadlock nat_eq string_eq option_eq
    status_eq Status-discrete
code = tt

packed : Packing
packed = from_ok packing (check_packages_respect_wrapper_policy wrapping limits built false packing)

ran : check_packages_respect_wrapper_policy wrapping limits built false packing ≡ ok packed
unfolding code packed
ran =
    from_ok-is_ok packing
      (check_packages_respect_wrapper_policy wrapping limits built false packing) refl

balance-check_packages_respect_wrapper_policy_example :
    packed.max_jobs +ℤ pos (length packed.to_submit) ≡ pos 3 +ℤ pos 0
balance-check_packages_respect_wrapper_policy_example =
    balance-check_packages_respect_wrapper_policy wrapping limits built false packing packed ran

formed : Packing × List Package
formed = from_ok (packing, []) (form_wrappers wrapping limits built (packing, []))

formed_lem : form_wrappers wrapping limits built (packing, []) ≡ ok formed
unfolding code formed
formed_lem = from_ok-is_ok (packing, []) (form_wrappers wrapping limits built (packing, [])) refl

no_deadlock : is_deadlock false (length formed.1) (length built) formed.0.jobs ≡ false
unfolding code formed
no_deadlock = refl

check_packages_respect_wrapper_policy-Admitted_example :
    (new : List Submission) × (packed.to_submit ≡ packing.to_submit ++ new)
    × All (Admitted wrapping limits sample) new
check_packages_respect_wrapper_policy-Admitted_example =
    check_packages_respect_wrapper_policy-Admitted wrapping limits built false packing packed formed
      refl formed_lem no_deadlock ran

abbrev section_left : Dict ℤ
section_left = ("SIM", pos 1) ∷ []

submit_simple-NoneNegative_example :
    ((submit_simple wrapping (1 ∷ 3 ∷ []) (packing, section_left)).0.max_jobs
        +ℤ pos (length (submit_simple wrapping (1 ∷ 3 ∷ []) (packing, section_left)).0.to_submit)
      ≡ pos 3 +ℤ pos 0)
    × NoneNegative (submit_simple wrapping (1 ∷ 3 ∷ []) (packing, section_left)).1
submit_simple-NoneNegative_example =
    submit_simple-NoneNegative wrapping (1 ∷ 3 ∷ []) packing section_left ((1, refl), tt)
