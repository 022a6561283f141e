-- ===== src/Packager/Policy.antt =====
-- `check_packages_respect_wrapper_policy` and the handlers of the wrapper policies: which of the
-- packages that were built become wrappers, and what is done with the others in a deadlock.
pub mod Budget
pub mod Admission
use autosubmit.Prelude.{
  ℕ, String, Bool, true, false, not, ◌&&◌, ◌||◌, Option, none, some, List, [], ◌∷◌, ◌++◌, ◌==◌,
  contains, nat_eq, string_eq, ltb, leb, if◌then◌else◌, length, filter, any, map, run_each, Result,
  ok, err, value_error, for_each, ◌>>=◌,
}
use autosubmit.Prelude.Int.{ℤ, pos, negsuc, ◌+ℤ◌}
use autosubmit.Job.Status.{Status, status_eq, ready, completed}
use autosubmit.Job.Record.{Job}
use autosubmit.JobList.State.{JobList, job, status_of, modify}
use autosubmit.JobList.Getters.{get_in_queue}
use autosubmit.Packager.Bounds.{WrapperLimits}
use autosubmit.Packager.Package.{
  Package, Submission, simple, simple_wrapped, wrapper, RealLimits,
  check_real_package_wrapper_limits, check_jobs_to_run_first,
}

-- The packager's settings for the wrapper at hand, and `str.upper`.
pub record Wrapping : Type 0 where
  pub wrapper_type : String
  pub wrapper_policy : String
  pub jobs_in_wrapper : List String
  pub allow_python_jobs : Bool
  pub upper : String → String

-- The jobs, the packages to submit, `max_jobs_to_submit`, and the keys of `wrappers_with_error`,
-- each as the names that the source joins.
pub record Packing : Type 0 where
  pub jobs : JobList
  pub to_submit : List Submission
  pub max_jobs : ℤ
  pub wrappers_with_error : List (List String)

abbrev pub exhausted : ℤ → Bool
exhausted (pos n) = n == 0
exhausted (negsuc n) = false

-- `packages_to_submit.append(package); max_jobs_to_submit -= 1`
unfoldable pub submit : Submission → Packing → Packing
submit x s = record s { to_submit = s.to_submit ++ (x ∷ []); max_jobs = s.max_jobs +ℤ negsuc 0 }

-- The package of one job.
abbrev pub package_of : Wrapping → JobList → ℕ → Submission
package_of w l r =
    if (job l r).is_python && not w.allow_python_jobs then simple_wrapped r else simple r

-- The loop that submits the READY jobs one by one, until the budget is 0.
unfoldable pub submit_ready : Wrapping → List ℕ → Packing → Packing
unfolding submit nat_eq status_eq
submit_ready w [] s = s
submit_ready w (r ∷ rs) s =
    let rest =
      submit_ready w rs
        (if status_of s.jobs r == ready then submit (package_of w s.jobs r) s else s) in
    if exhausted s.max_jobs then s else rest

-- The same over the READY jobs that have failed, with the flag `error`.
unfoldable pub submit_failed : Wrapping → List ℕ → Packing × Bool → Packing × Bool
unfolding submit nat_eq status_eq
submit_failed w [] s = s
submit_failed w (r ∷ rs) (s, error) =
    let rest = submit_failed w rs (
      if ltb 0 (job s.jobs r).fail_count && status_of s.jobs r == ready
      then (submit (package_of w s.jobs r) s, false)
      else (s, error)) in
    if exhausted s.max_jobs then (s, error) else rest

same_names : List String → List String → Bool
unfolding string_eq
same_names [] [] = true
same_names [] (y ∷ ys) = false
same_names (x ∷ xs) [] = false
same_names (x ∷ xs) (y ∷ ys) = x == y && same_names xs ys

-- A key that is there is kept, since only its message changes.
unfoldable pub add_key : List String → List (List String) → List (List String)
unfolding same_names
add_key k [] = k ∷ []
add_key k (x ∷ xs) = if same_names k x then x ∷ xs else x ∷ add_key k xs

-- `self.wrappers_with_error[job_names] = err_message`
unfoldable pub handle_strict_policy : Package → Packing → Packing
unfolding add_key
handle_strict_policy p s = record s {
  wrappers_with_error = add_key (map (λ r. (job s.jobs r).name) p.jobs) s.wrappers_with_error;
}

unfoldable pub handle_mixed_policy : Wrapping → Package → Packing → Packing
unfolding submit_failed handle_strict_policy
handle_mixed_policy w p s =
    let out = submit_failed w p.jobs (s, true) in
    if out.1 then handle_strict_policy p out.0 else out.0

unfoldable pub handle_flexible_policy : Wrapping → Package → Packing → Packing
unfolding submit_ready
handle_flexible_policy w p s = submit_ready w p.jobs s

-- `submit_remaining_jobs`: the package as it is, or its only job.
unfoldable pub submit_remaining_jobs : Package → Packing → Packing
unfolding submit modify
submit_remaining_jobs p s = elim p.jobs [
  | [] ↦ submit (wrapper p) s
  | r ∷ rs ↦ elim rs [
    | [] ↦
        submit (simple r)
          (record s { jobs = modify r (λ j. record j { wrapper_type = some "Simple" }) s.jobs })
    | q ∷ qs ↦ submit (wrapper p) s
  ]
]

-- `get_jobs_by_section`, of `JobList`.
unfoldable pub get_jobs_by_section :
    (String → String) → List String → List String → Bool → JobList → List ℕ
unfolding string_eq status_eq
get_jobs_by_section upper sections banned only_non_completed l =
    filter
      (λ r.
        (contains sections (upper (job l r).section) && not (contains banned (job l r).name))
        && (not only_non_completed || not (status_of l r == completed)))
      l.order

-- `error_message_policy` raises where the package has no jobs, by its `max([])`. Its text is left
-- out.
unfoldable pub error_message_policy : Package → Result (Unit {0})
error_message_policy p = elim p.jobs [ [] ↦ err value_error | r ∷ rs ↦ ok tt ]

-- The body of the loop of `process_not_wrappeable_packages`.
unfoldable pub process_package : Wrapping → Package → Packing → Result Packing
unfolding error_message_policy get_jobs_by_section submit_remaining_jobs handle_strict_policy
    handle_mixed_policy handle_flexible_policy nat_eq string_eq
process_package w p s = do
  message ← error_message_policy p
  let names = map (λ r. (job s.jobs r).name) p.jobs
  let others = get_jobs_by_section w.upper w.jobs_in_wrapper names true s.jobs
  ok (
      if length others == 0
      then submit_remaining_jobs p s
      else if w.wrapper_policy == "strict"
      then handle_strict_policy p s
      else if w.wrapper_policy == "mixed"
      then handle_mixed_policy w p s
      else handle_flexible_policy w p s)

unfoldable pub process_not_wrappeable_packages : Wrapping → List Package → Packing → Result Packing
unfolding process_package
process_not_wrappeable_packages w ps s = for_each (process_package w) ps s

unfoldable pub is_deadlock : Bool → ℕ → ℕ → JobList → Bool
unfolding get_in_queue nat_eq
is_deadlock any_simple rejected built l =
    (not any_simple && length (get_in_queue none false l) == 0) && rejected == built

-- Is the package large enough, and without a failed job.
abbrev pub fits : WrapperLimits → RealLimits → Package → JobList → Bool
fits limits real p l =
    ((leb limits.real_min (length p.jobs) && leb limits.min_v real.real_v)
      && leb limits.min_h real.real_h)
    && not (any (λ r. ltb 0 (job l r).fail_count) p.jobs)

-- `job.wrapper_type = p.wrapper_type; job.packed = True`
pack : Package → ℕ → JobList → JobList
unfolding modify
pack p r = modify r (λ j. record j { wrapper_type = some p.wrapper_type; packed = true })

-- The jobs to run first, where there are some: the package is cut down to them.
unfoldable pub submit_first : Wrapping → Package → Packing → Packing
unfolding check_jobs_to_run_first submit_ready
submit_first w p s =
    let (l, q, run_first) = check_jobs_to_run_first w.wrapper_type s.jobs p in
    if run_first then submit_ready w q.jobs (record s { jobs = l }) else record s { jobs = l }

-- A package that fits is submitted as a wrapper, and its jobs are packed; another is set aside.
unfoldable pub wrap_or_reject :
    WrapperLimits → Package → Packing × List Package → RealLimits → Packing × List Package
unfolding submit pack
wrap_or_reject limits p (s, rejected) real =
    if fits limits real p s.jobs
    then (submit (wrapper p) (record s { jobs = run_each (pack p) p.jobs s.jobs }), rejected)
    else (s, rejected ++ (p ∷ []))

-- The body of the loop over the packages, with the packages that were not wrapped.
unfoldable pub visit_package :
    Wrapping → WrapperLimits → Package → Packing × List Package → Result (Packing × List Package)
unfolding submit_first check_real_package_wrapper_limits wrap_or_reject nat_eq
visit_package w limits p s =
    if ltb 0 (length s.0.jobs.jobs_to_run_first) then ok (submit_first w p s.0, s.1) else (do
      real ← check_real_package_wrapper_limits w.wrapper_type p
      ok (wrap_or_reject limits p s real))

unfoldable pub form_wrappers :
    Wrapping
    → WrapperLimits
    → List Package
    → Packing × List Package
    → Result (Packing × List Package)
unfolding visit_package nat_eq
form_wrappers w limits [] s = ok s
form_wrappers w limits (p ∷ ps) s =
    if exhausted s.0.max_jobs
    then ok s
    else visit_package w limits p s >>= form_wrappers w limits ps

-- The whole method.
unfoldable pub check_packages_respect_wrapper_policy :
    Wrapping → WrapperLimits → List Package → Bool → Packing → Result Packing
unfolding form_wrappers is_deadlock process_not_wrappeable_packages
check_packages_respect_wrapper_policy w limits built any_simple s = do
  out ← form_wrappers w limits built (s, [])
  if is_deadlock any_simple (length out.1) (length built) out.0.jobs
      then process_not_wrappeable_packages w out.1 out.0
      else ok out.0
