-- ===== src/Packager/Policy/Budget.antt =====
-- The budget of submissions: each package that is added takes one from it.
use autosubmit.Prelude.{
  ℕ, suc, ◌≡◌, refl, sym, ap, ◌∙◌, Bool, true, false, ◌&&◌, some, List, [], ◌∷◌, ◌==◌, nat_eq,
  string_eq, ltb, if◌then◌else◌, length, length-append_one, Result, ok, ◌>>=◌, >>=-eq-ok,
  Bool-cases, for_each, arith, run_each, map, inl, inr, if-cases,
}
use autosubmit.Prelude.Int.{ℤ, pos, negsuc, ◌+ℤ◌}
use autosubmit.Job.Status.{status_eq, ready}
use autosubmit.JobList.State.{JobList, job, status_of, modify}
use autosubmit.Packager.Bounds.{WrapperLimits}
use autosubmit.Packager.Package.{
  Package, Submission, simple, wrapper, RealLimits, check_real_package_wrapper_limits,
  check_jobs_to_run_first,
}
use autosubmit.Packager.Policy.{
  Wrapping, Packing, submit, submit_ready, submit_failed, handle_strict_policy, handle_mixed_policy,
  get_jobs_by_section, handle_flexible_policy, submit_remaining_jobs, process_package,
  error_message_policy, process_not_wrappeable_packages, package_of, exhausted, fits, submit_first,
  wrap_or_reject, pack, visit_package, form_wrappers, is_deadlock,
  check_packages_respect_wrapper_policy,
}

-- What is left of the budget, and what was taken from it.
abbrev pub balance : Packing → ℤ
balance s = s.max_jobs +ℤ pos (length s.to_submit)

spend : (z : ℤ) (n : ℕ) → (z +ℤ negsuc 0) +ℤ pos (suc n) ≡ z +ℤ pos n
spend (pos a) n = ground arith
spend (negsuc a) n = ground arith

-- One submission, whatever has become of the jobs.
pub balance-submit : (x : Submission) (s : Packing) → balance (submit x s) ≡ balance s
unfolding submit
balance-submit x s =
    ap (λ n. (s.max_jobs +ℤ negsuc 0) +ℤ pos n) (length-append_one s.to_submit x)
    ∙ spend s.max_jobs (length s.to_submit)

balance-submit_ready :
    (w : Wrapping) (rs : List ℕ) (s : Packing) → balance (submit_ready w rs s) ≡ balance s
unfolding submit_ready
balance-submit_ready w [] s = refl
balance-submit_ready w (r ∷ rs) s = elim (Bool-cases (exhausted s.max_jobs)) [
  | inl e ↦ rw e refl
  | inr e ↦ rw e (elim (Bool-cases (status_of s.jobs r == ready)) [
    | inl c ↦ rw c (
        balance-submit_ready w rs (submit (package_of w s.jobs r) s)
        ∙ balance-submit (package_of w s.jobs r) s)
    | inr c ↦ rw c (balance-submit_ready w rs s)
  ])
]

balance-submit_failed :
    (w : Wrapping) (rs : List ℕ) (s : Packing × Bool)
    → balance (submit_failed w rs s).0 ≡ balance s.0
unfolding submit_failed
balance-submit_failed w [] s = refl
balance-submit_failed w (r ∷ rs) (s, error) = elim (Bool-cases (exhausted s.max_jobs)) [
  | inl e ↦ rw e refl
  | inr e ↦
      rw e (elim (Bool-cases (ltb 0 (job s.jobs r).fail_count && status_of s.jobs r == ready)) [
        | inl c ↦ rw c (
            balance-submit_failed w rs (submit (package_of w s.jobs r) s, false)
            ∙ balance-submit (package_of w s.jobs r) s)
        | inr c ↦ rw c (balance-submit_failed w rs (s, error))
      ])
]

balance-handle_mixed_policy :
    (w : Wrapping) (p : Package) (s : Packing) → balance (handle_mixed_policy w p s) ≡ balance s
unfolding handle_mixed_policy handle_strict_policy
balance-handle_mixed_policy w p s = elim (Bool-cases (submit_failed w p.jobs (s, true)).1) [
  | inl e ↦ rw e (balance-submit_failed w p.jobs (s, true))
  | inr e ↦ rw e (balance-submit_failed w p.jobs (s, true))
]

balance-submit_remaining_jobs :
    (p : Package) (s : Packing) → balance (submit_remaining_jobs p s) ≡ balance s
unfolding submit_remaining_jobs
balance-submit_remaining_jobs p s = by_jobs p.jobs
  where
    by_jobs : (rs : List ℕ) → balance (submit_remaining_jobs (record p { jobs = rs }) s) ≡ balance s
    by_jobs [] = balance-submit _ s
    by_jobs (r ∷ []) =
        balance-submit (simple r)
          (record s { jobs = modify r (λ j. record j { wrapper_type = some "Simple" }) s.jobs })
    by_jobs (r ∷ (q ∷ qs)) = balance-submit _ s

balance-process_package :
    (w : Wrapping) (p : Package) (s s' : Packing)
    → process_package w p s ≡ ok s'
    → balance s' ≡ balance s
unfolding process_package handle_flexible_policy handle_strict_policy
balance-process_package w p s s' h =
    let (u, e, k) = >>=-eq-ok (error_message_policy p) (λ m. ok handled) h in
    ap balance (sym (inner k)) ∙ balance-handled
  where
    others : List ℕ
    others =
        get_jobs_by_section w.upper w.jobs_in_wrapper (map (λ r. (job s.jobs r).name) p.jobs) true
          s.jobs

    handled : Packing
    handled =
        if length others == 0
        then submit_remaining_jobs p s
        else if w.wrapper_policy == "strict"
        then handle_strict_policy p s
        else if w.wrapper_policy == "mixed"
        then handle_mixed_policy w p s
        else handle_flexible_policy w p s

    inner : ok handled ≡ ok s' → handled ≡ s'
    inner k = cc

    balance-handled : balance handled ≡ balance s
    balance-handled = elim (Bool-cases (length others == 0)) [
      | inl a ↦ rw a (balance-submit_remaining_jobs p s)
      | inr a ↦ rw a (elim (Bool-cases (w.wrapper_policy == "strict")) [
        | inl b ↦ rw b refl
        | inr b ↦ rw b (elim (Bool-cases (w.wrapper_policy == "mixed")) [
          | inl c ↦ rw c (balance-handle_mixed_policy w p s)
          | inr c ↦ rw c (balance-submit_ready w p.jobs s)
        ])
      ])
    ]

balance-process_all :
    (w : Wrapping) (ps : List Package) (s s' : Packing)
    → for_each (process_package w) ps s ≡ ok s'
    → balance s' ≡ balance s
balance-process_all w [] s s' h = ap balance (same h)
  where
    same : ok s ≡ ok s' → s' ≡ s
    same h = cc
balance-process_all w (p ∷ ps) s s' h =
    let (s1, e, k) = >>=-eq-ok (process_package w p s) (for_each (process_package w) ps) h in
    balance-process_all w ps s1 s' k ∙ balance-process_package w p s s1 e

balance-submit_first :
    (w : Wrapping) (p : Package) (s : Packing) → balance (submit_first w p s) ≡ balance s
unfolding submit_first
balance-submit_first w p s = elim (Bool-cases out.2) [
  | inl e ↦ rw e (balance-submit_ready w out.1.jobs (record s { jobs = out.0 }))
  | inr e ↦ rw e refl
]
  where
    out : JobList × Package × Bool
    out = check_jobs_to_run_first w.wrapper_type s.jobs p

balance-wrap_or_reject :
    (limits : WrapperLimits) (p : Package) (s : Packing × List Package) (real : RealLimits)
    → balance (wrap_or_reject limits p s real).0 ≡ balance s.0
unfolding wrap_or_reject
balance-wrap_or_reject limits p (s, rejected) real = elim (Bool-cases (fits limits real p s.jobs)) [
  | inl e ↦ rw e (balance-submit (wrapper p) (record s { jobs = run_each (pack p) p.jobs s.jobs }))
  | inr e ↦ rw e refl
]

-- What was returned.
returned : {S : Type 0} {a b : S} → ok a ≡ ok b → b ≡ a
returned h = cc

abbrev left : Packing × List Package → ℤ
left s = balance s.0

balance-visit_package :
    (w : Wrapping) (limits : WrapperLimits) (p : Package) (s s' : Packing × List Package)
    → visit_package w limits p s ≡ ok s'
    → left s' ≡ left s
unfolding visit_package
balance-visit_package w limits p s s' h =
    elim (if-cases (ltb 0 (length s.0.jobs.jobs_to_run_first)) (ok (submit_first w p s.0, s.1)) rest
      h) [
        | inl (_, e) ↦ ap left (returned e) ∙ balance-submit_first w p s.0
        | inr (_, e) ↦
            let (real, _, k) =
              >>=-eq-ok (check_real_package_wrapper_limits w.wrapper_type p)
                (λ real. ok (wrap_or_reject limits p s real)) e in
            ap left (returned k) ∙ balance-wrap_or_reject limits p s real
      ]
  where
    rest : Result (Packing × List Package)
    rest =
        check_real_package_wrapper_limits w.wrapper_type p
        >>= (λ real. ok (wrap_or_reject limits p s real))

balance-form_wrappers :
    (w : Wrapping) (limits : WrapperLimits) (ps : List Package) (s s' : Packing × List Package)
    → form_wrappers w limits ps s ≡ ok s'
    → left s' ≡ left s
unfolding form_wrappers
balance-form_wrappers w limits [] s s' h = ap left (returned h)
balance-form_wrappers w limits (p ∷ ps) s s' h =
    elim (if-cases (exhausted s.0.max_jobs) (ok s)
      (visit_package w limits p s >>= form_wrappers w limits ps) h) [
        | inl (_, e) ↦ ap left (returned e)
        | inr (_, e) ↦
            let (s1, e1, k) =
              >>=-eq-ok (visit_package w limits p s) (form_wrappers w limits ps) e in
            balance-form_wrappers w limits ps s1 s' k ∙ balance-visit_package w limits p s s1 e1
      ]

-- Where the method returns, whatever the policy, and in a deadlock too, each package that is submitted
-- takes exactly one from the budget: what is left of it and the number of packages have the same sum after as before.
pub balance-check_packages_respect_wrapper_policy :
    (w : Wrapping) (limits : WrapperLimits) (built : List Package) (any_simple : Bool)
    (s s' : Packing)
    → check_packages_respect_wrapper_policy w limits built any_simple s ≡ ok s'
    → s'.max_jobs +ℤ pos (length s'.to_submit) ≡ s.max_jobs +ℤ pos (length s.to_submit)
unfolding check_packages_respect_wrapper_policy process_not_wrappeable_packages
balance-check_packages_respect_wrapper_policy w limits built any_simple s s' h =
    let (out, e, k) = >>=-eq-ok (form_wrappers w limits built (s, [])) next h in
    elim (if-cases (is_deadlock any_simple (length out.1) (length built) out.0.jobs)
      (process_not_wrappeable_packages w out.1 out.0) (ok out.0) k) [
        | inl (_, d) ↦
            balance-process_all w out.1 out.0 s' d
            ∙ balance-form_wrappers w limits built (s, []) out e
        | inr (_, d) ↦ ap balance (returned d) ∙ balance-form_wrappers w limits built (s, []) out e
      ]
  where
    next : Packing × List Package → Result Packing
    next out =
        if is_deadlock any_simple (length out.1) (length built) out.0.jobs
        then process_not_wrappeable_packages w out.1 out.0
        else ok out.0
