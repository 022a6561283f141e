-- ===== src/Packager/Policy/Admission.antt =====
-- What a package must be to become a wrapper outside a deadlock.
use autosubmit.Prelude.{
  ℕ, ◌≤◌, ◌≡◌, refl, sym, ap, ◌∙◌, subst, Bool, true, false, List, [], ◌∷◌, ◌++◌, nat_eq, ltb,
  length, any, All, All-map, All-append, Result, ok, ◌>>=◌, >>=-eq-ok, Bool-cases, if-cases, arith,
  run_each, inl, inr,
}
use mathlib.Core.List.{append-nil, append_assoc}
use autosubmit.JobList.State.{JobList, job, modify}
use autosubmit.Packager.Bounds.{WrapperLimits}
use autosubmit.Packager.Package.{
  Package, Submission, simple, simple_wrapped, wrapper, RealLimits,
  check_real_package_wrapper_limits,
}
use autosubmit.Packager.Policy.{
  Wrapping, Packing, submit, exhausted, fits, pack, wrap_or_reject, submit_first, visit_package,
  form_wrappers, is_deadlock, check_packages_respect_wrapper_policy,
}

-- A wrapper of at least the least number of jobs in all and in each direction, with no job that has
-- failed.
abbrev pub Admitted : Wrapping → WrapperLimits → JobList → Submission → Type 0
Admitted w limits l (simple r) = ⊥
Admitted w limits l (simple_wrapped r) = ⊥
Admitted w limits l (wrapper p) =
    (real : RealLimits) × (check_real_package_wrapper_limits w.wrapper_type p ≡ ok real)
    × (limits.real_min ≤ length p.jobs)
    × (limits.min_v ≤ real.real_v)
    × (limits.min_h ≤ real.real_h)
    × All (λ r. (job l r).fail_count ≡ 0) p.jobs

-- What packing leaves of the jobs.
record Packed (l l' : JobList) : Type 0 where
  first_same : l'.jobs_to_run_first ≡ l.jobs_to_run_first
  fails_same : (q : ℕ) → (job l' q).fail_count ≡ (job l q).fail_count

pack-Packed : (p : Package) (r : ℕ) (l : JobList) → Packed l (pack p r l)
unfolding pack modify
pack-Packed p r l = record { first_same = refl; fails_same = λ q. ground arith }

Packed-trans : {a b c : JobList} → Packed a b → Packed b c → Packed a c
Packed-trans f g = record {
  first_same = g.first_same ∙ f.first_same;
  fails_same = λ q. g.fails_same q ∙ f.fails_same q;
}

pack_all-Packed : (p : Package) (rs : List ℕ) (l : JobList) → Packed l (run_each (pack p) rs l)
pack_all-Packed p [] l = record { first_same = refl; fails_same = λ q. refl }
pack_all-Packed p (r ∷ rs) l = Packed-trans (pack-Packed p r l) (pack_all-Packed p rs (pack p r l))

none_failed :
    (l : JobList) (rs : List ℕ)
    → any (λ r. ltb 0 (job l r).fail_count) rs ≡ false
    → All (λ r. (job l r).fail_count ≡ 0) rs
none_failed l [] h = tt
none_failed l (r ∷ rs) h = (ground arith, none_failed l rs (ground arith))

fits_lem :
    (limits : WrapperLimits) (real : RealLimits) (p : Package) (l : JobList)
    → fits limits real p l ≡ true
    → (limits.real_min ≤ length p.jobs)
      × (limits.min_v ≤ real.real_v)
      × (limits.min_h ≤ real.real_h)
      × (any (λ r. ltb 0 (job l r).fail_count) p.jobs ≡ false)
fits_lem limits real p l h = ground arith

returned : {S : Type 0} {a b : S} → ok a ≡ ok b → b ≡ a
returned h = cc

module _ (w : Wrapping) (limits : WrapperLimits) where
  Admitted-Packed :
      {l l' : JobList}
      → Packed l l'
      → (x : Submission) → Admitted w limits l' x
      → Admitted w limits l x
  Admitted-Packed f (simple r) h = h
  Admitted-Packed f (simple_wrapped r) h = h
  Admitted-Packed f (wrapper p) (real, e, a, b, c, d) =
      (real, e, a, b, c, All-map (λ r z. sym (f.fails_same r) ∙ z) p.jobs d)

  -- What was added to the submissions, judged in the state `l`.
  Added : JobList → Packing × List Package → Packing × List Package → Type 0
  Added l s s' =
      (new : List Submission) × (s'.0.to_submit ≡ s.0.to_submit ++ new)
      × All (Admitted w limits l) new
      × Packed s.0.jobs s'.0.jobs

  Added-refl : (s : Packing × List Package) → Added s.0.jobs s s
  unfolding Added
  Added-refl s =
      ([], sym (append-nil s.0.to_submit), tt, record { first_same = refl; fails_same = λ q. refl })

  wrap_or_reject-Added :
      (p : Package) (s : Packing × List Package) (real : RealLimits)
      → check_real_package_wrapper_limits w.wrapper_type p ≡ ok real
      → Added s.0.jobs s (wrap_or_reject limits p s real)
  unfolding wrap_or_reject submit Added
  wrap_or_reject-Added p (s, rejected) real e = elim (Bool-cases (fits limits real p s.jobs)) [
    | inl f ↦
        let (a, b, c, d) = fits_lem limits real p s.jobs f in
        rw f (
          wrapper p ∷ [],
          refl,
          ((real, e, a, b, c, none_failed s.jobs p.jobs d), tt),
          pack_all-Packed p p.jobs s.jobs,
        )
    | inr f ↦
        rw f (
          [],
          sym (append-nil s.to_submit),
          tt,
          record { first_same = refl; fails_same = λ q. refl },
        )
  ]

  Added-trans :
      (s s1 s' : Packing × List Package)
      → Added s.0.jobs s s1
      → Added s1.0.jobs s1 s'
      → Added s.0.jobs s s'
  unfolding Added
  Added-trans s s1 s' (new, e, a, f) (more, e1, a1, f1) = (
    new ++ more,
    e1 ∙ ap (λ x. x ++ more) e ∙ append_assoc s.0.to_submit new more,
    All-append (Admitted w limits s.0.jobs) new more a (All-map (Admitted-Packed f) more a1),
    Packed-trans f f1,
  )

  visit_package-Added :
      (p : Package) (s s' : Packing × List Package)
      → length s.0.jobs.jobs_to_run_first ≡ 0
      → visit_package w limits p s ≡ ok s'
      → Added s.0.jobs s s'
  unfolding visit_package
  visit_package-Added p s s' none_first h =
      elim (if-cases (ltb 0 (length s.0.jobs.jobs_to_run_first)) (ok (submit_first w p s.0, s.1))
        rest h) [
          | inl (b, _) ↦ absurd (ground arith)
          | inr (_, e) ↦
              let (real, m, k) =
                >>=-eq-ok (check_real_package_wrapper_limits w.wrapper_type p)
                  (λ real. ok (wrap_or_reject limits p s real)) e in
              subst (Added s.0.jobs s) (sym (returned k)) (wrap_or_reject-Added p s real m)
        ]
    where
      rest : Result (Packing × List Package)
      rest =
          check_real_package_wrapper_limits w.wrapper_type p
          >>= (λ real. ok (wrap_or_reject limits p s real))

  form_wrappers-Added :
      (ps : List Package) (s s' : Packing × List Package)
      → length s.0.jobs.jobs_to_run_first ≡ 0
      → form_wrappers w limits ps s ≡ ok s'
      → Added s.0.jobs s s'
  unfolding form_wrappers Added
  form_wrappers-Added [] s s' z h = subst (Added s.0.jobs s) (sym (returned h)) (Added-refl s)
  form_wrappers-Added (p ∷ ps) s s' z h =
      elim (if-cases (exhausted s.0.max_jobs) (ok s)
        (visit_package w limits p s >>= form_wrappers w limits ps) h) [
          | inl (_, e) ↦ subst (Added s.0.jobs s) (sym (returned e)) (Added-refl s)
          | inr (_, e) ↦
              let (s1, e1, k) =
                >>=-eq-ok (visit_package w limits p s) (form_wrappers w limits ps) e in
              let step = visit_package-Added p s s1 z e1 in
              Added-trans s s1 s' step (form_wrappers-Added ps s1 s' (still s s1 step z) k)
        ]
    where
      still :
          (s s1 : Packing × List Package)
          → Added s.0.jobs s s1
          → length s.0.jobs.jobs_to_run_first ≡ 0
          → length s1.0.jobs.jobs_to_run_first ≡ 0
      still s s1 (new, e, a, f) z = ap length f.first_same ∙ z

  -- Where the method returns, no jobs are to run first and there is no deadlock, all that is added to the submissions
  -- are wrappers that have the least number of jobs, in all and in each direction, and no job that
  -- had failed.
  pub check_packages_respect_wrapper_policy-Admitted :
      (built : List Package) (any_simple : Bool) (s : Packing) (s' : Packing)
      (out : Packing × List Package)
      → length s.jobs.jobs_to_run_first ≡ 0
      → form_wrappers w limits built (s, []) ≡ ok out
      → is_deadlock any_simple (length out.1) (length built) out.0.jobs ≡ false
      → check_packages_respect_wrapper_policy w limits built any_simple s ≡ ok s'
      → (new : List Submission) × (s'.to_submit ≡ s.to_submit ++ new)
        × All (Admitted w limits s.jobs) new
  unfolding check_packages_respect_wrapper_policy Added
  check_packages_respect_wrapper_policy-Admitted built any_simple s s' out z f d h =
      let (new, e, a, k) = form_wrappers-Added built (s, []) out z f in
      (new, ap (λ (x : Packing). x.to_submit) (returned (rw (f, d) at h)) ∙ e, a)
