-- ===== src/Packager/Simple/Limited.antt =====
-- The limits of the sections while jobs are submitted one by one.
use autosubmit.Prelude.{
  ℕ, zero, suc, ◌≡◌, refl, ap, ◌∙◌, String, true, false, some, List, [], ◌∷◌, ◌==◌, nat_eq,
  string_eq, length, All, Bool-cases, inl, inr, arith,
}
use autosubmit.Prelude.Int.{ℤ, pos, negsuc, ◌+ℤ◌, positive}
use autosubmit.Job.Record.{Dict}
use autosubmit.JobList.State.{job}
use autosubmit.JobList.Update.Special.{lookup}
use autosubmit.Packager.Policy.{Wrapping, Packing, package_of}
use autosubmit.Packager.Policy.Budget.{balance, balance-submit}
use autosubmit.Packager.Simple.{
  take_one, Verdict, stop, pass, go, verdict, held_back, unpack, submit_one, submit_simple,
}

-- No limit is below zero.
abbrev pub NoneNegative : Dict ℤ → Type 0
NoneNegative d = All (λ (s, z). (n : ℕ) × (z ≡ pos n)) d

-- Taking one from a limit that is positive.
take_one-NoneNegative :
    (s : String) (d : Dict ℤ) (budget : ℤ)
    → verdict (lookup s d) budget ≡ go
    → NoneNegative d
    → NoneNegative (take_one s d)
unfolding take_one lookup verdict
take_one-NoneNegative s [] budget g h = tt
take_one-NoneNegative s ((t, z) ∷ d) budget g (k, h) = elim (Bool-cases (s == t)) [
  | inl e ↦ rw e (lowered z k (positive_of z (rw e at g)), h)
  | inr e ↦ rw e (k, take_one-NoneNegative s d budget (rw e at g) h)
]
  where
    clash : false ≡ true → ⊥
    clash p = cc

    positive_of : (z : ℤ) → verdict (some z) budget ≡ go → positive z ≡ true
    positive_of z g = ground arith

    lowered :
        (z : ℤ) → (n : ℕ) × (z ≡ pos n) → positive z ≡ true → (n : ℕ) × (z +ℤ negsuc 0 ≡ pos n)
    lowered (pos zero) k p = absurd (clash p)
    lowered (pos (suc m)) k p = (m, ground arith)
    lowered (negsuc m) k p = absurd (clash p)

submit_one-kept :
    (w : Wrapping) (r : ℕ) (s : Packing) (d : Dict ℤ)
    → verdict (lookup (job s.jobs r).section d) s.max_jobs ≡ go
    → NoneNegative d
    → (balance (submit_one w r (s, d)).0 ≡ balance s) × NoneNegative (submit_one w r (s, d)).1
unfolding submit_one
submit_one-kept w r s d g h = elim (Bool-cases (held_back s.jobs r)) [
  | inl e ↦ rw e (refl, h)
  | inr e ↦ rw e (
    balance-submit (package_of w s.jobs r) s,
    take_one-NoneNegative (job s.jobs r).section d s.max_jobs g h,
  )
]

-- Of the loop: each package that is submitted takes exactly one from the budget, and if no limit of
-- a section is below zero before, none is after.
pub submit_simple-NoneNegative :
    (w : Wrapping) (rs : List ℕ) (s : Packing) (d : Dict ℤ)
    → NoneNegative d
    → ((submit_simple w rs (s, d)).0.max_jobs
          +ℤ pos (length (submit_simple w rs (s, d)).0.to_submit)
        ≡ s.max_jobs +ℤ pos (length s.to_submit))
      × NoneNegative (submit_simple w rs (s, d)).1
unfolding submit_simple
submit_simple-NoneNegative w [] s d h = (refl, h)
submit_simple-NoneNegative w (r ∷ rs) s d h =
    by_verdict (verdict (lookup (job s.jobs r).section d) s.max_jobs)
      (λ x k. submit_simple-NoneNegative w rs x.0 x.1 k) refl
  where
    s1 : Packing
    s1 = unpack r s

    same_section : (job s1.jobs r).section ≡ (job s.jobs r).section
    same_section = unfold unpack in ground arith

    after : Verdict → Packing × Dict ℤ
    after v = elim v [
      | stop ↦ (s1, d)
      | pass ↦ submit_simple w rs (s1, d)
      | go ↦ submit_simple w rs (submit_one w r (s1, d))
    ]

    by_verdict :
        (v : Verdict)
        → ((x : Packing × Dict ℤ)
            → NoneNegative x.1
            → (balance (submit_simple w rs x).0 ≡ balance x.0)
              × NoneNegative (submit_simple w rs x).1)
        → verdict (lookup (job s.jobs r).section d) s.max_jobs ≡ v
        → (balance (after v).0 ≡ balance s) × NoneNegative (after v).1
    by_verdict stop next e = (unfold unpack in refl, h)
    by_verdict pass next e = let rest = next (s1, d) h in (rest.0 ∙ (unfold unpack in refl), rest.1)
    by_verdict go next e =
        let (b, k) =
          submit_one-kept w r s1 d (ap (λ x. verdict (lookup x d) s.max_jobs) same_section ∙ e) h in
        let rest = next (submit_one w r (s1, d)) k in
        (rest.0 ∙ (b ∙ (unfold unpack in refl)), rest.1)
