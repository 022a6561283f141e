-- ===== src/Packager/Ready/Slots.antt =====
-- With at most five ids held, the jobs to build fit in the slots that are left.
use autosubmit.Packager.Limits.{calculate_job_limits, has_space}
use autosubmit.Packager.Weight.{compute_weight}
use autosubmit.Prelude.{
  subst, ℕ, zero, suc, ◌+◌, ◌-◌, ◌≤◌, ◌<◌, ◌≡◌, refl, Bool, true, false, not, ◌&&◌, none, some,
  List, [], ◌∷◌, length, ltb, leb, nat_eq, if◌then◌else◌, Result, ok, err, ◌>>=◌, arith, Bool-cases,
  inl, inr,
}
use autosubmit.Prelude.Int.{pos, negsuc, sub_ℕ}
use autosubmit.JobList.State.{JobList}
use autosubmit.Packager.Weight.{Weights, sorted}
use autosubmit.Packager.Weight.Sorted.{length-sorted}
use autosubmit.Packager.Ready.{
  Packager, is_empty_list, delete_last, trim, remove_first, get_at, remove_heavy, find_ready,
  held_ids, remaining_held_slots, keep_slots, jobs_to_build, check_if_packages_are_ready_to_build,
}

length-delete_last : (rs : List ℕ) → length (delete_last rs) ≡ length rs - 1
unfolding delete_last
length-delete_last [] = refl
length-delete_last (r ∷ []) = refl
length-delete_last (r ∷ (q ∷ rs)) = omega (arith, length-delete_last (q ∷ rs))

-- A negative number of slots ends in IndexError.
trim-negsuc : (fuel k : ℕ) (rs : List ℕ) → trim fuel (negsuc k) rs ≡ none
unfolding trim
trim-negsuc zero k rs = refl
trim-negsuc (suc fuel) k [] = refl
trim-negsuc (suc fuel) k (r ∷ rs) = trim-negsuc fuel k (delete_last (r ∷ rs))

length-trim :
    (fuel n : ℕ) (rs : List ℕ)
    → length rs < fuel
    → (kept : List ℕ) × (trim fuel (pos n) rs ≡ some kept) × (length kept ≤ n)
unfolding trim
length-trim zero n rs h = absurd (omega (arith, h))
length-trim (suc fuel) n [] h = ([], ground arith, omega arith)
length-trim (suc fuel) n (r ∷ rs) h = elim (Bool-cases (ltb n (suc (length rs)))) [
  | inl e ↦
      let (kept, a, b) =
        length-trim fuel n (delete_last (r ∷ rs)) (omega (arith, h, length-delete_last (r ∷ rs))) in
      (kept, ground arith, b)
  | inr e ↦ (r ∷ rs, ground arith, ground arith)
]

length-remove_first : (x : ℕ) (ys : List ℕ) → length (remove_first x ys) ≤ length ys
unfolding remove_first
length-remove_first x [] = omega arith
length-remove_first x (y ∷ ys) = ground (arith, length-remove_first x ys)

length-remove_heavy :
    (fuel : ℕ) (w : Weights) (i : ℕ) (rs : List ℕ) → length (remove_heavy fuel w i rs) ≤ length rs
unfolding remove_heavy
length-remove_heavy zero w i rs = omega arith
length-remove_heavy (suc fuel) w i rs =
    elim (get_at rs i)
      as (λ o.
        length (elim o as (λ x. List ℕ) [
          | none ↦ rs
          | some r ↦ remove_heavy fuel w (i + 1) (if ltb 3 (w r) then remove_first r rs else rs)
        ])
        ≤ length rs) [
          | none ↦ omega arith
          | some r ↦ ground (
            arith,
            length-remove_first r rs,
            length-remove_heavy fuel w (i + 1) (remove_first r rs),
            length-remove_heavy fuel w (i + 1) rs,
          )
        ]

length-keep_slots : (n : ℕ) (w : Weights) (rs : List ℕ) → length (keep_slots (pos n) w rs) ≤ n
unfolding keep_slots
length-keep_slots n w rs =
    let (kept, e, small) =
      length-trim (length rs + 1) n (sorted w rs) (omega (arith, length-sorted w rs)) in
    rw (e, keep_slots) (omega (arith, small, length-remove_heavy (length kept) w 0 kept))

keep_slots-negsuc : (k : ℕ) (w : Weights) (rs : List ℕ) → keep_slots (negsuc k) w rs ≡ rs
unfolding keep_slots
keep_slots-negsuc k w rs = rw (trim-negsuc (length rs + 1) k (sorted w rs), keep_slots) refl

-- The slots of `n` held ids: at most five leave `5 - n` of them.
sub_ℕ-five :
    (n : ℕ) (w : Weights) (rs : List ℕ)
    → (n ≤ 5 → length (keep_slots (sub_ℕ 5 n) w rs) + n ≤ 5)
      × (5 < n → keep_slots (sub_ℕ 5 n) w rs ≡ rs)
sub_ℕ-five n w rs = elim (Bool-cases (leb n 5)) [
  | inl e ↦
      rw e
        (λ h. omega (arith, h, length-keep_slots (5 - n) w rs), λ h. absurd (ground (arith, h, e)))
  | inr e ↦ rw e (λ h. absurd (ground (arith, h, e)), λ h. keep_slots-negsuc (n - 5 - 1) w rs)
]

Kept : ℕ → List ℕ → List ℕ → Type 0
Kept n found rs = (n ≤ 5 → length rs + n ≤ 5) × (5 < n → rs ≡ found)

second_same :
    {w w' : Weights} {xs ys : List ℕ}
    → ◌≡◌ {A = Result (Weights × List ℕ)} (ok (w, xs)) (ok (w', ys))
    → xs ≡ ys
second_same e = cc

-- The three ends of `jobs_to_build` on hold.
chosen :
    (hold : Bool) (found : List ℕ) (n : ℕ) (weighed : Result Weights) (w w' : Weights) (rs : List ℕ)
    → hold ≡ true
    → (if hold && not (is_empty_list found)
        then (◌>>=◌ {T = Weights × List ℕ} weighed (λ v. ok (v, keep_slots (sub_ℕ 5 n) v found)))
        else ok (w, found))
      ≡ ok (w', rs)
    → Kept n found rs
unfolding is_empty_list Kept
chosen true [] n weighed w w' rs t h =
    subst (Kept n []) (second_same h) (λ small. omega (arith, small), λ many. refl)
chosen true (r ∷ found) n (ok v) w w' rs t h =
    subst (Kept n (r ∷ found)) (second_same h) (sub_ℕ-five n v (r ∷ found))
chosen true (r ∷ found) n (err e) w w' rs t h = absurd (cc)
chosen false found n weighed w w' rs t h = absurd (cc)

module _ (p : Packager) (l : JobList) where
  jobs_to_build-Kept :
      (w w' : Weights) (rs : List ℕ)
      → p.hold ≡ true
      → jobs_to_build p l w ≡ ok (w', rs)
      → Kept (held_ids p l) (find_ready p l) rs
  unfolding jobs_to_build remaining_held_slots
  jobs_to_build-Kept w w' rs holding h =
      chosen p.hold (find_ready p l) (held_ids p l) (compute_weight l (find_ready p l) w) w w' rs
        holding h

  -- On hold, when `check_if_packages_are_ready_to_build` returns jobs and at most five ids are held or
  -- submitted, these ids and the jobs are at most five together; with more than five ids, the jobs
  -- are all the ready ones.
  pub check_if_packages_are_ready_to_build-slots :
      (w w' : Weights) (rs : List ℕ) (b : Bool)
      → p.hold ≡ true
      → check_if_packages_are_ready_to_build p l w ≡ ok (w', rs, b)
      → (held_ids p l ≤ 5 → length rs + held_ids p l ≤ 5) × (5 < held_ids p l → rs ≡ find_ready p l)
  unfolding check_if_packages_are_ready_to_build Kept
  check_if_packages_are_ready_to_build-slots w w' rs b holding h = go (jobs_to_build p l w) refl h
    where
      go :
          (found : Result (Weights × List ℕ))
          → jobs_to_build p l w ≡ found
          → ◌>>=◌ {T = Weights × List ℕ × Bool} found (λ (v, xs).
            ok
              (v, xs, not (is_empty_list xs) && has_space (calculate_job_limits p.platform none l)))
            ≡ ok (w', rs, b)
          → Kept (held_ids p l) (find_ready p l) rs
      go (ok (v, xs)) e h =
          subst (Kept (held_ids p l) (find_ready p l)) (same h)
            (jobs_to_build-Kept w v xs holding e)
        where
          same :
              {c : Bool}
              → ◌≡◌ {A = Result (Weights × List ℕ × Bool)} (ok (v, xs, c)) (ok (w', rs, b))
              → xs ≡ rs
          same e = cc
      go (err x) e h = absurd (cc)
