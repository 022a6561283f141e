-- ===== src/Job/Update/Children.antt =====
-- What `update_children_status` leaves.
use autosubmit.Prelude.{
  In-append_left, In-append_right, In-append, ℕ, zero, suc, ◌+◌, ◌≤◌, ◌≡◌, ◌≢◌, refl, sym, ap, ◌∙◌,
  subst, ◌⊎◌, inl, inr, Bool, true, false, List, [], ◌∷◌, ◌++◌, nat_eq, if◌then◌else◌, Bool-cases,
  length, In, arith,
}
use autosubmit.Job.Status.{failed, status_eq}
use autosubmit.Job.Record.{Job, Store}
use autosubmit.Job.Update.{assign_status, is_active, fail_active, update_children_status}
use autosubmit.JobList.State.{put}

-- A job is what it was, or it was active and is FAILED.
abbrev pub Failed : Job → Job → Type 0
Failed j k = (k ≡ j) ⊎ ((is_active j ≡ true) × (k ≡ assign_status failed j))

failed_inactive : (j : Job) → is_active (assign_status failed j) ≡ false
unfolding is_active nat_eq status_eq
failed_inactive j = ground arith

put_cases :
    (x q : ℕ) (s : Store)
    → ((q ≡ x) × (put x (assign_status failed) s q ≡ assign_status failed (s q)))
      ⊎ ((q ≢ x) × (put x (assign_status failed) s q ≡ s q))
unfolding put
put_cases x q s = ground arith

-- What happens after the first job has been set to FAILED.
failed_first :
    (x q : ℕ) (s : Store) (k : Job)
    → is_active (s x) ≡ true
    → Failed (put x (assign_status failed) s q) k
    → Failed (s q) k
failed_first x q s k active h = elim (put_cases x q s) [
  | inr (differ, e) ↦ subst (λ j. Failed j k) e h
  | inl (same, e) ↦ elim (subst (λ j. Failed j k) e h) [
    | inl k_is ↦ inr (subst (λ y. is_active (s y) ≡ true) (sym same) active, k_is)
    | inr (twice, k_is) ↦ absurd (clash twice (failed_inactive (s q)))
  ]
]
  where
    clash : {b : Bool} → b ≡ true → b ≡ false → ⊥
    clash t f = cc

pub fail_active-Failed :
    (fuel : ℕ) (xs : List ℕ) (s : Store) (q : ℕ) → Failed (s q) ((fail_active fuel xs s).1 q)
unfolding fail_active
fail_active-Failed zero xs s q = inl refl
fail_active-Failed (suc fuel) [] s q = inl refl
fail_active-Failed (suc fuel) (x ∷ xs) s q = elim (Bool-cases (is_active (s x))) [
  | inr idle ↦ rw (idle, fail_active) (fail_active-Failed fuel xs s q)
  | inl active ↦
      rw (active, fail_active)
        (failed_first x q s _ active
          (fail_active-Failed fuel (xs ++ (s x).children) (put x (assign_status failed) s) q))
]

-- A job that is not active is left alone.
Failed-idle : (j k : Job) → is_active j ≡ false → Failed j k → k ≡ j
Failed-idle j k idle h = elim h [ inl e ↦ e | inr (active, e) ↦ absurd (cc) ]

-- The children of the jobs that are set to FAILED.
unfoldable pub weight : List ℕ → Store → ℕ
unfolding is_active
weight [] s = 0
weight (r ∷ rs) s = (if is_active (s r) then length (s r).children else 0) + weight rs s

weight-put_le :
    (x : ℕ) (rs : List ℕ) (s : Store) → weight rs (put x (assign_status failed) s) ≤ weight rs s
unfolding weight
weight-put_le x [] s = omega arith
weight-put_le x (r ∷ rs) s = elim (put_cases x r s) [
  | inl (same, e) ↦ rw e (ground (arith, failed_inactive (s r), weight-put_le x rs s))
  | inr (differ, e) ↦ rw e (ground (arith, weight-put_le x rs s))
]

weight-put :
    (x : ℕ) (rs : List ℕ) (s : Store)
    → In x rs
    → is_active (s x) ≡ true
    → weight rs (put x (assign_status failed) s) + length (s x).children ≤ weight rs s
unfolding weight
weight-put x [] s m active = elim m [ ]
weight-put x (r ∷ rs) s m active = elim (put_cases x r s) [
  | inl (same, e) ↦
      let a : is_active (s r) ≡ true = subst (λ y. is_active (s y) ≡ true) (sym same) active in
      let c : length (s x).children ≡ length (s r).children =
        ap (λ y. length (s y).children) (sym same) in
      rw (e, failed_inactive (s r), a, c) (omega (arith, weight-put_le x rs s))
  | inr (differ, e) ↦ elim m [
    | inl same ↦ absurd (differ (sym same))
    | inr k ↦ rw e (omega (arith, weight-put x rs s k active))
  ]
]

-- The job list has the children of its jobs.
abbrev pub IsClosed : List ℕ → Store → Type 0
IsClosed rs s = (r : ℕ) → In r rs → (q : ℕ) → In q (s r).children → In q rs

put-children : (x r : ℕ) (s : Store) → (put x (assign_status failed) s r).children ≡ (s r).children
unfolding put
put-children x r s = ground arith

put-IsClosed :
    (x : ℕ) (rs : List ℕ) (s : Store) → IsClosed rs s → IsClosed rs (put x (assign_status failed) s)
put-IsClosed x rs s h r m q k = h r m q (subst (In q) (put-children x r s) k)

length-append : (xs ys : List ℕ) → length (xs ++ ys) ≡ length xs + length ys
length-append [] ys = omega arith
length-append (x ∷ xs) ys = omega (arith, length-append xs ys)

-- Nothing is left over, and no active job is left below a job that was set to FAILED.
abbrev pub IsSpread : List ℕ → Store → List ℕ × Store → Type 0
IsSpread xs s (rest, t) =
    (rest ≡ [])
    × ((x : ℕ) → In x xs → is_active (t x) ≡ false)
    × ((r : ℕ)
        → is_active (s r) ≡ true
        → is_active (t r) ≡ false
        → (q : ℕ) → In q (s r).children
        → is_active (t q) ≡ false)

IsSpread-end : (s : Store) → IsSpread [] s ([], s)
IsSpread-end s = (refl, (λ x m. elim m [ ]), λ r a b q m. absurd (clash a b))
  where
    clash : {b : Bool} → b ≡ true → b ≡ false → ⊥
    clash t f = cc

module _ (x : ℕ) (xs rest : List ℕ) (s t : Store) where
  IsSpread-skip :
      is_active (s x) ≡ false
      → Failed (s x) (t x)
      → IsSpread xs s (rest, t)
      → IsSpread (x ∷ xs) s (rest, t)
  IsSpread-skip idle frame (empty, quiet, below) = (empty, quiet_too, below)
    where
      quiet_too : (y : ℕ) → In y (x ∷ xs) → is_active (t y) ≡ false
      quiet_too y m = elim m [
        | inl e ↦
            subst (λ z. is_active (t z) ≡ false) (sym e)
              (ap is_active (Failed-idle (s x) (t x) idle frame) ∙ idle)
        | inr k ↦ quiet y k
      ]

  IsSpread-first :
      Failed (put x (assign_status failed) s x) (t x)
      → IsSpread (xs ++ (s x).children) (put x (assign_status failed) s) (rest, t)
      → IsSpread (x ∷ xs) s (rest, t)
  IsSpread-first frame (empty, quiet, below) = (empty, quiet_too, below_too)
    where
      x_quiet : is_active (t x) ≡ false
      x_quiet = elim (put_cases x x s) [
        | inl (same, e) ↦
            let idle : is_active (put x (assign_status failed) s x) ≡ false =
              ap is_active e ∙ failed_inactive (s x) in
            ap is_active (Failed-idle _ (t x) idle frame) ∙ idle
        | inr (differ, e) ↦ absurd (differ refl)
      ]

      quiet_too : (y : ℕ) → In y (x ∷ xs) → is_active (t y) ≡ false
      quiet_too y m = elim m [
        | inl e ↦ subst (λ z. is_active (t z) ≡ false) (sym e) x_quiet
        | inr k ↦ quiet y (In-append_left y xs (s x).children k)
      ]

      below_too :
          (r : ℕ)
          → is_active (s r) ≡ true
          → is_active (t r) ≡ false
          → (q : ℕ) → In q (s r).children
          → is_active (t q) ≡ false
      below_too r a b q m = elim (put_cases x r s) [
        | inl (same, e) ↦
            quiet q (In-append_right q xs (s x).children (subst (λ y. In q (s y).children) same m))
        | inr (differ, e) ↦
            below r (ap is_active e ∙ a) b q (subst (In q) (sym (put-children x r s)) m)
      ]

pub fail_active-IsSpread :
    (fuel : ℕ) (xs order : List ℕ) (s : Store)
    → IsClosed order s
    → ((x : ℕ) → In x xs → In x order)
    → length xs + weight order s ≤ fuel
    → IsSpread xs s (fail_active fuel xs s)
unfolding fail_active
fail_active-IsSpread zero [] order s closed within enough = IsSpread-end s
fail_active-IsSpread zero (x ∷ xs) order s closed within enough = absurd (omega arith)
fail_active-IsSpread (suc fuel) [] order s closed within enough = IsSpread-end s
fail_active-IsSpread (suc fuel) (x ∷ xs) order s closed within enough =
    elim (Bool-cases (is_active (s x))) [
      | inr idle ↦
          rw (idle, fail_active)
            (IsSpread-skip x xs _ s (fail_active fuel xs s).1 idle (fail_active-Failed fuel xs s x)
              (fail_active-IsSpread fuel xs order s closed (λ y m. within y (inr m)) (omega arith)))
      | inl active ↦
          rw (active, fail_active)
            (IsSpread-first x xs _ s (fail_active fuel (xs ++ (s x).children) failed_x).1
              (fail_active-Failed fuel (xs ++ (s x).children) failed_x x)
              (fail_active-IsSpread fuel (xs ++ (s x).children) order failed_x
                (put-IsClosed x order s closed) children_within
                (omega (
                  arith,
                  length-append xs (s x).children,
                  weight-put x order s (within x (inl refl)) active,
                ))))
    ]
  where
    failed_x : Store
    failed_x = put x (assign_status failed) s

    children_within : (y : ℕ) → In y (xs ++ (s x).children) → In y order
    children_within y m = elim (In-append y xs (s x).children m) [
      | inl k ↦ within y (inr k)
      | inr k ↦ closed x (within x (inl refl)) y k
    ]

-- On a job list that has the children of its jobs, `update_children_status` visits its whole list as
-- soon as the fuel covers the children of the job and those of the active jobs of the list. Then no
-- child of the job is active, nor is any child of a job that it set to FAILED, where active means of
-- level 0 and SUBMITTED, RUNNING, QUEUING or UNKNOWN. A job whose status it changed was active, has
-- now FAILED and is otherwise the same.
pub update_children_status-IsSpread :
    (fuel r : ℕ) (order : List ℕ) (s : Store)
    → IsClosed order s
    → In r order
    → length (s r).children + weight order s ≤ fuel
    → IsSpread
        (s r).children
        s
        ((fail_active fuel (s r).children s).0, update_children_status fuel r s)
      × ((q : ℕ) → Failed (s q) (update_children_status fuel r s q))
unfolding update_children_status
update_children_status-IsSpread fuel r order s closed m enough =
    let (empty, quiet, below) =
      fail_active-IsSpread fuel (s r).children order s closed (closed r m) enough in
    ((empty, quiet, below), fail_active-Failed fuel (s r).children s)
