-- ===== src/Packager/Vertical/Chain.antt =====
-- The package that `build_vertical_package` returns: its size, and how its jobs hang together.
use autosubmit.Prelude.{
  append_nil, append_assoc, ℕ, zero, suc, ◌+◌, ◌-◌, ◌≤◌, ◌<◌, ◌≡◌, refl, sym, ap, ◌∙◌, subst, ◌⊎◌,
  inl, inr, Bool, true, false, not, ◌&&◌, ◌||◌, Option, some, List, [], ◌∷◌, ◌++◌, length,
  length-append_one, ◌==◌, ==-eq, max, nat_eq, string_eq, contains, leb, Bool-cases, Option-cases,
  all, In, Result, ok, get_key, arith,
}
use autosubmit.Job.Status.{waiting, ready, prepared, delayed, completed, status_eq}
use autosubmit.Packager.Vertical.{
  VerticalInput, Vertical, drop, is_wrappable, first_wrappable, get_wrappable_child, is_full,
  take_child, append_child, has_time, wrap_child, build_from, build_vertical_package,
}

pair_eq : (a b c d : ℕ) → ◌≡◌ {A = Option (ℕ × ℕ)} (some (a, c)) (some (b, d)) → (a ≡ b) × (c ≡ d)
pair_eq a b c d h = (cc, cc)

and_right : (a b : Bool) → (a && b) ≡ true → b ≡ true
and_right a b h = ground arith

length-drop : (n : ℕ) (xs : List ℕ) → length (drop n xs) ≡ length xs - n
length-drop zero xs = omega arith
length-drop (suc n) [] = omega arith
length-drop (suc n) (x ∷ xs) = omega (arith, length-drop n xs)

module _ (i : VerticalInput) where
  -- A job that may follow the jobs before it: not packed yet, in a status to be submitted later, and
  -- with no parent that is neither COMPLETED nor among the jobs before.
  abbrev pub Follows : List ℕ → List ℕ → ℕ → Type 0
  Follows packed before r =
      (contains packed r ≡ false)
      × (contains (waiting ∷ ready ∷ prepared ∷ delayed ∷ []) (i.store r).status ≡ true)
      × ((q : ℕ)
          → In q (i.store r).parents
          → (contains before q ≡ true) ⊎ ((i.store q).status ≡ completed))

  -- Each job follows those before it, and is packed once it is there.
  abbrev pub IsChain : List ℕ → List ℕ → List ℕ → Type 0
  IsChain packed before [] = Unit
  IsChain packed before (r ∷ rs) =
      Follows packed before r × IsChain (r ∷ packed) (before ++ (r ∷ [])) rs

  parents_lem :
      (before ps : List ℕ)
      → all (λ q. contains before q || (i.store q).status == completed) ps ≡ true
      → (q : ℕ) → In q ps
      → (contains before q ≡ true) ⊎ ((i.store q).status ≡ completed)
  unfolding status_eq
  parents_lem before [] h q m = elim m [ ]
  parents_lem before (p ∷ ps) h q m = elim m [
    | inl e ↦
        subst (λ x. (contains before x ≡ true) ⊎ ((i.store x).status ≡ completed)) (sym e) first
    | inr k ↦ parents_lem before ps (ground arith) q k
  ]
    where
      first : (contains before p ≡ true) ⊎ ((i.store p).status ≡ completed)
      first = elim (Bool-cases (contains before p)) [
        | inl t ↦ inl t
        | inr f ↦ inr (==-eq (i.store p).status completed (ground arith))
      ]

  is_wrappable-Follows :
      (s : Vertical) (r : ℕ)
      → is_wrappable i s r ≡ true
      → Follows s.packed_during_building s.jobs_list r
  unfolding is_wrappable
  is_wrappable-Follows s r h =
      (ground arith, ground arith, parents_lem s.jobs_list (i.store r).parents (ground arith))

  -- The child is wrappable, and the index has moved behind it within the sorted jobs.
  first_wrappable_lem :
      (s : Vertical) (job index : ℕ) (rs : List ℕ) (child next : ℕ)
      → first_wrappable i s job index rs ≡ some (child, next)
      → (is_wrappable i s child ≡ true) × (index < next) × (next ≤ index + length rs)
  unfolding first_wrappable
  first_wrappable_lem s job index [] child next h = absurd (cc)
  first_wrappable_lem s job index (r ∷ rs) child next h =
      elim (Bool-cases (not ((i.store r).name == (i.store job).name) && is_wrappable i s r)) [
        | inl t ↦
            let (same, last) = pair_eq r child (index + 1) next (rw (t, first_wrappable) at h) in
            (
              subst (λ c. is_wrappable i s c ≡ true) same (and_right _ _ t),
              omega arith,
              omega arith,
            )
        | inr f ↦
            let (a, b, c) =
              first_wrappable_lem s job (index + 1) rs child next (rw (f, first_wrappable) at h) in
            (a, omega arith, omega arith)
      ]

  get_wrappable_child_lem :
      (s : Vertical) (job child next : ℕ)
      → get_wrappable_child i s job ≡ some (child, next)
      → Follows s.packed_during_building s.jobs_list child
        × (length i.sorted_jobs - next < length i.sorted_jobs - s.index)
  unfolding get_wrappable_child
  get_wrappable_child_lem s job child next h =
      let (a, b, c) = first_wrappable_lem s job s.index (drop s.index i.sorted_jobs) child next h in
      (is_wrappable-Follows s child a, omega (arith, length-drop s.index i.sorted_jobs))

  -- What a run from a state returns.
  abbrev pub Builds : Vertical → Result (Bool × Vertical) → Type 0
  Builds s m =
      (v : Vertical) × (added : List ℕ) × (m ≡ ok (true, v))
      × (v.jobs_list ≡ s.jobs_list ++ added)
      × IsChain s.packed_during_building s.jobs_list added
      × (length v.jobs_list ≤ max (length s.jobs_list) i.max_v)
      × (length v.jobs_list ≤ max (length s.jobs_list) i.max_jobs)

  Builds-nothing : (s v : Vertical) → v.jobs_list ≡ s.jobs_list → Builds s (ok (true, v))
  Builds-nothing s v h = (
    v,
    [],
    refl,
    h ∙ sym (append_nil s.jobs_list),
    tt,
    omega (arith, ap length h),
    omega (arith, ap length h),
  )

  -- The state after the child was appended.
  grown : ℕ → ℕ → ℕ → Vertical → Vertical
  unfolding append_child take_child
  grown child next level s = append_child i child level (take_child i child next s)

  grown_index : (child next level : ℕ) (s : Vertical) → (grown child next level s).index ≡ next
  unfolding grown append_child take_child
  grown_index child next level s = refl

  grown-Builds :
      (child next level : ℕ) (s : Vertical) (m : Result (Bool × Vertical))
      → Follows s.packed_during_building s.jobs_list child
      → length s.jobs_list < i.max_v
      → length s.jobs_list < i.max_jobs
      → Builds (grown child next level s) m
      → Builds s m
  unfolding grown append_child take_child
  grown-Builds child next level s m follows v_free max_free (v, added, e, list, chain, a, b) = (
    v,
    child ∷ added,
    e,
    list ∙ append_assoc s.jobs_list (child ∷ []) added,
    (follows, chain),
    omega (arith, length-append_one s.jobs_list child),
    omega (arith, length-append_one s.jobs_list child),
  )

  wrap_child-Builds :
      (go : ℕ → ℕ → Vertical → Result (Bool × Vertical)) (job level : ℕ) (s : Vertical)
      → length s.jobs_list < i.max_v
      → length s.jobs_list < i.max_jobs
      → ((child next : ℕ)
          → get_wrappable_child i s job ≡ some (child, next)
          → Builds (grown child next level s) (go child (level + 1) (grown child next level s)))
      → Builds s (wrap_child i go job level s)
  unfolding wrap_child grown append_child take_child
  wrap_child-Builds go job level s v_free max_free goes =
      elim (Option-cases (get_wrappable_child i s job)) [
        | inl e ↦ rw (e, wrap_child) (Builds-nothing s s refl)
        | inr ((child, next), e) ↦ elim (Bool-cases (has_time i (take_child i child next s))) [
          | inr late ↦ rw (e, late, wrap_child) (Builds-nothing s (take_child i child next s) refl)
          | inl in_time ↦
              rw (e, in_time, wrap_child)
                (grown-Builds child next level s _ (get_wrappable_child_lem s job child next e).0
                  v_free max_free (goes child next e))
        ]
      ]

  module _
      (limits : (r : ℕ) → (m : ℕ) × (get_key (i.store r).section i.max_by_section ≡ some m)) where
    is_full_lem :
        (s : Vertical) (job : ℕ)
        → (is_full i s job ≡ ok true)
          ⊎ ((is_full i s job ≡ ok false)
              × (length s.jobs_list < i.max_v)
              × (length s.jobs_list < i.max_jobs))
    unfolding is_full
    is_full_lem s job = elim (Bool-cases (leb i.max_v (length s.jobs_list))) [
      | inl t ↦ inl (rw (t, is_full) refl)
      | inr f ↦
          let (m, e) = limits job in
          elim (Bool-cases (leb m (length s.jobs_list) || leb i.max_jobs (length s.jobs_list))) [
            | inl t ↦ inl (rw (f, e, t, is_full) refl)
            | inr g ↦ inr (rw (f, e, g, is_full) refl, ground arith, ground arith)
          ]
    ]

    build_from-Builds :
        (fuel job level : ℕ) (s : Vertical)
        → length i.sorted_jobs - s.index < fuel
        → Builds s (build_from i fuel job level s)
    unfolding build_from
    build_from-Builds zero job level s h = absurd (omega arith)
    build_from-Builds (suc fuel) job level s h = elim (is_full_lem s job) [
      | inl full ↦ rw (full, build_from) (Builds-nothing s s refl)
      | inr (free, v, m) ↦
          rw (free, build_from)
            (wrap_child-Builds (build_from i fuel) job level s v m (λ child next e.
              build_from-Builds fuel child (level + 1) (grown child next level s)
                (shorter child next e)))
    ]
      where
        shorter :
            (child next : ℕ)
            → get_wrappable_child i s job ≡ some (child, next)
            → length i.sorted_jobs - (grown child next level s).index < fuel
        shorter child next e =
            omega (
              arith,
              (get_wrappable_child_lem s job child next e).1,
              grown_index child next level s,
            )

    -- Where each section has a limit, the search for a vertical package ends with an empty stack. The
    -- package is the first job and the jobs added after it: each was not packed by then, is WAITING,
    -- READY, PREPARED or DELAYED, and has only parents that are COMPLETED or stand before it in the
    -- package. The package has at most as many jobs as the limit of vertical packages and that of all
    -- packages allow, and one job if they allow none.
    pub build_vertical_package-IsChain :
        (packed : List ℕ) (job : ℕ)
        → (v : Vertical) × (added : List ℕ) × (build_vertical_package i packed job ≡ ok (true, v))
          × (v.jobs_list ≡ job ∷ added)
          × IsChain packed (job ∷ []) added
          × (length v.jobs_list ≤ max 1 i.max_v)
          × (length v.jobs_list ≤ max 1 i.max_jobs)
    unfolding build_vertical_package
    build_vertical_package-IsChain packed job = build_from-Builds _ job 1 _ (omega arith)
