-- ===== src/Packager/Horizontal/Room.antt =====
-- The room that a horizontal package takes.
use autosubmit.Prelude.{
  All, set_key, ◌==◌, ℕ, ◌+◌, ◌≤◌, ◌<◌, ◌≡◌, refl, inl, inr, String, Bool, true, false, ◌&&◌, some,
  List, [], ◌∷◌, ◌++◌, length, length-append_one, nat_eq, string_eq, ltb, leb→le, Bool-cases,
  Result, ok, Map, get_key, arith,
}
use autosubmit.Packager.Horizontal.{
  HorizontalInput, Horizontal, or_zero, jobs_by_section, needed, enough_processors, has_room,
  put_job, consider, visit_section, visit_sections, build_horizontal_package,
}

module _ (i : HorizontalInput) where
  -- The processors of a list of jobs.
  abbrev pub needs : List ℕ → ℕ
  needs [] = 0
  needs (r ∷ rs) = needed i r + needs rs

  needs-append_one : (rs : List ℕ) (r : ℕ) → needs (rs ++ (r ∷ [])) ≡ needs rs + needed i r
  needs-append_one [] r = omega arith
  needs-append_one (x ∷ rs) r = omega (arith, needs-append_one rs r)

  -- The package keeps within the limits, and the processors in use are those of its jobs and of what
  -- ran before.
  pub record Fits (before : ℕ) (s : Horizontal) : Type 0 where
    pub in_h : length s.current_package ≤ i.max_h
    pub in_max : length s.current_package ≤ i.max_jobs
    pub counted : s.current_processors ≡ before + needs s.current_package
    pub in_processors : (p : ℕ) → i.max_processors ≡ some p → before ≤ p → s.current_processors ≤ p

  consider-Fits :
      (before : ℕ) (section : String) (r : ℕ) (s : Horizontal)
      → length s.current_package < i.max_h
      → length s.current_package < i.max_jobs
      → Fits before s
      → Fits before (consider i section r s)
  unfolding consider put_job enough_processors
  consider-Fits before section r s h m fits =
      elim (Bool-cases (enough_processors i (s.current_processors + needed i r))) [
        | inr over ↦ rw (over, consider) fits
        | inl enough ↦ rw (enough, consider) (put enough)
      ]
    where
      put :
          enough_processors i (s.current_processors + needed i r) ≡ true
          → Fits before (put_job i section r s)
      put enough = record {
        in_h = omega (arith, length-append_one s.current_package r);
        in_max = omega (arith, length-append_one s.current_package r);
        counted = omega (arith, fits.counted, needs-append_one s.current_package r);
        in_processors = λ p e le.
            leb→le (s.current_processors + needed i r) p ((rw (e, enough_processors) at enough));
      }

  -- A section for which there is a limit.
  abbrev pub IsKnown : String → Type 0
  IsKnown section = (m : ℕ) × (get_key section i.max_by_section ≡ some m)

  -- The call returns a state that fits.
  abbrev pub ReturnsFit : ℕ → Result Horizontal → Type 0
  ReturnsFit before m = (v : Horizontal) × (m ≡ ok v) × Fits before v

  visit_section-Fits :
      (before : ℕ) (section : String)
      → IsKnown section
      → (rs : List ℕ) (s : Horizontal) → Fits before s
      → ReturnsFit before (visit_section i section rs s)
  unfolding visit_section
  visit_section-Fits before section known [] s fits = (s, refl, fits)
  visit_section-Fits before section known (r ∷ rs) s fits =
      elim (Bool-cases
        (ltb (length s.current_package) i.max_h && ltb (length s.current_package) i.max_jobs)) [
          | inr full ↦ (s, rw (room_none full, visit_section) refl, fits)
          | inl free ↦ elim (Bool-cases (section_free)) [
            | inr full ↦ (s, rw (room_some free, full, visit_section) refl, fits)
            | inl more ↦
                rw (room_some free, more, visit_section)
                  (visit_section-Fits before section known rs (consider i section r s)
                    (consider-Fits before section r s (ground arith) (ground arith) fits))
          ]
        ]
    where
      section_free : Bool
      section_free = ltb (or_zero (get_key section s.by_section)) known.0

      room_none :
          (ltb (length s.current_package) i.max_h && ltb (length s.current_package) i.max_jobs)
            ≡ false
          → has_room i section s ≡ ok false
      room_none full = rw (full, has_room) refl

      room_some :
          (ltb (length s.current_package) i.max_h && ltb (length s.current_package) i.max_jobs)
            ≡ true
          → has_room i section s ≡ ok section_free
      room_some free = rw (free, known.1, has_room) refl

  All-set_key :
      (k : String) (v : List ℕ) (m : Map String (List ℕ))
      → IsKnown k
      → All (λ (x : String × List ℕ). IsKnown x.0) m
      → All (λ (x : String × List ℕ). IsKnown x.0) (set_key k v m)
  unfolding set_key
  All-set_key k v [] known h = (known, tt)
  All-set_key k v ((j, w) ∷ m) known h = elim (Bool-cases (k == j)) [
    | inl t ↦ rw t h
    | inr f ↦ rw f (h.0, All-set_key k v m known h.1)
  ]

  module _ (limits : (r : ℕ) → IsKnown (i.store r).section) where
    jobs_by_section-IsKnown :
        (rs : List ℕ) (m : Map String (List ℕ))
        → All (λ (x : String × List ℕ). IsKnown x.0) m
        → All (λ (x : String × List ℕ). IsKnown x.0) (jobs_by_section i rs m)
    unfolding jobs_by_section
    jobs_by_section-IsKnown [] m h = h
    jobs_by_section-IsKnown (r ∷ rs) m h =
        jobs_by_section-IsKnown rs _ (All-set_key (i.store r).section _ m (limits r) h)

    visit_sections-Fits :
        (before : ℕ) (m : Map String (List ℕ)) (s : Horizontal)
        → All (λ (x : String × List ℕ). IsKnown x.0) m
        → Fits before s
        → ReturnsFit before (visit_sections i m s)
    unfolding visit_sections
    visit_sections-Fits before [] s h fits = (s, refl, fits)
    visit_sections-Fits before ((section, rs) ∷ m) s h fits =
        let (v, e, fit) =
          visit_section-Fits before section h.0 rs
            (record s { by_section = set_key section 0 s.by_section })
            (record {
              in_h = fits.in_h;
              in_max = fits.in_max;
              counted = fits.counted;
              in_processors = fits.in_processors;
            }) in
        let (u, f, last) = visit_sections-Fits before m v h.1 fit in (u, rw e f, last)

    -- Where each section has a limit, `build_horizontal_package` returns. The package has at most as
    -- many jobs as the limit of horizontal packages and that of all packages allow; the processors in
    -- use are those that were in use before and those that its jobs need, and they are no more than
    -- the maximum, where there is one and it was kept before.
    pub build_horizontal_package-Fits :
        (job_list : List ℕ) (before : ℕ) (packed : List ℕ)
        → ReturnsFit before (build_horizontal_package i job_list before packed)
    unfolding build_horizontal_package
    build_horizontal_package-Fits job_list before packed =
        visit_sections-Fits before (jobs_by_section i job_list []) _
          (jobs_by_section-IsKnown job_list [] tt)
          (record {
            in_h = omega arith;
            in_max = omega arith;
            counted = omega arith;
            in_processors = λ p e le. le;
          })
