-- ===== src/Packager/Divide/Partition.antt =====
-- The division loses no job and holds none twice.
use autosubmit.Prelude.{
  ℕ, ◌+◌, ◌≡◌, refl, ◌∙◌, String, Bool, true, not, List, [], ◌∷◌, ◌==◌, nat_eq, string_eq, contains,
  filter, filter-All, All, All-map, if◌then◌else◌, Bool-cases, inl, inr, ◌⊎◌, arith, In,
}
use autosubmit.Job.Record.{Store}
use autosubmit.Packager.Divide.{
  Division, is_wrapped_in, take_sections, has_jobs, divide_list_by_section,
}

-- How often a job is in a list, and in a division.
abbrev pub count : ℕ → List ℕ → ℕ
count q [] = 0
count q (r ∷ rs) = (if r == q then 1 else 0) + count q rs

abbrev pub count_in : ℕ → Division → ℕ
count_in q [] = 0
count_in q ((name, rs) ∷ d) = count q rs + count_in q d

count-filter :
    (p : ℕ → Bool) (q : ℕ) (rs : List ℕ)
    → count q (filter p rs) + count q (filter (λ r. not (p r)) rs) ≡ count q rs
count-filter p q [] = omega arith
count-filter p q (r ∷ rs) = elim (Bool-cases (p r)) [
  | inl t ↦ rw t (omega (arith, count-filter p q rs))
  | inr f ↦ rw f (omega (arith, count-filter p q rs))
]

count_in-has_jobs : (q : ℕ) (d : Division) → count_in q (filter has_jobs d) ≡ count_in q d
count_in-has_jobs q [] = refl
count_in-has_jobs q ((name, []) ∷ d) = omega (arith, count_in-has_jobs q d)
count_in-has_jobs q ((name, r ∷ rs) ∷ d) = omega (arith, count_in-has_jobs q d)

All-filter :
    {A : Type 0} (P : A → Type 0) (p : A → Bool) (xs : List A) → All P xs → All P (filter p xs)
All-filter P p [] h = tt
All-filter P p (x ∷ xs) h = elim (Bool-cases (p x)) [
  | inl t ↦ rw t (h.0, All-filter P p xs h.1)
  | inr f ↦ rw f (All-filter P p xs h.1)
]

module _ (upper : String → String) (store : Store) where
  count_in-take_sections :
      (q : ℕ) (ws : List (String × List String)) (jobs : List ℕ)
      → count_in q (take_sections upper store ws jobs) ≡ count q jobs
  unfolding take_sections
  count_in-take_sections q [] jobs = omega arith
  count_in-take_sections q ((w, sections) ∷ ws) jobs = omega (
    arith,
    count-filter (is_wrapped_in upper store sections) q jobs,
    count_in-take_sections q ws (filter (λ r. not (is_wrapped_in upper store sections r)) jobs),
  )

  -- Each list of the division has jobs, and belongs to a wrapper whose sections hold the section of
  -- each of its jobs in capitals, or to `SIMPLE`.
  abbrev pub IsSorted : List (String × List String) → String × List ℕ → Type 0
  IsSorted ws (name, rs) =
      (name ≡ "SIMPLE")
      ⊎ ((sections : List String) × In (name, sections) ws
          × All (λ r. contains sections (upper (store r).section) ≡ true) rs)

  more_wrappers :
      (w : String × List String) (ws : List (String × List String)) (x : String × List ℕ)
      → IsSorted ws x
      → IsSorted (w ∷ ws) x
  more_wrappers w ws (name, rs) h = elim h [
    | inl simple ↦ inl simple
    | inr (sections, m, fits) ↦ inr (sections, inr m, fits)
  ]

  take_sections-IsSorted :
      (ws : List (String × List String)) (jobs : List ℕ)
      → All (IsSorted ws) (take_sections upper store ws jobs)
  unfolding take_sections is_wrapped_in
  take_sections-IsSorted [] jobs = (inl refl, tt)
  take_sections-IsSorted ((w, sections) ∷ ws) jobs = (
    inr (sections, inl refl, filter-All (is_wrapped_in upper store sections) jobs),
    All-map (more_wrappers (w, sections) ws) _
        (take_sections-IsSorted ws (filter (λ r. not (is_wrapped_in upper store sections r)) jobs)),
  )

  -- The division of a list of jobs holds each job as often as the list does. Each of its entries has
  -- jobs, and is that of `SIMPLE` or of a wrapper among whose sections is that of each of its jobs, in
  -- capitals.
  pub divide_list_by_section-IsSorted :
      (ws : List (String × List String)) (jobs : List ℕ)
      → ((q : ℕ) → count_in q (divide_list_by_section upper store ws jobs) ≡ count q jobs)
        × All
            (λ (x : String × List ℕ). has_jobs x ≡ true)
            (divide_list_by_section upper store ws jobs)
        × All (IsSorted ws) (divide_list_by_section upper store ws jobs)
  unfolding divide_list_by_section
  divide_list_by_section-IsSorted ws jobs = (
    (λ q.
        count_in-has_jobs q (take_sections upper store ws jobs) ∙ count_in-take_sections q ws jobs),
    filter-All has_jobs (take_sections upper store ws jobs),
    All-filter (IsSorted ws) has_jobs (take_sections upper store ws jobs)
        (take_sections-IsSorted ws jobs),
  )
