-- ===== src/Tests/Vertical.antt =====
-- The theorems on packages in one direction, on the division of jobs and on ancestors at work.
use autosubmit.Prelude.{
  In, ◌<◌, ◌↔◌, inl, inr, arith, All, ℕ, String, zero, suc, ◌≤◌, ◌≡◌, refl, true, some, [], ◌∷◌,
  length, max, nat_eq, string_eq, ok, List, get_key, if◌then◌else◌, ◌==◌,
}
use autosubmit.Job.Status.{waiting, ready, status_eq}
use autosubmit.Job.Record.{Store}
use autosubmit.Packager.Vertical.{VerticalInput, Vertical, is_wrappable, build_vertical_package}
use autosubmit.Packager.Vertical.Chain.{IsChain, build_vertical_package-IsChain}
use autosubmit.Packager.Horizontal.{HorizontalInput, build_horizontal_package}
use autosubmit.Packager.Horizontal.Room.{IsKnown, ReturnsFit, build_horizontal_package-Fits}
use autosubmit.Packager.Divide.{has_jobs, divide_list_by_section}
use autosubmit.Packager.Divide.Partition.{
  count, count_in, IsSorted, divide_list_by_section-IsSorted,
}
use autosubmit.Job.Ancestors.{is_ancestor}
use autosubmit.Job.Ancestors.Paths.{Above, is_ancestor_iff}
use autosubmit.Tests.Samples.{make_job}

-- Three chunks, each the parent of the next.
abbrev chunks : Store
chunks zero = make_job "a000_1_SIM" ready [] 0
chunks (suc zero) = make_job "a000_2_SIM" waiting (0 ∷ []) 0
chunks (suc (suc n)) = make_job "a000_3_SIM" waiting (1 ∷ []) 0

abbrev limits : VerticalInput
limits = record {
  store = chunks;
  sorted_jobs = 0 ∷ 1 ∷ 2 ∷ [];
  max_v = 2;
  max_jobs = 5;
  max_by_section = ("SIM", 4) ∷ [];
  max_wallclock = [];
  wallclock = λ r. [];
  sum_str_hours = λ a b. a;
}

section_limits_known :
    (r : ℕ) → (m : ℕ) × (get_key (limits.store r).section limits.max_by_section ≡ some m)
unfolding get_key string_eq
section_limits_known zero = (4, refl)
section_limits_known (suc zero) = (4, refl)
section_limits_known (suc (suc n)) = (4, refl)

build_vertical_package-IsChain_example :
    (v : Vertical) × (added : List ℕ) × (build_vertical_package limits [] 0 ≡ ok (true, v))
    × (v.jobs_list ≡ 0 ∷ added)
    × IsChain limits [] (0 ∷ []) added
    × (length v.jobs_list ≤ max 1 2)
    × (length v.jobs_list ≤ max 1 5)
build_vertical_package-IsChain_example =
    build_vertical_package-IsChain limits section_limits_known [] 0

-- The first job is not marked as packed, so a later search can find it again.
abbrev two_ready : VerticalInput
two_ready = record limits {
  store =
      (λ r. if r == 0 then make_job "a000_1_SIM" ready [] 0 else make_job "a000_1_POST" ready [] 0);
  sorted_jobs = 1 ∷ 0 ∷ [];
  max_v = 5;
}

abbrev with_itself : List ℕ
with_itself = 0 ∷ 1 ∷ 0 ∷ []

first_job_twice :
    (v : Vertical) × (build_vertical_package two_ready [] 0 ≡ ok (true, v))
    × (v.jobs_list ≡ with_itself)
unfolding build_vertical_package is_wrappable nat_eq string_eq status_eq
first_job_twice = (_, refl, refl)

abbrev side_by_side : HorizontalInput
side_by_side = record {
  store = chunks;
  max_h = 4;
  max_jobs = 5;
  max_by_section = ("SIM", 4) ∷ [];
  max_processors = some 100;
  processors_node = 16;
  total_processors = λ r. some 48;
  tasks = λ r. 4;
}

sections-IsKnown : (r : ℕ) → IsKnown side_by_side (side_by_side.store r).section
unfolding get_key string_eq
sections-IsKnown zero = (4, refl)
sections-IsKnown (suc zero) = (4, refl)
sections-IsKnown (suc (suc n)) = (4, refl)

build_horizontal_package-Fits_example :
    ReturnsFit side_by_side 0 (build_horizontal_package side_by_side (0 ∷ 1 ∷ 2 ∷ []) 0 [])
build_horizontal_package-Fits_example =
    build_horizontal_package-Fits side_by_side sections-IsKnown (0 ∷ 1 ∷ 2 ∷ []) 0 []

abbrev wrappers : List (String × List String)
wrappers = ("WRAPPER_A", "SIM" ∷ []) ∷ ("WRAPPER_B", "POST" ∷ []) ∷ []

divide_list_by_section-IsSorted_example :
    ((q : ℕ)
      → count_in q (divide_list_by_section (λ s. s) chunks wrappers (0 ∷ 1 ∷ 2 ∷ []))
        ≡ count q (0 ∷ 1 ∷ 2 ∷ []))
    × All
        (λ (x : String × List ℕ). has_jobs x ≡ true)
        (divide_list_by_section (λ s. s) chunks wrappers (0 ∷ 1 ∷ 2 ∷ []))
    × All
        (IsSorted (λ s. s) chunks wrappers)
        (divide_list_by_section (λ s. s) chunks wrappers (0 ∷ 1 ∷ 2 ∷ []))
divide_list_by_section-IsSorted_example =
    divide_list_by_section-IsSorted (λ s. s) chunks wrappers (0 ∷ 1 ∷ 2 ∷ [])

parents_first : (q p : ℕ) → In p (chunks q).parents → p < q
parents_first zero p m = elim m [ ]
parents_first (suc zero) p m = elim m [ inl e ↦ omega (arith, e) | inr x ↦ elim x [ ] ]
parents_first (suc (suc n)) p m = elim m [ inl e ↦ omega (arith, e) | inr x ↦ elim x [ ] ]

is_ancestor_iff_example : (is_ancestor 3 chunks 2 0 ≡ true) ↔ Above chunks 2 0
is_ancestor_iff_example = is_ancestor_iff chunks parents_first 2 0
