-- ===== src/Packager/Package.antt =====
-- The packages of jobs, and how many jobs they hold in each direction:
-- `check_real_package_wrapper_limits` and `check_jobs_to_run_first`.
use autosubmit.Prelude.{
  ℕ, String, Bool, true, false, not, ◌||◌, some, List, [], ◌∷◌, ◌==◌, contains, nat_eq, string_eq,
  ltb, if◌then◌else◌, length, all, map, Result, ok, err, index_error, ◌>>=◌,
}
use autosubmit.JobList.State.{JobList, modify}

pub record Package : Type 0 where
  pub jobs : List ℕ
  pub jobs_lists : List (List ℕ)
  pub wrapper_type : String

-- What is submitted: `JobPackageSimple`, `JobPackageSimpleWrapped`, or a wrapper.
pub data Submission : Type 0 where
  simple simple_wrapped : ℕ → Submission
  wrapper : Package → Submission

-- `xs[1:-1]` and `xs[:-1]`
abbrev pub but_last : {A : Type 0} → List A → List A
but_last [] = []
but_last (x ∷ []) = []
but_last (x ∷ (y ∷ xs)) = x ∷ but_last (y ∷ xs)

abbrev pub inner : {A : Type 0} → List A → List A
inner [] = []
inner (x ∷ xs) = but_last xs

-- The smallest length, starting from `m`.
abbrev pub least_length : ℕ → List (List ℕ) → ℕ
least_length m [] = m
least_length m (x ∷ xs) = least_length (if ltb (length x) m then length x else m) xs

-- The number of lists, the least length, and whether all lists but the last have it.
unfoldable pub measure : List (List ℕ) → Result (ℕ × ℕ × Bool)
unfolding nat_eq
measure [] = err index_error
measure (x ∷ xs) =
    let least = least_length (length x) (inner (x ∷ xs)) in
    ok (length (x ∷ xs), least, all (λ y. length y == least) (but_last (x ∷ xs)))

pub record RealLimits : Type 0 where
  pub real_v : ℕ
  pub real_h : ℕ
  pub balanced : Bool

abbrev pub flat : ℕ → ℕ → RealLimits
flat v h = record { real_v = v; real_h = h; balanced = true }

-- The argument `type_name` is `wrapper_type[current_wrapper_section]`.
unfoldable pub check_real_package_wrapper_limits : String → Package → Result RealLimits
unfolding measure string_eq
check_real_package_wrapper_limits type_name p =
    if type_name == "vertical-horizontal"
    then (do m ← measure p.jobs_lists; ok (record { real_v = m.1; real_h = m.0; balanced = m.2 }))
    else if type_name == "horizontal-vertical"
    then (do m ← measure p.jobs_lists; ok (record { real_v = m.0; real_h = m.1; balanced = m.2 }))
    else if type_name == "horizontal"
    then ok (flat 1 (length p.jobs))
    else if type_name == "vertical"
    then ok (flat (length p.jobs) 1)
    else ok (flat (length p.jobs) (length p.jobs))

-- `xs.remove(x)`; a missing element is suppressed by the callers.
unfoldable pub remove : ℕ → List ℕ → List ℕ
unfolding nat_eq
remove r [] = []
remove r (q ∷ qs) = if r == q then qs else q ∷ remove r qs

abbrev pub one_dimensional : String → Bool
one_dimensional t = t == "horizontal" || (t == "vertical" || t == "vertical-mixed")

-- The loop over the jobs of the package, with the state, the package and `run_first`.
unfoldable pub keep_first : String → List ℕ → JobList → Package → Bool → JobList × Package × Bool
unfolding remove modify string_eq nat_eq
keep_first type_name [] l p run_first = (l, p, run_first)
keep_first type_name (r ∷ rs) l p run_first =
    let l1 = modify r (λ j. record j { wrapper_type = some p.wrapper_type }) l in
    if contains l.jobs_to_run_first r
    then keep_first type_name rs l1 p true
    else keep_first type_name rs l1
        (record p {
          jobs = remove r p.jobs;
          jobs_lists =
              if not (one_dimensional type_name) then map (remove r) p.jobs_lists else p.jobs_lists;
        })
        run_first

unfoldable pub check_jobs_to_run_first : String → JobList → Package → JobList × Package × Bool
unfolding keep_first nat_eq
check_jobs_to_run_first type_name l p =
    if ltb 0 (length l.jobs_to_run_first)
    then keep_first type_name p.jobs l p false
    else (l, p, false)
