-- ===== src/JobList/Graph/Frequency.antt =====
-- `handle_frequency_interval_dependencies` of class `JobList` (autosubmit/job/job_list.py): a job with
-- a FREQUENCY gets the jobs since the last one as parents.
use autosubmit.Prelude.{
  ℕ, zero, suc, ◌+◌, ◌-◌, ◌%◌, String, Option, none, some, List, [], ◌∷◌, ◌==◌, nat_eq, string_eq,
  contains, ltb, if◌then◌else◌, Result, ok, err, value_error, ◌>>=◌, for_each, run_each,
}
use autosubmit.Prelude.Int.{ℤ, pos, sub_ℕ}
use autosubmit.JobList.State.{JobList, job}
use autosubmit.JobList.Distance.{index_of, get_before}
use autosubmit.JobList.Links.{add_parent, one}
use autosubmit.JobList.Graph.Context.{Context, Coordinates}

-- `(index + 1) % frequency`, or the frequency where that is 0.
unfoldable pub interval : ℕ → ℕ → ℕ
interval index frequency = let n = (index + 1) % frequency in if n == 0 then frequency else n

-- `range(1, n)`
unfoldable pub distances : ℕ → ℕ → List ℕ
distances zero d = []
distances (suc n) d = d ∷ distances n (d + 1)

-- `for parent in jobs: if parent not in visited_parents: job.add_parent(parent)`
unfoldable pub add_unvisited : ℕ → List ℕ → List ℕ → JobList → JobList
unfolding add_parent nat_eq
add_unvisited r visited parents l =
    run_each (λ p l'. if contains visited p then l' else add_parent r (one p ∷ []) l') parents l

abbrev pub chunk_value : Option ℕ → Option ℤ
chunk_value none = none
chunk_value (some n) = some (pos n)

module _ (c : Context) (r : ℕ) (section : String) (t : Coordinates) (visited : List ℕ) where
  unfoldable pub from_chunks : ℕ → JobList → Result JobList
  unfolding interval distances add_unvisited index_of nat_eq
  from_chunks frequency l = elim t.chunk [
    | none ↦ err value_error
    | some chunk ↦ index_of c.chunk_list chunk >>= λ index. ok (
        run_each
          (λ d.
            add_unvisited r visited (c.find_jobs section t.date t.member (some (sub_ℕ chunk d))))
          (distances (interval index frequency - 1) 1) l)
  ]

  unfoldable pub from_members : String → ℕ → JobList → Result JobList
  unfolding interval distances add_unvisited index_of get_before string_eq
  from_members member frequency l = index_of c.member_list member >>= λ index.
      for_each
        (λ d l'. get_before c.member_list index d >>= λ m.
          ok (
            add_unvisited r visited (c.find_jobs section t.date (some m) (chunk_value t.chunk)) l'))
        (distances (interval index frequency - 1) 1) l

  unfoldable pub from_dates : ℕ → ℕ → JobList → Result JobList
  unfolding interval distances add_unvisited index_of get_before nat_eq
  from_dates date frequency l = index_of c.date_list date >>= λ index.
      for_each
        (λ d l'. get_before c.date_list index d >>= λ m. ok (
          add_unvisited r visited (c.find_jobs section (some m) t.member (chunk_value t.chunk)) l'))
        (distances (interval index frequency - 1) 1) l

  from_own_date : Option ℕ → ℕ → JobList → Result JobList
  unfolding from_dates
  from_own_date none frequency l = ok l
  from_own_date (some date) frequency l = from_dates date frequency l

  -- By the chunk of the job, else by its member, else by its date.
  from_place : Option ℕ → Option String → Option ℕ → ℕ → JobList → Result JobList
  unfolding from_chunks from_members from_own_date string_eq
  from_place (some k) member date frequency l = from_chunks frequency l
  from_place none (some m) date frequency l =
      if m == "" then from_own_date date frequency l else from_members m frequency l
  from_place none none date frequency l = from_own_date date frequency l

  unfoldable pub handle_frequency_interval_dependencies : JobList → Result JobList
  unfolding from_place
  handle_frequency_interval_dependencies l = elim c.frequency [
    | none ↦ ok l
    | some frequency ↦
        if ltb 1 frequency
        then from_place (job l r).chunk (job l r).member (job l r).date frequency l
        else ok l
  ]
