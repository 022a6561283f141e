-- ===== src/Tests/Graph.antt =====
-- Edges of a small graph.
use autosubmit.Prelude.{
  ℕ, zero, ◌<◌, true, false, none, some, List, [], ◌∷◌, ◌≡◌, refl, ◌↔◌, In, contains, nat_eq,
  string_eq, ok, arith,
}
use autosubmit.Job.Status.{waiting, completed}
use autosubmit.Job.Record.{Job}
use autosubmit.JobList.State.{JobList}
use autosubmit.JobList.Graph.{
  Graph, Route, has_successor, Problematic, find_and_delete_redundant_relations,
}
use autosubmit.JobList.Graph.Redundant.{find_and_delete_redundant_relations-Route}
use autosubmit.JobList.Graph.Context.{Context, SectionDependency, Coordinates}
use autosubmit.JobList.Graph.Natural.{
  GraphState, natural_parents, is_mutual, has_parent, calculate_natural_dependencies,
}
use autosubmit.JobList.Graph.Natural.Edges.{Grown, calculate_natural_dependencies-Grown}
use autosubmit.JobList.Filters.Unify.{Filter, empty}
use autosubmit.JobList.Graph.Filtered.{
  Filtering, FilterState, all_none, any_all_filter, possible_parents, parent_filter,
  calculate_filter_dependencies,
}
use autosubmit.JobList.Graph.Filtered.Steps.{specials}
use autosubmit.JobList.Graph.Filtered.Passed.{Passed}
use autosubmit.JobList.Graph.Filtered.Chosen.{Held, calculate_filter_dependencies-Grown}
use autosubmit.Tests.Samples.{make_job}

-- 0 → 1 → 2, and the relation of 0 and 2, which is redundant.
abbrev triangle : Graph
triangle = (0, 1) ∷ ((1, 2) ∷ ((0, 2) ∷ []))

abbrev noted : Problematic
noted = ("SIM", (2, 0 ∷ (1 ∷ [])) ∷ []) ∷ []

triangle_reduced : find_and_delete_redundant_relations noted triangle ≡ (0, 1) ∷ ((1, 2) ∷ [])
unfolding find_and_delete_redundant_relations
triangle_reduced = refl

triangle-acyclic : (u v : ℕ) → has_successor triangle u v ≡ true → u < v
unfolding has_successor nat_eq
triangle-acyclic u v h = ground (arith, h)

find_and_delete_redundant_relations-Route_example :
    Route triangle 0 2 ↔ Route (find_and_delete_redundant_relations noted triangle) 0 2
find_and_delete_redundant_relations-Route_example =
    find_and_delete_redundant_relations-Route (λ r. r) noted triangle triangle-acyclic
      (((parent_0, (parent_1, tt)), tt), tt) 0 2
  where
    parent_0 : has_successor triangle 0 2 ≡ true
    parent_0 = unfold has_successor nat_eq in refl

    parent_1 : has_successor triangle 1 2 ≡ true
    parent_1 = unfold has_successor nat_eq in refl

abbrev job_store : ℕ → Job
job_store zero = record (make_job "a000_INI" completed [] 0) { section = "INI" }
job_store _ = make_job "a000_SIM" waiting [] 0

abbrev jobs : JobList
jobs = record {
  order = 0 ∷ 1 ∷ [];
  store = job_store;
  jobs_edges = [];
  jobs_to_run_first = [];
  cancelled = [];
}

abbrev context : Context
context = record {
  dependencies = λ s. [];
  running = λ s. "once";
  dependency_map = λ s. "INI" ∷ [];
  dependency_map_with_distances = λ s. [];
  depends_on_previous_chunk = false;
  depends_on_special_chunk = false;
  chunk_list = 1 ∷ [];
  member_list = "fc0" ∷ [];
  date_list = 0 ∷ [];
  find_jobs = λ s d m k. 0 ∷ (1 ∷ []);
  distance = λ s. 0;
  max_distance = 0;
  special_dependencies = [];
  frequency = none;
}

abbrev on_ini : SectionDependency
on_ini = record { section = "INI"; has_relationships = false }

abbrev everywhere : Coordinates
everywhere = record { date = none; member = none; chunk = none }

abbrev before : GraphState
before = record { graph = []; problematic = [] }

abbrev after : GraphState
after = record { graph = (0, 1) ∷ []; problematic = [] }

calculate_natural_dependencies-Grown_example :
    Grown 1 (0 ∷ []) before after
    × ((p : ℕ)
        → In p (0 ∷ [])
        → is_mutual context jobs 1 on_ini p ≡ false
        → has_parent 1 after.graph ≡ true)
calculate_natural_dependencies-Grown_example =
    calculate_natural_dependencies-Grown context jobs 1 on_ini "INI" [] everywhere before after jobs
      (0 ∷ []) ran parents
  where
    ran :
        calculate_natural_dependencies context jobs 1 on_ini "INI" [] everywhere before
        ≡ ok (after, jobs)
    ran = unfold calculate_natural_dependencies string_eq nat_eq in refl

    parents : natural_parents context jobs 1 on_ini "INI" [] everywhere ≡ ok (0 ∷ [])
    parents = unfold natural_parents string_eq nat_eq in refl

abbrev filtering : Filtering
filtering = record {
  find_filtered = λ s f t g. 0 ∷ (1 ∷ []);
  filters_of_parent = λ s. ok empty;
  split_of = λ p. none;
  splits_of = λ p. none;
  previous_chunk = λ s. none;
  dependencies_keys_without_special_chars = "SIM" ∷ [];
}

abbrev filter_state : GraphState → List ℕ → FilterState
filter_state g special = record {
  built = g;
  special_dependencies = [];
  depends_on_special_chunk = false;
  special_of_job = if_noted special (1, special);
  special_of_section = if_noted special ("SIM", special);
  previous_split = [];
}
  where
    if_noted : {A : Type 0} → List ℕ → A → List A
    if_noted [] a = []
    if_noted (x ∷ xs) a = a ∷ []

abbrev with_chunks : Filter
with_chunks = record empty { chunks = some (b'1' ∷ []) }

abbrev after_filters : GraphState
after_filters = record { graph = (0, 1) ∷ []; problematic = 0 ∷ [] }

calculate_filter_dependencies-Grown_example :
    Grown 1
      (possible_parents context filtering jobs 1 "INI" with_chunks everywhere empty)
      before
      after_filters
    × (any_all_filter with_chunks ≡ false
        → (p : ℕ)
        → In p (possible_parents context filtering jobs 1 "INI" with_chunks everywhere empty)
        → contains (specials context filtering jobs 1 (filter_state before [])) p ≡ false
        → has_successor after_filters.graph p 1 ≡ true)
    × (any_all_filter with_chunks ≡ true
        → (p : ℕ) → Passed context filtering jobs 1 p (filter_state before [])
        → has_successor after_filters.graph p 1 ≡ has_successor before.graph p 1)
    × ((p : ℕ)
        → Held context filtering jobs 1 p (filter_state before [])
        → has_successor after_filters.graph p 1 ≡ has_successor before.graph p 1)
calculate_filter_dependencies-Grown_example =
    calculate_filter_dependencies-Grown context filtering jobs 1 with_chunks "INI" everywhere
      (filter_state before []) (filter_state after_filters (0 ∷ [])) jobs empty others ran parent
  where
    ran :
        calculate_filter_dependencies context filtering jobs 1 with_chunks "INI" everywhere
          (filter_state before [])
        ≡ ok (filter_state after_filters (0 ∷ []), jobs)
    ran = unfold calculate_filter_dependencies string_eq nat_eq in refl

    parent : parent_filter context filtering jobs 1 "INI" ≡ ok empty
    parent = unfold parent_filter string_eq nat_eq in refl

    others : all_none with_chunks ≡ false
    others = unfold all_none in refl
