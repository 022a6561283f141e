-- ===== src/JobList/Graph.antt =====
-- The graph of the jobs, as `_add_dependencies` of class `JobList` builds it
-- (autosubmit/job/job_list.py): an edge leads from a parent to a child. Jobs are numbers here, since
-- the nodes are the names of the jobs, which are only compared.
pub mod Redundant
pub mod Context
pub mod Frequency
pub mod Natural
pub mod Filtered
use autosubmit.Prelude.{
  ℕ, String, Bool, true, false, ◌||◌, ◌&&◌, List, [], ◌∷◌, ◌++◌, ◌≡◌, ◌==◌, nat_eq, any, filter,
  map, if◌then◌else◌, run_each,
}

abbrev pub Graph : Type 0
Graph = List (ℕ × ℕ)

-- `graph.has_successor(u, v)`
unfoldable pub has_successor : Graph → ℕ → ℕ → Bool
unfolding nat_eq
has_successor [] u v = false
has_successor ((a, b) ∷ g) u v = (a == u && b == v) || has_successor g u v

-- `graph.remove_edge(u, v)`; an edge that is not there raises an error, which is suppressed.
unfoldable pub remove_edge : ℕ × ℕ → Graph → Graph
unfolding nat_eq
remove_edge (u, v) [] = []
remove_edge (u, v) ((a, b) ∷ g) =
    let rest = remove_edge (u, v) g in if a == u && b == v then rest else (a, b) ∷ rest

-- Nodes are joined by the edges of the graph.
pub data Route (g : Graph) : ℕ → ℕ → Type 0 where
  edge : {u v : ℕ} → has_successor g u v ≡ true → Route g u v
  hop : {u v w : ℕ} → has_successor g u v ≡ true → Route g v w → Route g u w

-- `combinations(xs, 2)`
unfoldable pub pairs : List ℕ → List (ℕ × ℕ)
pairs [] = []
pairs (x ∷ xs) = map (λ y. (x, y)) xs ++ pairs xs

-- The body of the inner loop: the edge to the child of the parent that has the other as a child.
unfoldable pub visit_pair : Graph → ℕ → ℕ × ℕ → Graph → Graph
unfolding has_successor
visit_pair g child (parent, another) delete =
    if has_successor g parent another
    then delete ++ ((parent, child) ∷ [])
    else if has_successor g another parent
    then delete ++ ((another, child) ∷ [])
    else delete

-- `problematic_jobs`: for each section the jobs, with the parents that they have been given.
abbrev pub Problematic : Type 0
Problematic = List (String × List (ℕ × List ℕ))

unfoldable pub visit_job : Graph → ℕ × List ℕ → Graph → Graph
unfolding visit_pair pairs
visit_job g (child, parents) = run_each (visit_pair g child) (pairs parents)

unfoldable pub delete_relations : Graph → Problematic → Graph
unfolding visit_job
delete_relations g problematic =
    run_each (λ (section, jobs). run_each (visit_job g) jobs) problematic []

unfoldable pub find_and_delete_redundant_relations : Problematic → Graph → Graph
unfolding delete_relations remove_edge
find_and_delete_redundant_relations problematic g =
    run_each remove_edge (delete_relations g problematic) g
