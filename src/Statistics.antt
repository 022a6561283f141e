-- ===== src/Statistics.antt =====
-- Requested nodes and processing elements: autosubmit/statistics/jobs_stat.py. An argument whose
-- text is no run of digits is `none`.
pub mod Elements
use autosubmit.Prelude.{
  ℕ, ◌+◌, ◌-◌, ◌*◌, ◌/◌, Bool, true, false, not, ◌&&◌, Option, none, some, ltb, leb, if◌then◌else◌,
}

-- `ceil(a / b)` of a positive `b`.
abbrev pub ceil_div : ℕ → ℕ → ℕ
ceil_div a b = (a + (b - 1)) / b

-- The test `0 < per_node < processors`, and what follows.
unfoldable pub by_node : Option ℕ → ℕ → ℕ
by_node none processors = 1
by_node (some per_node) processors =
    if ltb 0 per_node && ltb per_node processors then ceil_div processors per_node else 1

unfoldable pub by_tasks : Option ℕ → ℕ → Option ℕ → ℕ
unfolding by_node
by_tasks none processors per_node = by_node per_node processors
by_tasks (some tasks) processors per_node =
    if ltb 0 tasks then ceil_div processors tasks else by_node per_node processors

unfoldable pub estimate_requested_nodes : Option ℕ → ℕ → Option ℕ → Option ℕ → ℕ
unfolding by_tasks
estimate_requested_nodes (some nodes) processors tasks per_node = nodes
estimate_requested_nodes none processors tasks per_node = by_tasks tasks processors per_node

unfoldable pub calculate_processing_elements : Option ℕ → ℕ → Option ℕ → Option ℕ → Bool → ℕ
unfolding estimate_requested_nodes
calculate_processing_elements nodes processors tasks none exclusive = processors
calculate_processing_elements (some nodes) processors tasks (some per_node) exclusive =
    nodes * per_node
calculate_processing_elements none processors tasks (some per_node) exclusive =
    let estimated = estimate_requested_nodes none processors tasks (some per_node) in
    if not exclusive && (leb estimated 1 && leb processors per_node)
    then processors
    else estimated * per_node
