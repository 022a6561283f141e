-- ===== src/Statistics/Elements.antt =====
-- The processing elements that are accounted for.
use native.Mathlib.Nat.{mul-le-mul_left, div-add-mod', mod-lt}
use autosubmit.Prelude.{
  ℕ, ◌+◌, ◌-◌, ◌*◌, ◌≤◌, ◌<◌, ◌≡◌, refl, Bool, not, ◌&&◌, Option, none, some, ltb, leb, arith,
  Bool-cases, inl, inr,
}
use autosubmit.Statistics.{
  ceil_div, by_node, by_tasks, estimate_requested_nodes, calculate_processing_elements,
}

ceil_div-covers : (a b : ℕ) → 0 < b → a ≤ ceil_div a b * b
ceil_div-covers a b h = omega (arith, div-add-mod' (a + (b - 1)) b, mod-lt (a + (b - 1)) h)

-- Where the platform's processors per node are known and positive, the nodes are not, and no more
-- tasks run on a node than it has processors, the processing elements accounted for cover the
-- processors asked for.
pub calculate_processing_elements-covers :
    (processors per_node : ℕ) (tasks : Option ℕ) (exclusive : Bool)
    → 0 < per_node
    → ((t : ℕ) → tasks ≡ some t → t ≤ per_node)
    → processors ≤ calculate_processing_elements none processors tasks (some per_node) exclusive
unfolding calculate_processing_elements
calculate_processing_elements-covers processors per_node tasks exclusive h few =
    elim (Bool-cases (not exclusive && (leb estimated 1 && leb processors per_node))) [
      | inl e ↦ rw e (omega arith)
      | inr e ↦ rw e (covers tasks few)
    ]
  where
    estimated : ℕ
    estimated = estimate_requested_nodes none processors tasks (some per_node)

    nodes_cover : processors ≤ by_node (some per_node) processors * per_node
    nodes_cover = elim (Bool-cases (ltb 0 per_node && ltb per_node processors)) [
      | inl e ↦ unfold by_node in rw e (ceil_div-covers processors per_node h)
      | inr e ↦ unfold by_node in rw e (ground arith)
    ]

    tasks_cover : (t : ℕ) → t ≤ per_node → 0 < t → processors ≤ ceil_div processors t * per_node
    tasks_cover t le p =
        omega (arith, ceil_div-covers processors t p, mul-le-mul_left (ceil_div processors t) le)

    covers :
        (tasks : Option ℕ)
        → ((t : ℕ) → tasks ≡ some t → t ≤ per_node)
        → processors ≤ estimate_requested_nodes none processors tasks (some per_node) * per_node
    covers none few = unfold estimate_requested_nodes by_tasks in nodes_cover
    covers (some t) few = elim (Bool-cases (ltb 0 t)) [
      | inl e ↦
          unfold estimate_requested_nodes by_tasks in
          rw e (tasks_cover t (few t refl) (ground arith))
      | inr e ↦ unfold estimate_requested_nodes by_tasks in rw e nodes_cover
    ]
