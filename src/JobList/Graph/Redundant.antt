-- ===== src/JobList/Graph/Redundant.antt =====
-- The deletion of redundant relations leaves the same routes.
use autosubmit.Prelude.{
  ℕ, zero, suc, ◌+◌, ◌<◌, ◌≡◌, refl, ◌∙◌, subst, ◌↔◌, inl, inr, true, not, ◌&&◌, List, [], ◌∷◌,
  ◌==◌, nat_eq, map, All, All-append, run_each, Bool-cases, arith,
}
use autosubmit.JobList.Graph.{
  Graph, has_successor, remove_edge, Route, edge, hop, pairs, visit_pair, Problematic, visit_job,
  delete_relations, find_and_delete_redundant_relations,
}

-- Another way between the ends of the edge, over one job.
Bypassed : Graph → ℕ × ℕ → Type 0
Bypassed g (u, v) = (q : ℕ) × (has_successor g u q ≡ true) × (has_successor g q v ≡ true)

abbrev Joined : Graph → ℕ → ℕ → Type 0
Joined g child p = has_successor g p child ≡ true

pairs-Joined :
    (g : Graph) (child : ℕ) (ps : List ℕ)
    → All (Joined g child) ps
    → All (λ (p, q). Joined g child p × Joined g child q) (pairs ps)
unfolding pairs
pairs-Joined g child [] h = tt
pairs-Joined g child (p ∷ ps) h =
    All-append (λ (a, b). Joined g child a × Joined g child b) (map (λ y. (p, y)) ps) (pairs ps)
      (with_first ps h.1) (pairs-Joined g child ps h.1)
  where
    with_first :
        (qs : List ℕ)
        → All (Joined g child) qs
        → All (λ (a, b). Joined g child a × Joined g child b) (map (λ y. (p, y)) qs)
    with_first [] k = tt
    with_first (q ∷ qs) k = ((h.0, k.0), with_first qs k.1)

visit_pair-Bypassed :
    (g : Graph) (child p q : ℕ) (delete : Graph)
    → Joined g child p × Joined g child q
    → All (Bypassed g) delete
    → All (Bypassed g) (visit_pair g child (p, q) delete)
unfolding visit_pair Bypassed
visit_pair-Bypassed g child p q delete (hp, hq) h = elim (Bool-cases (has_successor g p q)) [
  | inl t ↦ rw t (All-append (Bypassed g) delete ((p, child) ∷ []) h ((q, t, hq), tt))
  | inr f ↦ elim (Bool-cases (has_successor g q p)) [
    | inl t ↦ rw (f, t) (All-append (Bypassed g) delete ((q, child) ∷ []) h ((p, t, hp), tt))
    | inr n ↦ rw (f, n) h
  ]
]

-- A loop keeps what its body keeps.
run_each-keeps :
    {A : Type 0} {S : Type 0} (Q : A → Type 0) (P : S → Type 0) (body : A → S → S)
    → ((a : A) (s : S) → Q a → P s → P (body a s))
    → (xs : List A) (s : S) → All Q xs
    → P s
    → P (run_each body xs s)
run_each-keeps Q P body keep [] s h p = p
run_each-keeps Q P body keep (x ∷ xs) s h p =
    run_each-keeps Q P body keep xs (body x s) h.1 (keep x s h.0 p)

-- The parents that are noted for a job are its parents in the graph.
abbrev pub AreParents : Graph → ℕ × List ℕ → Type 0
AreParents g (child, parents) = All (λ p. has_successor g p child ≡ true) parents

delete_relations-Bypassed :
    (g : Graph) (problematic : Problematic)
    → All (λ (section, jobs). All (AreParents g) jobs) problematic
    → All (Bypassed g) (delete_relations g problematic)
unfolding delete_relations visit_job
delete_relations-Bypassed g problematic h =
    run_each-keeps (λ (section, jobs). All (AreParents g) jobs) (All (Bypassed g))
      (λ (section, jobs). run_each (visit_job g) jobs)
      (λ (section, jobs) delete k d.
        run_each-keeps (AreParents g) (All (Bypassed g)) (visit_job g)
          (λ (child, parents) e j b.
            run_each-keeps (λ (p, q). Joined g child p × Joined g child q) (All (Bypassed g))
              (visit_pair g child) (λ (p, q) x joined y. visit_pair-Bypassed g child p q x joined y)
              (pairs parents) e (pairs-Joined g child parents j) b)
          jobs delete k d)
      problematic [] h tt

has_successor-remove_edge :
    (a b : ℕ) (g : Graph) (u v : ℕ)
    → has_successor (remove_edge (a, b) g) u v ≡ (has_successor g u v && not (a == u && b == v))
unfolding has_successor remove_edge
has_successor-remove_edge a b [] u v = refl
has_successor-remove_edge a b ((c, d) ∷ g) u v = ground (arith, has_successor-remove_edge a b g u v)

has_successor-remove_all :
    (delete g : Graph) (u v : ℕ)
    → has_successor (run_each remove_edge delete g) u v
      ≡ (has_successor g u v && not (has_successor delete u v))
unfolding has_successor
has_successor-remove_all [] g u v = ground arith
has_successor-remove_all ((a, b) ∷ delete) g u v =
    has_successor-remove_all delete (remove_edge (a, b) g) u v
    ∙ ground (arith, has_successor-remove_edge a b g u v)

All-has_successor :
    (P : ℕ × ℕ → Type 0) (g : Graph) (u v : ℕ) → All P g → has_successor g u v ≡ true → P (u, v)
unfolding has_successor
All-has_successor P [] u v h e = absurd (cc)
All-has_successor P ((a, b) ∷ g) u v h e = elim (Bool-cases (a == u && b == v)) [
  | inl t ↦
      let same_start : a ≡ u = ground arith in
      let same_end : b ≡ v = ground arith in
      subst (λ x. P (x, v)) same_start (subst (λ x. P (a, x)) same_end h.0)
  | inr f ↦ All-has_successor P g u v h.1 (ground arith)
]

Route-trans : {g : Graph} {u v w : ℕ} → Route g u v → Route g v w → Route g u w
Route-trans (edge e) r = hop e r
Route-trans (hop e s) r = hop e (Route-trans s r)

Route-map :
    (g g' : Graph)
    → ((u v : ℕ) → has_successor g u v ≡ true → Route g' u v)
    → {u v : ℕ} → Route g u v
    → Route g' u v
Route-map g g' f (edge {u} {v} e) = f u v e
Route-map g g' f (hop {u} {v} {w} e r) = Route-trans (f u v e) (Route-map g g' f r)

module _ (g delete : Graph) (rank : ℕ → ℕ)
    (acyclic : (u v : ℕ) → has_successor g u v ≡ true → rank u < rank v)
    (bypassed : All (Bypassed g) delete) where
  still_joined :
      (n u v : ℕ)
      → rank v < rank u + n
      → has_successor g u v ≡ true
      → Route (run_each remove_edge delete g) u v
  unfolding Bypassed
  still_joined zero u v h e = absurd (omega (arith, acyclic u v e))
  still_joined (suc n) u v h e = elim (Bool-cases (has_successor delete u v)) [
    | inr kept ↦ edge (ground (arith, has_successor-remove_all delete g u v))
    | inl gone ↦
        let (q, first, second) = All-has_successor (Bypassed g) delete u v bypassed gone in
        Route-trans
          (still_joined n u q (omega (arith, acyclic u q first, acyclic q v second)) first)
          (still_joined n q v (omega (arith, acyclic u q first, acyclic q v second)) second)
  ]

-- In a graph without cycles, where the parents that are noted for a job are parents of it in the
-- graph, the deletion of the redundant relations leaves a route from a job to another exactly where
-- there was one.
pub find_and_delete_redundant_relations-Route :
    (rank : ℕ → ℕ) (problematic : Problematic) (g : Graph)
    → ((u v : ℕ) → has_successor g u v ≡ true → rank u < rank v)
    → All (λ (section, jobs). All (AreParents g) jobs) problematic
    → (u v : ℕ) → Route g u v ↔ Route (find_and_delete_redundant_relations problematic g) u v
unfolding find_and_delete_redundant_relations
find_and_delete_redundant_relations-Route rank problematic g acyclic h u v = (
  λ r.
      Route-map g (run_each remove_edge delete g)
        (λ a b e.
          still_joined g delete rank acyclic (delete_relations-Bypassed g problematic h)
            (suc (rank b)) a b (omega arith) e)
        r,
  λ r.
      Route-map (run_each remove_edge delete g) g
        (λ a b e. edge (ground (arith, has_successor-remove_all delete g a b))) r,
)
  where
    delete : Graph
    delete = delete_relations g problematic
