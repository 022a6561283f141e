-- ===== src/JobList/Graph/Natural/Edges.antt =====
-- What the natural dependencies add to the graph.
use autosubmit.Prelude.{
  ℕ, ◌≡◌, refl, sym, ◌∙◌, subst, ◌⊎◌, inl, inr, String, Bool, true, false, ◌&&◌, ◌||◌, List, [],
  ◌∷◌, ◌++◌, ◌==◌, nat_eq, string_eq, contains, All, All-append, All-map, In, Bool-cases,
  if◌then◌else◌, ok, ok_same, ok_first_same, >>=-eq-ok, for_each, run_each, arith,
}
use autosubmit.JobList.State.{JobList}
use autosubmit.JobList.Graph.{Graph, has_successor}
use autosubmit.JobList.Graph.Context.{Context, SectionDependency, Coordinates}
use autosubmit.JobList.Graph.Frequency.{handle_frequency_interval_dependencies}
use autosubmit.JobList.Graph.Natural.{
  GraphState, add_edge, add_problematic, natural_parents, is_mutual, near_parent, far_parent,
  visit_parent, has_parent, rescue_parent, connect, calculate_natural_dependencies,
}

has_successor-append :
    (g : Graph) (p r u v : ℕ)
    → has_successor (g ++ ((p, r) ∷ [])) u v ≡ (has_successor g u v || (p == u && r == v))
unfolding has_successor
has_successor-append [] p r u v = ground arith
has_successor-append ((a, b) ∷ g) p r u v = ground (arith, has_successor-append g p r u v)

pub has_successor-add_edge :
    (p r : ℕ) (s : GraphState) (u v : ℕ)
    → has_successor (add_edge p r s).graph u v ≡ (has_successor s.graph u v || (p == u && r == v))
unfolding add_edge
has_successor-add_edge p r s u v = elim (Bool-cases (has_successor s.graph p r)) [
  | inl t ↦ elim (Bool-cases (p == u && r == v)) [
    | inl same ↦ rw t (ground (arith, t))
    | inr other ↦ rw t (ground arith)
  ]
  | inr f ↦ rw f (has_successor-append s.graph p r u v)
]

-- One parent at most, with an edge to the job, and noted or not.
unfoldable pub Adds : ℕ → ℕ → GraphState → GraphState → Type 0
Adds r p s s' =
    (s' ≡ s)
    ⊎ ((s' ≡ add_edge p r s)
        ⊎ ((s' ≡ add_problematic p r s) ⊎ (s' ≡ add_edge p r (add_problematic p r s))))

module _ (c : Context) (l : JobList) (r : ℕ) where
  near_parent-Adds : (p : ℕ) (s : GraphState) → Adds r p s (near_parent c l r p s)
  unfolding near_parent Adds
  near_parent-Adds p s = ground arith

  far_parent-Adds : (p : ℕ) (s s' : GraphState) → far_parent c l r p s ≡ ok s' → Adds r p s s'
  unfolding far_parent Adds
  far_parent-Adds p s s' h = ground (arith, h)

-- The parents that are noted have an edge to the job.
abbrev pub AreNoted : ℕ → GraphState → Type 0
AreNoted r s = All (λ p. has_successor s.graph p r ≡ true) s.problematic

-- Every edge is kept, and every new one leads from one of the parents to the job.
pub record Grown (r : ℕ) (parents : List ℕ) (s s' : GraphState) : Type 0 where
  pub kept : (u v : ℕ) → has_successor s.graph u v ≡ true → has_successor s'.graph u v ≡ true
  pub new :
      (u v : ℕ)
      → has_successor s'.graph u v ≡ true
      → (has_successor s.graph u v ≡ true) ⊎ (In u parents × (v ≡ r))
  pub noted : AreNoted r s → AreNoted r s'

pub add_edge-kept :
    (p r : ℕ) (s : GraphState) (u v : ℕ)
    → has_successor s.graph u v ≡ true
    → has_successor (add_edge p r s).graph u v ≡ true
add_edge-kept p r s u v h = has_successor-add_edge p r s u v ∙ ground (arith, h)

All-add :
    {A : Type 0} (P : A → Type 0) (b : Bool) (xs : List A) (x : A)
    → All P xs
    → P x
    → All P (if b then xs else xs ++ (x ∷ []))
All-add P true xs x h p = h
All-add P false xs x h p = All-append P xs (x ∷ []) h (p, tt)

module _ {r : ℕ} {parents : List ℕ} where
  pub Grown-refl : (s : GraphState) → Grown r parents s s
  Grown-refl s = record { kept = λ u v h. h; new = λ u v h. inl h; noted = λ h. h }

  pub Grown-trans :
      {s t w : GraphState} → Grown r parents s t → Grown r parents t w → Grown r parents s w
  Grown-trans a b = record {
    kept = λ u v h. b.kept u v (a.kept u v h);
    new = λ u v h. elim (b.new u v h) [ inl e ↦ a.new u v e | inr n ↦ inr n ];
    noted = λ h. b.noted (a.noted h);
  }

  add_edge-Grown : (p : ℕ) (s : GraphState) → In p parents → Grown r parents s (add_edge p r s)
  add_edge-Grown p s m = record {
    kept = add_edge-kept p r s;
    new = λ u v h. new_edge u v (sym (has_successor-add_edge p r s u v) ∙ h);
    noted = λ h. noted_after h;
  }
    where
      new_edge :
          (u v : ℕ)
          → (has_successor s.graph u v || (p == u && r == v)) ≡ true
          → (has_successor s.graph u v ≡ true) ⊎ (In u parents × (v ≡ r))
      new_edge u v h = elim (Bool-cases (has_successor s.graph u v)) [
        | inl t ↦ inl t
        | inr f ↦
            let same : p ≡ u = ground (arith, h) in
            inr (subst (λ x. In x parents) same m, ground (arith, h))
      ]

      noted_after : AreNoted r s → AreNoted r (add_edge p r s)
      noted_after h = unfold add_edge in All-map (λ q e. add_edge-kept p r s q r e) s.problematic h

  add_problematic-Grown :
      (p : ℕ) (s : GraphState) → In p parents → Grown r parents s (add_problematic p r s)
  unfolding add_problematic
  add_problematic-Grown p s m = record {
    kept = λ u v h. grown.kept u v h;
    new = λ u v h. grown.new u v h;
    noted = λ h.
        All-add (λ q. has_successor (add_edge p r t).graph q r ≡ true) (contains s.problematic p)
          s.problematic p (All-map (λ q e. add_edge-kept p r t q r e) s.problematic h)
          (has_successor-add_edge p r t p r ∙ ground arith);
  }
    where
      t : GraphState
      t = record s {
        problematic = if contains s.problematic p then s.problematic else s.problematic ++ (p ∷ []);
      }

      grown : Grown r parents t (add_edge p r t)
      grown = add_edge-Grown p t m

  pub Adds-Grown : (p : ℕ) (s s' : GraphState) → In p parents → Adds r p s s' → Grown r parents s s'
  unfolding Adds
  Adds-Grown p s s' m a = elim a [
    | inl e ↦ subst (Grown r parents s) (sym e) (Grown-refl s)
    | inr b ↦ elim b [
      | inl e ↦ subst (Grown r parents s) (sym e) (add_edge-Grown p s m)
      | inr c ↦ elim c [
        | inl e ↦ subst (Grown r parents s) (sym e) (add_problematic-Grown p s m)
        | inr e ↦
            subst (Grown r parents s) (sym e) (
              Grown-trans (add_problematic-Grown p s m)
                (add_edge-Grown p (add_problematic p r s) m))
      ]
    ]
  ]

has_parent-edge : (g : Graph) (p r : ℕ) → has_successor g p r ≡ true → has_parent r g ≡ true
unfolding has_successor has_parent
has_parent-edge [] p r h = absurd (cc)
has_parent-edge ((a, b) ∷ g) p r h = ground (arith, h, has_parent-edge g p r)

pub In-All : (ps : List ℕ) → All (λ p. In p ps) ps
In-All [] = tt
In-All (p ∷ ps) = (inl refl, All-map (λ q m. inr m) ps (In-All ps))

noted_edge : (p r : ℕ) (s : GraphState) → has_successor (add_problematic p r s).graph p r ≡ true
unfolding add_problematic
noted_edge p r s = has_successor-add_edge p r t p r ∙ ground arith
  where
    t : GraphState
    t = record s {
      problematic = if contains s.problematic p then s.problematic else s.problematic ++ (p ∷ []);
    }

module _ (c : Context) (l : JobList) (r : ℕ) (dep : SectionDependency) where
  rescued :
      (p : ℕ) (s : GraphState)
      → is_mutual c l r dep p ≡ false
      → has_successor (rescue_parent c l r dep p s).graph p r ≡ true
  unfolding rescue_parent
  rescued p s f = rw f (noted_edge p r s)

  visit_parent-Adds :
      (p : ℕ) (s s' : GraphState) → visit_parent c l r dep p s ≡ ok s' → Adds r p s s'
  unfolding visit_parent Adds
  visit_parent-Adds p s s' h =
      ground (arith, h, near_parent-Adds c l r p s, far_parent-Adds c l r p s s')

  visit_each-Grown :
      (all ps : List ℕ) (s s' : GraphState)
      → All (λ p. In p all) ps
      → for_each (visit_parent c l r dep) ps s ≡ ok s'
      → Grown r all s s'
  visit_each-Grown all [] s s' m h = subst (Grown r all s) (ok_same h) (Grown-refl s)
  visit_each-Grown all (p ∷ ps) s s' m h =
      let (t, first, rest) = >>=-eq-ok (visit_parent c l r dep p s) _ h in
      Grown-trans (Adds-Grown p s t m.0 (visit_parent-Adds p s t first))
        (visit_each-Grown all ps t s' m.1 rest)

  rescue_parent-Adds : (p : ℕ) (s : GraphState) → Adds r p s (rescue_parent c l r dep p s)
  unfolding rescue_parent Adds
  rescue_parent-Adds p s = ground arith

  rescue_each-Grown :
      (all ps : List ℕ) (s : GraphState)
      → All (λ p. In p all) ps
      → Grown r all s (run_each (rescue_parent c l r dep) ps s)
  rescue_each-Grown all [] s m = Grown-refl s
  rescue_each-Grown all (p ∷ ps) s m =
      Grown-trans (Adds-Grown p s (rescue_parent c l r dep p s) m.0 (rescue_parent-Adds p s))
        (rescue_each-Grown all ps (rescue_parent c l r dep p s) m.1)

  connect-Grown :
      (ps : List ℕ) (s : GraphState) → All (λ p. In p ps) ps → Grown r ps s (connect c l r dep ps s)
  unfolding connect
  connect-Grown ps s m = elim (Bool-cases (has_parent r s.graph)) [
    | inl t ↦ rw t (Grown-refl s)
    | inr f ↦ rw f (rescue_each-Grown ps ps s m)
  ]

  rescue_each-edge :
      (ps : List ℕ) (s : GraphState) (p : ℕ)
      → All (λ q. In q ps) ps
      → In p ps
      → is_mutual c l r dep p ≡ false
      → has_successor (run_each (rescue_parent c l r dep) ps s).graph p r ≡ true
  rescue_each-edge [] s p a m f = elim m [ ]
  rescue_each-edge (q ∷ ps) s p a m f = elim m [
    | inl same ↦ (rescue_each-Grown ps ps (rescue_parent c l r dep q s) (In-All ps)).kept p r (
        subst (λ x. has_successor (rescue_parent c l r dep x s).graph p r ≡ true) same
          (rescued p s f))
    | inr k ↦ rescue_each-edge ps (rescue_parent c l r dep q s) p (In-All ps) k f
  ]

  connect-has_parent :
      (ps : List ℕ) (s : GraphState) (p : ℕ)
      → In p ps
      → is_mutual c l r dep p ≡ false
      → has_parent r (connect c l r dep ps s).graph ≡ true
  unfolding connect
  connect-has_parent ps s p m f = elim (Bool-cases (has_parent r s.graph)) [
    | inl t ↦ rw t t
    | inr n ↦ rw n (
        has_parent-edge (run_each (rescue_parent c l r dep) ps s).graph p r
          (rescue_each-edge ps s p (In-All ps) m f))
  ]

  -- Where the natural dependencies of a job are computed, every edge of the graph is kept, every new
  -- one leads from a natural parent to the job, the parents that are noted as problematic stay parents
  -- of it in the graph, and the job is not left without parents if it has a natural parent whose
  -- section does not depend on its own section while the dependency has filters.
  pub calculate_natural_dependencies-Grown :
      (key : String) (of_that_section : List String) (t : Coordinates) (s s' : GraphState)
      (l' : JobList) (ps : List ℕ)
      → calculate_natural_dependencies c l r dep key of_that_section t s ≡ ok (s', l')
      → natural_parents c l r dep key of_that_section t ≡ ok ps
      → Grown r ps s s'
        × ((p : ℕ) → In p ps → is_mutual c l r dep p ≡ false → has_parent r s'.graph ≡ true)
  unfolding calculate_natural_dependencies
  calculate_natural_dependencies-Grown key that t s s' l' ps h parents =
      let (s1, each, rest) =
        >>=-eq-ok (for_each (visit_parent c l r dep) ps s) _ (rw parents at h) in
      let (l1, frequency, last) =
        >>=-eq-ok (handle_frequency_interval_dependencies c r dep.section t ps l) _ rest in
      let same : connect c l r dep ps s1 ≡ s' = ok_first_same last in
      let grown =
        Grown-trans (visit_each-Grown ps ps s s1 (In-All ps) each)
          (connect-Grown ps s1 (In-All ps)) in
      (
        subst (Grown r ps s) same grown,
        λ p m f. subst (λ x. has_parent r x.graph ≡ true) same (connect-has_parent ps s1 p m f),
      )
