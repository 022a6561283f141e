-- ===== src/JobList/Graph/Filtered/Selected.antt =====
-- Which parents of `_calculate_filter_dependencies` (autosubmit/job/job_list.py) get their edge.
use autosubmit.Prelude.{
  option_eq, ℕ, ◌≡◌, refl, sym, ap, ◌∙◌, subst, ◌⊎◌, inl, inr, Bool, true, false, ◌&&◌, List, [],
  ◌∷◌, ◌++◌, In, nat_eq, Bool-cases, if◌then◌else◌, contains, string_eq, ◌==◌, ==-eq, get_key, some,
  ok, ok_same, >>=-eq-ok, for_each, arith,
}
use autosubmit.Prelude.Int.{ℤ, positive}
use autosubmit.JobList.State.{JobList, job}
use autosubmit.JobList.Graph.{has_successor}
use autosubmit.JobList.Graph.Context.{Context}
use autosubmit.JobList.Graph.Natural.{GraphState, add_edge, add_problematic}
use autosubmit.JobList.Graph.Natural.Edges.{Adds, Adds-Grown, In-All, has_successor-add_edge}
use autosubmit.JobList.Graph.Filtered.Edges.{
  mark_special-built, visit_filtered-Adds, visit_filtered-Grown,
}
use autosubmit.JobList.Graph.Filtered.{
  Filtering, FilterState, or_none, takes_edge, add_filtered, mark_special, take_parent,
  visit_filtered,
}
use autosubmit.JobList.Graph.Filtered.Steps.{
  visit_filtered-Step, take_parent-Decided, add_filtered-edge, Step, specials,
}

module _ (c : Context) (f : Filtering) (l : JobList) (r : ℕ) where
  takes_edge-free :
      (p : ℕ) (s : FilterState)
      → contains ((specials c f l r) s) p ≡ false
      → takes_edge c f l r p s ≡ ok true
  unfolding takes_edge
  takes_edge-free p s free =
      elim (Bool-cases (c.depends_on_previous_chunk && ((job l p).section == (job l r).section))) [
        | inl e ↦ rw e refl
        | inr e ↦ rw (e, free) refl
      ]

  takes_edge-held :
      (p : ℕ) (n : ℤ) (s : FilterState)
      → contains ((specials c f l r) s) p ≡ true
      → ((job l p).section == (job l r).section) ≡ false
      → f.split_of r ≡ some n
      → positive n ≡ false
      → takes_edge c f l r p s ≡ ok false
  unfolding takes_edge
  takes_edge-held p n s held other split low = elim (Bool-cases c.depends_on_previous_chunk) [
    | inl e ↦ rw (e, other, held, split, low, other) refl
    | inr e ↦ rw (e, held, split, low, other) refl
  ]

  -- A parent that is not special for the section.
  take_parent-edge :
      (p : ℕ) (s s' : FilterState)
      → contains ((specials c f l r) s) p ≡ false
      → take_parent c f l r p s ≡ ok s'
      → has_successor s'.built.graph p r ≡ true
  take_parent-edge p s s' free h =
      let d = (take_parent-Decided c f l r) p s s' h in
      let free' : contains ((specials c f l r) d.asked) p ≡ false =
        ap (λ m. contains (or_none (get_key (job l r).section m)) p) d.same_sections ∙ free in
      let yes : takes_edge c f l r p d.asked ≡ ok true = takes_edge-free p d.asked free' in
      subst (λ (x : FilterState). has_successor x.built.graph p r ≡ true) (sym d.after)
        (by_answer d.added (ok_same (sym d.answer ∙ yes)) (mark_special c f l r p d.asked))
    where
      by_answer :
          (added : Bool)
          → added ≡ true
          → (w : FilterState)
          → has_successor (if added then add_filtered c f l r p w else w).built.graph p r ≡ true
      by_answer true e w = (add_filtered-edge c f l r) p w
      by_answer false e w = absurd (cc)

  -- A special parent of another section, for a job without a positive split.
  pub take_parent-idle :
      (p : ℕ) (n : ℤ) (s s' : FilterState)
      → contains ((specials c f l r) s) p ≡ true
      → ((job l p).section == (job l r).section) ≡ false
      → f.split_of r ≡ some n
      → positive n ≡ false
      → take_parent c f l r p s ≡ ok s'
      → s'.built ≡ s.built
  take_parent-idle p n s s' held other split low h =
      let d = (take_parent-Decided c f l r) p s s' h in
      let held' : contains ((specials c f l r) d.asked) p ≡ true =
        ap (λ m. contains (or_none (get_key (job l r).section m)) p) d.same_sections ∙ held in
      let no : takes_edge c f l r p d.asked ≡ ok false =
        takes_edge-held p n d.asked held' other split low in
      ap (λ (x : FilterState). x.built) d.after
      ∙ by_answer d.added (ok_same (sym d.answer ∙ no)) (mark_special c f l r p d.asked)
      ∙ mark_special-built c f l r p d.asked
      ∙ d.same_built
    where
      by_answer :
          (added : Bool)
          → added ≡ false
          → (w : FilterState) → (if added then add_filtered c f l r p w else w).built ≡ w.built
      by_answer true e w = absurd (cc)
      by_answer false e w = refl

  add_edge-other :
      (p q : ℕ) (g : GraphState)
      → (q == p) ≡ false
      → has_successor (add_edge q r g).graph p r ≡ has_successor g.graph p r
  add_edge-other p q g differ = has_successor-add_edge q r g p r ∙ ground (arith, differ)

  add_problematic-other :
      (p q : ℕ) (g : GraphState)
      → (q == p) ≡ false
      → has_successor (add_problematic q r g).graph p r ≡ has_successor g.graph p r
  unfolding add_problematic
  add_problematic-other p q g differ =
      has_successor-add_edge q r
        (record g {
          problematic =
              if contains g.problematic q then g.problematic else g.problematic ++ (q ∷ []);
        })
        p r
      ∙ ground (arith, differ)

  Adds-other :
      (p q : ℕ) (g g' : GraphState)
      → (q == p) ≡ false
      → Adds r q g g'
      → has_successor g'.graph p r ≡ has_successor g.graph p r
  unfolding Adds
  Adds-other p q g g' differ a = elim a [
    | inl e ↦ ap (λ (x : GraphState). has_successor x.graph p r) e
    | inr a2 ↦ elim a2 [
      | inl e ↦ ap (λ (x : GraphState). has_successor x.graph p r) e ∙ add_edge-other p q g differ
      | inr a3 ↦ elim a3 [
        | inl e ↦
            ap (λ (x : GraphState). has_successor x.graph p r) e
            ∙ add_problematic-other p q g differ
        | inr e ↦
            ap (λ (x : GraphState). has_successor x.graph p r) e
            ∙ add_edge-other p q (add_problematic q r g) differ
            ∙ add_problematic-other p q g differ
      ]
    ]
  ]

  -- A loop keeps `P`, under which a parent adds no edge of `p`: its edge is as it was.
  pub no_edge :
      (b : Bool) (p : ℕ) (P : FilterState → Type 0)
      → ((q : ℕ) (s s' : FilterState) → P s → (Step c f l r) q s s' → P s')
      → ((s s' : FilterState) → P s → visit_filtered c f l r b p s ≡ ok s' → s'.built ≡ s.built)
      → (ps : List ℕ) (s s' : FilterState) → P s
      → for_each (visit_filtered c f l r b) ps s ≡ ok s'
      → has_successor s'.built.graph p r ≡ has_successor s.built.graph p r
  no_edge b p P keep idle [] s s' h e =
      ap (λ (x : FilterState). has_successor x.built.graph p r) (sym (ok_same e))
  no_edge b p P keep idle (q ∷ ps) s s' h e =
      let (t, first, rest) = >>=-eq-ok (visit_filtered c f l r b q s) _ e in
      no_edge b p P keep idle ps t s' (keep q s t h ((visit_filtered-Step c f l r) b q s t first))
        rest
      ∙ elim (Bool-cases (q == p)) [
        | inl same ↦
            let at_p : visit_filtered c f l r b p s ≡ ok t =
              subst (λ x. visit_filtered c f l r b x s ≡ ok t) (==-eq q p same) first in
            ap (λ (g : GraphState). has_successor g.graph p r) (idle s t h at_p)
        | inr differ ↦
            Adds-other p q s.built t.built differ (visit_filtered-Adds c f l r b q s t first)
      ]

  -- The special parents at the start, and those that have their edge.
  unfoldable pub Explained : FilterState → FilterState → Type 0
  Explained s0 s =
      (x : ℕ)
      → contains ((specials c f l r) s) x ≡ true
      → (contains ((specials c f l r) s0) x ≡ true) ⊎ (has_successor s.built.graph x r ≡ true)

  kept_edge :
      (b : Bool) (q : ℕ) (s t : FilterState) (x : ℕ)
      → visit_filtered c f l r b q s ≡ ok t
      → has_successor s.built.graph x r ≡ true
      → has_successor t.built.graph x r ≡ true
  kept_edge b q s t x first h =
      (Adds-Grown {parents = q ∷ []} q s.built t.built (inl refl)
          (visit_filtered-Adds c f l r b q s t first)).kept
        x r h

  still :
      (s0 : FilterState) (q : ℕ) (s t : FilterState)
      → Explained s0 s
      → visit_filtered c f l r false q s ≡ ok t
      → Explained s0 t
  unfolding Explained
  still s0 q s t inv first x h = elim (((visit_filtered-Step c f l r) false q s t first).only x h) [
    | inl old ↦ elim (inv x old) [
      | inl start ↦ inl start
      | inr edge ↦ inr (kept_edge false q s t x first edge)
    ]
    | inr (same, edge) ↦ inr (subst (λ y. has_successor t.built.graph y r ≡ true) (sym same) edge)
  ]

  edge_now :
      (s0 : FilterState) (q : ℕ) (s t : FilterState)
      → Explained s0 s
      → visit_filtered c f l r false q s ≡ ok t
      → contains ((specials c f l r) s0) q ≡ false
      → has_successor t.built.graph q r ≡ true
  unfolding Explained visit_filtered
  edge_now s0 q s t inv first free = elim (Bool-cases (contains ((specials c f l r) s) q)) [
    | inl held ↦ elim (inv q held) [
      | inl start ↦ absurd (cc)
      | inr edge ↦ kept_edge false q s t q first edge
    ]
    | inr now ↦ take_parent-edge q s t now first
  ]

  -- Parents that are not special for the section at the start.
  pub all_edges :
      (s0 : FilterState) (ps : List ℕ) (s s' : FilterState)
      → Explained s0 s
      → for_each (visit_filtered c f l r false) ps s ≡ ok s'
      → (p : ℕ) → In p ps
      → contains ((specials c f l r) s0) p ≡ false
      → has_successor s'.built.graph p r ≡ true
  all_edges s0 [] s s' inv e p member free = elim member [ ]
  all_edges s0 (q ∷ ps) s s' inv e p member free =
      let (t, first, rest) = >>=-eq-ok (visit_filtered c f l r false q s) _ e in
      elim member [
        | inl same ↦ (visit_filtered-Grown c f l r false ps ps t s' (In-All ps) rest).kept p r (
            subst (λ x. has_successor t.built.graph x r ≡ true) (sym same)
              (edge_now s0 q s t inv first
                (subst (λ x. contains ((specials c f l r) s0) x ≡ false) same free)))
        | inr later ↦ all_edges s0 ps t s' (still s0 q s t inv first) rest p later free
      ]
