-- ===== src/JobList/Graph/Filtered/Edges.antt =====
-- What the dependencies with filters add to the graph.
use autosubmit.Prelude.{
  ℕ, ◌≡◌, sym, ap, ◌∙◌, subst, inl, inr, Bool, true, false, List, [], ◌∷◌, All, In, Bool-cases,
  if◌then◌else◌, contains, string_eq, ◌==◌, ok, ok_same, >>=-eq-ok, for_each, arith,
}
use autosubmit.JobList.State.{JobList, job}
use autosubmit.JobList.Graph.Context.{Context}
use autosubmit.JobList.Graph.Natural.{add_edge, add_problematic}
use autosubmit.JobList.Graph.Natural.Edges.{Adds, Grown, Grown-refl, Grown-trans, Adds-Grown}
use autosubmit.JobList.Graph.Filtered.{
  Filtering, FilterState, add_name, is_passed_over, note_split, takes_edge, note_special,
  add_filtered, mark_special, take_parent, visit_filtered,
}

module _ (c : Context) (f : Filtering) (l : JobList) (r : ℕ) where
  pub note_split-built :
      (p : ℕ) (s s' : FilterState) → note_split c f l r p s ≡ ok s' → s'.built ≡ s.built
  unfolding note_split
  note_split-built p s s' h = ground (arith, h)

  pub mark_special-built : (p : ℕ) (s : FilterState) → (mark_special c f l r p s).built ≡ s.built
  unfolding mark_special
  mark_special-built p s = ground arith

  pub add_filtered-Adds :
      (p : ℕ) (s : FilterState) → Adds r p s.built (add_filtered c f l r p s).built
  unfolding add_filtered note_special add_problematic add_edge add_name Adds
  add_filtered-Adds p s =
      elim (Bool-cases (contains f.dependencies_keys_without_special_chars (job l r).section)) [
        | inl t ↦ inr (inr (inl (rw t)))
        | inr n ↦ inr (inl (rw n))
      ]

  take_or_not :
      (added : Bool) (p : ℕ) (s1 s' : FilterState)
      → ok (
          if added
          then add_filtered c f l r p (mark_special c f l r p s1)
          else mark_special c f l r p s1)
        ≡ ok s'
      → Adds r p s1.built s'.built
  take_or_not true p s1 s' h =
      subst (λ b. Adds r p b s'.built) (mark_special-built p s1)
        (subst (λ x. Adds r p (mark_special c f l r p s1).built x.built) (ok_same h)
          (add_filtered-Adds p (mark_special c f l r p s1)))
  take_or_not false p s1 s' h =
      unfold Adds in
      inl (ap (λ (x : FilterState). x.built) (sym (ok_same h)) ∙ mark_special-built p s1)

  take_parent-Adds :
      (p : ℕ) (s s' : FilterState) → take_parent c f l r p s ≡ ok s' → Adds r p s.built s'.built
  unfolding take_parent
  take_parent-Adds p s s' h =
      let same = (job l p).section == (job l r).section in
      let (s1, first, rest) = >>=-eq-ok (if same then note_split c f l r p s else ok s) _ h in
      let (added, asked, last) = >>=-eq-ok (takes_edge c f l r p s1) _ rest in
      subst (λ b. Adds r p b s'.built) (split_noted same s1 first) (take_or_not added p s1 s' last)
    where
      split_noted :
          (same : Bool) (s1 : FilterState)
          → (if same then note_split c f l r p s else ok s) ≡ ok s1
          → s1.built ≡ s.built
      split_noted true s1 e = note_split-built p s s1 e
      split_noted false s1 e = ap (λ (x : FilterState). x.built) (sym (ok_same e))

  pub visit_filtered-Adds :
      (b : Bool) (p : ℕ) (s s' : FilterState)
      → visit_filtered c f l r b p s ≡ ok s'
      → Adds r p s.built s'.built
  unfolding visit_filtered
  visit_filtered-Adds b p s s' h =
      let (over, asked, rest) =
        >>=-eq-ok (if b then is_passed_over c f l r s p else ok false) _ h in
      passed over rest
    where
      passed :
          (over : Bool)
          → (if over then ok s else take_parent c f l r p s) ≡ ok s'
          → Adds r p s.built s'.built
      passed true e = unfold Adds in inl (ap (λ (x : FilterState). x.built) (sym (ok_same e)))
      passed false e = take_parent-Adds p s s' e

  pub visit_filtered-Grown :
      (b : Bool) (all ps : List ℕ) (s s' : FilterState)
      → All (λ p. In p all) ps
      → for_each (visit_filtered c f l r b) ps s ≡ ok s'
      → Grown r all s.built s'.built
  visit_filtered-Grown b all [] s s' m h =
      subst (λ (x : FilterState). Grown r all s.built x.built) (ok_same h) (Grown-refl s.built)
  visit_filtered-Grown b all (p ∷ ps) s s' m h =
      let (t, first, rest) = >>=-eq-ok (visit_filtered c f l r b p s) _ h in
      Grown-trans (Adds-Grown p s.built t.built m.0 (visit_filtered-Adds b p s t first))
        (visit_filtered-Grown b all ps t s' m.1 rest)
