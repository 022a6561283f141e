-- ===== src/JobList/Graph/Filtered/Chosen.antt =====
-- The edges of `_calculate_filter_dependencies` (autosubmit/job/job_list.py) as a whole.
use autosubmit.Prelude.{
  ℕ, ◌≡◌, sym, ap, subst, String, Bool, true, false, In, nat_eq, string_eq, ◌==◌, contains, some,
  inl, List, if◌then◌else◌, ok, ok_same, ok_first_same, >>=-eq-ok, for_each,
}
use autosubmit.Prelude.Int.{ℤ, positive}
use autosubmit.JobList.State.{JobList, job}
use autosubmit.JobList.Filters.Unify.{Filter}
use autosubmit.JobList.Graph.{has_successor}
use autosubmit.JobList.Graph.Context.{Context, Coordinates}
use autosubmit.JobList.Graph.Frequency.{handle_frequency_interval_dependencies}
use autosubmit.JobList.Graph.Natural.Edges.{Grown, In-All}
use autosubmit.JobList.Graph.Filtered.{
  Filtering, FilterState, all_none, any_all_filter, take_parent, is_passed_over, visit_filtered,
  possible_parents, parent_filter, calculate_filter_dependencies,
}
use autosubmit.JobList.Graph.Filtered.Edges.{visit_filtered-Grown}
use autosubmit.JobList.Graph.Filtered.Steps.{specials}
use autosubmit.JobList.Graph.Filtered.Selected.{all_edges, Explained, no_edge, take_parent-idle}
use autosubmit.JobList.Graph.Filtered.Passed.{Passed, Passed-same, Passed-kept}

module _ (c : Context) (f : Filtering) (l : JobList) (r : ℕ) where
  -- What holds a special parent back: it is of another section, and the job has no positive split.
  abbrev pub Held : ℕ → FilterState → Type 0
  Held p s =
      (contains (specials c f l r s) p ≡ true)
      × (((job l p).section == (job l r).section) ≡ false)
      × ((n : ℤ) × (f.split_of r ≡ some n) × (positive n ≡ false))

  Held-same :
      (b : Bool) (p : ℕ) (s s' : FilterState)
      → Held p s
      → visit_filtered c f l r b p s ≡ ok s'
      → s'.built ≡ s.built
  unfolding visit_filtered
  Held-same b p s s' (held, other, (n, split, low)) h =
      let (over, asked, rest) =
        >>=-eq-ok (if b then is_passed_over c f l r s p else ok false) _ h in
      passed over rest
    where
      passed :
          (over : Bool)
          → (if over then ok s else take_parent c f l r p s) ≡ ok s'
          → s'.built ≡ s.built
      passed true e = ap (λ (x : FilterState). x.built) (sym (ok_same e))
      passed false e = take_parent-idle c f l r p n s s' held other split low e

  -- Where the dependencies with filters of a job are computed and its filters are not all "none":
  -- every edge of the graph is kept, every new one leads to the job from one of the parents that the
  -- filters select, and the parents noted as problematic stay parents of it. If no filter is "all",
  -- each of the selected parents that was not special for the job's section has an edge to the job. If
  -- one is "all", a parent that is not the last chunk of a section that depends on itself, that is
  -- noted as special, or any parent where the job depends on a previous or on a special chunk, gets no
  -- new edge. Nor does a parent of another section that was special, if the split of the job is not positive.
  pub calculate_filter_dependencies-Grown :
      (filters : Filter) (section : String) (t : Coordinates) (s s' : FilterState) (l' : JobList)
      (of_parent : Filter)
      → all_none filters ≡ false
      → calculate_filter_dependencies c f l r filters section t s ≡ ok (s', l')
      → parent_filter c f l r section ≡ ok of_parent
      → Grown r (possible_parents c f l r section filters t of_parent) s.built s'.built
        × (any_all_filter filters ≡ false
            → (p : ℕ) → In p (possible_parents c f l r section filters t of_parent)
            → contains (specials c f l r s) p ≡ false
            → has_successor s'.built.graph p r ≡ true)
        × (any_all_filter filters ≡ true
            → (p : ℕ) → Passed c f l r p s
            → has_successor s'.built.graph p r ≡ has_successor s.built.graph p r)
        × ((p : ℕ) → Held p s → has_successor s'.built.graph p r ≡ has_successor s.built.graph p r)
  unfolding calculate_filter_dependencies
  calculate_filter_dependencies-Grown filters section t s s' l' of_parent others h parent =
      let (s1, each, rest) =
        >>=-eq-ok (for_each (visit_filtered c f l r (any_all_filter filters)) ps s) _
          (rw (others, parent) at h) in
      let (l1, frequency, last) =
        >>=-eq-ok (handle_frequency_interval_dependencies c r section t ps l) _ rest in
      loop (any_all_filter filters) (
        subst (λ x. for_each (visit_filtered c f l r (any_all_filter filters)) ps s ≡ ok x)
          (ok_first_same last) each)
    where
      ps : List ℕ
      ps = possible_parents c f l r section filters t of_parent

      loop :
          (b : Bool)
          → for_each (visit_filtered c f l r b) ps s ≡ ok s'
          → Grown r ps s.built s'.built
            × (b ≡ false
                → (p : ℕ) → In p ps
                → contains (specials c f l r s) p ≡ false
                → has_successor s'.built.graph p r ≡ true)
            × (b ≡ true
                → (p : ℕ) → Passed c f l r p s
                → has_successor s'.built.graph p r ≡ has_successor s.built.graph p r)
            × ((p : ℕ)
                → Held p s
                → has_successor s'.built.graph p r ≡ has_successor s.built.graph p r)
      loop b e = (
        visit_filtered-Grown c f l r b ps ps s s' (In-All ps) e,
        (λ no p m free.
            all_edges c f l r s ps s s' (unfold Explained in (λ x k. inl k))
              (subst (λ x. for_each (visit_filtered c f l r x) ps s ≡ ok s') no e) p m free),
        (λ yes p h.
            no_edge c f l r true p (Passed c f l r p)
              (λ q x y k st. Passed-kept c f l r p q x y k st)
              (λ x y k v. ap (λ (z : FilterState). z.built) (Passed-same c f l r p x y k v)) ps s s'
              h (subst (λ x. for_each (visit_filtered c f l r x) ps s ≡ ok s') yes e)),
        (λ p h.
            no_edge c f l r b p (Held p) (λ q x y k st. (st.more p k.0, k.1, k.2))
              (λ x y k v. Held-same b p x y k v) ps s s' h e),
      )
