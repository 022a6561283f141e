-- ===== src/JobList/Graph/Natural.antt =====
-- `_calculate_natural_dependencies` of class `JobList` (autosubmit/job/job_list.py): the edges from the
-- parents that a dependency without filters means.
pub mod Edges
use autosubmit.Prelude.{
  ℕ, zero, suc, ◌+◌, ◌-◌, ◌%◌, String, Bool, true, false, not, ◌&&◌, ◌||◌, Option, none, some, List,
  [], ◌∷◌, ◌++◌, ◌==◌, nat_eq, string_eq, option_eq, contains, any, filter, length, ltb, leb,
  if◌then◌else◌, Result, ok, err, type_error, index_error, ◌>>=◌, for_each, run_each,
}
use autosubmit.Prelude.Int.{ℤ, pos, sub_ℕ}
use autosubmit.Job.Record.{Job}
use autosubmit.JobList.State.{JobList, job}
use autosubmit.JobList.Distance.{index_of, get_before}
use autosubmit.JobList.Links.{add_to_parents, add_child}
use autosubmit.JobList.Graph.{Graph, has_successor}
use autosubmit.JobList.Graph.Context.{Key, plain, far, Context, SectionDependency, Coordinates}
use autosubmit.JobList.Graph.Frequency.{handle_frequency_interval_dependencies}

-- The graph, and the names in `problematic_dependencies`.
pub record GraphState : Type 0 where
  pub graph : Graph
  pub problematic : List ℕ

-- `graph.add_edge(p, r)`
unfoldable pub add_edge : ℕ → ℕ → GraphState → GraphState
unfolding has_successor
add_edge p r s = record s {
  graph = if has_successor s.graph p r then s.graph else s.graph ++ ((p, r) ∷ []);
}

-- `problematic_dependencies.add(p); graph.add_edge(p, r)`
unfoldable pub add_problematic : ℕ → ℕ → GraphState → GraphState
unfolding add_edge nat_eq
add_problematic p r s = add_edge p r (record s {
  problematic = if contains s.problematic p then s.problematic else s.problematic ++ (p ∷ []);
})

abbrev chunk_of : Option ℕ → Option ℤ
chunk_of none = none
chunk_of (some n) = some (pos n)

abbrev no_chunk : Option ℕ → Bool
no_chunk none = true
no_chunk (some zero) = true
no_chunk (some (suc n)) = false

abbrev no_member : Option String → Bool
no_member none = true
no_member (some m) = m == ""

abbrev no_date : Option ℕ → Bool
no_date none = true
no_date (some d) = false

-- `x > n - k` for a chunk, which must be there.
abbrev is_late : Option ℕ → ℕ → ℕ → Result Bool
is_late none n k = err type_error
is_late (some x) n k = ok (ltb n (x + k))

-- `len(self.graph.pred[job.name]) != 0`
unfoldable pub has_parent : ℕ → Graph → Bool
unfolding nat_eq
has_parent r g = any (λ (a, b). b == r) g

module _ (c : Context) (l : JobList) (r : ℕ) where
  -- `[parent for parent in dic_jobs.get_jobs(...) if parent.name != job.name]`
  others : String → Option ℕ → Option String → Option ℤ → List ℕ
  unfolding nat_eq
  others section date member chunk =
      filter (λ p. not (p == r)) (c.find_jobs section date member chunk)

  unfoldable pub natural_parents :
      SectionDependency → String → List String → Coordinates → Result (List ℕ)
  unfolding others get_before string_eq
  natural_parents dep key of_that_section t =
      if not (key == (job l r).section)
        && (no_date t.date && (no_member t.member && no_chunk t.chunk))
      then if contains of_that_section key && c.running key == "chunk"
        then (get_before c.chunk_list 0 1 >>= λ last.
            ok (others dep.section t.date t.member (some (pos last))))
        else if contains of_that_section key && c.running key == "member"
        then (get_before c.member_list 0 1 >>= λ last.
            ok (others dep.section t.date (some last) (chunk_of t.chunk)))
        else ok (others dep.section t.date t.member (chunk_of t.chunk))
      else ok (others dep.section t.date t.member (chunk_of t.chunk))

  -- The section of the parent has filters, and depends on the section of the job.
  unfoldable pub is_mutual : SectionDependency → ℕ → Bool
  unfolding string_eq
  is_mutual dep p =
      dep.has_relationships && contains (c.dependencies (job l p).section) (job l r).section

  -- The distances in the keys of another section: one of them reaches the largest distance.
  unfoldable pub reaches : ℕ → List Key → Bool
  unfolding string_eq
  reaches distance [] = false
  reaches distance (plain s ∷ ks) = leb c.max_distance distance || reaches distance ks
  reaches distance (far s n ∷ ks) =
      let d = if (job l r).section == s then n else distance in leb c.max_distance d || reaches d ks

  unfoldable pub is_covered : Bool
  unfolding reaches string_eq
  is_covered =
      any (λ aux. reaches 0 (c.dependency_map_with_distances aux))
        (filter (λ aux. not (aux == (job l r).section)) (c.dependency_map (job l r).section))

  -- A parent of a section without a distance.
  unfoldable pub near_parent : ℕ → GraphState → GraphState
  unfolding add_edge string_eq option_eq nat_eq
  near_parent p s =
      let j = job l r in
      let q = job l p in
      let previous = c.depends_on_previous_chunk in
      let special = c.depends_on_special_chunk in
      let unmapped = not (contains (c.dependency_map j.section) q.section) in
      if j.section == q.section
      then if not previous && unmapped then add_edge p r s else s
      else if special && not previous
      then if unmapped && q.running_kind == j.running_kind then add_edge p r s else s
      else if not previous
      then add_edge p r s
      else if not special
          && ((j.running_kind == "chunk" && j.chunk == some 1)
              || ((j.running_kind == "member" && q.running_kind == "member")
                  || (j.running_kind == "chunk" && q.running_kind == "chunk")))
      then add_edge p r s
      else s

  -- A parent of a section with a distance.
  unfoldable pub far_parent : ℕ → GraphState → Result GraphState
  unfolding add_edge add_problematic is_covered string_eq
  far_parent p s =
      let j = job l r in
      let q = job l p in
      let late = is_late q.chunk (length c.chunk_list) c.max_distance in
      if j.section == q.section
      then if c.depends_on_previous_chunk && not is_covered
        then if j.running_kind == "chunk"
          then (late >>= λ _. ok (add_problematic p r s))
          else ok (add_problematic p r s)
        else ok s
      else let s' = if j.running_kind == q.running_kind then add_problematic p r s else s in
        if q.running_kind == "chunk"
        then (late >>= λ b. ok (if b then add_edge p r s' else s'))
        else ok s'

  -- The body of the loop over the natural parents.
  unfoldable pub visit_parent : SectionDependency → ℕ → GraphState → Result GraphState
  unfolding near_parent far_parent is_mutual nat_eq
  visit_parent dep p s =
      if contains c.special_dependencies p
      then ok s
      else if is_mutual dep p
      then ok s
      else if c.distance dep.section == 0
      then ok (near_parent p s)
      else far_parent p s

  -- The body of the last loop, for a job without parents.
  unfoldable pub rescue_parent : SectionDependency → ℕ → GraphState → GraphState
  unfolding add_problematic is_mutual
  rescue_parent dep p s = if is_mutual dep p then s else add_problematic p r s

  unfoldable pub connect : SectionDependency → List ℕ → GraphState → GraphState
  unfolding has_parent rescue_parent
  connect dep parents s = if has_parent r s.graph then s else run_each (rescue_parent dep) parents s

  unfoldable pub calculate_natural_dependencies :
      SectionDependency
      → String
      → List String
      → Coordinates
      → GraphState
      → Result (GraphState × JobList)
  unfolding natural_parents visit_parent handle_frequency_interval_dependencies connect
  calculate_natural_dependencies dep key of_that_section t s = do
    parents ← natural_parents dep key of_that_section t
    s' ← for_each (visit_parent dep) parents s
    l' ← handle_frequency_interval_dependencies c r dep.section t parents l
    ok (connect dep parents s', l')
