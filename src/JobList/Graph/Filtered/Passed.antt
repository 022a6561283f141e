-- ===== src/JobList/Graph/Filtered/Passed.antt =====
-- Which parents of `_calculate_filter_dependencies` (autosubmit/job/job_list.py) an "all" filter leaves
-- out.
use autosubmit.Prelude.{
  option_eq, ℕ, ◌≡◌, refl, sym, ◌∙◌, ◌⊎◌, inl, inr, Bool, true, false, ◌||◌, nat_eq, Bool-cases,
  if◌then◌else◌, contains, string_eq, ◌==◌, some, ok, ok_same, >>=-eq-ok, arith,
}
use autosubmit.JobList.State.{JobList, job}
use autosubmit.JobList.Distance.{get_before}
use autosubmit.JobList.Graph.Context.{Context}
use autosubmit.JobList.Graph.Filtered.{
  Filtering, FilterState, is_inner_chunk, is_other_chunk, is_passed_over, take_parent,
  visit_filtered,
}
use autosubmit.JobList.Graph.Filtered.Steps.{Step}

module _ (c : Context) (f : Filtering) (l : JobList) (r : ℕ) where
  -- A chunk that is not the last one, of a section that depends on itself.
  abbrev pub Inner : ℕ → Type 0
  Inner p =
      (((job l p).running_kind == "chunk") ≡ true)
      × ((last : ℕ) × (get_before c.chunk_list 0 1 ≡ ok last)
          × (((job l p).chunk == some last) ≡ false))
      × (contains (c.dependency_map (job l p).section) (job l p).section ≡ true)

  -- A parent that the filter "all" leaves out, and goes on to leave out.
  abbrev pub Passed : ℕ → FilterState → Type 0
  Passed p s =
      (c.depends_on_previous_chunk ≡ true)
      ⊎ ((s.depends_on_special_chunk ≡ true)
          ⊎ ((contains s.special_dependencies p ≡ true) ⊎ Inner p))

  Inner-is_inner_chunk : (p : ℕ) → Inner p → is_inner_chunk c f l r p ≡ ok true
  unfolding is_inner_chunk
  Inner-is_inner_chunk p (kind, (last, found, other), own) = rw (kind, found, other, own) refl

  Passed-over :
      (p : ℕ) (s : FilterState) (over : Bool)
      → Passed p s
      → is_passed_over c f l r s p ≡ ok over
      → over ≡ true
  unfolding is_passed_over
  Passed-over p s over h e =
      elim (Bool-cases (is_other_chunk (job l p).chunk (f.previous_chunk (job l p).section))) [
        | inl t ↦ sym (ok_same (rw t at e))
        | inr n ↦
            let (inner, i, last) = >>=-eq-ok (is_inner_chunk c f l r p) _ (rw n at e) in
            sym (ok_same last) ∙ left_out inner i
      ]
    where
      left_out :
          (inner : Bool)
          → is_inner_chunk c f l r p ≡ ok inner
          → (inner
              || (c.depends_on_previous_chunk
                  || (s.depends_on_special_chunk || contains s.special_dependencies p)))
            ≡ true
      left_out inner i = elim h [
        | inl a ↦ ground (arith, a)
        | inr h2 ↦ elim h2 [
          | inl b ↦ ground (arith, b)
          | inr h3 ↦ elim h3 [
            | inl d ↦ ground (arith, d)
            | inr at_p ↦
                let same : inner ≡ true = ok_same (sym i ∙ Inner-is_inner_chunk p at_p) in
                rw same refl
          ]
        ]
      ]

  pub Passed-same :
      (p : ℕ) (s s' : FilterState) → Passed p s → visit_filtered c f l r true p s ≡ ok s' → s' ≡ s
  unfolding visit_filtered
  Passed-same p s s' h e =
      let (over, asked, rest) = >>=-eq-ok (is_passed_over c f l r s p) _ e in
      passed over (Passed-over p s over h asked) rest
    where
      passed :
          (over : Bool)
          → over ≡ true
          → (if over then ok s else take_parent c f l r p s) ≡ ok s'
          → s' ≡ s
      passed true t e = sym (ok_same e)
      passed false t e = absurd (cc)

  pub Passed-kept :
      (p q : ℕ) (s s' : FilterState) → Passed p s → (Step c f l r) q s s' → Passed p s'
  Passed-kept p q s s' h st = elim h [
    | inl a ↦ inl a
    | inr h2 ↦ elim h2 [
      | inl b ↦ inr (inl (st.flag b))
      | inr h3 ↦ elim h3 [ inl d ↦ inr (inr (inl (st.kept p d))) | inr i ↦ inr (inr (inr i)) ]
    ]
  ]
