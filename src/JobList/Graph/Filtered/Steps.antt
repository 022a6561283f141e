-- ===== src/JobList/Graph/Filtered/Steps.antt =====
-- What one parent of `_calculate_filter_dependencies` (autosubmit/job/job_list.py) changes.
use autosubmit.Prelude.{
  option_eq, ℕ, ◌≡◌, refl, sym, ap, ◌∙◌, subst, ◌⊎◌, inl, inr, Bool, true, false, ◌||◌, List, [],
  ◌∷◌, ◌++◌, nat_eq, Bool-cases, if◌then◌else◌, contains, string_eq, ◌==◌, ==-eq, ==_self, get_key,
  get_key-set_key, some, ok, ok_same, >>=-eq-ok, arith,
}
use autosubmit.JobList.State.{JobList, job}
use autosubmit.JobList.Graph.{has_successor}
use autosubmit.JobList.Graph.Context.{Context}
use autosubmit.JobList.Graph.Natural.{add_edge}
use autosubmit.JobList.Graph.Natural.Edges.{has_successor-add_edge}
use autosubmit.JobList.Graph.Filtered.Edges.{note_split-built}
use autosubmit.JobList.Graph.Filtered.{
  Filtering, FilterState, add_name, add_names, or_none, is_passed_over, note_split, takes_edge,
  note_special, add_filtered, mark_special, take_parent, visit_filtered,
}

contains-append_one :
    (xs : List ℕ) (x q : ℕ) → contains (xs ++ (x ∷ [])) q ≡ (contains xs q || (q == x))
contains-append_one [] x q = ground arith
contains-append_one (y ∷ xs) x q = ground (arith, contains-append_one xs x q)

contains-add_name :
    (xs : List ℕ) (x q : ℕ) → contains (add_name x xs) q ≡ (contains xs q || (q == x))
unfolding add_name
contains-add_name xs x q = elim (Bool-cases (contains xs x)) [
  | inl e ↦ rw e (elim (Bool-cases (q == x)) [
    | inl t ↦
        rw t (subst (λ z. contains xs z ≡ (contains xs z || true)) (sym (==-eq q x t)) (rw e refl))
    | inr n ↦ rw n (ground arith)
  ])
  | inr e ↦ rw e (contains-append_one xs x q)
]

contains-add_names :
    (ys xs : List ℕ) (q : ℕ) → contains xs q ≡ true → contains (add_names ys xs) q ≡ true
unfolding add_names
contains-add_names [] xs q h = h
contains-add_names (y ∷ ys) xs q h =
    contains-add_names ys (add_name y xs) q (contains-add_name xs y q ∙ ground (arith, h))

module _ (c : Context) (f : Filtering) (l : JobList) (r : ℕ) where
  -- `self.depends_on_previous_special_section[job.section]`
  abbrev pub specials : FilterState → List ℕ
  specials s = or_none (get_key (job l r).section s.special_of_section)

  -- What a parent changes of the notes on special parents.
  pub record Step (p : ℕ) (s s' : FilterState) : Type 0 where
    pub more : (x : ℕ) → contains (specials s) x ≡ true → contains (specials s') x ≡ true
    pub only :
        (x : ℕ)
        → contains (specials s') x ≡ true
        → (contains (specials s) x ≡ true) ⊎ ((x ≡ p) × (has_successor s'.built.graph p r ≡ true))
    pub kept :
        (x : ℕ)
        → contains s.special_dependencies x ≡ true
        → contains s'.special_dependencies x ≡ true
    pub flag : s.depends_on_special_chunk ≡ true → s'.depends_on_special_chunk ≡ true

  note_split-same :
      (p : ℕ) (s s' : FilterState)
      → note_split c f l r p s ≡ ok s'
      → (s'.special_of_section ≡ s.special_of_section)
        × (s'.special_dependencies ≡ s.special_dependencies)
        × (s'.depends_on_special_chunk ≡ s.depends_on_special_chunk)
  unfolding note_split
  note_split-same p s s' h = (ground (arith, h), ground (arith, h), ground (arith, h))

  pub mark_special-same :
      (p : ℕ) (s : FilterState)
      → ((mark_special c f l r p s).special_of_section ≡ s.special_of_section)
        × ((mark_special c f l r p s).special_dependencies ≡ s.special_dependencies)
        × (s.depends_on_special_chunk ≡ true
            → (mark_special c f l r p s).depends_on_special_chunk ≡ true)
  unfolding mark_special
  mark_special-same p s = (ground arith, ground arith, ground arith)

  Step-before :
      (p : ℕ) (s w s' : FilterState)
      → w.special_of_section ≡ s.special_of_section
      → w.special_dependencies ≡ s.special_dependencies
      → (s.depends_on_special_chunk ≡ true → w.depends_on_special_chunk ≡ true)
      → Step p w s'
      → Step p s s'
  Step-before p s w s' e1 e2 e3 st = record {
    more = λ x h. st.more x (same x ∙ h);
    only = λ x h. elim (st.only x h) [ inl t ↦ inl (sym (same x) ∙ t) | inr n ↦ inr n ];
    kept = λ x h. st.kept x (ap (λ xs. contains xs x) e2 ∙ h);
    flag = λ h. st.flag (e3 h);
  }
    where
      same : (x : ℕ) → contains (specials w) x ≡ contains (specials s) x
      same x = ap (λ m. contains (or_none (get_key (job l r).section m)) x) e1

  specials-note_special :
      (p : ℕ) (s : FilterState) → specials (note_special c f l r p s) ≡ add_name p (specials s)
  unfolding note_special
  specials-note_special p s = ap or_none (
      get_key-set_key (job l r).section (job l r).section (add_name p (specials s))
        s.special_of_section
      ∙ by_self (==_self (job l r).section))
    where
      by_self :
          ((job l r).section == (job l r).section) ≡ true
          → (if (job l r).section == (job l r).section
              then some (add_name p (specials s))
              else get_key (job l r).section s.special_of_section)
            ≡ some (add_name p (specials s))
      by_self t = rw t refl

  pub add_filtered-edge :
      (p : ℕ) (s : FilterState) → has_successor (add_filtered c f l r p s).built.graph p r ≡ true
  unfolding add_filtered note_special
  add_filtered-edge p s =
      elim (Bool-cases (contains f.dependencies_keys_without_special_chars (job l r).section)) [
        | inl t ↦ rw t (has_successor-add_edge p r s.built p r ∙ ground arith)
        | inr n ↦ rw n (has_successor-add_edge p r s.built p r ∙ ground arith)
      ]

  add_filtered-Step : (p : ℕ) (s : FilterState) → Step p s (add_filtered c f l r p s)
  unfolding add_filtered
  add_filtered-Step p s =
      elim (Bool-cases (contains f.dependencies_keys_without_special_chars (job l r).section)) [
        | inl t ↦ rw t (
            Step-before p s (record s { built = add_edge p r s.built }) _ refl refl (λ h. h)
              (noted (record s { built = add_edge p r s.built })
                (has_successor-add_edge p r s.built p r ∙ ground arith)))
        | inr n ↦
            rw n (record { more = λ x h. h; only = λ x h. inl h; kept = λ x h. h; flag = λ h. h })
      ]
    where
      noted :
          (w : FilterState)
          → has_successor w.built.graph p r ≡ true
          → Step p w (note_special c f l r p w)
      noted w edge = record {
        more = λ x h.
            ap (λ xs. contains xs x) (specials-note_special p w)
            ∙ contains-add_name (specials w) p x
            ∙ ground (arith, h);
        only = λ x h. fresh x (
            sym (
              ap (λ xs. contains xs x) (specials-note_special p w)
              ∙ contains-add_name (specials w) p x)
            ∙ h);
        kept = λ x h.
            unfold note_special in
            contains-add_names (or_none (get_key p w.special_of_job)) w.special_dependencies x h;
        flag = λ h. unfold note_special in h;
      }
        where
          fresh :
              (x : ℕ)
              → (contains (specials w) x || (x == p)) ≡ true
              → (contains (specials w) x ≡ true)
                ⊎ ((x ≡ p) × (has_successor (note_special c f l r p w).built.graph p r ≡ true))
          fresh x h = elim (Bool-cases (contains (specials w) x)) [
            | inl t ↦ inl t
            | inr n ↦ inr (ground (arith, h, n), unfold note_special in edge)
          ]

  -- The state before the edge is added, and what is decided on it.
  pub record Decided (p : ℕ) (s s' : FilterState) : Type 0 where
    pub asked : FilterState
    pub added : Bool
    pub same_sections : asked.special_of_section ≡ s.special_of_section
    pub same_dependencies : asked.special_dependencies ≡ s.special_dependencies
    pub same_flag : asked.depends_on_special_chunk ≡ s.depends_on_special_chunk
    pub same_built : asked.built ≡ s.built
    pub answer : takes_edge c f l r p asked ≡ ok added
    pub after : s' ≡ (
        if added
        then add_filtered c f l r p (mark_special c f l r p asked)
        else mark_special c f l r p asked)

  pub take_parent-Decided :
      (p : ℕ) (s s' : FilterState) → take_parent c f l r p s ≡ ok s' → Decided p s s'
  unfolding take_parent
  take_parent-Decided p s s' h =
      let same = (job l p).section == (job l r).section in
      let (s1, first, rest) = >>=-eq-ok (if same then note_split c f l r p s else ok s) _ h in
      let (added, asked, last) = >>=-eq-ok (takes_edge c f l r p s1) _ rest in
      let (e1, e2, e3, e4) = noted same s1 first in
      record {
        asked = s1;
        added = added;
        same_sections = e1;
        same_dependencies = e2;
        same_flag = e3;
        same_built = e4;
        answer = asked;
        after = sym (ok_same last);
      }
    where
      noted :
          (same : Bool) (s1 : FilterState)
          → (if same then note_split c f l r p s else ok s) ≡ ok s1
          → (s1.special_of_section ≡ s.special_of_section)
            × (s1.special_dependencies ≡ s.special_dependencies)
            × (s1.depends_on_special_chunk ≡ s.depends_on_special_chunk)
            × (s1.built ≡ s.built)
      noted true s1 e =
          let (e1, e2, e3) = note_split-same p s s1 e in
          (e1, e2, e3, note_split-built c f l r p s s1 e)
      noted false s1 e =
          subst
            (λ (x : FilterState).
              (x.special_of_section ≡ s.special_of_section)
              × (x.special_dependencies ≡ s.special_dependencies)
              × (x.depends_on_special_chunk ≡ s.depends_on_special_chunk)
              × (x.built ≡ s.built))
            (ok_same e) (refl, refl, refl, refl)

  Step-refl : (p : ℕ) (s : FilterState) → Step p s s
  Step-refl p s = record { more = λ x h. h; only = λ x h. inl h; kept = λ x h. h; flag = λ h. h }

  take_parent-Step : (p : ℕ) (s s' : FilterState) → take_parent c f l r p s ≡ ok s' → Step p s s'
  take_parent-Step p s s' h =
      let d = take_parent-Decided p s s' h in
      let (m1, m2, m3) = mark_special-same p d.asked in
      Step-before p s (mark_special c f l r p d.asked) s' (m1 ∙ d.same_sections)
        (m2 ∙ d.same_dependencies) (λ t. m3 (d.same_flag ∙ t))
        (subst (Step p (mark_special c f l r p d.asked)) (sym d.after)
          (by_answer d.added (mark_special c f l r p d.asked)))
    where
      by_answer :
          (added : Bool) (w : FilterState)
          → Step p w (if added then add_filtered c f l r p w else w)
      by_answer true w = add_filtered-Step p w
      by_answer false w = Step-refl p w

  pub visit_filtered-Step :
      (b : Bool) (p : ℕ) (s s' : FilterState) → visit_filtered c f l r b p s ≡ ok s' → Step p s s'
  unfolding visit_filtered
  visit_filtered-Step b p s s' h =
      let (over, asked, rest) =
        >>=-eq-ok (if b then is_passed_over c f l r s p else ok false) _ h in
      passed over rest
    where
      passed :
          (over : Bool) → (if over then ok s else take_parent c f l r p s) ≡ ok s' → Step p s s'
      passed true e = subst (Step p s) (ok_same e) (Step-refl p s)
      passed false e = take_parent-Step p s s' e
