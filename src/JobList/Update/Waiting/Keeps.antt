-- ===== src/JobList/Update/Waiting/Keeps.antt =====
-- The phase on WAITING jobs keeps all but those, whatever the edges are.
use autosubmit.Prelude.{
  ℕ, ◌≡◌, refl, sym, subst, ◌⊎◌, inl, inr, Bool, true, false, not, List, [], ◌∷◌, All, filter,
  filter-All, ◌==◌, nat_eq, string_eq, option_eq, Bool-cases, if◌then◌else◌, length, arith,
}
use autosubmit.Job.Status.{status_eq, ready}
use autosubmit.Job.Record.{Job}
use autosubmit.JobList.State.{JobList, job, status_of}
use autosubmit.JobList.Update.Frame.{Frame, Frame-refl, Changes, modify-Frame}
use autosubmit.JobList.Update.Sync.Keeps.{is_waiting, is_ready}
use autosubmit.JobList.Update.Waiting.{
  is_done, parents_with, readied, is_optional, make_ready, single_parent, weak_parents,
  visit_waiting, visit_each, update_waiting,
}

readied-Changes : (j : Job) → Changes is_ready readied j
readied-Changes j = record {
  name_same = refl;
  section_same = refl;
  parents_same = refl;
  status_moved = inr (ground arith);
}

-- What one visit may do to the list.
MakesReady : ℕ → JobList → JobList → Type 0
MakesReady r l l' = (l' ≡ l) ⊎ (l' ≡ make_ready r l)

single_parent-MakesReady :
    (r : ℕ) (ps : List ℕ) (l : JobList) → MakesReady r l (single_parent r ps l)
unfolding MakesReady single_parent
single_parent-MakesReady r [] l = inl refl
single_parent-MakesReady r (p ∷ ps) l = elim (Bool-cases (is_optional l (job l r) p)) [
  | inl t ↦ inr (rw t)
  | inr f ↦ rw f (single_parent-MakesReady r ps l)
]

weak_parents-MakesReady : (r : ℕ) (l : JobList) → MakesReady r l (weak_parents r l).0
unfolding MakesReady weak_parents
weak_parents-MakesReady r l = ground (arith, single_parent-MakesReady r (job l r).parents l)

module _ (l0 : JobList) where
  ready-Frame :
      (r : ℕ) (l : JobList)
      → is_waiting (status_of l0 r) ≡ true
      → Frame is_waiting is_ready l0 l
      → Frame is_waiting is_ready l0 (make_ready r l)
  unfolding make_ready
  ready-Frame r l w h =
      modify-Frame is_waiting is_ready l0 l r readied h (inl w) (readied-Changes (job l r))

  MakesReady-Frame :
      (r : ℕ) (l l' : JobList)
      → is_waiting (status_of l0 r) ≡ true
      → Frame is_waiting is_ready l0 l
      → MakesReady r l l'
      → Frame is_waiting is_ready l0 l'
  unfolding MakesReady
  MakesReady-Frame r l l' w h m = elim m [
    | inl e ↦ subst (Frame is_waiting is_ready l0) (sym e) h
    | inr e ↦ subst (Frame is_waiting is_ready l0) (sym e) (ready-Frame r l w h)
  ]

  -- The list after the first test.
  first_test :
      (b : Bool) (r : ℕ) (l : JobList)
      → is_waiting (status_of l0 r) ≡ true
      → Frame is_waiting is_ready l0 l
      → Frame is_waiting is_ready l0 (if b then make_ready r l else l)
  first_test true r l w h = ready-Frame r l w h
  first_test false r l w h = h

  second_test :
      (b : Bool) (r : ℕ) (l : JobList)
      → is_waiting (status_of l0 r) ≡ true
      → Frame is_waiting is_ready l0 l
      → Frame is_waiting is_ready l0 (if b then weak_parents r l else (l, false)).0
  second_test true r l w h =
      MakesReady-Frame r l (weak_parents r l).0 w h (weak_parents-MakesReady r l)
  second_test false r l w h = h

  visit_waiting-Frame :
      (r : ℕ) (l : JobList)
      → is_waiting (status_of l0 r) ≡ true
      → Frame is_waiting is_ready l0 l
      → Frame is_waiting is_ready l0 (visit_waiting r l).0
  unfolding visit_waiting
  visit_waiting-Frame r l w h =
      let done = length (parents_with is_done l (job l r)) == length (job l r).parents in
      let l1 = if done then make_ready r l else l in
      second_test (not (status_of l1 r == ready)) r l1 w (first_test done r l w h)

  visit_each-Frame :
      (rs : List ℕ) (l : JobList)
      → All (λ r. is_waiting (status_of l0 r) ≡ true) rs
      → Frame is_waiting is_ready l0 l
      → Frame is_waiting is_ready l0 (visit_each rs l)
  unfolding visit_each
  visit_each-Frame [] l ws h = h
  visit_each-Frame (r ∷ rs) l ws h =
      let h1 = visit_waiting-Frame r l ws.0 h in
      elim (Bool-cases (visit_waiting r l).1) [
        | inl t ↦ rw t h1
        | inr f ↦ rw f (visit_each-Frame rs (visit_waiting r l).0 ws.1 h1)
      ]

  pub update_waiting-Frame : Frame is_waiting is_ready l0 (update_waiting l0)
  unfolding update_waiting
  update_waiting-Frame =
      visit_each-Frame (filter (λ r. is_waiting (status_of l0 r)) l0.order) l0
        (filter-All (λ r. is_waiting (status_of l0 r)) l0.order) (Frame-refl is_waiting is_ready l0)
