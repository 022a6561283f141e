-- ===== src/JobList/Update/Special/Keeps.antt =====
-- The phase on special edges keeps all but the WAITING jobs.
use autosubmit.Prelude.{
  ℕ, ◌+◌, ◌≡◌, refl, sym, ap, ◌∙◌, subst, inl, inr, Bool, true, false, not, List, [], ◌∷◌, ◌++◌,
  All, ◌==◌, nat_eq, string_eq, option_eq, String, Result, ok, run_each, >>=-eq-ok, Bool-cases,
  if◌then◌else◌, length, arith,
}
use autosubmit.Job.Status.{status_eq}
use autosubmit.Job.Record.{Job}
use autosubmit.JobList.State.{JobList, job, status_of, modify}
use autosubmit.JobList.Update.Inputs.{Env}
use autosubmit.JobList.Update.Frame.{
  Frame, Frame-refl, Changes, modify-Frame, for_each-keeps, run_each-keeps, All-tt,
}
use autosubmit.JobList.Update.Sync.Keeps.{is_waiting, is_ready}
use autosubmit.JobList.Update.Special.{
  get_checkpoint_files, check_checkpoint, has_checkpoints, count_parents_status, visit_special,
  visit_target, check_special_status, release, update_special,
}

checkpoint-Changes : (there : ℕ → Bool) (j : Job) → Changes is_ready (get_checkpoint_files there) j
unfolding get_checkpoint_files
checkpoint-Changes there j = record {
  name_same = ground arith;
  section_same = ground arith;
  parents_same = ground arith;
  status_moved = inl (ground arith);
}

checkpoint_status : (there : ℕ → Bool) (j : Job) → (get_checkpoint_files there j).status ≡ j.status
unfolding get_checkpoint_files
checkpoint_status there j = ground arith

release-Changes : (j : Job) → Changes is_ready release j
unfolding release
release-Changes j = record {
  name_same = refl;
  section_same = refl;
  parents_same = refl;
  status_moved = inr (ground arith);
}

module _ (env : Env) (l0 : JobList) where
  check_checkpoint-Frame :
      (r : ℕ) (l : JobList)
      → Frame is_waiting is_ready l0 l
      → Frame is_waiting is_ready l0 (check_checkpoint env r l)
  unfolding check_checkpoint
  check_checkpoint-Frame r l h = elim (Bool-cases (env.connected (job l r).platform)) [
    | inl t ↦ rw t (
        modify-Frame is_waiting is_ready l0 l r (get_checkpoint_files (env.checkpoint_exists r)) h
          (inr (checkpoint_status (env.checkpoint_exists r) (job l r)))
          (checkpoint-Changes (env.checkpoint_exists r) (job l r)))
    | inr f ↦ rw f h
  ]

  checked-Frame :
      (b : Bool) (r : ℕ) (l : JobList)
      → Frame is_waiting is_ready l0 l
      → Frame is_waiting is_ready l0 (if b then check_checkpoint env r l else l)
  checked-Frame true r l h = check_checkpoint-Frame r l h
  checked-Frame false r l h = h

  abbrev Waits : ℕ → Type 0
  Waits r = is_waiting (status_of l0 r) ≡ true

  Found : JobList × List ℕ → Type 0
  Found s = Frame is_waiting is_ready l0 s.0 × All Waits s.1

  All-snoc : (rs : List ℕ) (r : ℕ) → All Waits rs → Waits r → All Waits (rs ++ (r ∷ []))
  All-snoc [] r h w = (w, tt)
  All-snoc (q ∷ rs) r h w = (h.0, All-snoc rs r h.1 w)

  waiting_then :
      (r : ℕ) (l : JobList)
      → Frame is_waiting is_ready l0 l
      → is_waiting (status_of l r) ≡ true
      → Waits r
  waiting_then r l h now = elim ((h.jobs r).status_moved) [
    | inl e ↦ ap is_waiting (sym e) ∙ now
    | inr m ↦ m.0
  ]

  collected :
      (b : Bool) (r : ℕ) (l : JobList) (found : List ℕ) (s' : JobList × List ℕ)
      → Frame is_waiting is_ready l0 l
      → All Waits found
      → Waits r
      → (if b then ok (l, found ++ (r ∷ [])) else ok (l, found)) ≡ ok s'
      → Found s'
  unfolding Found
  collected true r l found s' h ws w e =
      subst Found (let p : (l, found ++ (r ∷ [])) ≡ s' = cc in p) (h, All-snoc found r ws w)
  collected false r l found s' h ws w e = subst Found (let p : (l, found) ≡ s' = cc in p) (h, ws)

  visit_special-Found :
      (target : String) (r : ℕ)
      → Unit {0}
      → (s s' : JobList × List ℕ) → Found s
      → visit_special env target r s ≡ ok s'
      → Found s'
  unfolding Found visit_special
  visit_special-Found target r _ (l, found) s' (h, ws) e =
      elim (Bool-cases (is_waiting (status_of l r))) [
        | inr f ↦ subst Found (let p : (l, found) ≡ s' = same (rw f at e) in p) (h, ws)
        | inl t ↦
            let l1 = if has_checkpoints target then check_checkpoint env r l else l in
            let (c, e1, e2) =
              >>=-eq-ok (count_parents_status l1 (job l1 r) target) (next l1) {b = s'}
                (rw t at e) in
            collected (enough l1 c) r l1 found s' (checked-Frame (has_checkpoints target) r l h) ws
              (waiting_then r l h t) e2
      ]
    where
      same : ok (l, found) ≡ ok s' → (l, found) ≡ s'
      same p = cc

      enough : JobList → List ℕ × List ℕ → Bool
      enough l1 c = length c.0 + length c.1 == length (job l1 r).parents

      next : JobList → List ℕ × List ℕ → Result (JobList × List ℕ)
      next l1 c = if enough l1 c then ok (l1, found ++ (r ∷ [])) else ok (l1, found)

  visit_target-Found :
      (d : String × List ℕ)
      → Unit {0}
      → (s s' : JobList × List ℕ) → Found s
      → visit_target env d s ≡ ok s'
      → Found s'
  unfolding visit_target
  visit_target-Found (target, rs) _ s s' h e = elim (Bool-cases (target == "ALL")) [
    | inl t ↦ subst Found (same (rw t at e)) h
    | inr f ↦
        for_each-keeps Found (λ _. Unit {0}) (visit_special env target) (visit_special-Found target)
          rs (All-tt rs) s s' h (rw f at e)
  ]
    where
      same : ok s ≡ ok s' → s ≡ s'
      same p = cc

  check_special_status-Found :
      (s' : JobList × List ℕ) → check_special_status env l0 ≡ ok s' → Found s'
  unfolding check_special_status
  check_special_status-Found s' e =
      for_each-keeps Found (λ _. Unit {0}) (visit_target env) visit_target-Found l0.jobs_edges
        (All-tt l0.jobs_edges) (l0, []) s' (unfold Found in (Frame-refl is_waiting is_ready l0, tt))
        e

  -- The phase keeps the frame.
  pub update_special-Frame :
      (s' : JobList × Bool) → update_special env l0 ≡ ok s' → Frame is_waiting is_ready l0 s'.0
  unfolding update_special Found
  update_special-Frame s' e =
      let (found, e1, e2) =
        >>=-eq-ok (check_special_status env l0) (λ f. ok (result f)) {b = s'} e in
      let (h, ws) = check_special_status-Found found e1 in
      let p : result found ≡ s' = cc in
      subst (λ (s : JobList × Bool). Frame is_waiting is_ready l0 s.0) p
        (run_each-keeps (Frame is_waiting is_ready l0) Waits (λ r. modify r release)
          (λ r w l k.
            modify-Frame is_waiting is_ready l0 l r release k (inl w) (release-Changes (job l r)))
          found.1 ws found.0 h)
    where
      result : JobList × List ℕ → JobList × Bool
      result f = (run_each (λ r. modify r release) f.1 f.0, not (length f.1 == 0))
