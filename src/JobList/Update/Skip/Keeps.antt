-- ===== src/JobList/Update/Skip/Keeps.antt =====
-- The phase on skippable jobs keeps all but the READY and the QUEUING ones.
use autosubmit.Prelude.{
  ℕ, ◌≡◌, sym, ap, ◌∙◌, subst, ◌⊎◌, inl, inr, Bool, true, false, ◌||◌, ◌&&◌, List, ◌==◌, nat_eq,
  string_eq, option_eq, String, Result, ok, for_each, ◌>>=◌, >>=-eq-ok, Bool-cases, if◌then◌else◌,
  ltb,
}
use autosubmit.Job.Status.{status_eq, ready, queuing, skipped}
use autosubmit.JobList.State.{JobList, job, status_of, set_status}
use autosubmit.JobList.Update.Inputs.{Config, Env}
use autosubmit.JobList.Update.Frame.{Statuses, Frame, Frame-refl, for_each-keeps, All-tt}
use autosubmit.JobList.Update.Sync.Keeps.{set_status-Frame}
use autosubmit.JobList.Update.Skip.{
  Saving, skip, chunk_lt, member_index, same_date, skip_by_chunk, skip_by_member, skip_job,
  skip_section, get_skippable_jobs, update_skippable,
}

abbrev pub is_startable : Statuses
is_startable s = s == ready || s == queuing

abbrev pub is_skipped : Statuses
is_skipped s = s == skipped

Skips : JobList → Saving → Type 0
Skips l0 s = Frame is_startable is_skipped l0 s.0

skip-Frame :
    (l0 : JobList) (r : ℕ)
    → is_startable (status_of l0 r) ≡ true
    → (s : Saving) → Skips l0 s
    → Skips l0 (skip r s)
unfolding Skips skip
skip-Frame l0 r w (l, save) h =
    let k : Frame is_startable is_skipped l0 (set_status r skipped l) =
      set_status-Frame is_startable skipped l0 l r h w in
    elim (Bool-cases (status_of l r == queuing)) [
      | inl t ↦ rw t (record { order_same = k.order_same; jobs = k.jobs })
      | inr f ↦ rw f k
    ]

Visits : ℕ → Saving → Saving → Type 0
Visits r s s' = (s' ≡ s) ⊎ (s' ≡ skip r s)

guarded :
    (r : ℕ) (s s' : Saving) (b : Bool) → (if b then ok (skip r s) else ok s) ≡ ok s' → Visits r s s'
unfolding Visits
guarded r s s' true e = inr (sym (let p : skip r s ≡ s' = cc in p))
guarded r s s' false e = inl (sym (let p : s ≡ s' = cc in p))

Visits-Frame :
    (l0 : JobList) (r : ℕ) (s s' : Saving)
    → is_startable (status_of l0 r) ≡ true
    → Skips l0 s
    → Visits r s s'
    → Skips l0 s'
unfolding Visits
Visits-Frame l0 r s s' w h v = elim v [
  | inl e ↦ subst (Skips l0) (sym e) h
  | inr e ↦ subst (Skips l0) (sym e) (skip-Frame l0 r w s h)
]

module _ (conf : Config) (env : Env) where
  skip_by_chunk-Visits : (r q : ℕ) (s s' : Saving) → skip_by_chunk env r q s ≡ ok s' → Visits r s s'
  unfolding skip_by_chunk
  skip_by_chunk-Visits r q (l, save) s' e =
      let test = λ (b : Bool).
        b && ((job l r).member == (job l q).member && same_date env (job l r) (job l q)) in
      let (b, e1, e2) =
        >>=-eq-ok (chunk_lt (job l r).chunk (job l q).chunk)
          (λ b. if test b then ok (skip r (l, save)) else ok (l, save)) {b = s'} e in
      guarded r (l, save) s' (test b) e2

  skip_by_member-Visits :
      (r q : ℕ) (s s' : Saving) → skip_by_member conf env r q s ≡ ok s' → Visits r s s'
  unfolding skip_by_member
  skip_by_member-Visits r q (l, save) s' e =
      let test = λ (i j : ℕ).
        ltb i j && ((job l r).chunk == (job l q).chunk && same_date env (job l r) (job l q)) in
      let next = λ (i j : ℕ). if test i j then ok (skip r (l, save)) else ok (l, save) in
      let second = member_index conf.member_list (job l q).member in
      let (i, e1, e2) =
        >>=-eq-ok (member_index conf.member_list (job l r).member) (λ i. second >>= next i) {b = s'}
          e in
      let (j, e3, e4) = >>=-eq-ok second (next i) e2 in guarded r (l, save) s' (test i j) e4

  module _ (l0 : JobList) where
    loop-Frame :
        (r : ℕ) (body : ℕ → Saving → Result Saving)
        → is_startable (status_of l0 r) ≡ true
        → ((q : ℕ) (s s' : Saving) → body q s ≡ ok s' → Visits r s s')
        → (qs : List ℕ) (s s' : Saving) → Skips l0 s
        → for_each body qs s ≡ ok s'
        → Skips l0 s'
    loop-Frame r body w v qs s s' =
        for_each-keeps (Skips l0) (λ _. Unit {0}) body
          (λ q _ t t' h e. Visits-Frame l0 r t t' w h (v q t t' e)) qs (All-tt qs) s s'

    -- A job that can be started now could be when the phase began.
    startable_then :
        (r : ℕ) (l : JobList)
        → Frame is_startable is_skipped l0 l
        → is_startable (status_of l r) ≡ true
        → is_startable (status_of l0 r) ≡ true
    startable_then r l h now = elim ((h.jobs r).status_moved) [
      | inl e ↦ ap is_startable (sym e) ∙ now
      | inr m ↦ m.0
    ]

    skip_job-Frame :
        (related : List ℕ) (r : ℕ)
        → Unit {0}
        → (s s' : Saving) → Skips l0 s
        → skip_job conf env related r s ≡ ok s'
        → Skips l0 s'
    unfolding skip_job Skips
    skip_job-Frame related r _ (l, save) s' h e = elim (Bool-cases (is_startable (status_of l r))) [
      | inr f ↦ unchanged (rw f at e)
      | inl t ↦ elim (Bool-cases ((job l r).running_kind == "chunk")) [
        | inl c ↦
            loop-Frame r (skip_by_chunk env r) (startable_then r l h t) (skip_by_chunk-Visits r)
              related (l, save) s' h (rw c at (rw t at e))
        | inr c ↦ elim (Bool-cases ((job l r).running_kind == "member")) [
          | inl m ↦
              loop-Frame r (skip_by_member conf env r) (startable_then r l h t)
                (skip_by_member-Visits r) related (l, save) s' h (rw m at (rw c at (rw t at e)))
          | inr m ↦ unchanged (rw m at (rw c at (rw t at e)))
        ]
      ]
    ]
      where
        unchanged : ok (l, save) ≡ ok s' → Skips l0 s'
        unchanged e = subst (Skips l0) (let p : (l, save) ≡ s' = cc in p) h

    -- The phase keeps the frame.
    pub update_skippable-Frame :
        (save : Bool) (s' : Saving)
        → update_skippable conf env (l0, save) ≡ ok s'
        → Frame is_startable is_skipped l0 s'.0
    unfolding update_skippable Skips
    update_skippable-Frame save s' e =
        for_each-keeps (Skips l0) (λ _. Unit {0}) (skip_section conf env) section
          (get_skippable_jobs conf l0) (All-tt (get_skippable_jobs conf l0)) (l0, save) s'
          (Frame-refl is_startable is_skipped l0) e
      where
        section :
            (d : String × List ℕ)
            → Unit {0}
            → (s s' : Saving) → Skips l0 s
            → skip_section conf env d s ≡ ok s'
            → Skips l0 s'
        section (k, jobs) _ s s' h e =
            unfold skip_section in
            for_each-keeps (Skips l0) (λ _. Unit {0}) (skip_job conf env jobs) (skip_job-Frame jobs)
              jobs (All-tt jobs) s s' h e
