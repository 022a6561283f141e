-- ===== src/Wrapper/Returns.antt =====
-- The checks return: each keeps the jobs and the mark of a wrapper, and a FAILED one stays FAILED.
use autosubmit.Prelude.{
  ℕ, ◌+◌, ◌≡◌, ◌≢◌, refl, ◌∙◌, inl, inr, String, Bool, true, false, not, ◌&&◌, List, [], ◌∷◌, some,
  ◌==◌, nat_eq, string_eq, contains, if◌then◌else◌, Bool-cases, Option-cases, map, filter, All,
  Result, ok, for_each, Map, get_key, get_key-set_key, arith,
}
use autosubmit.Job.Status.{completed, failed, status_eq}
use autosubmit.Job.Record.{Job}
use autosubmit.Wrapper.State.{
  Files, nothing, empty, listing, Line, Remote, Wrapper, ask, set_wrapper_status, assign,
}
use autosubmit.Wrapper.Running.{
  update_job, set_new_status, ask_twice, is_empty_text, has_output, finish, check_finished_job,
  note_start, check_inner_job_wallclock, fail_if_over, read_times, read_line, read_lines,
  is_vertical, is_runnable,
}
use autosubmit.Wrapper.Check.{
  read_output, check_running_jobs, update_failed_job, update_failed_jobs,
}

-- What the checks of inner jobs leave alone.
pub record Same (w v : Wrapper) : Type 0 where
  pub job_list : v.job_list ≡ w.job_list
  pub failed_mark : v.failed ≡ w.failed
  pub running : v.inner_jobs_running ≡ w.inner_jobs_running
  pub stays_failed : w.status ≡ failed → v.status ≡ failed

pub Same-refl : (w : Wrapper) → Same w w
Same-refl w = record { job_list = refl; failed_mark = refl; running = refl; stays_failed = λ h. h }

-- Where the four fields are the same.
pub keep :
    (w v : Wrapper)
    → v.job_list ≡ w.job_list
    → v.failed ≡ w.failed
    → v.inner_jobs_running ≡ w.inner_jobs_running
    → v.status ≡ w.status
    → Same w v
keep w v a b c d = record { job_list = a; failed_mark = b; running = c; stays_failed = λ h. d ∙ h }

pub ask-Same : (w : Wrapper) → Same w (ask w)
ask-Same w = keep _ _ refl refl refl refl

pub Same-trans : (u v w : Wrapper) → Same u v → Same v w → Same u w
Same-trans u v w a b = record {
  job_list = b.job_list ∙ a.job_list;
  failed_mark = b.failed_mark ∙ a.failed_mark;
  running = b.running ∙ a.running;
  stays_failed = λ h. b.stays_failed (a.stays_failed h);
}

-- The call returns a wrapper that is the same in this sense.
abbrev pub Returns : Wrapper → Result Wrapper → Type 0
Returns w m = (v : Wrapper) × (m ≡ ok v) × Same w v

abbrev pub ReturnsPair : Wrapper → Result (Bool × Wrapper) → Type 0
ReturnsPair w m = (b : Bool) × (v : Wrapper) × (m ≡ ok (b, v)) × Same w v

pub for_each-Returns :
    (body : ℕ → Wrapper → Result Wrapper)
    → ((r : ℕ) (w : Wrapper) → Returns w (body r w))
    → (rs : List ℕ) (w : Wrapper) → Returns w (for_each body rs w)
for_each-Returns body each [] w = (w, refl, Same-refl w)
for_each-Returns body each (r ∷ rs) w =
    let (v, e, a) = each r w in
    let (u, f, b) = for_each-Returns body each rs v in (u, rw e f, Same-trans w v u a b)

assign-Same : (r : ℕ) (f : Job → Job) (w : Wrapper) → Same w (assign r f w)
unfolding assign
assign-Same r f w = keep _ _ refl refl refl refl

update_job-Same : (p : Remote) (b : Bool) (r : ℕ) (w : Wrapper) → Same w (update_job p b r w)
unfolding update_job
update_job-Same p b r w = keep _ _ refl refl refl refl

finish-Same :
    (p : Remote) (b : Bool) (r : ℕ) (f : Job → Job) (w : Wrapper)
    → Same w (finish p b r (assign r f w))
unfolding finish assign update_job
finish-Same p b r f w = keep _ _ refl refl refl refl

finish_only-Same : (p : Remote) (b : Bool) (r : ℕ) (w : Wrapper) → Same w (finish p b r w)
unfolding finish assign update_job
finish_only-Same p b r w = keep _ _ refl refl refl refl

get_key_found :
    (m : Map String ℕ) (k : String)
    → contains (map (λ (x : String × ℕ). x.0) m) k ≡ true
    → (r : ℕ) × (get_key k m ≡ some r)
unfolding get_key
get_key_found [] k h = absurd (cc)
get_key_found ((j, r) ∷ m) k h = elim (Bool-cases (k == j)) [
  | inl same ↦ (r, rw same refl)
  | inr other ↦ let (q, e) = get_key_found m k (rw other at h) in (q, rw other e)
]

-- Every line of an output names a job that the script was made for.
abbrev pub IsHonest : Remote → Type 0
IsHonest p =
    (n : ℕ) (names : List String)
    → All (λ (line : Line). contains names line.name ≡ true) (p.checker_output n names)

module _ (p : Remote) (answering : (n : ℕ) → p.completed_files n ≢ nothing) where
  has_output_lem : (f : Files) → f ≢ nothing → (b : Bool) × (has_output f ≡ ok b)
  unfolding has_output
  has_output_lem nothing h = absurd (h refl)
  has_output_lem empty h = (false, refl)
  has_output_lem (listing has) h = (true, refl)

  ask_twice_lem : (w : Wrapper) → ((ask_twice p w).0 ≢ nothing) × Same w (ask_twice p w).1
  unfolding ask_twice
  ask_twice_lem w = elim (Bool-cases (is_empty_text (p.completed_files w.asked))) [
    | inl t ↦ rw t (answering (w.asked + 1), (keep _ _ refl refl refl refl))
    | inr f ↦ rw f (answering w.asked, (keep _ _ refl refl refl refl))
  ]

  check_finished_job-Returns :
      (b : Bool) (r : ℕ) (w : Wrapper) → Returns w (check_finished_job p b r w)
  unfolding check_finished_job
  check_finished_job-Returns true r w = (_, refl, finish-Same p true r (set_new_status failed) w)
  check_finished_job-Returns false r w =
      let w0 : Wrapper = assign r (set_new_status failed) w in
      let (some_answer, same) = ask_twice_lem w0 in
      let (found, e) = has_output_lem (ask_twice p w0).0 some_answer in
      let w1 : Wrapper = (ask_twice p w0).1 in
      let before : Same w w1 = Same-trans w w0 w1 (assign-Same r (set_new_status failed) w) same in
      elim found
          as (λ b.
            has_output (ask_twice p w0).0 ≡ ok b → Returns w (check_finished_job p false r w)) [
              | true ↦ λ h. (
                _,
                rw h refl,
                Same-trans w w1 _ before (finish-Same p false r (set_new_status completed) w1),
              )
              | false ↦ λ h. (_, rw h refl, Same-trans w w1 _ before (finish_only-Same p true r w1))
            ]
        e

  note_start-Same : (r time : ℕ) (w : Wrapper) → Same w (note_start p r time w)
  unfolding note_start assign update_job
  note_start-Same r time w = elim (Option-cases (get_key r w.running_jobs_start)) [
    | inl e ↦ rw (e, note_start) (keep _ _ refl refl refl refl)
    | inr (t, e) ↦ rw (e, note_start) (Same-refl w)
  ]

  -- A job whose start was noted has a start time.
  note_start-started :
      (r time : ℕ) (w : Wrapper)
      → (t : ℕ) × (get_key r (note_start p r time w).running_jobs_start ≡ some t)
  unfolding note_start assign update_job get_key
  note_start-started r time w = elim (Option-cases (get_key r w.running_jobs_start)) [
    | inl e ↦
        (time, rw (e, note_start) (ground (arith, get_key-set_key r r time w.running_jobs_start)))
    | inr (t, e) ↦ (t, rw (e, note_start) e)
  ]

  check_inner_job_wallclock_lem :
      (r time : ℕ) (w : Wrapper)
      → (b : Bool) × (check_inner_job_wallclock p r (note_start p r time w) ≡ ok b)
  unfolding check_inner_job_wallclock
  check_inner_job_wallclock_lem r time w =
      let (t, e) = note_start-started r time w in
      (
        p.is_over_wallclock (note_start p r time w).asked t r,
        rw (e, check_inner_job_wallclock) refl,
      )

  fail_if_over-Same : (b : Bool) (r : ℕ) (w : Wrapper) → Same w (ask (fail_if_over b r w))
  unfolding fail_if_over assign
  fail_if_over-Same b r w = elim (Bool-cases (b && not (is_vertical (w.store r)))) [
    | inl t ↦ rw (t, fail_if_over) (keep _ _ refl refl refl refl)
    | inr f ↦ rw (f, fail_if_over) (keep _ _ refl refl refl refl)
  ]

  read_times-Returns :
      (r : ℕ) (times : List ℕ) (over : Bool) (w : Wrapper)
      → ReturnsPair w (read_times p r times over w)
  unfolding read_times
  read_times-Returns r [] over w = (over, w, refl, Same-refl w)
  read_times-Returns r (t ∷ []) over w =
      let (b, e) = check_inner_job_wallclock_lem r t w in
      (
        b,
        _,
        rw e refl,
        Same-trans w (note_start p r t w) _ (note_start-Same r t w)
            (fail_if_over-Same b r (note_start p r t w)),
      )
  read_times-Returns r (t ∷ (u ∷ [])) over w =
      let (v, e, same) = check_finished_job-Returns false r (note_start p r t w) in
      (over, v, rw e refl, Same-trans w (note_start p r t w) v (note_start-Same r t w) same)
  read_times-Returns r (t ∷ (u ∷ (x ∷ ts))) over w =
      (over, note_start p r t w, refl, note_start-Same r t w)

  read_line-Returns :
      (names : Map String ℕ) (line : Line) (over : Bool) (w : Wrapper)
      → contains (map (λ (x : String × ℕ). x.0) names) line.name ≡ true
      → ReturnsPair w (read_line p names line over w)
  unfolding read_line get_key
  read_line-Returns names line over w h =
      let (r, e) = get_key_found names line.name h in
      rw (e, read_line) (read_times-Returns r line.times over w)

  read_lines-Returns :
      (names : Map String ℕ) (lines : List Line) (over : Bool) (w : Wrapper)
      → All (λ (line : Line). contains (map (λ (x : String × ℕ). x.0) names) line.name ≡ true) lines
      → ReturnsPair w (read_lines p names lines over w)
  unfolding read_lines
  read_lines-Returns names [] over w h = (over, w, refl, Same-refl w)
  read_lines-Returns names (line ∷ lines) over w h =
      let (b, v, e, first) = read_line-Returns names line over w h.0 in
      let (c, u, f, rest) = read_lines-Returns names lines b v h.1 in
      (c, u, rw e f, Same-trans w v u first rest)

  over-Same : (over : Bool) (w : Wrapper) → Same w (if over then set_wrapper_status failed w else w)
  over-Same true w = record {
    job_list = refl;
    failed_mark = refl;
    running = refl;
    stays_failed = λ h. refl;
  }
  over-Same false w = Same-refl w

  module _ (honest : IsHonest p) where
    read_output-Returns : (names : Map String ℕ) (w : Wrapper) → Returns w (read_output p names w)
    unfolding read_output
    read_output-Returns [] w = (w, refl, Same-refl w)
    read_output-Returns (n ∷ names) w =
        let (over, v, e, same) =
          read_lines-Returns (n ∷ names) (p.checker_output w.asked _) false (ask w)
            (honest w.asked (map (λ (x : String × ℕ). x.0) (n ∷ names))) in
        (
          _,
          rw e refl,
          Same-trans w v _ (Same-trans w (ask w) v (ask-Same w) same) (over-Same over v),
        )

    pub check_running_jobs-Returns :
        (w : Wrapper)
        → Returns
            (record w { inner_jobs_running = filter (is_runnable w) w.job_list })
            (check_running_jobs p w)
    unfolding check_running_jobs
    check_running_jobs-Returns w = read_output-Returns _ _

  update_failed_job-Returns :
      (copied : List ℕ) (r : ℕ) (w : Wrapper) → Returns w (update_failed_job p copied r w)
  unfolding update_failed_job
  update_failed_job-Returns copied r w = elim (Bool-cases (p.failed_file w.asked r)) [
    | inr absent ↦ rw (absent, update_failed_job) (ask w, refl, ask-Same w)
    | inl there ↦ elim (Bool-cases (p.get_failed_file w.asked r)) [
      | inr lost ↦ rw (there, lost, update_failed_job) (ask w, refl, ask-Same w)
      | inl fetched ↦
          let (v, e, same) = check_finished_job-Returns true r (ask w) in
          rw (there, fetched, update_failed_job) (v, e, Same-trans w (ask w) v (ask-Same w) same)
    ]
  ]

  pub update_failed_jobs-Returns :
      (b : Bool) (w : Wrapper)
      → Returns (record w { inner_jobs_running = [] }) (update_failed_jobs p b w)
  unfolding update_failed_jobs
  update_failed_jobs-Returns b w =
      for_each-Returns (update_failed_job p w.inner_jobs_running)
        (update_failed_job-Returns w.inner_jobs_running) _ _
