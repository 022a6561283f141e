-- ===== src/Wrapper/Running.antt =====
-- The checks of the inner jobs: `_check_finished_job`, `_check_running_jobs`,
-- `check_inner_jobs_completed`, `update_failed_jobs` and `cancel_failed_wrapper_job`.
use autosubmit.Prelude.{
  ℕ, ◌+◌, String, Bool, true, false, not, ◌&&◌, ◌||◌, none, some, List, [], ◌∷◌, ◌==◌, nat_eq,
  string_eq, contains, if◌then◌else◌, all, Result, ok, err, key_error, type_error, ◌>>=◌, Map,
  get_key, set_key,
}
use autosubmit.Job.Status.{Status, running, completed, failed, status_eq}
use autosubmit.Job.Record.{Job, Store}
use autosubmit.Job.Update.{update_status}
use autosubmit.Wrapper.State.{Files, nothing, empty, listing, Line, Remote, Wrapper, ask, assign}

-- `job.update_status(as_config, failed_file)`
unfoldable pub update_job : Remote → Bool → ℕ → Wrapper → Wrapper
unfolding update_status
update_job p failed_file r w =
    let (store, asked) = update_status p.answers failed_file r (w.store, w.asked) in
    record w { store = store; asked = asked }

-- `d.pop(key, None)`
unfoldable pub drop_key : ℕ → Map ℕ ℕ → Map ℕ ℕ
unfolding nat_eq
drop_key k [] = []
drop_key k ((j, v) ∷ m) = if k == j then m else (j, v) ∷ drop_key k m

abbrev pub forget_start : ℕ → Wrapper → Wrapper
forget_start r w = record w { running_jobs_start = drop_key r w.running_jobs_start }

abbrev pub set_new_status : Status → Job → Job
set_new_status st j = record j { new_status = st }

abbrev pub is_empty_text : Files → Bool
is_empty_text empty = true
is_empty_text _ = false

-- The loop with `retries = 2`: a second question is asked where the first answer is empty.
unfoldable pub ask_twice : Remote → Wrapper → Files × Wrapper
ask_twice p w =
    if is_empty_text (p.completed_files w.asked)
    then (p.completed_files (w.asked + 1), ask (ask w))
    else (p.completed_files w.asked, ask w)

-- `'COMPLETED' in None` is a TypeError.
unfoldable pub has_output : Files → Result Bool
has_output nothing = err type_error
has_output empty = ok false
has_output (listing has) = ok true

-- `_check_finished_job` with what is known of the file; the last lines are common to both cases.
unfoldable pub finish : Remote → Bool → ℕ → Wrapper → Wrapper
unfolding update_job drop_key
finish p failed_file r w = forget_start r (update_job p failed_file r w)

unfoldable pub check_finished_job : Remote → Bool → ℕ → Wrapper → Result Wrapper
unfolding ask_twice has_output finish assign
check_finished_job p true r w = ok (finish p true r (assign r (set_new_status failed) w))
check_finished_job p false r w = do
  let (output, w1) = ask_twice p (assign r (set_new_status failed) w)
  found ← has_output output
  ok (
      if found
      then finish p false r (assign r (set_new_status completed) w1)
      else finish p true r w1)

abbrev pub is_finished : Status → Bool
is_finished st = contains (completed ∷ failed ∷ []) st

-- The jobs that can be running: all parents are COMPLETED, or the wrapper is.
unfoldable pub is_runnable : Wrapper → ℕ → Bool
unfolding status_eq
is_runnable w r =
    not (is_finished (w.store r).status)
    && all (λ q. (w.store q).status == completed || w.status == completed) (w.store r).parents

-- `not_finished_jobs_dict`
unfoldable pub by_name : Store → List ℕ → Map String ℕ → Map String ℕ
unfolding set_key string_eq
by_name s [] m = m
by_name s (r ∷ rs) m = by_name s rs (set_key (s r).name r m)

-- The first line with a start time: the job is RUNNING.
unfoldable pub note_start : Remote → ℕ → ℕ → Wrapper → Wrapper
unfolding get_key set_key assign update_job nat_eq
note_start p r time w = elim (get_key r w.running_jobs_start) [
  | some t ↦ w
  | none ↦ update_job p false r (
      assign r (set_new_status running)
        (record w { running_jobs_start = set_key r time w.running_jobs_start }))
]

-- `_check_inner_job_wallclock`; the job has a start time here.
unfoldable pub check_inner_job_wallclock : Remote → ℕ → Wrapper → Result Bool
unfolding get_key nat_eq
check_inner_job_wallclock p r w = elim (get_key r w.running_jobs_start) [
  | none ↦ err key_error
  | some t ↦ ok (p.is_over_wallclock w.asked t r)
]

abbrev pub is_vertical : Job → Bool
is_vertical j = elim j.wrapper_type [ none ↦ false | some t ↦ t == "vertical" ]

unfoldable pub fail_if_over : Bool → ℕ → Wrapper → Wrapper
unfolding assign string_eq
fail_if_over over r w =
    if over && not (is_vertical (w.store r))
    then assign r (λ j. record j { status = failed }) w
    else w

-- The times of a line: one is the start, a second one the end. `over` is the flag of the loop.
unfoldable pub read_times : Remote → ℕ → List ℕ → Bool → Wrapper → Result (Bool × Wrapper)
unfolding note_start check_inner_job_wallclock fail_if_over check_finished_job
read_times p r [] over w = ok (over, w)
read_times p r (t ∷ []) over w = do
  let w1 = note_start p r t w
  now_over ← check_inner_job_wallclock p r w1
  ok (now_over, ask (fail_if_over now_over r w1))
read_times p r (t ∷ (u ∷ [])) over w = do
  w1 ← check_finished_job p false r (note_start p r t w)
  ok (over, w1)
read_times p r (t ∷ (u ∷ (v ∷ ts))) over w = ok (over, note_start p r t w)

unfoldable pub read_line : Remote → Map String ℕ → Line → Bool → Wrapper → Result (Bool × Wrapper)
unfolding get_key read_times string_eq
read_line p names line over w = elim (get_key line.name names) [
  | none ↦ err key_error
  | some r ↦ read_times p r line.times over w
]

unfoldable pub read_lines :
    Remote → Map String ℕ → List Line → Bool → Wrapper → Result (Bool × Wrapper)
unfolding read_line
read_lines p names [] over w = ok (over, w)
read_lines p names (line ∷ lines) over w = do
  let rest = read_lines p names lines
  (over1, w1) ← read_line p names line over w
  rest over1 w1
