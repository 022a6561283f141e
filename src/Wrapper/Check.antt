-- ===== src/Wrapper/Check.antt =====
-- `_check_running_jobs`, `check_inner_jobs_completed`, `update_failed_jobs`,
-- `cancel_failed_wrapper_job`, `_check_inner_jobs_queue` and `check_status`.
use autosubmit.Prelude.{
  ℕ, String, Bool, true, false, not, ◌&&◌, List, [], ◌∷◌, ◌++◌, ◌==◌, nat_eq, string_eq, list_eq,
  contains, if◌then◌else◌, map, filter, Result, ok, ◌>>=◌, run_each, for_each, Map,
}
use autosubmit.Prelude.Int.{Text}
use autosubmit.Job.Status.{
  Status, ready, submitted, queuing, running, completed, failed, waiting, held, unknown, status_eq,
}
use autosubmit.Job.Record.{Job}
use autosubmit.Wrapper.Reason.{codes, queuing_reason_cancel}
use autosubmit.Wrapper.State.{
  Files, listing, Remote, Wrapper, cancel, release, delete_failed_mark, ask, send,
  set_wrapper_status, assign,
}
use autosubmit.Wrapper.Running.{
  update_job, drop_key, forget_start, check_finished_job, is_finished, is_runnable, by_name,
  read_lines, is_vertical,
}

-- What the answer of the script says. Its output is a list of lines, never the empty text, so the
-- loop `while content == '' and retries > 0` runs once, and `retries` is 4 after it.
unfoldable pub read_output : Remote → Map String ℕ → Wrapper → Result Wrapper
unfolding read_lines
read_output p [] w = ok w
read_output p (n ∷ names) w = do
  (over, w1) ←
      read_lines p (n ∷ names)
        (p.checker_output w.asked (map (λ (x : String × ℕ). x.0) (n ∷ names))) false (ask w)
  ok (if over then set_wrapper_status failed w1 else w1)

unfoldable pub check_running_jobs : Remote → Wrapper → Result Wrapper
unfolding is_runnable by_name read_output
check_running_jobs p w =
    let rs = filter (is_runnable w) w.job_list in
    read_output p (by_name w.store rs []) (record w { inner_jobs_running = rs })

abbrev pub in_listing : Files → ℕ → Bool
in_listing (listing has) r = has r
in_listing _ r = false

abbrev pub is_not_completed : Wrapper → ℕ → Bool
is_not_completed w r = not ((w.store r).status == completed)

unfoldable pub complete : Remote → ℕ → Wrapper → Wrapper
unfolding assign update_job
complete p r w =
    update_job p false r
      (assign r (λ j. record j { new_status = completed; updated_log = false }) w)

-- `check_inner_jobs_completed`. The jobs that are left are visited in the order of the list, where the
-- source takes that of a set.
unfoldable pub check_inner_jobs_completed : Remote → List ℕ → Wrapper → Result Wrapper
unfolding complete drop_key check_finished_job status_eq
check_inner_jobs_completed p jobs w =
    let rs = filter (is_not_completed w) jobs in
    let files = p.completed_files w.asked in
    let w1 = run_each (complete p) (filter (in_listing files) rs) (ask w) in
    let w2 = run_each forget_start (filter (in_listing files) rs) w1 in
    for_each (check_finished_job p false) (filter (λ r. not (in_listing files r)) rs) w2

-- `job in real_running`: the list is a deep copy, of new objects, and jobs are compared by identity.
abbrev pub is_in_copy : ℕ → List ℕ → Bool
is_in_copy r copied = false

-- The body of the loop of `update_failed_jobs`.
unfoldable pub update_failed_job : Remote → List ℕ → ℕ → Wrapper → Result Wrapper
unfolding check_finished_job
update_failed_job p real_running r w =
    if p.failed_file w.asked r
    then (if p.get_failed_file w.asked r then check_finished_job p true r (ask w) else ok (ask w))
    else if is_in_copy r real_running
    then ok (record (ask w) { inner_jobs_running = w.inner_jobs_running ++ (r ∷ []) })
    else ok (ask w)

abbrev pub is_ready : Wrapper → ℕ → Bool
is_ready w r = contains (ready ∷ submitted ∷ queuing ∷ []) (w.store r).status

unfoldable pub update_failed_jobs : Remote → Bool → Wrapper → Result Wrapper
unfolding update_failed_job status_eq
update_failed_jobs p check_ready_jobs w =
    for_each (update_failed_job p w.inner_jobs_running)
      (if check_ready_jobs
        then w.inner_jobs_running ++ filter (is_ready w) w.job_list
        else w.inner_jobs_running)
      (record w { inner_jobs_running = [] })

abbrev pub fail_job : Job → Job
fail_job j = record j { status = failed }

-- The last loop of `cancel_failed_wrapper_job`, for one job.
unfoldable pub let_go : Job → Job
unfolding status_eq string_eq
let_go j =
    if not (is_finished j.status)
    then record j { status = waiting }
    else if is_vertical j
    then record j { fail_count = j.retrials }
    else j

unfoldable pub cancel_failed_wrapper_job : Remote → Wrapper → Result Wrapper
unfolding check_running_jobs assign let_go
cancel_failed_wrapper_job p w = do
  w1 ← check_running_jobs p (send cancel w)
  let w2 = run_each (λ r. assign r fail_job) w1.inner_jobs_running w1
  ok (run_each (λ r. assign r let_go) w2.job_list w2)

-- `self.hold == "false"`: the attribute is a bool, which no text equals.
abbrev pub is_text_false : Bool → Bool
is_text_false hold = false

unfoldable pub release_job : Remote → ℕ → Wrapper → Wrapper
unfolding assign update_job
release_job p r w =
    update_job p false r (assign r (λ j. record j { hold = w.hold; new_status = queuing }) w)

unfoldable pub held_by_user : Remote → Wrapper → Wrapper
unfolding release_job
held_by_user p w =
    if is_text_false w.hold
    then run_each (release_job p) w.job_list (record (send release w) { new_status = queuing })
    else set_wrapper_status held w

-- What a reason of the queue that is not one to cancel for does.
unfoldable pub follow_reason : Remote → Text → Wrapper → Wrapper
unfolding held_by_user codes nat_eq list_eq
follow_reason p reason w =
    if reason == codes "(JobHeldUser)"
    then held_by_user p w
    else if reason == codes "(JobHeldAdmin)"
    then set_wrapper_status waiting (send cancel w)
    else w

-- The jobs take the status of the wrapper, if it has changed.
unfoldable pub follow_wrapper : Status → Wrapper → Wrapper
unfolding assign status_eq
follow_wrapper prev_status w =
    if prev_status == w.status
    then w
    else run_each (λ r. assign r (λ j. record j { hold = w.hold; status = w.status })) w.job_list w

unfoldable pub cancel_queued : Remote → Wrapper → Result Wrapper
unfolding check_running_jobs update_failed_jobs cancel_failed_wrapper_job
cancel_queued p w = do
  w1 ← check_running_jobs p w
  w2 ← update_failed_jobs p true w1
  cancel_failed_wrapper_job p w2

unfoldable pub check_inner_jobs_queue : Remote → Status → Wrapper → Result Wrapper
unfolding queuing_reason_cancel cancel_queued follow_reason follow_wrapper
check_inner_jobs_queue p prev_status w =
    if p.is_slurm
    then (if queuing_reason_cancel (p.queue_reason w.asked)
        then cancel_queued p (ask w)
        else ok (follow_wrapper prev_status (follow_reason p (p.queue_reason w.asked) (ask w))))
    else ok (follow_wrapper prev_status w)

-- The loop over the running jobs that looks for one that has failed.
unfoldable pub find_failed : Remote → List ℕ → Wrapper → Wrapper
find_failed p [] w = w
find_failed p (r ∷ rs) w =
    let rest = find_failed p rs (ask w) in
    if p.failed_file w.asked r
    then record (send delete_failed_mark (ask w)) { failed = true }
    else rest

unfoldable pub look_for_failed : Remote → Wrapper → Wrapper
unfolding find_failed
look_for_failed p w =
    if w.failed
    then w
    else if p.wrapper_failed w.asked
    then find_failed p w.inner_jobs_running (ask w)
    else ask w

abbrev pub is_empty : List ℕ → Bool
is_empty [] = true
is_empty (r ∷ rs) = false

-- What a FAILED wrapper does next, by its previous status.
unfoldable pub after_failure : Remote → Wrapper → Result Wrapper
unfolding update_failed_jobs check_running_jobs status_eq
after_failure p w =
    if contains (submitted ∷ queuing ∷ []) w.prev_status
    then update_failed_jobs p true w
    else if contains (failed ∷ unknown ∷ []) w.prev_status
    then check_running_jobs p (record w { failed = true })
    else ok w

-- The jobs that still run are asked for, and the wrapper is cancelled once none is left.
unfoldable pub cancel_if_over : Remote → Wrapper → Result Wrapper
unfolding look_for_failed update_failed_jobs cancel_failed_wrapper_job
cancel_if_over p w = if is_empty w.inner_jobs_running then cancel_failed_wrapper_job p w else (do
  let w1 = look_for_failed p w
  w2 ← if w1.failed then update_failed_jobs p false w1 else ok w1
  if w2.failed && is_empty w2.inner_jobs_running then cancel_failed_wrapper_job p w2 else ok w2)

unfoldable pub check_failed : Remote → Wrapper → Result Wrapper
unfolding after_failure cancel_if_over status_eq
check_failed p w =
    if contains (failed ∷ unknown ∷ []) w.status
    then (after_failure p (set_wrapper_status failed w) >>= cancel_if_over p)
    else ok w

-- The branches on the new status.
unfoldable pub check_inner_jobs : Remote → Wrapper → Result Wrapper
unfolding check_inner_jobs_queue check_running_jobs check_inner_jobs_completed assign status_eq
check_inner_jobs p w =
    if contains (held ∷ queuing ∷ []) w.status
    then check_inner_jobs_queue p w.prev_status w
    else if w.status == running
    then check_running_jobs p (
        if w.prev_status == submitted
        then run_each (λ r. assign r (λ j. record j { status = queuing })) w.job_list w
        else w)
    else if w.status == completed
    then (check_running_jobs p w >>= λ w1. check_inner_jobs_completed p w1.job_list w1)
    else ok w

unfoldable pub check_status : Remote → Status → Wrapper → Result Wrapper
unfolding check_inner_jobs check_failed
check_status p status w = do
  w1 ← check_inner_jobs p (record w { prev_status = w.status; status = status })
  check_failed p w1
