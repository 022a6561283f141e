-- ===== src/JobList/Getters.antt =====
-- The getters of `JobList` that select jobs by their status (autosubmit/job/job_list.py).
-- A platform is given by its name, and `none` is Python's `None`: all platforms.
use autosubmit.Prelude.{
  ℕ, String, Bool, true, false, not, ◌&&◌, ◌||◌, Option, none, some, List, [], ◌++◌, ◌==◌, nat_eq,
  string_eq, filter, length, if◌then◌else◌, Result, ok, err, critical,
}
use autosubmit.Job.Status.{
  Status, status_eq, waiting, ready, submitted, queuing, running, completed, held, prepared, failed,
  delayed, unknown,
}
use autosubmit.Job.Record.{Job}
use autosubmit.JobList.State.{JobList, job}

-- `platform is None or job.platform.name == platform.name`
abbrev pub on_platform : Option String → Job → Bool
on_platform none j = true
on_platform (some p) j = j.platform == p

-- `[job for job in jobs if job.packed is False]` where `wrapper` is set.
abbrev pub unpacked : Bool → JobList → List ℕ → List ℕ
unpacked wrapper l found = if wrapper then filter (λ r. not (job l r).packed) found else found

abbrev pub select : (Job → Bool) → Option String → Bool → JobList → List ℕ
select p platform wrapper l =
    unpacked wrapper l (filter (λ r. on_platform platform (job l r) && p (job l r)) l.order)

abbrev pub has_status : Status → Job → Bool
has_status s j = j.status == s

unfoldable pub get_completed : Option String → Bool → JobList → List ℕ
unfolding status_eq string_eq
get_completed = select (has_status completed)

unfoldable pub get_completed_failed_without_logs : JobList → List ℕ
unfolding status_eq
get_completed_failed_without_logs l =
    filter
      (λ r.
        ((job l r).status == completed || (job l r).status == failed) && not (job l r).updated_log)
      l.order

unfoldable pub get_uncompleted : Option String → Bool → JobList → List ℕ
unfolding status_eq string_eq
get_uncompleted = select (λ j. not (j.status == completed))

unfoldable pub get_submitted : Option String → Bool → Bool → JobList → List ℕ
unfolding status_eq string_eq
get_submitted platform hold wrapper =
    if hold
    then select (λ j. (j.status == submitted) && j.hold) platform wrapper
    else select (has_status submitted) platform wrapper

unfoldable pub get_running : Option String → Bool → JobList → List ℕ
unfolding status_eq string_eq
get_running = select (has_status running)

unfoldable pub get_queuing : Option String → Bool → JobList → List ℕ
unfolding status_eq string_eq
get_queuing = select (has_status queuing)

unfoldable pub get_failed : Option String → Bool → JobList → List ℕ
unfolding status_eq string_eq
get_failed = select (has_status failed)

unfoldable pub get_unsubmitted : Option String → Bool → JobList → List ℕ
unfolding status_eq string_eq
get_unsubmitted =
    select
      (λ j. not (j.status == submitted) && (not (j.status == queuing) && not (j.status == running)))

unfoldable pub get_all : Option String → Bool → JobList → List ℕ
get_all platform wrapper l = unpacked wrapper l l.order

abbrev pub platform_matches : Option String → Job → Bool
platform_matches none j = true
platform_matches (some p) j = p == "" || j.platform == p

abbrev pub hold_is : Bool → Bool → Bool
hold_is true hold = hold
hold_is false hold = not hold

-- A platform that is the empty string selects all, as `None` does.
unfoldable pub get_ready : Option String → Bool → Bool → JobList → List ℕ
unfolding status_eq string_eq
get_ready platform hold wrapper l = unpacked wrapper l (
    filter
      (λ r.
        (platform_matches platform (job l r) && (job l r).status == ready)
        && hold_is (job l r).hold hold)
      l.order)

unfoldable pub get_prepared : Option String → JobList → List ℕ
unfolding status_eq string_eq
get_prepared platform = select (has_status prepared) platform false

unfoldable pub get_delayed : Option String → JobList → List ℕ
unfolding status_eq string_eq
get_delayed platform = select (has_status delayed) platform false

unfoldable pub get_waiting : Option String → Bool → JobList → List ℕ
unfolding status_eq string_eq
get_waiting = select (has_status waiting)

unfoldable pub get_held_jobs : Option String → JobList → List ℕ
unfolding status_eq string_eq
get_held_jobs platform = select (has_status held) platform false

unfoldable pub get_unknown : Option String → Bool → JobList → List ℕ
unfolding status_eq string_eq
get_unknown = select (has_status unknown)

unfoldable pub get_in_queue : Option String → Bool → JobList → List ℕ
unfolding get_submitted get_running get_queuing get_unknown get_held_jobs
get_in_queue platform wrapper l = unpacked wrapper l (
    get_submitted platform false false l
    ++ (get_running platform false l
        ++ (get_queuing platform false l
            ++ (get_unknown platform false l ++ get_held_jobs platform l))))

-- Jobs on hold that are not in a state in which a hold is lifted.
abbrev pub only_held : Job → Bool
only_held j = j.hold && not (j.status == submitted || (j.status == ready || j.status == delayed))

unfoldable pub get_active : Option String → Bool → JobList → Result (List ℕ)
unfolding get_in_queue get_ready get_delayed
get_active platform wrapper l =
    let active =
      get_in_queue platform false l
      ++ (get_ready platform true false l
          ++ (get_ready platform false false l ++ get_delayed platform l)) in
    let tmp = filter (λ r. only_held (job l r)) active in
    if length tmp == length active
    then if not (length tmp == 0) && not (length active == 0) then err critical else ok []
    else ok active
