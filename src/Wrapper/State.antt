-- ===== src/Wrapper/State.antt =====
-- The state of a wrapper and the answers of its platform.
use autosubmit.Prelude.{ℕ, ◌+◌, String, Bool, List, ◌∷◌, Map}
use autosubmit.Prelude.Int.{Text}
use autosubmit.Job.Status.{Status}
use autosubmit.Job.Record.{Job, Store}
use autosubmit.Job.Update.{Answers}
use autosubmit.JobList.State.{put}

-- What `check_completed_files` returns: `None`, the empty text, or a text, of which the code asks
-- whether it has the name of a job.
pub data Files : Type 0 where
  nothing empty : Files
  listing : (ℕ → Bool) → Files

-- A line of `inner_jobs_checker.sh` that is not blank: its first word, and the times after it.
pub record Line : Type 0 where
  pub name : String
  pub times : List ℕ

-- The platform. The first number counts the questions, so that answers may change with time.
pub record Remote : Type 0 where
  pub answers : Answers
  pub is_slurm : Bool
  pub queue_reason : ℕ → Text
  pub completed_files : ℕ → Files
  -- The output for the names that the script is made for.
  pub checker_output : ℕ → List String → List Line
  -- Whether `WRAPPER_FAILED`, or the file of a job with `_FAILED`, exists, and whether it is fetched.
  pub wrapper_failed : ℕ → Bool
  pub failed_file : ℕ → ℕ → Bool
  pub get_failed_file : ℕ → ℕ → Bool
  -- `_is_over_wallclock(start_time, job.wallclock)`
  pub is_over_wallclock : ℕ → ℕ → ℕ → Bool

-- What the code tells the platform to change.
pub data Command : Type 0 where
  cancel release delete_failed_mark : Command

pub record Wrapper : Type 0 where
  pub job_list : List ℕ
  pub status : Status
  pub prev_status : Status
  pub new_status : Status
  pub failed : Bool
  pub hold : Bool
  pub inner_jobs_running : List ℕ
  pub running_jobs_start : Map ℕ ℕ
  pub store : Store
  pub asked : ℕ
  pub sent : List Command

-- One more question was asked.
abbrev pub ask : Wrapper → Wrapper
ask w = record w { asked = w.asked + 1 }

abbrev pub send : Command → Wrapper → Wrapper
send c w = record w { sent = c ∷ w.sent }

abbrev pub set_wrapper_status : Status → Wrapper → Wrapper
set_wrapper_status st w = record w { status = st }

-- An assignment to a job of the wrapper.
unfoldable pub assign : ℕ → (Job → Job) → Wrapper → Wrapper
unfolding put
assign r f w = record w { store = put r f w.store }
