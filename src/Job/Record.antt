-- ===== src/Job/Record.antt =====
-- The job object: the attributes of class `Job` (autosubmit/job/job.py) that the modelled code reads
-- or writes. A job is named by its reference, a number; sets of jobs are lists of references.
use autosubmit.Prelude.{ℕ, String, Bool, Option, List}
use autosubmit.Prelude.Int.{Text}
use autosubmit.Job.Status.{Status}

-- One entry of `edge_info[status]`: the parent, and `FROM_STEP` where it is truthy.
pub record Edge : Type 0 where
  pub parent : ℕ
  pub from_step : Option ℕ

-- A dictionary keyed by strings, in the order of insertion.
abbrev pub Dict : Type 0 → Type 0
Dict V = List (String × V)

pub record Job : Type 0 where
  pub name : String
  pub section : String
  pub status : Status
  pub id : Option ℕ
  pub platform : String
  pub parents : List ℕ
  pub children : List ℕ
  pub level : ℕ
  pub fail_count : ℕ
  pub retrials : ℕ
  pub delay_retrials : Text
  pub retry_delay : Option Text
  pub delay_end : ℕ
  pub hold : Bool
  pub packed : Bool
  pub wrapper_type : Option String
  pub edge_info : Dict (Dict Edge)
  pub dependencies : List String
  pub current_checkpoint_step : ℕ
  pub max_checkpoint_step : ℕ
  pub synchronize : Option String
  pub skippable : Bool
  pub running_kind : String
  pub date : Option ℕ
  pub date_format : String
  pub member : Option String
  pub chunk : Option ℕ
  pub ready_date : Option ℕ
  pub updated_log : Bool
  pub new_status : Status
  -- `type in [Language.PYTHON3, Language.PYTHON, Language.PYTHON2]`
  pub is_python : Bool
  pub total_jobs : ℕ
  pub max_waiting_jobs : ℕ

-- The objects behind the references.
abbrev pub Store : Type 0
Store = ℕ → Job
