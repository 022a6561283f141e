-- ===== src/JobList/Update/Inputs.antt =====
-- What `update_list` reads besides the job list: the configuration, the clock, the platforms, and
-- `date2str` of the `bscearth.utils` package.
use autosubmit.Prelude.{ℕ, String, Bool, Option, List}
use autosubmit.Prelude.Int.{Text}

-- One section of `as_conf.jobs_data`: is RETRIALS set, and is DELAY_RETRY_TIME set and not empty.
pub record SectionConf : Type 0 where
  pub has_retrials : Bool
  pub has_delay : Bool

pub record Config : Type 0 where
  -- `none` where the section has no entry (a KeyError).
  pub jobs_data : String → Option SectionConf
  pub retrials : ℕ
  pub delay_retry_time : Text
  -- `get_wrapper_jobs().find(section) != -1`
  pub in_wrapper_jobs : String → Bool
  pub member_list : List String

-- Each reading of the clock is a function of the job at which it is taken.
pub record Env : Type 0 where
  pub failed_now : ℕ → ℕ
  pub delayed_now : ℕ → ℕ
  pub ready_now : ℕ → ℕ
  pub date2str : Option ℕ → String → String
  pub connected : String → Bool
  -- Is the CHECKPOINT file of this step there, for this job.
  pub checkpoint_exists : ℕ → ℕ → Bool
