-- ===== src/Tests/Samples.antt =====
-- A small workflow: job 0 is COMPLETED, 1 waits for it, 2 runs, and 3 has failed once.
use autosubmit.Prelude.{
  ℕ, zero, suc, String, Bool, true, false, none, some, List, [], ◌∷◌, ◌≡◌, refl, Result, ok, err,
}
use autosubmit.Job.Status.{Status, waiting, running, completed, failed}
use autosubmit.Job.Record.{Job}
use autosubmit.JobList.State.{JobList}
use autosubmit.JobList.Update.Inputs.{SectionConf, Config, Env}

abbrev pub make_job : String → Status → List ℕ → ℕ → Job
make_job name status parents fail_count = record {
  name = name;
  section = "SIM";
  status = status;
  id = none;
  platform = "LOCAL";
  parents = parents;
  children = [];
  level = 0;
  fail_count = fail_count;
  retrials = 2;
  delay_retrials = b'0' ∷ [];
  retry_delay = none;
  delay_end = 0;
  hold = false;
  packed = false;
  wrapper_type = none;
  edge_info = [];
  dependencies = [];
  current_checkpoint_step = 0;
  max_checkpoint_step = 0;
  synchronize = none;
  skippable = false;
  running_kind = "once";
  date = none;
  date_format = "";
  member = none;
  chunk = none;
  ready_date = none;
  updated_log = false;
  new_status = waiting;
  is_python = false;
  total_jobs = 20;
  max_waiting_jobs = 20;
}

abbrev pub sample_store : ℕ → Job
sample_store zero = make_job "a000_INI" completed [] 0
sample_store (suc zero) = make_job "a000_SIM" waiting (0 ∷ []) 0
sample_store (suc (suc zero)) = make_job "a000_POST" running (0 ∷ []) 0
sample_store (suc (suc (suc zero))) = make_job "a000_CLEAN" failed (0 ∷ []) 1
sample_store _ = make_job "a000_OTHER" waiting [] 0

abbrev pub sample : JobList
sample = record {
  order = 0 ∷ 1 ∷ 2 ∷ 3 ∷ [];
  store = sample_store;
  jobs_edges = [];
  jobs_to_run_first = [];
  cancelled = [];
}

abbrev pub section : SectionConf
section = record { has_retrials = true; has_delay = false }

abbrev pub config : Config
config = record {
  jobs_data = λ s. some section;
  retrials = 0;
  delay_retry_time = b'5' ∷ [];
  in_wrapper_jobs = λ s. false;
  member_list = [];
}

abbrev pub env : Env
env = record {
  failed_now = λ r. 100;
  delayed_now = λ r. 100;
  ready_now = λ r. 100;
  date2str = λ d f. "";
  connected = λ p. false;
  checkpoint_exists = λ r step. false;
}

abbrev pub from_ok : {A : Type 0} → A → Result A → A
from_ok a (ok b) = b
from_ok a (err e) = a

abbrev pub is_ok : {A : Type 0} → Result A → Bool
is_ok (ok a) = true
is_ok (err e) = false

pub from_ok-is_ok : {A : Type 0} (a : A) (m : Result A) → is_ok m ≡ true → m ≡ ok (from_ok a m)
from_ok-is_ok a (ok b) h = refl
from_ok-is_ok a (err e) h = cc
