-- ===== src/SubJobs.antt =====
-- `SubJob` and `SubJobManager` of autosubmit/job/job_utils.py: the queue times of jobs in wrappers.
-- Times are seconds, natural numbers. A job is the number of its object.
pub mod Walk
pub mod Drained
pub mod Order
pub mod Lowered
pub mod Structured
pub mod Corrected
use autosubmit.Prelude.{
  ℕ, String, Bool, Option, List, [], Map, set_key, get_key, ◌==◌, nat_eq, string_eq, if◌then◌else◌,
  run_each, Result, ok, err, key_error, none, some,
}

pub record SubJob : Type 0 where
  pub name : String
  pub package_name : Option String
  pub queue : ℕ
  pub run : ℕ
  pub total : ℕ
  pub transit : ℕ
  pub parents : List String
  pub children : List String

pub record SubJobManager : Type 0 where
  -- `subjobList`, and the objects.
  pub subjobs : List ℕ
  pub at : ℕ → SubJob
  pub has_job_to_package : Bool
  pub package_to_jobs : Map String (List String)
  -- `current_structure`, where `None` is the empty dictionary.
  pub current_structure : Map String (List String)
  pub subjobindex : Map String ℕ
  pub subjobfixes : Map String ℕ

unfoldable pub change_subjob : ℕ → (SubJob → SubJob) → SubJobManager → SubJobManager
unfolding nat_eq
change_subjob r f m = record m { at = λ q. if q == r then f (m.at q) else m.at q }

-- `d[name]`
unfoldable pub find_name : String → Map String ℕ → Result ℕ
unfolding get_key string_eq
find_name name d = elim (get_key name d) [ none ↦ err key_error | some r ↦ ok r ]

-- A dictionary from the names to the objects: of two with one name the last.
unfoldable pub index_names : SubJobManager → List ℕ → Map String ℕ
unfolding set_key string_eq
index_names m rs = run_each (λ r d. set_key (m.at r).name r d) rs []

unfoldable pub process_index : SubJobManager → SubJobManager
unfolding set_key string_eq
process_index m = record m {
  subjobindex = run_each (λ r d. set_key (m.at r).name r d) m.subjobs m.subjobindex;
}
