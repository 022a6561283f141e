-- ===== src/JobList/Graph/Context.antt =====
-- What `_calculate_natural_dependencies` and `handle_frequency_interval_dependencies` of class
-- `JobList` (autosubmit/job/job_list.py) read.
use autosubmit.Prelude.{ℕ, String, Bool, Option, List}
use autosubmit.Prelude.Int.{ℤ}

-- A key of DEPENDENCIES with its distance: "SIM", "SIM-1" or "SIM+1".
pub data Key : Type 0 where
  plain : String → Key
  far : String → ℕ → Key

-- What the attributes of the list, the configuration and the arguments say.
pub record Context : Type 0 where
  -- `jobs_data[section].get("DEPENDENCIES", {}).keys()`, and RUNNING.
  pub dependencies : String → List String
  pub running : String → String
  pub dependency_map : String → List String
  pub dependency_map_with_distances : String → List Key
  pub depends_on_previous_chunk : Bool
  pub depends_on_special_chunk : Bool
  pub chunk_list : List ℕ
  pub member_list : List String
  pub date_list : List ℕ
  -- `DicJobs.get_jobs`
  pub find_jobs : String → Option ℕ → Option String → Option ℤ → List ℕ
  -- `distances_of_current_section.get(section, 0)`
  pub distance : String → ℕ
  pub max_distance : ℕ
  pub special_dependencies : List ℕ
  -- `job.frequency`
  pub frequency : Option ℕ

pub record SectionDependency : Type 0 where
  pub section : String
  pub has_relationships : Bool

-- What the edges are computed for.
pub record Coordinates : Type 0 where
  pub date : Option ℕ
  pub member : Option String
  pub chunk : Option ℕ
