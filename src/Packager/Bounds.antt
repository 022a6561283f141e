-- ===== src/Packager/Bounds.antt =====
-- `calculate_wrapper_bounds`: how many jobs a wrapper may hold.
pub mod Order
use autosubmit.Prelude.{
  ℕ, ◌*◌, String, Bool, ◌&&◌, ◌||◌, Option, none, some, List, [], ◌∷◌, ◌==◌, nat_eq, string_eq, ltb,
  if◌then◌else◌, length, map,
}
use autosubmit.Job.Record.{Dict}
use autosubmit.JobList.State.{JobList}

-- MIN_WRAPPED, MAX_WRAPPED, MIN_WRAPPED_V, ... of a wrapper, or of all wrappers.
pub record WrapperData : Type 0 where
  pub min_wrapped : Option ℕ
  pub max_wrapped : Option ℕ
  pub min_wrapped_v : Option ℕ
  pub max_wrapped_v : Option ℕ
  pub min_wrapped_h : Option ℕ
  pub max_wrapped_h : Option ℕ
  pub type_name : Option String

pub record WrapperLimits : Type 0 where
  pub min_total : ℕ
  pub max_total : ℕ
  pub min_v : ℕ
  pub max_v : ℕ
  pub min_h : ℕ
  pub max_h : ℕ
  pub max_by_section : Dict ℕ
  pub real_min : ℕ

-- `d.get(key, default)`
abbrev pub get : {A : Type 0} → Option A → A → A
get (some a) d = a
get none d = d

-- `max(a, b)`
abbrev pub max_of : ℕ → ℕ → ℕ
max_of a b = if ltb a b then b else a

-- The part under `if len(jobs_to_run_first) == 0`, on the values that were read.
unfoldable pub adjust : String → WrapperLimits → WrapperLimits
unfolding nat_eq string_eq
adjust type_name w =
    let most = if ltb w.max_total (w.max_v * w.max_h) then w.max_v * w.max_h else w.max_total in
    let least =
      if ltb w.min_total (w.min_v * w.min_h) then max_of w.min_v w.min_h else w.min_total in
    record w {
      max_total = most;
      min_total = least;
      max_v = if w.max_v == 1 || type_name == "vertical" then most else w.max_v;
      max_h = if w.max_h == 1 || type_name == "horizontal" then most else w.max_h;
      min_v = if w.min_v == 1 && type_name == "vertical" then least else w.min_v;
      min_h = if w.min_h == 1 && type_name == "horizontal" then least else w.min_h;
    }

abbrev pub default_limits : WrapperLimits
default_limits = record {
  min_total = 1;
  max_total = 9999999;
  min_v = 1;
  max_v = 9999999;
  min_h = 1;
  max_h = 9999999;
  max_by_section = [];
  real_min = 0;
}

-- What the wrapper's own section and the section of all wrappers say.
abbrev pub read_limits : WrapperData → WrapperData → WrapperLimits
read_limits all_data own = record default_limits {
  min_total = get own.min_wrapped (get all_data.min_wrapped 1);
  max_total = get own.max_wrapped (get all_data.max_wrapped 9999999);
  min_v = get own.min_wrapped_v (get all_data.min_wrapped_v 1);
  max_v = get own.max_wrapped_v (get all_data.max_wrapped_v 1);
  min_h = get own.min_wrapped_h (get all_data.min_wrapped_h 1);
  max_h = get own.max_wrapped_h (get all_data.max_wrapped_h 1);
}

-- The configured MAX_WRAPPED of each section of the wrapper is an argument.
unfoldable pub calculate_wrapper_bounds :
    WrapperData → WrapperData → (String → Option ℕ) → List String → JobList → WrapperLimits
unfolding adjust nat_eq
calculate_wrapper_bounds all_data own section_max sections l =
    let w =
      if length l.jobs_to_run_first == 0
      then adjust (get own.type_name "") (read_limits all_data own)
      else default_limits in
    record w {
      max_by_section = map (λ s. (s, get (section_max s) w.max_total)) sections;
      real_min = max_of 2 w.min_total;
    }
