-- ===== src/Packager/Horizontal.antt =====
-- `build_horizontal_package` of class `JobPackagerHorizontal` in autosubmit/job/job_packager.py,
-- without the components, which only the text of the wrapper uses.
use autosubmit.Prelude.{
  ℕ, ◌+◌, ◌-◌, ◌*◌, ◌/◌, String, Bool, true, false, not, ◌&&◌, ◌||◌, Option, none, some, List, [],
  ◌∷◌, ◌++◌, length, ◌==◌, nat_eq, string_eq, ltb, leb, if◌then◌else◌, Result, ok, err, key_error,
  ◌>>=◌, Map, get_key, set_key,
}
use autosubmit.Job.Record.{Job, Store}
pub mod Room

-- What the packager is made with. The processors of a job are its `total_processors`, `none` for the
-- empty text, after `processors` was set to 0 where nodes are given; no maximum is -1 in the source.
pub record HorizontalInput : Type 0 where
  pub store : Store
  pub max_h : ℕ
  pub max_jobs : ℕ
  pub max_by_section : Map String ℕ
  pub max_processors : Option ℕ
  pub processors_node : ℕ
  pub total_processors : ℕ → Option ℕ
  pub tasks : ℕ → ℕ

pub record Horizontal : Type 0 where
  pub current_package : List ℕ
  pub current_processors : ℕ
  pub by_section : Map String ℕ
  pub packed_during_building : List ℕ

abbrev pub or_zero : Option ℕ → ℕ
or_zero none = 0
or_zero (some n) = n

abbrev pub or_none : Option (List ℕ) → List ℕ
or_none none = []
or_none (some rs) = rs

module _ (i : HorizontalInput) where
  -- `jobs_by_section`: the sections in the order of their first jobs.
  unfoldable pub jobs_by_section : List ℕ → Map String (List ℕ) → Map String (List ℕ)
  unfolding get_key set_key string_eq
  jobs_by_section [] m = m
  jobs_by_section (r ∷ rs) m =
      let section = (i.store r).section in
      jobs_by_section rs (set_key section (or_none (get_key section m) ++ (r ∷ [])) m)

  -- `processors_node * ceil(total_processors / tasks)` where the tasks do not fill the nodes.
  unfoldable pub needed : ℕ → ℕ
  unfolding nat_eq
  needed r =
      let total = or_zero (i.total_processors r) in
      let tasks = i.tasks r in
      if not (tasks == 0) && (not (tasks == i.processors_node) && ltb i.processors_node total)
      then i.processors_node * ((total + (tasks - 1)) / tasks)
      else total

  unfoldable pub enough_processors : ℕ → Bool
  enough_processors n = elim i.max_processors [ none ↦ true | some p ↦ leb n p ]

  -- The limits on the number of jobs; that of the section is read last.
  unfoldable pub has_room : String → Horizontal → Result Bool
  unfolding get_key string_eq
  has_room section s =
      if ltb (length s.current_package) i.max_h && ltb (length s.current_package) i.max_jobs
      then elim (get_key section i.max_by_section) [
        | none ↦ err key_error
        | some m ↦ ok (ltb (or_zero (get_key section s.by_section)) m)
      ]
      else ok false

  unfoldable pub put_job : String → ℕ → Horizontal → Horizontal
  unfolding needed get_key set_key string_eq
  put_job section r s = record s {
    current_package = s.current_package ++ (r ∷ []);
    current_processors = s.current_processors + needed r;
    by_section = set_key section (or_zero (get_key section s.by_section) + 1) s.by_section;
    packed_during_building = r ∷ s.packed_during_building;
  }

  -- A job that needs too many processors is passed over.
  unfoldable pub consider : String → ℕ → Horizontal → Horizontal
  unfolding enough_processors needed put_job
  consider section r s =
      if enough_processors (s.current_processors + needed r) then put_job section r s else s

  -- The jobs of a section, until there is no room.
  unfoldable pub visit_section : String → List ℕ → Horizontal → Result Horizontal
  unfolding has_room consider
  visit_section section [] s = ok s
  visit_section section (r ∷ rs) s =
      let go = visit_section section rs in
      has_room section s >>= λ room. if room then go (consider section r s) else ok s

  unfoldable pub visit_sections : Map String (List ℕ) → Horizontal → Result Horizontal
  unfolding visit_section set_key string_eq
  visit_sections [] s = ok s
  visit_sections ((section, rs) ∷ rest) s = do
    let go = visit_sections rest
    v ← visit_section section rs (record s { by_section = set_key section 0 s.by_section })
    go v

  -- `processors` are those in use, 0 in wrappers that are horizontal and vertical.
  unfoldable pub build_horizontal_package : List ℕ → ℕ → List ℕ → Result Horizontal
  unfolding jobs_by_section visit_sections
  build_horizontal_package job_list processors packed =
      visit_sections (jobs_by_section job_list []) (record {
        current_package = [];
        current_processors = processors;
        by_section = [];
        packed_during_building = packed;
      })
