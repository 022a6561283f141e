-- ===== src/Packager/Vertical.antt =====
-- `build_vertical_package` with `get_wrappable_child` and `_is_wrappable`, of the classes
-- `JobPackagerVertical` and `JobPackagerVerticalMixed` in autosubmit/job/job_packager.py.
use autosubmit.Prelude.{
  drop, ℕ, zero, suc, ◌+◌, String, Bool, true, false, not, ◌&&◌, ◌||◌, Option, none, some, List, [],
  ◌∷◌, ◌++◌, length, ◌==◌, nat_eq, string_eq, contains, ltb, leb, if◌then◌else◌, all, Result, ok,
  err, key_error, ◌>>=◌, Map, get_key, set_key,
}
use autosubmit.Prelude.Int.{Text}
use autosubmit.Job.Status.{Status, waiting, ready, prepared, delayed, completed, status_eq}
use autosubmit.Job.Record.{Job, Store}
pub mod Chain

-- What the packager is made with. The wallclock of a job is the one that `update_parameters` leaves,
-- and `sum_str_hours` is a function of the bscearth package.
pub record VerticalInput : Type 0 where
  pub store : Store
  pub sorted_jobs : List ℕ
  pub max_v : ℕ
  pub max_jobs : ℕ
  pub max_by_section : Map String ℕ
  pub max_wallclock : Text
  pub wallclock : ℕ → Text
  pub sum_str_hours : Text → Text → Text

-- The fields that change, and of the jobs `packed_during_building` and `level`.
pub record Vertical : Type 0 where
  pub jobs_list : List ℕ
  pub total_wallclock : Text
  pub index : ℕ
  pub packed_during_building : List ℕ
  pub level : Map ℕ ℕ

-- `a <= b` on texts
unfoldable pub text_le : Text → Text → Bool
text_le [] b = true
text_le (x ∷ a) [] = false
text_le (x ∷ a) (y ∷ b) = ltb x y || (x == y && text_le a b)

abbrev pub is_empty : Text → Bool
is_empty [] = true
is_empty (c ∷ s) = false

module _ (i : VerticalInput) where
  unfoldable pub is_wrappable : Vertical → ℕ → Bool
  unfolding nat_eq status_eq
  is_wrappable s r =
      not (contains s.packed_during_building r)
      && (contains (waiting ∷ ready ∷ prepared ∷ delayed ∷ []) (i.store r).status
          && all (λ q. contains s.jobs_list q || (i.store q).status == completed)
              (i.store r).parents)

  -- The loop of `get_wrappable_child`, over the jobs from the index on: the child, and `index + 1`.
  unfoldable pub first_wrappable : Vertical → ℕ → ℕ → List ℕ → Option (ℕ × ℕ)
  unfolding is_wrappable string_eq
  first_wrappable s job index [] = none
  first_wrappable s job index (r ∷ rs) =
      let rest = first_wrappable s job (index + 1) rs in
      if not ((i.store r).name == (i.store job).name) && is_wrappable s r
      then some (r, index + 1)
      else rest

  unfoldable pub get_wrappable_child : Vertical → ℕ → Option (ℕ × ℕ)
  unfolding first_wrappable
  get_wrappable_child s job = first_wrappable s job s.index (drop s.index i.sorted_jobs)

  -- The limit of the section is read only where the first limit is not reached.
  unfoldable pub is_full : Vertical → ℕ → Result Bool
  unfolding get_key string_eq
  is_full s job =
      if leb i.max_v (length s.jobs_list)
      then ok true
      else elim (get_key (i.store job).section i.max_by_section) [
        | none ↦ err key_error
        | some m ↦ ok (leb m (length s.jobs_list) || leb i.max_jobs (length s.jobs_list))
      ]

  -- The child that was found: its wallclock counts, and the search goes on behind it.
  unfoldable pub take_child : ℕ → ℕ → Vertical → Vertical
  take_child child next s = record s {
    index = next;
    total_wallclock = i.sum_str_hours s.total_wallclock (i.wallclock child);
  }

  unfoldable pub append_child : ℕ → ℕ → Vertical → Vertical
  unfolding set_key nat_eq
  append_child child level s = record s {
    jobs_list = s.jobs_list ++ (child ∷ []);
    packed_during_building = child ∷ s.packed_during_building;
    level = set_key child level s.level;
  }

  unfoldable pub has_time : Vertical → Bool
  unfolding text_le
  has_time s = text_le s.total_wallclock i.max_wallclock || is_empty i.max_wallclock

  -- One round that is not stopped by the limits; `go` takes the child from the stack.
  unfoldable pub wrap_child :
      (ℕ → ℕ → Vertical → Result (Bool × Vertical)) → ℕ → ℕ → Vertical → Result (Bool × Vertical)
  unfolding get_wrappable_child take_child append_child has_time
  wrap_child go job level s = elim (get_wrappable_child s job) [
    | none ↦ ok (true, s)
    | some (child, next) ↦
        if has_time (take_child child next s)
        then go child (level + 1) (append_child child level (take_child child next s))
        else ok (true, take_child child next s)
  ]

  -- The stack holds one job at most. The flag says that it is empty at the end.
  unfoldable pub build_from : ℕ → ℕ → ℕ → Vertical → Result (Bool × Vertical)
  unfolding is_full wrap_child
  build_from zero job level s = ok (false, s)
  build_from (suc fuel) job level s =
      let go = build_from fuel in
      is_full s job >>= λ full. if full then ok (true, s) else wrap_child go job level s

  -- The packager is made with the list of the job; the search ends behind the last sorted job.
  unfoldable pub build_vertical_package : List ℕ → ℕ → Result (Bool × Vertical)
  unfolding build_from
  build_vertical_package packed job = build_from (length i.sorted_jobs + 1) job 1 (record {
    jobs_list = job ∷ [];
    total_wallclock = i.wallclock job;
    index = 0;
    packed_during_building = packed;
    level = [];
  })
