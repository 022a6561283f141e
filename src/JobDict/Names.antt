-- ===== src/JobDict/Names.antt =====
-- The names of jobs, and `build_job` and `_create_jobs_split`. A date is a number that `date2str`
-- writes out in the format of the experiment.
use autosubmit.Prelude.{
  ℕ, zero, suc, ◌+◌, ◌/◌, ◌%◌, Bool, Option, none, some, List, [], ◌∷◌, ◌++◌, ltb, if◌then◌else◌,
  map, String,
}
use autosubmit.Prelude.Int.{ℤ, pos, negsuc, Text}

-- What `DicJobs` is made from, and `_job_list`: the names of the jobs that are loaded.
pub record DicJobs : Type 0 where
  pub expid : Text
  pub date_list : List ℕ
  pub member_list : List Text
  pub chunk_list : List ℕ
  pub date2str : ℕ → Text
  pub loaded_names : Text → Bool

-- A section and the arguments that every job of it is built with.
pub record Section : Type 0 where
  pub name : Text
  pub priority : ℤ
  pub job_type : String

-- The coordinates of a job, each `none` where the source passes `None`.
pub record Place : Type 0 where
  pub date : Option ℕ
  pub member : Option Text
  pub chunk : Option ℕ

pub record NewJob : Type 0 where
  pub name : Text
  pub section : Text
  pub priority : ℤ
  pub job_type : String
  pub place : Place
  pub split : ℤ
  pub splits : ℤ

-- A new job, or the job of that name from the loaded ones.
pub data Built : Type 0 where
  fresh : NewJob → Built
  loaded : Text → Built

digits_from : ℕ → ℕ → Text → Text
digits_from zero n s = s
digits_from (suc fuel) n s =
    let rest = digits_from fuel (n / 10) ((b'0' + n % 10) ∷ s) in if ltb 0 n then rest else s

-- `str(n)`; each round divides the number, so the number itself is fuel enough.
unfoldable pub str : ℕ → Text
unfolding digits_from
str n = if ltb 0 n then digits_from n n [] else b'0' ∷ []

-- `"_" + text`
abbrev pub underscore : Text → Text
underscore s = b'_' ∷ s

unfoldable pub date_part : DicJobs → Option ℕ → Text
date_part s none = []
date_part s (some d) = underscore (s.date2str d)

-- `if member:`, so an empty text adds nothing.
unfoldable pub member_part : Option Text → Text
member_part none = []
member_part (some []) = []
member_part (some (c ∷ m)) = underscore (c ∷ m)

-- `if chunk:`, so chunk 0 adds nothing.
unfoldable pub chunk_part : Option ℕ → Text
unfolding str
chunk_part none = []
chunk_part (some c) = if ltb 0 c then underscore (str c) else []

unfoldable pub split_part : ℤ → Text
unfolding str
split_part (pos n) = if ltb 0 n then underscore (str n) else []
split_part (negsuc n) = []

unfoldable pub job_name : DicJobs → Text → Place → ℤ → Text
unfolding date_part member_part chunk_part split_part
job_name s section p split =
    s.expid
    ++ (date_part s p.date
        ++ (member_part p.member
            ++ (chunk_part p.chunk ++ (split_part split ++ underscore section))))

-- `build_job`, without `update_dict_parameters`, which reads the configuration into the job.
unfoldable pub build_job : DicJobs → Section → Place → ℤ → ℤ → Built
unfolding job_name
build_job s section p splits split =
    let name = job_name s section.name p split in
    if s.loaded_names name
    then loaded name
    else fresh (record {
      name = name;
      section = section.name;
      priority = section.priority;
      job_type = section.job_type;
      place = p;
      split = split;
      splits = splits;
    })

-- `range(i, i + n)`
count_up : ℕ → ℕ → List ℤ
count_up i zero = []
count_up i (suc n) = pos i ∷ count_up (i + 1) n

-- `[-1] if splits <= 0 else range(1, splits + 1)`
unfoldable pub splits_list : ℤ → List ℤ
unfolding count_up
splits_list (pos n) = if ltb 0 n then count_up 1 n else negsuc 0 ∷ []
splits_list (negsuc n) = negsuc 0 ∷ []

-- `_create_jobs_split`: what it appends to its list.
unfoldable pub create_jobs_split : DicJobs → Section → ℤ → Place → List Built
unfolding build_job splits_list
create_jobs_split s section splits p = map (build_job s section p splits) (splits_list splits)
