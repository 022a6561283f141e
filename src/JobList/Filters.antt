-- ===== src/JobList/Filters.antt =====
-- The filters of a dependency: `get_filters_to_apply` of class `JobList` and what it calls
-- (autosubmit/job/job_list.py), from the values of the filters to the relationships of a section.
pub mod Ranges
pub mod Parse
pub mod Elements
pub mod Unify
pub mod Levels
pub mod Check
pub mod Written
pub mod Slices
pub mod Unknown
use autosubmit.Prelude.{
  ℕ, zero, suc, ◌+◌, ◌-◌, ◌/◌, ◌≡◌, ap, ◌≢◌, Bool, true, false, not, ◌&&◌, ◌||◌, Option, none, some,
  List, [], ◌∷◌, ◌++◌, length, ◌==◌, nat_eq, list_eq, Eq, ltb, if◌then◌else◌, min, Result, ok, err,
  value_error, type_error, ◌>>=◌, ℕ_discrete,
}
use autosubmit.Prelude.Int.{ℤ, pos, negsuc, Text, ◌+ℤ◌, neg, int_of}
use autosubmit.Prelude.Texts.{lower, upper, is_in, count, split, strip, replace, decimal}
use autosubmit.JobList.Distance.{get_elem, get_before, index_of}

-- The values of a filter: strings, integers, and dates, which are objects.
pub data Value : Type 0 where
  text : Text → Value
  int : ℤ → Value
  moment : ℕ → Value

ℤ-discrete : Discrete ℤ
ℤ-discrete = hlevel (ℕ_discrete)

text_discrete : Discrete Text
unfolding list_eq nat_eq
text_discrete = let e : Eq Text = list_eq in e.dec

Value-discrete : Discrete Value
unfolding ℤ-discrete text_discrete
Value-discrete = hlevel (ℕ_discrete, ℤ-discrete, text_discrete)

instance unfoldable pub value_eq : Eq Value
unfolding Value-discrete
value_eq = record { dec = Value-discrete }

-- The keys of a relationship.
pub data Level : Type 0 where
  dates_from members_from chunks_from splits_from dates_to members_to chunks_to splits_to : Level

-- `"SPLITS" in level`
abbrev pub about_splits : Level → Bool
about_splits splits_from = true
about_splits splits_to = true
about_splits _ = false

-- `level in ["CHUNKS_FROM", "SPLITS_FROM"]`
abbrev pub numbers_from : Level → Bool
numbers_from chunks_from = true
numbers_from splits_from = true
numbers_from _ = false

-- `level == "CHUNKS_TO"`
abbrev pub is_chunks_to : Level → Bool
is_chunks_to chunks_to = true
is_chunks_to _ = false

-- `int(x)`
unfoldable pub int_of_value : Value → Result ℤ
unfolding int_of
int_of_value (text s) = elim (int_of s) [ none ↦ err value_error | some z ↦ ok z ]
int_of_value (int z) = ok z
int_of_value (moment d) = err type_error
