-- ===== src/Calendar.antt =====
-- The sizes of chunks and splits: the calendar functions of autosubmit/job/job_utils.py. `lower` is
-- Python's `str.lower`.
pub mod Days
use autosubmit.Prelude.{
  take, drop, ℕ, zero, suc, ◌*◌, ◌%◌, String, Bool, true, false, not, ◌&&◌, ◌||◌, Option, none,
  some, List, [], ◌∷◌, ◌==◌, nat_eq, string_eq, ltb, leb, if◌then◌else◌, Result, ok, err,
  value_error, key_error, critical, ◌>>=◌,
}
use autosubmit.Prelude.Int.{Text, int_of_digits}

unfoldable pub is_leap_year : ℕ → Bool
unfolding nat_eq
is_leap_year year = year % 4 == 0 && (not (year % 100 == 0) || year % 400 == 0)

-- `CALENDAR_UNITSIZE_ENUM[unit]`
unfoldable pub unit_value : String → Option ℕ
unfolding string_eq
unit_value u =
    if u == "hour"
    then some 0
    else if u == "day"
    then some 1
    else if u == "month"
    then some 2
    else if u == "year"
    then some 3
    else none

compare_units : Option ℕ → Option ℕ → Result Bool
compare_units none b = err critical
compare_units (some a) none = err critical
compare_units (some a) (some b) = ok (ltb b a)

unfoldable pub calendar_unitsize_isgreater : (String → String) → String → String → Result Bool
unfolding unit_value compare_units
calendar_unitsize_isgreater lower split_unit chunk_unit =
    compare_units (unit_value (lower split_unit)) (unit_value (lower chunk_unit))

-- The unit before the one of this value.
lower_unit : Option ℕ → Result String
lower_unit none = err key_error
lower_unit (some zero) = ok "hour"
lower_unit (some (suc zero)) = ok "hour"
lower_unit (some (suc (suc zero))) = ok "day"
lower_unit (some (suc (suc (suc n)))) = ok "month"

unfoldable pub calendar_unitsize_getlowersize : (String → String) → String → Result String
unfolding unit_value lower_unit
calendar_unitsize_getlowersize lower unit = lower_unit (unit_value (lower unit))

number : Option ℕ → Result ℕ
number none = err value_error
number (some n) = ok n

-- `int(date_str[0:4])` and `int(date_str[4:6])`, of a date YYYYMMDD.
unfoldable pub year_of : Text → Result ℕ
unfolding number int_of_digits
year_of date = number (int_of_digits (take 4 date))

unfoldable pub month_of : Text → Result ℕ
unfolding number int_of_digits
month_of date = number (int_of_digits (take 2 (drop 4 date)))

unfoldable pub month_days : ℕ → ℕ → ℕ
unfolding is_leap_year nat_eq
month_days year month =
    if month == 2
    then (if is_leap_year year then 29 else 28)
    else if month == 4 || (month == 6 || (month == 9 || month == 11))
    then 30
    else 31

unfoldable pub calendar_get_month_days : Text → Result ℕ
unfolding year_of month_of month_days
calendar_get_month_days date = do
  year ← year_of date
  month ← month_of date
  ok (month_days year month)

unfoldable pub get_chunksize_in_hours : Text → String → ℕ → Result ℕ
unfolding year_of calendar_get_month_days is_leap_year string_eq
get_chunksize_in_hours date chunk_unit chunk_length = year_of date >>= λ year.
    let num_days_in_a_year = if is_leap_year year then 366 else 365 in
    if chunk_unit == "year"
    then ok (num_days_in_a_year * 24 * chunk_length)
    else if chunk_unit == "month"
    then (calendar_get_month_days date >>= λ days. ok (days * 24 * chunk_length))
    else if chunk_unit == "day"
    then ok (24 * chunk_length)
    else ok chunk_length

unfoldable pub split_size_in_hours : Text → ℕ → String → Result ℕ
unfolding year_of calendar_get_month_days is_leap_year string_eq
split_size_in_hours date split_size split_unit = year_of date >>= λ year.
    let num_days_in_a_year = if is_leap_year year then 366 else 365 in
    if split_unit == "year"
    then ok (num_days_in_a_year * 24 * split_size)
    else if split_unit == "month"
    then (calendar_get_month_days date >>= λ days. ok (days * 24 * split_size))
    else if split_unit == "day"
    then ok (24 * split_size)
    else ok split_size

unfoldable pub calendar_split_size_isvalid : Text → ℕ → String → ℕ → Result Bool
unfolding split_size_in_hours
calendar_split_size_isvalid date split_size split_unit chunk_size_in_hours = do
  hours ← split_size_in_hours date split_size split_unit
  ok (leb hours chunk_size_in_hours)

abbrev pub or_else : Option String → String → String
or_else none d = d
or_else (some s) d = s

-- SPLITSIZEUNIT of the section, or the unit below CHUNKSIZEUNIT of the experiment.
unfoldable pub get_split_size_unit : (String → String) → Option String → Option String → String
unfolding string_eq
get_split_size_unit lower section_unit chunk_unit =
    let split_unit = lower (or_else section_unit "none") in
    let unit = lower (or_else chunk_unit "day") in
    if split_unit == "none"
    then (if unit == "year"
        then "month"
        else if unit == "month"
        then "day"
        else if unit == "day"
        then "hour"
        else "day")
    else split_unit
