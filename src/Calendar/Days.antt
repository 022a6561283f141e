-- ===== src/Calendar/Days.antt =====
-- How `calendar_split_size_isvalid` and `get_chunksize_in_hours` (autosubmit/job/job_utils.py) agree
-- with the calendar: the twelve months of a year with their days, and days of 24 hours.
use autosubmit.Prelude.{
  ℕ, zero, suc, ◌+◌, ◌*◌, ◌%◌, ◌≤◌, ◌≡◌, refl, ap, String, Bool, true, false, not, ◌&&◌, ◌||◌, List,
  [], ◌∷◌, ◌==◌, nat_eq, string_eq, leb, if◌then◌else◌, ok, ◌>>=◌, Bool-cases, arith, inl, inr,
}
use autosubmit.Prelude.Int.{Text}
use autosubmit.Calendar.{
  is_leap_year, month_days, year_of, month_of, get_chunksize_in_hours, split_size_in_hours,
  calendar_split_size_isvalid,
}

-- The Gregorian rule: every 400th year, and every fourth one that is no century.
abbrev pub has_leap_day : ℕ → Bool
has_leap_day year = year % 400 == 0 || (not (year % 100 == 0) && year % 4 == 0)

-- The days from January to December.
abbrev pub months_of : ℕ → List ℕ
months_of year =
    31
    ∷ (if has_leap_day year then 29 else 28)
    ∷ 31
    ∷ 30
    ∷ 31
    ∷ 30
    ∷ 31
    ∷ 31
    ∷ 30
    ∷ 31
    ∷ 30
    ∷ 31
    ∷ []

abbrev pub sum : List ℕ → ℕ
sum [] = 0
sum (d ∷ ds) = d + sum ds

-- The entry of a month from 1 on.
abbrev pub days_of : List ℕ → ℕ → ℕ
days_of [] month = 0
days_of (d ∷ ds) zero = 0
days_of (d ∷ ds) (suc zero) = d
days_of (d ∷ ds) (suc (suc m)) = days_of ds (suc m)

-- The hours of one unit; any other unit is an hour.
unfoldable pub unit_hours : ℕ → ℕ → String → ℕ
unfolding string_eq nat_eq
unit_hours year month unit =
    if unit == "year"
    then sum (months_of year) * 24
    else if unit == "month"
    then days_of (months_of year) month * 24
    else if unit == "day"
    then 24
    else 1

leap_same : (year : ℕ) → is_leap_year year ≡ has_leap_day year
unfolding is_leap_year
leap_same year = ground arith

month_days_lem :
    (year month : ℕ)
    → 1 ≤ month
    → month ≤ 12
    → month_days year month ≡ days_of (months_of year) month
unfolding month_days
month_days_lem year zero low high = absurd (omega (arith, low))
month_days_lem year (suc zero) low high = refl
month_days_lem year (suc (suc zero)) low high = ap (λ b. if b then 29 else 28) (leap_same year)
month_days_lem year (suc (suc (suc zero))) low high = refl
month_days_lem year (suc (suc (suc (suc zero)))) low high = refl
month_days_lem year (suc (suc (suc (suc (suc zero))))) low high = refl
month_days_lem year (suc (suc (suc (suc (suc (suc zero)))))) low high = refl
month_days_lem year (suc (suc (suc (suc (suc (suc (suc zero))))))) low high = refl
month_days_lem year (suc (suc (suc (suc (suc (suc (suc (suc zero)))))))) low high = refl
month_days_lem year (suc (suc (suc (suc (suc (suc (suc (suc (suc zero))))))))) low high = refl
month_days_lem year (suc (suc (suc (suc (suc (suc (suc (suc (suc (suc zero)))))))))) low high = refl
month_days_lem year (suc (suc (suc (suc (suc (suc (suc (suc (suc (suc (suc zero))))))))))) low
      high =
    refl
month_days_lem year (suc (suc (suc (suc (suc (suc (suc (suc (suc (suc (suc (suc zero)))))))))))) low
      high =
    refl
month_days_lem year (suc (suc (suc (suc (suc (suc (suc (suc (suc (suc (suc (suc (suc m)))))))))))))
      low high =
    absurd (omega (arith, high))

year_days_lem : (year : ℕ) → (if is_leap_year year then 366 else 365) ≡ sum (months_of year)
year_days_lem year = rw (leap_same year) (by_leap (has_leap_day year))
  where
    by_leap : (b : Bool) → (if b then 366 else 365) ≡ 31 + ((if b then 29 else 28) + 306)
    by_leap true = refl
    by_leap false = refl

module _ (date : Text) (year month : ℕ) (y : year_of date ≡ ok year) (m : month_of date ≡ ok month)
    (low : 1 ≤ month) (high : month ≤ 12) where
  get_chunksize_in_hours_lem :
      (unit : String) (n : ℕ)
      → get_chunksize_in_hours date unit n ≡ ok (unit_hours year month unit * n)
  unfolding get_chunksize_in_hours unit_hours
  get_chunksize_in_hours_lem unit n = elim (Bool-cases (unit == "year")) [
    | inl a ↦ rw (y, a) (ap (λ d. ok (d * 24 * n)) (year_days_lem year))
    | inr a ↦ elim (Bool-cases (unit == "month")) [
      | inl b ↦ rw (y, a, b, m) (ap (λ d. ok (d * 24 * n)) (month_days_lem year month low high))
      | inr b ↦ elim (Bool-cases (unit == "day")) [
        | inl c ↦ rw (y, a, b, c) refl
        | inr c ↦ rw (y, a, b, c) (ap ok (omega arith))
      ]
    ]
  ]

  split_size_in_hours_lem :
      (unit : String) (n : ℕ)
      → split_size_in_hours date n unit ≡ ok (unit_hours year month unit * n)
  unfolding split_size_in_hours unit_hours
  split_size_in_hours_lem unit n = elim (Bool-cases (unit == "year")) [
    | inl a ↦ rw (y, a) (ap (λ d. ok (d * 24 * n)) (year_days_lem year))
    | inr a ↦ elim (Bool-cases (unit == "month")) [
      | inl b ↦ rw (y, a, b, m) (ap (λ d. ok (d * 24 * n)) (month_days_lem year month low high))
      | inr b ↦ elim (Bool-cases (unit == "day")) [
        | inl c ↦ rw (y, a, b, c) refl
        | inr c ↦ rw (y, a, b, c) (ap ok (omega arith))
      ]
    ]
  ]

-- For a date whose year and month can be read, the month from 1 to 12, the hours of a chunk of `n`
-- units are those of its unit in the calendar times `n` (a year has the days of its twelve months,
-- with a 29th of February in a leap year, and a day 24 hours), and a split of `k` units, of the same
-- or of another unit, is valid for this chunk exactly if its hours, counted in the same way, are at
-- most those of the chunk.
pub calendar_split_size_isvalid-get_chunksize_in_hours :
    (date : Text) (year month : ℕ)
    → year_of date ≡ ok year
    → month_of date ≡ ok month
    → 1 ≤ month
    → month ≤ 12
    → (split_unit chunk_unit : String) (k n : ℕ)
    → (get_chunksize_in_hours date chunk_unit n ≡ ok (unit_hours year month chunk_unit * n))
      × ((get_chunksize_in_hours date chunk_unit n
            >>= calendar_split_size_isvalid date k split_unit)
          ≡ ok (leb (unit_hours year month split_unit * k) (unit_hours year month chunk_unit * n)))
unfolding calendar_split_size_isvalid
calendar_split_size_isvalid-get_chunksize_in_hours date year month y m low high split_unit
      chunk_unit k n =
    let hours = get_chunksize_in_hours_lem date year month y m low high chunk_unit n in
    (hours, rw (hours, split_size_in_hours_lem date year month y m low high split_unit k) refl)
