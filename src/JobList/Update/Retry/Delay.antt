-- ===== src/JobList/Update/Retry/Delay.antt =====
-- How long a failed job waits before it is tried again: DELAY_RETRY_TIME as it is read.
use autosubmit.Prelude.{
  ℕ, zero, suc, ◌||◌, Option, none, some, [], ◌∷◌, ◌==◌, contains, nat_eq, if◌then◌else◌, Result,
  ok, err, value_error, ◌>>=◌,
}
use autosubmit.Prelude.Int.{ℤ, pos, Text, int_of, scale, ◌+ℤ◌}

to_int : Option ℤ → Result ℤ
to_int (some z) = ok z
to_int none = err value_error

-- `int(s)`
unfoldable pub int_value : Text → Result ℤ
unfolding int_of to_int
int_value s = to_int (int_of s)

-- `s[:-1]`
unfoldable pub drop_last : Text → Text
drop_last [] = []
drop_last (c ∷ []) = []
drop_last (c ∷ (d ∷ s)) = c ∷ drop_last (d ∷ s)

-- `s[1:]`
abbrev pub tail : Text → Text
tail [] = []
tail (c ∷ s) = s

-- `aux_job_delay`, from the job's DELAY_RETRIALS.
unfoldable pub aux_job_delay : Text → Result ℤ
unfolding int_value nat_eq
aux_job_delay [] = ok (pos 0)
aux_job_delay (c ∷ s) = if b'+' == c || b'*' == c then int_value s else int_value (c ∷ s)

-- `for retrial_amount in range(0, fail_count): retry_delay += retry_delay * 10`
unfoldable pub grow : ℕ → ℤ → ℤ
grow zero d = d
grow (suc n) d = grow n (d +ℤ scale 10 d)

-- `retry_delay`, from the text of the delay and the number of failures.
unfoldable pub retry_delay_of : ℕ → Text → Result ℤ
unfolding int_value drop_last grow nat_eq
retry_delay_of fail_count s =
    if contains s b'+'
    then (do d ← int_value (drop_last s); ok (scale fail_count d +ℤ d))
    else if contains s b'*'
    then (do d ← int_value (tail s); ok (grow fail_count d))
    else int_value s
