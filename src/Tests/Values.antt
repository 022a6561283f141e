-- ===== src/Tests/Values.antt =====
-- The theorems on identifiers, dates and nodes at work.
use autosubmit.Prelude.{
  ◌*◌, ◌>>=◌, ◌≤◌, ◌≡◌, refl, true, none, some, [], ◌∷◌, nat_eq, string_eq, leb, ok, arith,
}
use autosubmit.Prelude.Int.{pos, Text}
use autosubmit.Experiment.{base36encode, base36decode, is_valid_experiment_id, next_experiment_id}
use autosubmit.Experiment.Encoding.{base36decode-base36encode, next_experiment_id_lem}
use autosubmit.Calendar.{year_of, month_of, get_chunksize_in_hours, calendar_split_size_isvalid}
use autosubmit.Calendar.Days.{unit_hours, calendar_split_size_isvalid-get_chunksize_in_hours}
use autosubmit.Statistics.{calculate_processing_elements}
use autosubmit.Statistics.Elements.{calculate_processing_elements-covers}

-- "a00z"
abbrev ident : Text
ident = b'a' ∷ b'0' ∷ b'0' ∷ b'z' ∷ []

base36decode-base36encode_example : base36decode (base36encode (pos 466595)) ≡ ok (pos 466595)
base36decode-base36encode_example = base36decode-base36encode 466595

next_experiment_id_lem_example :
    (t : Text) × (next_experiment_id ident ≡ ok t)
    × (is_valid_experiment_id t ≡ ok true)
    × (base36decode t ≡ ok (pos 466596))
next_experiment_id_lem_example =
    next_experiment_id_lem ident 466595 (unfold is_valid_experiment_id in refl)
      (unfold base36decode nat_eq in refl)

-- "20000201"
abbrev date : Text
date = b'2' ∷ b'0' ∷ b'0' ∷ b'0' ∷ b'0' ∷ b'2' ∷ b'0' ∷ b'1' ∷ []

calendar_split_size_isvalid-get_chunksize_in_hours_example :
    (get_chunksize_in_hours date "month" 3 ≡ ok (unit_hours 2000 2 "month" * 3))
    × ((get_chunksize_in_hours date "month" 3 >>= calendar_split_size_isvalid date 40 "day")
        ≡ ok (leb (unit_hours 2000 2 "day" * 40) (unit_hours 2000 2 "month" * 3)))
calendar_split_size_isvalid-get_chunksize_in_hours_example =
    calendar_split_size_isvalid-get_chunksize_in_hours date 2000 2 (unfold year_of in refl)
      (unfold month_of in refl) (omega arith) (omega arith) "day" "month" 40 3

calculate_processing_elements-covers_example :
    100 ≤ calculate_processing_elements none 100 none (some 48) true
calculate_processing_elements-covers_example =
    calculate_processing_elements-covers 100 48 none true (omega arith) (λ t e. cc)
