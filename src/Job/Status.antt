-- ===== src/Job/Status.antt =====
-- The statuses of a job: class `Status` of autosubmit/job/job_common.py.
use autosubmit.Prelude.{
  ℕ, String, Option, none, some, List, [], ◌∷◌, ◌==◌, Eq, string_eq, if◌then◌else◌,
}
use autosubmit.Prelude.Int.{ℤ, pos, negsuc}

pub data Status : Type 0 where
  waiting ready submitted queuing running completed held prepared skipped failed : Status
  delayed unknown suspended : Status

unfoldable pub Status-discrete : Discrete Status
Status-discrete = hlevel

instance unfoldable pub status_eq : Eq Status
unfolding Status-discrete
status_eq = record { dec = Status-discrete }

-- The integer constants of the class.
unfoldable pub value : Status → ℤ
value waiting = pos 0
value ready = pos 1
value submitted = pos 2
value queuing = pos 3
value running = pos 4
value completed = pos 5
value held = pos 6
value prepared = pos 7
value skipped = pos 8
value failed = negsuc 0
value delayed = pos 9
value unknown = negsuc 1
value suspended = negsuc 2

-- `VALUE_TO_KEY`
unfoldable pub value_to_key : Status → String
value_to_key suspended = "SUSPENDED"
value_to_key unknown = "UNKNOWN"
value_to_key failed = "FAILED"
value_to_key waiting = "WAITING"
value_to_key ready = "READY"
value_to_key submitted = "SUBMITTED"
value_to_key queuing = "QUEUING"
value_to_key running = "RUNNING"
value_to_key completed = "COMPLETED"
value_to_key held = "HELD"
value_to_key prepared = "PREPARED"
value_to_key skipped = "SKIPPED"
value_to_key delayed = "DELAYED"

-- `KEY_TO_VALUE`, in the order of the dictionary.
unfoldable pub key_to_value : List (String × Status)
key_to_value =
    ("SUSPENDED", suspended)
    ∷ ("UNKNOWN", unknown)
    ∷ ("FAILED", failed)
    ∷ ("WAITING", waiting)
    ∷ ("READY", ready)
    ∷ ("SUBMITTED", submitted)
    ∷ ("QUEUING", queuing)
    ∷ ("RUNNING", running)
    ∷ ("COMPLETED", completed)
    ∷ ("HELD", held)
    ∷ ("PREPARED", prepared)
    ∷ ("SKIPPED", skipped)
    ∷ ("DELAYED", delayed)
    ∷ []

unfoldable pub find_key : String → List (String × Status) → Option Status
find_key k [] = none
find_key k ((j, s) ∷ rest) = if k == j then some s else find_key k rest

-- `KEY_TO_VALUE[key]`, and `getattr(Status, key)`; `none` is the KeyError.
unfoldable pub status_of_key : String → Option Status
unfolding find_key key_to_value string_eq
status_of_key k = find_key k key_to_value

-- `LOGICAL_ORDER.index(VALUE_TO_KEY[status])`
unfoldable pub logical_index : Status → ℕ
logical_index waiting = 0
logical_index delayed = 1
logical_index prepared = 2
logical_index ready = 3
logical_index submitted = 4
logical_index held = 5
logical_index queuing = 6
logical_index running = 7
logical_index skipped = 8
logical_index failed = 9
logical_index unknown = 10
logical_index completed = 11
logical_index suspended = 12
