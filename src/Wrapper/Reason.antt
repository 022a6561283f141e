-- ===== src/Wrapper/Reason.antt =====
-- The reasons for which a queuing job is cancelled: `queuing_reason_cancel` of class `Job` and
-- `_queuing_reason_cancel` of class `WrapperJob`, which are the same code.
pub mod Cancelled
use Prim.Native.Char.{code}
use Prim.Native.String.{[] as no_text, ◌∷◌ as ◌before◌}
use autosubmit.Prelude.{
  ℕ, String, Bool, false, ◌||◌, Option, none, some, ◌≡◌, ap, ◌++◌, arith, List, [], ◌∷◌, ◌==◌,
  nat_eq, list_eq, contains, if◌then◌else◌, map,
}
use autosubmit.Prelude.Int.{Text}
use autosubmit.Prelude.Texts.{is_in}

-- The code points of a codes.
unfoldable pub codes : String → Text
codes no_text = []
codes (c before s) = code c ∷ codes s

-- `s.split(c, 1)[1]`, if the separator is there.
unfoldable pub after_first : ℕ → Text → Option Text
after_first c [] = none
after_first c (d ∷ s) = if c == d then some s else after_first c s

-- `s.split(c)[0]`
unfoldable pub before_first : ℕ → Text → Text
before_first c [] = []
before_first c (d ∷ s) = if c == d then [] else d ∷ before_first c s

unfoldable pub known_reasons : List Text
unfolding codes
known_reasons = map codes (
    "AssociationJobLimit" ∷ "AssociationResourceLimit" ∷ "AssociationTimeLimit" ∷ "BadConstraints"
    ∷ "QOSMaxCpuMinutesPerJobLimit" ∷ "QOSMaxWallDurationPerJobLimit" ∷ "QOSMaxNodePerJobLimit"
    ∷ "DependencyNeverSatisfied" ∷ "QOSMaxMemoryPerJob" ∷ "QOSMaxMemoryPerNode"
    ∷ "QOSMaxMemoryMinutesPerJob" ∷ "QOSMaxNodeMinutesPerJob" ∷ "InactiveLimit" ∷ "JobLaunchFailure"
    ∷ "NonZeroExitCode" ∷ "PartitionNodeLimit" ∷ "PartitionTimeLimit" ∷ "SystemFailure"
    ∷ "TimeLimit" ∷ "QOSUsageThreshold" ∷ "QOSTimeLimit" ∷ "QOSResourceLimit" ∷ "QOSJobLimit"
    ∷ "InvalidQOS" ∷ "InvalidAccount" ∷ [])

-- On the codes between the first `(` and the next `)`.
unfoldable pub is_known : Text → Bool
unfolding is_in known_reasons codes nat_eq list_eq
is_known reason = is_in (codes "Invalid") reason || contains known_reasons reason

unfoldable pub queuing_reason_cancel : Text → Bool
unfolding after_first before_first is_known nat_eq
queuing_reason_cancel reason = elim (after_first b'(' reason) [
  | none ↦ false
  | some rest ↦ is_known (before_first b')' rest)
]
