-- ===== src/Prelude/Texts.antt =====
-- Python's methods on strings, for texts of ASCII code points.
use Prim.Native.Nat.{ℕ, zero, suc, ◌+◌, ◌-◌, ◌/◌, ◌%◌}
use mathlib.Core.Bool.{Bool, true, false, ◌&&◌, ◌||◌}
use mathlib.Core.List.{List, [], ◌∷◌, ◌++◌, reverse}
use autosubmit.Prelude.Tests.{ltb, leb, if◌then◌else◌}
use autosubmit.Prelude.Equality.{◌==◌, nat_eq, contains}
use autosubmit.Prelude.Lists.{length}
use autosubmit.Prelude.Int.{ℤ, pos, negsuc, Text}

unfoldable pub lower_char : ℕ → ℕ
lower_char c = if leb b'A' c && leb c b'Z' then c + 32 else c

unfoldable pub upper_char : ℕ → ℕ
upper_char c = if leb b'a' c && leb c b'z' then c - 32 else c

-- `s.lower()`, and `s.casefold()`, which is the same on ASCII.
unfoldable pub lower : Text → Text
unfolding lower_char
lower [] = []
lower (c ∷ s) = lower_char c ∷ lower s

-- `s.upper()`
unfoldable pub upper : Text → Text
unfolding upper_char
upper [] = []
upper (c ∷ s) = upper_char c ∷ upper s

-- `s.startswith(t)`
unfoldable pub starts_with : Text → Text → Bool
unfolding nat_eq
starts_with [] s = true
starts_with (c ∷ t) [] = false
starts_with (c ∷ t) (d ∷ s) = c == d && starts_with t s

-- `t in s`
unfoldable pub is_in : Text → Text → Bool
unfolding starts_with
is_in t [] = starts_with t []
is_in t (c ∷ s) = starts_with t (c ∷ s) || is_in t s

-- `s.count(c)`, of one character.
unfoldable pub count : ℕ → Text → ℕ
unfolding nat_eq
count c [] = 0
count c (d ∷ s) = let rest = count c s in if c == d then suc rest else rest

unfoldable pub split_from : ℕ → Text → Text → List Text
unfolding nat_eq
split_from c [] cur = cur ∷ []
split_from c (d ∷ s) cur = elim (c == d) [
  | true ↦ cur ∷ split_from c s []
  | false ↦ split_from c s (cur ++ (d ∷ []))
]

-- `s.split(c)`, at one character.
unfoldable pub split : ℕ → Text → List Text
unfolding split_from
split c s = split_from c s []

unfoldable pub strip_start : Text → Text → Text
unfolding nat_eq
strip_start cs [] = []
strip_start cs (c ∷ s) = let rest = strip_start cs s in if contains cs c then rest else c ∷ s

-- `s.strip(cs)`
unfoldable pub strip : Text → Text → Text
unfolding strip_start
strip cs s = reverse (strip_start cs (reverse (strip_start cs s)))

-- The text after an occurrence is replaced while `skip` of its characters are left.
replace_from : Text → Text → ℕ → Text → Text
unfolding starts_with
replace_from old new skip [] = []
replace_from old new (suc skip) (c ∷ s) = replace_from old new skip s
replace_from old new zero (c ∷ s) = elim (starts_with old (c ∷ s)) [
  | true ↦ new ++ replace_from old new (length old - 1) s
  | false ↦ c ∷ replace_from old new 0 s
]

-- `s.replace(old, new)`, of a text that is not empty.
unfoldable pub replace : Text → Text → Text → Text
unfolding replace_from
replace old new s = replace_from old new 0 s

decimal_from : ℕ → ℕ → Text → Text
decimal_from zero n rest = (b'0' + n % 10) ∷ rest
decimal_from (suc fuel) n rest =
    let more = decimal_from fuel (n / 10) ((b'0' + n % 10) ∷ rest) in
    if ltb n 10 then (b'0' + n % 10) ∷ rest else more

-- `str(n)`
unfoldable pub decimal : ℤ → Text
unfolding decimal_from
decimal (pos n) = decimal_from n n []
decimal (negsuc n) = b'-' ∷ decimal_from (n + 1) (n + 1) []
